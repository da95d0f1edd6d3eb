-- ===== src/Api/Serialise.antt =====
-- crates/api/src/serialise.rs: the rows as they go over the wire. A 64-bit number is its decimal text; an
-- amount stands for the text that its codec makes of it.
pub mod Faithful
pub mod Shows
use indexer_rs.Base.{ℤ, String, Option, none, some, List, [], ◌∷◌, map}
use indexer_rs.Base.Text.Print.{to_string}
use indexer_rs.Domain.{Wei, Hash, Address, Block, Transaction, Log, TokenTransfer}
use indexer_rs.Domain.Kinds.{tx_type_as_str, standard_as_str}

pub record WireBlock : Type 0 where
  pub height : String
  pub hash : Hash
  pub parent_hash : Hash
  pub timestamp : String
  pub validator : String
  pub gas_used : String
  pub gas_limit : String
  pub base_fee : Option Wei
  pub tx_count : ℤ
  pub state_root : Option Hash
  pub round : ℤ

unfoldable pub wire_block : Block → WireBlock
wire_block b = record {
  height = to_string b.height;
  hash = b.hash;
  parent_hash = b.parent_hash;
  timestamp = to_string b.timestamp;
  validator = b.validator;
  gas_used = to_string b.gas_used;
  gas_limit = to_string b.gas_limit;
  base_fee = b.base_fee;
  tx_count = b.tx_count;
  state_root = b.state_root;
  round = b.round;
}

pub record WireTransaction : Type 0 where
  pub hash : Hash
  pub block_height : String
  pub tx_index : ℤ
  pub from : Address
  pub to : Option Address
  pub value : Wei
  pub gas_limit : String
  pub gas_used : Option String
  pub gas_price : Option Wei
  pub fee : Wei
  pub nonce : String
  pub input : Option String
  pub status : ℤ
  pub contract_address : Option Address
  pub tx_type : String

abbrev pub optional_text : Option ℤ → Option String
optional_text none = none
optional_text (some n) = some (to_string n)

unfoldable pub wire_tx : Transaction → WireTransaction
wire_tx t = record {
  hash = t.hash;
  block_height = to_string t.block_height;
  tx_index = t.tx_index;
  from = t.from_addr;
  to = t.to_addr;
  value = t.value;
  gas_limit = to_string t.gas_limit;
  gas_used = optional_text t.gas_used;
  gas_price = t.gas_price;
  fee = t.fee;
  nonce = to_string t.nonce;
  input = t.input;
  status = t.status;
  contract_address = t.contract_address;
  tx_type = tx_type_as_str t.tx_type;
}

pub record WireLog : Type 0 where
  pub block_height : String
  pub tx_hash : Hash
  pub log_index : ℤ
  pub address : Address
  pub topics : List Hash
  pub payload : Option String

-- The topics that are there, in their order.
abbrev pub present : List (Option Hash) → List Hash
present [] = []
present (none ∷ topics) = present topics
present (some t ∷ topics) = t ∷ present topics

unfoldable pub wire_log : Log → WireLog
wire_log l = record {
  block_height = to_string l.block_height;
  tx_hash = l.tx_hash;
  log_index = l.log_index;
  address = l.address;
  topics = present (l.topic0 ∷ l.topic1 ∷ l.topic2 ∷ l.topic3 ∷ []);
  payload = l.payload;
}

pub record WireTransfer : Type 0 where
  pub id : Option ℤ
  pub block_height : String
  pub tx_hash : Hash
  pub log_index : ℤ
  pub contract : Address
  pub standard : String
  pub from_addr : Address
  pub to_addr : Address
  pub token_id : Option Wei
  pub amount : Wei

unfoldable pub wire_transfer : TokenTransfer → WireTransfer
wire_transfer t = record {
  id = t.id;
  block_height = to_string t.block_height;
  tx_hash = t.tx_hash;
  log_index = t.log_index;
  contract = t.contract;
  standard = standard_as_str t.standard;
  from_addr = t.from_addr;
  to_addr = t.to_addr;
  token_id = t.token_id;
  amount = t.amount;
}

pub record WireBlockWithTxs : Type 0 where
  pub block : WireBlock
  pub transactions : List WireTransaction
