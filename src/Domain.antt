-- ===== src/Domain.antt =====
-- crates/domain: the row types that the crates share. Heights and indexes are the integers that their
-- `i64` and `i32` hold, amounts the numbers that a U256 holds, hashes and addresses are texts.
pub mod Kinds
use indexer_rs.Base.{ℕ, ℤ, pos, negsuc, String, Option, none, some, List, as_i64}
use indexer_rs.Domain.Kinds.{TxType, TokenStandard}

abbrev pub BlockHeight : Type 0
BlockHeight = ℤ

abbrev pub TxIndex : Type 0
TxIndex = ℤ

abbrev pub LogIndex : Type 0
LogIndex = ℤ

abbrev pub Wei : Type 0
Wei = ℕ

abbrev pub Hash : Type 0
Hash = String

abbrev pub Address : Type 0
Address = String

-- The height as a `u64`; none for the "no cursor" sentinel and any other negative value.
unfoldable pub as_u64 : BlockHeight → Option ℕ
as_u64 (pos n) = some n
as_u64 (negsuc n) = none

-- `From<u64>`, which casts.
unfoldable pub height_from_u64 : ℕ → BlockHeight
height_from_u64 v = as_i64 v

pub record Block : Type 0 where
  pub height : BlockHeight
  pub hash : Hash
  pub parent_hash : Hash
  pub timestamp : ℤ
  pub validator : String
  pub gas_used : ℤ
  pub gas_limit : ℤ
  pub base_fee : Option Wei
  pub tx_count : ℤ
  pub state_root : Option Hash
  pub round : ℤ
  pub justification_signers : List String

pub record Transaction : Type 0 where
  pub hash : Hash
  pub block_height : BlockHeight
  pub tx_index : TxIndex
  pub from_addr : Address
  pub to_addr : Option Address
  pub value : Wei
  pub gas_limit : ℤ
  pub gas_used : Option ℤ
  pub gas_price : Option Wei
  pub fee : Wei
  pub nonce : ℤ
  pub input : Option String
  pub status : ℤ
  pub contract_address : Option Address
  pub tx_type : TxType

pub record Log : Type 0 where
  pub block_height : BlockHeight
  pub tx_hash : Hash
  pub log_index : LogIndex
  pub address : Address
  pub topic0 : Option Hash
  pub topic1 : Option Hash
  pub topic2 : Option Hash
  pub topic3 : Option Hash
  pub payload : Option String

pub record TokenTransfer : Type 0 where
  pub id : Option ℤ
  pub block_height : BlockHeight
  pub tx_hash : Hash
  pub log_index : LogIndex
  pub contract : Address
  pub standard : TokenStandard
  pub from_addr : Address
  pub to_addr : Address
  pub token_id : Option Wei
  pub amount : Wei
