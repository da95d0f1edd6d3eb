-- ===== src/Db/Schema.antt =====
-- The tables of crates/db/migrations and the errors of their statements. Postgres is outside of the
-- source; what is modelled is what the statements of crates/db/src and the constraints of the schema say.
-- Column widths are not modelled.
use indexer_rs.Base.{ℕ, ℤ, String, Bool, Option, List, [], Result}
use indexer_rs.Domain.{
  BlockHeight, LogIndex, Hash, Address, Wei, Block, Transaction, Log, TokenTransfer,
}

-- A row of `addresses`; `code_hash` is null until the contract detector has seen the address.
pub record AddressRow : Type 0 where
  pub address : Address
  pub first_seen_block : ℤ
  pub last_seen_block : ℤ
  pub is_contract : Bool
  pub code_hash : Option Hash

-- The text in `_meta.value`: the decimal text of an `i64`, or some other text.
pub data MetaValue : Type 0 where
  number : ℤ → MetaValue
  other_text : String → MetaValue

pub record MetaRow : Type 0 where
  pub name : String
  pub value : MetaValue
  pub updated_at : ℤ

-- A row of `cb_tokens`: one curve with the totals of its trades.
pub record CbToken : Type 0 where
  pub curve_address : Address
  pub token_address : Address
  pub owner_address : Address
  pub name : String
  pub symbol : String
  pub curve_supply : Wei
  pub graduation_threshold : Wei
  pub is_graduated : Bool
  pub created_block : ℤ
  pub created_tx_hash : Hash
  pub total_volume_srx : Wei
  pub trade_count : ℕ
  pub last_price_srx : Wei

pub data TradeKind : Type 0 where
  buy sell graduated : TradeKind

-- A row of `cb_trades`.
pub record CbTrade : Type 0 where
  pub curve_address : Address
  pub token_address : Option Address
  pub kind : TradeKind
  pub trader_address : Address
  pub srx_amount : Wei
  pub token_amount : Wei
  pub fee : Wei
  pub block_number : ℤ
  pub tx_hash : Hash
  pub log_index : ℤ

pub record Db : Type 0 where
  pub blocks : List Block
  pub transactions : List Transaction
  pub logs : List Log
  pub token_transfers : List TokenTransfer
  pub addresses : List AddressRow
  pub meta : List MetaRow
  pub cb_tokens : List CbToken
  pub cb_trades : List CbTrade

abbrev pub empty_db : Db
empty_db = record {
  blocks = [];
  transactions = [];
  logs = [];
  token_transfers = [];
  addresses = [];
  meta = [];
  cb_tokens = [];
  cb_trades = [];
}

-- Why a statement fails.
pub data DbError : Type 0 where
  connection : DbError
  violates_foreign_key : DbError
  violates_unique : DbError
  affects_row_twice : DbError
  invalid_number : DbError

abbrev pub DbResult : Type 0 → Type 0
DbResult A = Result DbError A

-- A statement that writes: the tables after it, or its error.
abbrev pub Statement : Type 0
Statement = Db → DbResult Db

-- The keys of the tables.
abbrev pub log_key : Log → BlockHeight × LogIndex
log_key l = (l.block_height, l.log_index)

abbrev pub transfer_key : TokenTransfer → Hash × LogIndex
transfer_key t = (t.tx_hash, t.log_index)

abbrev pub trade_key : CbTrade → Hash × ℤ
trade_key t = (t.tx_hash, t.log_index)
