-- ===== src/Sync/World.antt =====
-- What the sync code acts on: the pool, and the analytics channel of crates/analytics/src/flusher.rs; with
-- the errors of crates/sync/src/lib.rs and the configuration that the loops read.
use indexer_rs.Base.{
  ℕ, ℤ, pos, negsuc, ◌-◌, ◌%◌, ◌^◌, String, Bool, true, false, Option, none, List, [], ◌∷◌, ◌++◌,
  Result, ok, err,
}
use indexer_rs.Base.Effects.{Exec}
use indexer_rs.Domain.{BlockHeight, Wei}
use indexer_rs.Db.Schema.{DbError}
use indexer_rs.Db.Session.{Session, Sql}
use indexer_rs.Chain.Error.{ChainError}

-- A row of crates/analytics/src/row.rs; an amount stands for its decimal text.
pub record RawTxRow : Type 0 where
  pub block_height : ℕ
  pub timestamp : ℕ
  pub tx_hash : String
  pub from_addr : String
  pub to_addr : Option String
  pub value_str : Wei
  pub fee_str : Wei
  pub gas_used : ℕ
  pub status : ℕ
  pub tx_type : String

-- The channel is closed once the flusher has exited.
pub record World : Type 0 where
  pub session : Session
  pub open session use *
  pub pushed : List RawTxRow
  pub channel_open : Bool

pub data ConvertError : Type 0 where
  missing out_of_range : String → ConvertError

pub data SyncError : Type 0 where
  chain : ChainError → SyncError
  db_error : DbError → SyncError
  invalid : ConvertError → SyncError

abbrev pub Io : Type 0 → Type 0
Io A = Exec World SyncError A

pub record SyncConfig : Type 0 where
  pub safe_lag : ℕ
  pub max_backfill_height : Option BlockHeight
  pub reorg_probe_depth : ℕ

abbrev pub default_config : SyncConfig
default_config = record { safe_lag = 8; max_backfill_height = none; reorg_probe_depth = 16 }

abbrev pub db_result : {A : Type 0} → Result DbError A → Result SyncError A
db_result (ok a) = ok a
db_result (err e) = err (db_error e)

-- A database call inside the sync code; `?` wraps its error.
unfoldable pub sql : {A : Type 0} → Sql A → Io A
sql m w = let r = m w.session in (db_result r.0, record w { session = r.1 })

-- `AnalyticsHandle::push`: whether the channel took the row.
unfoldable pub push : RawTxRow → World → Bool × World
push row w = elim w.channel_open [
  | true ↦ (true, record w { pushed = w.pushed ++ row ∷ [] })
  | false ↦ (false, w)
]

-- `as u64` of an `i64`, and `as u8` of an `i16`.
unfoldable pub cast_u64 : ℤ → ℕ
cast_u64 (pos n) = n % 2 ^ 64
cast_u64 (negsuc n) = 2 ^ 64 - 1 - n % 2 ^ 64

unfoldable pub cast_u8 : ℤ → ℕ
cast_u8 (pos n) = n % 256
cast_u8 (negsuc n) = 255 - n % 256
