-- ===== src/Api/Blocks/Handlers.antt =====
-- crates/api/src/routes/blocks.rs: the handlers `list` and `detail`. A query to Postgres may fail, and the
-- cache is that of Cache.Client, with what it answers to a key as a parameter.
pub mod Keys
pub mod Follow
mod Examples
use indexer_rs.Base.{
  ℕ, ℤ, pos, pos_part, ◌-ℤ◌, String, Option, none, some, List, map, keep, Result, ok, err, ◌==◌,
  int_eq,
}
use Prim.Native.String.{◌++◌}
use indexer_rs.Base.Text.{parse_i64}
use indexer_rs.Base.Text.Print.{to_string}
use indexer_rs.Base.Effects.{and_then}
use indexer_rs.Domain.{BlockHeight, Block, Transaction}
use indexer_rs.Db.Schema.{Db, DbError, DbResult}
use indexer_rs.Db.Chain.{get_by_height}
use indexer_rs.Cache.Breaker.{CircuitBreaker}
use indexer_rs.Cache.Client.{Exchange, get_or_load}
use indexer_rs.Api.Error.{ApiError, ApiResult, invalid_query, not_found, db_failed, clamp_limit}
use indexer_rs.Api.Listing.{order_desc}
use indexer_rs.Api.Serialise.{WireBlock, WireBlockWithTxs, wire_block, wire_tx}
use indexer_rs.Api.Blocks.{ListResponse, load_page}

pub record ListQuery : Type 0 where
  pub limit : Option String
  pub before : Option String

-- `ListResponse` as it goes over the wire.
pub record WireList : Type 0 where
  pub blocks : List WireBlock
  pub next_cursor : Option String

abbrev pub cursor_text : Option BlockHeight → Option String
cursor_text none = none
cursor_text (some h) = some (to_string h)

unfoldable pub wire_list : ListResponse → WireList
wire_list page = record {
  blocks = map wire_block page.blocks;
  next_cursor = cursor_text page.next_cursor;
}

abbrev pub or_invalid : String → Option ℤ → ApiResult BlockHeight
or_invalid msg none = err (invalid_query msg)
or_invalid msg (some h) = ok h

unfoldable pub parse_before : Option String → ApiResult (Option BlockHeight)
parse_before none = ok none
parse_before (some s) =
    and_then (or_invalid "invalid before: must be a non-negative integer" (parse_i64 s))
      (λ h. ok (some h))

abbrev pub before_text : Option BlockHeight → String
before_text none = "tip"
before_text (some h) = to_string h

unfoldable pub list_key : ℤ → Option BlockHeight → String
list_key limit before = "blocks:list:" ++ (to_string limit ++ (":" ++ before_text before))

-- A query to Postgres: the tables that it reads, or its error.
abbrev pub Postgres : Type 0
Postgres = DbResult Db

abbrev pub read : {A : Type 0} → Postgres → (Db → A) → ApiResult A
read (ok db) f = ok (f db)
read (err e) f = err (db_failed e)

-- The cache: the codec of a page, the breaker if a cache is configured, and what Redis answers by key.
pub record PageCache : Type 0 where
  pub decode : String → Result String WireList
  pub encode : WireList → Result String String
  pub breaker : Option CircuitBreaker
  pub exchange : String → Exchange

abbrev pub page_of :
    PageCache
    → Postgres
    → ℤ
    → ApiResult (Option BlockHeight)
    → ApiResult WireList × Option CircuitBreaker
page_of cache pg limit (err e) = (err e, cache.breaker)
page_of cache pg limit (ok before) =
    get_or_load cache.decode cache.encode (cache.exchange (list_key limit before))
      (read pg (λ db. wire_list (load_page before (pos_part limit) db))) cache.breaker

unfoldable pub list : PageCache → Postgres → ListQuery → ApiResult WireList × Option CircuitBreaker
list cache pg q = page_of cache pg (clamp_limit q.limit) (parse_before q.before)

-- `transactions::for_block`: ORDER BY tx_index ASC.
unfoldable pub for_block : BlockHeight → Db → List Transaction
for_block h db =
    order_desc (λ (t : Transaction). pos 0 -ℤ t.tx_index)
      (keep (λ (t : Transaction). t.block_height == h) db.transactions)

abbrev pub found : {A : Type 0} → String → Option A → ApiResult A
found what none = err (not_found what)
found what (some a) = ok a

-- The two queries, each with what Postgres answers to it.
unfoldable pub detail : Postgres → Postgres → String → ApiResult WireBlockWithTxs
detail first second height_str =
    and_then (or_invalid "invalid height: must be a non-negative integer" (parse_i64 height_str))
      (λ h. and_then (read first (get_by_height h)) (λ row. and_then (found "block" row) (λ block.
        read second (λ db. record {
          block = wire_block block;
          transactions = map wire_tx (for_block h db);
        }))))
