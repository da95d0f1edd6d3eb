-- ===== src/Coinblast/Handlers.antt =====
-- crates/coinblast/src/handlers.rs: one handler for each event of a curve. `Events` stands for the decoders
-- that `alloy` derives from the ABI, with addresses as bytes.
pub mod Trades
pub mod Totals
mod Examples
use indexer_rs.Base.{
  ℕ, zero, suc, ◌/◌, ℤ, pos, String, Bool, true, false, Option, none, some, List, Result, ok, err,
  fits_i32, fits_i64, if◌then◌else◌,
}
use indexer_rs.Base.Effects.{Exec, and_then, ◌>>=◌, ◌>>◌, pure, lift}
use indexer_rs.Domain.{Address, Hash, Wei}
use indexer_rs.Chain.Error.{ChainError}
use indexer_rs.Db.Schema.{Db, DbError, DbResult, CbTrade, TradeKind, buy, sell, graduated}
use indexer_rs.Db.Session.{Session, Sql, execute, execute_counted, transaction}
use indexer_rs.Db.Coinblast.{
  InsertCbToken, insert_token, insert_trade, bump_trade_aggregate, mark_graduated,
}
use indexer_rs.Sync.Convert.{Hex, RpcLog, hex_hash}

pub data CoinblastError : Type 0 where
  chain_failed : ChainError → CoinblastError
  db_failed : DbError → CoinblastError
  undecodable : CoinblastError
  invalid_log : String → CoinblastError

-- A trade as its event tells it: who traded, SRX, fee, tokens.
pub record TradeEvent : Type 0 where
  pub trader : List ℕ
  pub srx : Wei
  pub fee : Wei
  pub tokens : Wei

pub record CurveCreated : Type 0 where
  pub curve : List ℕ
  pub token : List ℕ
  pub owner : List ℕ
  pub name : String
  pub symbol : String
  pub curve_supply : Wei
  pub graduation_srx_threshold : Wei

pub record Events : Type 0 where
  pub hex : Hex
  pub curve_created : RpcLog → Option CurveCreated
  pub buy_event : RpcLog → Option TradeEvent
  pub sell_event : RpcLog → Option TradeEvent
  pub graduated_event : RpcLog → Option TradeEvent

abbrev pub Handled : Type 0 → Type 0
Handled A = Result CoinblastError A

abbrev pub required : {A : Type 0} → CoinblastError → Option A → Handled A
required e none = err e
required e (some a) = ok a

abbrev pub checked : Bool → CoinblastError → ℕ → Handled ℤ
checked fits e n = if fits then ok (pos n) else err e

unfoldable pub require_block_number : RpcLog → Handled ℤ
require_block_number l =
    and_then (required (invalid_log "log.block_number missing") l.block_number)
      (λ n. checked (fits_i64 n) (invalid_log "block_number > i64::MAX") n)

unfoldable pub require_log_index : RpcLog → Handled ℤ
require_log_index l =
    and_then (required (invalid_log "log.log_index missing") l.log_index)
      (λ n. checked (fits_i32 n) (invalid_log "log_index > i32::MAX") n)

unfoldable pub require_tx_hash : Hex → RpcLog → Handled Hash
unfolding hex_hash
require_tx_hash hex l =
    and_then (required (invalid_log "log.transaction_hash missing") l.transaction_hash)
      (λ x. ok (hex_hash hex x))

-- SRX for a token, 0 for no tokens.
unfoldable pub price_per_token : Wei → Wei → Wei
price_per_token srx zero = 0
price_per_token srx (suc n) = srx / suc n

-- The checks of a handler in the code's order, then its decoder.
unfoldable pub trade_of : Hex → TradeKind → (RpcLog → Option TradeEvent) → RpcLog → Handled CbTrade
unfolding require_block_number require_log_index require_tx_hash hex_hash
trade_of hex kind decode l = and_then (require_block_number l) (λ block.
    and_then (require_log_index l) (λ log_index. and_then (require_tx_hash hex l) (λ tx_hash.
      and_then (required undecodable (decode l)) (λ event. ok (record {
        curve_address = hex_hash hex l.address;
        token_address = none;
        kind = kind;
        trader_address = hex_hash hex event.trader;
        srx_amount = event.srx;
        token_amount = event.tokens;
        fee = event.fee;
        block_number = block;
        tx_hash = tx_hash;
        log_index = log_index;
      })))))

abbrev pub db_result : {A : Type 0} → DbResult A → Handled A
db_result (ok a) = ok a
db_result (err e) = err (db_failed e)

abbrev pub Handler : Type 0 → Type 0
Handler A = Exec Session CoinblastError A

unfoldable pub on_db : {A : Type 0} → Sql A → Handler A
on_db m s = let r = m s in (db_result r.0, r.1)

-- The statements of a trade between BEGIN and COMMIT: a new trade also bumps its curve.
unfoldable pub trade_sql : CbTrade → Wei → Sql Bool
trade_sql t last_price = do
  inserted ← execute_counted (insert_trade t)
  if inserted
      then execute (bump_trade_aggregate t.curve_address t.srx_amount last_price)
      else pure tt
  pure inserted

unfoldable pub write_trade : CbTrade → Wei → Sql Bool
write_trade t last_price = transaction (trade_sql t last_price)

unfoldable pub apply_buy : Events → RpcLog → Handler Bool
apply_buy events l = do
  t ← lift (trade_of events.hex buy events.buy_event l)
  on_db (write_trade t (price_per_token t.srx_amount t.token_amount))

unfoldable pub apply_sell : Events → RpcLog → Handler Bool
apply_sell events l = do
  t ← lift (trade_of events.hex sell events.sell_event l)
  on_db (write_trade t (price_per_token t.srx_amount t.token_amount))

unfoldable pub graduation_sql : CbTrade → Sql Bool
graduation_sql t = do
  inserted ← execute_counted (insert_trade t)
  if inserted then execute (mark_graduated t.curve_address) else pure tt
  pure inserted

-- A graduation has no fee.
unfoldable pub apply_graduated : Events → RpcLog → Handler Bool
apply_graduated events l = do
  t ← lift (trade_of events.hex graduated events.graduated_event l)
  on_db (transaction (graduation_sql (record t { fee = 0 })))

unfoldable pub token_of : Events → RpcLog → Handled InsertCbToken
unfolding require_block_number require_tx_hash hex_hash
token_of events l = and_then (require_block_number l) (λ block.
    and_then (require_tx_hash events.hex l) (λ tx_hash.
      and_then (required undecodable (events.curve_created l)) (λ event. ok (record {
        curve_address = hex_hash events.hex event.curve;
        token_address = hex_hash events.hex event.token;
        owner_address = hex_hash events.hex event.owner;
        name = event.name;
        symbol = event.symbol;
        curve_supply = event.curve_supply;
        graduation_threshold = event.graduation_srx_threshold;
        created_block = block;
        created_tx_hash = tx_hash;
      }))))

unfoldable pub apply_curve_created : Events → RpcLog → Handler (Unit {0})
apply_curve_created events l = do t ← lift (token_of events l); on_db (execute (insert_token t))
