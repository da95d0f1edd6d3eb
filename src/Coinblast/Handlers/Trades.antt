-- ===== src/Coinblast/Handlers/Trades.antt =====
-- What a trade does to the tables, and that doing it again does nothing.
use mathlib.Core.Path.{subst}
use indexer_rs.Base.{
  ◌≡◌, refl, sym, inl, inr, Bool, true, false, ◌∷◌, arith, ok, string_eq, int_eq, pair_eq, ==_self,
  if◌then◌else◌, Bool-cases,
}
use indexer_rs.Domain.{Wei}
use indexer_rs.Db.Table.{has}
use indexer_rs.Db.Schema.{Db, CbTrade, trade_key}
use indexer_rs.Db.Session.{
  Session, execute, execute_counted, transaction, in_transaction, round_trip,
}
use indexer_rs.Db.Runs.{healthy, transaction-ok}
use indexer_rs.Db.Coinblast.{insert_trade, bumped, bump_trade_aggregate}
use indexer_rs.Coinblast.Handlers.{trade_sql, write_trade}

-- Whether the trade is new, and the tables with it and its curve's totals.
unfoldable pub trade_rows : CbTrade → Wei → Db → Bool × Db
trade_rows t last_price db = if has trade_key (trade_key t) db.cb_trades then (false, db) else (
  true,
  bumped t.curve_address t.srx_amount last_price (record db { cb_trades = t ∷ db.cb_trades }),
)

trade_sql-rows :
    (t : CbTrade) (last_price : Wei) (s : Session) (b : Bool)
    → (trade_sql t last_price s).0 ≡ ok b
    → trade_rows t last_price s.db ≡ (b, (trade_sql t last_price s).1.db)
unfolding trade_sql trade_rows execute_counted execute insert_trade bump_trade_aggregate
trade_sql-rows t last_price s b h = elim (Bool-cases (has trade_key (trade_key t) s.db.cb_trades)) [
  | inl old ↦ ground (arith, old)
  | inr new ↦ ground (arith, new)
]

-- A trade that was written without an error is in the tables as `trade_rows` says.
pub write_trade-rows :
    (t : CbTrade) (last_price : Wei) (s : Session) (b : Bool)
    → (write_trade t last_price s).0 ≡ ok b
    → trade_rows t last_price s.db ≡ (b, (write_trade t last_price s).1.db)
unfolding write_trade
write_trade-rows t last_price s b h =
    let (s', same, done, after) = transaction-ok (trade_sql t last_price) s b h in
    rw (after, sym same) (trade_sql-rows t last_price s' b done)

-- A trade that was written is known afterwards.
trade_rows-known :
    (t : CbTrade) (last_price : Wei) (db : Db)
    → has trade_key (trade_key t) (trade_rows t last_price db).1.cb_trades ≡ true
unfolding trade_rows bumped has
trade_rows-known t last_price db = elim (Bool-cases (has trade_key (trade_key t) db.cb_trades)) [
  | inl old ↦ rw (old, has) old
  | inr new ↦ rw new (rw (==_self (trade_key t)) refl)
]

trade_rows-old :
    (t : CbTrade) (last_price : Wei) (db : Db)
    → has trade_key (trade_key t) db.cb_trades ≡ true
    → trade_rows t last_price db ≡ (false, db)
unfolding trade_rows
trade_rows-old t last_price db old = rw old refl

write_trade-healthy :
    (t : CbTrade) (last_price : Wei) (db : Db)
    → has trade_key (trade_key t) db.cb_trades ≡ true
    → write_trade t last_price (healthy db) ≡ (ok false, healthy db)
unfolding write_trade transaction in_transaction round_trip trade_sql execute execute_counted
    insert_trade
write_trade-healthy t last_price db old = rw old refl

-- A trade that was written once is never counted again: the same trade over the tables that it left, on a
-- connection that does not fail, returns that it was known, and changes nothing.
pub write_trade_twice :
    (t : CbTrade) (last_price : Wei) (s : Session) (b : Bool)
    → (write_trade t last_price s).0 ≡ ok b
    → let after = (write_trade t last_price s).1.db in
      write_trade t last_price (healthy after) ≡ (ok false, healthy after)
write_trade_twice t last_price s b h =
    let rows = write_trade-rows t last_price s b h in
    write_trade-healthy t last_price _ (
      subst (λ (r : Bool × Db). has trade_key (trade_key t) r.1.cb_trades ≡ true) rows
        (trade_rows-known t last_price s.db))
