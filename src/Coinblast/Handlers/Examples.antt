-- ===== src/Coinblast/Handlers/Examples.antt =====
-- A buy on a curve, handled once and again, and the theorems on the handlers at it.
use indexer_rs.Base.{◌≡◌, refl, pos, true, false, none, [], ◌∷◌, ok, string_eq, int_eq}
use indexer_rs.Db.Schema.{Db, empty_db, CbTrade, buy}
use indexer_rs.Db.Table.{has}
use indexer_rs.Db.Session.{execute, execute_counted, round_trip, in_transaction, transaction}
use indexer_rs.Db.Runs.{healthy}
use indexer_rs.Db.Coinblast.{insert_trade, bump_trade_aggregate}
use indexer_rs.Coinblast.Handlers.{trade_sql, write_trade}
use indexer_rs.Coinblast.Handlers.Trades.{write_trade_twice}
use indexer_rs.Coinblast.Handlers.Totals.{TotalsHold, write_trade-TotalsHold}

abbrev one_curve : Db
one_curve = record empty_db {
  cb_tokens =
      record {
        curve_address = "0xc1";
        token_address = "0xt1";
        owner_address = "0xo1";
        name = "One";
        symbol = "ONE";
        curve_supply = 1000;
        graduation_threshold = 100;
        is_graduated = false;
        created_block = pos 1;
        created_tx_hash = "0x01";
        total_volume_srx = 0;
        trade_count = 0;
        last_price_srx = 0;
      }
      ∷ [];
}

abbrev first_buy : CbTrade
first_buy = record {
  curve_address = "0xc1";
  token_address = none;
  kind = buy;
  trader_address = "0xa1";
  srx_amount = 10;
  token_amount = 5;
  fee = 1;
  block_number = pos 2;
  tx_hash = "0x02";
  log_index = pos 0;
}

bought : (write_trade first_buy 2 (healthy one_curve)).0 ≡ ok true
unfolding write_trade transaction in_transaction round_trip trade_sql execute execute_counted
    insert_trade has bump_trade_aggregate
bought = refl

write_trade_twice_example :
    let after = (write_trade first_buy 2 (healthy one_curve)).1.db in
    write_trade first_buy 2 (healthy after) ≡ (ok false, healthy after)
write_trade_twice_example = write_trade_twice first_buy 2 (healthy one_curve) true bought

write_trade-TotalsHold_example : TotalsHold (write_trade first_buy 2 (healthy one_curve)).1.db
write_trade-TotalsHold_example =
    write_trade-TotalsHold first_buy 2 (healthy one_curve) refl ((refl, refl), tt)
