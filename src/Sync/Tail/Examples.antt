-- ===== src/Sync/Tail/Examples.antt =====
-- A finalized block at height 10 over an empty database, and the theorems on the tail's gate at it.
use indexer_rs.Base.{
  ◌≡◌, refl, ℤ, pos, ◌≤ℤ◌, ◌+ℤ◌, ◌-ℤ◌, saturating_sub, as_i64, Bool, true, false, Option, none,
  some, List, [], ◌∷◌, arith, ok, err,
}
use indexer_rs.Base.Effects.{for_each}
use indexer_rs.Domain.{as_u64, height_from_u64}
use indexer_rs.Chain.Retry.{default_backoff, retry_with_backoff, result_of}
use indexer_rs.Db.Schema.{Db, empty_db, connection}
use indexer_rs.Db.Session.{query, execute, in_transaction, round_trip, transaction}
use indexer_rs.Db.Meta.{get_i64, put_row, set_i64, write_cursor_row}
use indexer_rs.Db.Table.{find, has}
use indexer_rs.Db.Addresses.{meets_twice, upsert_address, upsert_all, upsert_batch}
use indexer_rs.Db.Chain.{insert_block, insert_rows, insert_tx}
use indexer_rs.Sync.World.{default_config, db_error, sql, push, cast_u64, cast_u8}
use indexer_rs.Sync.Cursor.{stored_cursor, read_cursor, write_cursor, or_sentinel}
use indexer_rs.Sync.Convert.{
  convert_native_tx, convert_native_txs, hex_hash, to_domain_block_from_native, to_domain_logs,
  to_domain_txs_from_native, with_0x,
}
use indexer_rs.Sync.SingleFlight.{
  new_gate, offer, compare_exchange, drain, take_pending_and_release,
}
use indexer_rs.Sync.BlockWriter.{
  bundle_sql, register_addresses, write_block, push_block, push_txs, analytics_row, note_address,
  note_receiver, note_txs, tx_addresses,
}
use indexer_rs.Sync.BlockWriter.Examples.{world_of}
use indexer_rs.Sync.Ingest.{
  ingest_one, write_fetched, fetch_one, bundle_of, decode_transfers, drop_orphans, logs_in_range,
}
use indexer_rs.Sync.Backfill.{heights_from}
use indexer_rs.Sync.Backfill.Done.{Done}
use indexer_rs.Sync.Backfill.Examples.{ten_blocks, ten_blocks-AnswersAsked, no_cursor}
use indexer_rs.Sync.Tail.{
  Tail, failed, on_world, on_gate, offer_all, catch_up, work, handle_finalized,
}
use indexer_rs.Sync.Tail.Gate.{
  LeavesGate, finalize_all, handle_finalized-LeavesGate, handle_finalized_stuck,
}
use indexer_rs.Sync.Tail.Events.{
  Connection, other_event, block_finalized, lagged_sentinel, run_tail, read_items, tail_task,
}
use indexer_rs.Sync.Tail.Ahead.{tail_run, tail_task-NeverAhead}
use indexer_rs.Sync.Tail.Reached.{handle_finalized-CatchesUp}

abbrev tail_of : List Bool → Tail
tail_of faults = record { world = world_of empty_db faults; gate = new_gate }

-- Tips 11 and 12 arrive during the first round.
handle_finalized-LeavesGate_example : LeavesGate (
    handle_finalized ten_blocks default_config default_backoff true
      ((pos 11 ∷ pos 12 ∷ []) ∷ [])
      (pos 10)
      (tail_of []))
handle_finalized-LeavesGate_example =
    handle_finalized-LeavesGate ten_blocks default_config default_backoff true
      ((pos 11 ∷ pos 12 ∷ []) ∷ []) (pos 10) (tail_of []) refl

abbrev taken_tail : Tail
taken_tail = record {
  world = world_of empty_db [];
  gate = record { inflight = true; pending = some (pos 12) };
}

-- The first round trip, the read of the cursor, fails.
first_fails :
    (handle_finalized ten_blocks default_config default_backoff true []
      (pos 10)
      (tail_of (true ∷ []))).0
    ≡ err (failed (db_error connection))
unfolding handle_finalized on_gate offer compare_exchange drain work on_world catch_up read_cursor
    sql query
first_fails = refl

handle_finalized_stuck_example :
    let after =
      (handle_finalized ten_blocks default_config default_backoff true []
        (pos 10)
        (tail_of (true ∷ []))).1 in
    (finalize_all ten_blocks default_config default_backoff true (pos 11 ∷ pos 12 ∷ []) after).world
    ≡ after.world
handle_finalized_stuck_example =
    handle_finalized_stuck ten_blocks default_config default_backoff true (db_error connection) []
      (pos 10) (pos 11 ∷ pos 12 ∷ []) (tail_of (true ∷ [])) refl first_fails

abbrev connections : List Connection
connections =
    record {
      cancelled_before = false;
      connected = ok tt;
      subscribed = ok tt;
      items = other_event ∷ block_finalized (some 10) [] ∷ lagged_sentinel ∷ [];
    }
    ∷ []

abbrev after_ten : Db
after_ten = (tail_task ten_blocks default_config false connections (tail_of [])).1.world.db

at_two : stored_cursor after_ten ≡ ok (some (pos 2))
unfolding handle_finalized on_gate offer compare_exchange drain take_pending_and_release offer_all
    work on_world catch_up read_cursor sql query get_i64 find result_of retry_with_backoff
    saturating_sub ◌-ℤ◌ as_i64 ingest_one write_fetched write_block bundle_sql register_addresses
    heights_from fetch_one ◌+ℤ◌ for_each meets_twice upsert_address upsert_all upsert_batch
    insert_block insert_rows insert_tx put_row set_i64 write_cursor_row execute in_transaction
    round_trip transaction has as_u64 push_block push_txs push analytics_row cast_u64 cast_u8
    note_address note_receiver note_txs tx_addresses convert_native_tx convert_native_txs hex_hash
    to_domain_block_from_native to_domain_logs to_domain_txs_from_native with_0x write_cursor
    bundle_of decode_transfers drop_orphans logs_in_range tail_task run_tail read_items
    height_from_u64
at_two = refl

ten_done :
    (handle_finalized ten_blocks default_config default_backoff false [] (pos 10) (tail_of [])).0
    ≡ ok tt
unfolding handle_finalized on_gate offer compare_exchange drain take_pending_and_release offer_all
    work on_world catch_up read_cursor sql query get_i64 find result_of retry_with_backoff
    saturating_sub ◌-ℤ◌ as_i64 ingest_one write_fetched write_block bundle_sql register_addresses
    heights_from fetch_one ◌+ℤ◌ for_each meets_twice upsert_address upsert_all upsert_batch
    insert_block insert_rows insert_tx put_row set_i64 write_cursor_row execute in_transaction
    round_trip transaction has as_u64 push_block push_txs push analytics_row cast_u64 cast_u8
    note_address note_receiver note_txs tx_addresses convert_native_tx convert_native_txs hex_hash
    to_domain_block_from_native to_domain_logs to_domain_txs_from_native with_0x write_cursor
    bundle_of decode_transfers drop_orphans logs_in_range
ten_done = refl

tail_task-NeverAhead_example :
    Done (tail_run ten_blocks false) (tail_of []).world.db after_ten (pos 0)
tail_task-NeverAhead_example =
    tail_task-NeverAhead ten_blocks default_config false connections (tail_of []) none (pos 2)
      (pos 0) ten_blocks-AnswersAsked no_cursor at_two (omega arith) (omega arith)

one_to_limit : pos 1 ≤ℤ saturating_sub (pos 10) (as_i64 8)
unfolding saturating_sub ◌-ℤ◌ as_i64
one_to_limit = omega arith

handle_finalized-CatchesUp_example :
    let after =
      (handle_finalized ten_blocks default_config default_backoff false []
        (pos 10)
        (tail_of [])).1.world.db in
    Done (tail_run ten_blocks false) (tail_of []).world.db after (pos 1)
    × ((new : Option ℤ) × (stored_cursor after ≡ ok new)
        × (saturating_sub (pos 10) (as_i64 8) ≤ℤ or_sentinel new))
handle_finalized-CatchesUp_example =
    handle_finalized-CatchesUp ten_blocks default_config false [] (pos 10) (tail_of []) none (pos 1)
      ten_blocks-AnswersAsked refl no_cursor ten_done (omega arith) one_to_limit
