-- ===== src/Sync/Backfill/Examples.antt =====
-- A chain of ten blocks with a gap at height 1, and the theorems on the backfill at it.
use indexer_rs.Base.{
  List, Bool, ◌≡◌, refl, pos, ◌≤ℤ◌, ◌+ℤ◌, ◌-ℤ◌, saturating_sub, as_i64, true, false, none, some, [],
  ◌∷◌, arith, ok, ◌==◌, int_eq, if◌then◌else◌,
}
use indexer_rs.Base.Effects.{for_each}
use indexer_rs.Domain.{BlockHeight, as_u64}
use indexer_rs.Domain.Kinds.{coinbase}
use indexer_rs.Chain.Retry.{default_backoff, retry_with_backoff, result_of}
use indexer_rs.Db.Schema.{empty_db}
use indexer_rs.Sync.World.{default_config, sql}
use indexer_rs.Sync.Cursor.{stored_cursor, read_cursor, write_cursor}
use indexer_rs.Sync.Convert.{
  Hex, NativeBlockResponse, convert_native_tx, convert_native_txs, hex_hash,
  to_domain_block_from_native, to_domain_logs, to_domain_txs_from_native, with_0x,
}
use indexer_rs.Sync.BlockWriter.{
  BlockBundle, batch_sql, batch_write_blocks, concat_map, max_height, note_address, note_receiver,
  note_txs, timestamp_at, tx_addresses,
}
use indexer_rs.Sync.BlockWriter.Examples.{world_of}
use indexer_rs.Sync.Ingest.{
  Endpoints, retried, fetch_one, bundle_of, decode_transfers, drop_orphans, logs_in_range,
}
use indexer_rs.Sync.Ingest.Fetch.{AnswersAsked, IsClosed, fetch_one-IsClosed}
use indexer_rs.Sync.Backfill.{
  Run, backfill_cap, run_backfill, backfill_from, walk, heights_from, flush, flush_full,
  take_answer,
}
use indexer_rs.Db.Session.{query, execute, in_transaction, round_trip, transaction}
use indexer_rs.Db.Meta.{get_i64, put_row, set_i64, write_cursor_row}
use indexer_rs.Db.Table.{find, has}
use indexer_rs.Db.Addresses.{meets_twice, upsert_address, upsert_all, upsert_batch}
use indexer_rs.Db.Chain.{insert_block, insert_rows, insert_tx}
use indexer_rs.Sync.BlockWriter.Sorting.{
  chunks, chunks_from, insert_sorted, join_chunk, sort_by_key,
}
use indexer_rs.Sync.Backfill.Done.{Done}
use indexer_rs.Sync.Backfill.Outcome.{run_backfill-NeverAhead, run_backfill-CatchesUp}

abbrev pub no_hex : Hex
no_hex = record { encode = λ bytes. "00"; decode = λ s. none; from_be_slice = λ bytes. 0 }

abbrev pub native_block : BlockHeight → NativeBlockResponse
native_block h = record {
  index = h;
  hash = if h == pos 0 then "b0" else "b2";
  previous_hash = "00";
  timestamp = pos 1700000000;
  validator = "0xv1";
  round = pos 0;
  state_root = none;
  transactions =
      record {
        txid = if h == pos 0 then "t0" else "t2";
        from_address = "COINBASE";
        to_address = some "0xa1";
        amount = 5;
        fee = 0;
        nonce = 0;
        timestamp = pos 1700000000;
        chain_id = pos 0;
        input = none;
      }
      ∷ [];
}

abbrev pub ten_blocks : Endpoints
ten_blocks = record {
  block_number = λ attempt. ok (pos 10);
  block = λ h attempt. if h == pos 1 then ok none else ok (some (native_block h));
  get_logs = λ from to attempt. ok [];
  hex = no_hex;
}

pub ten_blocks-AnswersAsked : AnswersAsked ten_blocks
ten_blocks-AnswersAsked h attempt b e = ground arith

abbrev pub run_ten : Run
run_ten = record {
  api = ten_blocks;
  backoff = default_backoff;
  batch_size = 100;
  analytics = false;
}

pub tip_ten : retried default_backoff ten_blocks.block_number ≡ ok (pos 10)
unfolding retry_with_backoff result_of
tip_ten = refl

pub no_cursor : stored_cursor empty_db ≡ ok none
unfolding get_i64 find
no_cursor = refl

pub caught_up : (run_backfill run_ten default_config [] (world_of empty_db [])).0 ≡ ok (pos 2)
unfolding run_backfill read_cursor sql query get_i64 find result_of retry_with_backoff backfill_from
    backfill_cap saturating_sub ◌-ℤ◌ as_i64 walk heights_from fetch_one ◌+ℤ◌ for_each meets_twice
    upsert_address upsert_all upsert_batch insert_block insert_rows insert_tx put_row set_i64
    write_cursor_row execute in_transaction round_trip transaction has as_u64 flush flush_full
    take_answer chunks chunks_from insert_sorted join_chunk sort_by_key batch_sql batch_write_blocks
    concat_map max_height note_address note_receiver note_txs timestamp_at tx_addresses
    convert_native_tx convert_native_txs hex_hash to_domain_block_from_native to_domain_logs
    to_domain_txs_from_native with_0x write_cursor bundle_of decode_transfers drop_orphans
    logs_in_range
caught_up = refl

one_to_cap : pos 1 ≤ℤ backfill_cap default_config (pos 10)
unfolding backfill_cap saturating_sub ◌-ℤ◌ as_i64
one_to_cap = omega arith

abbrev two_rounds : List Bool
two_rounds = false ∷ false ∷ true ∷ []

stopped_at :
    stored_cursor (run_backfill run_ten default_config two_rounds (world_of empty_db [])).1.db
    ≡ ok (some (pos 1))
unfolding run_backfill read_cursor sql query get_i64 find result_of retry_with_backoff backfill_from
    backfill_cap saturating_sub ◌-ℤ◌ as_i64 walk heights_from fetch_one ◌+ℤ◌ for_each meets_twice
    upsert_address upsert_all upsert_batch insert_block insert_rows insert_tx put_row set_i64
    write_cursor_row execute in_transaction round_trip transaction has as_u64 flush flush_full
    take_answer chunks chunks_from insert_sorted join_chunk sort_by_key batch_sql batch_write_blocks
    concat_map max_height note_address note_receiver note_txs timestamp_at tx_addresses
    convert_native_tx convert_native_txs hex_hash to_domain_block_from_native to_domain_logs
    to_domain_txs_from_native with_0x write_cursor bundle_of decode_transfers drop_orphans
    logs_in_range
stopped_at = refl

zero_to_cap : pos 0 ≤ℤ backfill_cap default_config (pos 10)
unfolding backfill_cap saturating_sub ◌-ℤ◌ as_i64
zero_to_cap = omega arith

run_backfill-NeverAhead_example :
    Done run_ten empty_db
      (run_backfill run_ten default_config two_rounds (world_of empty_db [])).1.db
      (pos 0)
run_backfill-NeverAhead_example =
    run_backfill-NeverAhead run_ten default_config two_rounds (world_of empty_db []) none (pos 10)
      (pos 1) (pos 0) ten_blocks-AnswersAsked no_cursor tip_ten stopped_at (omega arith) zero_to_cap
      (omega arith)

run_backfill-CatchesUp_example :
    Done run_ten empty_db
      (run_backfill run_ten default_config [] (world_of empty_db [])).1.db
      (pos 1)
run_backfill-CatchesUp_example =
    run_backfill-CatchesUp run_ten default_config (world_of empty_db []) none (pos 10) (pos 2)
      ten_blocks-AnswersAsked no_cursor tip_ten caught_up (pos 1) (omega arith) one_to_cap

abbrev first_bundle : BlockBundle
first_bundle = record {
  block = record {
    height = pos 0;
    hash = "0xb0";
    parent_hash = "0x00";
    timestamp = pos 1700000000;
    validator = "0xv1";
    gas_used = pos 0;
    gas_limit = pos 0;
    base_fee = none;
    tx_count = pos 1;
    state_root = none;
    round = pos 0;
    justification_signers = [];
  };
  txs =
      record {
        hash = "0xt0";
        block_height = pos 0;
        tx_index = pos 0;
        from_addr = "0x0000000000000000000000000000000000000000";
        to_addr = some "0xa1";
        value = 5;
        gas_limit = pos 0;
        gas_used = none;
        gas_price = none;
        fee = 0;
        nonce = pos 0;
        input = none;
        status = pos 1;
        contract_address = none;
        tx_type = coinbase;
      }
      ∷ [];
  logs = [];
  token_transfers = [];
}

first_fetched : fetch_one ten_blocks default_backoff (pos 0) ≡ ok (some first_bundle)
unfolding fetch_one bundle_of retry_with_backoff result_of logs_in_range as_u64
    to_domain_block_from_native to_domain_txs_from_native convert_native_txs convert_native_tx
    with_0x to_domain_logs drop_orphans decode_transfers
first_fetched = refl

fetch_one-IsClosed_example : IsClosed first_bundle
fetch_one-IsClosed_example =
    fetch_one-IsClosed ten_blocks default_backoff (pos 0) first_bundle first_fetched
