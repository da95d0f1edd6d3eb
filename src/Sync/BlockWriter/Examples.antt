-- ===== src/Sync/BlockWriter/Examples.antt =====
-- Blocks written over an empty database, and the theorems on the block writer at them.
use indexer_rs.Base.{
  ◌≡◌, refl, ◌⊎◌, ℤ, pos, ◌≤ℤ◌, String, Bool, true, false, none, some, List, [], ◌∷◌, All, ok, err,
}
use indexer_rs.Base.Effects.{for_each}
use indexer_rs.Db.Table.{has, find, insert_new}
use indexer_rs.Db.Chain.{insert_block, insert_tx, insert_log, insert_transfer, insert_rows}
use indexer_rs.Db.Addresses.{upsert_batch, upsert_all, upsert_address, meets_twice}
use indexer_rs.Db.Meta.{write_cursor_row, set_i64, put_row}
use indexer_rs.Db.Session.{execute, round_trip, in_transaction, transaction}
use indexer_rs.Domain.{as_u64, Block, Transaction, Log, TokenTransfer}
use indexer_rs.Domain.Kinds.{native, erc20}
use indexer_rs.Db.Schema.{Db, empty_db}
use indexer_rs.Db.Runs.{healthy}
use indexer_rs.Db.Integrity.{IsConsistent}
use indexer_rs.Sync.World.{World, SyncError, sql, push, cast_u64, cast_u8}
use indexer_rs.Sync.Cursor.{stored_cursor, write_cursor}
use indexer_rs.Sync.BlockWriter.{
  BlockBundle, bundle_sql, register_addresses, tx_addresses, note_txs, note_receiver, note_address,
  write_block, push_block, push_txs, analytics_row, batch_sql, concat_map, max_height, timestamp_at,
  batch_write_blocks,
}
use indexer_rs.Sync.BlockWriter.Sorting.{
  chunks, chunks_from, join_chunk, sort_by_key, insert_sorted,
}
use indexer_rs.Sync.BlockWriter.Bundle.{bundle_rows}
use indexer_rs.Db.Extended.{Among}
use indexer_rs.Sync.BlockWriter.Kept.{BlockOf, Extends}
use indexer_rs.Sync.BlockWriter.Written.{HoldsRows}
use indexer_rs.Sync.BlockWriter.Seen.{SeenBy}
use indexer_rs.Sync.BlockWriter.Whole.{write_block-HoldsRows}
use indexer_rs.Sync.BlockWriter.Single.{write_block_atomic, write_block_twice}
use indexer_rs.Sync.BlockWriter.Batch.Outcome.{bundles_rows, batch_write_blocks_atomic}
use indexer_rs.Sync.BlockWriter.Batch.Whole.{batch_write_blocks-HoldsRows}

abbrev pub block_at : ℤ → String → Block
block_at h x = record {
  height = h;
  hash = x;
  parent_hash = "0x00";
  timestamp = pos 1700000000;
  validator = "0xv1";
  gas_used = pos 21000;
  gas_limit = pos 30000000;
  base_fee = none;
  tx_count = pos 1;
  state_root = none;
  round = pos 0;
  justification_signers = [];
}

abbrev pub tx_at : ℤ → String → Transaction
tx_at h x = record {
  hash = x;
  block_height = h;
  tx_index = pos 0;
  from_addr = "0xa1";
  to_addr = some "0xb2";
  value = 5;
  gas_limit = pos 21000;
  gas_used = some (pos 21000);
  gas_price = some 1;
  fee = 21000;
  nonce = pos 0;
  input = none;
  status = pos 1;
  contract_address = none;
  tx_type = native;
}

abbrev pub log_at : ℤ → String → Log
log_at h x = record {
  block_height = h;
  tx_hash = x;
  log_index = pos 0;
  address = "0xc3";
  topic0 = none;
  topic1 = none;
  topic2 = none;
  topic3 = none;
  payload = none;
}

abbrev pub transfer_at : ℤ → String → TokenTransfer
transfer_at h x = record {
  id = none;
  block_height = h;
  tx_hash = x;
  log_index = pos 0;
  contract = "0xc3";
  standard = erc20;
  from_addr = "0xa1";
  to_addr = "0xb2";
  token_id = none;
  amount = 7;
}

abbrev pub bundle_one : BlockBundle
bundle_one = record {
  block = block_at (pos 1) "0xb1";
  txs = tx_at (pos 1) "0xt1" ∷ [];
  logs = log_at (pos 1) "0xt1" ∷ [];
  token_transfers = transfer_at (pos 1) "0xt1" ∷ [];
}

abbrev pub bundle_two : BlockBundle
bundle_two = record {
  block = block_at (pos 2) "0xb2";
  txs = tx_at (pos 2) "0xt2" ∷ [];
  logs = [];
  token_transfers = [];
}

-- A world over the given tables; its connection fails as `faults` says.
abbrev pub world_of : Db → List Bool → World
world_of db faults = record {
  session = record { db = db; faults = faults };
  pushed = [];
  channel_open = true;
}

pub empty-IsConsistent : IsConsistent empty_db
empty-IsConsistent = record {
  tx_blocks = tt;
  log_blocks = tt;
  log_txs = tt;
  unique_blocks = tt;
  unique_txs = tt;
  unique_logs = tt;
  unique_transfers = tt;
}

-- The eighth round trip, the commit, fails.
abbrev commit_fails : World
commit_fails = world_of empty_db (false ∷ false ∷ false ∷ false ∷ false ∷ false ∷ false ∷ true ∷ [])

abbrev after_one : World
after_one = (write_block true bundle_one (world_of empty_db [])).1

wrote_one : (write_block true bundle_one (world_of empty_db [])).0 ≡ ok tt
unfolding write_block bundle_sql register_addresses push_block push_txs analytics_row push cast_u64
    cast_u8 as_u64 sql transaction in_transaction round_trip execute for_each insert_block insert_tx
    insert_log insert_transfer has find insert_new tx_addresses note_txs note_receiver note_address
    upsert_batch upsert_all upsert_address meets_twice write_cursor write_cursor_row set_i64 put_row
wrote_one = refl

write_block_atomic_example :
    ((write_block true bundle_one commit_fails).0 ≡ ok tt)
      × (bundle_rows bundle_one empty_db ≡ ok (write_block true bundle_one commit_fails).1.db)
    ⊎ ((e : SyncError) × ((write_block true bundle_one commit_fails).0 ≡ err e)
        × ((write_block true bundle_one commit_fails).1.db ≡ empty_db))
write_block_atomic_example = write_block_atomic true bundle_one commit_fails

write_block-HoldsRows_example :
    let given = λ (c : BlockBundle). c ≡ bundle_one in
    HoldsRows given (λ (s : Block). s ≡ bundle_one.block) empty_db after_one.db bundle_one
    × Extends given empty_db after_one.db
    × All (SeenBy [] after_one.db.addresses) bundle_one.txs
    × ((c : ℤ) × (stored_cursor after_one.db ≡ ok (some c)) × (pos 1 ≤ℤ c))
write_block-HoldsRows_example =
    write_block-HoldsRows true bundle_one (world_of empty_db []) wrote_one

write_block_twice_example :
    let w' = record after_one { session = healthy after_one.db } in
    ((write_block true bundle_one w').0 ≡ ok tt) × ((write_block true bundle_one w').1.db ≡ w'.db)
write_block_twice_example = write_block_twice true bundle_one (world_of empty_db []) wrote_one

wrote_both :
    (batch_write_blocks false (bundle_two ∷ bundle_one ∷ []) (world_of empty_db [])).0 ≡ ok tt
unfolding batch_write_blocks batch_sql insert_rows chunks chunks_from join_chunk sort_by_key
    insert_sorted concat_map max_height timestamp_at sql transaction in_transaction round_trip
    execute for_each insert_block insert_tx insert_log insert_transfer has find insert_new
    tx_addresses note_txs note_receiver note_address upsert_batch upsert_all upsert_address
    meets_twice write_cursor write_cursor_row set_i64 put_row
wrote_both = refl

batch_write_blocks_atomic_example :
    let bundles = bundle_two ∷ bundle_one ∷ [] in
    ((batch_write_blocks false bundles commit_fails).0 ≡ ok tt)
      × (bundles_rows bundles empty_db ≡ ok (batch_write_blocks false bundles commit_fails).1.db)
    ⊎ ((e : SyncError) × ((batch_write_blocks false bundles commit_fails).0 ≡ err e)
        × ((batch_write_blocks false bundles commit_fails).1.db ≡ empty_db))
batch_write_blocks_atomic_example =
    batch_write_blocks_atomic false (bundle_two ∷ bundle_one ∷ []) commit_fails

batch_write_blocks-HoldsRows_example :
    let bundles = bundle_two ∷ bundle_one ∷ [] in
    let after = (batch_write_blocks false bundles (world_of empty_db [])).1.db in
    let given = Among bundles in
    All (HoldsRows given (BlockOf given) empty_db after) bundles × Extends given empty_db after
batch_write_blocks-HoldsRows_example =
    batch_write_blocks-HoldsRows false (bundle_two ∷ bundle_one ∷ []) (world_of empty_db [])
      wrote_both
