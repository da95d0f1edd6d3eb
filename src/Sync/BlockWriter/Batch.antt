-- ===== src/Sync/BlockWriter/Batch.antt =====
-- `batch_write_blocks`: all or nothing, consistent, and with every row of every bundle.
pub mod Outcome
pub mod Rows
pub mod Whole
pub mod Stored
use indexer_rs.Base.{
  ◌≡◌, refl, ap, sym, ◌∙◌, ◌⊎◌, inl, inr, ℤ, pos, Bool, true, false, List, [], ◌∷◌, ◌++◌, arith,
  All, All-map, map, ok, err, string_eq, int_eq, pair_eq, if◌then◌else◌, ◌≤ℤ◌, some,
}
use indexer_rs.Base.Effects.{Result-cases, for_each, continue, ◌>>=◌}
use indexer_rs.Domain.{Address, Block, Transaction, Log, TokenTransfer}
use indexer_rs.Db.Table.{has}
use indexer_rs.Db.Schema.{Db, DbError, DbResult, Statement, log_key, transfer_key}
use indexer_rs.Db.Chain.{
  has_block, has_tx, insert_block, insert_tx, insert_log, insert_transfer, insert_rows,
}
use indexer_rs.Db.Addresses.{upsert_batch}
use indexer_rs.Db.Meta.{write_cursor_row}
use indexer_rs.Db.Session.{Session, execute, transaction}
use indexer_rs.Db.Runs.{
  ◌then_do◌, Runs, Runs-execute, Runs-then, Runs-for_each, Runs-transaction, transaction-rollback,
}
use indexer_rs.Db.Integrity.{IsConsistent, Keeps}
use indexer_rs.Db.Integrity.Rows.{
  insert_block-IsConsistent, insert_tx-IsConsistent, insert_log-IsConsistent,
  insert_transfer-IsConsistent, upsert_batch-IsConsistent, write_cursor-IsConsistent,
  insert_rows-Keeps,
}
use indexer_rs.Sync.Cursor.{write_cursor}
use indexer_rs.Sync.World.{World, SyncError, db_error, db_result, sql}
use indexer_rs.Sync.BlockWriter.{
  BlockBundle, tx_addresses, batch_sql, batch_write_blocks, batch_insert_chunk, max_height,
  timestamp_at, concat_map, push_txs, push_blocks,
}
use indexer_rs.Sync.BlockWriter.Sorting.{sort_by_key, chunks}
use indexer_rs.Sync.BlockWriter.Bundle.{Keeps-then}

-- One INSERT of many rows for each chunk.
abbrev pub insert_chunks : {R : Type 0} → (R → Statement) → List R → Statement
insert_chunks insert rows = insert_rows (insert_rows insert) (chunks batch_insert_chunk rows)

-- The sorted rows of all bundles.
abbrev pub all_blocks : List BlockBundle → List Block
all_blocks all =
    sort_by_key (λ (c : Block). (c.height, pos 0)) (map (λ (c : BlockBundle). c.block) all)

abbrev pub all_txs : List BlockBundle → List Transaction
all_txs all =
    sort_by_key (λ (t : Transaction). (t.block_height, t.tx_index))
      (concat_map (λ (c : BlockBundle). c.txs) all)

abbrev pub all_logs : List BlockBundle → List Log
all_logs all =
    sort_by_key (λ (l : Log). (l.block_height, l.log_index))
      (concat_map (λ (c : BlockBundle). c.logs) all)

abbrev pub all_transfers : List BlockBundle → List TokenTransfer
all_transfers all =
    sort_by_key (λ (t : TokenTransfer). (t.block_height, t.log_index))
      (concat_map (λ (c : BlockBundle). c.token_transfers) all)

abbrev pub batch_cursor : BlockBundle → List BlockBundle → Statement
batch_cursor b bundles =
    write_cursor_row (max_height b bundles) (timestamp_at (max_height b bundles) (b ∷ bundles))

-- The tables after each stage of the batch.
abbrev pub batch_from_transfers : BlockBundle → List BlockBundle → Statement
batch_from_transfers b bundles =
    insert_chunks insert_transfer (all_transfers (b ∷ bundles)) then_do batch_cursor b bundles

abbrev pub batch_from_logs : BlockBundle → List BlockBundle → Statement
batch_from_logs b bundles =
    insert_chunks insert_log (all_logs (b ∷ bundles)) then_do batch_from_transfers b bundles

abbrev pub batch_from_addresses : BlockBundle → List BlockBundle → Statement
batch_from_addresses b bundles =
    insert_rows upsert_batch (chunks batch_insert_chunk (tx_addresses (all_txs (b ∷ bundles))))
    then_do batch_from_logs b bundles

abbrev pub batch_from_txs : BlockBundle → List BlockBundle → Statement
batch_from_txs b bundles =
    insert_chunks insert_tx (all_txs (b ∷ bundles)) then_do batch_from_addresses b bundles

abbrev pub batch_rows : BlockBundle → List BlockBundle → Statement
batch_rows b bundles =
    insert_chunks insert_block (all_blocks (b ∷ bundles)) then_do batch_from_txs b bundles

pub Runs-batch :
    (b : BlockBundle) (bundles : List BlockBundle)
    → Runs (batch_sql b bundles) (batch_rows b bundles)
unfolding batch_sql write_cursor
Runs-batch b bundles = Runs-then _ _ _ _ (Runs-for_each _ _) (
    Runs-then _ _ _ _ (Runs-for_each _ _) (
      Runs-then _ _ _ _ (Runs-for_each _ _) (
        Runs-then _ _ _ _ (Runs-for_each _ _)
          (Runs-then _ _ _ _ (Runs-for_each _ _) (Runs-execute (batch_cursor b bundles))))))

chunks-IsConsistent :
    {R : Type 0} (insert : R → Statement) (rows : List R)
    → ((r : R) → Keeps IsConsistent (insert r))
    → Keeps IsConsistent (insert_chunks insert rows)
chunks-IsConsistent insert rows k =
    insert_rows-Keeps IsConsistent (insert_rows insert) (insert_rows-Keeps IsConsistent insert k)
      (chunks batch_insert_chunk rows)

pub batch_rows-IsConsistent :
    (b : BlockBundle) (bundles : List BlockBundle) → Keeps IsConsistent (batch_rows b bundles)
batch_rows-IsConsistent b bundles =
    Keeps-then _ _ _ (chunks-IsConsistent insert_block _ insert_block-IsConsistent) (
      Keeps-then _ _ _ (chunks-IsConsistent insert_tx _ insert_tx-IsConsistent) (
        Keeps-then _ _ _ (insert_rows-Keeps _ upsert_batch upsert_batch-IsConsistent _) (
          Keeps-then _ _ _ (chunks-IsConsistent insert_log _ insert_log-IsConsistent) (
            Keeps-then _ _ _ (chunks-IsConsistent insert_transfer _ insert_transfer-IsConsistent)
              (write_cursor-IsConsistent (max_height b bundles) _)))))

abbrev committed : BlockBundle → List BlockBundle → World → DbResult (Unit {0}) × Session
committed b bundles w = transaction (batch_sql b bundles) w.session
