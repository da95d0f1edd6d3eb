-- ===== src/Sync/BlockWriter/Batch/Stored.antt =====
-- Where a written batch leaves the stored cursor, and that it loses no row.
use indexer_rs.Base.{◌≡◌, refl, ◌∙◌, ℤ, Option, some, List, [], ◌∷◌, arith, ok}
use indexer_rs.Domain.{Address, Block, Transaction, Log, TokenTransfer}
use indexer_rs.Db.Schema.{Db, Statement}
use indexer_rs.Db.Chain.{insert_block, insert_tx, insert_log, insert_transfer, insert_rows}
use indexer_rs.Db.Addresses.{upsert_batch}
use indexer_rs.Db.Meta.{get_i64}
use indexer_rs.Db.Growth.{
  GrowsBy, GrowsBy-then, insert_rows-GrowsBy, insert_block-GrowsBy, insert_tx-GrowsBy,
  insert_log-GrowsBy, insert_transfer-GrowsBy, upsert_batch-GrowsBy, write_cursor-GrowsBy,
}
use indexer_rs.Sync.Cursor.{stored_cursor, greatest_of, stored_cursor-write_cursor}
use indexer_rs.Sync.BlockWriter.{
  BlockBundle, tx_addresses, batch_insert_chunk, max_height, timestamp_at,
}
use indexer_rs.Sync.BlockWriter.Sorting.{chunks}
use indexer_rs.Sync.BlockWriter.Held.{then_do-inv}
use indexer_rs.Sync.BlockWriter.Batch.{
  insert_chunks, all_blocks, all_txs, all_logs, all_transfers, batch_cursor, batch_from_transfers,
  batch_from_logs, batch_from_addresses, batch_from_txs, batch_rows,
}

pub stored_cursor-meta : (a b : Db) → a.meta ≡ b.meta → stored_cursor a ≡ stored_cursor b
unfolding get_i64
stored_cursor-meta a b e = ground arith

-- Statements that leave `_meta` alone.
abbrev pub KeepsMeta : Statement → Type 0
KeepsMeta f = (db db' : Db) → f db ≡ ok db' → db'.meta ≡ db.meta

pub insert_block-meta : (b : Block) → KeepsMeta (insert_block b)
unfolding insert_block
insert_block-meta b db db' e = ground arith

pub insert_tx-meta : (t : Transaction) → KeepsMeta (insert_tx t)
unfolding insert_tx
insert_tx-meta t db db' e = ground arith

pub insert_log-meta : (l : Log) → KeepsMeta (insert_log l)
unfolding insert_log
insert_log-meta l db db' e = ground arith

pub insert_transfer-meta : (t : TokenTransfer) → KeepsMeta (insert_transfer t)
unfolding insert_transfer
insert_transfer-meta t db db' e = ground arith

pub upsert_batch-meta : (seen : List (Address × ℤ)) → KeepsMeta (upsert_batch seen)
unfolding upsert_batch
upsert_batch-meta seen db db' e = ground arith

pub rows-meta :
    {R : Type 0} (insert : R → Statement)
    → ((r : R) → KeepsMeta (insert r))
    → (rows : List R) → KeepsMeta (insert_rows insert rows)
unfolding insert_rows
rows-meta insert k [] db db' e = let same : db' ≡ db = ground arith in rw same refl
rows-meta insert k (r ∷ rows) db db' e =
    let (mid, first, rest) = then_do-inv (insert r) (insert_rows insert rows) db db' e in
    rows-meta insert k rows mid db' rest ∙ k r db mid first

chunks-meta :
    {R : Type 0} (insert : R → Statement)
    → ((r : R) → KeepsMeta (insert r))
    → (rows : List R) → KeepsMeta (insert_chunks insert rows)
chunks-meta insert k rows = rows-meta _ (λ chunk. rows-meta insert k chunk) _

pub batch_rows-cursor :
    (b : BlockBundle) (bundles : List BlockBundle) (db db' : Db) (old : Option ℤ)
    → batch_rows b bundles db ≡ ok db'
    → stored_cursor db ≡ ok old
    → stored_cursor db' ≡ ok (some (greatest_of (max_height b bundles) old))
batch_rows-cursor b bundles db db' old e stored =
    let all = b ∷ bundles in
    let (d1, e1, r1) =
      then_do-inv (insert_chunks insert_block (all_blocks all)) (batch_from_txs b bundles) db db'
        e in
    let (d2, e2, r2) =
      then_do-inv (insert_chunks insert_tx (all_txs all)) (batch_from_addresses b bundles) d1 db'
        r1 in
    let (d3, e3, r3) =
      then_do-inv
        (insert_rows upsert_batch (chunks batch_insert_chunk (tx_addresses (all_txs all))))
        (batch_from_logs b bundles) d2 db' r2 in
    let (d4, e4, r4) =
      then_do-inv (insert_chunks insert_log (all_logs all)) (batch_from_transfers b bundles) d3 db'
        r3 in
    let (d5, e5, r5) =
      then_do-inv (insert_chunks insert_transfer (all_transfers all)) (batch_cursor b bundles) d4
        db' r4 in
    let same : d5.meta ≡ db.meta =
      chunks-meta insert_transfer insert_transfer-meta (all_transfers all) d4 d5 e5
      ∙ (chunks-meta insert_log insert_log-meta (all_logs all) d3 d4 e4
          ∙ (rows-meta upsert_batch upsert_batch-meta
                (chunks batch_insert_chunk (tx_addresses (all_txs all))) d2 d3 e3
              ∙ (chunks-meta insert_tx insert_tx-meta (all_txs all) d1 d2 e2
                  ∙ chunks-meta insert_block insert_block-meta (all_blocks all) db d1 e1))) in
    let before : stored_cursor d5 ≡ ok old = stored_cursor-meta d5 db same ∙ stored in
    stored_cursor-write_cursor (max_height b bundles) (timestamp_at (max_height b bundles) all) d5
      db' old before r5

chunks-GrowsBy :
    {R : Type 0} (insert : R → Statement)
    → ((r : R) → GrowsBy (insert r))
    → (rows : List R) → GrowsBy (insert_chunks insert rows)
chunks-GrowsBy insert g rows = insert_rows-GrowsBy _ (λ chunk. insert_rows-GrowsBy insert g chunk) _

pub batch_rows-GrowsBy :
    (b : BlockBundle) (bundles : List BlockBundle) → GrowsBy (batch_rows b bundles)
batch_rows-GrowsBy b bundles =
    GrowsBy-then _ _ (chunks-GrowsBy insert_block insert_block-GrowsBy _) (
      GrowsBy-then _ _ (chunks-GrowsBy insert_tx insert_tx-GrowsBy _) (
        GrowsBy-then _ _ (insert_rows-GrowsBy upsert_batch upsert_batch-GrowsBy _) (
          GrowsBy-then _ _ (chunks-GrowsBy insert_log insert_log-GrowsBy _) (
            GrowsBy-then _ _ (chunks-GrowsBy insert_transfer insert_transfer-GrowsBy _)
              (write_cursor-GrowsBy _ _)))))
