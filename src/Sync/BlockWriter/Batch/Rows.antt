-- ===== src/Sync/BlockWriter/Batch/Rows.antt =====
-- Every key of every bundle of a written batch is in the tables.
use indexer_rs.Base.{
  ◌≡◌, true, ok, List, [], ◌∷◌, All, All-map, All-append_inv, map, string_eq, int_eq, pair_eq,
}
use indexer_rs.Domain.{Block, Transaction, Log, TokenTransfer}
use indexer_rs.Db.Table.{has}
use indexer_rs.Db.Schema.{Db, Statement, log_key, transfer_key}
use indexer_rs.Db.Chain.{
  has_block, has_tx, insert_block, insert_tx, insert_log, insert_transfer, insert_rows,
}
use indexer_rs.Db.Addresses.{upsert_batch}
use indexer_rs.Db.Growth.{
  Grows, GrowsBy, Grows-trans, insert_rows-GrowsBy, insert_block-GrowsBy, insert_tx-GrowsBy,
  insert_log-GrowsBy, insert_transfer-GrowsBy, upsert_batch-GrowsBy, write_cursor-GrowsBy,
}
use indexer_rs.Sync.BlockWriter.{
  BlockBundle, tx_addresses, batch_insert_chunk, max_height, timestamp_at, concat_map,
}
use indexer_rs.Sync.BlockWriter.Sorting.{sort_by_key-All_inv, chunks, chunks-All}
use indexer_rs.Sync.BlockWriter.Held.{
  then_do-inv, insert_rows-All, insert_block-has, insert_tx-has, insert_log-has,
  insert_transfer-has,
}
use indexer_rs.Sync.BlockWriter.Batch.{
  insert_chunks, all_blocks, all_txs, all_logs, all_transfers, batch_cursor, batch_from_transfers,
  batch_from_logs, batch_from_addresses, batch_from_txs, batch_rows,
}

-- The keys of the rows of a bundle are in the tables.
pub record HasRows (db : Db) (b : BlockBundle) : Type 0 where
  pub block : has_block b.block.height db ≡ true
  pub txs : All (λ (t : Transaction). has_tx t.hash db ≡ true) b.txs
  pub logs : All (λ l. has log_key (log_key l) db.logs ≡ true) b.logs
  pub transfers :
      All (λ t. has transfer_key (transfer_key t) db.token_transfers ≡ true) b.token_transfers

concat_map-All :
    {A B : Type 0} (P : B → Type 0) (f : A → List B) (xs : List A)
    → All P (concat_map f xs)
    → All (λ x. All P (f x)) xs
unfolding concat_map
concat_map-All P f [] all = tt
concat_map-All P f (x ∷ xs) all =
    let (here, rest) = All-append_inv P (f x) (concat_map f xs) all in
    (here, concat_map-All P f xs rest)

map-All :
    {A B : Type 0} (P : B → Type 0) (f : A → B) (xs : List A)
    → All P (map f xs)
    → All (λ x. P (f x)) xs
map-All P f [] all = tt
map-All P f (x ∷ xs) all = (all.0, map-All P f xs all.1)

-- What an insertion establishes and growth keeps holds of all rows after the chunks.
chunks-hold :
    {R : Type 0} (P : R → Db → Type 0) (insert : R → Statement)
    → ((r : R) (db db' : Db) → insert r db ≡ ok db' → P r db')
    → ((r : R) (a b : Db) → Grows a b → P r a → P r b)
    → ((r : R) → GrowsBy (insert r))
    → (rows : List R) (db db' : Db) → insert_chunks insert rows db ≡ ok db'
    → All (λ r. P r db') rows
chunks-hold P insert here keeps grows rows db db' e =
    chunks-All (λ r. P r db') batch_insert_chunk rows
      (insert_rows-All (λ c d. All (λ r. P r d) c) (insert_rows insert)
        (insert_rows-All P insert here keeps grows)
        (λ c x y g all. All-map _ _ c (λ r h. keeps r x y g h) all)
        (insert_rows-GrowsBy insert grows) (chunks batch_insert_chunk rows) db db' e)

chunks-GrowsBy :
    {R : Type 0} (insert : R → Statement)
    → ((r : R) → GrowsBy (insert r))
    → (rows : List R) → GrowsBy (insert_chunks insert rows)
chunks-GrowsBy insert grows rows =
    insert_rows-GrowsBy (insert_rows insert) (insert_rows-GrowsBy insert grows)
      (chunks batch_insert_chunk rows)

join_rows :
    (db : Db) (all : List BlockBundle)
    → All (λ (c : BlockBundle). has_block c.block.height db ≡ true) all
    → All (λ (c : BlockBundle). All (λ (t : Transaction). has_tx t.hash db ≡ true) c.txs) all
    → All (λ (c : BlockBundle). All (λ l. has log_key (log_key l) db.logs ≡ true) c.logs) all
    → All
        (λ (c : BlockBundle).
          All (λ t. has transfer_key (transfer_key t) db.token_transfers ≡ true) c.token_transfers)
        all
    → All (HasRows db) all
join_rows db [] b t l x = tt
join_rows db (c ∷ all) b t l x = (
  record { block = b.0; txs = t.0; logs = l.0; transfers = x.0 },
  join_rows db all b.1 t.1 l.1 x.1,
)

pub batch_rows-HasRows :
    (b : BlockBundle) (bundles : List BlockBundle) (db db' : Db)
    → batch_rows b bundles db ≡ ok db'
    → All (HasRows db') (b ∷ bundles)
batch_rows-HasRows b bundles db db' e =
    let all = b ∷ bundles in
    let (d1, e1, r1) =
      then_do-inv (insert_chunks insert_block (all_blocks all)) (batch_from_txs b bundles) db db'
        e in
    let (d2, e2, r2) =
      then_do-inv (insert_chunks insert_tx (all_txs all)) (batch_from_addresses b bundles) d1 db'
        r1 in
    let (d3, e3, r3) =
      then_do-inv
        (insert_rows upsert_batch (chunks batch_insert_chunk (tx_addresses (all_txs all))))
        (batch_from_logs b bundles) d2 db' r2 in
    let (d4, e4, r4) =
      then_do-inv (insert_chunks insert_log (all_logs all)) (batch_from_transfers b bundles) d3 db'
        r3 in
    let (d5, e5, r5) =
      then_do-inv (insert_chunks insert_transfer (all_transfers all)) (batch_cursor b bundles) d4
        db' r4 in
    let g5 =
      write_cursor-GrowsBy (max_height b bundles) (timestamp_at (max_height b bundles) all) d5 db'
        r5 in
    let g4 =
      Grows-trans d4 d5 db'
        (chunks-GrowsBy insert_transfer insert_transfer-GrowsBy (all_transfers all) d4 d5 e5) g5 in
    let g3 =
      Grows-trans d3 d4 db' (chunks-GrowsBy insert_log insert_log-GrowsBy (all_logs all) d3 d4 e4)
        g4 in
    let g2 =
      Grows-trans d2 d3 db'
        (insert_rows-GrowsBy upsert_batch upsert_batch-GrowsBy
          (chunks batch_insert_chunk (tx_addresses (all_txs all))) d2 d3 e3)
        g3 in
    let g1 =
      Grows-trans d1 d2 db' (chunks-GrowsBy insert_tx insert_tx-GrowsBy (all_txs all) d1 d2 e2)
        g2 in
    let blocks =
      chunks-hold (λ (c : Block) d. has_block c.height d ≡ true) insert_block insert_block-has
        (λ c x y g h. g.blocks c.height h) insert_block-GrowsBy (all_blocks all) db d1 e1 in
    let txs =
      chunks-hold (λ (t : Transaction) d. has_tx t.hash d ≡ true) insert_tx insert_tx-has
        (λ t x y g h. g.txs t.hash h) insert_tx-GrowsBy (all_txs all) d1 d2 e2 in
    let logs =
      chunks-hold (λ (l : Log) (d : Db). has log_key (log_key l) d.logs ≡ true) insert_log
        insert_log-has (λ l x y g h. g.logs (log_key l) h) insert_log-GrowsBy (all_logs all) d3 d4
        e4 in
    let transfers =
      chunks-hold
        (λ (t : TokenTransfer) (d : Db). has transfer_key (transfer_key t) d.token_transfers ≡ true)
        insert_transfer insert_transfer-has (λ t x y g h. g.transfers (transfer_key t) h)
        insert_transfer-GrowsBy (all_transfers all) d4 d5 e5 in
    join_rows db' all
      (map-All _ _ all (
        sort_by_key-All_inv _ _ _
          (All-map _ _ (all_blocks all) (λ c h. g1.blocks c.height h) blocks)))
      (concat_map-All _ _ all
        (sort_by_key-All_inv _ _ _ (All-map _ _ (all_txs all) (λ t h. g2.txs t.hash h) txs)))
      (concat_map-All _ _ all (
        sort_by_key-All_inv _ _ _ (All-map _ _ (all_logs all) (λ l h. g4.logs (log_key l) h) logs)))
      (concat_map-All _ _ all (
        sort_by_key-All_inv _ _ _
          (All-map _ _ (all_transfers all) (λ t h. g5.transfers (transfer_key t) h) transfers)))
