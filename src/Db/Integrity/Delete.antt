-- ===== src/Db/Integrity/Delete.antt =====
-- The reorg statement: what DELETE FROM blocks WHERE height >= h drops, keeps and leaves behind.
use indexer_rs.Base.{
  ◌≡◌, Bool, true, false, not, ◌&&◌, ◌||◌, List, [], ◌∷◌, arith, All, All-keep, any, keep, ◌==◌,
  int_eq, string_eq, pair_eq, leb_ℤ, Key,
}
use indexer_rs.Domain.{BlockHeight, Block, Transaction, Log}
use indexer_rs.Db.Table.{has, Unique-keep}
use indexer_rs.Db.Schema.{Db}
use indexer_rs.Db.Chain.{has_block, block_dropped, tx_dropped}
use indexer_rs.Db.Integrity.{IsConsistent}

abbrev pub after_delete : BlockHeight → Db → Db
after_delete h db = record db {
  blocks = keep (λ (b : Block). not (leb_ℤ h b.height)) db.blocks;
  transactions =
      keep (λ (t : Transaction). not (block_dropped h db t.block_height)) db.transactions;
  logs =
      keep (λ (l : Log). not (block_dropped h db l.block_height || tx_dropped h db l.tx_hash))
        db.logs;
}

-- A block that stands below `h` or is not there is not dropped; one that stands at or above `h` is.
has-keep_below :
    (h k : BlockHeight) (bs : List Block)
    → has (λ (b : Block). b.height) k (keep (λ (b : Block). not (leb_ℤ h b.height)) bs)
      ≡ (not (leb_ℤ h k) && has (λ (b : Block). b.height) k bs)
unfolding has
has-keep_below h k [] = ground arith
has-keep_below h k (b ∷ bs) = ground (arith, has-keep_below h k bs)

dropped_iff :
    (h k : BlockHeight) (bs : List Block)
    → any (λ (b : Block). leb_ℤ h b.height && b.height == k) bs
      ≡ (leb_ℤ h k && has (λ (b : Block). b.height) k bs)
unfolding has
dropped_iff h k [] = ground arith
dropped_iff h k (b ∷ bs) = ground (arith, dropped_iff h k bs)

has-keep_undropped {ℓ κ} :
    {R : Type ℓ} {K : Type κ} ⦃e : Key K⦄ (key : R → K) (dropped : R → Bool) (k : K) (rows : List R)
    → has key k rows ≡ true
    → any (λ r. dropped r && key r == k) rows ≡ false
    → has key k (keep (λ r. not (dropped r)) rows) ≡ true
unfolding has
has-keep_undropped key dropped k [] h d = h
has-keep_undropped key dropped k (r ∷ rows) h d =
    ground (arith, has-keep_undropped key dropped k rows)

-- Exactly the blocks below `h` are left.
pub has_block-delete :
    (h k : BlockHeight) (db : Db)
    → has_block k (after_delete h db) ≡ (not (leb_ℤ h k) && has_block k db)
has_block-delete h k db = has-keep_below h k db.blocks

-- A row whose block is there and not dropped stands below `h`.
undropped_below :
    (h k : BlockHeight) (db : Db)
    → has_block k db ≡ true
    → block_dropped h db k ≡ false
    → leb_ℤ h k ≡ false
undropped_below h k db there kept = ground (arith, dropped_iff h k db.blocks)

block_kept :
    (h k : BlockHeight) (db : Db)
    → has_block k db ≡ true
    → block_dropped h db k ≡ false
    → has_block k (after_delete h db) ≡ true
block_kept h k db there kept = rw (has_block-delete h k db, undropped_below h k db there kept) there

pub delete_from-IsConsistent :
    (h : BlockHeight) (db : Db) → IsConsistent db → IsConsistent (after_delete h db)
delete_from-IsConsistent h db c = record {
  tx_blocks =
      All-keep _ _ _ db.transactions
        (λ t there kept. block_kept h t.block_height db there (ground arith)) c.tx_blocks;
  log_blocks =
      All-keep _ _ _ db.logs (λ l there kept. block_kept h l.block_height db there (ground arith))
        c.log_blocks;
  log_txs =
      All-keep _ _ _ db.logs
        (λ l there kept. has-keep_undropped _ _ l.tx_hash db.transactions there (ground arith))
        c.log_txs;
  unique_blocks = Unique-keep _ _ db.blocks c.unique_blocks;
  unique_txs = Unique-keep _ _ db.transactions c.unique_txs;
  unique_logs = Unique-keep _ _ db.logs c.unique_logs;
  unique_transfers = c.unique_transfers;
}

-- No transaction and no log of a height from `h` on is left.
pub delete_from-Below :
    (h : BlockHeight) (db : Db)
    → IsConsistent db
    → All (λ (t : Transaction). leb_ℤ h t.block_height ≡ false) (after_delete h db).transactions
      × All (λ (l : Log). leb_ℤ h l.block_height ≡ false) (after_delete h db).logs
delete_from-Below h db c = (
  All-keep _ _ _ db.transactions
      (λ t there kept. undropped_below h t.block_height db there (ground arith)) c.tx_blocks,
  All-keep _ _ _ db.logs (λ l there kept. undropped_below h l.block_height db there (ground arith))
      c.log_blocks,
)
