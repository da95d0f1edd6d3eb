-- ===== src/Sync/BlockWriter/Written.antt =====
-- What a written bundle, and a written batch, add to the tables of the chain.
use indexer_rs.Base.{
  ◌≡◌, refl, sym, ℤ, inl, inr, List, [], ◌∷◌, ◌++◌, All, All-map, All-append, string_eq, int_eq,
  pair_eq, map,
}
use mathlib.Core.Path.{subst}
use indexer_rs.Domain.{Address, Block}
use indexer_rs.Db.Extended.{Among, Stored, has-Stored}
use indexer_rs.Db.Schema.{Db, Statement, log_key, transfer_key}
use indexer_rs.Db.Chain.{insert_block, insert_tx, insert_log, insert_transfer, insert_rows}
use indexer_rs.Db.Addresses.{upsert_batch}
use indexer_rs.Sync.BlockWriter.{BlockBundle, tx_addresses, concat_map, batch_insert_chunk}
use indexer_rs.Sync.BlockWriter.Sorting.{sort_by_key-All, chunks, join_all, chunks-join}
use indexer_rs.Sync.BlockWriter.Bundle.{bundle_rows, register_rows}
use indexer_rs.Sync.BlockWriter.Kept.{
  block_key, tx_key, BlockOf, TxOf, LogOf, TransferOf, Extends, Extends-refl, ExtendsBy,
  then-ExtendsBy, insert_block-ExtendsBy, insert_tx-ExtendsBy, insert_log-ExtendsBy,
  insert_transfer-ExtendsBy, upsert_batch-ExtendsBy, write_cursor-ExtendsBy, rows-ExtendsBy,
}
use indexer_rs.Sync.BlockWriter.Batch.{
  insert_chunks, all_blocks, all_txs, all_logs, all_transfers, batch_rows,
}
use indexer_rs.Sync.BlockWriter.Batch.Rows.{HasRows}

pub all-Among : {A : Type 0} (xs : List A) → All (λ (x : A). Among xs x) xs
all-Among [] = tt
all-Among (x ∷ xs) = (inl refl, All-map _ _ xs (λ y h. inr h) (all-Among xs))

module _ {A : Type 0} (P : A → Type 0) where
  All-unjoin : (cs : List (List A)) → All P (join_all cs) → All (λ c. All P c) cs
  unfolding join_all
  All-unjoin [] all = tt
  All-unjoin (c ∷ cs) all =
      let (here, rest) = split c (join_all cs) all in (here, All-unjoin cs rest)
    where
      split : (xs ys : List A) → All P (xs ++ ys) → All P xs × All P ys
      split [] ys h = (tt, h)
      split (x ∷ xs) ys h = let (l, r) = split xs ys h.1 in ((h.0, l), r)

  All-chunks : (rows : List A) → All P rows → All (λ c. All P c) (chunks batch_insert_chunk rows)
  All-chunks rows all =
      All-unjoin (chunks batch_insert_chunk rows)
        (subst (λ (ys : List A). All P ys) (sym (chunks-join batch_insert_chunk rows)) all)

  All-concat_map :
      {B : Type 0} (f : B → List A) (xs : List B)
      → All (λ (x : B). All P (f x)) xs
      → All P (concat_map f xs)
  unfolding concat_map
  All-concat_map f [] all = tt
  All-concat_map f (x ∷ xs) all = All-append P (f x) _ all.0 (All-concat_map f xs all.1)

module _ (given : BlockBundle → Type 0) where
  blocks-Of :
      (all : List BlockBundle)
      → All given all
      → All (BlockOf given) (map (λ (c : BlockBundle). c.block) all)
  blocks-Of [] g = tt
  blocks-Of (c ∷ all) g = ((c, g.0, refl), blocks-Of all g.1)

  rows-Of :
      {R : Type 0} (rows : BlockBundle → List R) (all : List BlockBundle)
      → All given all
      → All (λ (s : R). (c : BlockBundle) × given c × Among (rows c) s) (concat_map rows all)
  rows-Of rows all g =
      All-concat_map _ rows all
        (All-map _ _ all (λ c h. All-map _ _ (rows c) (λ s m. (c, h, m)) (all-Among (rows c))) g)

  chunks-ExtendsBy :
      {R : Type 0} (insert : R → Statement) (rows : List R)
      → All (λ r. ExtendsBy given (insert r)) rows
      → ExtendsBy given (insert_chunks insert rows)
  chunks-ExtendsBy insert rows all =
      rows-ExtendsBy given (insert_rows insert) (chunks batch_insert_chunk rows) (
        All-map _ _ (chunks batch_insert_chunk rows) (λ c h. rows-ExtendsBy given insert c h)
          (All-chunks _ rows all))

  -- A batch of given bundles adds their rows and changes no other.
  pub batch_rows-ExtendsBy :
      (b : BlockBundle) (bundles : List BlockBundle)
      → All given (b ∷ bundles)
      → ExtendsBy given (batch_rows b bundles)
  batch_rows-ExtendsBy b bundles g =
      let all = b ∷ bundles in
      then-ExtendsBy given _ _
        (chunks-ExtendsBy insert_block (all_blocks all) (
          All-map _ _ (all_blocks all) (insert_block-ExtendsBy given)
            (sort_by_key-All _ _ _ (blocks-Of all g))))
        (then-ExtendsBy given _ _
          (chunks-ExtendsBy insert_tx (all_txs all) (
            All-map _ _ (all_txs all) (insert_tx-ExtendsBy given)
              (sort_by_key-All _ _ _ (rows-Of (λ c. c.txs) all g))))
          (then-ExtendsBy given _ _
            (rows-ExtendsBy given upsert_batch
              (chunks batch_insert_chunk (tx_addresses (all_txs all)))
              (every (upsert_batch-ExtendsBy given) _))
            (then-ExtendsBy given _ _
              (chunks-ExtendsBy insert_log (all_logs all) (
                All-map _ _ (all_logs all) (insert_log-ExtendsBy given)
                  (sort_by_key-All _ _ _ (rows-Of (λ c. c.logs) all g))))
              (then-ExtendsBy given _ _
                (chunks-ExtendsBy insert_transfer (all_transfers all) (
                  All-map _ _ (all_transfers all) (insert_transfer-ExtendsBy given)
                    (sort_by_key-All _ _ _ (rows-Of (λ c. c.token_transfers) all g))))
                (write_cursor-ExtendsBy given _ _)))))
    where
      every : {A : Type 0} {P : A → Type 0} → ((x : A) → P x) → (xs : List A) → All P xs
      every f [] = tt
      every f (x ∷ xs) = (f x, every f xs)

  register-ExtendsBy : (seen : List (Address × ℤ)) → ExtendsBy given (register_rows seen)
  register-ExtendsBy [] db db' e = let same : db' ≡ db = cc in rw same (Extends-refl given db)
  register-ExtendsBy (s ∷ seen) db db' e = upsert_batch-ExtendsBy given (s ∷ seen) db db' e

  -- A given bundle adds its rows and changes no other.
  pub bundle_rows-ExtendsBy : (b : BlockBundle) → given b → ExtendsBy given (bundle_rows b)
  bundle_rows-ExtendsBy b g =
      then-ExtendsBy given _ _ (insert_block-ExtendsBy given b.block (b, g, refl)) (
        then-ExtendsBy given _ _
          (rows-ExtendsBy given insert_tx b.txs
            (All-map _ _ b.txs (λ t m. insert_tx-ExtendsBy given t (b, g, m)) (all-Among b.txs)))
          (then-ExtendsBy given _ _ (register-ExtendsBy (tx_addresses b.txs)) (
            then-ExtendsBy given _ _
              (rows-ExtendsBy given insert_log b.logs (
                All-map _ _ b.logs (λ l m. insert_log-ExtendsBy given l (b, g, m))
                  (all-Among b.logs)))
              (then-ExtendsBy given _ _
                (rows-ExtendsBy given insert_transfer b.token_transfers (
                  All-map _ _ b.token_transfers (λ t m. insert_transfer-ExtendsBy given t (b, g, m))
                    (all-Among b.token_transfers)))
                (write_cursor-ExtendsBy given _ _)))))

-- After a change from `a` to `db`, the tables have a row for each row of the bundle, with all its columns:
-- it is the row that stood at the key before or, if there was none, a row of the given bundles; for the
-- block it is as `block_is` says.
pub record HoldsRows (given : BlockBundle → Type 0) (block_is : Block → Type 0) (a db : Db)
    (b : BlockBundle) : Type 0 where
  pub block : Stored block_key block_is a.blocks db.blocks b.block
  pub txs : All (Stored tx_key (TxOf given) a.transactions db.transactions) b.txs
  pub logs : All (Stored log_key (LogOf given) a.logs db.logs) b.logs
  pub transfers :
      All
        (Stored transfer_key (TransferOf given) a.token_transfers db.token_transfers)
        b.token_transfers

pub Extends-HoldsRows :
    (given : BlockBundle → Type 0) (a db : Db) (b : BlockBundle)
    → Extends given a db
    → HasRows db b
    → HoldsRows given (BlockOf given) a db b
Extends-HoldsRows given a db b x h = record {
  block = has-Stored block_key _ a.blocks db.blocks b.block x.blocks h.block;
  txs = All-map _ _ b.txs (λ t. has-Stored tx_key _ a.transactions db.transactions t x.txs) h.txs;
  logs = All-map _ _ b.logs (λ l. has-Stored log_key _ a.logs db.logs l x.logs) h.logs;
  transfers =
      All-map _ _ b.token_transfers
        (λ t. has-Stored transfer_key _ a.token_transfers db.token_transfers t x.transfers)
        h.transfers;
}
