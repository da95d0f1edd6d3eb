-- ===== src/Sync/BlockWriter/Held.antt =====
-- What a written bundle leaves in the tables.
use mathlib.Core.Path.{subst}
use indexer_rs.Base.{
  ◌≡◌, sym, ℤ, true, List, [], ◌∷◌, arith, All, All-map, ok, inl, inr, string_eq, int_eq, pair_eq,
  ==_self,
}
use indexer_rs.Base.Effects.{Result-cases}
use indexer_rs.Domain.{Address, Block, Transaction, Log, TokenTransfer}
use indexer_rs.Db.Table.{has, has-insert_new_self}
use indexer_rs.Db.Schema.{Db, Statement, log_key, transfer_key}
use indexer_rs.Db.Chain.{
  has_block, has_tx, insert_block, insert_tx, insert_log, insert_transfer, insert_rows,
}
use indexer_rs.Db.Meta.{write_cursor_row}
use indexer_rs.Db.Runs.{◌then_do◌}
use indexer_rs.Db.Growth.{
  Covered, Grows, GrowsBy, Grows-refl, Grows-trans, insert_rows-GrowsBy, insert_tx-GrowsBy,
  insert_log-GrowsBy, insert_transfer-GrowsBy, upsert_batch-GrowsBy, write_cursor-GrowsBy,
  upsert_batch-eq, upsert_all-Covered_self,
}
use indexer_rs.Sync.BlockWriter.{BlockBundle, tx_addresses}
use indexer_rs.Sync.BlockWriter.Bundle.{
  bundle_rows, register_rows, from_txs, from_addresses, from_logs, from_transfers,
}

-- Every row of the bundle is in the tables, and every address of it in the registry.
pub record Holds (b : BlockBundle) (db : Db) : Type 0 where
  pub block : has_block b.block.height db ≡ true
  pub txs : All (λ (t : Transaction). has_tx t.hash db ≡ true) b.txs
  pub addresses : All (λ s. Covered s db.addresses) (tx_addresses b.txs)
  pub logs : All (λ l. has log_key (log_key l) db.logs ≡ true) b.logs
  pub transfers :
      All (λ t. has transfer_key (transfer_key t) db.token_transfers ≡ true) b.token_transfers

pub then_do-inv :
    (f g : Statement) (db db' : Db)
    → (f then_do g) db ≡ ok db'
    → (mid : Db) × (f db ≡ ok mid) × (g mid ≡ ok db')
then_do-inv f g db db' h = elim (Result-cases (f db)) [
  | inl (mid, e) ↦ (mid, e, rw (e, ◌then_do◌) at h)
  | inr (x, e) ↦ absurd (ground (arith, e))
]

-- What each insertion establishes and no later one undoes holds of all rows at the end.
pub insert_rows-All :
    {R : Type 0} (P : R → Db → Type 0) (insert : R → Statement)
    → ((r : R) (db db' : Db) → insert r db ≡ ok db' → P r db')
    → ((r : R) (a b : Db) → Grows a b → P r a → P r b)
    → ((r : R) → GrowsBy (insert r))
    → (rows : List R) (db db' : Db) → insert_rows insert rows db ≡ ok db'
    → All (λ r. P r db') rows
unfolding insert_rows
insert_rows-All P insert here keeps grows [] db db' e = tt
insert_rows-All P insert here keeps grows (r ∷ rows) db db' e =
    let (mid, one, rest) = then_do-inv (insert r) (insert_rows insert rows) db db' e in
    (
      keeps r mid db' (insert_rows-GrowsBy insert grows rows mid db' rest) (here r db mid one),
      insert_rows-All P insert here keeps grows rows mid db' rest,
    )

pub insert_block-has :
    (b : Block) (db db' : Db) → insert_block b db ≡ ok db' → has_block b.height db' ≡ true
unfolding insert_block has
insert_block-has b db db' e = ground (arith, ==_self b.height)

pub insert_tx-has :
    (t : Transaction) (db db' : Db) → insert_tx t db ≡ ok db' → has_tx t.hash db' ≡ true
unfolding insert_tx has
insert_tx-has t db db' e = ground (arith, ==_self t.hash)

pub insert_log-has :
    (l : Log) (db db' : Db) → insert_log l db ≡ ok db' → has log_key (log_key l) db'.logs ≡ true
unfolding insert_log has
insert_log-has l db db' e = ground (arith, ==_self l.block_height, ==_self l.log_index)

pub insert_transfer-has :
    (t : TokenTransfer) (db db' : Db)
    → insert_transfer t db ≡ ok db'
    → has transfer_key (transfer_key t) db'.token_transfers ≡ true
unfolding insert_transfer
insert_transfer-has t db db' e =
    ground (arith, has-insert_new_self transfer_key t db.token_transfers)

register-Covered :
    (seen : List (Address × ℤ)) (db db' : Db)
    → register_rows seen db ≡ ok db'
    → All (λ s. Covered s db'.addresses) seen
register-Covered [] db db' e = tt
register-Covered (s ∷ seen) db db' e =
    let (_, more) = upsert_batch-eq (s ∷ seen) db db' e in
    subst (λ (d : Db). All (λ p. Covered p d.addresses) (s ∷ seen)) (sym more)
      (upsert_all-Covered_self (s ∷ seen) db.addresses)

pub register-GrowsBy : (seen : List (Address × ℤ)) → GrowsBy (register_rows seen)
register-GrowsBy [] db db' e = let same : db' ≡ db = cc in rw same (Grows-refl db)
register-GrowsBy (s ∷ seen) db db' e = upsert_batch-GrowsBy (s ∷ seen) db db' e

-- A bundle that is written is held by the tables.
pub bundle_rows-Holds : (b : BlockBundle) (db db' : Db) → bundle_rows b db ≡ ok db' → Holds b db'
bundle_rows-Holds b db db' e =
    let (d1, e1, r1) = then_do-inv (insert_block b.block) (from_txs b) db db' e in
    let (d2, e2, r2) = then_do-inv (insert_rows insert_tx b.txs) (from_addresses b) d1 db' r1 in
    let (d3, e3, r3) = then_do-inv (register_rows (tx_addresses b.txs)) (from_logs b) d2 db' r2 in
    let (d4, e4, r4) = then_do-inv (insert_rows insert_log b.logs) (from_transfers b) d3 db' r3 in
    let (d5, e5, r5) =
      then_do-inv (insert_rows insert_transfer b.token_transfers)
        (write_cursor_row b.block.height b.block.timestamp) d4 db' r4 in
    let g5 = write_cursor-GrowsBy b.block.height b.block.timestamp d5 db' r5 in
    let g4 =
      Grows-trans d4 d5 db'
        (insert_rows-GrowsBy insert_transfer insert_transfer-GrowsBy b.token_transfers d4 d5 e5)
        g5 in
    let g3 =
      Grows-trans d3 d4 db' (insert_rows-GrowsBy insert_log insert_log-GrowsBy b.logs d3 d4 e4)
        g4 in
    let g2 = Grows-trans d2 d3 db' (register-GrowsBy (tx_addresses b.txs) d2 d3 e3) g3 in
    let g1 =
      Grows-trans d1 d2 db' (insert_rows-GrowsBy insert_tx insert_tx-GrowsBy b.txs d1 d2 e2) g2 in
    record {
      block = g1.blocks b.block.height (insert_block-has b.block db d1 e1);
      txs =
          All-map _ _ b.txs (λ t h. g2.txs t.hash h)
            (insert_rows-All (λ (t : Transaction) d. has_tx t.hash d ≡ true) insert_tx insert_tx-has
              (λ t x y g h. g.txs t.hash h) insert_tx-GrowsBy b.txs d1 d2 e2);
      addresses =
          All-map _ _ (tx_addresses b.txs) (λ s h. g3.seen s h)
            (register-Covered (tx_addresses b.txs) d2 d3 e3);
      logs =
          All-map _ _ b.logs (λ l h. g4.logs (log_key l) h)
            (insert_rows-All (λ (l : Log) (d : Db). has log_key (log_key l) d.logs ≡ true)
              insert_log insert_log-has (λ l x y g h. g.logs (log_key l) h) insert_log-GrowsBy
              b.logs d3 d4 e4);
      transfers =
          All-map _ _ b.token_transfers (λ t h. g5.transfers (transfer_key t) h)
            (insert_rows-All
              (λ (t : TokenTransfer) (d : Db).
                has transfer_key (transfer_key t) d.token_transfers ≡ true)
              insert_transfer insert_transfer-has (λ t x y g h. g.transfers (transfer_key t) h)
              insert_transfer-GrowsBy b.token_transfers d4 d5 e5);
    }
