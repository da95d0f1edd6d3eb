-- ===== src/Sync/BlockWriter/Single.antt =====
-- `write_block` as a whole: all or nothing, and never an inconsistent table.
use indexer_rs.Base.{
  ◌≡◌, refl, ap, sym, ◌∙◌, ◌⊎◌, ℕ, ◌++◌, Bool, true, false, List, [], ◌∷◌, arith, ok, err, inl, inr,
  Option-cases,
}
use indexer_rs.Base.Effects.{Result-cases}
use indexer_rs.Domain.{Block, Transaction, as_u64}
use indexer_rs.Db.Schema.{Db, DbResult}
use indexer_rs.Db.Session.{Session, transaction}
use indexer_rs.Db.Runs.{Runs-transaction, transaction-rollback, healthy}
use indexer_rs.Db.Integrity.{IsConsistent}
use indexer_rs.Sync.World.{World, SyncError, db_error, db_result, sql, push}
use indexer_rs.Sync.BlockWriter.{
  BlockBundle, bundle_sql, analytics_row, push_txs, push_block, write_block,
}
use indexer_rs.Sync.BlockWriter.Bundle.{bundle_rows, Runs-bundle, bundle_rows-IsConsistent}
use indexer_rs.Sync.BlockWriter.Replay.{bundle_rows_twice}

-- Pushing rows does not touch the pool.
pub push_txs-session :
    (h : ℕ) (block : Block) (txs : List Transaction) (w : World)
    → (push_txs h block txs w).1.session ≡ w.session
unfolding push_txs push
push_txs-session h block [] w = refl
push_txs-session h block (t ∷ txs) w = ground (
  arith,
  push_txs-session h block txs (record w { pushed = w.pushed ++ analytics_row h block t ∷ [] }),
)

push_block-lem :
    (analytics : Bool) (b : BlockBundle) (w : World)
    → ((push_block analytics b w).0 ≡ ok tt) × ((push_block analytics b w).1.session ≡ w.session)
unfolding push_block
push_block-lem false b w = (refl, refl)
push_block-lem true b w = elim (Option-cases (as_u64 b.block.height)) [
  | inl e ↦ rw (e, push_block) (refl, refl)
  | inr (h, e) ↦ rw (e, push_block) (refl, push_txs-session h b.block b.txs w)
]

-- The database part of `write_block`.
abbrev committed : BlockBundle → World → DbResult (Unit {0}) × Session
committed b w = transaction (bundle_sql b) w.session

write_block-cases :
    (analytics : Bool) (b : BlockBundle) (w : World)
    → ((write_block analytics b w).0 ≡ db_result (committed b w).0)
      × ((write_block analytics b w).1.session ≡ (committed b w).1)
unfolding write_block sql
write_block-cases analytics b w = elim (Result-cases (committed b w).0) [
  | inl (u, e) ↦
      let pushes = push_block-lem analytics b (record w { session = (committed b w).1 }) in
      ground (arith, e, pushes)
  | inr (x, e) ↦ ground (arith, e)
]

-- `write_block` either succeeds, and then its tables are those of the block's rows and cursor written in
-- the code's order; or it returns an error, and then the tables are as they were, whichever round trip
-- failed.
pub write_block_atomic :
    (analytics : Bool) (b : BlockBundle) (w : World)
    → ((write_block analytics b w).0 ≡ ok tt)
        × (bundle_rows b w.db ≡ ok (write_block analytics b w).1.db)
      ⊎ ((e : SyncError) × ((write_block analytics b w).0 ≡ err e)
          × ((write_block analytics b w).1.db ≡ w.db))
write_block_atomic analytics b w =
    let (result, session) = write_block-cases analytics b w in
    elim (Result-cases (committed b w).0) [
      | inl (u, e) ↦ inl (
        result ∙ ap db_result e,
        (Runs-transaction (bundle_sql b) (bundle_rows b) (Runs-bundle b)).sound w.session e
            ∙ ap (λ (s : Session). ok s.db) (sym session),
      )
      | inr (x, e) ↦ inr (
        db_error x,
        result ∙ ap db_result e,
        ap (λ (s : Session). s.db) session ∙ transaction-rollback (bundle_sql b) w.session x e,
      )
    ]

-- Whether it succeeds or fails, `write_block` keeps the foreign keys and the unique keys of the tables.
pub write_block-IsConsistent :
    (analytics : Bool) (b : BlockBundle) (w : World)
    → IsConsistent w.db
    → IsConsistent (write_block analytics b w).1.db
write_block-IsConsistent analytics b w c = elim (write_block_atomic analytics b w) [
  | inl (_, rows) ↦ bundle_rows-IsConsistent b w.db (write_block analytics b w).1.db c rows
  | inr (e, _, same) ↦ rw same c
]

pub write_block-ok :
    (analytics : Bool) (b : BlockBundle) (w : World)
    → (write_block analytics b w).0 ≡ ok tt
    → bundle_rows b w.db ≡ ok (write_block analytics b w).1.db
write_block-ok analytics b w h = elim (write_block_atomic analytics b w) [
  | inl (_, rows) ↦ rows
  | inr (e, fails, _) ↦ absurd (ground arith)
]

-- On a connection that does not fail, `write_block` does exactly what the rows of its block allow.
pub write_block-healthy :
    (analytics : Bool) (b : BlockBundle) (w : World) (db' : Db)
    → w.faults ≡ []
    → bundle_rows b w.db ≡ ok db'
    → ((write_block analytics b w).0 ≡ ok tt) × ((write_block analytics b w).1.db ≡ db')
write_block-healthy analytics b w db' quiet rows =
    let (result, session) = write_block-cases analytics b w in
    let done : committed b w ≡ (ok tt, healthy db') =
      ap (λ (fs : List Bool). transaction (bundle_sql b) (record { db = w.db; faults = fs })) quiet
      ∙ (Runs-transaction (bundle_sql b) (bundle_rows b) (Runs-bundle b)).succeeds w.db db' rows in
    (
      result ∙ ap (λ (p : DbResult (Unit {0}) × Session). db_result p.0) done,
      ap (λ (s : Session). s.db) session ∙ ap (λ (p : DbResult (Unit {0}) × Session). p.1.db) done,
    )

-- Writing the same block again, on a connection that does not fail, succeeds and changes no table.
pub write_block_twice :
    (analytics : Bool) (b : BlockBundle) (w : World)
    → (write_block analytics b w).0 ≡ ok tt
    → let w' = record (write_block analytics b w).1 {
      session = healthy (write_block analytics b w).1.db;
    } in
      ((write_block analytics b w').0 ≡ ok tt) × ((write_block analytics b w').1.db ≡ w'.db)
write_block_twice analytics b w h =
    write_block-healthy analytics b _ _ refl
      (bundle_rows_twice b w.db (write_block analytics b w).1.db (write_block-ok analytics b w h))
