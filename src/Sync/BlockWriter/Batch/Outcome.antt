-- ===== src/Sync/BlockWriter/Batch/Outcome.antt =====
-- `batch_write_blocks` as a whole: all bundles or none, and never an inconsistent table.
use indexer_rs.Base.{
  ◌≡◌, refl, ap, sym, ◌∙◌, ◌⊎◌, inl, inr, Bool, List, [], ◌∷◌, arith, ok, err, Option-cases,
}
use indexer_rs.Base.Effects.{Result-cases}
use indexer_rs.Domain.{as_u64}
use indexer_rs.Db.Schema.{DbResult}
use indexer_rs.Db.Session.{Session, transaction}
use indexer_rs.Db.Runs.{skip, Runs-transaction, transaction-rollback}
use indexer_rs.Db.Schema.{Statement}
use indexer_rs.Db.Integrity.{IsConsistent}
use indexer_rs.Sync.World.{World, SyncError, db_error, db_result, sql}
use indexer_rs.Sync.BlockWriter.{BlockBundle, batch_sql, batch_write_blocks, push_txs, push_blocks}
use indexer_rs.Sync.BlockWriter.Single.{push_txs-session}
use indexer_rs.Sync.BlockWriter.Batch.{batch_rows, Runs-batch, batch_rows-IsConsistent}

-- The rows of a list of bundles; none of an empty one.
abbrev pub bundles_rows : List BlockBundle → Statement
bundles_rows [] = skip
bundles_rows (b ∷ bundles) = batch_rows b bundles

push_blocks-session :
    (bundles : List BlockBundle) (w : World) → (push_blocks bundles w).session ≡ w.session
unfolding push_blocks
push_blocks-session [] w = refl
push_blocks-session (b ∷ bundles) w = elim (Option-cases (as_u64 b.block.height)) [
  | inl e ↦ rw (e, push_blocks) (push_blocks-session bundles w)
  | inr (h, e) ↦ ground (
    arith,
    e,
    push_txs-session h b.block b.txs w,
    push_blocks-session bundles (push_txs h b.block b.txs w).1,
  )
]

abbrev committed : BlockBundle → List BlockBundle → World → DbResult (Unit {0}) × Session
committed b bundles w = transaction (batch_sql b bundles) w.session

batch-cases :
    (analytics : Bool) (b : BlockBundle) (bundles : List BlockBundle) (w : World)
    → ((batch_write_blocks analytics (b ∷ bundles) w).0 ≡ db_result (committed b bundles w).0)
      × ((batch_write_blocks analytics (b ∷ bundles) w).1.session ≡ (committed b bundles w).1)
unfolding batch_write_blocks sql
batch-cases analytics b bundles w = elim (Result-cases (committed b bundles w).0) [
  | inl (u, e) ↦
      let pushes =
        push_blocks-session (b ∷ bundles) (record w { session = (committed b bundles w).1 }) in
      ground (arith, e, pushes)
  | inr (x, e) ↦ ground (arith, e)
]

-- `batch_write_blocks` either succeeds, and then its tables are those of the sorted rows of all bundles
-- and the cursor; or it returns an error, and then the tables are as they were.
pub batch_write_blocks_atomic :
    (analytics : Bool) (bundles : List BlockBundle) (w : World)
    → ((batch_write_blocks analytics bundles w).0 ≡ ok tt)
        × (bundles_rows bundles w.db ≡ ok (batch_write_blocks analytics bundles w).1.db)
      ⊎ ((e : SyncError) × ((batch_write_blocks analytics bundles w).0 ≡ err e)
          × ((batch_write_blocks analytics bundles w).1.db ≡ w.db))
batch_write_blocks_atomic analytics [] w = unfold batch_write_blocks in inl (refl, refl)
batch_write_blocks_atomic analytics (b ∷ bundles) w =
    let (result, session) = batch-cases analytics b bundles w in
    let runs =
      Runs-transaction (batch_sql b bundles) (batch_rows b bundles) (Runs-batch b bundles) in
    elim (Result-cases (committed b bundles w).0) [
      | inl (u, e) ↦ inl (
        result ∙ ap db_result e,
        runs.sound w.session e ∙ ap (λ (s : Session). ok s.db) (sym session),
      )
      | inr (x, e) ↦ inr (
        db_error x,
        result ∙ ap db_result e,
        ap (λ (s : Session). s.db) session
            ∙ transaction-rollback (batch_sql b bundles) w.session x e,
      )
    ]

-- Whether it succeeds or fails, a batch keeps the foreign keys and the unique keys of the tables.
pub batch_write_blocks-IsConsistent :
    (analytics : Bool) (bundles : List BlockBundle) (w : World)
    → IsConsistent w.db
    → IsConsistent (batch_write_blocks analytics bundles w).1.db
batch_write_blocks-IsConsistent analytics [] w c = unfold batch_write_blocks in c
batch_write_blocks-IsConsistent analytics (b ∷ bundles) w c =
    elim (batch_write_blocks_atomic analytics (b ∷ bundles) w) [
      | inl (_, rows) ↦
          batch_rows-IsConsistent b bundles w.db (batch_write_blocks analytics (b ∷ bundles) w).1.db
            c rows
      | inr (e, _, same) ↦ rw same c
    ]
