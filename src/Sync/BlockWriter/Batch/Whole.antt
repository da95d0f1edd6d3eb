-- ===== src/Sync/BlockWriter/Batch/Whole.antt =====
-- `batch_write_blocks`: the tables hold every bundle of a written batch, row by row.
use indexer_rs.Base.{◌≡◌, Bool, ok, inl, inr, List, [], ◌∷◌, arith, All, All-map}
use indexer_rs.Db.Extended.{Among}
use indexer_rs.Sync.World.{World}
use indexer_rs.Sync.BlockWriter.{BlockBundle, batch_write_blocks}
use indexer_rs.Sync.BlockWriter.Kept.{BlockOf, Extends, Extends-refl}
use indexer_rs.Sync.BlockWriter.Written.{
  all-Among, batch_rows-ExtendsBy, HoldsRows, Extends-HoldsRows,
}
use indexer_rs.Sync.BlockWriter.Batch.Outcome.{batch_write_blocks_atomic}
use indexer_rs.Sync.BlockWriter.Batch.Rows.{batch_rows-HasRows}

-- After a batch that succeeds, the tables have a row at the key of every block, transaction, log and
-- transfer of every bundle of the batch, whatever the order that the bundles came in: a key that had a row
-- before the batch keeps that row, and any other has, with all its columns, a row of a bundle of the batch
-- with that key. No other key of these tables has another row than before the batch, except for such rows.
pub batch_write_blocks-HoldsRows :
    (analytics : Bool) (bundles : List BlockBundle) (w : World)
    → (batch_write_blocks analytics bundles w).0 ≡ ok tt
    → let after = (batch_write_blocks analytics bundles w).1.db in
      let given = Among bundles in
      All (HoldsRows given (BlockOf given) w.db after) bundles × Extends given w.db after
unfolding batch_write_blocks
batch_write_blocks-HoldsRows analytics [] w done = (tt, same w)
  where
    same : (v : World) → Extends (Among []) v.db v.db
    same v = Extends-refl (Among []) v.db
batch_write_blocks-HoldsRows analytics (b ∷ bundles) w done =
    let all = b ∷ bundles in
    let after = (batch_write_blocks analytics all w).1.db in
    elim (batch_write_blocks_atomic analytics all w) [
      | inl (_, rows) ↦
          let x = batch_rows-ExtendsBy (Among all) b bundles (all-Among all) w.db after rows in
          (
            All-map _ _ all (λ c. Extends-HoldsRows (Among all) w.db after c x)
                (batch_rows-HasRows b bundles w.db after rows),
            x,
          )
      | inr (e, fails, _) ↦ absurd (ground arith)
    ]
