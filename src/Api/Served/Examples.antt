-- ===== src/Api/Served/Examples.antt =====
-- The backfill of a chain with the blocks 0 and 2, and the answer for the block 2.
use indexer_rs.Base.{◌≡◌, ◌⊎◌, ◌≤ℤ◌, ◌-ℤ◌, saturating_sub, as_i64, pos, none, some, [], arith, ok}
use indexer_rs.Db.Schema.{empty_db}
use indexer_rs.Sync.World.{default_config}
use indexer_rs.Sync.Ingest.{fetch_one}
use indexer_rs.Sync.Backfill.{backfill_cap, run_backfill}
use indexer_rs.Sync.BlockWriter.{BlockBundle}
use indexer_rs.Sync.BlockWriter.Examples.{world_of}
use indexer_rs.Sync.Backfill.Examples.{
  ten_blocks-AnswersAsked, run_ten, tip_ten, no_cursor, caught_up,
}
use indexer_rs.Api.Served.{Serves, run_backfill-Serves}

two_to_cap : pos 2 ≤ℤ backfill_cap default_config (pos 10)
unfolding backfill_cap saturating_sub ◌-ℤ◌ as_i64
two_to_cap = omega arith

run_backfill-Serves_example :
    (fetch_one run_ten.api run_ten.backoff (pos 2) ≡ ok none)
    ⊎ ((b : BlockBundle) × (fetch_one run_ten.api run_ten.backoff (pos 2) ≡ ok (some b))
        × Serves empty_db
            (run_backfill run_ten default_config [] (world_of empty_db [])).1.db
            (pos 2)
            b.block)
run_backfill-Serves_example =
    run_backfill-Serves run_ten default_config (world_of empty_db []) none (pos 10) (pos 2) (pos 2)
      ten_blocks-AnswersAsked no_cursor tip_ten caught_up (omega arith) two_to_cap (omega arith)
