-- ===== src/Sync/Backfill.antt =====
-- crates/sync/src/backfill.rs: the walk from the cursor to the cap. The fetches run ahead of the writes in
-- the code, but their results come in the order of the heights and do not depend on the tables, so each
-- is the value of `fetch_one` at its height. `cancels` says for each round whether the token is cancelled.
pub mod Range
pub mod Flush
pub mod Done
pub mod Walk
pub mod Outcome
pub mod Examples
use indexer_rs.Base.{
  ℕ, zero, suc, ℤ, pos, pos_part, ◌+ℤ◌, ◌-ℤ◌, leb_ℤ, min_ℤ, Bool, true, false, ◌&&◌, Option, none,
  some, List, [], ◌∷◌, ◌++◌, length, leb, ltb, Result, ok, err, saturating_sub, as_i64,
  if◌then◌else◌,
}
use indexer_rs.Base.Effects.{◌>>=◌, ◌>>◌, pure, lift, continue}
use indexer_rs.Domain.{BlockHeight}
use indexer_rs.Chain.Retry.{BackoffConfig, default_backoff}
use indexer_rs.Sync.World.{SyncError, SyncConfig, Io, World, sql}
use indexer_rs.Sync.Cursor.{read_cursor, or_sentinel, write_cursor}
use indexer_rs.Sync.BlockWriter.{BlockBundle, max_height, batch_write_blocks}
use indexer_rs.Sync.Ingest.{Endpoints, retried, fetch_one}

-- The setting of `INDEXER_BACKFILL_BATCH`, if it is set and a number.
unfoldable pub backfill_batch_size : Option ℕ → ℕ
backfill_batch_size none = 100
backfill_batch_size (some n) = if ltb 0 n && leb n 1000 then n else 100

-- What one run of the loop is given.
pub record Run : Type 0 where
  pub api : Endpoints
  pub backoff : BackoffConfig
  pub batch_size : ℕ
  pub analytics : Bool

-- The buffered bundles as one batch, and the highest of their heights as the new cursor; nothing of an empty
-- buffer.
unfoldable pub flush : Run → List BlockBundle → BlockHeight → Io BlockHeight
flush run [] cursor = pure cursor
flush run (b ∷ buf) cursor = do batch_write_blocks run.analytics (b ∷ buf); pure (max_height b buf)

-- The flush at the batch boundary. The batch size is at least 1, so an empty buffer is not flushed.
unfoldable pub flush_full :
    Run → List BlockBundle → BlockHeight → Io (List BlockBundle × BlockHeight)
flush_full run buf cursor =
    if leb run.batch_size (length buf)
    then (do c ← flush run buf cursor; pure ([], c))
    else pure (buf, cursor)

-- What a round does with the answer for its height: the new buffer and cursor.
unfoldable pub take_answer :
    Run
    → BlockHeight
    → Option BlockBundle
    → List BlockBundle
    → BlockHeight
    → Io (List BlockBundle × BlockHeight)
take_answer run h (some bundle) buf cursor = flush_full run (buf ++ bundle ∷ []) cursor
take_answer run h none buf cursor = do
  flush run buf cursor
  sql (write_cursor h (pos 0))
  pure ([], h)

abbrev pub next_cancel : List Bool → Bool × List Bool
next_cancel [] = (false, [])
next_cancel (c ∷ cancels) = (c, cancels)

-- `start..=cap`, by its first height and its length.
unfoldable pub heights_from : BlockHeight → ℕ → List BlockHeight
heights_from h zero = []
heights_from h (suc n) = h ∷ heights_from (h +ℤ pos 1) n

-- The rounds over the heights left.
unfoldable pub walk :
    Run → List BlockHeight → List Bool → List BlockBundle → BlockHeight → Io BlockHeight
walk run [] cancels buf cursor = flush run buf cursor
walk run (h ∷ heights) cancels buf cursor =
    let (cancelled, later) = next_cancel cancels in
    let rest = walk run heights later in
    elim cancelled [
      | true ↦ flush run buf cursor
      | false ↦ do
        answer ← lift (fetch_one run.api run.backoff h)
        s ← take_answer run h answer buf cursor
        rest s.0 s.1
    ]

-- The last height to write: `safe_lag` below the tip, or the configured maximum.
unfoldable pub backfill_cap : SyncConfig → BlockHeight → BlockHeight
backfill_cap cfg tip =
    let behind = saturating_sub tip (as_i64 cfg.safe_lag) in
    elim cfg.max_backfill_height [ some m ↦ min_ℤ m behind | none ↦ behind ]

unfoldable pub backfill_from :
    Run → SyncConfig → List Bool → BlockHeight → BlockHeight → Io BlockHeight
backfill_from run cfg cancels cursor tip =
    let cap = backfill_cap cfg tip in
    if leb_ℤ cap cursor
    then pure cursor
    else walk run (heights_from (cursor +ℤ pos 1) (pos_part (cap -ℤ cursor))) cancels [] cursor

unfoldable pub run_backfill : Run → SyncConfig → List Bool → Io BlockHeight
run_backfill run cfg cancels = do
  stored ← read_cursor
  tip ← lift (retried run.backoff run.api.block_number)
  backfill_from run cfg cancels (or_sentinel stored) tip
