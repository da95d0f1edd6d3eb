-- ===== src/Sync/Reorg.antt =====
-- crates/sync/src/reorg.rs: the probe below the cursor, the walk back to the divergence, the rewind.
pub mod Rewind
pub mod Walk
pub mod Check
mod Examples
use indexer_rs.Base.{
  ℕ, zero, suc, ℤ, pos, pos_part, Bool, true, false, Option, none, some, List, ok, err, Result,
  ◌==◌, string_eq, ltb_ℤ, max_ℤ, saturating_sub, as_i64, if◌then◌else◌,
}
use indexer_rs.Base.Effects.{◌>>=◌, ◌>>◌, pure, lift}
use indexer_rs.Domain.{BlockHeight, Hash, Block}
use indexer_rs.Db.Schema.{Db}
use indexer_rs.Db.Chain.{get_by_height, delete_from}
use indexer_rs.Db.Session.{Sql, query, execute, transaction}
use indexer_rs.Chain.Error.{ChainResult}
use indexer_rs.Sync.World.{World, Io, SyncError, chain, SyncConfig, sql}
use indexer_rs.Sync.Cursor.{write_cursor}

-- The chain during one pass: its answer at each height, with the hash in the text form `0x…` that the
-- code compares; none where the chain has no such block.
abbrev pub Remote : Type 0
Remote = BlockHeight → ChainResult (Option Hash)

-- A chain call; `?` wraps its error.
abbrev pub chain_result : {A : Type 0} → ChainResult A → Result SyncError A
chain_result (ok a) = ok a
chain_result (err e) = err (chain e)

unfoldable pub local_block : BlockHeight → Io (Option Block)
local_block h = sql (query (λ db. ok (get_by_height h db)))

-- How the loop goes on after comparing the parent: whether both have it with different hashes.
abbrev pub differ : Option Block → Option Hash → Bool
differ (some l) (some r) = if r == l.hash then false else true
differ none r = false
differ (some l) none = false

-- `walk_back_to_divergence` from a height that is at least 0.
unfoldable pub walk_back_to_divergence : Remote → ℕ → Io BlockHeight
walk_back_to_divergence remote zero = pure (pos 0)
walk_back_to_divergence remote (suc n) =
    let go_on = walk_back_to_divergence remote n in
    do
      l ← local_block (pos n)
      r ← lift (chain_result (remote (pos n)))
      if differ l r then go_on else pure (pos (suc n))

-- The statements of `rewind_to` between BEGIN and COMMIT.
unfoldable pub rewind_sql : BlockHeight → Sql (Unit {0})
rewind_sql h = do execute (delete_from h); write_cursor (saturating_sub h (pos 1)) (pos 0)

unfoldable pub rewind_to : BlockHeight → Io (Unit {0})
rewind_to h = sql (transaction (rewind_sql h))

unfoldable pub probe_height : SyncConfig → BlockHeight → BlockHeight
probe_height cfg cursor = max_ℤ (saturating_sub cursor (as_i64 cfg.reorg_probe_depth)) (pos 0)

unfoldable pub rewind_from : Remote → BlockHeight → Io BlockHeight
rewind_from remote probe_h = do
  divergence ← walk_back_to_divergence remote (pos_part probe_h)
  rewind_to divergence
  pure (saturating_sub divergence (pos 1))

-- `check_once`; the chain is asked only if the local block is there.
unfoldable pub compare_probe : Remote → BlockHeight → BlockHeight → Option Block → Io BlockHeight
compare_probe remote cursor probe_h none = pure cursor
compare_probe remote cursor probe_h (some l) = do
  r ← lift (chain_result (remote probe_h))
  if differ (some l) r then rewind_from remote probe_h else pure cursor

unfoldable pub check_once : Remote → SyncConfig → BlockHeight → Io BlockHeight
check_once remote cfg cursor = if ltb_ℤ cursor (pos 0) then pure cursor else (do
  l ← local_block (probe_height cfg cursor)
  compare_probe remote cursor (probe_height cfg cursor) l)
