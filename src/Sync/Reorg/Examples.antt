-- ===== src/Sync/Reorg/Examples.antt =====
-- A fork at height 1, seen with the cursor at 17 and the default probe depth, and the theorems on the
-- reorg pass at it.
use indexer_rs.Base.{
  ◌≡◌, refl, ℕ, pos, pos_part, saturating_sub, arith, Option, some, [], ◌∷◌, ok, ◌≤ℤ◌, ◌==◌, int_eq,
  if◌then◌else◌, as_i64, ◌-ℤ◌,
}
use indexer_rs.Domain.{BlockHeight, Hash}
use indexer_rs.Db.Table.{find, has}
use indexer_rs.Db.Schema.{Db, empty_db, number}
use indexer_rs.Db.Chain.{delete_from, get_by_height}
use indexer_rs.Db.Meta.{last_synced_height_key, get_i64, write_cursor_row, set_i64, put_row}
use indexer_rs.Db.Session.{execute, round_trip, in_transaction, transaction}
use indexer_rs.Db.Integrity.{IsConsistent}
use indexer_rs.Sync.World.{World, default_config, sql}
use indexer_rs.Sync.Cursor.{stored_cursor, write_cursor}
use indexer_rs.Sync.BlockWriter.Examples.{block_at, tx_at, transfer_at, world_of}
use indexer_rs.Sync.Reorg.{probe_height, rewind_sql, rewind_to, walk_back_to_divergence, check_once}
use indexer_rs.Sync.Reorg.Rewind.{Rewound, rewind_to-Rewound, rewind_to-cursor_stays}
use indexer_rs.Sync.Reorg.Walk.{calm, answers, Divergence, walk_back-Divergence}
use indexer_rs.Sync.Reorg.Check.{Resolved, check_once-fork}

-- The tables of a chain whose block 1 the remote has replaced.
abbrev forked_db : Db
forked_db = record empty_db {
  blocks = block_at (pos 1) "0xb1" ∷ block_at (pos 0) "0xb0" ∷ [];
  transactions = tx_at (pos 1) "0xt1" ∷ [];
  token_transfers = transfer_at (pos 1) "0xt1" ∷ [];
  meta = record { name = last_synced_height_key; value = number (pos 17); updated_at = pos 0 } ∷ [];
}

abbrev forked_world : World
forked_world = world_of forked_db []

-- The chain's view: block 0 as in the tables, another block 1.
abbrev other_chain : BlockHeight → Option Hash
other_chain h = if h == pos 0 then some "0xb0" else some "0xff"

abbrev same_chain : BlockHeight → Option Hash
same_chain h = if h == pos 0 then some "0xb0" else some "0xb1"

forked_db-IsConsistent : IsConsistent forked_db
unfolding has
forked_db-IsConsistent = record {
  tx_blocks = (refl, tt);
  log_blocks = tt;
  log_txs = tt;
  unique_blocks = (refl, (refl, tt));
  unique_txs = (refl, tt);
  unique_logs = tt;
  unique_transfers = (refl, tt);
}

forked_cursor : stored_cursor forked_db ≡ ok (some (pos 17))
unfolding get_i64 find
forked_cursor = refl

rewound : (rewind_to (pos 1) forked_world).0 ≡ ok tt
unfolding rewind_to rewind_sql sql transaction in_transaction round_trip execute delete_from
    write_cursor write_cursor_row set_i64 put_row find saturating_sub ◌-ℤ◌
rewound = refl

rewind_to-Rewound_example : Rewound (pos 1) forked_db (rewind_to (pos 1) forked_world).1.db
rewind_to-Rewound_example = rewind_to-Rewound (pos 1) forked_world forked_db-IsConsistent rewound

one_below : saturating_sub (pos 1) (pos 1) ≤ℤ pos 17
unfolding saturating_sub ◌-ℤ◌
one_below = omega arith

rewind_to-cursor_stays_example :
    stored_cursor (rewind_to (pos 1) forked_world).1.db ≡ ok (some (pos 17))
rewind_to-cursor_stays_example =
    rewind_to-cursor_stays (pos 1) (pos 17) forked_world forked_cursor one_below rewound

walk_back-Divergence_example :
    (d : ℕ) × (walk_back_to_divergence (answers other_chain) 2 (calm forked_world)
      ≡ (ok (pos d), calm forked_world))
    × Divergence other_chain forked_db 2 d
walk_back-Divergence_example = walk_back-Divergence other_chain 2 forked_world

check_once-fork_example :
    Resolved other_chain forked_world
      (pos_part (probe_height default_config (pos 17)))
      (check_once (answers other_chain) default_config (pos 17) (calm forked_world))
unfolding probe_height get_by_height find saturating_sub ◌-ℤ◌ as_i64
check_once-fork_example =
    check_once-fork other_chain default_config 17 (some (pos 17)) forked_world
      forked_db-IsConsistent forked_cursor refl
