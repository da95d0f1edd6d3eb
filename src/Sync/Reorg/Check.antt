-- ===== src/Sync/Reorg/Check.antt =====
-- `check_once`: when it leaves the tables alone, and when and how far it rewinds.
use indexer_rs.Base.{
  ◌≡◌, ◌∙◌, refl, ◌⊎◌, inl, inr, ℕ, ℤ, pos, pos_part, ltb_ℤ, true, false, Option, none, some, arith,
  ok, Result, if◌then◌else◌, Bool-cases, saturating_sub,
}
use indexer_rs.Base.Effects.{Result-cases, ◌>>◌, pure}
use indexer_rs.Domain.{BlockHeight, Hash, Block}
use indexer_rs.Db.Schema.{Db}
use indexer_rs.Db.Chain.{get_by_height}
use indexer_rs.Db.Runs.{healthy}
use indexer_rs.Db.Integrity.{IsConsistent}
use indexer_rs.Sync.World.{World, SyncError, SyncConfig}
use indexer_rs.Sync.Cursor.{stored_cursor}
use indexer_rs.Sync.Reorg.{
  Remote, local_block, differ, chain_result, walk_back_to_divergence, rewind_to, probe_height,
  rewind_from, compare_probe, check_once,
}
use indexer_rs.Sync.Reorg.Rewind.{
  rewind_rows, Rewound, rewind_rows-Rewound, rewind_to-succeeds, rewind_to_atomic,
  rewind_rows-IsConsistent,
}
use indexer_rs.Sync.Reorg.Walk.{
  calm, answers, forked, Divergence, local_block-calm, local_block-db, walk_back-Divergence,
  walk_back-reads,
}

-- What a pass may do: nothing to the tables; or a rewind, of which it reports the height below.
abbrev pub Passed : Db → Result SyncError BlockHeight × World → Type 0
Passed before p =
    (p.1.db ≡ before)
    ⊎ ((h : BlockHeight) × (p.0 ≡ ok (saturating_sub h (pos 1)))
        × (rewind_rows h before ≡ ok p.1.db))

Passed-from :
    (a b : Db) (p : Result SyncError BlockHeight × World) → a ≡ b → Passed a p → Passed b p
Passed-from a b p e h = rw⁻¹ e h

-- The rewind and the report, once the divergence is known.
abbrev finish : BlockHeight → World → Result SyncError BlockHeight × World
finish h = do rewind_to h; pure (saturating_sub h (pos 1))

finish-Passed : (h : BlockHeight) (w : World) → Passed w.db (finish h w)
finish-Passed h w = elim (rewind_to_atomic h w) [
  | inl (done, rows) ↦ inr (h, rw done refl, rw done rows)
  | inr (e, fails, same) ↦ inl (rw fails same)
]

rewind_from-Passed :
    (remote : Remote) (p : BlockHeight) (w : World) → Passed w.db (rewind_from remote p w)
unfolding rewind_from
rewind_from-Passed remote p w =
    let walk = walk_back_to_divergence remote (pos_part p) w in
    let same = walk_back-reads remote (pos_part p) w in
    elim (Result-cases walk.0) [
      | inl (h, e) ↦ rw e (Passed-from _ w.db (finish h walk.1) same (finish-Passed h walk.1))
      | inr (x, e) ↦ inl (rw e same)
    ]

compare_probe-Passed :
    (remote : Remote) (cursor p : BlockHeight) (l : Option Block) (w : World)
    → Passed w.db (compare_probe remote cursor p l w)
unfolding compare_probe
compare_probe-Passed remote cursor p none w = inl refl
compare_probe-Passed remote cursor p (some l) w = elim (Result-cases (chain_result (remote p))) [
  | inl (r, e) ↦ elim (Bool-cases (differ (some l) r)) [
    | inl fork ↦ rw (e, fork) (rewind_from-Passed remote p w)
    | inr same ↦ rw (e, same) (inl refl)
  ]
  | inr (x, e) ↦ rw e (inl refl)
]

-- Whatever the connection and the chain do, a pass of `check_once` either leaves the tables as they were
-- (also when it returns an error), or is one rewind as a whole, and it reports the height below the one
-- that it rewound to.
pub check_once-Passed :
    (remote : Remote) (cfg : SyncConfig) (cursor : BlockHeight) (w : World)
    → Passed w.db (check_once remote cfg cursor w)
unfolding check_once
check_once-Passed remote cfg cursor w = elim (Bool-cases (ltb_ℤ cursor (pos 0))) [
  | inl early ↦ rw early (inl refl)
  | inr on ↦
      let p = probe_height cfg cursor in
      let same = local_block-db p w in
      elim (Result-cases (local_block p w).0) [
        | inl (l, e) ↦
            rw (on, e)
              (Passed-from _ w.db (compare_probe remote cursor p l (local_block p w).1) same
                (compare_probe-Passed remote cursor p l (local_block p w).1))
        | inr (x, e) ↦ inl (rw (on, e) same)
      ]
]

-- A pass keeps the keys and foreign keys of the tables, errors included.
pub check_once-IsConsistent :
    (remote : Remote) (cfg : SyncConfig) (cursor : BlockHeight) (w : World)
    → IsConsistent w.db
    → IsConsistent (check_once remote cfg cursor w).1.db
check_once-IsConsistent remote cfg cursor w c = elim (check_once-Passed remote cfg cursor w) [
  | inl same ↦ rw same c
  | inr (h, _, rows) ↦ rewind_rows-IsConsistent h w.db _ c rows
]

probe_height-pos :
    (cfg : SyncConfig) (c : BlockHeight) → pos (pos_part (probe_height cfg c)) ≡ probe_height cfg c
unfolding probe_height
probe_height-pos cfg c = ground arith

-- The pass after its first comparison, on a connection and a chain that answer.
check_once-calm :
    (view : BlockHeight → Option Hash) (cfg : SyncConfig) (c : ℕ) (w : World)
    → let p = probe_height cfg (pos c) in
      check_once (answers view) cfg (pos c) (calm w) ≡ (
        if forked view w.db (pos_part p)
        then rewind_from (answers view) p (calm w)
        else (ok (pos c), calm w))
unfolding check_once compare_probe
check_once-calm view cfg c w =
    let p = probe_height cfg (pos c) in
    let nonneg : ltb_ℤ (pos c) (pos 0) ≡ false = ground arith in
    rw (nonneg, local_block-calm p w, probe_height-pos cfg (pos c))
      (by_block (get_by_height p w.db))
  where
    by_block :
        (l : Option Block)
        → let p = probe_height cfg (pos c) in
          compare_probe (answers view) (pos c) p l (calm w) ≡ (
            if differ l (view p)
            then rewind_from (answers view) p (calm w)
            else (ok (pos c), calm w))
    by_block none = refl
    by_block (some l) = elim (Bool-cases (differ (some l) (view (probe_height cfg (pos c))))) [
      | inl fork ↦ rw fork refl
      | inr same ↦ rw same refl
    ]

-- What a pass that found a fork leaves: it rewound to the lowest height of the fork, and reports the
-- height below it.
pub record Resolved (view : BlockHeight → Option Hash) (w : World) (n : ℕ)
    (p : Result SyncError BlockHeight × World) : Type 0 where
  pub at : ℕ
  pub found : Divergence view w.db n at
  pub reports : p.0 ≡ ok (saturating_sub (pos at) (pos 1))
  pub rewound : Rewound (pos at) w.db p.1.db

-- On a connection and a chain that answer, with a readable stored cursor: if the probe height is forked, the
-- pass rewinds to the height `d` such that every height from `d` to the probe differs and `d - 1` does
-- not, and it reports `d - 1`.
pub check_once-fork :
    (view : BlockHeight → Option Hash) (cfg : SyncConfig) (c : ℕ) (old : Option ℤ) (w : World)
    → IsConsistent w.db
    → stored_cursor w.db ≡ ok old
    → forked view w.db (pos_part (probe_height cfg (pos c))) ≡ true
    → Resolved view w
        (pos_part (probe_height cfg (pos c)))
        (check_once (answers view) cfg (pos c) (calm w))
unfolding rewind_from
check_once-fork view cfg c old w ok_db readable fork =
    let n = pos_part (probe_height cfg (pos c)) in
    let (d, run, found) = walk_back-Divergence view n w in
    let (db', done, rows) = rewind_to-succeeds (pos d) old w readable in
    let eq : check_once (answers view) cfg (pos c) (calm w)
        ≡ (ok (saturating_sub (pos d) (pos 1)), record w { session = healthy db' }) =
      check_once-calm view cfg c w ∙ rw (fork, run, done) refl in
    rw eq (record {
      at = d;
      found = found;
      reports = refl;
      rewound = rewind_rows-Rewound (pos d) w.db db' ok_db rows;
    })
