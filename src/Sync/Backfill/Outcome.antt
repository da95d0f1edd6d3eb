-- ===== src/Sync/Backfill/Outcome.antt =====
-- What a whole run of the backfill guarantees.
use mathlib.Core.Path.{subst}
use indexer_rs.Base.{
  zero, suc, beq_ℤ, beq_ℤ_iff, ◌≡◌, refl, ap, sym, ◌∙◌, ◌⊎◌, inl, inr, ℕ, ℤ, pos, pos_part, ◌+ℤ◌,
  ◌-ℤ◌, +ℤ_parts, -ℤ_parts, ◌≤ℤ◌, ◌<ℤ◌, leb_ℤ, Bool, Option, none, some, List, [], ◌++◌, arith, All,
  ok, err, Bool-cases,
}
use indexer_rs.Domain.{BlockHeight}
use indexer_rs.Db.Schema.{connection}
use indexer_rs.Db.Growth.{Grows}
use indexer_rs.Db.Runs.{query-cases}
use indexer_rs.Sync.World.{World, SyncError, SyncConfig, sql, db_error, db_result}
use indexer_rs.Sync.Cursor.{stored_cursor, read_cursor, or_sentinel}
use indexer_rs.Sync.Ingest.{retried}
use indexer_rs.Sync.Ingest.Fetch.{AnswersAsked}
use indexer_rs.Sync.Backfill.{Run, walk, heights_from, backfill_cap, backfill_from, run_backfill}
use indexer_rs.Sync.Backfill.Range.{heights_from-Ascending}
use indexer_rs.Sync.Backfill.Flush.{
  Present, no_progress, AtMost, Stands, Progress, Progress-NeverAhead,
}
use indexer_rs.Sync.Backfill.Done.{Done, Present-Done}
use indexer_rs.Sync.Backfill.Walk.{append_nil, Walked, walk-Walked}

-- The heights of a run from a cursor to a cap.
abbrev pub between : BlockHeight → BlockHeight → List BlockHeight
between cursor cap = heights_from (cursor +ℤ pos 1) (pos_part (cap -ℤ cursor))

above_cursor : (c : ℤ) → c <ℤ (c +ℤ pos 1)
above_cursor c = omega (arith, +ℤ_parts c (pos 1))

pub between-Walked :
    (run : Run) (cursor cap : BlockHeight) (cancels : List Bool) (w : World)
    → AnswersAsked run.api
    → Stands w.db cursor
    → Walked run w.db
        (between cursor cap)
        cancels
        (walk run (between cursor cap) cancels [] cursor w)
between-Walked run cursor cap cancels w asked s =
    walk-Walked run (between cursor cap) cancels [] cursor w cursor asked tt s (
      heights_from-Ascending cursor (cursor +ℤ pos 1) (pos_part (cap -ℤ cursor))
        (above_cursor cursor))

no_part : (a b : ℤ) → b ≤ℤ a → pos_part (b -ℤ a) ≡ 0
unfolding ◌-ℤ◌
no_part a b le = ground arith

between-none : (cursor cap : BlockHeight) → cap ≤ℤ cursor → between cursor cap ≡ []
unfolding heights_from
between-none cursor cap le =
    let nothing : pos_part (cap -ℤ cursor) ≡ 0 = no_part cursor cap le in rw nothing refl

-- With the cursor and the tip read, the run keeps the account of its heights.
backfill_from-Walked :
    (run : Run) (cfg : SyncConfig) (cancels : List Bool) (cursor tip : BlockHeight) (w : World)
    → AnswersAsked run.api
    → Stands w.db cursor
    → Walked run w.db
        (between cursor (backfill_cap cfg tip))
        cancels
        (backfill_from run cfg cancels cursor tip w)
unfolding backfill_from
backfill_from-Walked run cfg cancels cursor tip w asked s =
    let cap = backfill_cap cfg tip in
    elim (Bool-cases (leb_ℤ cap cursor)) [
      | inr more ↦ rw more (between-Walked run cursor cap cancels w asked s)
      | inl nothing ↦
          let none_there = between-none cursor cap (ground arith) in
          rw nothing (
            no_progress run w.db cursor (between cursor cap) s (rw none_there tt),
            λ c quiet fin. none_there,
          )
    ]

pub read_cursor-lem :
    (w : World) (old : Option ℤ)
    → stored_cursor w.db ≡ ok old
    → (((read_cursor w).0 ≡ ok old) ⊎ ((e : SyncError) × ((read_cursor w).0 ≡ err e)))
      × ((read_cursor w).1.db ≡ w.db)
unfolding read_cursor sql
read_cursor-lem w old is =
    let (outcome, same) = query-cases stored_cursor w.session in
    (
      elim outcome [
        | inl answers ↦ inl (ap db_result (answers ∙ is))
        | inr fails ↦ inr (db_error connection, ap db_result fails)
      ],
      same,
    )

sentinel-AtMost : (old : Option ℤ) → AtMost old (or_sentinel old)
sentinel-AtMost none = tt
sentinel-AtMost (some c) = omega arith

run_backfill-Walked :
    (run : Run) (cfg : SyncConfig) (cancels : List Bool) (w : World) (old : Option ℤ)
    (tip : BlockHeight)
    → AnswersAsked run.api
    → stored_cursor w.db ≡ ok old
    → retried run.backoff run.api.block_number ≡ ok tip
    → Walked run w.db
        (between (or_sentinel old) (backfill_cap cfg tip))
        cancels
        (run_backfill run cfg cancels w)
unfolding run_backfill
run_backfill-Walked run cfg cancels w old tip asked is at_tip =
    let (outcome, same) = read_cursor-lem w old is in
    let w' = (read_cursor w).1 in
    let s : Stands w.db (or_sentinel old) = (old, is, sentinel-AtMost old) in
    let all = between (or_sentinel old) (backfill_cap cfg tip) in
    elim outcome [
      | inl got ↦
          rw (got, at_tip)
            (subst
              (λ db.
                Walked run db all cancels (backfill_from run cfg cancels (or_sentinel old) tip w'))
              same
              (backfill_from-Walked run cfg cancels (or_sentinel old) tip w' asked
                (subst (λ db. Stands db (or_sentinel old)) (sym same) s)))
      | inr (e, fails) ↦ rw fails (
        subst (λ db. Progress run w.db db all) (sym same)
            (no_progress run w.db (or_sentinel old) all s
              (heights_from-Ascending _ _ _ (above_cursor (or_sentinel old)))),
        λ c quiet fin. absurd (ground arith),
      )
    ]

ℤ_cases : (h k : ℤ) → h ≤ℤ k → (h ≡ k) ⊎ (h <ℤ k)
ℤ_cases h k le = elim (Bool-cases (beq_ℤ h k)) [
  | inl same ↦ inl ((beq_ℤ_iff h k).0 same)
  | inr other ↦ inr (ground arith)
]

All-between :
    (P : BlockHeight → Type 0) (h : BlockHeight) (n : ℕ) (k : BlockHeight)
    → All P (heights_from h n)
    → h ≤ℤ k
    → k <ℤ (h +ℤ pos n)
    → P k
unfolding heights_from
All-between P h zero k p le lt = absurd (omega (arith, +ℤ_parts h (pos 0)))
All-between P h (suc n) k p le lt = elim (ℤ_cases h k le) [
  | inl here ↦ subst P here p.0
  | inr above ↦
      All-between P (h +ℤ pos 1) n k p.1 (omega (arith, +ℤ_parts h (pos 1)))
        (omega (arith, +ℤ_parts h (pos 1), +ℤ_parts h (pos (suc n)), +ℤ_parts (h +ℤ pos 1) (pos n)))
]

in_between :
    (P : BlockHeight → Type 0) (cursor cap k : BlockHeight)
    → All P (between cursor cap)
    → cursor <ℤ k
    → k ≤ℤ cap
    → P k
in_between P cursor cap k p lt le =
    All-between P (cursor +ℤ pos 1) (pos_part (cap -ℤ cursor)) k p
      (omega (arith, +ℤ_parts cursor (pos 1)))
      (omega (
        arith,
        -ℤ_parts cap cursor,
        +ℤ_parts cursor (pos 1),
        +ℤ_parts (cursor +ℤ pos 1) (pos (pos_part (cap -ℤ cursor))),
      ))

-- The backfill loses no row.
pub run_backfill-Grows :
    (run : Run) (cfg : SyncConfig) (cancels : List Bool) (w : World) (old : Option ℤ)
    (tip : BlockHeight)
    → AnswersAsked run.api
    → stored_cursor w.db ≡ ok old
    → retried run.backoff run.api.block_number ≡ ok tip
    → Grows w.db (run_backfill run cfg cancels w).1.db
run_backfill-Grows run cfg cancels w old tip asked is at_tip =
    (run_backfill-Walked run cfg cancels w old tip asked is at_tip).0.grows

pub run_backfill-NeverAhead :
    (run : Run) (cfg : SyncConfig) (cancels : List Bool) (w : World) (old : Option ℤ)
    (tip c k : BlockHeight)
    → AnswersAsked run.api
    → stored_cursor w.db ≡ ok old
    → retried run.backoff run.api.block_number ≡ ok tip
    → stored_cursor (run_backfill run cfg cancels w).1.db ≡ ok (some c)
    → or_sentinel old <ℤ k
    → k ≤ℤ backfill_cap cfg tip
    → k ≤ℤ c
    → Done run w.db (run_backfill run cfg cancels w).1.db k
run_backfill-NeverAhead run cfg cancels w old tip c k asked is at_tip at lt le below =
    let cursor = or_sentinel old in
    let limit = backfill_cap cfg tip in
    let (p, _) = run_backfill-Walked run cfg cancels w old tip asked is at_tip in
    Present-Done run w.db _ k asked p.adds (
      in_between (λ j. j ≤ℤ c → Present run _ j) cursor limit k
        (Progress-NeverAhead run w.db _ (between cursor limit) p c at) lt le below)

-- A run that is not cancelled and returns without an error has caught up: for each height from the one above
-- its first cursor to its cap, the chain has no block there, or the tables have a row for its block and for
-- each of its transactions, logs and token transfers; a key that had a row before the run keeps that row, and
-- any other has what the chain answered, the block of a height being the one answered for it. The chain is
-- one that answers with the block that it was asked for.
pub run_backfill-CatchesUp :
    (run : Run) (cfg : SyncConfig) (w : World) (old : Option ℤ) (tip c : BlockHeight)
    → AnswersAsked run.api
    → stored_cursor w.db ≡ ok old
    → retried run.backoff run.api.block_number ≡ ok tip
    → (run_backfill run cfg [] w).0 ≡ ok c
    → (k : BlockHeight) → or_sentinel old <ℤ k
    → k ≤ℤ backfill_cap cfg tip
    → Done run w.db (run_backfill run cfg [] w).1.db k
run_backfill-CatchesUp run cfg w old tip c asked is at_tip fin k lt le =
    let cursor = or_sentinel old in
    let limit = backfill_cap cfg tip in
    let (p, none_left) = run_backfill-Walked run cfg [] w old tip asked is at_tip in
    let left : p.left ≡ [] = none_left c refl fin in
    let gone : p.gone ≡ between cursor limit =
      sym (append_nil p.gone) ∙ (ap (λ l. p.gone ++ l) (sym left) ∙ p.split) in
    Present-Done run w.db _ k asked p.adds
      (in_between (Present run _) cursor limit k (rw gone at p.done) lt le)
