-- ===== src/Sync/Tail/Reached.antt =====
-- How far the tail's worker has come when it returns without an error.
use mathlib.Core.Path.{subst}
use indexer_rs.Base.{
  ◌≡◌, refl, sym, inl, inr, ℕ, zero, suc, ℤ, pos, pos_part, ◌+ℤ◌, ◌-ℤ◌, +ℤ_parts, -ℤ_parts,
  eq_of_parts, ◌≤ℤ◌, ◌<ℤ◌, min_ℤ, max_ℤ, i64_min, i64_max, ltb_ℤ, Bool, true, false, Option, none,
  some, List, arith, length, ok, Bool-cases, Option-cases, saturating_sub, as_i64,
}
use indexer_rs.Base.Effects.{Result-cases, for_each}
use indexer_rs.Domain.{BlockHeight}
use indexer_rs.Chain.Retry.{default_backoff}
use indexer_rs.Db.Schema.{Db}
use indexer_rs.Sync.World.{World, SyncConfig}
use indexer_rs.Sync.Cursor.{stored_cursor, read_cursor, or_sentinel}
use indexer_rs.Sync.Ingest.{Endpoints, ingest_one}
use indexer_rs.Sync.Ingest.Fetch.{AnswersAsked}
use indexer_rs.Sync.Backfill.{Run, heights_from}
use indexer_rs.Sync.BlockWriter.Kept.{Extends-refl}
use indexer_rs.Sync.Backfill.Flush.{Answered}
use indexer_rs.Sync.Backfill.Done.{Done, Present-Done}
use indexer_rs.Sync.Backfill.Outcome.{read_cursor-lem}
use indexer_rs.Sync.SingleFlight.{
  freshest, compare_exchange, drain, offer, take_pending_and_release,
}
use indexer_rs.Sync.Tail.{
  Tail, on_world, on_gate, offer_all, catch_up, next_arrivals, work, handle_finalized,
}
use indexer_rs.Sync.Tail.Written.{Begin, UpTo, ingest_one-Ingested}
use indexer_rs.Sync.Tail.Ahead.{tail_run}

plus_next : (c : ℤ) (n : ℕ) → (c +ℤ pos 1) +ℤ pos n ≡ c +ℤ pos (suc n)
plus_next c n =
    eq_of_parts _ _
      (omega (arith, +ℤ_parts c (pos 1), +ℤ_parts (c +ℤ pos 1) (pos n), +ℤ_parts c (pos (suc n))))

plus_zero : (c : ℤ) → c +ℤ pos 0 ≡ c
plus_zero c = eq_of_parts _ _ (omega (arith, +ℤ_parts c (pos 0)))

-- The heights of the loop, all written.
ingest_all-UpTo :
    (run : Run) (lo : Begin) (c : ℤ) (n : ℕ) (w : World)
    → AnswersAsked run.api
    → UpTo run lo c w.db
    → let r =
        for_each (ingest_one run.api run.backoff run.analytics) (heights_from (c +ℤ pos 1) n) w in
      r.0 ≡ ok tt → UpTo run lo (c +ℤ pos n) r.1.db
unfolding for_each heights_from
ingest_all-UpTo run lo c zero w asked u fin = rw (plus_zero c) u
ingest_all-UpTo run lo c (suc n) w asked u fin = elim (ingest_one-Ingested run lo c w asked u) [
  | inr (x, fails, same) ↦ absurd (ground (arith, fails))
  | inl (one, next) ↦
      let w1 = (ingest_one run.api run.backoff run.analytics (c +ℤ pos 1) w).1 in
      let later =
        for_each (ingest_one run.api run.backoff run.analytics)
          (heights_from ((c +ℤ pos 1) +ℤ pos 1) n) w1 in
      rw one (
        subst (λ d. UpTo run lo d later.1.db) (plus_next c n)
          (ingest_all-UpTo run lo (c +ℤ pos 1) n w1 asked next (rw one at fin)))
]

reaches : (c limit : ℤ) → c <ℤ limit → (c +ℤ pos (pos_part (limit -ℤ c))) ≡ limit
unfolding ◌-ℤ◌ ◌+ℤ◌
reaches c limit lt = ground arith

-- The cursor stands at `c` or above, and at the limit or above, with all heights up to it done.
abbrev pub Reached : Run → Begin → ℤ → ℤ → Db → Type 0
Reached run lo c limit db = (d : ℤ) × (c ≤ℤ d) × (limit ≤ℤ d) × UpTo run lo d db

catch_up-Reached :
    (run : Run) (cfg : SyncConfig) (lo : Begin) (c : ℤ) (current : BlockHeight) (w : World)
    → AnswersAsked run.api
    → UpTo run lo c w.db
    → let r = catch_up run.api cfg run.backoff run.analytics current w in
      r.0 ≡ ok tt → Reached run lo c (saturating_sub current (as_i64 cfg.safe_lag)) r.1.db
unfolding catch_up
catch_up-Reached run cfg lo c current w asked u fin =
    let (outcome, same) = read_cursor-lem w u.stored u.at in
    let w1 = (read_cursor w).1 in
    let limit = saturating_sub current (as_i64 cfg.safe_lag) in
    elim outcome [
      | inr (x, e) ↦ absurd (ground (arith, e))
      | inl e ↦ elim (Bool-cases (ltb_ℤ (or_sentinel u.stored) limit)) [
        | inr idle ↦
            let there : limit ≤ℤ c = rw⁻¹ u.is (ground (arith, idle)) in
            rw (e, idle) (c, omega arith, there, rw same u)
        | inl behind ↦
            let less : c <ℤ limit = rw⁻¹ u.is (ground (arith, behind)) in
            let steps = λ (c' : ℤ).
              for_each (ingest_one run.api run.backoff run.analytics)
                (heights_from (c' +ℤ pos 1) (pos_part (limit -ℤ c'))) w1 in
            let fin' : (steps c).0 ≡ ok tt =
              subst (λ c'. (steps c').0 ≡ ok tt) u.is (rw (e, behind) at fin) in
            let all = ingest_all-UpTo run lo c (pos_part (limit -ℤ c)) w1 asked (rw same u) fin' in
            rw (e, behind)
              (subst (λ c'. Reached run lo c limit (steps c').1.db) (sym u.is)
                (
                  limit,
                  omega (arith, less),
                  omega arith,
                  subst (λ d. UpTo run lo d (steps c).1.db) (reaches c limit less) all,
                ))
      ]
    ]

work-Reached :
    (run : Run) (cfg : SyncConfig) (lo : Begin) (fuel : ℕ) (arrivals : List (List BlockHeight))
    (c : ℤ) (current : BlockHeight) (t : Tail)
    → AnswersAsked run.api
    → UpTo run lo c t.world.db
    → let r = work fuel run.api cfg run.backoff run.analytics arrivals current t in
      r.0 ≡ ok tt → Reached run lo c (saturating_sub current (as_i64 cfg.safe_lag)) r.1.world.db
unfolding work on_world on_gate
work-Reached run cfg lo zero arrivals c current t asked u fin = absurd (ground arith)
work-Reached run cfg lo (suc fuel) arrivals c current t asked u fin =
    let r = catch_up run.api cfg run.backoff run.analytics current t.world in
    elim (Result-cases r.0) [
      | inr (x, e) ↦ absurd (ground (arith, e))
      | inl (v, e) ↦
          let (d, above, there, u1) = catch_up-Reached run cfg lo c current t.world asked u e in
          let g = take_pending_and_release (offer_all (next_arrivals arrivals).0 t.gate) in
          elim (Option-cases g.0) [
            | inl none_left ↦ rw (e, none_left) (d, above, there, u1)
            | inr (h, more) ↦
                let t1 : Tail = record { world = r.1; gate = g.1 } in
                let (d', further, there', u') =
                  work-Reached run cfg lo fuel (next_arrivals arrivals).1 d h t1 asked u1
                    (rw (e, more) at fin) in
                rw (e, more) (d', omega (arith, above, further), omega (arith, there, further), u')
          ]
    ]

freshest_limit :
    (pending : Option BlockHeight) (tip lag : ℤ)
    → saturating_sub tip lag ≤ℤ saturating_sub (freshest pending tip) lag
unfolding saturating_sub
freshest_limit none tip lag = omega arith
freshest_limit (some p) tip lag = grow tip (max_ℤ p tip) lag (higher p tip)
  where
    higher : (a b : ℤ) → b ≤ℤ max_ℤ a b
    higher a b = ground arith

    clamp : (a b : ℤ) → a ≤ℤ b → max_ℤ i64_min (min_ℤ i64_max a) ≤ℤ max_ℤ i64_min (min_ℤ i64_max b)
    clamp a b le = ground arith

    grow : (a b lag : ℤ) → a ≤ℤ b → saturating_sub a lag ≤ℤ saturating_sub b lag
    grow a b lag le = clamp (a -ℤ lag) (b -ℤ lag) (omega (arith, -ℤ_parts a lag, -ℤ_parts b lag))

-- A call for a finalized block that finds the gate free and returns without an error has caught up: the
-- stored cursor is at the block's height less `safe_lag`, or above, and for every height above the cursor
-- that it began at and up to that height, the chain has no block there, or the tables have a row for its
-- block and for each of its transactions, logs and transfers; a key that had a row before the call keeps that
-- row, and any other has what the chain answered, the block of a height being the one answered for it. The
-- chain is one that answers with the block that it was asked for.
pub handle_finalized-CatchesUp :
    (api : Endpoints) (cfg : SyncConfig) (analytics : Bool) (arrivals : List (List BlockHeight))
    (tip : BlockHeight) (t : Tail) (old : Option ℤ) (k : ℤ)
    → AnswersAsked api
    → t.gate.inflight ≡ false
    → stored_cursor t.world.db ≡ ok old
    → (handle_finalized api cfg default_backoff analytics arrivals tip t).0 ≡ ok tt
    → or_sentinel old <ℤ k
    → k ≤ℤ saturating_sub tip (as_i64 cfg.safe_lag)
    → let after = (handle_finalized api cfg default_backoff analytics arrivals tip t).1.world.db in
      Done (tail_run api analytics) t.world.db after k
      × ((new : Option ℤ) × (stored_cursor after ≡ ok new)
          × (saturating_sub tip (as_i64 cfg.safe_lag) ≤ℤ or_sentinel new))
unfolding handle_finalized on_gate offer compare_exchange drain
handle_finalized-CatchesUp api cfg analytics arrivals tip t old k asked free begins fin above
      below =
    let begin : Begin = record { cursor = or_sentinel old; db = t.world.db } in
    let start : UpTo (tail_run api analytics) begin (or_sentinel old) t.world.db = record {
      adds = Extends-refl (Answered (tail_run api analytics)) t.world.db;
      stored = old;
      at = begins;
      is = refl;
      done = λ k' above' below'. absurd (omega arith);
    } in
    let current = freshest t.gate.pending tip in
    let held : Tail = record {
      world = t.world;
      gate = record { inflight = true; pending = none };
    } in
    let (c, _, there, u) =
      work-Reached (tail_run api analytics) cfg begin (suc (length arrivals)) arrivals
        (or_sentinel old) current held asked start (rw free at fin) in
    let limit = freshest_limit t.gate.pending tip (as_i64 cfg.safe_lag) in
    let enough : saturating_sub tip (as_i64 cfg.safe_lag) ≤ℤ c = omega (arith, limit, there) in
    rw free (
      Present-Done (tail_run api analytics) t.world.db _ k asked u.adds
          (u.done k above (omega (arith, below, enough))),
      (u.stored, u.at, rw u.is enough),
    )
