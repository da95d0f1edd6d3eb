-- ===== src/Sync/Tail/Gate.antt =====
-- How `handle_finalized` leaves the gate.
use indexer_rs.Base.{
  ◌≡◌, refl, ◌⊎◌, inl, inr, ℕ, zero, suc, ◌<◌, Bool, true, false, Option, none, some, List, [], ◌∷◌,
  arith, length, Result, ok, err, Option-cases,
}
use indexer_rs.Base.Effects.{Result-cases}
use indexer_rs.Domain.{BlockHeight}
use indexer_rs.Chain.Retry.{BackoffConfig}
use indexer_rs.Sync.World.{World, SyncError, SyncConfig}
use indexer_rs.Sync.Ingest.{Endpoints}
use indexer_rs.Sync.SingleFlight.{
  SingleFlight, new_gate, freshest, compare_exchange, drain, stash, offer, take_pending_and_release,
}
use indexer_rs.Sync.Tail.{
  Tail, TailError, failed, on_world, on_gate, offer_all, catch_up, work, handle_finalized,
}

-- Taken, with nothing pending.
abbrev pub held : SingleFlight
held = record { inflight = true; pending = none }

offer_all-taken :
    (tips : List BlockHeight) (p : Option BlockHeight)
    → (offer_all tips (record { inflight = true; pending = p })).inflight ≡ true
unfolding offer_all offer compare_exchange stash
offer_all-taken [] p = refl
offer_all-taken (tip ∷ tips) p = offer_all-taken tips (some (freshest p tip))

-- Released with nothing pending, or an error of the code with the gate still taken.
abbrev pub LeavesGate : Result TailError (Unit {0}) × Tail → Type 0
LeavesGate r =
    ((r.0 ≡ ok tt) × (r.1.gate ≡ new_gate))
    ⊎ ((e : SyncError) × (r.0 ≡ err (failed e)) × (r.1.gate.inflight ≡ true))

module _ (api : Endpoints) (cfg : SyncConfig) (backoff : BackoffConfig) (analytics : Bool) where
  -- A round that found a pending tip goes on with the gate held; one that found none has released it.
  round-LeavesGate :
      (fuel : ℕ) (tips : List BlockHeight) (later : List (List BlockHeight)) (current : BlockHeight)
      (w : World)
      → ((p : BlockHeight)
          → (offer_all tips held).pending ≡ some p
          → (w' : World)
          → LeavesGate
              (work fuel api cfg backoff analytics later p (record { world = w'; gate = held })))
      → LeavesGate (
          work
            (suc fuel)
            api
            cfg
            backoff
            analytics
            (tips ∷ later)
            current
            (record { world = w; gate = held }))
  unfolding work on_world on_gate
  round-LeavesGate fuel tips later current w again =
      elim (Result-cases (catch_up api cfg backoff analytics current w).0) [
        | inr (e, fails) ↦ rw fails (inr (e, refl, refl))
        | inl (u, done) ↦
            let w' = (catch_up api cfg backoff analytics current w).1 in
            let taken = offer_all-taken tips none in
            elim (Option-cases (offer_all tips held).pending) [
              | inl nothing ↦
                  let released : take_pending_and_release (offer_all tips held) ≡ (none, new_gate) =
                    unfold take_pending_and_release in ground (arith, nothing) in
                  rw (done, released) (inl (refl, refl))
              | inr (p, is) ↦
                  let kept : take_pending_and_release (offer_all tips held) ≡ (some p, held) =
                    unfold take_pending_and_release in ground (arith, is, taken) in
                  rw (done, kept) (again p is w')
            ]
      ]

  work-LeavesGate :
      (fuel : ℕ) (arrivals : List (List BlockHeight)) (current : BlockHeight) (w : World)
      → length arrivals < fuel
      → LeavesGate
          (work fuel api cfg backoff analytics arrivals current (record { world = w; gate = held }))
  unfolding work
  work-LeavesGate zero arrivals current w enough = absurd (omega arith)
  work-LeavesGate (suc fuel) [] current w enough =
      round-LeavesGate fuel [] [] current w (λ p is. absurd (unfold offer_all in ground arith))
  work-LeavesGate (suc fuel) (tips ∷ later) current w enough =
      round-LeavesGate fuel tips later current w
        (λ p is w'. work-LeavesGate fuel later p w' (omega arith))

  -- A call that finds the gate free returns, however many tips arrive meanwhile: without an error, and then
  -- the gate is free again with nothing pending; or with an error of the code, and then the gate is left
  -- taken.
  pub handle_finalized-LeavesGate :
      (arrivals : List (List BlockHeight)) (tip : BlockHeight) (t : Tail)
      → t.gate.inflight ≡ false
      → LeavesGate (handle_finalized api cfg backoff analytics arrivals tip t)
  unfolding handle_finalized on_gate offer compare_exchange drain
  handle_finalized-LeavesGate arrivals tip t free = rw free (
      work-LeavesGate (suc (length arrivals)) arrivals (freshest t.gate.pending tip) t.world
        (omega arith))

  -- A call that finds the gate taken returns at once: it touches no table, and the pending tip is the
  -- higher of its own and the one before.
  pub handle_finalized_busy :
      (arrivals : List (List BlockHeight)) (tip : BlockHeight) (t : Tail)
      → t.gate.inflight ≡ true
      → handle_finalized api cfg backoff analytics arrivals tip t ≡ (
        ok tt,
        record t {
          gate = record { inflight = true; pending = some (freshest t.gate.pending tip) };
        },
      )
  unfolding handle_finalized on_gate offer compare_exchange stash
  handle_finalized_busy arrivals tip t taken = rw taken (ground (arith, taken))

-- After an error of one call, every later call only stashes its tip: nothing releases the gate.
abbrev pub finalize_all :
    Endpoints → SyncConfig → BackoffConfig → Bool → List BlockHeight → Tail → Tail
finalize_all api cfg backoff analytics [] t = t
finalize_all api cfg backoff analytics (tip ∷ tips) t =
    finalize_all api cfg backoff analytics tips
      (handle_finalized api cfg backoff analytics [] tip t).1

finalize_all-busy :
    (api : Endpoints) (cfg : SyncConfig) (backoff : BackoffConfig) (analytics : Bool)
    (tips : List BlockHeight) (t : Tail)
    → t.gate.inflight ≡ true
    → ((finalize_all api cfg backoff analytics tips t).world ≡ t.world)
      × ((finalize_all api cfg backoff analytics tips t).gate.inflight ≡ true)
finalize_all-busy api cfg backoff analytics [] t taken = (refl, taken)
finalize_all-busy api cfg backoff analytics (tip ∷ tips) t taken =
    rw (finalize_all, handle_finalized_busy api cfg backoff analytics [] tip t taken)
      (finalize_all-busy api cfg backoff analytics tips
        (record t {
          gate = record { inflight = true; pending = some (freshest t.gate.pending tip) };
        })
        refl)

-- After one call that returned an error, no later finalized block is written, however many follow: every
-- later call leaves the tables, the pool and the analytics channel as that error left them.
pub handle_finalized_stuck :
    (api : Endpoints) (cfg : SyncConfig) (backoff : BackoffConfig) (analytics : Bool)
    (e : SyncError) (arrivals : List (List BlockHeight)) (tip : BlockHeight)
    (tips : List BlockHeight) (t : Tail)
    → t.gate.inflight ≡ false
    → (handle_finalized api cfg backoff analytics arrivals tip t).0 ≡ err (failed e)
    → let after = (handle_finalized api cfg backoff analytics arrivals tip t).1 in
      (finalize_all api cfg backoff analytics tips after).world ≡ after.world
handle_finalized_stuck api cfg backoff analytics e arrivals tip tips t free fails =
    elim (handle_finalized-LeavesGate api cfg backoff analytics arrivals tip t free) [
      | inl (done, _) ↦ absurd (ground arith)
      | inr (_, _, taken) ↦ (finalize_all-busy api cfg backoff analytics tips _ taken).0
    ]
