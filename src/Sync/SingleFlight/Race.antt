-- ===== src/Sync/SingleFlight/Race.antt =====
-- The gate under calls that overlap. `offer` makes its exchange before it takes the lock, so another
-- caller's step may come between the two; `take_pending_and_release` is one step.
pub mod Tips
pub mod Safety
use indexer_rs.Base.{ℤ, ◌≡◌, Bool, true, false, Option, none, some, List, [], ◌∷◌}
use indexer_rs.Domain.{BlockHeight}
use indexer_rs.Sync.SingleFlight.{
  SingleFlight, new_gate, compare_exchange, drain, stash, take_pending_and_release,
}

-- The callers that are past their exchange and not yet at the lock, and the workers, each with its tip;
-- with a record of every tip that was offered and of every target that a worker was given.
pub record Racing : Type 0 where
  pub gate : SingleFlight
  pub draining : List BlockHeight
  pub stashing : List BlockHeight
  pub working : List BlockHeight
  pub offered : List BlockHeight
  pub given : List BlockHeight

abbrev pub start : Racing
start = record {
  gate = new_gate;
  draining = [];
  stashing = [];
  working = [];
  offered = [];
  given = [];
}

-- `Removes x xs ys`: `ys` is `xs` without one `x`.
pub data Removes (x : BlockHeight) : List BlockHeight → List BlockHeight → Type 0 where
  here : {xs : List BlockHeight} → Removes x (x ∷ xs) xs
  later :
      {y : BlockHeight} {xs ys : List BlockHeight} → Removes x xs ys → Removes x (y ∷ xs) (y ∷ ys)

pub data Step (s : Racing) : Racing → Type 0 where
  wins :
      (tip : BlockHeight)
      → (compare_exchange s.gate).0 ≡ true
      → Step s (record s {
        gate = (compare_exchange s.gate).1;
        draining = tip ∷ s.draining;
        offered = tip ∷ s.offered;
      })
  loses :
      (tip : BlockHeight)
      → (compare_exchange s.gate).0 ≡ false
      → Step s (record s {
        gate = (compare_exchange s.gate).1;
        stashing = tip ∷ s.stashing;
        offered = tip ∷ s.offered;
      })
  drains :
      (tip : BlockHeight) (rest : List BlockHeight)
      → Removes tip s.draining rest
      → Step s (record s {
        gate = (drain tip s.gate).1;
        draining = rest;
        working = (drain tip s.gate).0 ∷ s.working;
        given = (drain tip s.gate).0 ∷ s.given;
      })
  stashes :
      (tip : BlockHeight) (rest : List BlockHeight)
      → Removes tip s.stashing rest
      → Step s (record s { gate = stash tip s.gate; stashing = rest })
  goes_on :
      (done next : BlockHeight) (rest : List BlockHeight)
      → Removes done s.working rest
      → (take_pending_and_release s.gate).0 ≡ some next
      → Step s (record s {
        gate = (take_pending_and_release s.gate).1;
        working = next ∷ rest;
        given = next ∷ s.given;
      })
  releases :
      (done : BlockHeight) (rest : List BlockHeight)
      → Removes done s.working rest
      → (take_pending_and_release s.gate).0 ≡ none
      → Step s (record s { gate = (take_pending_and_release s.gate).1; working = rest })

pub data Reach : Racing → Type 0 where
  begin : Reach start
  step : {s t : Racing} → Reach s → Step s t → Reach t
