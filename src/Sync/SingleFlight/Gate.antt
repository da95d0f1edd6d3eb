-- ===== src/Sync/SingleFlight/Gate.antt =====
-- The gate under calls that do not overlap: what its callers see is what a list of waiting tips shows.
use indexer_rs.Base.{◌≡◌, refl, ap, sym, true, false, Option, none, some, List, [], ◌∷◌, max_ℤ}
use indexer_rs.Domain.{BlockHeight}
use indexer_rs.Sync.SingleFlight.{
  SingleFlight, new_gate, Offer, acquired, stashed, freshest, compare_exchange, drain, stash, offer,
  take_pending_and_release,
}

pub data Call : Type 0 where
  offers : BlockHeight → Call
  takes : Call

pub data Answer : Type 0 where
  offered : Offer → Answer
  taken : Option BlockHeight → Answer

-- The answers of the gate to a sequence of calls.
abbrev pub serve : Call → SingleFlight → Answer × SingleFlight
serve (offers tip) g = let (o, g') = offer tip g in (offered o, g')
serve takes g = let (next, g') = take_pending_and_release g in (taken next, g')

unfoldable pub serve_all : List Call → SingleFlight → List Answer
serve_all [] g = []
serve_all (c ∷ calls) g = let (a, g') = serve c g in a ∷ serve_all calls g'

-- What the gate promises: while a worker runs, every other tip waits, and the worker gets the highest of
-- those that waited.
pub data Promise : Type 0 where
  idle : Promise
  busy : List BlockHeight → Promise

abbrev pub top : BlockHeight → List BlockHeight → BlockHeight
top tip [] = tip
top tip (t ∷ tips) = max_ℤ (top t tips) tip

abbrev pub highest : List BlockHeight → Option BlockHeight
highest [] = none
highest (tip ∷ tips) = some (top tip tips)

abbrev pub hand_over : Option BlockHeight → Answer × Promise
hand_over none = (taken none, idle)
hand_over (some next) = (taken (some next), busy [])

abbrev pub promise : Call → Promise → Answer × Promise
promise (offers tip) idle = (offered (acquired tip), busy [])
promise (offers tip) (busy tips) = (offered stashed, busy (tip ∷ tips))
promise takes idle = (taken none, idle)
promise takes (busy tips) = hand_over (highest tips)

unfoldable pub promise_all : List Call → Promise → List Answer
promise_all [] p = []
promise_all (c ∷ calls) p = let (a, p') = promise c p in a ∷ promise_all calls p'

-- The gate that stands for a promise.
abbrev pub gate_of : Promise → SingleFlight
gate_of idle = record { inflight = false; pending = none }
gate_of (busy tips) = record { inflight = true; pending = highest tips }

hand_over-eq :
    (o : Option BlockHeight)
    → let r = take_pending_and_release (record { inflight = true; pending = o }) in
      ((hand_over o).0 ≡ taken r.0) × (gate_of (hand_over o).1 ≡ r.1)
unfolding take_pending_and_release
hand_over-eq none = (refl, refl)
hand_over-eq (some next) = (refl, refl)

freshest-highest :
    (tip : BlockHeight) (tips : List BlockHeight)
    → some (freshest (highest tips) tip) ≡ highest (tip ∷ tips)
freshest-highest tip [] = refl
freshest-highest tip (t ∷ tips) = refl

serve-promise :
    (c : Call) (p : Promise)
    → ((serve c (gate_of p)).0 ≡ (promise c p).0)
      × ((serve c (gate_of p)).1 ≡ gate_of (promise c p).1)
unfolding offer take_pending_and_release compare_exchange drain stash
serve-promise (offers tip) idle = (refl, refl)
serve-promise (offers tip) (busy tips) = (
  refl,
  ap (λ (o : Option BlockHeight). record { inflight = true; pending = o })
      (freshest-highest tip tips),
)
serve-promise takes idle = (refl, refl)
serve-promise takes (busy tips) = let (a, g) = hand_over-eq (highest tips) in (sym a, sym g)

serve_all-gate_of :
    (calls : List Call) (p : Promise) → serve_all calls (gate_of p) ≡ promise_all calls p
unfolding serve_all promise_all
serve_all-gate_of [] p = refl
serve_all-gate_of (c ∷ calls) p =
    let (a, g) = serve-promise c p in
    rw (a, g) (ap (λ rest. (promise c p).0 ∷ rest) (serve_all-gate_of calls (promise c p).1))

-- Under any sequence of calls that do not overlap, a new gate answers as a gate does that keeps every
-- waiting tip in a list, lets one worker in, and hands that worker the highest tip that waited.
pub serve_all-promise_all : (calls : List Call) → serve_all calls new_gate ≡ promise_all calls idle
serve_all-promise_all calls = serve_all-gate_of calls idle
