-- ===== src/Sync/SingleFlight/Race/Safety.antt =====
-- One worker at a time, however the calls overlap.
use indexer_rs.Base.{◌≡◌, refl, ℕ, suc, ◌+◌, Bool, true, false, List, arith, ap, length}
use indexer_rs.Domain.{BlockHeight}
use indexer_rs.Sync.SingleFlight.{compare_exchange, drain, stash, take_pending_and_release}
use indexer_rs.Sync.SingleFlight.Race.{
  Racing, Removes, here, later, Step, wins, loses, drains, stashes, goes_on, releases, Reach, begin,
  step,
}

length-Removes :
    {x : BlockHeight} {xs ys : List BlockHeight} → Removes x xs ys → length xs ≡ suc (length ys)
length-Removes here = refl
length-Removes (later r) = ap suc (length-Removes r)

-- The callers that hold the gate: past an exchange that they made, or working.
abbrev pub owners : Racing → ℕ
owners s = length s.draining + length s.working

abbrev pub one_if : Bool → ℕ
one_if true = 1
one_if false = 0

abbrev pub OneOwner : Racing → Type 0
OneOwner s = owners s ≡ one_if s.gate.inflight

Step-OneOwner : {s t : Racing} → Step s t → OneOwner s → OneOwner t
unfolding compare_exchange drain stash take_pending_and_release
Step-OneOwner {s} (wins tip made) i = ground arith
Step-OneOwner {s} (loses tip made) i = ground arith
Step-OneOwner {s} (drains tip rest r) i = let l = length-Removes r in ground arith
Step-OneOwner {s} (stashes tip rest r) i = ground arith
Step-OneOwner {s} (goes_on done next rest r e) i = let l = length-Removes r in ground arith
Step-OneOwner {s} (releases done rest r e) i = let l = length-Removes r in ground arith

-- However the calls overlap: while the gate is taken exactly one caller holds it, as a worker or on the way
-- to become one, and while it is free none does. So no two workers run at once.
pub Reach-OneOwner : {s : Racing} → Reach s → OneOwner s
Reach-OneOwner begin = refl
Reach-OneOwner (step r st) = Step-OneOwner st (Reach-OneOwner r)
