-- ===== src/Sync/SingleFlight.antt =====
-- crates/sync/src/single_flight.rs: the gate of the tail loop.
pub mod Gate
pub mod Race
mod Examples
use indexer_rs.Base.{Bool, true, false, Option, none, some, max_ℤ}
use indexer_rs.Domain.{BlockHeight}

pub record SingleFlight : Type 0 where
  pub inflight : Bool
  pub pending : Option BlockHeight

abbrev pub new_gate : SingleFlight
new_gate = record { inflight = false; pending = none }

pub data Offer : Type 0 where
  acquired : BlockHeight → Offer
  stashed : Offer

-- `pending.map_or(tip, |existing| existing.max(tip))`.
abbrev pub freshest : Option BlockHeight → BlockHeight → BlockHeight
freshest none tip = tip
freshest (some existing) tip = max_ℤ existing tip

-- The exchange of `inflight` from false to true: whether this caller made it.
unfoldable pub compare_exchange : SingleFlight → Bool × SingleFlight
compare_exchange g = elim g.inflight [
  | false ↦ (true, record g { inflight = true })
  | true ↦ (false, g)
]

-- Under the lock, after an exchange that was made: the target of this caller.
unfoldable pub drain : BlockHeight → SingleFlight → BlockHeight × SingleFlight
drain tip g = (freshest g.pending tip, record g { pending = none })

-- Under the lock, after an exchange that was not made.
unfoldable pub stash : BlockHeight → SingleFlight → SingleFlight
stash tip g = record g { pending = some (freshest g.pending tip) }

-- `offer`, as nothing else runs meanwhile.
unfoldable pub offer : BlockHeight → SingleFlight → Offer × SingleFlight
offer tip g =
    let (made, g') = compare_exchange g in
    elim made [
      | true ↦ let (target, g'') = drain tip g' in (acquired target, g'')
      | false ↦ (stashed, stash tip g')
    ]

-- `take_pending_and_release`, which holds the lock throughout.
unfoldable pub take_pending_and_release : SingleFlight → Option BlockHeight × SingleFlight
take_pending_and_release g = elim g.pending [
  | some next ↦ (some next, record g { pending = none })
  | none ↦ (none, record g { inflight = false })
]
