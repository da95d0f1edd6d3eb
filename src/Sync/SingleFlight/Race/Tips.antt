-- ===== src/Sync/SingleFlight/Race/Tips.antt =====
-- What becomes of a tip, however the calls overlap: it is given out or waits, but it may wait with no
-- worker to take it.
use indexer_rs.Base.{
  ◌≡◌, refl, ◌⊎◌, inl, inr, ◌≤ℤ◌, false, Option, none, some, List, [], ◌∷◌, arith, All, All-map,
  Option-cases,
}
use indexer_rs.Domain.{BlockHeight}
use indexer_rs.Sync.SingleFlight.{
  SingleFlight, freshest, compare_exchange, drain, stash, take_pending_and_release,
}
use indexer_rs.Sync.SingleFlight.Race.{
  Racing, Removes, here, later, Step, wins, loses, drains, stashes, goes_on, releases, Reach, begin,
  step,
}

-- A tip of the list is as high.
abbrev pub Covered : BlockHeight → List BlockHeight → Type 0
Covered t [] = ⊥
Covered t (x ∷ xs) = (t ≤ℤ x) ⊎ Covered t xs

abbrev pub Waits : BlockHeight → Option BlockHeight → Type 0
Waits t none = ⊥
Waits t (some p) = t ≤ℤ p

-- A target as high was given to a worker, or a tip as high waits: with a caller that is past its exchange,
-- or as the pending one.
abbrev pub Accounted : Racing → BlockHeight → Type 0
Accounted s t =
    Covered t s.given ⊎ (Covered t s.draining ⊎ (Covered t s.stashing ⊎ Waits t s.gate.pending))

Covered-Removes :
    {x : BlockHeight} {xs ys : List BlockHeight} (t : BlockHeight)
    → Removes x xs ys
    → Covered t xs
    → (t ≤ℤ x) ⊎ Covered t ys
Covered-Removes t here c = c
Covered-Removes t (later r) (inl le) = inr (inl le)
Covered-Removes t (later r) (inr c) = elim (Covered-Removes t r c) [
  | inl le ↦ inl le
  | inr rest ↦ inr (inr rest)
]

freshest-tip : (p : Option BlockHeight) (t tip : BlockHeight) → t ≤ℤ tip → t ≤ℤ freshest p tip
freshest-tip none t tip le = le
freshest-tip (some old) t tip le = ground arith

freshest-pending : (p : Option BlockHeight) (t tip : BlockHeight) → Waits t p → t ≤ℤ freshest p tip
freshest-pending none t tip w = absurd w
freshest-pending (some old) t tip w = ground arith

exchange-pending : (g : SingleFlight) → (compare_exchange g).1.pending ≡ g.pending
unfolding compare_exchange
exchange-pending g = ground arith

take-some :
    (g : SingleFlight) (next t : BlockHeight)
    → (take_pending_and_release g).0 ≡ some next
    → Waits t g.pending
    → t ≤ℤ next
unfolding take_pending_and_release
take-some g next t e w = elim (Option-cases g.pending) [
  | inl nothing ↦ absurd (rw nothing at w)
  | inr (p, is) ↦ let same : p ≡ next = ground (arith, is) in rw⁻¹ same (rw is at w)
]

take-none : (g : SingleFlight) → (take_pending_and_release g).0 ≡ none → g.pending ≡ none
unfolding take_pending_and_release
take-none g e = elim (Option-cases g.pending) [
  | inl nothing ↦ nothing
  | inr (p, is) ↦ absurd (ground (arith, is))
]

Step-Accounted : {s u : Racing} (t : BlockHeight) → Step s u → Accounted s t → Accounted u t
Step-Accounted {s} t (wins tip made) (inl a) = inl a
Step-Accounted {s} t (wins tip made) (inr (inl a)) = inr (inl (inr a))
Step-Accounted {s} t (wins tip made) (inr (inr (inl a))) = inr (inr (inl a))
Step-Accounted {s} t (wins tip made) (inr (inr (inr a))) =
    inr (inr (inr (rw (exchange-pending s.gate) a)))
Step-Accounted {s} t (loses tip made) (inl a) = inl a
Step-Accounted {s} t (loses tip made) (inr (inl a)) = inr (inl a)
Step-Accounted {s} t (loses tip made) (inr (inr (inl a))) = inr (inr (inl (inr a)))
Step-Accounted {s} t (loses tip made) (inr (inr (inr a))) =
    inr (inr (inr (rw (exchange-pending s.gate) a)))
Step-Accounted {s} t (drains tip rest r) (inl a) = inl (inr a)
Step-Accounted {s} t (drains tip rest r) (inr (inl a)) = elim (Covered-Removes t r a) [
  | inl le ↦ inl (inl (unfold drain in freshest-tip s.gate.pending t tip le))
  | inr b ↦ inr (inl b)
]
Step-Accounted {s} t (drains tip rest r) (inr (inr (inl a))) = inr (inr (inl a))
Step-Accounted {s} t (drains tip rest r) (inr (inr (inr a))) =
    inl (inl (unfold drain in freshest-pending s.gate.pending t tip a))
Step-Accounted {s} t (stashes tip rest r) (inl a) = inl a
Step-Accounted {s} t (stashes tip rest r) (inr (inl a)) = inr (inl a)
Step-Accounted {s} t (stashes tip rest r) (inr (inr (inl a))) = elim (Covered-Removes t r a) [
  | inl le ↦ inr (inr (inr (unfold stash in freshest-tip s.gate.pending t tip le)))
  | inr b ↦ inr (inr (inl b))
]
Step-Accounted {s} t (stashes tip rest r) (inr (inr (inr a))) =
    inr (inr (inr (unfold stash in freshest-pending s.gate.pending t tip a)))
Step-Accounted {s} t (goes_on done next rest r e) (inl a) = inl (inr a)
Step-Accounted {s} t (goes_on done next rest r e) (inr (inl a)) = inr (inl a)
Step-Accounted {s} t (goes_on done next rest r e) (inr (inr (inl a))) = inr (inr (inl a))
Step-Accounted {s} t (goes_on done next rest r e) (inr (inr (inr a))) =
    inl (inl (take-some s.gate next t e a))
Step-Accounted {s} t (releases done rest r e) (inl a) = inl a
Step-Accounted {s} t (releases done rest r e) (inr (inl a)) = inr (inl a)
Step-Accounted {s} t (releases done rest r e) (inr (inr (inl a))) = inr (inr (inl a))
Step-Accounted {s} t (releases done rest r e) (inr (inr (inr a))) =
    absurd (rw (take-none s.gate e) at a)

reflexive : (tip : BlockHeight) → tip ≤ℤ tip
reflexive tip = omega arith

Step-offered : {s u : Racing} → Step s u → All (Accounted s) s.offered → All (Accounted u) u.offered
Step-offered {s} (wins tip made) a = (
  inr (inl (inl (reflexive tip))),
  All-map _ _ s.offered (λ t. Step-Accounted {s = s} t (wins tip made)) a,
)
Step-offered {s} (loses tip made) a = (
  inr (inr (inl (inl (reflexive tip)))),
  All-map _ _ s.offered (λ t. Step-Accounted {s = s} t (loses tip made)) a,
)
Step-offered {s} (drains tip rest r) a =
    All-map _ _ s.offered (λ t. Step-Accounted {s = s} t (drains tip rest r)) a
Step-offered {s} (stashes tip rest r) a =
    All-map _ _ s.offered (λ t. Step-Accounted {s = s} t (stashes tip rest r)) a
Step-offered {s} (goes_on done next rest r e) a =
    All-map _ _ s.offered (λ t. Step-Accounted {s = s} t (goes_on done next rest r e)) a
Step-offered {s} (releases done rest r e) a =
    All-map _ _ s.offered (λ t. Step-Accounted {s = s} t (releases done rest r e)) a

-- However the calls overlap, no tip that was offered is dropped: a target as high was given to a worker, or
-- a tip as high waits with a caller that is still inside `offer`, or is the pending one.
pub Reach-Accounted : {s : Racing} → Reach s → All (Accounted s) s.offered
Reach-Accounted begin = tt
Reach-Accounted (step r st) = Step-offered st (Reach-Accounted r)

-- Everyone has returned, the gate is free, and `t` is the pending tip.
abbrev pub Stranded : BlockHeight → Racing → Type 0
Stranded t s =
    (s.gate.inflight ≡ false)
    × (s.gate.pending ≡ some t)
    × (s.draining ≡ [])
    × (s.stashing ≡ [])
    × (s.working ≡ [])

-- For any two tips there is an overlap of two offers that ends with the second tip pending although the
-- gate is free and every caller has returned: the second offer loses the exchange, the worker finds
-- nothing pending and releases, and only then is the second tip stashed.
pub tip-Stranded : (first second : BlockHeight) → (s : Racing) × Reach s × Stranded second s
unfolding compare_exchange drain stash take_pending_and_release
tip-Stranded first second = (
  _,
  step
      (step (step (step (step begin (wins first refl)) (drains first [] here)) (loses second refl))
        (releases first [] here refl))
      (stashes second [] here),
  (refl, refl, refl, refl, refl),
)
