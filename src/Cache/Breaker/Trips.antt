-- ===== src/Cache/Breaker/Trips.antt =====
-- When the breaker trips, and how it recovers.
use indexer_rs.Base.{
  ◌≡◌, refl, ap, ◌∙◌, ℕ, suc, ◌+◌, ◌%◌, ◌^◌, ◌≤◌, ◌<◌, Bool, true, false, none, some, List, [], ◌∷◌,
  ◌++◌, arith, length, inl, inr, Bool-cases, leb, ltb,
}
use indexer_rs.Cache.Breaker.{CircuitBreaker, is_open, record_failure}

-- Failures in a row, at the given times.
abbrev pub fail_all : List ℕ → CircuitBreaker → CircuitBreaker
fail_all [] b = b
fail_all (t ∷ times) b = fail_all times (record_failure t b)

below_threshold :
    (t : ℕ) (b : CircuitBreaker)
    → b.threshold < 2 ^ 32
    → b.failures + 1 < b.threshold
    → record_failure t b ≡ record b { failures = b.failures + 1 }
unfolding record_failure
below_threshold t b bound room =
    let small : (b.failures + 1) % 2 ^ 32 ≡ b.failures + 1 = omega arith in
    let stays : leb b.threshold (b.failures + 1) ≡ false = ground arith in rw (small, stays) refl

fail_all-below :
    (times : List ℕ) (b : CircuitBreaker)
    → b.threshold < 2 ^ 32
    → b.failures + length times < b.threshold
    → fail_all times b ≡ record b { failures = b.failures + length times }
fail_all-below [] b bound room =
    let same : b.failures ≡ b.failures + 0 = omega arith in rw⁻¹ same refl
fail_all-below (t ∷ times) b bound room =
    let next = record b { failures = b.failures + 1 } in
    let same : b.failures + 1 + length times ≡ b.failures + suc (length times) = omega arith in
    ap (fail_all times) (below_threshold t b bound (omega arith))
    ∙ (fail_all-below times next bound (omega arith) ∙ ap (λ n. record b { failures = n }) same)

at_threshold :
    (t : ℕ) (b : CircuitBreaker)
    → b.threshold < 2 ^ 32
    → b.failures + 1 ≡ b.threshold
    → record_failure t b ≡ record b { failures = b.threshold; open_until = some (t + b.open_for) }
unfolding record_failure
at_threshold t b bound full =
    let small : (b.failures + 1) % 2 ^ 32 ≡ b.threshold = omega arith in
    let trips : leb b.threshold b.threshold ≡ true = ground arith in rw (small, trips) refl

fail_all-append :
    (times : List ℕ) (t : ℕ) (b : CircuitBreaker)
    → fail_all (times ++ t ∷ []) b ≡ record_failure t (fail_all times b)
fail_all-append [] t b = refl
fail_all-append (s ∷ times) t b = fail_all-append times t (record_failure s b)

opened_until :
    (until now : ℕ) (b : CircuitBreaker)
    → b.open_until ≡ some until
    → (is_open now b).0 ≡ ltb now until
unfolding is_open
opened_until until now b opened = elim (Bool-cases (ltb now until)) [
  | inl early ↦ rw (opened, early) refl
  | inr past ↦ rw (opened, past) refl
]

-- From a closed breaker whose count is 0: failures in a row that are fewer than the threshold leave it closed.
fail_all-closed :
    (b : CircuitBreaker) (times : List ℕ) (now : ℕ)
    → b.threshold < 2 ^ 32
    → b.failures ≡ 0
    → b.open_until ≡ none
    → length times < b.threshold
    → (is_open now (fail_all times b)).0 ≡ false
unfolding is_open
fail_all-closed b times now bound zero_failures closed few =
    rw (fail_all-below times b bound (omega arith), closed) refl

-- A closed breaker whose count is 0 is given as many failures in a row as its threshold, the last at the
-- time `t`: it stays closed until the last of them, and from there it is open exactly until `t + open_for`.
pub breaker_trips :
    (b : CircuitBreaker) (times : List ℕ) (t now : ℕ)
    → b.threshold < 2 ^ 32
    → b.failures ≡ 0
    → b.open_until ≡ none
    → length times + 1 ≡ b.threshold
    → ((is_open now (fail_all times b)).0 ≡ false)
      × ((is_open now (fail_all (times ++ t ∷ []) b)).0 ≡ ltb now (t + b.open_for))
breaker_trips b times t now bound zero_failures closed full =
    let counted = record b { failures = b.failures + length times } in
    let after = fail_all-below times b bound (omega arith) in
    let tripped =
      fail_all-append times t b
      ∙ (ap (record_failure t) after ∙ at_threshold t counted bound (omega arith)) in
    (
      fail_all-closed b times now bound zero_failures closed (omega arith),
      opened_until (t + b.open_for) now (fail_all (times ++ t ∷ []) b)
          (ap (λ (c : CircuitBreaker). c.open_until) tripped),
    )

-- Once the window of an open breaker has elapsed, a check closes it and starts the count again: a run of
-- failures shorter than the threshold, however many came before, then leaves it closed.
pub breaker_recovers :
    (b : CircuitBreaker) (until now later : ℕ) (times : List ℕ)
    → b.threshold < 2 ^ 32
    → b.open_until ≡ some until
    → until ≤ now
    → length times < b.threshold
    → ((is_open now b).0 ≡ false) × ((is_open later (fail_all times (is_open now b).1)).0 ≡ false)
breaker_recovers b until now later times bound opened elapsed few =
    let fresh = record b { open_until = none; failures = 0 } in
    let closes : is_open now b ≡ (false, fresh) =
      let past : ltb now until ≡ false = ground arith in unfold is_open in rw (opened, past) refl in
    (
      ap (λ (r : Bool × CircuitBreaker). r.0) closes,
      rw closes (fail_all-closed fresh times later bound refl refl few),
    )
