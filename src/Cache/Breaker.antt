-- ===== src/Cache/Breaker.antt =====
-- crates/cache/src/breaker.rs: the circuit breaker. Times and durations are nanoseconds; each call is given
-- the time that it reads. The calls do not overlap here.
pub mod Trips
use indexer_rs.Base.{
  ℕ, ◌+◌, ◌%◌, ◌^◌, Bool, true, false, Option, none, some, List, [], ◌∷◌, leb, ltb, if◌then◌else◌,
}

pub record CircuitBreaker : Type 0 where
  pub failures : ℕ
  pub threshold : ℕ
  pub open_for : ℕ
  pub open_until : Option ℕ

abbrev pub new_breaker : ℕ → ℕ → CircuitBreaker
new_breaker threshold open_for = record {
  failures = 0;
  threshold = threshold;
  open_for = open_for;
  open_until = none;
}

-- A window that has elapsed closes the breaker and starts the count again.
unfoldable pub is_open : ℕ → CircuitBreaker → Bool × CircuitBreaker
is_open now b = elim b.open_until [
  | none ↦ (false, b)
  | some until ↦
      if ltb now until then (true, b) else (false, record b { open_until = none; failures = 0 })
]

unfoldable pub record_success : CircuitBreaker → CircuitBreaker
record_success b = record b { failures = 0 }

-- The count is a `u32`.
unfoldable pub record_failure : ℕ → CircuitBreaker → CircuitBreaker
record_failure now b =
    let failures = (b.failures + 1) % 2 ^ 32 in
    if leb b.threshold failures
    then record b { failures = failures; open_until = some (now + b.open_for) }
    else record b { failures = failures }
