-- ===== src/Chain/Retry/Outcome.antt =====
-- What a retried call returns and how often it calls the operation.
use native.Mathlib.Decide.{ℕ_discrete}
use indexer_rs.Base.{
  ok, err, ℕ, zero, suc, ◌+◌, ◌-◌, ◌≤◌, ◌<◌, ◌≡◌, ap, ◌∙◌, Bool-cases, Bool, true, false, Option,
  none, some, arith, length, inl, inr,
}
use indexer_rs.Base.Effects.{Result-cases}
use indexer_rs.Chain.Error.{ChainError, ChainResult, is_transient}
use indexer_rs.Chain.Retry.{
  BackoffConfig, Ending, returned, Retried, after_failure, settle, give_up, retry_loop,
  retry_with_backoff, result_of,
}

module _ {ℓ} {A : Type ℓ} where
  -- The outcomes that the loop goes on after.
  abbrev pub retries : ChainResult A → Bool
  retries (ok v) = false
  retries (err e) = is_transient e

  pub loop_goes_on :
      (left : ℕ) (cfg : BackoffConfig) (op : ℕ → ChainResult A) (attempt : ℕ)
      (last : Option ChainError)
      → retries (op attempt) ≡ true
      → (e : ChainError) × (op attempt ≡ err e)
        × (retry_loop (suc left) cfg op attempt last
            ≡ after_failure cfg attempt (retry_loop left cfg op (suc attempt) (some e)))
  unfolding retry_loop
  loop_goes_on left cfg op attempt last h = elim (Result-cases (op attempt)) [
    | inl (v, e) ↦ absurd (ground arith)
    | inr (x, e) ↦ (x, e, ground arith)
  ]

  pub loop_settles :
      (left : ℕ) (cfg : BackoffConfig) (op : ℕ → ChainResult A) (attempt : ℕ)
      (last : Option ChainError)
      → retries (op attempt) ≡ false
      → retry_loop (suc left) cfg op attempt last ≡ settle (op attempt)
  unfolding retry_loop
  loop_settles left cfg op attempt last h = ground arith

  -- What a call shows: its ending, its calls, and how often it slept.
  abbrev pub Shows : Retried A → Ending A → ℕ → ℕ → Type ℓ
  Shows r ending calls sleeps = (r.ending ≡ ending) × (r.calls ≡ calls) × (length r.sleeps ≡ sleeps)

  after_failure-Shows :
      (cfg : BackoffConfig) (attempt : ℕ) (rest : Retried A) (ending : Ending A) (calls sleeps : ℕ)
      → attempt < cfg.max_attempts
      → Shows rest ending calls sleeps
      → Shows (after_failure cfg attempt rest) ending (suc calls) (suc sleeps)
  unfolding after_failure
  after_failure-Shows cfg attempt rest ending calls sleeps h s = ground arith

  loop_first :
      (left : ℕ) (cfg : BackoffConfig) (op : ℕ → ChainResult A) (attempt : ℕ)
      (last : Option ChainError) (n : ℕ)
      → attempt + left ≡ suc cfg.max_attempts
      → attempt ≤ n
      → n ≤ cfg.max_attempts
      → ((j : ℕ) → attempt ≤ j → j < n → retries (op j) ≡ true)
      → retries (op n) ≡ false
      → Shows
          (retry_loop left cfg op attempt last)
          (returned (op n))
          (suc n - attempt)
          (n - attempt)
  loop_first zero cfg op attempt last n budget from bound before stop = absurd (omega arith)
  loop_first (suc left) cfg op attempt last n budget from bound before stop =
      elim (ℕ_discrete attempt n) [
        | yes here ↦
            let stop' : retries (op attempt) ≡ false = rw here stop in
            rw (loop_settles left cfg op attempt last stop')
              (unfold settle in (rw here, omega arith, omega arith))
        | no later ↦
            let (e, _, eq) =
              loop_goes_on left cfg op attempt last (before attempt (omega arith) (omega arith)) in
            let rest =
              loop_first left cfg op (suc attempt) (some e) n (omega arith) (omega arith) bound
                (λ j h k. before j (omega arith) k) stop in
            rw eq (
              let s = after_failure-Shows cfg attempt _ _ _ _ (omega arith) rest in
              (s.0, omega arith, omega arith))
      ]

  -- The loop returns the first outcome that is no transient error, whichever attempt it is, after
  -- that many calls and one sleep less.
  pub retry-first_settled :
      (cfg : BackoffConfig) (op : ℕ → ChainResult A) (n : ℕ)
      → 1 ≤ n
      → n ≤ cfg.max_attempts
      → ((j : ℕ) → 1 ≤ j → j < n → retries (op j) ≡ true)
      → retries (op n) ≡ false
      → Shows (retry_with_backoff cfg op) (returned (op n)) n (n - 1)
  unfolding retry_with_backoff
  retry-first_settled cfg op n from bound before stop =
      let s = loop_first cfg.max_attempts cfg op 1 none n (omega arith) from bound before stop in
      (s.0, omega arith, s.2)

  loop_exhausted :
      (left : ℕ) (cfg : BackoffConfig) (op : ℕ → ChainResult A) (attempt : ℕ)
      (last : Option ChainError)
      → attempt + left ≡ suc cfg.max_attempts
      → 1 ≤ left
      → ((j : ℕ) → attempt ≤ j → j ≤ cfg.max_attempts → retries (op j) ≡ true)
      → Shows (retry_loop left cfg op attempt last) (returned (op cfg.max_attempts)) left (left - 1)
  loop_exhausted zero cfg op attempt last budget some_left fails = absurd (omega arith)
  loop_exhausted (suc zero) cfg op attempt last budget some_left fails =
      let here : attempt ≡ cfg.max_attempts = omega arith in
      let (e, is, eq) =
        loop_goes_on zero cfg op attempt last (fails attempt (omega arith) (omega arith)) in
      rw eq (unfold retry_loop give_up after_failure in ground (arith, ap op here))
  loop_exhausted (suc (suc left)) cfg op attempt last budget some_left fails =
      let (e, _, eq) =
        loop_goes_on (suc left) cfg op attempt last (fails attempt (omega arith) (omega arith)) in
      let rest =
        loop_exhausted (suc left) cfg op (suc attempt) (some e) (omega arith) (omega arith)
          (λ j h k. fails j (omega arith) k) in
      let s = after_failure-Shows cfg attempt _ _ _ _ (omega arith) rest in
      rw eq (s.0, s.1, omega arith)

  -- If every attempt fails transiently, the loop returns the last attempt's error after exactly
  -- `max_attempts` calls, and it never sleeps after the last one.
  pub retry_exhausted :
      (cfg : BackoffConfig) (op : ℕ → ChainResult A)
      → 1 ≤ cfg.max_attempts
      → ((j : ℕ) → 1 ≤ j → j ≤ cfg.max_attempts → retries (op j) ≡ true)
      → Shows
          (retry_with_backoff cfg op)
          (returned (op cfg.max_attempts))
          cfg.max_attempts
          (cfg.max_attempts - 1)
  unfolding retry_with_backoff
  retry_exhausted cfg op some_attempt fails =
      loop_exhausted cfg.max_attempts cfg op 1 none (omega arith) some_attempt fails

  loop_ok :
      (left : ℕ) (cfg : BackoffConfig) (op : ℕ → ChainResult A) (attempt : ℕ)
      (last : Option ChainError) (v : A)
      → result_of (retry_loop left cfg op attempt last).ending ≡ ok v
      → (n : ℕ) × (op n ≡ ok v)
  unfolding retry_loop result_of
  loop_ok zero cfg op attempt none v h = absurd (unfold give_up in ground arith)
  loop_ok zero cfg op attempt (some e) v h = absurd (unfold give_up in ground arith)
  loop_ok (suc left) cfg op attempt last v h = elim (Result-cases (op attempt)) [
    | inl (x, e) ↦ (attempt, e ∙ (unfold settle in ground (arith, e)))
    | inr (x, e) ↦ elim (Bool-cases (is_transient x)) [
      | inl again ↦
          loop_ok left cfg op (suc attempt) (some x) v
            (unfold after_failure in ground (arith, e, again))
      | inr ends ↦ absurd (unfold settle in ground (arith, e, ends))
    ]
  ]

  -- A value that the retries bring is one that some attempt brought.
  pub retry-ok :
      (cfg : BackoffConfig) (op : ℕ → ChainResult A) (v : A)
      → result_of (retry_with_backoff cfg op).ending ≡ ok v
      → (n : ℕ) × (op n ≡ ok v)
  unfolding retry_with_backoff
  retry-ok cfg op v h = loop_ok cfg.max_attempts cfg op 1 none v h
