-- ===== src/Chain/Retry/Delays.antt =====
-- Bounds on the delays between attempts.
use native.Mathlib.Nat.{pow-suc, add-zero}
use indexer_rs.Base.{
  ℕ, zero, suc, ◌+◌, ◌-◌, ◌*◌, ◌^◌, ◌≤◌, ◌<◌, ◌≡◌, Option, none, some, arith, All, length, ltb→lt,
  ltb, Bool-cases, inl, inr,
}
use indexer_rs.Chain.Error.{ChainError, ChainResult}
use indexer_rs.Chain.Retry.Outcome.{retries, loop_goes_on, loop_settles}
use indexer_rs.Chain.Retry.{
  BackoffConfig, Retried, ceiling_for_attempt, saturating_pow, jitter_ratio, delay_for_attempt,
  after_failure, settle, give_up, retry_loop, retry_with_backoff,
}

pow_mono : (m e k : ℕ) → 1 ≤ m → m ^ e ≤ m ^ (e + k)
pow_mono m e zero h = rw add-zero (omega arith)
pow_mono m e (suc k) h =
    let step : suc (e + k) ≡ e + suc k = omega arith in
    let ih : m ^ e ≤ m ^ (e + k) = pow_mono m e k h in
    let grows : m ^ (e + k) ≤ m ^ (e + k) * m = grind arith in
    rw (← step) (rw pow-suc (omega arith))

saturating_pow_mono : (m a b : ℕ) → 1 ≤ m → a ≤ b → saturating_pow m a ≤ saturating_pow m b
unfolding saturating_pow
saturating_pow_mono m a b h le =
    let p : m ^ a ≤ m ^ (a + (b - a)) = pow_mono m a (b - a) h in
    let e : a + (b - a) ≡ b = omega arith in let q : m ^ a ≤ m ^ b = rw e at p in omega arith

-- The ceiling never falls from one attempt to a later one, and never passes `max_delay`.
pub ceiling_mono_capped :
    (cfg : BackoffConfig) (a b : ℕ)
    → 1 ≤ cfg.multiplier
    → a ≤ b
    → (ceiling_for_attempt cfg a ≤ ceiling_for_attempt cfg b)
      × (ceiling_for_attempt cfg b ≤ cfg.max_delay)
unfolding ceiling_for_attempt
ceiling_mono_capped cfg a b h le =
    let p = saturating_pow_mono cfg.multiplier (a - 1) (b - 1) h (omega arith) in
    let q : cfg.initial_delay * saturating_pow cfg.multiplier (a - 1)
        ≤ cfg.initial_delay * saturating_pow cfg.multiplier (b - 1) =
      grind arith in
    (omega arith, omega arith)

ceiling_mono_capped_at : (cfg : BackoffConfig) (a : ℕ) → ceiling_for_attempt cfg a ≤ cfg.max_delay
unfolding ceiling_for_attempt
ceiling_mono_capped_at cfg a = omega arith

jitter_ratio-lt : (attempt : ℕ) → jitter_ratio attempt < 1024
unfolding jitter_ratio
jitter_ratio-lt attempt = omega arith

delay-le-max_delay :
    (cfg : BackoffConfig) (attempt : ℕ) → delay_for_attempt cfg attempt ≤ cfg.max_delay
unfolding delay_for_attempt
delay-le-max_delay cfg attempt =
    let r = jitter_ratio-lt attempt in
    let c = (ceiling_mono_capped_at cfg attempt) in
    let q : ceiling_for_attempt cfg attempt * jitter_ratio attempt
        ≤ ceiling_for_attempt cfg attempt * 1024 =
      grind arith in
    omega arith

module _ {ℓ} {A : Type ℓ} where
  -- The bounds on a call that may still make `left` attempts.
  abbrev Within : ℕ → ℕ → Retried A → Type 0
  Within max_delay left r =
      (r.calls ≤ left) × (length r.sleeps ≤ left - 1) × All (λ d. d ≤ max_delay) r.sleeps

  after_failure-Within :
      (cfg : BackoffConfig) (attempt left : ℕ) (rest : Retried A)
      → attempt + suc left ≡ suc cfg.max_attempts
      → Within cfg.max_delay left rest
      → Within cfg.max_delay (suc left) (after_failure cfg attempt rest)
  unfolding after_failure
  after_failure-Within cfg attempt left rest budget w =
      elim (Bool-cases (ltb attempt cfg.max_attempts)) [
        | inl more ↦ rw more (
            let lt = ltb→lt _ _ more in
            (omega arith, omega arith, (delay-le-max_delay cfg attempt, w.2)))
        | inr last ↦ rw last (omega arith, omega arith, w.2)
      ]

  loop-Within :
      (left : ℕ) (cfg : BackoffConfig) (op : ℕ → ChainResult A) (attempt : ℕ)
      (last : Option ChainError)
      → attempt + left ≡ suc cfg.max_attempts
      → Within cfg.max_delay left (retry_loop left cfg op attempt last)
  unfolding retry_loop
  loop-Within zero cfg op attempt none budget = unfold give_up in omega arith
  loop-Within zero cfg op attempt (some e) budget = unfold give_up in omega arith
  loop-Within (suc left) cfg op attempt last budget = elim (Bool-cases (retries (op attempt))) [
    | inl more ↦
        let (e, _, eq) = loop_goes_on left cfg op attempt last more in
        rw eq (
          after_failure-Within cfg attempt left (retry_loop left cfg op (suc attempt) (some e))
            budget (loop-Within left cfg op (suc attempt) (some e) (omega arith)))
    | inr done ↦ rw (loop_settles left cfg op attempt last done) (unfold settle in omega arith)
  ]

  -- Whatever the operation does, it is called at most `max_attempts` times, there is no sleep after
  -- the last attempt, and no sleep is longer than `max_delay`.
  pub retry_bounded :
      (cfg : BackoffConfig) (op : ℕ → ChainResult A)
      → ((retry_with_backoff cfg op).calls ≤ cfg.max_attempts)
        × (length (retry_with_backoff cfg op).sleeps ≤ cfg.max_attempts - 1)
        × All (λ d. d ≤ cfg.max_delay) (retry_with_backoff cfg op).sleeps
  unfolding retry_with_backoff
  retry_bounded cfg op = loop-Within cfg.max_attempts cfg op 1 none (omega arith)
