-- ===== src/Chain/Retry.antt =====
-- crates/chain/src/retry.rs: the backoff schedule and the retry loop. Durations are nanoseconds;
-- the operation is the sequence of its outcomes, one for each attempt from 1 on.
pub mod Outcome
pub mod Delays
pub mod Examples
use indexer_rs.Base.{
  ok, err, ℕ, zero, suc, ◌+◌, ◌-◌, ◌*◌, ◌/◌, ◌%◌, ◌^◌, min, Option, none, some, List, [], ◌∷◌, ltb,
  if◌then◌else◌,
}
use indexer_rs.Chain.Error.{ChainError, ChainResult, is_transient}

pub record BackoffConfig : Type 0 where
  pub initial_delay : ℕ
  pub max_delay : ℕ
  pub max_attempts : ℕ
  pub multiplier : ℕ

abbrev pub default_backoff : BackoffConfig
default_backoff = record {
  initial_delay = 100_000_000;
  max_delay = 5_000_000_000;
  max_attempts = 6;
  multiplier = 2;
}

-- `u32::saturating_pow`.
unfoldable pub saturating_pow : ℕ → ℕ → ℕ
saturating_pow m e = min (m ^ e) (2 ^ 32 - 1)

-- The upper bound of the delay after `attempt`, counted from 1.
unfoldable pub ceiling_for_attempt : BackoffConfig → ℕ → ℕ
ceiling_for_attempt cfg attempt =
    let factor = saturating_pow cfg.multiplier (attempt - 1) in
    let nanos = min (cfg.initial_delay * factor) (2 ^ 128 - 1) in
    min (min nanos (2 ^ 64 - 1)) cfg.max_delay

-- The deterministic jitter: a share of the ceiling in 1024ths.
unfoldable pub jitter_ratio : ℕ → ℕ
jitter_ratio attempt = attempt * 1103515245 % 2 ^ 64 % 1024

unfoldable pub delay_for_attempt : BackoffConfig → ℕ → ℕ
delay_for_attempt cfg attempt =
    min (ceiling_for_attempt cfg attempt * jitter_ratio attempt / 1024) (2 ^ 64 - 1)

-- How a call ends: with the operation's outcome, or by the panic of `expect`.
pub data Ending {ℓ} (A : Type ℓ) : Type ℓ where
  returned : ChainResult A → Ending A
  panicked : Ending A

-- A whole call: its ending, the calls of the operation, and the sleeps between them in order.
pub record Retried {ℓ} (A : Type ℓ) : Type ℓ where
  pub ending : Ending A
  pub calls : ℕ
  pub sleeps : List ℕ

module _ {ℓ} {A : Type ℓ} where
  pub give_up : Option ChainError → Retried A
  give_up none = record { ending = panicked; calls = 0; sleeps = [] }
  give_up (some e) = record { ending = returned (err e); calls = 0; sleeps = [] }

  -- One call that ends the loop.
  pub settle : ChainResult A → Retried A
  settle r = record { ending = returned r; calls = 1; sleeps = [] }

  -- One call that failed transiently, before the rest; no sleep follows the last attempt.
  pub after_failure : BackoffConfig → ℕ → Retried A → Retried A
  after_failure cfg attempt rest = record rest {
    calls = suc rest.calls;
    sleeps =
        if ltb attempt cfg.max_attempts
        then delay_for_attempt cfg attempt ∷ rest.sleeps
        else rest.sleeps;
  }

  -- `for attempt in 1..=max_attempts`, by the rounds left; the first binder is that count.
  pub retry_loop : ℕ → BackoffConfig → (ℕ → ChainResult A) → ℕ → Option ChainError → Retried A
  unfolding give_up settle after_failure
  retry_loop zero cfg op attempt last_err = give_up last_err
  retry_loop (suc left) cfg op attempt last_err = elim (op attempt) [
    | ok v ↦ settle (ok v)
    | err e ↦
        let rest = retry_loop left cfg op (suc attempt) (some e) in
        if is_transient e then after_failure cfg attempt rest else settle (err e)
  ]

  unfoldable pub retry_with_backoff : BackoffConfig → (ℕ → ChainResult A) → Retried A
  unfolding retry_loop is_transient
  retry_with_backoff cfg op = retry_loop cfg.max_attempts cfg op 1 none

  -- Its value for a caller that goes on with `?`.
  unfoldable pub result_of : Ending A → ChainResult A
  result_of (returned r) = r
  result_of panicked = err (ChainError.invalid_argument "panicked")
