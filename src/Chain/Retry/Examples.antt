-- ===== src/Chain/Retry/Examples.antt =====
-- Runs of the retry loop, after the unit tests of crates/chain/src/retry.rs, and the theorems at them.
use indexer_rs.Base.{ok, err, ℕ, ◌≡◌, refl, arith, ltb, lt→ltb, if◌then◌else◌}
use indexer_rs.Chain.Error.{ChainResult, rpc, not_found, is_transient}
use indexer_rs.Chain.Retry.{
  BackoffConfig, default_backoff, saturating_pow, ceiling_for_attempt, returned, retry_with_backoff,
}
use indexer_rs.Chain.Retry.Outcome.{Shows, retry-first_settled}

-- Fails twice, then answers.
abbrev flaky : ℕ → ChainResult ℕ
flaky n = if ltb n 3 then err (rpc "temporary") else ok n

abbrev missing : ℕ → ChainResult ℕ
missing n = err (not_found "block 42")

abbrev small : BackoffConfig
small = record { initial_delay = 10; max_delay = 100; max_attempts = 10; multiplier = 2 }

ceiling_grows_then_caps : (ceiling_for_attempt small 4 ≡ 80) × (ceiling_for_attempt small 5 ≡ 100)
unfolding ceiling_for_attempt saturating_pow
ceiling_grows_then_caps = (refl, refl)

retry-first_settled_example : Shows (retry_with_backoff default_backoff flaky) (returned (ok 3)) 3 2
unfolding is_transient
retry-first_settled_example =
    retry-first_settled default_backoff flaky 3 (omega arith) (omega arith)
      (λ j h k. rw (lt→ltb j 3 k)) refl

permanent_once : Shows (retry_with_backoff default_backoff missing) (returned (missing 1)) 1 0
unfolding is_transient
permanent_once =
    retry-first_settled default_backoff missing 1 (omega arith) (omega arith)
      (λ j h k. absurd (omega arith)) refl
