-- ===== src/ConnectorSdk/Retry.antt =====
-- crates/sealstack-connector-sdk/src/retry.rs, and `retry_delay_for` of http.rs. A `Duration` is a
-- number of nanoseconds. `trim` and the random numbers are parameters: `random n` is the number that
-- `random_range(0..n)` draws.
use sealstack.Prelude.{
  ℕ, ◌+◌, ◌-◌, ◌*◌, ◌/◌, ◌%◌, ◌^◌, ◌≤◌, ◌<◌, Option, none, some, arith, leb, if◌then◌else◌,
}
use sealstack.Bytes.{Bytes}
use sealstack.Numbers.{parse_i64}

pub record RetryPolicy : Type 0 where
  pub max_attempts : ℕ
  pub base_delay : ℕ
  pub max_delay : ℕ

abbrev pub millisecond : ℕ
millisecond = 1_000_000

unfoldable pub default_policy : RetryPolicy
default_policy = record {
  max_attempts = 5;
  base_delay = 500 * millisecond;
  max_delay = 30_000 * millisecond;
}

-- `Duration::MAX`
abbrev duration_max : ℕ
duration_max = (2 ^ 64 - 1) * 1_000_000_000 + 999_999_999

abbrev pub min : ℕ → ℕ → ℕ
min a b = if leb a b then a else b

min-le : (a b : ℕ) → min a b ≤ a
min-le a b = ground arith

module _ (trim : Bytes → Bytes) where
  abbrev nonnegative : Option ℕ → Option ℕ
  nonnegative none = none
  nonnegative (some secs) = if leb (2 ^ 63) secs then none else some (secs * 1_000_000_000)

  unfoldable pub parse_retry_after : Bytes → Option ℕ
  parse_retry_after value = nonnegative (parse_i64 (trim value))

  module _ (random : ℕ → ℕ) where
    -- Exponential backoff with full jitter.
    unfoldable pub backoff_delay : RetryPolicy → ℕ → ℕ
    backoff_delay policy attempt =
        let exp = min (policy.base_delay * 2 ^ min attempt 20) duration_max in
        let capped = min policy.max_delay exp in
        random (capped / millisecond % 2 ^ 64 + 1) * millisecond

    abbrev retry_after_delay : RetryPolicy → Option ℕ → ℕ → ℕ
    retry_after_delay policy none otherwise = otherwise
    retry_after_delay policy (some base) otherwise =
        min policy.max_delay (base + random 1000 * millisecond)

    unfoldable pub retry_delay_for : RetryPolicy → ℕ → Option Bytes → ℕ
    unfolding backoff_delay parse_retry_after
    retry_delay_for policy attempt none = backoff_delay policy attempt
    retry_delay_for policy attempt (some raw) =
        retry_after_delay policy (parse_retry_after raw) (backoff_delay policy attempt)

    module _ (in_range : (n : ℕ) → 0 < n → random n < n) where
      jitter-le : (capped : ℕ) → random (capped / millisecond % 2 ^ 64 + 1) * millisecond ≤ capped
      jitter-le capped = omega (arith, in_range (capped / millisecond % 2 ^ 64 + 1) (omega arith))

      backoff_delay-le :
          (policy : RetryPolicy) (attempt : ℕ) → backoff_delay policy attempt ≤ policy.max_delay
      unfolding backoff_delay
      backoff_delay-le policy attempt =
          let exp = min (policy.base_delay * 2 ^ min attempt 20) duration_max in
          omega (arith, jitter-le (min policy.max_delay exp), min-le policy.max_delay exp)

      -- No sleep between attempts is longer than `max_delay`, whatever the server asks for, where the
      -- random numbers are below their bound.
      pub retry_delay_for-le :
          (policy : RetryPolicy) (attempt : ℕ) (header : Option Bytes)
          → retry_delay_for policy attempt header ≤ policy.max_delay
      unfolding retry_delay_for
      retry_delay_for-le policy attempt none = backoff_delay-le policy attempt
      retry_delay_for-le policy attempt (some raw) = go (parse_retry_after raw)
        where
          go :
              (o : Option ℕ)
              → retry_after_delay policy o (backoff_delay policy attempt) ≤ policy.max_delay
          go none = backoff_delay-le policy attempt
          go (some base) = min-le policy.max_delay (base + random 1000 * millisecond)
