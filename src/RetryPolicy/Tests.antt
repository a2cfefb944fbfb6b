-- ===== src/RetryPolicy/Tests.antt =====
-- Policies, resolved.
use rigo.Base.{[], ◌∷◌, some, ◌≡◌, refl}
use rigo.Base.Int.{pos, is_safe}
use rigo.RetryPolicy.{
  finite, infinite, number, text, BackoffConfig, RetryPolicyConfig, ResolvedRetryPolicy, normal,
  always, resolved, rejected, le_double, whole, default_max_delay_ms, default_policy,
  default_backoff, default_jitter_ratio, resolve_retry_policy, initial_above_max, bad_jitter_ratio,
  duplicate_codes,
}
use rigo.RetryPolicy.Bounds.{IsPolicy, resolve_retry_policy-IsPolicy}

-- A delay of two and a half milliseconds.
abbrev short_delay : BackoffConfig
short_delay = record default_backoff { initial_delay_ms = number (finite (pos 2) 5) }

abbrev always_policy : BackoffConfig → RetryPolicyConfig
always_policy backoff = record default_policy { mode = "always"; backoff = some backoff }

abbrev short_policy : ResolvedRetryPolicy
short_policy = always (record {
  initial_delay_ms = finite (pos 2) 5;
  max_delay_ms = default_max_delay_ms;
  jitter_ratio = default_jitter_ratio;
})

short_resolved : resolve_retry_policy (some (always_policy short_delay)) ≡ resolved short_policy
unfolding resolve_retry_policy le_double
short_resolved = refl

initial_above :
    resolve_retry_policy
      (some (always_policy (record default_backoff { initial_delay_ms = number (whole 10001) })))
    ≡ rejected initial_above_max
unfolding resolve_retry_policy le_double
initial_above = refl

endless_jitter :
    resolve_retry_policy
      (some (always_policy (record default_backoff { jitter_ratio = number infinite })))
    ≡ rejected bad_jitter_ratio
unfolding resolve_retry_policy le_double
endless_jitter = refl

repeated_code :
    resolve_retry_policy
      (some (record default_policy { retryable_codes = some (text "A" ∷ text "A" ∷ []) }))
    ≡ rejected duplicate_codes
unfolding resolve_retry_policy le_double is_safe
repeated_code = refl

-- Two retries, on two codes of the caller's.
abbrev two_retries : RetryPolicyConfig
two_retries = record default_policy {
  max_retries = number (whole 2);
  retryable_codes = some (text "TIMEOUT" ∷ text "BUSY" ∷ []);
  backoff = some short_delay;
}

abbrev two_retries_policy : ResolvedRetryPolicy
two_retries_policy = normal (whole 2) (text "TIMEOUT" ∷ text "BUSY" ∷ []) (record {
  initial_delay_ms = finite (pos 2) 5;
  max_delay_ms = default_max_delay_ms;
  jitter_ratio = default_jitter_ratio;
})

two_retries_resolved : resolve_retry_policy (some two_retries) ≡ resolved two_retries_policy
unfolding resolve_retry_policy le_double is_safe
two_retries_resolved = refl

resolve_retry_policy-IsPolicy_example : IsPolicy two_retries_policy
resolve_retry_policy-IsPolicy_example =
    resolve_retry_policy-IsPolicy (some two_retries) two_retries_policy two_retries_resolved
