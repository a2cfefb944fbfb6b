-- ===== src/RetryPolicy.antt =====
-- The retry policy of a provider route: packages/harness/llm/src/retry-policy.ts. A finite double is
-- its floor and the rest above it, counted in the smallest step of a double. A configuration is an
-- object whose undeclared keys are listed; the schemas for the settings page are the library's.
pub mod Bounds
pub mod Tests
use rigo.Base.{
  ℕ, ◌+◌, ◌^◌, String, Bool, true, false, not, List, [], ◌∷◌, Option, some, none, ◌==◌, ◌&&◌, ◌||◌,
  ltb, leb, nat_eq, is_empty, if◌then◌else◌,
}
use Prim.Native.Nat.{◌*◌}
use rigo.Base.Int.{ℤ, pos, negsuc, is_safe}

-- `finite z f` is z and f steps of 2 ^ -1074.
pub data Double : Type 0 where
  finite : ℤ → ℕ → Double
  infinite not_a_number : Double

-- An optional property's value; null counts as absent.
pub data Field : Type 0 where
  absent : Field
  number : Double → Field
  not_number : Field

pub data Code : Type 0 where
  text : String → Code
  not_text : Code

pub record BackoffConfig : Type 0 where
  pub unknown_keys : List String
  pub initial_delay_ms : Field
  pub max_delay_ms : Field
  pub jitter_ratio : Field

pub record RetryPolicyConfig : Type 0 where
  pub unknown_keys : List String
  pub mode : String
  pub max_retries : Field
  pub retryable_codes : Option (List Code)
  pub backoff : Option BackoffConfig

pub record ResolvedRetryBackoff : Type 0 where
  pub initial_delay_ms : Double
  pub max_delay_ms : Double
  pub jitter_ratio : Double

pub data ResolvedRetryPolicy : Type 0 where
  normal : Double → List Code → ResolvedRetryBackoff → ResolvedRetryPolicy
  always : ResolvedRetryBackoff → ResolvedRetryPolicy

pub data PolicyError : Type 0 where
  unknown_key : String → PolicyError
  bad_initial_delay bad_max_delay initial_above_max bad_jitter_ratio : PolicyError
  bad_max_retries no_codes bad_code duplicate_codes bad_mode : PolicyError

pub data Resolved {ℓ} (A : Type ℓ) : Type ℓ where
  resolved : A → Resolved A
  rejected : PolicyError → Resolved A

infixl 5 ◌>>=◌
abbrev pub ◌>>=◌ {ℓ κ} : {A : Type ℓ} {B : Type κ} → Resolved A → (A → Resolved B) → Resolved B
resolved a >>= f = f a
rejected e >>= f = rejected e

abbrev pub require : Bool → PolicyError → Resolved (Unit {0})
require true e = resolved tt
require false e = rejected e

abbrev pub le_ℤ : ℤ → ℤ → Bool
le_ℤ (pos m) (pos n) = leb m n
le_ℤ (pos m) (negsuc n) = false
le_ℤ (negsuc m) (pos n) = true
le_ℤ (negsuc m) (negsuc n) = leb n m

abbrev pub eq_ℤ : ℤ → ℤ → Bool
eq_ℤ a b = le_ℤ a b && le_ℤ b a

-- `<=` of finite numbers; false of others.
unfoldable pub le_double : Double → Double → Bool
le_double (finite a f) (finite b g) = if eq_ℤ a b then leb f g else le_ℤ a b
le_double _ _ = false

abbrev pub whole : ℕ → Double
whole n = finite (pos n) 0

-- `Number.isFinite`, and `Number.isSafeInteger`.
abbrev pub is_finite : Field → Option Double
is_finite (number (finite a f)) = some (finite a f)
is_finite _ = none

abbrev pub is_safe_integer : Double → Bool
is_safe_integer (finite a f) = nat_eq f 0 && is_safe a
is_safe_integer _ = false

-- `MAX_TIMER_DELAY_MS` and the defaults.
abbrev pub max_timer_delay_ms : Double
max_timer_delay_ms = whole 2147483647

abbrev pub default_max_retries : Double
default_max_retries = whole 5

abbrev pub default_initial_delay_ms : Double
default_initial_delay_ms = whole 500

abbrev pub default_max_delay_ms : Double
default_max_delay_ms = whole 10000

-- The double 0.1
abbrev pub default_jitter_ratio : Double
default_jitter_ratio = finite (pos 0) (3602879701896397 * 2 ^ 1019)

-- `??`
abbrev pub field_or : Field → Double → Field
field_or absent d = number d
field_or f d = f

-- A finite number within the condition, or the error.
abbrev pub checked : PolicyError → (Double → Bool) → Field → Resolved Double
checked e condition f = elim (is_finite f) [
  | none ↦ rejected e
  | some d ↦ if condition d then resolved d else rejected e
]

-- Positive, and no more than a timer takes.
abbrev pub is_delay : Double → Bool
is_delay d = not (le_double d (whole 0)) && le_double d max_timer_delay_ms

abbrev pub is_ratio : Double → Bool
is_ratio d = le_double (whole 0) d && le_double d (whole 1)

-- `validateKeys`
abbrev pub validate_keys : List String → Resolved (Unit {0})
validate_keys [] = resolved tt
validate_keys (k ∷ ks) = rejected (unknown_key k)

abbrev pub default_backoff : BackoffConfig
default_backoff = record {
  unknown_keys = [];
  initial_delay_ms = absent;
  max_delay_ms = absent;
  jitter_ratio = absent;
}

-- `resolveBackoff`; no configuration is one without properties.
unfoldable pub resolve_backoff : BackoffConfig → Resolved ResolvedRetryBackoff
resolve_backoff config = do
  keys ← validate_keys config.unknown_keys
  initial ←
      checked bad_initial_delay is_delay (field_or config.initial_delay_ms default_initial_delay_ms)
  limit ← checked bad_max_delay is_delay (field_or config.max_delay_ms default_max_delay_ms)
  ordered ← require (le_double initial limit) initial_above_max
  jitter ← checked bad_jitter_ratio is_ratio (field_or config.jitter_ratio default_jitter_ratio)
  resolved (record { initial_delay_ms = initial; max_delay_ms = limit; jitter_ratio = jitter })

abbrev pub default_retryable_codes : List Code
default_retryable_codes =
    text "EMPTY_RESPONSE"
    ∷ text "RATE_LIMIT"
    ∷ text "SERVER"
    ∷ text "TIMEOUT"
    ∷ text "TRANSPORT"
    ∷ []

abbrev pub is_code : Code → Bool
is_code (text t) = not (t == "")
is_code not_text = false

abbrev pub all_codes : List Code → Bool
all_codes [] = true
all_codes (c ∷ cs) = is_code c && all_codes cs

abbrev pub same_code : Code → Code → Bool
same_code (text a) (text b) = a == b
same_code _ _ = false

abbrev pub has_code : Code → List Code → Bool
has_code c [] = false
has_code c (d ∷ ds) = same_code d c || has_code c ds

-- Whether `new Set(codes)` is as large as the codes, which are texts here.
abbrev pub are_distinct : List Code → Bool
are_distinct [] = true
are_distinct (c ∷ cs) = not (has_code c cs) && are_distinct cs

abbrev pub codes_or : Option (List Code) → List Code
codes_or none = default_retryable_codes
codes_or (some cs) = cs

abbrev pub is_retry_count : Double → Bool
is_retry_count d = is_safe_integer d && le_double (whole 0) d

abbrev pub backoff_or : Option BackoffConfig → BackoffConfig
backoff_or none = default_backoff
backoff_or (some b) = b

unfoldable pub resolve_normal : RetryPolicyConfig → Resolved ResolvedRetryPolicy
unfolding resolve_backoff
resolve_normal config = do
  keys ← validate_keys config.unknown_keys
  retries ← checked bad_max_retries is_retry_count (field_or config.max_retries default_max_retries)
  some_code ← require (not (is_empty (codes_or config.retryable_codes))) no_codes
  texts ← require (all_codes (codes_or config.retryable_codes)) bad_code
  distinct ← require (are_distinct (codes_or config.retryable_codes)) duplicate_codes
  backoff ← resolve_backoff (backoff_or config.backoff)
  resolved (normal retries (codes_or config.retryable_codes) backoff)

unfoldable pub resolve_always : RetryPolicyConfig → Resolved ResolvedRetryPolicy
unfolding resolve_backoff
resolve_always config = do
  keys ← validate_keys config.unknown_keys
  backoff ← resolve_backoff (backoff_or config.backoff)
  resolved (always backoff)

abbrev pub default_policy : RetryPolicyConfig
default_policy = record {
  unknown_keys = [];
  mode = "normal";
  max_retries = absent;
  retryable_codes = none;
  backoff = none;
}

-- `resolveRetryPolicy`; no configuration is a normal one without properties.
unfoldable pub resolve_retry_policy : Option RetryPolicyConfig → Resolved ResolvedRetryPolicy
unfolding resolve_normal resolve_always
resolve_retry_policy none = resolve_normal default_policy
resolve_retry_policy (some config) =
    if config.mode == "normal"
    then resolve_normal config
    else if config.mode == "always"
    then resolve_always config
    else rejected bad_mode
