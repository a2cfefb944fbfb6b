-- ===== src/RetryPolicy/Bounds.antt =====
-- What a resolved policy guarantees.
use rigo.Base.{
  Bool, true, false, not, Option, some, none, ◌==◌, ◌≡◌, refl, subst, arith, is_empty, Bool-cases,
  inl, inr, String, List, [], ◌∷◌, ◌≢◌, ◌<◌, ◌≤◌, ◌^◌, ◌⊎◌, eq_iff,
}
use rigo.Base.Int.{pos, negsuc, is_safe}
use rigo.RetryPolicy.{
  Code, text, not_text, has_code, Double, finite, infinite, not_a_number, Field, absent, number,
  not_number, BackoffConfig, RetryPolicyConfig, ResolvedRetryBackoff, ResolvedRetryPolicy, normal,
  always, PolicyError, Resolved, resolved, rejected, ◌>>=◌, require, le_double, field_or, checked,
  is_delay, is_ratio, validate_keys, resolve_backoff, all_codes, are_distinct, codes_or,
  is_retry_count, backoff_or, resolve_normal, resolve_always, default_policy, default_max_retries,
  default_initial_delay_ms, default_max_delay_ms, default_jitter_ratio, resolve_retry_policy,
  bad_initial_delay, bad_max_delay, bad_jitter_ratio, bad_max_retries, no_codes, bad_code,
  duplicate_codes, initial_above_max,
}

rejected_resolved {ℓ} : {B : Type ℓ} (e : PolicyError) (b : B) → rejected e ≡ resolved b → ⊥
rejected_resolved e b h = ground (arith, h)

bind_then {ℓ κ μ} :
    {A : Type ℓ} {B : Type κ} {C : Type μ} (r : Resolved A) (f : A → Resolved B) (b : B)
    → (r >>= f) ≡ resolved b
    → ((a : A) → r ≡ resolved a → f a ≡ resolved b → C)
    → C
bind_then (resolved a) f b h k = k a refl h
bind_then (rejected e) f b h k = elim (rejected_resolved e b h) [ ]

-- A number that passes its check is within the condition.
checked-true :
    (e : PolicyError) (condition : Double → Bool) (f : Field) (d : Double)
    → checked e condition f ≡ resolved d
    → condition d ≡ true
checked-true e condition (number (finite a f)) d h = elim (Bool-cases (condition (finite a f))) [
  | inl within ↦
      let same : finite a f ≡ d = ground (arith, within, h) in
      subst (λ x. condition x ≡ true) same within
  | inr without ↦ ground (arith, without, h)
]
checked-true e condition (number infinite) d h = ground (arith, h)
checked-true e condition (number not_a_number) d h = ground (arith, h)
checked-true e condition absent d h = ground (arith, h)
checked-true e condition not_number d h = ground (arith, h)

-- More than 0, and at most 2147483647.
abbrev pub IsDelay : Double → Type 0
IsDelay (finite (pos n) f) = ((0 < n) ⊎ (0 < f)) × ((n < 2147483647) ⊎ ((n ≡ 2147483647) × (f ≡ 0)))
IsDelay _ = ⊥

-- From 0 to 1.
abbrev pub IsRatio : Double → Type 0
IsRatio (finite (pos n) f) = (n ≡ 0) ⊎ ((n ≡ 1) × (f ≡ 0))
IsRatio _ = ⊥

-- A whole number from 0 on that counts exactly.
abbrev pub IsCount : Double → Type 0
IsCount (finite (pos n) f) = (n < 2 ^ 53) × (f ≡ 0)
IsCount _ = ⊥

abbrev pub IsAtMost : Double → Double → Type 0
IsAtMost (finite (pos m) f) (finite (pos n) g) = (m < n) ⊎ ((m ≡ n) × (f ≤ g))
IsAtMost _ _ = ⊥

abbrev pub IsBounded : ResolvedRetryBackoff → Type 0
IsBounded b =
    IsDelay b.initial_delay_ms
    × IsDelay b.max_delay_ms
    × IsAtMost b.initial_delay_ms b.max_delay_ms
    × IsRatio b.jitter_ratio

is_delay-IsDelay : (d : Double) → is_delay d ≡ true → IsDelay d
unfolding le_double
is_delay-IsDelay (finite (pos n) f) h = ground (arith, h)
is_delay-IsDelay (finite (negsuc n) f) h = ground (arith, h)
is_delay-IsDelay infinite h = ground (arith, h)
is_delay-IsDelay not_a_number h = ground (arith, h)

is_ratio-IsRatio : (d : Double) → is_ratio d ≡ true → IsRatio d
unfolding le_double
is_ratio-IsRatio (finite (pos n) f) h = ground (arith, h)
is_ratio-IsRatio (finite (negsuc n) f) h = ground (arith, h)
is_ratio-IsRatio infinite h = ground (arith, h)
is_ratio-IsRatio not_a_number h = ground (arith, h)

is_retry_count-IsCount : (d : Double) → is_retry_count d ≡ true → IsCount d
unfolding le_double is_safe
is_retry_count-IsCount (finite (pos n) f) h = ground (arith, h)
is_retry_count-IsCount (finite (negsuc n) f) h = ground (arith, h)
is_retry_count-IsCount infinite h = ground (arith, h)
is_retry_count-IsCount not_a_number h = ground (arith, h)

le_double-IsAtMost : (c d : Double) → IsDelay c → IsDelay d → le_double c d ≡ true → IsAtMost c d
unfolding le_double
le_double-IsAtMost (finite (pos m) f) (finite (pos n) g) low high h = ground (arith, h)
le_double-IsAtMost (finite (pos m) f) (finite (negsuc n) g) low high h = absurd high
le_double-IsAtMost (finite (pos m) f) infinite low high h = absurd high
le_double-IsAtMost (finite (pos m) f) not_a_number low high h = absurd high
le_double-IsAtMost (finite (negsuc m) f) d low high h = absurd low
le_double-IsAtMost infinite d low high h = absurd low
le_double-IsAtMost not_a_number d low high h = absurd low

require-true : (c : Bool) (e : PolicyError) → require c e ≡ resolved tt → c ≡ true
require-true true e h = refl
require-true false e h = ground (arith, h)

not-true : (c : Bool) → not c ≡ true → c ≡ false
not-true false h = refl
not-true true h = ground (arith, h)

resolve_backoff-IsBounded :
    (config : BackoffConfig) (b : ResolvedRetryBackoff)
    → resolve_backoff config ≡ resolved b
    → IsBounded b
unfolding resolve_backoff
resolve_backoff-IsBounded config b h =
    bind_then (validate_keys config.unknown_keys) _ b h λ keys k_ok h1.
      bind_then
        (checked bad_initial_delay is_delay
          (field_or config.initial_delay_ms default_initial_delay_ms))
        _ b h1
        λ initial i_ok h2.
          bind_then
            (checked bad_max_delay is_delay (field_or config.max_delay_ms default_max_delay_ms)) _ b
            h2
            λ limit l_ok h3.
              bind_then (require (le_double initial limit) initial_above_max) _ b h3
                λ ordered o_ok h4.
                  bind_then
                    (checked bad_jitter_ratio is_ratio
                      (field_or config.jitter_ratio default_jitter_ratio))
                    _ b h4
                    λ jitter j_ok same.
                      let equal : record {
                        initial_delay_ms = initial;
                        max_delay_ms = limit;
                        jitter_ratio = jitter;
                      }
                          ≡ b =
                        ground (arith, same) in
                      let low = is_delay-IsDelay initial (
                        checked-true bad_initial_delay is_delay
                          (field_or config.initial_delay_ms default_initial_delay_ms) initial
                          i_ok) in
                      let high = is_delay-IsDelay limit (
                        checked-true bad_max_delay is_delay
                          (field_or config.max_delay_ms default_max_delay_ms) limit l_ok) in
                      subst IsBounded equal (
                        low,
                        high,
                        le_double-IsAtMost initial limit low high
                            (require-true (le_double initial limit) initial_above_max o_ok),
                        is_ratio-IsRatio jitter (
                            checked-true bad_jitter_ratio is_ratio
                              (field_or config.jitter_ratio default_jitter_ratio) jitter j_ok),
                      )

-- None of the codes is this one.
abbrev pub IsAbsent : Code → List Code → Type 0
IsAbsent c [] = Unit
IsAbsent c (d ∷ ds) = (d ≢ c) × IsAbsent c ds

-- Non-empty texts, each once.
abbrev pub AreCodes : List Code → Type 0
AreCodes [] = Unit
AreCodes (c ∷ cs) = ((t : String) × (c ≡ text t) × (t ≢ "")) × IsAbsent c cs × AreCodes cs

has_code-IsAbsent :
    (t : String) (cs : List Code) → has_code (text t) cs ≡ false → IsAbsent (text t) cs
has_code-IsAbsent t [] h = tt
has_code-IsAbsent t (text a ∷ cs) h =
    (λ same. ground (arith, eq_iff a t, h, same), has_code-IsAbsent t cs (ground (arith, h)))
has_code-IsAbsent t (not_text ∷ cs) h =
    (λ same. ground (arith, same), has_code-IsAbsent t cs (ground (arith, h)))

are_distinct-AreCodes :
    (cs : List Code) → all_codes cs ≡ true → are_distinct cs ≡ true → AreCodes cs
are_distinct-AreCodes [] h d = tt
are_distinct-AreCodes (text t ∷ cs) h d = (
  (t, refl, λ same. ground (arith, eq_iff t "", h, same)),
  has_code-IsAbsent t cs (ground (arith, d)),
  are_distinct-AreCodes cs (ground (arith, h)) (ground (arith, d)),
)
are_distinct-AreCodes (not_text ∷ cs) h d = ground (arith, h)

abbrev pub IsPolicy : ResolvedRetryPolicy → Type 0
IsPolicy (normal retries codes b) = IsCount retries × (codes ≢ []) × AreCodes codes × IsBounded b
IsPolicy (always b) = IsBounded b

resolve_normal-IsPolicy :
    (config : RetryPolicyConfig) (p : ResolvedRetryPolicy)
    → resolve_normal config ≡ resolved p
    → IsPolicy p
unfolding resolve_normal
resolve_normal-IsPolicy config p h =
    let codes = codes_or config.retryable_codes in
    bind_then (validate_keys config.unknown_keys) _ p h λ keys k_ok h1.
      bind_then
        (checked bad_max_retries is_retry_count (field_or config.max_retries default_max_retries)) _
        p h1
        λ retries r_ok h2.
          bind_then (require (not (is_empty codes)) no_codes) _ p h2 λ some_code n_ok h3.
            bind_then (require (all_codes codes) bad_code) _ p h3 λ texts t_ok h4.
              bind_then (require (are_distinct codes) duplicate_codes) _ p h4 λ distinct d_ok h5.
                bind_then (resolve_backoff (backoff_or config.backoff)) _ p h5 λ b b_ok same.
                  let equal : normal retries codes b ≡ p = ground (arith, same) in
                  let some_there : is_empty codes ≡ false =
                    not-true (is_empty codes) (require-true (not (is_empty codes)) no_codes n_ok) in
                  subst IsPolicy equal (
                    is_retry_count-IsCount retries (
                        checked-true bad_max_retries is_retry_count
                          (field_or config.max_retries default_max_retries) retries r_ok),
                    λ no_code. ground (arith, some_there, no_code),
                    are_distinct-AreCodes codes (require-true (all_codes codes) bad_code t_ok)
                        (require-true (are_distinct codes) duplicate_codes d_ok),
                    resolve_backoff-IsBounded (backoff_or config.backoff) b b_ok,
                  )

resolve_always-IsPolicy :
    (config : RetryPolicyConfig) (p : ResolvedRetryPolicy)
    → resolve_always config ≡ resolved p
    → IsPolicy p
unfolding resolve_always
resolve_always-IsPolicy config p h =
    bind_then (validate_keys config.unknown_keys) _ p h λ keys k_ok h1.
      bind_then (resolve_backoff (backoff_or config.backoff)) _ p h1 λ b b_ok same.
        let equal : always b ≡ p = ground (arith, same) in
        subst IsPolicy equal (resolve_backoff-IsBounded (backoff_or config.backoff) b b_ok)

-- Every policy that is resolved is bounded: both delays are more than 0 and at most 2147483647
-- milliseconds, the first is at most the second, the jitter is from 0 to 1, and a normal policy has
-- a whole number of retries below 2 ^ 53 and has codes, all non-empty texts and each once.
pub resolve_retry_policy-IsPolicy :
    (config : Option RetryPolicyConfig) (p : ResolvedRetryPolicy)
    → resolve_retry_policy config ≡ resolved p
    → IsPolicy p
unfolding resolve_retry_policy
resolve_retry_policy-IsPolicy none p h = resolve_normal-IsPolicy default_policy p h
resolve_retry_policy-IsPolicy (some config) p h = elim (Bool-cases (config.mode == "normal")) [
  | inl plain ↦ resolve_normal-IsPolicy config p (ground (arith, plain, h))
  | inr other ↦ elim (Bool-cases (config.mode == "always")) [
    | inl unbounded ↦ resolve_always-IsPolicy config p (ground (arith, other, unbounded, h))
    | inr unknown ↦ ground (arith, other, unknown, h)
  ]
]
