-- ===== src/Actions/Verdict.antt =====
-- The policy stage against a description of it: the first deny wins, else the first
-- require-approval, else the first allow, else the default of the side-effect class.
use rigo.Base.{
  Bool, true, false, List, [], ◌∷◌, ◌++◌, map, Option, some, none, ◌≡◌, refl, arith, option_or,
}
use rigo.Actions.Types.{
  SideEffectClass, Decision, ActionPolicyResult, allow, deny, require_approval, Error, ok, err,
  aborted, hook_failed, invalid_policy_result,
}
use rigo.Actions.Policy.{
  Turn, signal_aborted, throws, malformed, returns, poll, settle_policy, default_policy,
  resolve_policy, first,
}

abbrev pub decision_eq : Decision → Decision → Bool
decision_eq allow allow = true
decision_eq deny deny = true
decision_eq require_approval require_approval = true
decision_eq _ _ = false

-- The first result with a decision.
abbrev pub first_with : Decision → List ActionPolicyResult → Option ActionPolicyResult
first_with d [] = none
first_with d (r ∷ rs) = elim (decision_eq r.decision d) [ true ↦ some r | false ↦ first_with d rs ]

abbrev pub verdict : SideEffectClass → List ActionPolicyResult → ActionPolicyResult
verdict side rs = option_or (first_with deny rs) (
    option_or (first_with require_approval rs)
      (option_or (first_with allow rs) (default_policy side)))

abbrev or_else : Option ActionPolicyResult → Option ActionPolicyResult → Option ActionPolicyResult
or_else none b = b
or_else (some a) b = some a

-- The loop from any values of its two variables.
poll-returns :
    (side : SideEffectClass) (required allowed : Option ActionPolicyResult)
    (rs : List ActionPolicyResult)
    → poll side required allowed (map returns rs)
      ≡ ok (
          option_or (first_with deny rs) (
            settle_policy side
              (or_else required (first_with require_approval rs))
              (or_else allowed (first_with allow rs))))
unfolding poll
poll-returns side none none [] = refl
poll-returns side none (some a) [] = refl
poll-returns side (some q) none [] = refl
poll-returns side (some q) (some a) [] = refl
poll-returns side required allowed (r ∷ rs) = ground (
  arith,
  poll-returns side required (first allowed r) rs,
  poll-returns side (first required r) allowed rs,
)

-- When every hook returns a result, the decision is the verdict.
pub resolve_policy-verdict :
    (side : SideEffectClass) (rs : List ActionPolicyResult)
    → resolve_policy side (map returns rs) ≡ ok (verdict side rs)
unfolding resolve_policy
resolve_policy-verdict side rs = ground (arith, poll-returns side none none rs)

-- What a turn throws.
abbrev pub turn_error : Turn → Option Error
turn_error signal_aborted = some aborted
turn_error (throws message) = some (hook_failed message)
turn_error malformed = some invalid_policy_result
turn_error (returns r) = none

poll_fails :
    (side : SideEffectClass) (required allowed : Option ActionPolicyResult)
    (rs : List ActionPolicyResult) (t : Turn) (more : List Turn) (e : Error)
    → turn_error t ≡ some e
    → first_with deny rs ≡ none
    → poll side required allowed (map returns rs ++ t ∷ more) ≡ err e
unfolding poll
poll_fails side required allowed [] t more e bad quiet = ground arith
poll_fails side required allowed (r ∷ rs) t more e bad quiet = ground (
  arith,
  poll_fails side required (first allowed r) rs t more e bad,
  poll_fails side (first required r) allowed rs t more e bad,
)

poll_denied :
    (side : SideEffectClass) (required allowed : Option ActionPolicyResult)
    (rs : List ActionPolicyResult) (more : List Turn) (r : ActionPolicyResult)
    → first_with deny rs ≡ some r
    → poll side required allowed (map returns rs ++ more) ≡ ok r
unfolding poll
poll_denied side required allowed [] more r denied = cc
poll_denied side required allowed (x ∷ rs) more r denied = ground (
  arith,
  poll_denied side required (first allowed x) rs more r,
  poll_denied side (first required x) allowed rs more r,
)

-- A hook that throws, returns no structured result, or is not called since the signal aborted,
-- fails the stage unless a deny stands before it; after a deny nothing counts.
pub resolve_policy_stops :
    (side : SideEffectClass) (rs : List ActionPolicyResult) (more : List Turn)
    → ((r : ActionPolicyResult)
        → first_with deny rs ≡ some r
        → resolve_policy side (map returns rs ++ more) ≡ ok r)
      × ((t : Turn) (e : Error)
          → turn_error t ≡ some e
          → first_with deny rs ≡ none
          → resolve_policy side (map returns rs ++ t ∷ more) ≡ err e)
unfolding resolve_policy
resolve_policy_stops side rs more =
    (λ r. poll_denied side none none rs more r, λ t e. poll_fails side none none rs t more e)
