-- ===== src/Actions/Policy.antt =====
-- `resolvePolicy`. What happens when a hook's turn comes is a `Turn`: the caller's signal is found
-- aborted before the hook is called, the hook throws, it returns something that is no structured
-- result, or it returns a result.
use rigo.Base.{String, List, [], ◌∷◌, Option, some, none}
use rigo.Actions.Types.{
  SideEffectClass, no_effect, local_read, local_write, external_write, ActionPolicyResult, allow,
  deny, require_approval, Result, ok, err, aborted, hook_failed, invalid_policy_result,
}

pub data Turn : Type 0 where
  signal_aborted : Turn
  throws : String → Turn
  malformed : Turn
  returns : ActionPolicyResult → Turn

-- The default: all write operations require approval.
abbrev pub write_policy : String → ActionPolicyResult
write_policy label = record {
  decision = require_approval;
  reason = label;
  policy = "default";
  expected_version = none;
}

abbrev pub open_policy : ActionPolicyResult
open_policy = record {
  decision = allow;
  reason = "no policy restriction";
  policy = "default";
  expected_version = none;
}

unfoldable pub default_policy : SideEffectClass → ActionPolicyResult
default_policy no_effect = open_policy
default_policy local_read = open_policy
default_policy local_write =
    write_policy "actions with side-effect \"local-write\" require approval by default"
default_policy external_write =
    write_policy "actions with side-effect \"external-write\" require approval by default"

-- After the loop: the first require-approval, else the first allow, else the default.
unfoldable pub settle_policy :
    SideEffectClass → Option ActionPolicyResult → Option ActionPolicyResult → ActionPolicyResult
unfolding default_policy
settle_policy side (some r) _ = r
settle_policy side none (some r) = r
settle_policy side none none = default_policy side

abbrev pub first : Option ActionPolicyResult → ActionPolicyResult → Option ActionPolicyResult
first (some r) _ = some r
first none r = some r

-- The loop over the hooks, with its two variables `requireApproval` and `explicitAllow`.
unfoldable mutual
  pub poll :
      SideEffectClass
      → Option ActionPolicyResult
      → Option ActionPolicyResult
      → List Turn
      → Result ActionPolicyResult
  poll side required allowed [] = ok (settle_policy side required allowed)
  poll side required allowed (signal_aborted ∷ turns) = err aborted
  poll side required allowed (throws message ∷ turns) = err (hook_failed message)
  poll side required allowed (malformed ∷ turns) = err invalid_policy_result
  poll side required allowed (returns r ∷ turns) = elim r.decision [
    | deny ↦ ok r
    | allow ↦ poll side required (first allowed r) turns
    | require_approval ↦ poll side (first required r) allowed turns
  ]

unfoldable pub resolve_policy : SideEffectClass → List Turn → Result ActionPolicyResult
unfolding poll settle_policy
resolve_policy side turns = poll side none none turns
