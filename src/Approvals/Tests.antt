-- ===== src/Approvals/Tests.antt =====
-- Decisions on a request that suspends an execution, and instances of the theorems.
use rigo.Base.{ℕ, arith, String, true, List, [], ◌∷◌, some, none, ◌≡◌, refl}
use mathlib.Core.Option
use rigo.Json.{Json}
use rigo.Actions.Types.{awaiting_approval, cancelled, local_write}
use rigo.Actions.Table.{Row, select_id, persist_error, update_id}
use rigo.Actions.Registry.{Service}
use rigo.Actions.Execute.{Answers}
use rigo.Actions.Service.{cancel_execution}
use rigo.Approvals.{
  Approvals, ApprovalRecord, ApprovalDecision, deny, at, pending, get, overdue, decide, resolve,
  apply_conditional_update, conditional_update, decide_row, approval_already_decided,
  approval_expired, raises, resolved, denied,
}
use rigo.Approvals.Decisions.{decide_again, decide_keeps_pending}
use rigo.Approvals.Resolution.{decide_takes_effect, told}
use rigo.Approvals.Consistency.{IsConsistent, decide-IsConsistent}

abbrev no_violations : Json → Json → List String
no_violations schema v = []

abbrev suspended : Row
suspended = record {
  id = "action_1";
  session_id = "s1";
  action_name = "note";
  side_effect = local_write;
  state = awaiting_approval;
  idempotency_key = "k1";
  request_json = [];
  result_json = none;
  error_json = none;
  created_at = 1;
  started_at = none;
  finished_at = none;
}

abbrev service : Service Json
service = record {
  definitions = [];
  hooks = [];
  inflight = [];
  aborted = [];
  has_driver = true;
  sessions = "s1" ∷ [];
  rows = suspended ∷ [];
  has_recorder = true;
  audit = [];
  launches = [];
}

abbrev waiting : ApprovalRecord
waiting = record {
  id = "approval_1";
  session_id = "s1";
  action_execution_id = "action_1";
  request = record {
    action_name = "note";
    target = "notes.md";
    params_summary = "";
    expected_impact = "";
  };
  state = pending;
  version = 1;
  created_at = 1;
  expires_at = at 9;
  decided_at = none;
  decision = none;
}

abbrev approvals : Approvals Json
approvals = record {
  ttl_ms = 600000;
  sessions = "s1" ∷ [];
  approvals = waiting ∷ [];
  events = [];
  actions = some service;
}

abbrev denial : ApprovalDecision
denial = record { choice = deny; expected_version = 1; comment = none; session = true }

abbrev at_time : ℕ → Answers
at_time t = record { now = t; records = true; audit_ms = 0; total_ms = 0 }

-- The denial cancels the suspended execution and is final.
abbrev denied_once : Approvals Json
denied_once = (decide no_violations "approval_1" denial (at_time 5) approvals).1

denial_cancels :
    Option.map (λ a. Option.map (λ r. r.state) (select_id "action_1" a.rows)) denied_once.actions
    ≡ some (some cancelled)
unfolding decide resolve select_id cancel_execution overdue apply_conditional_update
    conditional_update persist_error update_id
denial_cancels = refl

decide_takes_effect_example :
    (get "approval_1" denied_once.approvals
      ≡ some (record waiting {
        state = denied;
        decision = some (record { choice = deny; comment = denial.comment });
        decided_at = some 5;
        version = 2;
      }))
    × (denied_once.events ≡ resolved "approval_1" "s1" denied ∷ [])
    × (denied_once.actions ≡ some (told no_violations deny "action_1" (at_time 5) service))
unfolding get overdue
decide_takes_effect_example =
    decide_takes_effect no_violations "approval_1" denial (at_time 5) approvals waiting service refl
      (refl, tt) refl refl refl refl refl

decide_again_example :
    decide no_violations "approval_1" denial
      (at_time 6)
      (record approvals { approvals = decide_row denied denial 5 waiting ∷ [] })
    ≡ (
      raises (approval_already_decided "approval_1"),
      record approvals { approvals = decide_row denied denial 5 waiting ∷ [] },
    )
unfolding get decide_row
decide_again_example =
    decide_again no_violations "approval_1" denial (at_time 6)
      (record approvals { approvals = decide_row denied denial 5 waiting ∷ [] })
      (decide_row denied denial 5 waiting) refl (refl, tt) refl refl

-- A decision that carries version 2 for a request at version 1, after its expiry.
abbrev stale : ApprovalDecision
stale = record denial { expected_version = 2 }

decide_keeps_pending_example :
    ((decide no_violations "approval_1" stale (at_time 20) approvals).0
      ≡ raises (approval_expired "approval_1" (at 9)))
    × (get "approval_1" (decide no_violations "approval_1" stale (at_time 20) approvals).1.approvals
        ≡ some waiting)
    × ((decide no_violations "approval_1" stale (at_time 20) approvals).1.actions
        ≡ some (cancel_execution "action_1" "approval expired" 20 service).1)
unfolding get overdue
decide_keeps_pending_example =
    decide_keeps_pending no_violations "approval_1" stale (at_time 20) approvals waiting service
      refl (refl, tt) refl refl refl (ground arith) refl

decide-IsConsistent_example : IsConsistent denied_once.approvals
unfolding get
decide-IsConsistent_example =
    decide-IsConsistent no_violations "approval_1" denial (at_time 5) approvals
      ((refl, tt), ((refl, refl, refl), tt))
