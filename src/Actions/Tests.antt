-- ===== src/Actions/Tests.antt =====
-- Runs of the action service on a small registry, and instances of its theorems.
use rigo.Base.{
  ℕ, ◌≤◌, String, true, false, List, [], ◌∷◌, ◌++◌, some, none, ◌≡◌, refl, count, map, inl,
}
use rigo.Json.{Json, written, num, obj, end, field, parse, stable_stringify, text_eq}
use rigo.Json.Alike.{Alike}
use rigo.Actions.Types.{
  ActionDefinition, ActionExecutionRequest, ActionPolicyResult, running, awaiting_approval,
  succeeded, local_write, allow, deny, json, circular, completed, failure, cancellation, Error,
  failed, ok, err, a_running, idempotency_conflict,
}
use rigo.Actions.Table.{
  select_id, Row, insert_row, recover_rows, find_execution, persist_outcome, update_id,
  transition_state,
}
use rigo.Actions.Registry.{Service, find_definition, unload, unload_reason}
use rigo.Actions.Policy.{Turn, returns, malformed, resolve_policy}
use rigo.Actions.Replay.{outcome_of, replay}
use rigo.Actions.Execute.{
  Task, Answers, returned, threw_abort, not_aborted, admit, govern, answered, entry, new_task,
  abort_reason,
}
use rigo.Actions.Settle.{settle}
use rigo.Actions.Service.{Run, execute, resume}
use rigo.Actions.Effects.{state_of}
use rigo.Actions.System.{
  System, Step, here, next, admits, governs, at_policy, executing, find_task, drop_task,
}
use rigo.Actions.Safety.{Reach-launches_once, Step-Follows, Follows, start-Holds}
use rigo.Actions.Verdict.{resolve_policy-verdict, resolve_policy_stops, first_with, turn_error}
use rigo.Actions.Replaying.{admit-replays}
use rigo.Actions.Outcomes.{
  recover_rows_complete, swept, govern_gate, resume_gate, settle_circular, unload_cancels, InFlight,
}

abbrev no_violations : ℕ → Json → List String
no_violations schema v = []

abbrev note : ActionDefinition ℕ
note = record {
  name = "note";
  description = "writes a note";
  input_schema = 0;
  side_effect = local_write;
  ref = 7;
}

abbrev request : ActionExecutionRequest
request = record {
  action = "note";
  input = obj (field "b" (num 2) (field "a" (num 1) end));
  idempotency_key = some "k1";
  session_id = some "s1";
}

-- The same input with its members in another order.
abbrev reordered : ActionExecutionRequest
reordered = record request { input = obj (field "a" (num 1) (field "b" (num 2) end)) }

abbrev idle : Service ℕ
idle = record {
  definitions = note ∷ [];
  hooks = 3 ∷ [];
  inflight = [];
  aborted = [];
  has_driver = true;
  sessions = "s1" ∷ [];
  rows = [];
  has_recorder = true;
  audit = [];
  launches = [];
}

abbrev approval : ActionPolicyResult
approval = record { decision = allow; reason = "trusted"; policy = "p"; expected_version = none }

abbrev refusal : ActionPolicyResult
refusal = record { decision = deny; reason = "never"; policy = "q"; expected_version = none }

abbrev answers : Answers
answers = record { now = 5; records = true; audit_ms = 1; total_ms = 2 }

abbrev run : Run
run = record {
  signalled = false;
  id = "action_1";
  late = [];
  turn = λ context hook. returns approval;
  at_policy = answers;
  executed = λ input. returned (json (num 9));
  caller = not_aborted;
  at_end = answers;
}

first_run :
    (execute no_violations "circular" run request idle).0
    ≡ ok (completed "action_1" "note" (json (num 9)) 2 false)
unfolding execute insert_row govern resolve_policy settle persist_outcome
first_run = refl

-- The same request again, members reordered: the row answers, and nothing runs.
second_run :
    execute no_violations "circular"
      (record run { id = "action_2" })
      reordered
      (execute no_violations "circular" run request idle).1
    ≡ (
      ok (completed "action_1" "note" (json (num 9)) 0 true),
      (execute no_violations "circular" run request idle).1,
    )
unfolding execute insert_row govern resolve_policy settle persist_outcome update_id transition_state
    replay parse stable_stringify text_eq written
second_run = refl

-- The system before and after the first call.
abbrev empty_system : System ℕ
empty_system = record { service = idle; tasks = [] }

abbrev task : Task
task = new_task note "action_1" request true

abbrev admitted_system : System ℕ
admitted_system = record {
  service = (admit no_violations false "action_1" 5 [] request idle).1;
  tasks = record { task = task; stage = at_policy } ∷ [];
}

admission : Step no_violations "circular" empty_system admitted_system
unfolding admit insert_row find_task
admission = admits false "action_1" 5 request (refl, refl, refl) refl refl

abbrev launched_system : System ℕ
launched_system = record {
  service = (govern task (ok approval) answers admitted_system.service).1;
  tasks = record { task = task; stage = executing } ∷ [];
}

launching : Step no_violations "circular" admitted_system launched_system
unfolding govern find_task drop_task admit insert_row
launching = governs task (ok approval) answers refl refl refl

Reach-launches_once_example : count "action_1" launched_system.service.launches ≤ 1
Reach-launches_once_example =
    Reach-launches_once no_violations "circular" "action_1" (next (next here admission) launching)
      refl refl

Step-Follows_example :
    Follows
      (state_of "action_1" empty_system.service.rows)
      (state_of "action_1" admitted_system.service.rows)
Step-Follows_example =
    Step-Follows no_violations "circular" "action_1" admission (start-Holds idle [] refl refl)

resolve_policy-verdict_example :
    resolve_policy local_write (map returns (approval ∷ refusal ∷ [])) ≡ ok refusal
resolve_policy-verdict_example = resolve_policy-verdict local_write (approval ∷ refusal ∷ [])

resolve_policy_stops_example :
    ((r : ActionPolicyResult)
      → first_with deny (approval ∷ []) ≡ some r
      → resolve_policy local_write (returns approval ∷ malformed ∷ []) ≡ ok r)
    × ((t : Turn) (e : Error)
        → turn_error t ≡ some e
        → first_with deny (approval ∷ []) ≡ none
        → resolve_policy local_write (returns approval ∷ t ∷ malformed ∷ []) ≡ err e)
resolve_policy_stops_example = resolve_policy_stops local_write (approval ∷ []) (malformed ∷ [])

abbrev stored : Row
stored = record {
  id = "action_1";
  session_id = "s1";
  action_name = "note";
  side_effect = local_write;
  state = succeeded;
  idempotency_key = "k1";
  request_json = stable_stringify request.input;
  result_json = some (num 9);
  error_json = none;
  created_at = 1;
  started_at = some 2;
  finished_at = some 3;
}

abbrev replaying : Service ℕ
replaying = record idle { rows = stored ∷ [] }

admit-replays_example :
    (Alike request.input reordered.input
      → admit no_violations false "action_2" 9 [] reordered replaying
        ≡ (ok (answered (outcome_of stored succeeded)), replaying))
    × (¬ Alike request.input reordered.input
        → admit no_violations false "action_2" 9 [] reordered replaying
          ≡ (err (idempotency_conflict "k1" "note"), replaying))
unfolding find_definition find_execution
admit-replays_example =
    admit-replays no_violations note "action_2" "s1" "k1" 9 [] reordered replaying stored
      request.input refl refl refl refl refl refl refl refl

govern_gate_example :
    (approval.decision ≡ allow)
    × (answers.records ≡ true)
    × ((govern task (ok approval) answers idle).1.audit ≡ entry task a_running "s1" ∷ [])
unfolding govern
govern_gate_example = govern_gate task approval answers idle "s1" refl refl refl

-- A row that awaits approval, and its execution resumed.
abbrev suspended : Service ℕ
suspended = record idle {
  rows = record stored { state = awaiting_approval; result_json = none } ∷ [];
}

abbrev released : Task
released = record task { input = reordered.input }

resumed : (resume no_violations false "action_1" answers suspended).0 ≡ ok released
unfolding resume parse select_id find_definition stable_stringify
resumed = refl

resume_gate_example :
    (false ≡ false)
    × (state_of "action_1" suspended.rows ≡ some awaiting_approval)
    × (answers.records ≡ true)
    × ((r : Row) × (select_id "action_1" suspended.rows ≡ some r)
        × ((resume no_violations false "action_1" answers suspended).1.audit
            ≡ suspended.audit ++ entry released a_running r.session_id ∷ []))
resume_gate_example =
    resume_gate no_violations "action_1" answers suspended false released refl resumed

abbrev executing_row : Service ℕ
executing_row = record idle { rows = record stored { state = running; result_json = none } ∷ [] }

settle_circular_example :
    ((settle "circular" task (returned circular) not_aborted answers executing_row).0
      ≡ failure "action_1" "note" (record { code = none; message = "circular" }) 2 false)
    × (state_of "action_1"
          (settle "circular" task (returned circular) not_aborted answers executing_row).1.rows
        ≡ some failed)
unfolding state_of select_id
settle_circular_example =
    settle_circular "circular" task not_aborted answers executing_row running refl refl

abbrev flying : Service ℕ
flying = record idle { inflight = record { execution_id = "action_1"; definition_ref = 7 } ∷ [] }

unload_cancels_example :
    ((settle "circular" task threw_abort not_aborted answers (unload note flying)).0
      ≡ cancellation "action_1" "note" (unload_reason "note") false)
    × ((i : String) → ¬ InFlight i 7 (unload note flying).inflight)
unfolding abort_reason
unload_cancels_example = unload_cancels "circular" note task answers flying (inl (refl, refl)) refl

recover_rows_complete_example :
    ((recover_rows 4 executing_row.rows).0 ≡ map (swept 4) executing_row.rows)
    × ((recover_rows 4 executing_row.rows).1 ≡ 1)
    × (recover_rows 8 (recover_rows 4 executing_row.rows).0
        ≡ ((recover_rows 4 executing_row.rows).0, 0))
recover_rows_complete_example = recover_rows_complete 4 8 executing_row.rows
