-- ===== src/Actions/Execute.antt =====
-- `execute`, cut where it awaits: `admit` runs up to the policy stage, `govern` from the policy's
-- decision to the call of the executor, `settle` from the executor's end; `execute` is the three in
-- a row. Hooks registered or removed during a policy stage are not seen by that stage. The driver's
-- statements after the reservation do not fail.
use Prim.Native.String.{◌++◌ as join}
use rigo.Base.{
  ℕ, String, Bool, true, false, not, List, [], ◌∷◌, ◌++◌, Option, some, none, ◌==◌, is_empty,
  option_or, if◌then◌else◌,
}
use rigo.Json.{Json, stable_stringify}
use rigo.Actions.Types.{
  SideEffectClass, ActionDefinition, ActionExecutionRequest, ActionState, proposed, running,
  cancelled, awaiting_approval, allow, deny, require_approval, ActionPolicyResult, Failure, Value,
  AuditStatus, a_running, a_denied, a_requires_approval, ActionExecutionAuditEntry,
  ActionExecutionResult, denied, requires_approval, aborted, action_not_found, invalid_input,
  session_id_required, insert_failed, audit_failed, Result, ok, err, ◌>>=◌,
}
use rigo.Actions.Table.{Row, find_execution, insert_row, transition_state, persist_error}
use rigo.Actions.Registry.{Flight, Service, find_definition}
use rigo.Actions.Replay.{replay}

-- One execution on its way through the pipeline.
pub record Task : Type 0 where
  pub execution_id : String
  pub action : String
  pub description : String
  pub side_effect : SideEffectClass
  pub input : Json
  pub definition_ref : ℕ
  pub session_id : Option String
  pub persistent : Bool

pub record ActionExecutionContext : Type 0 where
  pub execution_id : String
  pub action : String
  pub description : String
  pub side_effect : SideEffectClass
  pub input : Json

abbrev pub context_of : Task → ActionExecutionContext
context_of t = record {
  execution_id = t.execution_id;
  action = t.action;
  description = t.description;
  side_effect = t.side_effect;
  input = t.input;
}

pub data Admission : Type 0 where
  started : Task → Admission
  answered : ActionExecutionResult → Admission

pub data Progress : Type 0 where
  finished : ActionExecutionResult → Progress
  launched : Progress

-- How the executor's promise ends: a value, an AbortError, or another error as its safe record.
pub data Executed : Type 0 where
  returned : Value → Executed
  threw_abort : Executed
  threw : Failure → Executed

-- The caller's signal when the executor ends, against the controller's.
pub data Caller : Type 0 where
  not_aborted : Caller
  aborted_first aborted_later : String → Caller

-- What the world answers in one run: the clock, and whether the recorder throws.
pub record Answers : Type 0 where
  pub now : ℕ
  pub records : Bool
  pub audit_ms : ℕ
  pub total_ms : ℕ

-- A controller that is made anew for an execution has no reason.
unfoldable pub without_reason : String → List (String × String) → List (String × String)
without_reason i [] = []
without_reason i ((j, reason) ∷ rest) =
    let others = without_reason i rest in if j == i then others else (j, reason) ∷ others

module _ {Schema : Type 0} where
  -- `new AbortController` and `inflight.set`
  unfoldable pub enter : Task → Service Schema → Service Schema
  unfolding without_reason
  enter t s = record s {
    aborted = without_reason t.execution_id s.aborted;
    inflight =
        s.inflight
        ++ record { execution_id = t.execution_id; definition_ref = t.definition_ref } ∷ [];
  }

-- `inflight.delete`
unfoldable pub without_flight : String → List Flight → List Flight
without_flight i [] = []
without_flight i (f ∷ fs) =
    let rest = without_flight i fs in if f.execution_id == i then rest else f ∷ rest

unfoldable pub abort_reason : String → List (String × String) → Option String
abort_reason i [] = none
abort_reason i ((j, reason) ∷ rest) = if j == i then some reason else abort_reason i rest

-- `String(execSignal.reason ?? 'aborted')`: the first of the two signals to abort gives the reason.
unfoldable pub exec_reason : Caller → Option String → String
exec_reason not_aborted controller = option_or controller "aborted"
exec_reason (aborted_first reason) controller = reason
exec_reason (aborted_later reason) controller = option_or controller reason

abbrev pub entry : Task → AuditStatus → String → ActionExecutionAuditEntry
entry t status session = record {
  execution_id = t.execution_id;
  action = t.action;
  session_id = session;
  status = status;
  input = t.input;
  result = none;
  failure = none;
  reason = none;
  duration_ms = none;
}

module _ {Schema : Type 0} where
  unfoldable pub leave : Task → Service Schema → Service Schema
  leave t s = record s { inflight = without_flight t.execution_id s.inflight }

  -- `recordAudit`: nothing without a session or a recorder; a recorder's throw goes on.
  unfoldable pub record_audit :
      Bool
      → Option String
      → (String → ActionExecutionAuditEntry)
      → Service Schema
      → Result (Service Schema)
  record_audit records none e s = ok s
  record_audit records (some session) e s =
      if s.has_recorder
      then (if records
          then ok (record s { audit = s.audit ++ e session ∷ [] })
          else err audit_failed)
      else ok s

  -- `recordAuditSafe`: a recorder's throw is swallowed.
  unfoldable pub record_audit_safe :
      Bool → Option String → (String → ActionExecutionAuditEntry) → Service Schema → Service Schema
  unfolding record_audit
  record_audit_safe records session e s = elim (record_audit records session e s) [
    | ok s' ↦ s'
    | err _ ↦ s
  ]

  -- `persistOutcome` with an error payload, for an execution that is persisted.
  unfoldable pub write_error : Task → ActionState → Failure → ℕ → Service Schema → Service Schema
  write_error t st f now s =
      if t.persistent then record s { rows = persist_error t.execution_id st f now s.rows } else s

  -- `transitionState`, for an execution that is persisted.
  unfoldable pub write_state : Task → ActionState → Option ℕ → Service Schema → Service Schema
  write_state t st at s =
      if t.persistent then record s { rows = transition_state t.execution_id st at s.rows } else s

  abbrev pub new_task : ActionDefinition Schema → String → ActionExecutionRequest → Bool → Task
  new_task d id req persistent = record {
    execution_id = id;
    action = d.name;
    description = d.description;
    side_effect = d.side_effect;
    input = req.input;
    definition_ref = d.ref;
    session_id = req.session_id;
    persistent = persistent;
  }

  abbrev pub new_row :
      ActionDefinition Schema → String → ActionExecutionRequest → String → String → ℕ → Row
  new_row d id req session key now = record {
    id = id;
    session_id = session;
    action_name = d.name;
    side_effect = d.side_effect;
    state = proposed;
    idempotency_key = key;
    request_json = stable_stringify req.input;
    result_json = none;
    error_json = none;
    created_at = now;
    started_at = none;
    finished_at = none;
  }

abbrev pub answer : Result ActionExecutionResult → Result Admission
answer r = r >>= λ a. ok (answered a)

module _ {Schema : Type 0} where
  -- The insert of the reservation, after `late`: the rows that other connections committed since
  -- the look-up. A refused insert looks up again.
  unfoldable pub reserve :
      ActionDefinition Schema
      → String
      → ℕ
      → List Row
      → ActionExecutionRequest
      → String
      → String
      → Service Schema
      → Result Admission × Service Schema
  unfolding enter
  reserve d id now late req session key s =
      elim (insert_row s.sessions (new_row d id req session key now) (s.rows ++ late)) [
        | some rows ↦ (
          ok (started (new_task d id req true)),
          enter (new_task d id req true) (record s { rows = rows }),
        )
        | none ↦ elim (find_execution d.name key (s.rows ++ late)) [
          | some raced ↦ (answer (replay raced req), record s { rows = s.rows ++ late })
          | none ↦ (err insert_failed, record s { rows = s.rows ++ late })
        ]
      ]

  -- With a driver: the session id is required, and a known key replays.
  unfoldable pub admit_persistent :
      ActionDefinition Schema
      → String
      → ℕ
      → List Row
      → ActionExecutionRequest
      → Option String
      → Service Schema
      → Result Admission × Service Schema
  unfolding reserve
  admit_persistent d id now late req none s = (err (session_id_required d.name), s)
  admit_persistent d id now late req (some session) s =
      if session == ""
      then (err (session_id_required d.name), s)
      else elim (find_execution d.name (option_or req.idempotency_key (join "auto-" id)) s.rows) [
        | some row ↦ (answer (replay row req), s)
        | none ↦
            reserve d id now late req session (option_or req.idempotency_key (join "auto-" id)) s
      ]

  -- A valid request: reserved with a driver, else started at once.
  unfoldable pub admit_valid :
      ActionDefinition Schema
      → String
      → ℕ
      → List Row
      → ActionExecutionRequest
      → Service Schema
      → Result Admission × Service Schema
  unfolding admit_persistent enter
  admit_valid d id now late req s =
      if s.has_driver
      then admit_persistent d id now late req req.session_id s
      else (ok (started (new_task d id req false)), enter (new_task d id req false) s)

module _ {Schema : Type 0} (violations : Schema → Json → List String) where
  -- `signalled` is the caller's signal at the call, `id` the new `action_<uuid>`.
  unfoldable pub admit :
      Bool
      → String
      → ℕ
      → List Row
      → ActionExecutionRequest
      → Service Schema
      → Result Admission × Service Schema
  unfolding admit_valid find_definition
  admit signalled id now late req s =
      if signalled then (err aborted, s) else elim (find_definition req.action s.definitions) [
        | none ↦ (err (action_not_found req.action), s)
        | some d ↦
            if not (is_empty (violations d.input_schema req.input))
            then (err (invalid_input d.name (violations d.input_schema req.input)), s)
            else admit_valid d id now late req s
      ]

module _ {Schema : Type 0} where
  -- The gate: `running` is recorded before the executor is called.
  unfoldable pub launch : Task → Answers → Service Schema → Result Progress × Service Schema
  unfolding record_audit write_state
  launch t w s = elim (record_audit w.records t.session_id (entry t a_running) s) [
    | err e ↦ (err e, s)
    | ok s' ↦ (
      ok launched,
      record (write_state t running (some w.now) s') {
        launches = s.launches ++ t.execution_id ∷ [];
      },
    )
  ]

  -- A throw of the recorder leaves by `finally`.
  unfoldable pub after_launch : Task → Result Progress → Service Schema → Service Schema
  unfolding leave
  after_launch t (ok progress) s = s
  after_launch t (err e) s = leave t s

  -- From the policy's decision on.
  unfoldable pub govern :
      Task → Result ActionPolicyResult → Answers → Service Schema → Result Progress × Service Schema
  unfolding record_audit_safe write_error write_state leave launch after_launch
  govern t (err e) w s = (err e, leave t s)
  govern t (ok p) w s = elim p.decision [
    | deny ↦ (
      ok (finished (denied t.execution_id t.action p.reason p.policy)),
      leave t (
          record_audit_safe w.records t.session_id
            (λ i. record (entry t a_denied i) { reason = some p.reason })
            (write_error t cancelled (record { code = some "POLICY_DENIED"; message = p.reason })
              w.now s)),
    )
    | require_approval ↦ (
      ok (
          finished
            (requires_approval t.execution_id t.action p.reason p.policy p.expected_version)),
      leave t (
          record_audit_safe w.records t.session_id
            (λ i. record (entry t a_requires_approval i) { reason = some p.reason })
            (write_state t awaiting_approval none s)),
    )
    | allow ↦ let (r, s') = launch t w s in (r, after_launch t r s')
  ]
