-- ===== src/Actions/Service.antt =====
-- The public methods: `execute` as one run with no other call in between, `resume`,
-- `cancelExecution`, `recoverOrphanedExecutions` and `getExecution`.
use rigo.Base.{
  ℕ, String, Bool, true, false, not, List, [], ◌∷◌, ◌++◌, map, Option, some, none, is_empty,
  if◌then◌else◌,
}
use rigo.Json.{Json, parse}
use rigo.Actions.Types.{
  ActionExecutionRequest, awaiting_approval, running, cancelled, ActionExecutionResult,
  ActionDefinition, a_running, aborted, no_persistence, execution_not_found, not_awaiting_approval,
  action_gone, syntax_error, invalid_input, Result, ok, err, state_eq,
}
use rigo.Actions.Table.{Row, select_id, find_execution, recover_rows, persist_error}
use rigo.Actions.Registry.{Service, find_definition}
use rigo.Actions.Policy.{Turn, resolve_policy}
use rigo.Actions.Execute.{
  Task, ActionExecutionContext, context_of, Admission, started, answered, Progress, finished,
  launched, Executed, Caller, Answers, entry, enter, record_audit, write_state, admit, govern,
}
use rigo.Actions.Settle.{settle}

-- What the world answers over one whole run of `execute`.
pub record Run : Type 0 where
  pub signalled : Bool
  pub id : String
  pub late : List Row
  pub turn : ActionExecutionContext → ℕ → Turn
  pub at_policy : Answers
  pub executed : Json → Executed
  pub caller : Caller
  pub at_end : Answers

module _ {Schema : Type 0} (serialize_message : String) where
  after_govern :
      Run → Task → Result Progress → Service Schema → Result ActionExecutionResult × Service Schema
  after_govern w t (err e) s = (err e, s)
  after_govern w t (ok (finished a)) s = (ok a, s)
  after_govern w t (ok launched) s =
      let (a, s') = settle serialize_message t (w.executed t.input) w.caller w.at_end s in
      (ok a, s')

  after_admit :
      Run → Result Admission → Service Schema → Result ActionExecutionResult × Service Schema
  unfolding after_govern
  after_admit w (err e) s = (err e, s)
  after_admit w (ok (answered a)) s = (ok a, s)
  after_admit w (ok (started t)) s =
      let (r, s') =
        govern t (resolve_policy t.side_effect (map (w.turn (context_of t)) s.hooks)) w.at_policy
          s in
      after_govern w t r s'

module _ {Schema : Type 0} (violations : Schema → Json → List String)
    (serialize_message : String) where
  unfoldable pub execute :
      Run → ActionExecutionRequest → Service Schema → Result ActionExecutionResult × Service Schema
  unfolding after_admit admit
  execute w req s =
      let (r, s') = admit violations w.signalled w.id w.at_policy.now w.late req s in
      after_admit serialize_message w r s'

module _ {Schema : Type 0} where
  -- The task of a persisted execution that an approval released.
  abbrev pub resumed_task : ActionDefinition Schema → Row → Json → Task
  resumed_task d r input = record {
    execution_id = r.id;
    action = r.action_name;
    description = d.description;
    side_effect = d.side_effect;
    input = input;
    definition_ref = d.ref;
    session_id = some r.session_id;
    persistent = true;
  }

  -- The audit gate of `resume`, then the transition to `running` and the executor's call.
  unfoldable pub launch_resumed : Task → Answers → Service Schema → Result Task × Service Schema
  unfolding record_audit write_state enter
  launch_resumed t w s = elim (record_audit w.records t.session_id (entry t a_running) s) [
    | err e ↦ (err e, s)
    | ok s' ↦ (
      ok t,
      record (enter t (write_state t running (some w.now) s')) {
        launches = s.launches ++ t.execution_id ∷ [];
      },
    )
  ]

  -- Revalidation: the definition and the stored input are checked again.
  unfoldable pub revalidate : (Schema → Json → List String) → Row → Service Schema → Result Task
  unfolding find_definition
  revalidate violations r s = elim (find_definition r.action_name s.definitions) [
    | none ↦ err (action_gone r.action_name)
    | some d ↦ elim (parse r.request_json) [
      | none ↦ err syntax_error
      | some input ↦
          if not (is_empty (violations d.input_schema input))
          then err (invalid_input r.action_name (violations d.input_schema input))
          else ok (resumed_task d r input)
    ]
  ]

  unfoldable pub start_resumed :
      Result Task → Answers → Service Schema → Result Task × Service Schema
  unfolding launch_resumed
  start_resumed (err e) w s = (err e, s)
  start_resumed (ok t) w s = launch_resumed t w s

module _ {Schema : Type 0} (violations : Schema → Json → List String) where
  -- `resume` with a driver: the row must await approval.
  unfoldable pub resume_persisted : String → Answers → Service Schema → Result Task × Service Schema
  unfolding revalidate start_resumed
  resume_persisted id w s = elim (select_id id s.rows) [
    | none ↦ (err (execution_not_found id), s)
    | some r ↦
        if state_eq r.state awaiting_approval
        then start_resumed (revalidate violations r s) w s
        else (err (not_awaiting_approval id r.state), s)
  ]

  -- `resume` up to the executor's call; `settle` is the rest.
  unfoldable pub resume : Bool → String → Answers → Service Schema → Result Task × Service Schema
  unfolding resume_persisted
  resume signalled id w s =
      if signalled
      then (err aborted, s)
      else if s.has_driver
      then resume_persisted id w s
      else (err no_persistence, s)

module _ {Schema : Type 0} where
  unfoldable pub cancel_persisted : String → String → ℕ → Service Schema → Bool × Service Schema
  cancel_persisted id reason now s = elim (select_id id s.rows) [
    | none ↦ (false, s)
    | some r ↦
        if state_eq r.state awaiting_approval
        then (
          true,
          record s {
            rows =
                persist_error id cancelled (record { code = some "CANCELLED"; message = reason })
                  now s.rows;
          },
        )
        else (false, s)
  ]

  -- A suspended execution is cancelled with the reason; any other row is left alone.
  unfoldable pub cancel_execution : String → String → ℕ → Service Schema → Bool × Service Schema
  unfolding cancel_persisted
  cancel_execution id reason now s =
      if s.has_driver then cancel_persisted id reason now s else (false, s)

  unfoldable pub recover_orphaned_executions : ℕ → Service Schema → ℕ × Service Schema
  recover_orphaned_executions now s =
      if s.has_driver
      then (let (rows, n) = recover_rows now s.rows in (n, record s { rows = rows }))
      else (0, s)

  unfoldable pub get_execution : String → String → Service Schema → Option Row
  get_execution action key s = if s.has_driver then find_execution action key s.rows else none
