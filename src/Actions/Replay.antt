-- ===== src/Actions/Replay.antt =====
-- `replay`: what a call finds under a key that was used before.
use rigo.Base.{true, Option, some, none, option_or, if◌then◌else◌}
use mathlib.Core.Option
use rigo.Json.{Json, parse, stable_stringify, text_eq}
use rigo.Actions.Types.{
  ActionState, succeeded, failed, cancelled, recovery_required, ActionExecutionRequest,
  ActionExecutionResult, completed, failure, cancellation, needs_recovery, in_progress, Value,
  undefined, json, Failure, Result, ok, err, idempotency_conflict, syntax_error,
}
use rigo.Actions.Table.{Row}

abbrev read_result : Option Json → Value
read_result none = undefined
read_result (some v) = json v

abbrev unknown_failure : Failure
unknown_failure = record { code = none; message = "unknown failure" }

-- What a row says of its execution.
unfoldable pub outcome_of : Row → ActionState → ActionExecutionResult
outcome_of r succeeded = completed r.id r.action_name (read_result r.result_json) 0 true
outcome_of r failed = failure r.id r.action_name (option_or r.error_json unknown_failure) 0 true
outcome_of r cancelled =
    cancellation r.id r.action_name
      (option_or (Option.map (λ e. e.message) r.error_json) "cancelled") true
outcome_of r recovery_required = needs_recovery r.id r.action_name
outcome_of r state = in_progress r.id r.action_name state

-- The stored request is parsed and written again before it is compared.
unfoldable pub replay : Row → ActionExecutionRequest → Result ActionExecutionResult
unfolding outcome_of
replay r req = elim (parse r.request_json) [
  | none ↦ err syntax_error
  | some stored ↦
      if text_eq (stable_stringify stored) (stable_stringify req.input)
      then ok (outcome_of r r.state)
      else err (idempotency_conflict r.idempotency_key r.action_name)
]
