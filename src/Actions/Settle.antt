-- ===== src/Actions/Settle.antt =====
-- The end of `execute` and of `resume`: how the executor's outcome is persisted, recorded and
-- normalized. `serialize_message` is the message of the TypeError that `JSON.stringify` throws; it
-- is thrown inside the `try`, so it becomes a failure of the execution.
use rigo.Base.{String, false, Option, some, none, if◌then◌else◌}
use mathlib.Core.Option
use rigo.Actions.Types.{
  succeeded, failed, cancelled, Failure, Value, a_succeeded, a_failed, a_cancelled,
  ActionExecutionResult, completed, failure, cancellation,
}
use rigo.Actions.Table.{persist_outcome}
use rigo.Actions.Registry.{Service}
use rigo.Actions.Execute.{
  Task, Executed, returned, threw_abort, threw, Caller, Answers, entry, record_audit_safe,
  write_error, leave, abort_reason, exec_reason,
}

module _ {Schema : Type 0} where
  -- `persistOutcome` with the result, for an execution that is persisted; `none` if it throws.
  unfoldable pub write_result : Task → Value → Answers → Service Schema → Option (Service Schema)
  write_result t v w s =
      if t.persistent
      then Option.map (λ rows. record s { rows = rows })
          (persist_outcome t.execution_id succeeded v none w.now s.rows)
      else some s

  unfoldable pub settle_failure :
      Task → Failure → Answers → Service Schema → ActionExecutionResult × Service Schema
  unfolding write_error record_audit_safe
  settle_failure t f w s = (
    failure t.execution_id t.action f w.total_ms false,
    record_audit_safe w.records t.session_id
        (λ i. record (entry t a_failed i) { failure = some f; duration_ms = some w.audit_ms })
        (write_error t failed f w.now s),
  )

  unfoldable pub settle_abort :
      Task → String → Answers → Service Schema → ActionExecutionResult × Service Schema
  unfolding write_error record_audit_safe
  settle_abort t reason w s = (
    cancellation t.execution_id t.action reason false,
    record_audit_safe w.records t.session_id
        (λ i. record (entry t a_cancelled i) { reason = some reason })
        (write_error t cancelled (record { code = some "CANCELLED"; message = reason }) w.now s),
  )

  unfoldable pub settle_value :
      String → Task → Value → Answers → Service Schema → ActionExecutionResult × Service Schema
  unfolding write_result settle_failure
  settle_value serialize_message t v w s = elim (write_result t v w s) [
    | none ↦ settle_failure t (record { code = none; message = serialize_message }) w s
    | some s' ↦ (
      completed t.execution_id t.action v w.total_ms false,
      record_audit_safe w.records t.session_id
          (λ i. record (entry t a_succeeded i) { result = some v; duration_ms = some w.audit_ms })
          s',
    )
  ]

  unfoldable pub settle_outcome :
      String
      → Task
      → Executed
      → Caller
      → Answers
      → Service Schema
      → ActionExecutionResult × Service Schema
  unfolding settle_value settle_abort settle_failure exec_reason abort_reason
  settle_outcome serialize_message t (returned v) caller w s =
      settle_value serialize_message t v w s
  settle_outcome serialize_message t threw_abort caller w s =
      settle_abort t (exec_reason caller (abort_reason t.execution_id s.aborted)) w s
  settle_outcome serialize_message t (threw f) caller w s = settle_failure t f w s

  -- The whole `try … catch … finally` around the executor.
  unfoldable pub settle :
      String
      → Task
      → Executed
      → Caller
      → Answers
      → Service Schema
      → ActionExecutionResult × Service Schema
  unfolding settle_outcome leave
  settle serialize_message t e caller w s =
      let (result, s') = settle_outcome serialize_message t e caller w s in (result, leave t s')
