-- ===== src/Actions/Types.antt =====
-- The data of the action service. An error carries the values that its message is built from.
-- A definition's execute function and a policy hook are objects that are told apart by identity;
-- `ref` is the identity. Times are milliseconds. A JSON Schema is a value of a type parameter.
use rigo.Base.{ℕ, String, Bool, true, false, List, Option}
use rigo.Json.{Json}

pub data SideEffectClass : Type 0 where
  no_effect local_read local_write external_write : SideEffectClass

pub data ActionState : Type 0 where
  proposed awaiting_approval running succeeded failed cancelled recovery_required : ActionState

pub record ActionDefinition (Schema : Type 0) : Type 0 where
  pub name : String
  pub description : String
  pub input_schema : Schema
  pub side_effect : SideEffectClass
  pub ref : ℕ

pub record ActionExecutionRequest : Type 0 where
  pub action : String
  pub input : Json
  pub idempotency_key : Option String
  pub session_id : Option String

pub data Decision : Type 0 where
  allow deny require_approval : Decision

pub record ActionPolicyResult : Type 0 where
  pub decision : Decision
  pub reason : String
  pub policy : String
  pub expected_version : Option ℕ

-- A safe failure record: `{ code?, message }`.
pub record Failure : Type 0 where
  pub code : Option String
  pub message : String

-- A value of the language: `undefined`, a JSON value, or one that `JSON.stringify` throws on.
pub data Value : Type 0 where
  undefined : Value
  json : Json → Value
  circular : Value

pub data AuditStatus : Type 0 where
  a_running a_succeeded a_failed a_cancelled a_denied a_requires_approval : AuditStatus

pub record ActionExecutionAuditEntry : Type 0 where
  pub execution_id : String
  pub action : String
  pub session_id : String
  pub status : AuditStatus
  pub input : Json
  pub result : Option Value
  pub failure : Option Failure
  pub reason : Option String
  pub duration_ms : Option ℕ

-- The normalized outcomes. `replayed` marks an outcome read from a persisted row.
pub data ActionExecutionResult : Type 0 where
  completed :
      (execution_id action : String) (result : Value) (duration : ℕ) (replayed : Bool)
      → ActionExecutionResult
  failure :
      (execution_id action : String) (error : Failure) (duration : ℕ) (replayed : Bool)
      → ActionExecutionResult
  cancellation : (execution_id action reason : String) (replayed : Bool) → ActionExecutionResult
  needs_recovery : (execution_id action : String) → ActionExecutionResult
  in_progress : (execution_id action : String) (state : ActionState) → ActionExecutionResult
  denied : (execution_id action reason policy : String) → ActionExecutionResult
  requires_approval :
      (execution_id action reason policy : String) (expected_version : Option ℕ)
      → ActionExecutionResult

-- What the methods throw.
pub data Error : Type 0 where
  aborted : Error
  empty_name : Error
  already_registered : String → Error
  unsupported_schema : Error
  action_not_found : String → Error
  invalid_input : String → List String → Error
  session_id_required : String → Error
  idempotency_conflict : (key action : String) → Error
  syntax_error : Error
  insert_failed : Error
  invalid_policy_result : Error
  hook_failed : String → Error
  audit_failed : Error
  no_persistence : Error
  execution_not_found : String → Error
  not_awaiting_approval : String → ActionState → Error
  action_gone : String → Error
  tables_missing : Error

pub data Result {ℓ} (A : Type ℓ) : Type ℓ where
  ok : A → Result A
  err : Error → Result A

infixl 5 ◌>>=◌
abbrev pub ◌>>=◌ {ℓ κ} : {A : Type ℓ} {B : Type κ} → Result A → (A → Result B) → Result B
ok a >>= f = f a
err e >>= f = err e

abbrev pub state_eq : ActionState → ActionState → Bool
state_eq proposed proposed = true
state_eq awaiting_approval awaiting_approval = true
state_eq running running = true
state_eq succeeded succeeded = true
state_eq failed failed = true
state_eq cancelled cancelled = true
state_eq recovery_required recovery_required = true
state_eq _ _ = false
