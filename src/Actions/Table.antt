-- ===== src/Actions/Table.antt =====
-- The table `action_executions` and the statements that the service runs on it. The columns
-- `result_json` and `error_json` hold the value that is read back of the stored text;
-- `request_json` holds the text. `id` is the primary key, `(action_name, idempotency_key)` is
-- unique, and `session_id` refers to a session.
use rigo.Base.{
  ℕ, String, Bool, true, false, List, [], ◌∷◌, ◌++◌, Option, some, none, ◌==◌, ◌&&◌, ◌||◌, not,
  if◌then◌else◌, ◌≡◌, refl, arith, eq_iff, is_some, suc,
}
use mathlib.Core.Option
use rigo.Json.{Json, Text, written}
use rigo.Actions.Types.{
  SideEffectClass, ActionState, proposed, running, recovery_required, Value, undefined, json,
  circular, Failure, state_eq,
}

pub record Row : Type 0 where
  pub id : String
  pub session_id : String
  pub action_name : String
  pub side_effect : SideEffectClass
  pub state : ActionState
  pub idempotency_key : String
  pub request_json : Text
  pub result_json : Option Json
  pub error_json : Option Failure
  pub created_at : ℕ
  pub started_at : Option ℕ
  pub finished_at : Option ℕ

-- SELECT * ... WHERE id = ?
unfoldable pub select_id : String → List Row → Option Row
select_id i [] = none
select_id i (r ∷ rs) = if r.id == i then some r else select_id i rs

-- SELECT * ... WHERE action_name = ? AND idempotency_key = ?
unfoldable pub find_execution : String → String → List Row → Option Row
find_execution a k [] = none
find_execution a k (r ∷ rs) =
    if r.action_name == a && r.idempotency_key == k then some r else find_execution a k rs

unfoldable pub member : String → List String → Bool
member s [] = false
member s (t ∷ ts) = if t == s then true else member s ts

-- INSERT: refused when a constraint of the table fails.
unfoldable pub insert_row : List String → Row → List Row → Option (List Row)
unfolding member select_id find_execution
insert_row sessions r rs =
    if member r.session_id sessions
      && not (is_some (select_id r.id rs))
      && not (is_some (find_execution r.action_name r.idempotency_key rs))
    then some (rs ++ r ∷ [])
    else none

-- UPDATE ... WHERE id = ?
unfoldable pub update_id : String → (Row → Row) → List Row → List Row
update_id i f [] = []
update_id i f (r ∷ rs) = (if r.id == i then f r else r) ∷ update_id i f rs

-- `transitionState`: with `startedAt` the statement also writes `started_at`.
unfoldable pub transition_state : String → ActionState → Option ℕ → List Row → List Row
transition_state i st none = update_id i (λ r. record r { state = st })
transition_state i st (some now) = update_id i (λ r. record r { state = st; started_at = some now })

-- The text that `JSON.stringify` gives a result, as the value that is read back of it: `none` if it
-- throws.
abbrev pub result_column : Value → Option (Option Json)
result_column undefined = some none
result_column (json v) = some (some (written v))
result_column circular = none

unfoldable pub outcome_row : ActionState → Option Json → Option Failure → ℕ → Row → Row
outcome_row st result error now r = record r {
  state = st;
  result_json = result;
  error_json = error;
  finished_at = some now;
}

-- `persistOutcome`: `none` if the result cannot be serialized, and then nothing is written.
unfoldable pub persist_outcome :
    String → ActionState → Value → Option Failure → ℕ → List Row → Option (List Row)
unfolding outcome_row
persist_outcome i st result error now rs =
    Option.map (λ column. update_id i (outcome_row st column error now) rs) (result_column result)

-- `persistOutcome` with an error and no result.
unfoldable pub persist_error : String → ActionState → Failure → ℕ → List Row → List Row
unfolding outcome_row
persist_error i st error now = update_id i (outcome_row st none (some error) now)

abbrev pub is_orphan : ActionState → Bool
is_orphan st = state_eq st proposed || state_eq st running

abbrev pub recovery_failure : Failure
recovery_failure = record {
  code = some "RECOVERY_REQUIRED";
  message = "process ended before the execution finished";
}

unfoldable pub recover_row : ℕ → Row → Row
recover_row now r = record r {
  state = recovery_required;
  error_json = some recovery_failure;
  finished_at = some now;
}

-- UPDATE ... WHERE state IN ('proposed', 'running'), with the number of rows that it changes.
unfoldable pub recover_rows : ℕ → List Row → List Row × ℕ
unfolding recover_row
recover_rows now [] = ([], 0)
recover_rows now (r ∷ rs) =
    let (rest, n) = recover_rows now rs in
    if is_orphan r.state then (recover_row now r ∷ rest, suc n) else (r ∷ rest, n)

-- The laws by which the service reads the table.
pub select_id-update_id :
    (i j : String) (f : Row → Row) (rs : List Row)
    → ((r : Row) → (f r).id ≡ r.id)
    → select_id j (update_id i f rs)
      ≡ (if i == j then Option.map f (select_id j rs) else select_id j rs)
unfolding select_id update_id
select_id-update_id i j f [] same = ground arith
select_id-update_id i j f (r ∷ rs) same =
    ground
      (arith, same r, eq_iff r.id i, eq_iff r.id j, eq_iff i j, select_id-update_id i j f rs same)

pub select_id-append :
    (j : String) (rs : List Row) (r : Row)
    → select_id j (rs ++ r ∷ [])
      ≡ (if is_some (select_id j rs) then select_id j rs else if r.id == j then some r else none)
unfolding select_id
select_id-append j [] r = refl
select_id-append j (s ∷ rs) r = ground (arith, select_id-append j rs r)
