-- ===== src/Trace.antt =====
-- The relational checks of a session's log: packages/harness/session/src/invariant.ts, on the
-- events that the repair reads. A set of call ids is a list; the last sequence number is none
-- before the first event.
pub mod Pending
pub mod Link
pub mod Repaired
pub mod Tests
use rigo.Base.{
  ℕ, suc, String, Bool, true, false, not, List, [], ◌∷◌, Option, some, none, is_some, ◌==◌, ◌&&◌,
  ◌||◌, nat_eq, leb, if◌then◌else◌,
}
use mathlib.Core.Option
use rigo.Repair.{
  ErrorCode, tool_not_started, ToolOutcome, Body, Event, turn_start, turn_end, step_start, step_end,
  assistant_chunk, assistant_message, tool_call, tool_result, user_message, end_seed, todo_write,
  request_header, request_context, other_event,
}

pub record SessionTrace : Type 0 where
  pub last_seq : Option ℕ
  pub open_turn : Option ℕ
  pub open_step : Option ℕ
  pub next_turn : ℕ
  pub next_step : ℕ
  pub pending_calls : List String

abbrev pub fresh_trace : SessionTrace
fresh_trace = record {
  last_seq = none;
  open_turn = none;
  open_step = none;
  next_turn = 1;
  next_step = 1;
  pending_calls = [];
}

pub data PendingChange : Type 0 where
  no_change : PendingChange
  add_call : String → PendingChange
  delete_call : String → PendingChange
  clear_calls : PendingChange

pub record Scalars : Type 0 where
  pub last_seq : Option ℕ
  pub open_turn : Option ℕ
  pub open_step : Option ℕ
  pub next_turn : ℕ
  pub next_step : ℕ

pub record SessionTraceTransition : Type 0 where
  pub scalars : Scalars
  pub pending_calls : PendingChange

-- What `fail` reports.
pub data Violation : Type 0 where
  seq_not_increasing turn_still_open unexpected_turn no_matching_turn step_still_open : Violation
  wrong_turn_of_step unexpected_step not_the_open_step outside_turn : Violation
  no_prior_call : String → Violation

pub data Verdict {ℓ} (A : Type ℓ) : Type ℓ where
  accepts : A → Verdict A
  fails : Violation → Verdict A

-- `===` of a number that may be null with a number.
abbrev pub is_number : Option ℕ → ℕ → Bool
is_number none n = false
is_number (some m) n = nat_eq m n

abbrev pub has_call : String → List String → Bool
has_call i [] = false
has_call i (j ∷ js) = if j == i then true else has_call i js

abbrev pub remove_call : String → List String → List String
remove_call i [] = []
remove_call i (j ∷ js) = let rest = remove_call i js in if j == i then rest else j ∷ rest

abbrev pub scalars_of : SessionTrace → ℕ → Scalars
scalars_of t seq = record {
  last_seq = some seq;
  open_turn = t.open_turn;
  open_step = t.open_step;
  next_turn = t.next_turn;
  next_step = t.next_step;
}

abbrev pub transition : Scalars → PendingChange → SessionTraceTransition
transition scalars change = record { scalars = scalars; pending_calls = change }

-- `requireOpenStep`
abbrev pub is_open_step : SessionTrace → ℕ → ℕ → Bool
is_open_step t turn step = is_number t.open_turn turn && is_number t.open_step step

abbrev pub is_not_started : ToolOutcome → Bool
is_not_started r = elim r.error [ some tool_not_started ↦ r.is_error | _ ↦ false ]

unfoldable pub validate_result : SessionTrace → ℕ → ToolOutcome → Verdict SessionTraceTransition
validate_result t seq r =
    if not r.appended
    then if is_some t.open_turn
      then accepts (transition (scalars_of t seq) no_change)
      else fails outside_turn
    else if not (is_open_step t r.turn r.step)
    then fails not_the_open_step
    else if has_call r.call_id t.pending_calls || is_not_started r
    then accepts (transition (scalars_of t seq) (delete_call r.call_id))
    else fails (no_prior_call r.call_id)

-- The switch over the event's type.
unfoldable pub validate_body : SessionTrace → ℕ → Body → Verdict SessionTraceTransition
unfolding validate_result
validate_body t seq (turn_start turn) =
    if is_some t.open_turn
    then fails turn_still_open
    else if not (nat_eq turn t.next_turn)
    then fails unexpected_turn
    else accepts
        (transition (record (scalars_of t seq) { open_turn = some turn; next_step = 1 }) no_change)
validate_body t seq (turn_end turn interrupted) =
    if not (is_number t.open_turn turn)
    then fails no_matching_turn
    else if is_some t.open_step
    then fails step_still_open
    else accepts (
        transition (record (scalars_of t seq) { open_turn = none; next_turn = suc t.next_turn })
          no_change)
validate_body t seq (step_start turn step) =
    if not (is_number t.open_turn turn)
    then fails wrong_turn_of_step
    else if is_some t.open_step
    then fails step_still_open
    else if not (nat_eq step t.next_step)
    then fails unexpected_step
    else accepts (transition (record (scalars_of t seq) { open_step = some step }) no_change)
validate_body t seq (step_end turn step) =
    if not (is_open_step t turn step)
    then fails not_the_open_step
    else accepts (
        transition (record (scalars_of t seq) { open_step = none; next_step = suc t.next_step })
          clear_calls)
validate_body t seq (assistant_chunk turn step) =
    if is_open_step t turn step
    then accepts (transition (scalars_of t seq) no_change)
    else fails not_the_open_step
validate_body t seq (assistant_message turn step calls) =
    if is_open_step t turn step
    then accepts (transition (scalars_of t seq) no_change)
    else fails not_the_open_step
validate_body t seq (tool_call turn step i) =
    if is_open_step t turn step
    then accepts (transition (scalars_of t seq) (add_call i))
    else fails not_the_open_step
validate_body t seq (tool_result r) = validate_result t seq r
validate_body t seq todo_write =
    if is_some t.open_turn
    then accepts (transition (scalars_of t seq) no_change)
    else fails outside_turn
validate_body t seq request_header =
    if is_some t.open_turn
    then accepts (transition (scalars_of t seq) no_change)
    else fails outside_turn
validate_body t seq request_context =
    if is_some t.open_turn
    then accepts (transition (scalars_of t seq) no_change)
    else fails outside_turn
validate_body t seq _ = accepts (transition (scalars_of t seq) no_change)

-- `seq > lastSeq`, where -1 stands before the first.
abbrev pub increases : Option ℕ → ℕ → Bool
increases none seq = true
increases (some last) seq = not (leb seq last)

unfoldable pub validate_event : SessionTrace → Event → Verdict SessionTraceTransition
unfolding validate_body
validate_event t e =
    if increases t.last_seq e.seq then validate_body t e.seq e.body else fails seq_not_increasing

abbrev pub change_calls : PendingChange → List String → List String
change_calls no_change is = is
change_calls (add_call i) is = if has_call i is then is else i ∷ is
change_calls (delete_call i) is = remove_call i is
change_calls clear_calls is = []

abbrev pub apply_transition : SessionTrace → SessionTraceTransition → SessionTrace
apply_transition t x = record {
  last_seq = x.scalars.last_seq;
  open_turn = x.scalars.open_turn;
  open_step = x.scalars.open_step;
  next_turn = x.scalars.next_turn;
  next_step = x.scalars.next_step;
  pending_calls = change_calls x.pending_calls t.pending_calls;
}

-- The loop of `seedSession`.
unfoldable pub seed_session : List Event → SessionTrace → Verdict SessionTrace
unfolding validate_event
seed_session [] t = accepts t
seed_session (e ∷ es) t = elim (validate_event t e) [
  | fails v ↦ fails v
  | accepts x ↦ seed_session es (apply_transition t x)
]
