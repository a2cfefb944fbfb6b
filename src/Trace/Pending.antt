-- ===== src/Trace/Pending.antt =====
-- The pending calls of the repair's scan and of the trace agree.
use rigo.Base.{
  ℕ, String, Bool, true, false, List, [], ◌∷◌, Option, some, none, is_some, ◌==◌, ◌≡◌, refl, ap,
  arith, eq_iff, if◌then◌else◌, Bool-cases, inl, inr,
}
use rigo.Repair.{
  ToolOutcome, Body, Event, turn_start, turn_end, step_start, step_end, assistant_chunk,
  assistant_message, tool_call, tool_result, user_message, end_seed, todo_write, request_header,
  request_context, other_event, PendingCall, Scan, set_call, register_calls, cite_call, scan_event,
  scan_all, start_scan,
}
use rigo.Repair
use rigo.Trace.{SessionTrace, has_call, remove_call, change_calls, add_call}

abbrev pub has_pending : String → List PendingCall → Bool
has_pending i [] = false
has_pending i (c ∷ cs) = if c.call_id == i then true else has_pending i cs

-- A cited call was added to the trace and is not answered there.
abbrev pub covered : List String → PendingCall → Bool
covered calls c = if is_some c.call_seq then has_call c.call_id calls else true

-- The scan's pending calls belong to the open step, each once.
abbrev pub PendingAgree : Option ℕ → List String → List PendingCall → Type 0
PendingAgree step calls [] = Unit
PendingAgree step calls (c ∷ cs) =
    (step ≡ some c.step)
    × (covered calls c ≡ true)
    × (has_pending c.call_id cs ≡ false)
    × PendingAgree step calls cs

abbrev pub Linked : Scan → SessionTrace → Type 0
Linked s t =
    (s.open_turn ≡ t.open_turn)
    × (s.open_step ≡ t.open_step)
    × ((if is_some t.open_turn then none else t.open_step) ≡ none)
    × PendingAgree t.open_step t.pending_calls s.pending_calls

has_pending-set_call :
    (j i : String) (step : ℕ) (cs : List PendingCall)
    → has_pending j (set_call i step cs) ≡ (if i == j then true else has_pending j cs)
has_pending-set_call j i step [] = refl
has_pending-set_call j i step (c ∷ cs) =
    ground
      (arith, eq_iff c.call_id i, eq_iff c.call_id j, eq_iff i j, has_pending-set_call j i step cs)

set_call-PendingAgree :
    (i : String) (step : ℕ) (open_step : Option ℕ) (calls : List String) (cs : List PendingCall)
    → open_step ≡ some step
    → PendingAgree open_step calls cs
    → PendingAgree open_step calls (set_call i step cs)
set_call-PendingAgree i step open_step calls [] e h = (e, refl, refl, tt)
set_call-PendingAgree i step open_step calls (c ∷ cs) e h = elim (Bool-cases (c.call_id == i)) [
  | inl same ↦ ground (arith, same, eq_iff c.call_id i, e, h)
  | inr other ↦ ground (
    arith,
    other,
    eq_iff c.call_id i,
    eq_iff i c.call_id,
    has_pending-set_call c.call_id i step cs,
    set_call-PendingAgree i step open_step calls cs e h.3,
    h,
  )
]

pub register_calls-PendingAgree :
    (step : ℕ) (is : List String) (open_step : Option ℕ) (calls : List String)
    (cs : List PendingCall)
    → open_step ≡ some step
    → PendingAgree open_step calls cs
    → PendingAgree open_step calls (register_calls step is cs)
register_calls-PendingAgree step [] open_step calls cs e h = h
register_calls-PendingAgree step (i ∷ is) open_step calls cs e h =
    register_calls-PendingAgree step is open_step calls (set_call i step cs) e
      (set_call-PendingAgree i step open_step calls cs e h)

has_pending-cite_call :
    (j i : String) (seq : ℕ) (cs : List PendingCall)
    → has_pending j (cite_call i seq cs) ≡ has_pending j cs
has_pending-cite_call j i seq [] = refl
has_pending-cite_call j i seq (c ∷ cs) = ground (arith, has_pending-cite_call j i seq cs)

same_call :
    (j i : String) (calls : List String) → (i == j) ≡ true → has_call i calls ≡ has_call j calls
same_call j i calls e = ap (λ k. has_call k calls) ((eq_iff i j).0 e)

has_call-add :
    (j i : String) (calls : List String)
    → has_call j (change_calls (add_call i) calls) ≡ (if i == j then true else has_call j calls)
has_call-add j i calls = elim (Bool-cases (has_call i calls)) [
  | inl known ↦ ground (arith, known, same_call j i calls)
  | inr new ↦ ground (arith, new)
]

pub cite_call-PendingAgree :
    (i : String) (seq : ℕ) (open_step : Option ℕ) (calls : List String) (cs : List PendingCall)
    → PendingAgree open_step calls cs
    → PendingAgree open_step (change_calls (add_call i) calls) (cite_call i seq cs)
cite_call-PendingAgree i seq open_step calls [] h = tt
cite_call-PendingAgree i seq open_step calls (c ∷ cs) h = (
  ground (arith, h.0),
  ground (arith, h.1, eq_iff c.call_id i, eq_iff i c.call_id, has_call-add c.call_id i calls),
  ground (arith, h.2, has_pending-cite_call c.call_id i seq cs),
  cite_call-PendingAgree i seq open_step calls cs h.3,
)

has_pending-delete_call :
    (j i : String) (cs : List PendingCall)
    → has_pending j cs ≡ false
    → has_pending j (Repair.delete_call i cs) ≡ false
has_pending-delete_call j i [] h = refl
has_pending-delete_call j i (c ∷ cs) h = ground (arith, h, has_pending-delete_call j i cs)

-- A call is dropped by the scan alone.
pub delete_call-PendingAgree :
    (i : String) (open_step : Option ℕ) (calls : List String) (cs : List PendingCall)
    → PendingAgree open_step calls cs
    → PendingAgree open_step calls (Repair.delete_call i cs)
delete_call-PendingAgree i open_step calls [] h = tt
delete_call-PendingAgree i open_step calls (c ∷ cs) h = ground (
  arith,
  h,
  has_pending-delete_call c.call_id i cs h.2,
  delete_call-PendingAgree i open_step calls cs h.3,
)

pub has_call-remove_call :
    (j i : String) (calls : List String)
    → (j == i) ≡ false
    → has_call j (remove_call i calls) ≡ has_call j calls
has_call-remove_call j i [] other = refl
has_call-remove_call j i (k ∷ calls) other =
    ground (arith, other, eq_iff k i, eq_iff k j, eq_iff j i, has_call-remove_call j i calls other)

-- A call is dropped by both.
pub answer-PendingAgree :
    (i : String) (open_step : Option ℕ) (calls : List String) (cs : List PendingCall)
    → PendingAgree open_step calls cs
    → PendingAgree open_step (remove_call i calls) (Repair.delete_call i cs)
answer-PendingAgree i open_step calls [] h = tt
answer-PendingAgree i open_step calls (c ∷ cs) h = elim (Bool-cases (c.call_id == i)) [
  | inl same ↦ ground (arith, same, answer-PendingAgree i open_step calls cs h.3)
  | inr other ↦ ground (
    arith,
    other,
    h,
    has_call-remove_call c.call_id i calls other,
    has_pending-delete_call c.call_id i cs h.2,
    answer-PendingAgree i open_step calls cs h.3,
  )
]
