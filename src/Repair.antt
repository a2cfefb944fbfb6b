-- ===== src/Repair.antt =====
-- The repair of an interrupted log: packages/harness/session/src/repair.ts. An event keeps what the
-- scan reads of it; a call's message and texts follow from its id, its sequence number and whether
-- the call was started.
pub mod Balance
pub mod Tests
use rigo.Base.{
  ℕ, suc, String, Bool, true, false, List, [], ◌∷◌, ◌++◌, Option, some, none, is_some, ◌==◌, ◌≡◌,
  refl, sym, ap, ◌∙◌, arith, if◌then◌else◌, ◌⊎◌, inl, inr, Option-cases,
}
use mathlib.Core.Option

-- `error.code` of a tool result.
pub data ErrorCode : Type 0 where
  tool_not_started tool_outcome_unknown : ErrorCode
  other_code : String → ErrorCode

pub record ToolOutcome : Type 0 where
  pub turn : ℕ
  pub step : ℕ
  pub call_id : String
  pub is_error : Bool
  pub error : Option ErrorCode
  -- `surfaceOp === 'append'`
  pub appended : Bool
  pub source_event_seqs : List ℕ

-- `assistant_message` keeps the ids of its tool-call blocks, in order.
pub data Body : Type 0 where
  turn_start : (turn : ℕ) → Body
  turn_end : (turn : ℕ) (interrupted : Bool) → Body
  step_start : (turn step : ℕ) → Body
  step_end : (turn step : ℕ) → Body
  assistant_chunk : (turn step : ℕ) → Body
  assistant_message : (turn step : ℕ) (calls : List String) → Body
  tool_call : (turn step : ℕ) (call_id : String) → Body
  tool_result : ToolOutcome → Body
  user_message end_seed : Body
  todo_write request_header request_context : Body
  other_event : Body

pub record Event : Type 0 where
  pub seq : ℕ
  pub time : ℕ
  pub body : Body

pub record PendingCall : Type 0 where
  pub call_id : String
  pub step : ℕ
  pub call_seq : Option ℕ

pub record Scan : Type 0 where
  pub open_turn : Option ℕ
  pub open_step : Option ℕ
  pub pending_calls : List PendingCall

abbrev pub start_scan : Scan
start_scan = record { open_turn = none; open_step = none; pending_calls = [] }

-- `pendingCalls.set`: a key that is there keeps its place.
abbrev pub set_call : String → ℕ → List PendingCall → List PendingCall
set_call i step [] = record { call_id = i; step = step; call_seq = none } ∷ []
set_call i step (c ∷ cs) =
    let rest = set_call i step cs in
    if c.call_id == i then record { call_id = i; step = step; call_seq = none } ∷ cs else c ∷ rest

abbrev pub register_calls : ℕ → List String → List PendingCall → List PendingCall
register_calls step [] cs = cs
register_calls step (i ∷ is) cs = register_calls step is (set_call i step cs)

abbrev pub cite_call : String → ℕ → List PendingCall → List PendingCall
cite_call i seq [] = []
cite_call i seq (c ∷ cs) =
    (if c.call_id == i then record c { call_seq = some seq } else c) ∷ cite_call i seq cs

abbrev pub delete_call : String → List PendingCall → List PendingCall
delete_call i [] = []
delete_call i (c ∷ cs) = let rest = delete_call i cs in if c.call_id == i then rest else c ∷ rest

abbrev pub scan_event : Body → ℕ → Scan → Scan
scan_event (turn_start turn) seq s = record {
  open_turn = some turn;
  open_step = none;
  pending_calls = [];
}
scan_event (turn_end turn interrupted) seq s = record {
  open_turn = none;
  open_step = none;
  pending_calls = [];
}
scan_event (step_start turn step) seq s = record s { open_step = some step }
scan_event (step_end turn step) seq s = record s { open_step = none; pending_calls = [] }
scan_event (assistant_message turn step calls) seq s = record s {
  pending_calls = register_calls step calls s.pending_calls;
}
scan_event (tool_call turn step i) seq s = record s {
  pending_calls = cite_call i seq s.pending_calls;
}
scan_event (tool_result r) seq s = record s {
  pending_calls = delete_call r.call_id s.pending_calls;
}
scan_event _ seq s = s

unfoldable pub scan_all : List Event → Scan → Scan
scan_all [] s = s
scan_all (e ∷ es) s = scan_all es (scan_event e.body e.seq s)

abbrev pub last_event : List Event → Option Event
last_event [] = none
last_event (e ∷ []) = some e
last_event (e ∷ f ∷ es) = last_event (f ∷ es)

abbrev pub closing_code : Option ℕ → ErrorCode
closing_code none = tool_not_started
closing_code (some cited) = tool_outcome_unknown

abbrev pub cited_seqs : Option ℕ → List ℕ
cited_seqs none = []
cited_seqs (some cited) = cited ∷ []

abbrev pub close_call : ℕ → ℕ → ℕ → PendingCall → Event
close_call turn seq time c = record {
  seq = seq;
  time = time;
  body = tool_result (record {
    turn = turn;
    step = c.step;
    call_id = c.call_id;
    is_error = true;
    error = some (closing_code c.call_seq);
    appended = true;
    source_event_seqs = cited_seqs c.call_seq;
  });
}

abbrev pub close_turn : ℕ → ℕ → Option ℕ → ℕ → List Event
close_turn turn time none seq = record { seq = seq; time = time; body = turn_end turn true } ∷ []
close_turn turn time (some step) seq =
    record { seq = seq; time = time; body = step_end turn step }
    ∷ record { seq = suc seq; time = time; body = turn_end turn true }
    ∷ []

-- The pending calls first, then the open step, then the turn.
abbrev pub close_all : ℕ → ℕ → Option ℕ → List PendingCall → ℕ → List Event
close_all turn time step [] seq = close_turn turn time step seq
close_all turn time step (c ∷ cs) seq =
    close_call turn seq time c ∷ close_all turn time step cs (suc seq)

unfoldable pub interrupted_turn_closers : List Event → List Event
unfolding scan_all
interrupted_turn_closers events =
    let s = scan_all events start_scan in
    elim s.open_turn [
      | none ↦ []
      | some turn ↦ elim (last_event events) [
        | none ↦ []
        | some e ↦ close_all turn e.time s.open_step s.pending_calls (suc e.seq)
      ]
    ]
