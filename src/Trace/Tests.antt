-- ===== src/Trace/Tests.antt =====
-- The broken log of the repair, checked.
use rigo.Base.{ℕ, List, [], ◌∷◌, ◌++◌, some, ◌≡◌, refl}
use rigo.Repair.{
  Event, Body, turn_start, step_start, step_end, assistant_message, tool_call,
  interrupted_turn_closers,
}
use rigo.Trace.{SessionTrace, fresh_trace, seed_session, accepts, fails, not_the_open_step}
use rigo.Trace.Repaired.{Closes, interrupted_turn_closers-Closes}

abbrev at_seq : ℕ → Body → Event
at_seq n body = record { seq = n; time = 7; body = body }

abbrev broken : List Event
broken =
    at_seq 0 (turn_start 1)
    ∷ at_seq 1 (step_start 1 1)
    ∷ at_seq 2 (assistant_message 1 1 ("c1" ∷ "c2" ∷ []))
    ∷ at_seq 3 (tool_call 1 1 "c1")
    ∷ []

abbrev broken_trace : SessionTrace
broken_trace = record {
  last_seq = some 3;
  open_turn = some 1;
  open_step = some 1;
  next_turn = 1;
  next_step = 1;
  pending_calls = "c1" ∷ [];
}

broken_accepted : seed_session broken fresh_trace ≡ accepts broken_trace
unfolding seed_session
broken_accepted = refl

-- A step that ends under another number.
misnumbered :
    seed_session
      (at_seq 0 (turn_start 1) ∷ at_seq 1 (step_start 1 1) ∷ at_seq 2 (step_end 1 2) ∷ [])
      fresh_trace
    ≡ fails not_the_open_step
unfolding seed_session
misnumbered = refl

interrupted_turn_closers-Closes_example :
    Closes (broken ++ interrupted_turn_closers broken) fresh_trace
interrupted_turn_closers-Closes_example =
    interrupted_turn_closers-Closes broken broken_trace broken_accepted
