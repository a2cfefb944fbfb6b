-- ===== src/Repair/Tests.antt =====
-- A log that breaks off inside a step, with one call that was started and one that was not.
use rigo.Base.{ℕ, String, true, List, [], ◌∷◌, ◌++◌, some, none, ◌≡◌, refl}
use rigo.Repair.{
  Event, Body, ErrorCode, turn_start, step_start, assistant_message, tool_call, tool_result,
  step_end, turn_end, tool_not_started, tool_outcome_unknown, interrupted_turn_closers, scan_all,
  start_scan,
}
use rigo.Repair.Balance.{
  Follow, answered_calls, call_ids, interrupted_turn_closers_once, interrupted_turn_closers_answer,
}

abbrev at_seq : ℕ → Body → Event
at_seq n body = record { seq = n; time = 7; body = body }

abbrev closing : String → ErrorCode → List ℕ → Body
closing i code sources = tool_result (record {
  turn = 1;
  step = 1;
  call_id = i;
  is_error = true;
  error = some code;
  appended = true;
  source_event_seqs = sources;
})

abbrev broken : List Event
broken =
    at_seq 0 (turn_start 1)
    ∷ at_seq 1 (step_start 1 1)
    ∷ at_seq 2 (assistant_message 1 1 ("c1" ∷ "c2" ∷ []))
    ∷ at_seq 3 (tool_call 1 1 "c1")
    ∷ []

broken_closers :
    interrupted_turn_closers broken
    ≡ at_seq 4 (closing "c1" tool_outcome_unknown (3 ∷ []))
      ∷ at_seq 5 (closing "c2" tool_not_started [])
      ∷ at_seq 6 (step_end 1 1)
      ∷ at_seq 7 (turn_end 1 true)
      ∷ []
unfolding interrupted_turn_closers
broken_closers = refl

interrupted_turn_closers_once_example :
    ((scan_all (broken ++ interrupted_turn_closers broken) start_scan).open_turn ≡ none)
    × (interrupted_turn_closers (broken ++ interrupted_turn_closers broken) ≡ [])
interrupted_turn_closers_once_example = interrupted_turn_closers_once broken

interrupted_turn_closers_answer_example :
    Follow 4 (interrupted_turn_closers broken)
    × (answered_calls (interrupted_turn_closers broken)
        ≡ call_ids (scan_all broken start_scan).pending_calls)
unfolding scan_all
interrupted_turn_closers_answer_example =
    interrupted_turn_closers_answer broken 1 (at_seq 3 (tool_call 1 1 "c1")) refl refl
