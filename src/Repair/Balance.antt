-- ===== src/Repair/Balance.antt =====
-- The repaired log is balanced, and its sequence numbers go on.
use rigo.Base.{
  ℕ, suc, String, List, [], ◌∷◌, ◌++◌, Option, some, none, ◌≡◌, refl, sym, ap, subst, ◌∙◌, arith,
  inl, inr, Option-cases,
}
use rigo.Repair.{
  Body, tool_result, Event, PendingCall, Scan, start_scan, scan_event, scan_all, last_event,
  close_call, close_all, interrupted_turn_closers,
}

scan_all-append :
    (es fs : List Event) (s : Scan) → scan_all (es ++ fs) s ≡ scan_all fs (scan_all es s)
unfolding scan_all
scan_all-append [] fs s = refl
scan_all-append (e ∷ es) fs s = scan_all-append es fs (scan_event e.body e.seq s)

close_all_ends :
    (turn time : ℕ) (step : Option ℕ) (cs : List PendingCall) (seq : ℕ) (s : Scan)
    → (scan_all (close_all turn time step cs seq) s).open_turn ≡ none
unfolding scan_all
close_all_ends turn time none [] seq s = refl
close_all_ends turn time (some step) [] seq s = refl
close_all_ends turn time step (c ∷ cs) seq s =
    close_all_ends turn time step cs (suc seq) (scan_event (close_call turn seq time c).body seq s)

append_nil : (es : List Event) → es ++ [] ≡ es
append_nil [] = refl
append_nil (e ∷ es) = ap (λ xs. e ∷ xs) (append_nil es)

pub closed_is_closed :
    (events : List Event)
    → (scan_all events start_scan).open_turn ≡ none
    → interrupted_turn_closers events ≡ []
unfolding interrupted_turn_closers
closed_is_closed events h = ground (arith, h)

pub opened_closers :
    (events : List Event) (turn : ℕ) (f : Event)
    → (scan_all events start_scan).open_turn ≡ some turn
    → last_event events ≡ some f
    → interrupted_turn_closers events
      ≡ close_all turn f.time
          (scan_all events start_scan).open_step
          (scan_all events start_scan).pending_calls
          (suc f.seq)
unfolding interrupted_turn_closers
opened_closers events turn f opened found = ground (arith, opened, found)

pub scan_open_last : (e : Event) (es : List Event) → (f : Event) × (last_event (e ∷ es) ≡ some f)
scan_open_last e [] = (e, refl)
scan_open_last e (f ∷ es) = scan_open_last f es

repaired_is_closed :
    (events : List Event)
    → (scan_all (events ++ interrupted_turn_closers events) start_scan).open_turn ≡ none
unfolding interrupted_turn_closers
repaired_is_closed [] = ground arith
repaired_is_closed (e ∷ es) =
    let events = e ∷ es in
    let s = scan_all events start_scan in
    elim (Option-cases s.open_turn) [
      | inl closed ↦
          let empty = closed_is_closed events closed in
          ap (λ fs. (scan_all (events ++ fs) start_scan).open_turn) empty
          ∙ ap (λ fs. (scan_all fs start_scan).open_turn) (append_nil events)
          ∙ closed
      | inr (turn, opened) ↦
          let (f, found) = scan_open_last e es in
          let closers = close_all turn f.time s.open_step s.pending_calls (suc f.seq) in
          let given = opened_closers events turn f opened found in
          ap (λ fs. (scan_all (events ++ fs) start_scan).open_turn) given
          ∙ ap (λ t. t.open_turn) (scan_all-append events closers start_scan)
          ∙ close_all_ends turn f.time s.open_step s.pending_calls (suc f.seq) s
    ]

-- After the closers of any log no turn is open, and a second repair appends nothing.
pub interrupted_turn_closers_once :
    (events : List Event)
    → ((scan_all (events ++ interrupted_turn_closers events) start_scan).open_turn ≡ none)
      × (interrupted_turn_closers (events ++ interrupted_turn_closers events) ≡ [])
interrupted_turn_closers_once events = (
  repaired_is_closed events,
  closed_is_closed (events ++ interrupted_turn_closers events) (repaired_is_closed events),
)

-- Each event's number follows the one before it.
abbrev pub Follow : ℕ → List Event → Type 0
Follow seq [] = Unit
Follow seq (e ∷ es) = (e.seq ≡ seq) × Follow (suc seq) es

close_all-Follow :
    (turn time : ℕ) (step : Option ℕ) (cs : List PendingCall) (seq : ℕ)
    → Follow seq (close_all turn time step cs seq)
close_all-Follow turn time none [] seq = (refl, tt)
close_all-Follow turn time (some step) [] seq = (refl, (refl, tt))
close_all-Follow turn time step (c ∷ cs) seq = (refl, close_all-Follow turn time step cs (suc seq))

abbrev pub answered : Body → List String → List String
answered (tool_result r) is = r.call_id ∷ is
answered _ is = is

-- The calls that results answer, in order.
abbrev pub answered_calls : List Event → List String
answered_calls [] = []
answered_calls (e ∷ es) = answered e.body (answered_calls es)

abbrev pub call_ids : List PendingCall → List String
call_ids [] = []
call_ids (c ∷ cs) = c.call_id ∷ call_ids cs

close_all-answered :
    (turn time : ℕ) (step : Option ℕ) (cs : List PendingCall) (seq : ℕ)
    → answered_calls (close_all turn time step cs seq) ≡ call_ids cs
close_all-answered turn time none [] seq = refl
close_all-answered turn time (some step) [] seq = refl
close_all-answered turn time step (c ∷ cs) seq = elim (Option-cases c.call_seq) [
  | inl fresh ↦ ground (arith, fresh, close_all-answered turn time step cs (suc seq))
  | inr (cited, there) ↦ ground (arith, there, close_all-answered turn time step cs (suc seq))
]

-- The closers of a log with an open turn go on from the last number, and answer exactly the calls
-- that were pending, in their order.
pub interrupted_turn_closers_answer :
    (events : List Event) (turn : ℕ) (f : Event)
    → (scan_all events start_scan).open_turn ≡ some turn
    → last_event events ≡ some f
    → Follow (suc f.seq) (interrupted_turn_closers events)
      × (answered_calls (interrupted_turn_closers events)
          ≡ call_ids (scan_all events start_scan).pending_calls)
interrupted_turn_closers_answer events turn f opened found =
    let s = scan_all events start_scan in
    let given = opened_closers events turn f opened found in
    (
      subst (Follow (suc f.seq)) (sym given)
          (close_all-Follow turn f.time s.open_step s.pending_calls (suc f.seq)),
      ap answered_calls given
          ∙ close_all-answered turn f.time s.open_step s.pending_calls (suc f.seq),
    )
