-- ===== src/Trace/Repaired.antt =====
-- A log that passes the checks still passes them with its repair appended.
use rigo.Base.{
  ℕ, suc, String, true, false, List, [], ◌∷◌, ◌++◌, Option, some, none, ◌==◌, ◌≡◌, refl, sym, ap,
  subst, ◌∙◌, arith, Option-cases, inl, inr, ◌⊎◌,
}
use rigo.Repair.{
  Event, turn_end, step_end, PendingCall, Scan, scan_event, scan_all, start_scan, last_event,
  close_call, close_turn, close_all, interrupted_turn_closers,
}
use rigo.Repair.Balance.{scan_open_last, opened_closers, closed_is_closed}
use rigo.Trace.{
  SessionTrace, fresh_trace, SessionTraceTransition, Verdict, accepts, fails, Violation,
  remove_call, apply_transition, validate_event, validate_body, validate_result, seed_session,
  increases, transition, scalars_of, delete_call, no_change, clear_calls,
}
use rigo.Trace.Link.{validate_body-StepsTo}
use rigo.Trace.Pending.{Linked, PendingAgree, has_pending, covered, has_call-remove_call}

Verdict-cases {ℓ} :
    {A : Type ℓ} (v : Verdict A) → ((a : A) × (v ≡ accepts a)) ⊎ ((x : Violation) × (v ≡ fails x))
Verdict-cases (accepts a) = inl (a, refl)
Verdict-cases (fails x) = inr (x, refl)

seed_session-append :
    (es fs : List Event) (t u : SessionTrace)
    → seed_session es t ≡ accepts u
    → seed_session (es ++ fs) t ≡ seed_session fs u
unfolding seed_session
seed_session-append [] fs t u h = ground (arith, h)
seed_session-append (e ∷ es) fs t u h = elim (Verdict-cases (validate_event t e)) [
  | inl (x, passed) ↦ ground (arith, passed, h, seed_session-append es fs (apply_transition t x) u)
  | inr (v, failed) ↦ ground (arith, failed, h)
]

validate_event-body :
    (t : SessionTrace) (e : Event) (x : SessionTraceTransition)
    → validate_event t e ≡ accepts x
    → validate_body t e.seq e.body ≡ accepts x
unfolding validate_event
validate_event-body t e x h = ground (arith, h)

abbrev last_seq_from : Option ℕ → List Event → Option ℕ
last_seq_from last [] = last
last_seq_from last (e ∷ es) = last_seq_from (some e.seq) es

last_seq_from-last_event :
    (last : Option ℕ) (e : Event) (es : List Event) (f : Event)
    → last_event (e ∷ es) ≡ some f
    → last_seq_from last (e ∷ es) ≡ some f.seq
last_seq_from-last_event last e [] f found = ground (arith, found)
last_seq_from-last_event last e (e2 ∷ es) f found =
    last_seq_from-last_event (some e.seq) e2 es f found

-- The scan stays linked to the trace, and the trace knows the last number.
seed_session-Linked :
    (es : List Event) (s : Scan) (t u : SessionTrace)
    → seed_session es t ≡ accepts u
    → Linked s t
    → Linked (scan_all es s) u × (u.last_seq ≡ last_seq_from t.last_seq es)
unfolding seed_session scan_all
seed_session-Linked [] s t u h linked =
    let same : t ≡ u = ground (arith, h) in
    (subst (Linked s) same linked, ap (λ v. v.last_seq) (sym same))
seed_session-Linked (e ∷ es) s t u h linked = elim (Verdict-cases (validate_event t e)) [
  | inl (x, passed) ↦
      let stepped =
        validate_body-StepsTo s t e.seq e.body x (validate_event-body t e x passed) linked in
      let rest =
        seed_session-Linked es (scan_event e.body e.seq s) (apply_transition t x) u
          (ground (arith, passed, h)) stepped.0 in
      (rest.0, rest.1 ∙ ap (λ o. last_seq_from o es) stepped.1)
  | inr (v, failed) ↦ ground (arith, failed, h)
]

remove_call-PendingAgree :
    (i : String) (step : Option ℕ) (calls : List String) (cs : List PendingCall)
    → has_pending i cs ≡ false
    → PendingAgree step calls cs
    → PendingAgree step (remove_call i calls) cs
remove_call-PendingAgree i step calls [] fresh h = tt
remove_call-PendingAgree i step calls (c ∷ cs) fresh h =
    let other : (c.call_id == i) ≡ false = ground (arith, fresh) in
    (
      h.0,
      ground (arith, h.1, has_call-remove_call c.call_id i calls other),
      h.2,
      remove_call-PendingAgree i step calls cs (ground (arith, fresh)) h.3,
    )

-- A trace in which the turn and the step are open.
abbrev Opened : SessionTrace → ℕ → Option ℕ → ℕ → Type 0
Opened t turn step seq =
    (t.open_turn ≡ some turn) × (t.open_step ≡ step) × (increases t.last_seq seq ≡ true)

-- The trace after the closer of a call.
abbrev answered_trace : SessionTrace → ℕ → String → SessionTrace
answered_trace t seq i = apply_transition t (transition (scalars_of t seq) (delete_call i))

close_call_accepted :
    (turn time seq : ℕ) (step : Option ℕ) (c : PendingCall) (t : SessionTrace)
    → Opened t turn step seq
    → step ≡ some c.step
    → covered t.pending_calls c ≡ true
    → validate_event t (close_call turn seq time c)
      ≡ accepts (transition (scalars_of t seq) (delete_call c.call_id))
unfolding validate_event validate_body validate_result
close_call_accepted turn time seq step c t opened inside covers =
    ground (arith, opened, inside, covers)

-- The events are accepted and leave no turn and no step open.
abbrev pub Closes : List Event → SessionTrace → Type 0
Closes es t =
    (u : SessionTrace) × (seed_session es t ≡ accepts u)
    × (u.open_turn ≡ none)
    × (u.open_step ≡ none)

Closes-cons :
    (e : Event) (es : List Event) (t : SessionTrace) (x : SessionTraceTransition)
    → validate_event t e ≡ accepts x
    → Closes es (apply_transition t x)
    → Closes (e ∷ es) t
unfolding seed_session
Closes-cons e es t x passed (u, seeded, turns, steps) =
    (u, ground (arith, passed, seeded), turns, steps)

Closes-nil : (t : SessionTrace) → t.open_turn ≡ none → t.open_step ≡ none → Closes [] t
unfolding seed_session
Closes-nil t turns steps = (t, refl, turns, steps)

abbrev turn_over : SessionTrace → ℕ → SessionTraceTransition
turn_over t seq =
    transition (record (scalars_of t seq) { open_turn = none; next_turn = suc t.next_turn })
      no_change

abbrev step_over : SessionTrace → ℕ → SessionTraceTransition
step_over t seq =
    transition (record (scalars_of t seq) { open_step = none; next_step = suc t.next_step })
      clear_calls

turn_end_accepted :
    (turn time seq : ℕ) (t : SessionTrace)
    → Opened t turn none seq
    → validate_event t (record { seq = seq; time = time; body = turn_end turn true })
      ≡ accepts (turn_over t seq)
unfolding validate_event validate_body
turn_end_accepted turn time seq t opened = ground (arith, opened)

step_end_accepted :
    (turn step time seq : ℕ) (t : SessionTrace)
    → Opened t turn (some step) seq
    → validate_event t (record { seq = seq; time = time; body = step_end turn step })
      ≡ accepts (step_over t seq)
unfolding validate_event validate_body
step_end_accepted turn step time seq t opened = ground (arith, opened)

turn_end-Closes :
    (turn time seq : ℕ) (t : SessionTrace)
    → Opened t turn none seq
    → Closes (record { seq = seq; time = time; body = turn_end turn true } ∷ []) t
turn_end-Closes turn time seq t opened =
    Closes-cons _ [] t (turn_over t seq) (turn_end_accepted turn time seq t opened)
      (Closes-nil (apply_transition t (turn_over t seq)) refl opened.1)

close_turn-Closes :
    (turn time seq : ℕ) (step : Option ℕ) (t : SessionTrace)
    → Opened t turn step seq
    → Closes (close_turn turn time step seq) t
close_turn-Closes turn time seq none t opened = turn_end-Closes turn time seq t opened
close_turn-Closes turn time seq (some step) t opened =
    Closes-cons _ _ t (step_over t seq) (step_end_accepted turn step time seq t opened) (
      turn_end-Closes turn time (suc seq) (apply_transition t (step_over t seq))
        (opened.0, refl, ground arith))

close_all-Closes :
    (turn time : ℕ) (step : Option ℕ) (cs : List PendingCall) (seq : ℕ) (t : SessionTrace)
    → Opened t turn step seq
    → PendingAgree step t.pending_calls cs
    → Closes (close_all turn time step cs seq) t
close_all-Closes turn time step [] seq t opened agree =
    close_turn-Closes turn time seq step t opened
close_all-Closes turn time step (c ∷ cs) seq t opened agree =
    Closes-cons _ _ t (transition (scalars_of t seq) (delete_call c.call_id))
      (close_call_accepted turn time seq step c t opened agree.0 agree.1)
      (close_all-Closes turn time step cs (suc seq) (answered_trace t seq c.call_id)
        (opened.0, opened.1, ground arith)
        (remove_call-PendingAgree c.call_id step t.pending_calls cs agree.2 agree.3))

fresh-Linked : Linked start_scan fresh_trace
fresh-Linked = (refl, refl, refl, tt)

-- The repair of a log with an open turn.
closers-Closes :
    (e : Event) (es : List Event) (t : SessionTrace) (turn : ℕ) (f : Event)
    → seed_session (e ∷ es) fresh_trace ≡ accepts t
    → (scan_all (e ∷ es) start_scan).open_turn ≡ some turn
    → last_event (e ∷ es) ≡ some f
    → Closes (interrupted_turn_closers (e ∷ es)) t
closers-Closes e es t turn f seeded opened found =
    let s = scan_all (e ∷ es) start_scan in
    let (linked, last) =
      seed_session-Linked (e ∷ es) start_scan fresh_trace t seeded fresh-Linked in
    let after = last ∙ last_seq_from-last_event none e es f found in
    let given = opened_closers (e ∷ es) turn f opened found in
    subst (λ fs. Closes fs t) (sym given)
      (close_all-Closes turn f.time s.open_step s.pending_calls (suc f.seq) t
        (sym linked.0 ∙ opened, sym linked.1, ground (arith, after)) (rw linked.1 linked.3))

Closes-append :
    (es fs : List Event) (t u : SessionTrace)
    → seed_session es t ≡ accepts u
    → Closes fs u
    → Closes (es ++ fs) t
Closes-append es fs t u seeded (v, rest, turns, steps) =
    (v, seed_session-append es fs t u seeded ∙ rest, turns, steps)

-- The repair of a log with no open turn is empty.
closed-Closes :
    (events : List Event) (t : SessionTrace)
    → seed_session events fresh_trace ≡ accepts t
    → (scan_all events start_scan).open_turn ≡ none
    → Closes (interrupted_turn_closers events) t
closed-Closes events t seeded closed =
    let linked = (seed_session-Linked events start_scan fresh_trace t seeded fresh-Linked).0 in
    let turns : t.open_turn ≡ none = sym linked.0 ∙ closed in
    let steps : t.open_step ≡ none = ground (arith, linked.2, turns) in
    subst (λ fs. Closes fs t) (sym (closed_is_closed events closed)) (Closes-nil t turns steps)

-- A log whose events all pass the relational checks passes them with its repair appended, and then
-- no turn and no step is open.
pub interrupted_turn_closers-Closes :
    (events : List Event) (t : SessionTrace)
    → seed_session events fresh_trace ≡ accepts t
    → Closes (events ++ interrupted_turn_closers events) fresh_trace
unfolding seed_session scan_all
interrupted_turn_closers-Closes [] t seeded = closed-Closes [] fresh_trace refl refl
interrupted_turn_closers-Closes (e ∷ es) t seeded =
    Closes-append (e ∷ es) (interrupted_turn_closers (e ∷ es)) fresh_trace t seeded
      (elim (Option-cases (scan_all (e ∷ es) start_scan).open_turn) [
        | inl closed ↦ closed-Closes (e ∷ es) t seeded closed
        | inr (turn, opened) ↦
            let (f, found) = scan_open_last e es in closers-Closes e es t turn f seeded opened found
      ])
