-- ===== src/Trace/Link.antt =====
-- The repair's scan and the checked trace of one log agree.
use rigo.Base.{
  ℕ, suc, String, Bool, true, List, [], ◌∷◌, Option, some, none, ◌≡◌, refl, sym, subst, arith,
  Bool-cases, inl, inr,
}
use rigo.Repair.{
  ToolOutcome, Body, turn_start, turn_end, step_start, step_end, assistant_chunk, assistant_message,
  tool_call, tool_result, user_message, end_seed, todo_write, request_header, request_context,
  other_event, PendingCall, Scan, scan_event,
}
use rigo.Trace.{
  SessionTrace, SessionTraceTransition, accepts, apply_transition, validate_body, validate_result,
  is_number, add_call, delete_call, clear_calls, no_change, transition, scalars_of,
}
use rigo.Trace.Pending.{
  PendingAgree, Linked, register_calls-PendingAgree, cite_call-PendingAgree,
  delete_call-PendingAgree, answer-PendingAgree,
}

-- Scan and trace after an accepted event, with the trace's last number.
abbrev pub StepsTo : Scan → SessionTrace → ℕ → Body → SessionTraceTransition → Type 0
StepsTo s t seq body x =
    Linked (scan_event body seq s) (apply_transition t x)
    × ((apply_transition t x).last_seq ≡ some seq)

no_step_no_calls :
    (step : Option ℕ) (calls : List String) (cs : List PendingCall)
    → step ≡ none
    → PendingAgree step calls cs
    → cs ≡ []
no_step_no_calls step calls [] e h = refl
no_step_no_calls step calls (c ∷ cs) e h = ground (arith, e, h.0)

number_is : (o : Option ℕ) (n : ℕ) → is_number o n ≡ true → o ≡ some n
number_is none n h = ground (arith, h)
number_is (some m) n h = ground (arith, h)

module _ (s : Scan) (t : SessionTrace) (seq : ℕ) where
  -- An event that moves neither the boundaries nor the calls.
  quiet :
      (x : SessionTraceTransition)
      → x ≡ transition (scalars_of t seq) no_change
      → Linked s t
      → Linked s (apply_transition t x) × ((apply_transition t x).last_seq ≡ some seq)
  quiet x same (turns, steps, closed, agree) =
      subst (λ y. Linked s (apply_transition t y) × ((apply_transition t y).last_seq ≡ some seq))
        (sym same) ((turns, steps, closed, agree), refl)

  result-StepsTo :
      (r : ToolOutcome) (x : SessionTraceTransition)
      → validate_result t seq r ≡ accepts x
      → Linked s t
      → StepsTo s t seq (tool_result r) x
  unfolding validate_result
  result-StepsTo r x e (turns, steps, closed, agree) = elim (Bool-cases r.appended) [
    | inl appended ↦
        let same : x ≡ transition (scalars_of t seq) (delete_call r.call_id) =
          ground (arith, appended, e) in
        subst (StepsTo s t seq (tool_result r)) (sym same) (
          (
            turns,
            steps,
            closed,
            answer-PendingAgree r.call_id t.open_step t.pending_calls s.pending_calls agree,
          ),
          refl,
        )
    | inr replaced ↦
        let same : x ≡ transition (scalars_of t seq) no_change = ground (arith, replaced, e) in
        subst (StepsTo s t seq (tool_result r)) (sym same) (
          (
            turns,
            steps,
            closed,
            delete_call-PendingAgree r.call_id t.open_step t.pending_calls s.pending_calls agree,
          ),
          refl,
        )
  ]

  turn_start-StepsTo :
      (turn : ℕ) (x : SessionTraceTransition)
      → validate_body t seq (turn_start turn) ≡ accepts x
      → Linked s t
      → StepsTo s t seq (turn_start turn) x
  unfolding validate_body
  turn_start-StepsTo turn x e (turns, steps, closed, agree) =
      let same : x
          ≡ transition (record (scalars_of t seq) { open_turn = some turn; next_step = 1 })
              no_change =
        ground (arith, e) in
      let idle : t.open_turn ≡ none = ground (arith, e) in
      let between : t.open_step ≡ none = ground (arith, closed, idle) in
      subst (StepsTo s t seq (turn_start turn)) (sym same) ((refl, sym between, refl, tt), refl)

  turn_end-StepsTo :
      (turn : ℕ) (interrupted : Bool) (x : SessionTraceTransition)
      → validate_body t seq (turn_end turn interrupted) ≡ accepts x
      → Linked s t
      → StepsTo s t seq (turn_end turn interrupted) x
  unfolding validate_body
  turn_end-StepsTo turn interrupted x e (turns, steps, closed, agree) =
      let same : x
          ≡ transition (record (scalars_of t seq) { open_turn = none; next_turn = suc t.next_turn })
              no_change =
        ground (arith, e) in
      let between : t.open_step ≡ none = ground (arith, e) in
      subst (StepsTo s t seq (turn_end turn interrupted)) (sym same)
        ((refl, sym between, between, tt), refl)

  step_start-StepsTo :
      (turn step : ℕ) (x : SessionTraceTransition)
      → validate_body t seq (step_start turn step) ≡ accepts x
      → Linked s t
      → StepsTo s t seq (step_start turn step) x
  unfolding validate_body
  step_start-StepsTo turn step x e (turns, steps, closed, agree) =
      let same : x ≡ transition (record (scalars_of t seq) { open_step = some step }) no_change =
        ground (arith, e) in
      let between : t.open_step ≡ none = ground (arith, e) in
      let inside : t.open_turn ≡ some turn = number_is t.open_turn turn (ground (arith, e)) in
      let none_pending : s.pending_calls ≡ [] =
        no_step_no_calls t.open_step t.pending_calls s.pending_calls between agree in
      subst (StepsTo s t seq (step_start turn step)) (sym same)
        ((turns, refl, ground (arith, inside), rw none_pending tt), refl)

  step_end-StepsTo :
      (turn step : ℕ) (x : SessionTraceTransition)
      → validate_body t seq (step_end turn step) ≡ accepts x
      → Linked s t
      → StepsTo s t seq (step_end turn step) x
  unfolding validate_body
  step_end-StepsTo turn step x e (turns, steps, closed, agree) =
      let same : x
          ≡ transition (record (scalars_of t seq) { open_step = none; next_step = suc t.next_step })
              clear_calls =
        ground (arith, e) in
      subst (StepsTo s t seq (step_end turn step)) (sym same)
        ((turns, refl, ground arith, tt), refl)

  message-StepsTo :
      (turn step : ℕ) (calls : List String) (x : SessionTraceTransition)
      → validate_body t seq (assistant_message turn step calls) ≡ accepts x
      → Linked s t
      → StepsTo s t seq (assistant_message turn step calls) x
  unfolding validate_body
  message-StepsTo turn step calls x e (turns, steps, closed, agree) =
      let same : x ≡ transition (scalars_of t seq) no_change = ground (arith, e) in
      let inside : t.open_step ≡ some step = number_is t.open_step step (ground (arith, e)) in
      subst (StepsTo s t seq (assistant_message turn step calls)) (sym same) (
        (
          turns,
          steps,
          closed,
          register_calls-PendingAgree step calls t.open_step t.pending_calls s.pending_calls inside
              agree,
        ),
        refl,
      )

  call-StepsTo :
      (turn step : ℕ) (i : String) (x : SessionTraceTransition)
      → validate_body t seq (tool_call turn step i) ≡ accepts x
      → Linked s t
      → StepsTo s t seq (tool_call turn step i) x
  unfolding validate_body
  call-StepsTo turn step i x e (turns, steps, closed, agree) =
      let same : x ≡ transition (scalars_of t seq) (add_call i) = ground (arith, e) in
      subst (StepsTo s t seq (tool_call turn step i)) (sym same) (
        (
          turns,
          steps,
          closed,
          cite_call-PendingAgree i seq t.open_step t.pending_calls s.pending_calls agree,
        ),
        refl,
      )

  pub validate_body-StepsTo :
      (body : Body) (x : SessionTraceTransition)
      → validate_body t seq body ≡ accepts x
      → Linked s t
      → StepsTo s t seq body x
  unfolding validate_body
  validate_body-StepsTo (turn_start turn) x e h = turn_start-StepsTo turn x e h
  validate_body-StepsTo (turn_end turn interrupted) x e h = turn_end-StepsTo turn interrupted x e h
  validate_body-StepsTo (step_start turn step) x e h = step_start-StepsTo turn step x e h
  validate_body-StepsTo (step_end turn step) x e h = step_end-StepsTo turn step x e h
  validate_body-StepsTo (assistant_chunk turn step) x e h = quiet x (ground (arith, e)) h
  validate_body-StepsTo (assistant_message turn step calls) x e h =
      message-StepsTo turn step calls x e h
  validate_body-StepsTo (tool_call turn step i) x e h = call-StepsTo turn step i x e h
  validate_body-StepsTo (tool_result r) x e h = result-StepsTo r x e h
  validate_body-StepsTo user_message x e h = quiet x (ground (arith, e)) h
  validate_body-StepsTo end_seed x e h = quiet x (ground (arith, e)) h
  validate_body-StepsTo todo_write x e h = quiet x (ground (arith, e)) h
  validate_body-StepsTo request_header x e h = quiet x (ground (arith, e)) h
  validate_body-StepsTo request_context x e h = quiet x (ground (arith, e)) h
  validate_body-StepsTo other_event x e h = quiet x (ground (arith, e)) h
