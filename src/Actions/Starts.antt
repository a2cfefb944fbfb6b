-- ===== src/Actions/Starts.antt =====
-- The effects of `resume`, `cancel_execution`, `admit` and the recovery pass.
use rigo.Base.{
  ℕ, String, Bool, true, false, List, [], ◌∷◌, some, ◌==◌, ◌≡◌, ◌≢◌, ◌⊎◌, inl, inr, refl, arith,
  eq_iff, is_empty, if◌then◌else◌, Bool-cases, Option-cases, ap,
}
use mathlib.Core.Option
use rigo.Json.{Json, parse}
use rigo.Actions.Types.{
  running, awaiting_approval, cancelled, ok, err, Result, state_eq, Error, action_gone,
  syntax_error, invalid_input, no_persistence, a_running, ActionDefinition,
}
use rigo.Actions.Table.{Row, select_id}
use rigo.Actions.Registry.{Service, find_definition}
use rigo.Actions.Execute.{Task, Answers, entry}
use rigo.Actions.Service.{
  resume, resume_persisted, cancel_persisted, revalidate, launch_resumed, cancel_execution,
  resumed_task,
}
use rigo.Actions.Effects.{
  state_of, state_of-transition_state, state_of-persist_error, Effect, record_audit_cases,
}

select_id-id : (i : String) (rs : List Row) (r : Row) → select_id i rs ≡ some r → r.id ≡ i
unfolding select_id
select_id-id i [] r e = cc
select_id-id i (x ∷ rs) r e = ground (arith, eq_iff x.id i, select_id-id i rs r)

state_of_found :
    (i : String) (rs : List Row) (r : Row)
    → select_id i rs ≡ some r
    → state_eq r.state awaiting_approval ≡ true
    → state_of r.id rs ≡ some awaiting_approval
unfolding state_of
state_of_found i rs r e w = rw (select_id-id i rs r e, e) (ground arith)

-- A cancellation of one row that awaits approval.
pub record Cancelled {Schema : Type 0} (id : String) (s s' : Service Schema) : Type 0 where
  pub waiting : state_of id s.rows ≡ some awaiting_approval
  pub states :
      (j : String)
      → state_of j s'.rows
        ≡ (if id == j then Option.map (λ _. cancelled) (state_of j s.rows) else state_of j s.rows)
  pub launches : s'.launches ≡ s.launches
  pub driver : s'.has_driver ≡ s.has_driver

module _ {Schema : Type 0} where
  abbrev pub Cancels : String → Service Schema → Service Schema → Type 0
  Cancels id s s' = (s' ≡ s) ⊎ Cancelled id s s'

  -- What `resume` did: an error leaves the service as it was; else a row that awaited approval runs.
  abbrev pub Resumes : Result Task → Service Schema → Service Schema → Type 0
  Resumes r s s' =
      (((t : Task) → r ≢ ok t) × (s' ≡ s))
      ⊎ ((t : Task) × (r ≡ ok t)
          × (t.persistent ≡ true)
          × (s.has_driver ≡ true)
          × (state_of t.execution_id s.rows ≡ some awaiting_approval)
          × Effect t (some running) (t.execution_id ∷ []) s s')

  launch_resumed-Resumes :
      (t : Task) (w : Answers) (s : Service Schema)
      → t.persistent ≡ true
      → s.has_driver ≡ true
      → state_of t.execution_id s.rows ≡ some awaiting_approval
      → Resumes (launch_resumed t w s).0 s (launch_resumed t w s).1
  unfolding launch_resumed
  launch_resumed-Resumes t w s persistent driver waits =
      elim (record_audit_cases w.records t.session_id (entry t a_running) s) [
        | inl thrown ↦ rw (thrown, launch_resumed) (inl (λ u x. cc, refl))
        | inr (s', kept, rows, launches, same) ↦
            rw (kept, launch_resumed)
              (inr (
                t,
                refl,
                persistent,
                driver,
                waits,
                record {
                  states = λ j. ground (
                    arith,
                    state_of-transition_state t.execution_id j running (some w.now) s'.rows,
                    ap (state_of j) rows,
                  );
                  launches = refl;
                  driver = ground arith;
                },
              ))
      ]

  pub revalidate_cases :
      (violations : Schema → Json → List String) (r : Row) (s : Service Schema)
      → ((e : Error) × (revalidate violations r s ≡ err e))
        ⊎ ((d : ActionDefinition Schema) × (input : Json) × (revalidate violations r s
              ≡ ok (resumed_task d r input)))
  unfolding revalidate
  revalidate_cases violations r s =
      elim (Option-cases (find_definition r.action_name s.definitions)) [
        | inl gone ↦ inl (action_gone r.action_name, rw (gone, revalidate) refl)
        | inr (d, found) ↦ elim (Option-cases (parse r.request_json)) [
          | inl bad ↦ inl (syntax_error, rw (found, revalidate, bad) refl)
          | inr (input, read) ↦ elim (Bool-cases (is_empty (violations d.input_schema input))) [
            | inl valid ↦ inr (d, input, rw (found, revalidate, read, valid) refl)
            | inr invalid ↦ inl (
              invalid_input r.action_name (violations d.input_schema input),
              rw (found, revalidate, read, invalid) refl,
            )
          ]
        ]
      ]

  resume-off :
      (violations : Schema → Json → List String) (id : String) (w : Answers) (s : Service Schema)
      → s.has_driver ≡ false
      → resume violations false id w s ≡ (err no_persistence, s)
  unfolding resume
  resume-off violations id w s off = simp off

  resume-on :
      (violations : Schema → Json → List String) (id : String) (w : Answers) (s : Service Schema)
      → s.has_driver ≡ true
      → resume violations false id w s ≡ resume_persisted violations id w s
  unfolding resume
  resume-on violations id w s on = simp on

  cancel-off :
      (id reason : String) (now : ℕ) (s : Service Schema)
      → s.has_driver ≡ false
      → cancel_execution id reason now s ≡ (false, s)
  unfolding cancel_execution
  cancel-off id reason now s off = simp off

  cancel-on :
      (id reason : String) (now : ℕ) (s : Service Schema)
      → s.has_driver ≡ true
      → cancel_execution id reason now s ≡ cancel_persisted id reason now s
  unfolding cancel_execution
  cancel-on id reason now s on = simp on

  resume_persisted-Resumes :
      (violations : Schema → Json → List String) (id : String) (w : Answers) (s : Service Schema)
      → s.has_driver ≡ true
      → Resumes (resume_persisted violations id w s).0 s (resume_persisted violations id w s).1
  unfolding resume_persisted
  resume_persisted-Resumes violations id w s on = elim (Option-cases (select_id id s.rows)) [
    | inl missing ↦ rw (missing, resume_persisted) (inl (λ t x. cc, refl))
    | inr (r, found) ↦ elim (Bool-cases (state_eq r.state awaiting_approval)) [
      | inr other ↦ rw (found, resume_persisted, other) (inl (λ t x. cc, refl))
      | inl waits ↦ elim (revalidate_cases violations r s) [
        | inl (e, refused) ↦ rw (found, resume_persisted, waits, refused) (inl (λ t x. cc, refl))
        | inr (d, input, valid) ↦
            rw (found, resume_persisted, waits, valid)
              (launch_resumed-Resumes (resumed_task d r input) w s refl on
                (state_of_found id s.rows r found waits))
      ]
    ]
  ]

  pub resume-Resumes :
      (violations : Schema → Json → List String) (signalled : Bool) (id : String) (w : Answers)
      (s : Service Schema)
      → Resumes (resume violations signalled id w s).0 s (resume violations signalled id w s).1
  resume-Resumes violations true id w s = unfold resume in inl (λ t x. cc, refl)
  resume-Resumes violations false id w s = elim (Bool-cases s.has_driver) [
    | inr off ↦ rw (resume-off violations id w s off) (inl (λ t x. cc, refl))
    | inl on ↦ rw (resume-on violations id w s on) (resume_persisted-Resumes violations id w s on)
  ]

  cancel_persisted-Cancels :
      (id reason : String) (now : ℕ) (s : Service Schema)
      → Cancels id s (cancel_persisted id reason now s).1
  unfolding cancel_persisted
  cancel_persisted-Cancels id reason now s = elim (Option-cases (select_id id s.rows)) [
    | inl missing ↦ rw (missing, cancel_persisted) (inl refl)
    | inr (r, found) ↦ elim (Bool-cases (state_eq r.state awaiting_approval)) [
      | inr other ↦ rw (found, cancel_persisted, other) (inl refl)
      | inl waits ↦
          rw (found, cancel_persisted, waits)
            (inr (record {
              waiting =
                  rw (select_id-id id s.rows r found) at (state_of_found id s.rows r found waits);
              states = λ j. state_of-persist_error id j cancelled _ now s.rows;
              launches = refl;
              driver = refl;
            }))
    ]
  ]

  pub cancel_execution-Cancels :
      (id reason : String) (now : ℕ) (s : Service Schema)
      → Cancels id s (cancel_execution id reason now s).1
  cancel_execution-Cancels id reason now s = elim (Bool-cases s.has_driver) [
    | inr off ↦ rw (cancel-off id reason now s off) (inl refl)
    | inl on ↦ rw (cancel-on id reason now s on) (cancel_persisted-Cancels id reason now s)
  ]
