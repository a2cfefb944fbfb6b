-- ===== src/Actions/Endings.antt =====
-- The effect of `settle`.
use rigo.Base.{
  String, [], some, none, ◌≡◌, ◌⊎◌, inl, inr, refl, arith, Bool-cases, Option-cases, ap, option_or,
}
use mathlib.Core.List.{append-nil}
use rigo.Actions.Types.{ActionState, succeeded, failed, cancelled, Failure, Value}
use rigo.Actions.Table.{persist_outcome}
use rigo.Actions.Registry.{Service}
use rigo.Actions.Execute.{Task, Answers, Executed, returned, threw_abort, threw, Caller}
use rigo.Actions.Settle.{
  settle, settle_outcome, settle_value, settle_failure, settle_abort, write_result,
}
use rigo.Actions.Effects.{
  state_of-persist_outcome, Effect, Effect-record, Effect-leave, write_error-Effect,
}

-- A state that no later step leaves.
abbrev pub IsFinal : ActionState → Type 0
IsFinal st = (st ≡ succeeded) ⊎ ((st ≡ failed) ⊎ (st ≡ cancelled))

module _ {Schema : Type 0} (t : Task) where
  abbrev Settles : Service Schema → Service Schema → Type 0
  Settles s s' = (st : ActionState) × IsFinal st × Effect t (some st) [] s s'

  settle_failure-Settles :
      (f : Failure) (w : Answers) (s : Service Schema) → Settles s (settle_failure t f w s).1
  unfolding settle_failure
  settle_failure-Settles f w s = (
    failed,
    inr (inl refl),
    Effect-record t _ _ s _ _ _ _ (write_error-Effect t failed f w.now s),
  )

  settle_abort-Settles :
      (reason : String) (w : Answers) (s : Service Schema) → Settles s (settle_abort t reason w s).1
  unfolding settle_abort
  settle_abort-Settles reason w s = (
    cancelled,
    inr (inr refl),
    Effect-record t _ _ s _ _ _ _ (write_error-Effect t cancelled _ w.now s),
  )

  write_result-Effect :
      (v : Value) (w : Answers) (s s' : Service Schema)
      → write_result t v w s ≡ some s'
      → Effect t (some succeeded) [] s s'
  unfolding write_result
  write_result-Effect v w s s' e = elim (Bool-cases t.persistent) [
    | inr off ↦ record {
      states = λ j. ground (arith, ap (λ x. option_or x s) e);
      launches = ground (arith, append-nil s.launches);
      driver = ground arith;
    }
    | inl on ↦ elim (Option-cases (persist_outcome t.execution_id succeeded v none w.now s.rows)) [
      | inl thrown ↦ ground arith
      | inr (rs, wrote) ↦ record {
        states = λ j.
            ground
              (arith, state_of-persist_outcome t.execution_id j succeeded v w.now s.rows rs wrote);
        launches = ground (arith, append-nil s.launches);
        driver = ground arith;
      }
    ]
  ]

  settle_value-Settles :
      (msg : String) (v : Value) (w : Answers) (s : Service Schema)
      → Settles s (settle_value msg t v w s).1
  unfolding settle_value
  settle_value-Settles msg v w s = elim (Option-cases (write_result t v w s)) [
    | inl thrown ↦ rw (thrown, settle_value) (settle_failure-Settles _ w s)
    | inr (s', kept) ↦
        rw (kept, settle_value)
          (succeeded, inl refl, Effect-record t _ _ s _ _ _ _ (write_result-Effect v w s s' kept))
  ]

  settle_outcome-Settles :
      (msg : String) (e : Executed) (caller : Caller) (w : Answers) (s : Service Schema)
      → Settles s (settle_outcome msg t e caller w s).1
  unfolding settle_outcome
  settle_outcome-Settles msg (returned v) caller w s = settle_value-Settles msg v w s
  settle_outcome-Settles msg threw_abort caller w s = settle_abort-Settles _ w s
  settle_outcome-Settles msg (threw f) caller w s = settle_failure-Settles f w s

  -- However the executor ends, its row goes to one final state and no executor is called.
  pub settle-Settles :
      (msg : String) (e : Executed) (caller : Caller) (w : Answers) (s : Service Schema)
      → Settles s (settle msg t e caller w s).1
  unfolding settle
  settle-Settles msg e caller w s =
      let (st, final, h) = settle_outcome-Settles msg e caller w s in
      (st, final, Effect-leave t _ _ s _ h)
