-- ===== src/Actions/Effects.antt =====
-- What each stretch of code does to the state of each row and to the list of executor calls.
use rigo.Base.{
  ℕ, String, Bool, List, [], ◌∷◌, ◌++◌, Option, some, none, ◌==◌, ◌&&◌, ◌≡◌, ◌≢◌, ◌⊎◌, inl, inr,
  refl, arith, eq_iff, is_some, if◌then◌else◌, Bool-cases, ap, sym, ◌∙◌,
}
use mathlib.Core.List.{append-nil}
use mathlib.Core.Option
use rigo.Json.{written}
use rigo.Actions.Types.{
  ActionState, running, awaiting_approval, cancelled, Failure, Value, undefined, json, circular,
  ActionPolicyResult, ok, err, allow, deny, require_approval, Decision, audit_failed, a_running,
  Result, ActionExecutionAuditEntry,
}
use rigo.Actions.Table.{
  Row, select_id, update_id, transition_state, persist_outcome, persist_error, outcome_row,
}
use rigo.Actions.Registry.{Service}
use rigo.Actions.Execute.{
  entry, Task, Answers, Progress, launched, record_audit, record_audit_safe, write_error,
  write_state, leave, govern, launch,
}

-- The state of the row with an id.
unfoldable pub state_of : String → List Row → Option ActionState
state_of j rs = Option.map (λ r. r.state) (select_id j rs)

-- An update of one row by a function that sets its state.
pub state_of-update_id :
    (i j : String) (st : ActionState) (f : Row → Row) (rs : List Row)
    → ((r : Row) → (f r).id ≡ r.id)
    → ((r : Row) → (f r).state ≡ st)
    → state_of j (update_id i f rs)
      ≡ (if i == j then Option.map (λ _. st) (state_of j rs) else state_of j rs)
unfolding state_of select_id update_id
state_of-update_id i j st f [] same sets = ground arith
state_of-update_id i j st f (r ∷ rs) same sets = ground (
  arith,
  same r,
  sets r,
  eq_iff r.id i,
  eq_iff r.id j,
  eq_iff i j,
  state_of-update_id i j st f rs same sets,
)

pub state_of-transition_state :
    (i j : String) (st : ActionState) (at : Option ℕ) (rs : List Row)
    → state_of j (transition_state i st at rs)
      ≡ (if i == j then Option.map (λ _. st) (state_of j rs) else state_of j rs)
unfolding transition_state
state_of-transition_state i j st none rs = state_of-update_id i j st _ rs (λ r. refl) (λ r. refl)
state_of-transition_state i j st (some now) rs =
    state_of-update_id i j st _ rs (λ r. refl) (λ r. refl)

pub state_of-persist_error :
    (i j : String) (st : ActionState) (f : Failure) (now : ℕ) (rs : List Row)
    → state_of j (persist_error i st f now rs)
      ≡ (if i == j then Option.map (λ _. st) (state_of j rs) else state_of j rs)
unfolding persist_error
state_of-persist_error i j st f now rs = state_of-update_id i j st _ rs (λ r. refl) (λ r. refl)

pub state_of-persist_outcome :
    (i j : String) (st : ActionState) (v : Value) (now : ℕ) (rs rs' : List Row)
    → persist_outcome i st v none now rs ≡ some rs'
    → state_of j rs' ≡ (if i == j then Option.map (λ _. st) (state_of j rs) else state_of j rs)
unfolding persist_outcome
state_of-persist_outcome i j st undefined now rs rs' e =
    ground
      (arith, state_of-update_id i j st (outcome_row st none none now) rs (λ r. refl) (λ r. refl))
state_of-persist_outcome i j st (json v) now rs rs' e = ground (
  arith,
  state_of-update_id i j st (outcome_row st (some (written v)) none now) rs (λ r. refl) (λ r. refl),
)
state_of-persist_outcome i j st circular now rs rs' e = cc

-- From `s` to `s'` the row of one execution, and no other, goes to a state (or none does), and the
-- executors of `calls` are called.
pub record Effect {Schema : Type 0} (t : Task) (target : Option ActionState) (calls : List String)
    (s s' : Service Schema) : Type 0 where
  pub states :
      (j : String)
      → state_of j s'.rows ≡ (
          if t.persistent && (t.execution_id == j) && is_some target
          then Option.map (λ old. elim target [ none ↦ old | some st ↦ st ]) (state_of j s.rows)
          else state_of j s.rows)
  pub launches : s'.launches ≡ s.launches ++ calls
  pub driver : s'.has_driver ≡ s.has_driver

module _ {Schema : Type 0} (t : Task) where
  pub write_error-Effect :
      (st : ActionState) (f : Failure) (now : ℕ) (s : Service Schema)
      → Effect t (some st) [] s (write_error t st f now s)
  unfolding write_error
  write_error-Effect st f now s = record {
    states = λ j. ground (arith, state_of-persist_error t.execution_id j st f now s.rows);
    launches = ground (arith, append-nil s.launches);
    driver = ground arith;
  }

  pub write_state-Effect :
      (st : ActionState) (at : Option ℕ) (s : Service Schema)
      → Effect t (some st) [] s (write_state t st at s)
  unfolding write_state
  write_state-Effect st at s = record {
    states = λ j. ground (arith, state_of-transition_state t.execution_id j st at s.rows);
    launches = ground (arith, append-nil s.launches);
    driver = ground arith;
  }

-- The recorder and the flight map hold no row and no call.
module _ {Schema : Type 0} where
  pub record_audit_safe-rows :
      (b : Bool) (o : Option String) (e : String → ActionExecutionAuditEntry) (s : Service Schema)
      → (record_audit_safe b o e s).rows ≡ s.rows
  unfolding record_audit_safe
  record_audit_safe-rows b none e s = refl
  record_audit_safe-rows b (some i) e s = ground arith

  record_audit_safe-launches :
      (b : Bool) (o : Option String) (e : String → ActionExecutionAuditEntry) (s : Service Schema)
      → ((record_audit_safe b o e s).launches ≡ s.launches)
        × ((record_audit_safe b o e s).has_driver ≡ s.has_driver)
  unfolding record_audit_safe
  record_audit_safe-launches b none e s = (refl, refl)
  record_audit_safe-launches b (some i) e s = ground arith

  -- What is recorded and left behind changes no effect.
  pub Effect-record :
      (t : Task) (target : Option ActionState) (calls : List String) (s s' : Service Schema)
      (b : Bool) (o : Option String) (e : String → ActionExecutionAuditEntry)
      → Effect t target calls s s'
      → Effect t target calls s (record_audit_safe b o e s')
  Effect-record t target calls s s' b o e h = record {
    states = λ j. rw (record_audit_safe-rows b o e s') (h.states j);
    launches = (record_audit_safe-launches b o e s').0 ∙ h.launches;
    driver = (record_audit_safe-launches b o e s').1 ∙ h.driver;
  }

  pub Effect-leave :
      (t : Task) (target : Option ActionState) (calls : List String) (s s' : Service Schema)
      → Effect t target calls s s'
      → Effect t target calls s (leave t s')
  unfolding leave
  Effect-leave t target calls s s' h = record {
    states = h.states;
    launches = h.launches;
    driver = h.driver;
  }

-- Whether the executor was called, with the state that the row goes to.
pub data Governed {Schema : Type 0} (t : Task) (s : Service Schema) (r : Result Progress)
    (s' : Service Schema) : Type 0 where
  stopped : r ≢ ok launched → Effect t none [] s s' → Governed t s r s'
  refused : r ≢ ok launched → Effect t (some cancelled) [] s s' → Governed t s r s'
  suspended : r ≢ ok launched → Effect t (some awaiting_approval) [] s s' → Governed t s r s'
  called : r ≡ ok launched → Effect t (some running) (t.execution_id ∷ []) s s' → Governed t s r s'

module _ {Schema : Type 0} (t : Task) where
  pub same-Effect :
      (s s' : Service Schema)
      → s'.rows ≡ s.rows
      → s'.launches ≡ s.launches
      → s'.has_driver ≡ s.has_driver
      → Effect t none [] s s'
  same-Effect s s' rows launches driver = record {
    states = λ j. ground (arith, ap (state_of j) rows);
    launches = launches ∙ sym (append-nil s.launches);
    driver = driver;
  }

  govern-deny :
      (p : ActionPolicyResult) (w : Answers) (s : Service Schema)
      → p.decision ≡ deny
      → Governed t s (govern t (ok p) w s).0 (govern t (ok p) w s).1
  unfolding govern
  govern-deny p w s e =
      rw (e, govern)
        (refused (λ x. cc)
          (Effect-leave t _ _ s _
            (Effect-record t _ _ s _ _ _ _ (write_error-Effect t cancelled _ w.now s))))

  govern-require_approval :
      (p : ActionPolicyResult) (w : Answers) (s : Service Schema)
      → p.decision ≡ require_approval
      → Governed t s (govern t (ok p) w s).0 (govern t (ok p) w s).1
  unfolding govern
  govern-require_approval p w s e =
      rw (e, govern)
        (suspended (λ x. cc)
          (Effect-leave t _ _ s _
            (Effect-record t _ _ s _ _ _ _ (write_state-Effect t awaiting_approval none s))))

module _ {Schema : Type 0} where
  -- The strict recorder throws, or it changes neither rows nor calls.
  pub record_audit_cases :
      (b : Bool) (o : Option String) (e : String → ActionExecutionAuditEntry) (s : Service Schema)
      → (record_audit b o e s ≡ err audit_failed)
        ⊎ ((s' : Service Schema) × (record_audit b o e s ≡ ok s')
            × (s'.rows ≡ s.rows)
            × (s'.launches ≡ s.launches)
            × (s'.has_driver ≡ s.has_driver))
  unfolding record_audit
  record_audit_cases b none e s = inr (s, refl, refl, refl, refl)
  record_audit_cases b (some i) e s = elim (Bool-cases s.has_recorder) [
    | inr off ↦ inr (s, rw off, refl, refl, refl)
    | inl on ↦ elim (Bool-cases b) [
      | inr thrown ↦ inl (rw (on, thrown))
      | inl kept ↦ inr (record s { audit = s.audit ++ e i ∷ [] }, rw (on, kept), refl, refl, refl)
    ]
  ]

  govern-allow :
      (t : Task) (p : ActionPolicyResult) (w : Answers) (s : Service Schema)
      → p.decision ≡ allow
      → Governed t s (govern t (ok p) w s).0 (govern t (ok p) w s).1
  unfolding govern write_state
  govern-allow t p w s e = elim (record_audit_cases w.records t.session_id (entry t a_running) s) [
    | inl thrown ↦
        rw (e, govern, thrown, launch)
          (stopped (λ x. cc) (Effect-leave t none [] s s (same-Effect t s s refl refl refl)))
    | inr (s', kept, rows, launches, driver) ↦
        rw (e, govern, kept, launch)
          (called refl (record {
            states = λ j. ground (
              arith,
              state_of-transition_state t.execution_id j running (some w.now) s'.rows,
              ap (state_of j) rows,
            );
            launches = refl;
            driver = ground arith;
          }))
  ]

  -- Each end of the policy stage.
  pub govern-Governed :
      (t : Task) (r : Result ActionPolicyResult) (w : Answers) (s : Service Schema)
      → Governed t s (govern t r w s).0 (govern t r w s).1
  unfolding govern
  govern-Governed t (err e) w s =
      stopped (λ x. cc) (Effect-leave t none [] s s (same-Effect t s s refl refl refl))
  govern-Governed t (ok p) w s = by_decision p.decision refl
    where
      by_decision :
          (d : Decision)
          → p.decision ≡ d
          → Governed t s (govern t (ok p) w s).0 (govern t (ok p) w s).1
      by_decision deny e = govern-deny t p w s e
      by_decision allow e = govern-allow t p w s e
      by_decision require_approval e = govern-require_approval t p w s e
