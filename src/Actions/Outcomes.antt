-- ===== src/Actions/Outcomes.antt =====
-- What the audit gate, an unload, an end that cannot be serialized and the recovery pass lead to.
use rigo.Base.{
  ℕ, suc, String, true, false, List, [], ◌∷◌, ◌++◌, some, none, ◌≡◌, refl, arith, eq_iff, eq_self,
  Bool-cases, Option-cases, inl, inr, option_or, ◌∙◌, ap, if◌then◌else◌, ◌⊎◌, Bool, map,
}
use std.Path.{ap₂}
use rigo.Json.{Json}
use rigo.Actions.Types.{
  proposed, running, awaiting_approval, succeeded, cancelled, recovery_required, state_eq,
  ActionDefinition, ActionState, failed, Failure, circular, cancellation, ActionPolicyResult, allow,
  a_running, failure, ok,
}
use rigo.Actions.Table.{Row, select_id, recover_rows, is_orphan, persist_outcome}
use rigo.Actions.Registry.{
  Service, Flight, unload, unload_reason, cancel_inflight, aborted_flights, kept_flights,
}
use rigo.Actions.Execute.{
  Task, Answers, threw_abort, returned, Caller, not_aborted, entry, abort_reason, govern,
  write_error, launched,
}
use rigo.Actions.Service.{resume, resume_persisted, launch_resumed}
use rigo.Actions.Settle.{settle, settle_value, write_result}
use rigo.Actions.Starts.{revalidate_cases}
use rigo.Actions.Effects.{state_of, state_of-persist_error, record_audit_safe-rows}

-- An execution of a definition is in the map.
abbrev pub InFlight : String → ℕ → List Flight → Type 0
InFlight i ref [] = ⊥
InFlight i ref (f ∷ fs) = ((f.execution_id ≡ i) × (f.definition_ref ≡ ref)) ⊎ InFlight i ref fs

-- The states in which the end of the process leaves an execution that it was working on.
abbrev pub interrupted : ActionState → Bool
interrupted proposed = true
interrupted running = true
interrupted awaiting_approval = false
interrupted succeeded = false
interrupted failed = false
interrupted cancelled = false
interrupted recovery_required = false

abbrev pub interruptions : List Row → ℕ
interruptions [] = 0
interruptions (r ∷ rs) = if interrupted r.state then suc (interruptions rs) else interruptions rs

-- An interrupted row asks for recovery; every other row stays.
abbrev pub swept : ℕ → Row → Row
swept now r =
    if interrupted r.state
    then record r {
      state = recovery_required;
      error_json = some (record {
        code = some "RECOVERY_REQUIRED";
        message = "process ended before the execution finished";
      });
      finished_at = some now;
    }
    else r

is_orphan-interrupted : (st : ActionState) → is_orphan st ≡ interrupted st
is_orphan-interrupted proposed = refl
is_orphan-interrupted running = refl
is_orphan-interrupted awaiting_approval = refl
is_orphan-interrupted succeeded = refl
is_orphan-interrupted failed = refl
is_orphan-interrupted cancelled = refl
is_orphan-interrupted recovery_required = refl

recover_rows-swept :
    (now : ℕ) (rs : List Row)
    → ((recover_rows now rs).0 ≡ map (swept now) rs)
      × ((recover_rows now rs).1 ≡ interruptions rs)
      × (interruptions (map (swept now) rs) ≡ 0)
unfolding recover_rows
recover_rows-swept now [] = (refl, refl, refl)
recover_rows-swept now (r ∷ rs) =
    ground (arith, is_orphan-interrupted r.state, recover_rows-swept now rs)

swept_again : (now : ℕ) (rs : List Row) → interruptions rs ≡ 0 → map (swept now) rs ≡ rs
swept_again now [] h = refl
swept_again now (r ∷ rs) h = ground (arith, swept_again now rs)

-- The pass turns exactly the rows in the states `proposed` and `running`, in their places, into
-- rows in the state `recovery_required` with the recovery error and the time, and gives their
-- number; a second pass changes nothing and gives 0.
pub recover_rows_complete :
    (now later : ℕ) (rs : List Row)
    → ((recover_rows now rs).0 ≡ map (swept now) rs)
      × ((recover_rows now rs).1 ≡ interruptions rs)
      × (recover_rows later (recover_rows now rs).0 ≡ ((recover_rows now rs).0, 0))
recover_rows_complete now later rs =
    let once = recover_rows-swept now rs in
    let twice = recover_rows-swept later (recover_rows now rs).0 in
    let none_left : interruptions (recover_rows now rs).0 ≡ 0 = rw (once.0, once.2) in
    (
      once.0,
      once.1,
      ap₂ (λ xs n. (xs, n)) (twice.0 ∙ swept_again later _ none_left) (twice.1 ∙ none_left),
    )

module _ {Schema : Type 0} where
  -- The audit gate of `execute`, for an execution with a session in a service with a recorder: the
  -- part of `execute` after the policy stage calls the executor only if the policy allows and the
  -- recorder took the `running` entry, which is then the last one.
  pub govern_gate :
      (t : Task) (p : ActionPolicyResult) (w : Answers) (s : Service Schema) (session : String)
      → t.session_id ≡ some session
      → s.has_recorder ≡ true
      → (govern t (ok p) w s).0 ≡ ok launched
      → (p.decision ≡ allow)
        × (w.records ≡ true)
        × ((govern t (ok p) w s).1.audit ≡ s.audit ++ entry t a_running session ∷ [])
  unfolding govern
  govern_gate t p w s session owner recorder runs = ground arith

state_eq-awaiting :
    (st : ActionState) → state_eq st awaiting_approval ≡ true → st ≡ awaiting_approval
state_eq-awaiting st h = ground (arith, h)

module _ {Schema : Type 0} (violations : Schema → Json → List String) (id : String) (w : Answers)
    (s : Service Schema) where
  -- The audit gate of `resume`, in a service with a recorder: it calls the executor only for a row
  -- that awaits approval and a caller that did not abort, and only after the recorder took the
  -- `running` entry, which is then the last one.
  pub resume_gate :
      (signalled : Bool) (t : Task)
      → s.has_recorder ≡ true
      → (resume violations signalled id w s).0 ≡ ok t
      → (signalled ≡ false)
        × (state_of id s.rows ≡ some awaiting_approval)
        × (w.records ≡ true)
        × ((r : Row) × (select_id id s.rows ≡ some r)
            × ((resume violations signalled id w s).1.audit
                ≡ s.audit ++ entry t a_running r.session_id ∷ []))
  unfolding resume resume_persisted launch_resumed state_of
  resume_gate true t recorder runs = ground (arith, runs)
  resume_gate false t recorder runs = elim (Bool-cases s.has_driver) [
    | inr off ↦ ground (arith, off, runs)
    | inl on ↦ elim (Option-cases (select_id id s.rows)) [
      | inl missing ↦ ground (arith, on, missing, runs)
      | inr (r, found) ↦ elim (Bool-cases (state_eq r.state awaiting_approval)) [
        | inr other ↦ ground (arith, on, found, other, runs)
        | inl waits ↦ elim (revalidate_cases violations r s) [
          | inl (e, refused) ↦ ground (arith, on, found, waits, refused, runs)
          | inr (d, input, valid) ↦ elim (Bool-cases w.records) [
            | inr silent ↦ ground (arith, on, found, waits, valid, silent, recorder, runs)
            | inl recorded ↦ (
              refl,
              ground (arith, found, state_eq-awaiting r.state waits),
              recorded,
              (r, found, ground (arith, on, found, waits, valid, recorded, recorder, runs)),
            )
          ]
        ]
      ]
    ]
  ]

aborted_flights-abort_reason :
    (ref : ℕ) (reason i : String) (fs : List Flight)
    → InFlight i ref fs
    → abort_reason i (aborted_flights ref reason fs) ≡ some reason
unfolding abort_reason aborted_flights
aborted_flights-abort_reason ref reason i [] h = absurd h
aborted_flights-abort_reason ref reason i (f ∷ fs) h =
    ground (arith, eq_iff f.execution_id i, aborted_flights-abort_reason ref reason i fs)

abort_reason-append :
    (i : String) (xs ys : List (String × String))
    → abort_reason i xs ≡ none
    → abort_reason i (xs ++ ys) ≡ abort_reason i ys
unfolding abort_reason
abort_reason-append i [] ys h = refl
abort_reason-append i ((j, r) ∷ xs) ys h = ground (arith, abort_reason-append i xs ys)

kept_flights-InFlight :
    (i : String) (ref : ℕ) (fs : List Flight) → ¬ InFlight i ref (kept_flights ref fs)
unfolding kept_flights
kept_flights-InFlight i ref [] h = h
kept_flights-InFlight i ref (f ∷ fs) h = ground (arith, kept_flights-InFlight i ref fs)

module _ {Schema : Type 0} where
  write_result-circular :
      (t : Task) (w : Answers) (s : Service Schema)
      → t.persistent ≡ true
      → write_result t circular w s ≡ none
  unfolding write_result persist_outcome
  write_result-circular t w s persistent = rw persistent

  write_error-state :
      (t : Task) (f : Failure) (now : ℕ) (s : Service Schema) (old : ActionState)
      → t.persistent ≡ true
      → state_of t.execution_id s.rows ≡ some old
      → state_of t.execution_id (write_error t failed f now s).rows ≡ some failed
  unfolding write_error
  write_error-state t f now s old persistent there = ground (
    arith,
    state_of-persist_error t.execution_id t.execution_id failed f now s.rows,
    eq_self t.execution_id,
  )

  -- A persisted execution whose executor succeeds with a value that `JSON.stringify` throws on is
  -- reported and journaled as failed, with the message of that TypeError.
  pub settle_circular :
      (msg : String) (t : Task) (caller : Caller) (w : Answers) (s : Service Schema)
      (old : ActionState)
      → t.persistent ≡ true
      → state_of t.execution_id s.rows ≡ some old
      → ((settle msg t (returned circular) caller w s).0
          ≡ failure t.execution_id t.action
              (record { code = none; message = msg })
              w.total_ms
              false)
        × (state_of t.execution_id (settle msg t (returned circular) caller w s).1.rows
            ≡ some failed)
  unfolding settle
  settle_circular msg t caller w s old persistent there = (
    rw (write_result-circular t w s persistent, settle_value),
    rw (write_result-circular t w s persistent, settle_value)
        (ap (state_of t.execution_id) (record_audit_safe-rows _ _ _ _)
          ∙ write_error-state t _ w.now s old persistent there),
  )

  -- An execution of a definition that is under way when the definition is unloaded, and whose
  -- executor then ends by an AbortError with no abort by its caller, is reported as cancelled with
  -- the reason of the unload; and its flight has left the map.
  pub unload_cancels :
      (msg : String) (d : ActionDefinition Schema) (t : Task) (w : Answers) (s : Service Schema)
      → InFlight t.execution_id d.ref s.inflight
      → abort_reason t.execution_id s.aborted ≡ none
      → ((settle msg t threw_abort not_aborted w (unload d s)).0
          ≡ cancellation t.execution_id t.action (unload_reason d.name) false)
        × ((i : String) → ¬ InFlight i d.ref (unload d s).inflight)
  unfolding settle unload cancel_inflight
  unload_cancels msg d t w s flying quiet = (
    ap (λ o. cancellation t.execution_id t.action (option_or o "aborted") false)
        (abort_reason-append t.execution_id s.aborted _ quiet
          ∙ aborted_flights-abort_reason d.ref _ t.execution_id s.inflight flying),
    λ i. kept_flights-InFlight i d.ref s.inflight,
  )
