-- ===== src/Actions/Safety.antt =====
-- What the state machine of executions promises, over every interleaving of the service's methods.
use rigo.Base.{
  ℕ, ◌≤◌, String, Bool, true, false, List, [], Option, some, none, ◌==◌, ◌≡◌, ◌&&◌, ◌⊎◌, inl, inr,
  refl, arith, eq_iff, is_some, if◌then◌else◌, count, ap, sym, ◌∙◌,
}
use mathlib.Core.Option
use mathlib.Core.Path.{subst}
use rigo.Json.{Json}
use rigo.Actions.Types.{
  ActionState, proposed, running, recovery_required, awaiting_approval, succeeded, failed,
  cancelled, Result,
}
use rigo.Actions.Registry.{Service, unload, before_policy, dispose_hook, cancel_inflight}
use rigo.Actions.Execute.{Task, Progress, Admission}
use rigo.Actions.Effects.{
  state_of, Effect, Governed, stopped, refused, suspended, called, govern-Governed,
}
use rigo.Actions.Endings.{IsFinal, settle-Settles}
use rigo.Actions.Starts.{Resumes, resume-Resumes, Cancels, cancel_execution-Cancels}
use rigo.Actions.Admissions.{Admits, admit-Admits, recovered}
use rigo.Actions.System.{
  Stage, at_policy, executing, Pending, System, find_task, Step, Reach, admits, governs, settles,
  resumes, cancels, recovers, registers, unloads, hooks_in, hooks_out,
}
use rigo.Actions.Lifecycle.{Good, Good-cong, Holds, moved, stage_of, stage_of_found}
use rigo.Actions.Invariant.{Reach-Holds, recover_states, register_same}

-- The edges between the states of a row.
abbrev pub edge : ActionState → ActionState → Bool
edge proposed awaiting_approval = true
edge proposed running = true
edge proposed cancelled = true
edge proposed recovery_required = true
edge awaiting_approval running = true
edge awaiting_approval cancelled = true
edge running succeeded = true
edge running failed = true
edge running cancelled = true
edge running recovery_required = true
edge _ _ = false

-- A row stays in its state, appears in state `proposed`, or goes along an edge.
abbrev pub Follows : Option ActionState → Option ActionState → Type 0
Follows none none = Unit
Follows none (some b) = b ≡ proposed
Follows (some a) none = ⊥
Follows (some a) (some b) = (b ≡ a) ⊎ (edge a b ≡ true)

Follows-refl : (x : Option ActionState) → Follows x x
Follows-refl none = tt
Follows-refl (some a) = inl refl

-- One lemma for each kind of step; `hit` tells whether the row is the execution's own.
Follows-from_policy :
    (d same : Bool) (g : Option Stage) (x : Option ActionState) (n : ℕ) (b : ActionState)
    → edge proposed b ≡ true
    → (same ≡ true → g ≡ some at_policy)
    → Good d g x n
    → Follows x (moved (d && same) (some b) x)
Follows-from_policy false same g x n b k e h = Follows-refl x
Follows-from_policy true false g x n b k e h = Follows-refl x
Follows-from_policy true true g x n b k e h = ground (arith, e refl)

Follows-from_running :
    (d same : Bool) (g : Option Stage) (x : Option ActionState) (n : ℕ) (b : ActionState)
    → IsFinal b
    → (same ≡ true → g ≡ some executing)
    → Good d g x n
    → Follows x (moved (d && same) (some b) x)
Follows-from_running false same g x n b k e h = Follows-refl x
Follows-from_running true false g x n b k e h = Follows-refl x
Follows-from_running true true g x n b k e h = ground (arith, e refl)

Follows-from_awaiting :
    (hit : Bool) (x : Option ActionState) (b : ActionState)
    → edge awaiting_approval b ≡ true
    → (hit ≡ true → x ≡ some awaiting_approval)
    → Follows x (if hit then Option.map (λ _. b) x else x)
Follows-from_awaiting false x b k e = Follows-refl x
Follows-from_awaiting true x b k e = ground (arith, e refl)

Follows-admitted :
    (d same : Bool) (x : Option ActionState)
    → (same ≡ true → x ≡ none)
    → Follows x (if d then (if is_some x then x else if same then some proposed else none) else x)
Follows-admitted d same none e = ground arith
Follows-admitted d same (some a) e = ground arith

Follows-recovered :
    (d : Bool) (x : Option ActionState) → Follows x (if d then Option.map recovered x else x)
Follows-recovered false x = Follows-refl x
Follows-recovered true none = tt
Follows-recovered true (some a) = ground arith

Follows-eq : (x : Option ActionState) {y z : Option ActionState} → y ≡ z → Follows x y → Follows x z
Follows-eq x e = subst (Follows x) e

-- An effect at one id, with the execution's own tests put in.
module _ {Schema : Type 0} where
  Effect-Follows :
      (t : Task) (target : Option ActionState) (calls : List String) (s s' : Service Schema)
      (j : String)
      → t.persistent ≡ s.has_driver
      → Effect t target calls s s'
      → Follows
          (state_of j s.rows)
          (moved (s.has_driver && (t.execution_id == j)) target (state_of j s.rows))
      → Follows (state_of j s.rows) (state_of j s'.rows)
  Effect-Follows t target calls s s' j same e h = Follows-eq _ (ground (arith, e.states j)) h

  govern-Follows :
      (t : Task) (r : Result Progress) (s s' : Service Schema) (ps : List Pending) (j : String)
      → find_task t.execution_id ps ≡ some (record { task = t; stage = at_policy })
      → Governed t s r s'
      → Holds s ps
      → Follows (state_of j s.rows) (state_of j s'.rows)
  govern-Follows t r s s' ps j waits (called x e) h =
      Effect-Follows t _ _ s s' j (h.persists t.execution_id _ waits) e (
        Follows-from_policy s.has_driver (t.execution_id == j) (stage_of j ps) (state_of j s.rows) _
          running refl (stage_of_found t at_policy ps j waits) (h.good j))
  govern-Follows t r s s' ps j waits (refused x e) h =
      Effect-Follows t _ _ s s' j (h.persists t.execution_id _ waits) e (
        Follows-from_policy s.has_driver (t.execution_id == j) (stage_of j ps) (state_of j s.rows) _
          cancelled refl (stage_of_found t at_policy ps j waits) (h.good j))
  govern-Follows t r s s' ps j waits (suspended x e) h =
      Effect-Follows t _ _ s s' j (h.persists t.execution_id _ waits) e (
        Follows-from_policy s.has_driver (t.execution_id == j) (stage_of j ps) (state_of j s.rows) _
          awaiting_approval refl (stage_of_found t at_policy ps j waits) (h.good j))
  govern-Follows t r s s' ps j waits (stopped x e) h =
      Effect-Follows t _ _ s s' j (h.persists t.execution_id _ waits) e
        (ground (arith, Follows-refl (state_of j s.rows)))

  resume-Follows :
      (r : Result Task) (s s' : Service Schema) (j : String)
      → Resumes r s s'
      → Follows (state_of j s.rows) (state_of j s'.rows)
  resume-Follows r s s' j (inl (x, same)) = rw same (Follows-refl (state_of j s.rows))
  resume-Follows r s s' j (inr (t, runs, persistent, driver, waits, e)) =
      Effect-Follows t _ _ s s' j (persistent ∙ sym driver) e (
        ground (
          arith,
          Follows-from_awaiting (t.execution_id == j) (state_of j s.rows) running refl
              (λ same. rw (← (eq_iff t.execution_id j).0 same) waits),
        ))

  cancel-Follows :
      (id : String) (s s' : Service Schema) (j : String)
      → Cancels id s s'
      → Follows (state_of j s.rows) (state_of j s'.rows)
  cancel-Follows id s s' j (inl same) = rw same (Follows-refl (state_of j s.rows))
  cancel-Follows id s s' j (inr c) = Follows-eq _ (sym (c.states j)) (
      Follows-from_awaiting (id == j) (state_of j s.rows) cancelled refl
        (λ e. rw (← (eq_iff id j).0 e) c.waiting))

  admit-Follows :
      (id : String) (r : Result Admission) (s s' : Service Schema) (j : String)
      → state_of id s.rows ≡ none
      → Admits id r s s'
      → Follows (state_of j s.rows) (state_of j s'.rows)
  admit-Follows id r s s' j fresh (inl a) = rw a.rows (Follows-refl (state_of j s.rows))
  admit-Follows id r s s' j fresh (inr a) = Follows-eq _ (sym (a.states j)) (
      Follows-admitted s.has_driver (id == j) (state_of j s.rows)
        (λ e. rw (← (eq_iff id j).0 e) fresh))

Good-calls : (d : Bool) (g : Option Stage) (x : Option ActionState) (n : ℕ) → Good d g x n → n ≤ 1
Good-calls d g x n h = ground arith

start-Good : (d : Bool) (x : Option ActionState) → Good d none x 0
start-Good d x = ground arith

-- A service that has just started.
pub start-Holds :
    {Schema : Type 0} (s : Service Schema) (ps : List Pending)
    → ps ≡ []
    → s.launches ≡ []
    → Holds s ps
unfolding stage_of find_task
start-Holds s ps idle none_called = record {
  good = λ j.
      Good-cong refl (ap (stage_of j) (sym idle)) refl (ap (count j) (sym none_called))
        (start-Good s.has_driver (state_of j s.rows));
  persists = λ i p e. cc (ap (find_task i) idle);
}

module _ {Schema : Type 0} (violations : Schema → Json → List String) (msg : String) where
  -- In a system that satisfies the invariant, every step leaves each row in its state, adds it in
  -- state `proposed`, or moves it along an edge of the state diagram; so a row in state `succeeded`,
  -- `failed`, `cancelled` or `recovery-required` never changes its state.
  pub Step-Follows :
      {s u : System Schema} (j : String)
      → Step violations msg s u
      → Holds s.service s.tasks
      → Follows (state_of j s.service.rows) (state_of j u.service.rows)
  unfolding state_of unload before_policy dispose_hook cancel_inflight
  Step-Follows {s} j (admits signalled id now req fresh e f) h = rw e (
      admit-Follows id _ s.service _ j (ap (Option.map (λ r. r.state)) fresh.1)
        (admit-Admits violations signalled id now req s.service))
  Step-Follows {s} j (governs t policy w waits e f) h =
      rw e (govern-Follows t _ s.service _ s.tasks j waits (govern-Governed t policy w s.service) h)
  Step-Follows {s} j (settles t x caller w waits e f) h =
      let (st, final, effect) = settle-Settles t msg x caller w s.service in
      rw e (
        Effect-Follows t _ _ s.service _ j (h.persists t.execution_id _ waits) effect (
          Follows-from_running s.service.has_driver (t.execution_id == j) (stage_of j s.tasks)
            (state_of j s.service.rows) _ st final (stage_of_found t executing s.tasks j waits)
            (h.good j)))
  Step-Follows {s} j (resumes signalled id w e f) h =
      rw e (resume-Follows _ s.service _ j (resume-Resumes violations signalled id w s.service))
  Step-Follows {s} j (cancels id reason now e f) h =
      rw e (cancel-Follows id s.service _ j (cancel_execution-Cancels id reason now s.service))
  Step-Follows {s} j (recovers now idle e f) h = rw e (
      Follows-eq _ (sym (recover_states now j s.service))
        (Follows-recovered s.service.has_driver (state_of j s.service.rows)))
  Step-Follows {s} j (registers supported d e f) h =
      rw (e, (register_same supported d s.service).0) (Follows-refl (state_of j s.service.rows))
  Step-Follows {s} j (unloads d e f) h = rw e (Follows-refl (state_of j s.service.rows))
  Step-Follows {s} j (hooks_in k e f) h = rw e (Follows-refl (state_of j s.service.rows))
  Step-Follows {s} j (hooks_out k e f) h = rw e (Follows-refl (state_of j s.service.rows))

  -- From a service with any rows, no execution under way and no executor called yet, whatever the
  -- order of calls, awaits, approvals, cancellations, unloads and recoveries, the executor of each
  -- execution is called at most once.
  pub Reach-launches_once :
      {s u : System Schema} (j : String)
      → Reach violations msg s u
      → s.tasks ≡ []
      → s.service.launches ≡ []
      → count j u.service.launches ≤ 1
  Reach-launches_once {u} j r idle none_called =
      Good-calls _ _ _ _ ((Reach-Holds violations msg r (start-Holds _ _ idle none_called)).good j)
