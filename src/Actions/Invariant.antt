-- ===== src/Actions/Invariant.antt =====
-- The life of executions under every interleaving of the service's methods.
use rigo.Base.{
  ℕ, String, Bool, List, [], ◌∷◌, some, none, ◌==◌, ◌≡◌, inl, inr, refl, arith, eq_iff,
  if◌then◌else◌, count, ap, sym, ◌∙◌,
}
use mathlib.Core.Option
use rigo.Json.{Json}
use rigo.Actions.Types.{ActionDefinition, ActionPolicyResult, running, Result, ok, err}
use rigo.Actions.Registry.{
  Service, register_action, unload, before_policy, dispose_hook, cancel_inflight,
}
use rigo.Actions.Execute.{
  Task, Answers, Progress, launched, finished, govern, started, answered, Admission, Caller,
  Executed,
}
use rigo.Actions.Settle.{settle}
use rigo.Actions.Service.{recover_orphaned_executions}
use rigo.Actions.Effects.{state_of, Governed, stopped, refused, suspended, called, govern-Governed}
use rigo.Actions.Endings.{settle-Settles}
use rigo.Actions.Starts.{Resumes, resume-Resumes, Cancels, cancel_execution-Cancels}
use rigo.Actions.Admissions.{Admits, admit-Admits, recovered, state_of-recover_rows}
use rigo.Actions.System.{
  Stage, at_policy, executing, Pending, System, find_task, drop_task, after_progress,
  after_admission, after_resume, registered, Step, Reach, here, next, admits, governs, settles,
  resumes, cancels, recovers, registers, unloads, hooks_in, hooks_out,
}
use rigo.Actions.Lifecycle.{
  Holds, restaged, stage_of, find_task-drop_task, count-append, stage_of-drop_task, stage_of-cons,
  stage_of_found, Good-cong, Effect-Good, Governed-Good, Good-settled, Good-resumed, Good-cancelled,
  Good-admitted, Good-recovered, count-nil,
}

-- A lookup in a task list after the step of one task.
find_task-id :
    (i : String) (ps : List Pending) (p : Pending)
    → find_task i ps ≡ some p
    → p.task.execution_id ≡ i
unfolding find_task
find_task-id i [] p e = cc
find_task-id i (q ∷ ps) p e = ground (arith, eq_iff q.task.execution_id i, find_task-id i ps p)

abbrev Persists : Bool → List Pending → Type 0
Persists d ps = (i : String) (p : Pending) → find_task i ps ≡ some p → p.task.persistent ≡ d

drop_task-Persists :
    (d : Bool) (i : String) (ps : List Pending) → Persists d ps → Persists d (drop_task i ps)
drop_task-Persists d i ps h j p e = h j p (ground (arith, find_task-drop_task i j ps))

cons-Persists :
    (d : Bool) (t : Task) (g : Stage) (ps : List Pending)
    → t.persistent ≡ d
    → Persists d ps
    → Persists d (record { task = t; stage = g } ∷ ps)
unfolding find_task
cons-Persists d t g ps same h j p e = ground (arith, h j p)

after_progress-Persists :
    (d : Bool) (t : Task) (r : Result Progress) (ps : List Pending)
    → t.persistent ≡ d
    → Persists d ps
    → Persists d (after_progress t r ps)
after_progress-Persists d t (err e) ps same h = drop_task-Persists d t.execution_id ps h
after_progress-Persists d t (ok (finished a)) ps same h = drop_task-Persists d t.execution_id ps h
after_progress-Persists d t (ok launched) ps same h =
    cons-Persists d t executing _ same (drop_task-Persists d t.execution_id ps h)

Governed-driver :
    {Schema : Type 0} (t : Task) (r : Result Progress) (s s' : Service Schema)
    → Governed t s r s'
    → s'.has_driver ≡ s.has_driver
Governed-driver t r s s' (called x e) = e.driver
Governed-driver t r s s' (stopped x e) = e.driver
Governed-driver t r s s' (refused x e) = e.driver
Governed-driver t r s s' (suspended x e) = e.driver

-- The driver does not change, so what is said of tasks goes on.
keep : {d d' : Bool} (ps : List Pending) → d' ≡ d → Persists d ps → Persists d' ps
keep ps e h j p f = h j p f ∙ sym e

module _ {Schema : Type 0} where
  govern-Holds :
      (t : Task) (policy : Result ActionPolicyResult) (w : Answers) (s : Service Schema)
      (ps : List Pending)
      → find_task t.execution_id ps ≡ some (record { task = t; stage = at_policy })
      → Holds s ps
      → Holds (govern t policy w s).1 (after_progress t (govern t policy w s).0 ps)
  govern-Holds t policy w s ps waits h =
      let same : t.persistent ≡ s.has_driver = h.persists t.execution_id _ waits in
      let g = govern-Governed t policy w s in
      record {
        good = λ j. Governed-Good t _ s _ ps j waits same g (h.good j);
        persists =
            keep _ (Governed-driver t _ s _ g)
              (after_progress-Persists s.has_driver t (govern t policy w s).0 ps same h.persists);
      }

  settle-Holds :
      (msg : String) (t : Task) (e : Executed) (caller : Caller) (w : Answers) (s : Service Schema)
      (ps : List Pending)
      → find_task t.execution_id ps ≡ some (record { task = t; stage = executing })
      → Holds s ps
      → Holds (settle msg t e caller w s).1 (drop_task t.execution_id ps)
  settle-Holds msg t e caller w s ps waits h =
      let same : t.persistent ≡ s.has_driver = h.persists t.execution_id _ waits in
      let (st, final, effect) = settle-Settles t msg e caller w s in
      record {
        good = λ j. Effect-Good t (some st) s _ j _ [] same effect (
            Good-cong refl (sym (stage_of-drop_task t.execution_id j ps)) refl
              (count-nil j s.launches)
              (Good-settled s.has_driver (t.execution_id == j) (stage_of j ps) (state_of j s.rows)
                (count j s.launches) st final (stage_of_found t executing ps j waits) (h.good j)));
        persists =
            keep _ effect.driver (drop_task-Persists s.has_driver t.execution_id ps h.persists);
      }

  resume-Holds :
      (r : Result Task) (s s' : Service Schema) (ps : List Pending)
      → Resumes r s s'
      → Holds s ps
      → Holds s' (after_resume r ps)
  resume-Holds (err e) s s' ps (inl (x, same)) h = rw same h
  resume-Holds (ok t) s s' ps (inl (x, same)) h = absurd (x t refl)
  resume-Holds r s s' ps (inr (t, runs, persistent, driver, waits, effect)) h = rw runs (record {
    good = λ j.
        Effect-Good t (some running) s s' j _ (t.execution_id ∷ []) (persistent ∙ sym driver) effect
          (Good-cong refl (sym (stage_of-cons t executing j ps)) refl
            (sym (count-append j t.execution_id s.launches))
            (Good-resumed s.has_driver (t.execution_id == j) (stage_of j ps) (state_of j s.rows)
              (count j s.launches) driver (λ e. rw (← (eq_iff t.execution_id j).0 e) waits)
              (h.good j)));
    persists =
        keep _ effect.driver
          (cons-Persists s.has_driver t executing ps (persistent ∙ sym driver) h.persists);
  })

  cancel-Holds :
      (id : String) (s s' : Service Schema) (ps : List Pending)
      → Cancels id s s'
      → Holds s ps
      → Holds s' ps
  cancel-Holds id s s' ps (inl same) h = rw same h
  cancel-Holds id s s' ps (inr c) h = record {
    good = λ j. Good-cong (sym c.driver) refl (sym (c.states j)) (ap (count j) (sym c.launches)) (
        Good-cancelled s.has_driver (id == j) (stage_of j ps) (state_of j s.rows)
          (count j s.launches) (λ e. rw (← (eq_iff id j).0 e) c.waiting) (h.good j));
    persists = keep ps c.driver h.persists;
  }

  admit-Holds :
      (id : String) (r : Result Admission) (s s' : Service Schema) (ps : List Pending)
      → (stage_of id ps ≡ none) × (state_of id s.rows ≡ none) × (count id s.launches ≡ 0)
      → Admits id r s s'
      → Holds s ps
      → Holds s' (after_admission r ps)
  admit-Holds id (ok (started t)) s s' ps fresh (inl a) h = absurd (a.starts_not t refl)
  admit-Holds id (ok (answered x)) s s' ps fresh (inl a) h = record {
    good = λ j.
        Good-cong (sym a.driver) refl (ap (state_of j) (sym a.rows)) (ap (count j) (sym a.launches))
          (h.good j);
    persists = keep ps a.driver h.persists;
  }
  admit-Holds id (err e) s s' ps fresh (inl a) h = record {
    good = λ j.
        Good-cong (sym a.driver) refl (ap (state_of j) (sym a.rows)) (ap (count j) (sym a.launches))
          (h.good j);
    persists = keep ps a.driver h.persists;
  }
  admit-Holds id r s s' ps fresh (inr a) h = rw a.starts (record {
    good = λ j.
        Good-cong (sym a.driver)
          (sym (
            stage_of-cons a.task at_policy j ps
            ∙ ap (λ i. restaged (i == j) (some at_policy) (stage_of j ps)) a.named))
          (sym (a.states j)) (ap (count j) (sym a.launches))
          (Good-admitted s.has_driver (id == j) (stage_of j ps) (state_of j s.rows)
            (count j s.launches) (λ e. rw (← (eq_iff id j).0 e) fresh) (h.good j));
    persists =
        keep _ a.driver (cons-Persists s.has_driver a.task at_policy ps a.persists h.persists);
  })

  pub recover_states :
      (now : ℕ) (j : String) (s : Service Schema)
      → state_of j (recover_orphaned_executions now s).1.rows
        ≡ (if s.has_driver then Option.map recovered (state_of j s.rows) else state_of j s.rows)
  unfolding recover_orphaned_executions
  recover_states now j s = ground (arith, state_of-recover_rows now j s.rows)

  recover_rest :
      (now : ℕ) (s : Service Schema)
      → ((recover_orphaned_executions now s).1.launches ≡ s.launches)
        × ((recover_orphaned_executions now s).1.has_driver ≡ s.has_driver)
  unfolding recover_orphaned_executions
  recover_rest now s = ground arith

  recover-Holds :
      (now : ℕ) (s : Service Schema) → Holds s [] → Holds (recover_orphaned_executions now s).1 []
  unfolding stage_of find_task
  recover-Holds now s h =
      let (launches, driver) = recover_rest now s in
      record {
        good = λ j.
            Good-cong (sym driver) refl (sym (recover_states now j s)) (ap (count j) (sym launches))
              (Good-recovered s.has_driver (state_of j s.rows) (count j s.launches) (h.good j));
        persists = keep [] driver h.persists;
      }

  -- A change of neither rows, calls nor driver.
  same-Holds :
      (s s' : Service Schema) (ps : List Pending)
      → (s'.rows ≡ s.rows) × (s'.launches ≡ s.launches) × (s'.has_driver ≡ s.has_driver)
      → Holds s ps
      → Holds s' ps
  same-Holds s s' ps e h = record {
    good = λ j.
        Good-cong (sym e.2) refl (ap (state_of j) (sym e.0)) (ap (count j) (sym e.1)) (h.good j);
    persists = keep ps e.2 h.persists;
  }

  pub register_same :
      (supported : Schema → Bool) (d : ActionDefinition Schema) (s : Service Schema)
      → let s' = registered s (register_action supported d s) in
        (s'.rows ≡ s.rows) × (s'.launches ≡ s.launches) × (s'.has_driver ≡ s.has_driver)
  unfolding register_action
  register_same supported d s = ground arith

module _ {Schema : Type 0} (violations : Schema → Json → List String) (msg : String) where
  -- Every step keeps what is said of each execution.
  pub Step-Holds :
      {s u : System Schema}
      → Step violations msg s u
      → Holds s.service s.tasks
      → Holds u.service u.tasks
  unfolding stage_of state_of unload before_policy dispose_hook cancel_inflight
  Step-Holds {s} (admits signalled id now req fresh e f) h =
      rw (e, f)
        (admit-Holds id _ s.service _ s.tasks
          (ap (Option.map (λ p. p.stage)) fresh.0, ap (Option.map (λ r. r.state)) fresh.1, fresh.2)
          (admit-Admits violations signalled id now req s.service) h)
  Step-Holds {s} (governs t policy w waits e f) h =
      rw (e, f) (govern-Holds t policy w s.service s.tasks waits h)
  Step-Holds {s} (settles t x caller w waits e f) h =
      rw (e, f) (settle-Holds msg t x caller w s.service s.tasks waits h)
  Step-Holds {s} (resumes signalled id w e f) h =
      rw (e, f)
        (resume-Holds _ s.service _ s.tasks (resume-Resumes violations signalled id w s.service) h)
  Step-Holds {s} (cancels id reason now e f) h =
      rw (e, f)
        (cancel-Holds id s.service _ s.tasks (cancel_execution-Cancels id reason now s.service) h)
  Step-Holds {s} (recovers now idle e f) h =
      rw (e, f, idle) (recover-Holds now s.service (rw idle at h))
  Step-Holds {s} (registers supported d e f) h =
      rw (e, f) (same-Holds s.service _ s.tasks (register_same supported d s.service) h)
  Step-Holds {s} (unloads d e f) h = rw (e, f) (same-Holds s.service _ s.tasks (refl, refl, refl) h)
  Step-Holds {s} (hooks_in k e f) h =
      rw (e, f) (same-Holds s.service _ s.tasks (refl, refl, refl) h)
  Step-Holds {s} (hooks_out k e f) h =
      rw (e, f) (same-Holds s.service _ s.tasks (refl, refl, refl) h)

  pub Reach-Holds :
      {s u : System Schema}
      → Reach violations msg s u
      → Holds s.service s.tasks
      → Holds u.service u.tasks
  Reach-Holds here h = h
  Reach-Holds (next r st) h = Step-Holds st (Reach-Holds r h)
