-- ===== src/Actions/System.antt =====
-- The service with its executions under way, as a step relation: between any two awaits of one
-- execution the others may take their steps. A step is one stretch of code that runs with no await.
use rigo.Base.{ℕ, String, Bool, List, [], ◌∷◌, Option, some, none, ◌==◌, ◌≡◌, count, if◌then◌else◌}
use rigo.Json.{Json}
use rigo.Actions.Types.{
  ActionDefinition, ActionExecutionRequest, ActionPolicyResult, Result, ok, err,
}
use rigo.Actions.Table.{select_id}
use rigo.Actions.Registry.{Service, register_action, unload, before_policy, dispose_hook}
use rigo.Actions.Execute.{
  Task, Admission, started, answered, Progress, finished, launched, Executed, Caller, Answers,
  admit, govern,
}
use rigo.Actions.Settle.{settle}
use rigo.Actions.Service.{resume, cancel_execution, recover_orphaned_executions}

-- Where an execution under way waits: for the policy hooks, or for its executor.
pub data Stage : Type 0 where
  at_policy executing : Stage

pub record Pending : Type 0 where
  pub task : Task
  pub stage : Stage

pub record System (Schema : Type 0) : Type 0 where
  pub service : Service Schema
  pub tasks : List Pending

unfoldable pub find_task : String → List Pending → Option Pending
find_task i [] = none
find_task i (p ∷ ps) = if p.task.execution_id == i then some p else find_task i ps

unfoldable pub drop_task : String → List Pending → List Pending
drop_task i [] = []
drop_task i (p ∷ ps) =
    let rest = drop_task i ps in if p.task.execution_id == i then rest else p ∷ rest

abbrev pub after_admission : Result Admission → List Pending → List Pending
after_admission (ok (started t)) ps = record { task = t; stage = at_policy } ∷ ps
after_admission (ok (answered a)) ps = ps
after_admission (err e) ps = ps

abbrev pub after_progress : Task → Result Progress → List Pending → List Pending
after_progress t (ok launched) ps =
    record { task = t; stage = executing } ∷ drop_task t.execution_id ps
after_progress t (ok (finished a)) ps = drop_task t.execution_id ps
after_progress t (err e) ps = drop_task t.execution_id ps

abbrev pub after_resume : Result Task → List Pending → List Pending
after_resume (ok t) ps = record { task = t; stage = executing } ∷ ps
after_resume (err e) ps = ps

module _ {Schema : Type 0} where
  abbrev pub registered : Service Schema → Result (Service Schema) → Service Schema
  registered s (ok s') = s'
  registered s (err e) = s

  -- An id that nothing in the system bears: `randomUUID` never gives one twice.
  abbrev pub IsFresh : String → System Schema → Type 0
  IsFresh i s =
      (find_task i s.tasks ≡ none)
      × (select_id i s.service.rows ≡ none)
      × (count i s.service.launches ≡ 0)

module _ {Schema : Type 0} (violations : Schema → Json → List String) (msg : String) where
  pub data Step (s u : System Schema) : Type 0 where
    admits :
        (signalled : Bool) (id : String) (now : ℕ) (req : ActionExecutionRequest)
        → IsFresh id s
        → u.service ≡ (admit violations signalled id now [] req s.service).1
        → u.tasks ≡ after_admission (admit violations signalled id now [] req s.service).0 s.tasks
        → Step s u
    governs :
        (t : Task) (policy : Result ActionPolicyResult) (w : Answers)
        → find_task t.execution_id s.tasks ≡ some (record { task = t; stage = at_policy })
        → u.service ≡ (govern t policy w s.service).1
        → u.tasks ≡ after_progress t (govern t policy w s.service).0 s.tasks
        → Step s u
    settles :
        (t : Task) (e : Executed) (caller : Caller) (w : Answers)
        → find_task t.execution_id s.tasks ≡ some (record { task = t; stage = executing })
        → u.service ≡ (settle msg t e caller w s.service).1
        → u.tasks ≡ drop_task t.execution_id s.tasks
        → Step s u
    resumes :
        (signalled : Bool) (id : String) (w : Answers)
        → u.service ≡ (resume violations signalled id w s.service).1
        → u.tasks ≡ after_resume (resume violations signalled id w s.service).0 s.tasks
        → Step s u
    cancels :
        (id reason : String) (now : ℕ)
        → u.service ≡ (cancel_execution id reason now s.service).1
        → u.tasks ≡ s.tasks
        → Step s u
    -- The host recovers after a start, when nothing is under way.
    recovers :
        (now : ℕ)
        → s.tasks ≡ []
        → u.service ≡ (recover_orphaned_executions now s.service).1
        → u.tasks ≡ s.tasks
        → Step s u
    registers :
        (supported : Schema → Bool) (d : ActionDefinition Schema)
        → u.service ≡ registered s.service (register_action supported d s.service)
        → u.tasks ≡ s.tasks
        → Step s u
    unloads :
        (d : ActionDefinition Schema)
        → u.service ≡ unload d s.service
        → u.tasks ≡ s.tasks
        → Step s u
    hooks_in : (h : ℕ) → u.service ≡ before_policy h s.service → u.tasks ≡ s.tasks → Step s u
    hooks_out : (h : ℕ) → u.service ≡ dispose_hook h s.service → u.tasks ≡ s.tasks → Step s u

  pub data Reach (s : System Schema) : System Schema → Type 0 where
    here : Reach s s
    next : {t u : System Schema} → Reach s t → Step t u → Reach s u
