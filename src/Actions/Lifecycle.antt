-- ===== src/Actions/Lifecycle.antt =====
-- The life of an execution, over every interleaving of the service's methods: which states its row
-- passes through, and how often its executor is called.
use rigo.Base.{
  ℕ, suc, ◌≤◌, String, Bool, true, false, List, [], ◌∷◌, ◌++◌, Option, some, none, ◌==◌, ◌≡◌, ◌≢◌,
  ◌&&◌, refl, arith, eq_iff, is_some, if◌then◌else◌, count, ap, sym, ◌∙◌,
}
use mathlib.Core.Option
use mathlib.Core.Path.{transport}
use mathlib.Core.List.{append-nil}
use rigo.Actions.Types.{
  ActionState, proposed, running, recovery_required, awaiting_approval, succeeded, failed,
  cancelled, Result, ok, err,
}
use rigo.Actions.Registry.{Service}
use rigo.Actions.Execute.{Task, Progress, launched, finished}
use rigo.Actions.Effects.{state_of, Effect, Governed, stopped, refused, suspended, called}
use rigo.Actions.Endings.{IsFinal}
use rigo.Actions.Admissions.{recovered}
use rigo.Actions.System.{Stage, at_policy, executing, Pending, find_task, drop_task, after_progress}

unfoldable pub stage_of : String → List Pending → Option Stage
stage_of i ps = Option.map (λ p. p.stage) (find_task i ps)

-- What may be said of one id: where its execution waits, the state of its row, and the number of
-- calls of its executor.
abbrev pub Good : Bool → Option Stage → Option ActionState → ℕ → Type 0
Good true none none n = n ≡ 0
Good true none (some proposed) n = n ≡ 0
Good true none (some awaiting_approval) n = n ≡ 0
Good true none (some running) n = n ≤ 1
Good true none (some succeeded) n = n ≤ 1
Good true none (some failed) n = n ≤ 1
Good true none (some cancelled) n = n ≤ 1
Good true none (some recovery_required) n = n ≤ 1
Good true (some at_policy) (some proposed) n = n ≡ 0
Good true (some at_policy) _ n = ⊥
Good true (some executing) (some running) n = n ≡ 1
Good true (some executing) _ n = ⊥
Good false none _ n = n ≤ 1
Good false (some at_policy) _ n = n ≡ 0
Good false (some executing) _ n = n ≡ 1

pub record Holds {Schema : Type 0} (s : Service Schema) (ps : List Pending) : Type 0 where
  pub good :
      (i : String) → Good s.has_driver (stage_of i ps) (state_of i s.rows) (count i s.launches)
  pub persists :
      (i : String) (p : Pending) → find_task i ps ≡ some p → p.task.persistent ≡ s.has_driver

pub find_task-drop_task :
    (i j : String) (ps : List Pending)
    → find_task j (drop_task i ps) ≡ (if i == j then none else find_task j ps)
unfolding find_task drop_task
find_task-drop_task i j [] = ground arith
find_task-drop_task i j (p ∷ ps) = ground (
  arith,
  find_task-drop_task i j ps,
  eq_iff p.task.execution_id i,
  eq_iff p.task.execution_id j,
  eq_iff i j,
)

pub count-append :
    (i j : String) (js : List String)
    → count i (js ++ j ∷ []) ≡ (if j == i then suc (count i js) else count i js)
count-append i j [] = refl
count-append i j (k ∷ js) = ground (arith, count-append i j js)

-- An execution's own step, at its id (`same`) and at any other.
abbrev pub moved : Bool → Option ActionState → Option ActionState → Option ActionState
moved hit target x =
    if hit && is_some target
    then Option.map (λ old. elim target [ none ↦ old | some st ↦ st ]) x
    else x

abbrev pub restaged : Bool → Option Stage → Option Stage → Option Stage
restaged same new old = if same then new else old

Good-called :
    (d same : Bool) (g : Option Stage) (x : Option ActionState) (n : ℕ)
    → (same ≡ true → g ≡ some at_policy)
    → Good d g x n
    → Good d
        (restaged same (some executing) g)
        (moved (d && same) (some running) x)
        (if same then suc n else n)
Good-called d false g x n e h = ground arith
Good-called true true g x n e h = ground (arith, e refl)
Good-called false true g x n e h = ground (arith, e refl)

-- A resumed execution ran nowhere and awaited approval.
pub Good-resumed :
    (d same : Bool) (g : Option Stage) (x : Option ActionState) (n : ℕ)
    → d ≡ true
    → (same ≡ true → x ≡ some awaiting_approval)
    → Good d g x n
    → Good d
        (restaged same (some executing) g)
        (moved (d && same) (some running) x)
        (if same then suc n else n)
Good-resumed true false g x n on e h = ground arith
Good-resumed true true g x n on e h = ground (arith, e refl)
Good-resumed false same g x n on e h = cc

pub Good-cancelled :
    (d same : Bool) (g : Option Stage) (x : Option ActionState) (n : ℕ)
    → (same ≡ true → x ≡ some awaiting_approval)
    → Good d g x n
    → Good d g (if same then Option.map (λ _. cancelled) x else x) n
Good-cancelled d false g x n e h = h
Good-cancelled true true g x n e h = ground (arith, e refl)
Good-cancelled false true none x n e h = h
Good-cancelled false true (some at_policy) x n e h = h
Good-cancelled false true (some executing) x n e h = h

-- A fresh id enters.
pub Good-admitted :
    (d same : Bool) (g : Option Stage) (x : Option ActionState) (n : ℕ)
    → (same ≡ true → (g ≡ none) × (x ≡ none) × (n ≡ 0))
    → Good d g x n
    → Good d
        (restaged same (some at_policy) g)
        (if d then (if is_some x then x else if same then some proposed else none) else x)
        n
Good-admitted true false g x n e h = ground arith
Good-admitted false false g x n e h = ground arith
Good-admitted true true g x n e h = ground (arith, e refl)
Good-admitted false true g x n e h = ground (arith, e refl)

-- After a crash nothing is under way.
pub Good-recovered :
    (d : Bool) (x : Option ActionState) (n : ℕ)
    → Good d none x n
    → Good d none (if d then Option.map recovered x else x) n
Good-recovered true none n h = h
Good-recovered true (some st) n h = ground arith
Good-recovered false x n h = h

Good-stopped :
    (d same : Bool) (g : Option Stage) (x : Option ActionState) (n : ℕ)
    → (same ≡ true → g ≡ some at_policy)
    → Good d g x n
    → Good d (restaged same none g) (moved (d && same) none x) n
Good-stopped d false g x n e h = ground arith
Good-stopped true true g x n e h = ground (arith, e refl)
Good-stopped false true g x n e h = ground (arith, e refl)

Good-refused :
    (d same : Bool) (g : Option Stage) (x : Option ActionState) (n : ℕ)
    → (same ≡ true → g ≡ some at_policy)
    → Good d g x n
    → Good d (restaged same none g) (moved (d && same) (some cancelled) x) n
Good-refused d false g x n e h = ground arith
Good-refused true true g x n e h = ground (arith, e refl)
Good-refused false true g x n e h = ground (arith, e refl)

Good-suspended :
    (d same : Bool) (g : Option Stage) (x : Option ActionState) (n : ℕ)
    → (same ≡ true → g ≡ some at_policy)
    → Good d g x n
    → Good d (restaged same none g) (moved (d && same) (some awaiting_approval) x) n
Good-suspended d false g x n e h = ground arith
Good-suspended true true g x n e h = ground (arith, e refl)
Good-suspended false true g x n e h = ground (arith, e refl)

pub Good-settled :
    (d same : Bool) (g : Option Stage) (x : Option ActionState) (n : ℕ) (st : ActionState)
    → IsFinal st
    → (same ≡ true → g ≡ some executing)
    → Good d g x n
    → Good d (restaged same none g) (moved (d && same) (some st) x) n
Good-settled d false g x n st f e h = ground arith
Good-settled true true g x n st f e h = ground (arith, e refl)
Good-settled false true g x n st f e h = ground (arith, e refl)

-- The stage of the one task, and the calls, after its step.
pub stage_of-drop_task :
    (i j : String) (ps : List Pending)
    → stage_of j (drop_task i ps) ≡ restaged (i == j) none (stage_of j ps)
unfolding stage_of
stage_of-drop_task i j ps = ground (arith, find_task-drop_task i j ps)

pub stage_of-cons :
    (t : Task) (g : Stage) (j : String) (ps : List Pending)
    → stage_of j (record { task = t; stage = g } ∷ ps)
      ≡ restaged (t.execution_id == j) (some g) (stage_of j ps)
unfolding stage_of find_task
stage_of-cons t g j ps = ground arith

pub stage_of_found :
    (t : Task) (g : Stage) (ps : List Pending) (j : String)
    → find_task t.execution_id ps ≡ some (record { task = t; stage = g })
    → (t.execution_id == j) ≡ true
    → stage_of j ps ≡ some g
unfolding stage_of
stage_of_found t g ps j here e = rw (← (eq_iff t.execution_id j).0 e, here)

pub count-nil : (j : String) (js : List String) → count j js ≡ count j (js ++ [])
count-nil j js = ap (count j) (sym (append-nil js))

-- A task that was not launched is dropped.
stage_of-dropped :
    (t : Task) (r : Result Progress) (ps : List Pending) (j : String)
    → r ≢ ok launched
    → stage_of j (after_progress t r ps) ≡ restaged (t.execution_id == j) none (stage_of j ps)
stage_of-dropped t (err e) ps j x = stage_of-drop_task t.execution_id j ps
stage_of-dropped t (ok (finished a)) ps j x = stage_of-drop_task t.execution_id j ps
stage_of-dropped t (ok launched) ps j x = absurd (x refl)

pub Good-cong :
    {d d' : Bool} {g g' : Option Stage} {x x' : Option ActionState} {n n' : ℕ}
    → d ≡ d'
    → g ≡ g'
    → x ≡ x'
    → n ≡ n'
    → Good d g x n
    → Good d' g' x' n'
Good-cong dd gg xx nn = transport (λ i. Good (dd i) (gg i) (xx i) (nn i))

-- The invariant at one id, with the effect of a step put in.
module _ {Schema : Type 0} where
  pub Effect-Good :
      (t : Task) (target : Option ActionState) (s s' : Service Schema) (j : String)
      (g : Option Stage) (calls : List String)
      → t.persistent ≡ s.has_driver
      → Effect t target calls s s'
      → Good s.has_driver g
          (moved (s.has_driver && (t.execution_id == j)) target (state_of j s.rows))
          (count j (s.launches ++ calls))
      → Good s'.has_driver g (state_of j s'.rows) (count j s'.launches)
  Effect-Good t target s s' j g calls persists e h =
      Good-cong (sym e.driver) refl (ground (arith, e.states j)) (ap (count j) (sym e.launches)) h

  pub Governed-Good :
      (t : Task) (r : Result Progress) (s s' : Service Schema) (ps : List Pending) (j : String)
      → find_task t.execution_id ps ≡ some (record { task = t; stage = at_policy })
      → t.persistent ≡ s.has_driver
      → Governed t s r s'
      → Good s.has_driver (stage_of j ps) (state_of j s.rows) (count j s.launches)
      → Good s'.has_driver
          (stage_of j (after_progress t r ps))
          (state_of j s'.rows)
          (count j s'.launches)
  Governed-Good t r s s' ps j here persists (called runs e) h =
      Effect-Good t _ s s' j _ _ persists e (
        Good-cong refl
          (sym (
            ap (λ y. stage_of j (after_progress t y ps)) runs
            ∙ stage_of-cons t executing j (drop_task t.execution_id ps)
            ∙ ground (arith, stage_of-drop_task t.execution_id j ps)))
          refl (sym (count-append j t.execution_id s.launches))
          (Good-called s.has_driver (t.execution_id == j) (stage_of j ps) (state_of j s.rows) _
            (stage_of_found t at_policy ps j here) h))
  Governed-Good t r s s' ps j here persists (stopped x e) h =
      Effect-Good t _ s s' j _ _ persists e (
        Good-cong refl (sym (stage_of-dropped t r ps j x)) refl (count-nil j s.launches) (
          Good-stopped s.has_driver (t.execution_id == j) (stage_of j ps) (state_of j s.rows) _
            (stage_of_found t at_policy ps j here) h))
  Governed-Good t r s s' ps j here persists (refused x e) h =
      Effect-Good t _ s s' j _ _ persists e (
        Good-cong refl (sym (stage_of-dropped t r ps j x)) refl (count-nil j s.launches) (
          Good-refused s.has_driver (t.execution_id == j) (stage_of j ps) (state_of j s.rows) _
            (stage_of_found t at_policy ps j here) h))
  Governed-Good t r s s' ps j here persists (suspended x e) h =
      Effect-Good t _ s s' j _ _ persists e (
        Good-cong refl (sym (stage_of-dropped t r ps j x)) refl (count-nil j s.launches) (
          Good-suspended s.has_driver (t.execution_id == j) (stage_of j ps) (state_of j s.rows) _
            (stage_of_found t at_policy ps j here) h))
