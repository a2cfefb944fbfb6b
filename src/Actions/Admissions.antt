-- ===== src/Actions/Admissions.antt =====
-- The effects of `admit` and of the recovery pass.
use rigo.Base.{
  ℕ, String, Bool, true, false, List, [], ◌∷◌, ◌++◌, Option, some, none, ◌==◌, ◌≡◌, ◌≢◌, ◌⊎◌, inl,
  inr, refl, arith, is_some, is_empty, if◌then◌else◌, Bool-cases, Option-cases, sym, option_or,
}
use Prim.Native.String.{◌++◌ as join}
use mathlib.Core.List.{append-nil}
use mathlib.Core.Option
use rigo.Json.{Json}
use rigo.Actions.Types.{
  ActionState, proposed, recovery_required, ok, err, Result, ActionDefinition,
  ActionExecutionRequest, ActionExecutionResult, session_id_required, aborted, action_not_found,
  invalid_input,
}
use rigo.Actions.Table.{
  Row, select_id, insert_row, recover_rows, select_id-append, find_execution, is_orphan,
}
use rigo.Actions.Registry.{Service, find_definition}
use rigo.Actions.Replay.{replay}
use rigo.Actions.Execute.{
  admit, admit_valid, admit_persistent, reserve, enter, new_task, new_row, Admission, started,
  answer, Task,
}
use rigo.Actions.Effects.{state_of}

-- A new execution: its task, and its row in state `proposed` if there is a driver.
pub record Admitted {Schema : Type 0} (id : String) (r : Result Admission) (s s' : Service Schema)
    : Type 0 where
  pub task : Task
  pub starts : r ≡ ok (started task)
  pub named : task.execution_id ≡ id
  pub persists : task.persistent ≡ s.has_driver
  pub states :
      (j : String)
      → state_of j s'.rows ≡ (
          if s.has_driver
          then (if is_some (state_of j s.rows)
              then state_of j s.rows
              else if id == j
              then some proposed
              else none)
          else state_of j s.rows)
  pub launches : s'.launches ≡ s.launches
  pub driver : s'.has_driver ≡ s.has_driver

-- Nothing started: an error, or an answer from a row.
pub record Turned {Schema : Type 0} (r : Result Admission) (s s' : Service Schema) : Type 0 where
  pub starts_not : (t : Task) → r ≢ ok (started t)
  pub rows : s'.rows ≡ s.rows
  pub launches : s'.launches ≡ s.launches
  pub driver : s'.has_driver ≡ s.has_driver

insert_row_cases :
    (sessions : List String) (r : Row) (rs : List Row)
    → (insert_row sessions r rs ≡ none) ⊎ (insert_row sessions r rs ≡ some (rs ++ r ∷ []))
unfolding insert_row
insert_row_cases sessions r rs = ground arith

answer-ne-started : (x : Result ActionExecutionResult) (t : Task) → answer x ≢ ok (started t)
answer-ne-started (ok a) t e = cc
answer-ne-started (err e') t e = cc

state_of-append :
    (j : String) (rs : List Row) (r : Row)
    → state_of j (rs ++ r ∷ []) ≡ (
        if is_some (state_of j rs) then state_of j rs else if r.id == j then some r.state else none)
unfolding state_of
state_of-append j rs r = ground (arith, select_id-append j rs r)

module _ {Schema : Type 0} where
  abbrev pub Admits : String → Result Admission → Service Schema → Service Schema → Type 0
  Admits id r s s' = Turned r s s' ⊎ Admitted id r s s'

  stay :
      (id : String) (r : Result Admission) (s : Service Schema)
      → ((t : Task) → r ≢ ok (started t))
      → Admits id r s s
  stay id r s h = inl (record { starts_not = h; rows = refl; launches = refl; driver = refl })

  reserve-Admits :
      (d : ActionDefinition Schema) (id : String) (now : ℕ) (req : ActionExecutionRequest)
      (session key : String) (s : Service Schema)
      → s.has_driver ≡ true
      → Admits id
          (reserve d id now [] req session key s).0
          s
          (reserve d id now [] req session key s).1
  unfolding reserve
  reserve-Admits d id now req session key s on =
      elim (insert_row_cases s.sessions (new_row d id req session key now) (s.rows ++ [])) [
        | inr wrote ↦
            rw (wrote, reserve)
              (inr (record {
                task = new_task d id req true;
                starts = refl;
                named = refl;
                persists = sym on;
                states = λ j. ground (
                  arith,
                  append-nil s.rows,
                  state_of-append j (s.rows ++ []) (new_row d id req session key now),
                );
                launches = refl;
                driver = refl;
              }))
        | inl refused ↦ elim (Option-cases (find_execution d.name key (s.rows ++ []))) [
          | inl none_there ↦
              rw (refused, reserve, none_there)
                (inl (record {
                  starts_not = λ t x. cc;
                  rows = append-nil s.rows;
                  launches = refl;
                  driver = refl;
                }))
          | inr (raced, there) ↦
              rw (refused, reserve, there)
                (inl (record {
                  starts_not = answer-ne-started (replay raced req);
                  rows = append-nil s.rows;
                  launches = refl;
                  driver = refl;
                }))
        ]
      ]

  admit_persistent-Admits :
      (d : ActionDefinition Schema) (id : String) (now : ℕ) (req : ActionExecutionRequest)
      (session : Option String) (s : Service Schema)
      → s.has_driver ≡ true
      → Admits id
          (admit_persistent d id now [] req session s).0
          s
          (admit_persistent d id now [] req session s).1
  unfolding admit_persistent
  admit_persistent-Admits d id now req none s on = stay id _ s (λ t x. cc)
  admit_persistent-Admits d id now req (some session) s on = elim (Bool-cases (session == "")) [
    | inl empty ↦ rw empty (stay id (err (session_id_required d.name)) s (λ t x. cc))
    | inr named ↦
        let key : String = option_or req.idempotency_key (join "auto-" id) in
        elim (Option-cases (find_execution d.name key s.rows)) [
          | inl fresh ↦
              rw (named, fresh, admit_persistent) (reserve-Admits d id now req session key s on)
          | inr (row, known) ↦
              rw (named, known, admit_persistent)
                (stay id (answer (replay row req)) s (answer-ne-started (replay row req)))
        ]
  ]

  admit_valid-on :
      (d : ActionDefinition Schema) (id : String) (now : ℕ) (req : ActionExecutionRequest)
      (s : Service Schema)
      → s.has_driver ≡ true
      → admit_valid d id now [] req s ≡ admit_persistent d id now [] req req.session_id s
  unfolding admit_valid
  admit_valid-on d id now req s on = simp on

  admit_valid-off :
      (d : ActionDefinition Schema) (id : String) (now : ℕ) (req : ActionExecutionRequest)
      (s : Service Schema)
      → s.has_driver ≡ false
      → admit_valid d id now [] req s
        ≡ (ok (started (new_task d id req false)), enter (new_task d id req false) s)
  unfolding admit_valid
  admit_valid-off d id now req s off = simp off

  admit_valid-Admits :
      (d : ActionDefinition Schema) (id : String) (now : ℕ) (req : ActionExecutionRequest)
      (s : Service Schema)
      → Admits id (admit_valid d id now [] req s).0 s (admit_valid d id now [] req s).1
  unfolding enter
  admit_valid-Admits d id now req s = elim (Bool-cases s.has_driver) [
    | inl on ↦
        rw (admit_valid-on d id now req s on)
          (admit_persistent-Admits d id now req req.session_id s on)
    | inr off ↦ rw (admit_valid-off d id now req s off) (
        inr (record {
          task = new_task d id req false;
          starts = refl;
          named = refl;
          persists = sym off;
          states = λ j. ground arith;
          launches = refl;
          driver = refl;
        }))
  ]

  pub admit-Admits :
      (violations : Schema → Json → List String) (signalled : Bool) (id : String) (now : ℕ)
      (req : ActionExecutionRequest) (s : Service Schema)
      → Admits id
          (admit violations signalled id now [] req s).0
          s
          (admit violations signalled id now [] req s).1
  unfolding admit
  admit-Admits violations true id now req s = stay id (err aborted) s (λ t x. cc)
  admit-Admits violations false id now req s =
      elim (Option-cases (find_definition req.action s.definitions)) [
        | inl unknown ↦
            rw (unknown, admit) (stay id (err (action_not_found req.action)) s (λ t x. cc))
        | inr (d, found) ↦ elim (Bool-cases (is_empty (violations d.input_schema req.input))) [
          | inl valid ↦ rw (found, admit, valid) (admit_valid-Admits d id now req s)
          | inr invalid ↦
              rw (found, admit, invalid)
                (stay id (err (invalid_input d.name (violations d.input_schema req.input))) s
                  (λ t x. cc))
        ]
      ]

-- The recovery pass moves every orphan, and no other row.
abbrev pub recovered : ActionState → ActionState
recovered st = if is_orphan st then recovery_required else st

pub state_of-recover_rows :
    (now : ℕ) (j : String) (rs : List Row)
    → state_of j (recover_rows now rs).0 ≡ Option.map recovered (state_of j rs)
unfolding recover_rows state_of select_id
state_of-recover_rows now j [] = refl
state_of-recover_rows now j (r ∷ rs) = ground (arith, state_of-recover_rows now j rs)
