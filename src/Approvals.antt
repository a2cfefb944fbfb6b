-- ===== src/Approvals.antt =====
-- The approval service: packages/shared/approvals/src/index.ts, class ApprovalsService, over the
-- action service that it resumes and cancels. An expiry is the instant that `Date.parse` gives, or
-- a text that it cannot read. Event logs of the sessions are one list, in order of appending.
pub mod Table
pub mod Decisions
pub mod Resolution
pub mod Consistency
pub mod Tests
use rigo.Base.{
  ℕ, ◌+◌, ◌^◌, String, Bool, true, false, not, List, [], ◌∷◌, ◌++◌, map, Option, some, none, ◌==◌,
  ◌&&◌, ◌||◌, is_some, leb, ltb, nat_eq, option_or, if◌then◌else◌,
}
use mathlib.Core.Option
use rigo.Json.{Json}
use rigo.Actions.Types.{Result, ok, err}
use rigo.Actions.Types
use rigo.Actions.Table.{member}
use rigo.Actions.Registry.{Service}
use rigo.Actions.Execute.{Task, Answers}
use rigo.Actions.Service.{resume, cancel_execution}

pub data ApprovalState : Type 0 where
  pending approved denied expired cancelled : ApprovalState

abbrev pub is_pending : ApprovalState → Bool
is_pending pending = true
is_pending _ = false

pub data Instant : Type 0 where
  at : ℕ → Instant
  unreadable : Instant

-- `request_json`
pub record ApprovalRequest : Type 0 where
  pub action_name : String
  pub target : String
  pub params_summary : String
  pub expected_impact : String

pub data Choice : Type 0 where
  approve deny cancel : Choice

-- `decision_json`
pub record DecisionRecord : Type 0 where
  pub choice : Choice
  pub comment : Option String

pub record ApprovalRecord : Type 0 where
  pub id : String
  pub session_id : String
  pub action_execution_id : String
  pub request : ApprovalRequest
  pub state : ApprovalState
  pub version : ℕ
  pub created_at : ℕ
  pub expires_at : Instant
  pub decided_at : Option ℕ
  pub decision : Option DecisionRecord

pub record ApprovalRequestInput : Type 0 where
  pub session_id : String
  pub action_execution_id : String
  pub request : ApprovalRequest
  pub expires_at : Option Instant
  -- Whether the session to record into is given.
  pub session : Bool

pub record ApprovalDecision : Type 0 where
  pub choice : Choice
  pub expected_version : ℕ
  pub comment : Option String
  pub session : Bool

pub data Event : Type 0 where
  requested :
      (approval_id session_id action_name action_execution_id : String) (expires_at : Instant)
      → Event
  resolved : (approval_id session_id : String) (outcome : ApprovalState) → Event

pub data ApprovalError : Type 0 where
  empty_field : ApprovalError
  invalid_decision : ApprovalError
  insert_refused : ApprovalError
  approval_not_found : String → ApprovalError
  approval_already_decided : String → ApprovalError
  approval_expired : String → Instant → ApprovalError
  resume_failed : Types.Error → ApprovalError

pub data Outcome {ℓ} (A : Type ℓ) : Type ℓ where
  done : A → Outcome A
  raises : ApprovalError → Outcome A

-- The service with the database that it shares with the action service, which may not be mounted.
pub record Approvals (Schema : Type 0) : Type 0 where
  pub ttl_ms : ℕ
  pub sessions : List String
  pub approvals : List ApprovalRecord
  pub events : List Event
  pub actions : Option (Service Schema)

-- `get`
unfoldable pub get : String → List ApprovalRecord → Option ApprovalRecord
get i [] = none
get i (r ∷ rs) = if r.id == i then some r else get i rs

unfoldable pub has_execution : String → List ApprovalRecord → Bool
has_execution i [] = false
has_execution i (r ∷ rs) = if r.action_execution_id == i then true else has_execution i rs

-- The INSERT: `id` is the primary key, `action_execution_id` is unique, the session must be known.
unfoldable pub insert_approval :
    List String → ApprovalRecord → List ApprovalRecord → Option (List ApprovalRecord)
unfolding get has_execution
insert_approval sessions r rs =
    if member r.session_id sessions
      && not (is_some (get r.id rs))
      && not (has_execution r.action_execution_id rs)
    then some (rs ++ r ∷ [])
    else none

abbrev pub new_approval : String → ℕ → Instant → ApprovalRequestInput → ApprovalRecord
new_approval id now expires input = record {
  id = id;
  session_id = input.session_id;
  action_execution_id = input.action_execution_id;
  request = input.request;
  state = pending;
  version = 1;
  created_at = now;
  expires_at = expires;
  decided_at = none;
  decision = none;
}

module _ {Schema : Type 0} where
  unfoldable pub append_event : Bool → Event → Approvals Schema → Approvals Schema
  append_event given e s = if given then record s { events = s.events ++ e ∷ [] } else s

  -- `create`; `id` is the new `approval_<uuid>`.
  unfoldable pub create :
      String
      → ℕ
      → ApprovalRequestInput
      → Approvals Schema
      → Outcome ApprovalRecord × Approvals Schema
  unfolding append_event insert_approval
  create id now input s =
      if (input.session_id == "")
        || (input.action_execution_id == "")
        || (input.request.action_name == "")
        || (input.request.target == "")
      then (raises empty_field, s)
      else let expires = option_or input.expires_at (at (now + s.ttl_ms)) in
        elim (insert_approval s.sessions (new_approval id now expires input) s.approvals) [
          | none ↦ (raises insert_refused, s)
          | some rows ↦ (
            done (new_approval id now expires input),
            append_event input.session
                (requested id input.session_id input.request.action_name input.action_execution_id
                  expires)
                (record s { approvals = rows }),
          )
        ]

abbrev pub state_of_choice : Choice → ApprovalState
state_of_choice approve = approved
state_of_choice deny = denied
state_of_choice cancel = cancelled

unfoldable pub overdue : ℕ → Instant → Bool
overdue now (at t) = leb t now
overdue now unreadable = false

unfoldable pub decide_row : ApprovalState → ApprovalDecision → ℕ → ApprovalRecord → ApprovalRecord
decide_row st d now r = record r {
  state = st;
  decision = some (record { choice = d.choice; comment = d.comment });
  decided_at = some now;
  version = r.version + 1;
}

-- UPDATE ... WHERE id = ? AND state = 'pending' AND version = ?, with the number of changed rows.
unfoldable pub conditional_update :
    String → ApprovalState → ApprovalDecision → ℕ → List ApprovalRecord → List ApprovalRecord × ℕ
unfolding decide_row
conditional_update i st d now [] = ([], 0)
conditional_update i st d now (r ∷ rs) =
    let (rest, n) = conditional_update i st d now rs in
    if (r.id == i) && is_pending r.state && nat_eq r.version d.expected_version
    then (decide_row st d now r ∷ rest, n + 1)
    else (r ∷ rest, n)

-- `listPending`: the pending rows of a session, or all, newest first.
abbrev listed : Option String → ApprovalRecord → Bool
listed none r = is_pending r.state
listed (some session) r = is_pending r.state && (r.session_id == session)

unfoldable pub insert_newest : ApprovalRecord → List ApprovalRecord → List ApprovalRecord
insert_newest r [] = r ∷ []
insert_newest r (x ∷ xs) =
    if ltb r.created_at x.created_at then x ∷ insert_newest r xs else r ∷ x ∷ xs

unfoldable pub list_pending : Option String → List ApprovalRecord → List ApprovalRecord
unfolding insert_newest
list_pending session [] = []
list_pending session (r ∷ rs) =
    let rest = list_pending session rs in if listed session r then insert_newest r rest else rest

module _ {Schema : Type 0} where
  -- `cancelSuspended`: without a mounted action service the outcome stands alone.
  unfoldable pub cancel_suspended :
      ApprovalRecord → String → ℕ → Approvals Schema → Approvals Schema
  cancel_suspended r reason now s = record s {
    actions =
        Option.map (λ actions. (cancel_execution r.action_execution_id reason now actions).1)
          s.actions;
  }

  -- `applyConditionalUpdate`: whether exactly one row moved.
  unfoldable pub apply_conditional_update :
      String → ApprovalState → ApprovalDecision → ℕ → Approvals Schema → Bool × Approvals Schema
  apply_conditional_update i st d now s =
      let (rows, n) = conditional_update i st d now s.approvals in
      (nat_eq n 1, record s { approvals = rows })

-- A decision that took effect: the updated approval, and the execution that it set going.
pub record Resolved : Type 0 where
  pub approval : ApprovalRecord
  pub execution : Option Task

module _ {Schema : Type 0} (violations : Schema → Json → List String) where
  -- `resumeSuspended`, up to the call of the executor.
  unfoldable pub resume_suspended :
      ApprovalRecord → Answers → Approvals Schema → Outcome Resolved × Approvals Schema
  resume_suspended r w s = elim s.actions [
    | none ↦ (done (record { approval = r; execution = none }), s)
    | some actions ↦
        let (outcome, actions') = resume violations false r.action_execution_id w actions in
        (
          elim outcome [
            | ok t ↦ done (record { approval = r; execution = some t })
            | err e ↦ raises (resume_failed e)
          ],
          record s { actions = some actions' },
        )
  ]

  -- What follows the decision's event.
  unfoldable pub follow_up :
      Choice → ApprovalRecord → Answers → Approvals Schema → Outcome Resolved × Approvals Schema
  unfolding cancel_suspended resume_suspended
  follow_up approve r w s = resume_suspended r w s
  follow_up deny r w s = (
    done (record { approval = r; execution = none }),
    cancel_suspended r "approval denied" w.now s,
  )
  follow_up cancel r w s = (
    done (record { approval = r; execution = none }),
    cancel_suspended r "approval cancelled" w.now s,
  )

  -- The decision of a request that is not overdue; `r` is the row that was read before.
  unfoldable pub resolve :
      ApprovalRecord
      → ApprovalDecision
      → Answers
      → Approvals Schema
      → Outcome Resolved × Approvals Schema
  unfolding append_event follow_up
  resolve r d w s =
      let (changed, s') = apply_conditional_update r.id (state_of_choice d.choice) d w.now s in
      if changed
      then follow_up d.choice (option_or (get r.id s'.approvals) r) w
          (append_event d.session (resolved r.id r.session_id (state_of_choice d.choice)) s')
      else (raises (approval_already_decided r.id), s')

  -- An overdue request: whatever the update did, the execution is cancelled and the error raised.
  unfoldable pub expire :
      ApprovalRecord
      → ApprovalDecision
      → Answers
      → Approvals Schema
      → Outcome Resolved × Approvals Schema
  unfolding append_event cancel_suspended
  expire r d w s =
      let (changed, s') = apply_conditional_update r.id expired d w.now s in
      (
        raises (approval_expired r.id r.expires_at),
        append_event d.session (resolved r.id r.session_id expired)
            (cancel_suspended r "approval expired" w.now s'),
      )

  unfoldable pub decide :
      String → ApprovalDecision → Answers → Approvals Schema → Outcome Resolved × Approvals Schema
  unfolding expire resolve get
  decide i d w s =
      if not (leb 1 d.expected_version && ltb d.expected_version (2 ^ 53))
      then (raises invalid_decision, s)
      else elim (get i s.approvals) [
        | none ↦ (raises (approval_not_found i), s)
        | some r ↦
            if is_pending r.state && overdue w.now r.expires_at
            then expire r d w s
            else resolve r d w s
      ]
