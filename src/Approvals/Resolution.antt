-- ===== src/Approvals/Resolution.antt =====
-- A decision that takes effect: the row, the event, and what the action service is told.
use rigo.Base.{
  ℕ, String, Bool, true, false, List, [], ◌∷◌, ◌++◌, some, ◌≡◌, refl, arith, eq_self, if◌then◌else◌,
  ap, sym, ◌∙◌, ◌+◌,
}
use std.Path.{ap₂}
use rigo.Json.{Json}
use rigo.Actions.Registry.{Service}
use rigo.Actions.Execute.{Answers}
use rigo.Actions.Service.{cancel_execution, resume}
use rigo.Approvals.{
  approved, denied, cancelled, is_pending, Approvals, ApprovalRecord, ApprovalState, expired,
  ApprovalDecision, Choice, approve, deny, cancel, get, conditional_update, decide_row, decide,
  expire, resolve, follow_up, resume_suspended, cancel_suspended, apply_conditional_update,
  append_event, overdue, raises, state_of_choice, Event, approval_expired, resolved,
}
use rigo.Approvals.Table.{Unique, is_hit, get-id, get-conditional_update, conditional_update_count}
use rigo.Approvals.Decisions.{
  is_valid, decide_found, append_event-approvals, append_event-actions, cancel_suspended-actions,
  cancel_suspended-approvals,
}

hit_row :
    (st : ApprovalState) (d : ApprovalDecision) (now : ℕ) (rs : List ApprovalRecord)
    (r : ApprovalRecord)
    → get r.id rs ≡ some r
    → is_hit d r ≡ true
    → get r.id (conditional_update r.id st d now rs).0 ≡ some (decide_row st d now r)
hit_row st d now rs r found hit =
    ground (arith, get-conditional_update r.id st d now r.id rs, eq_self r.id)

module _ {Schema : Type 0} where
  -- The service with the row moved.
  abbrev moved :
      ApprovalRecord → ApprovalState → ApprovalDecision → ℕ → Approvals Schema → Approvals Schema
  moved r st d now s = record s { approvals = (conditional_update r.id st d now s.approvals).0 }

  hit_update :
      (st : ApprovalState) (d : ApprovalDecision) (now : ℕ) (s : Approvals Schema)
      (r : ApprovalRecord)
      → Unique s.approvals
      → get r.id s.approvals ≡ some r
      → is_hit d r ≡ true
      → apply_conditional_update r.id st d now s ≡ (true, moved r st d now s)
  unfolding apply_conditional_update
  hit_update st d now s r u found hit =
      ground (arith, conditional_update_count r.id st d now s.approvals r u found)

  append_event-events :
      (given : Bool) (e : Event) (s : Approvals Schema)
      → (append_event given e s).events ≡ (if given then s.events ++ e ∷ [] else s.events)
  unfolding append_event
  append_event-events given e s = ground arith

  cancel_suspended-events :
      (r : ApprovalRecord) (reason : String) (now : ℕ) (s : Approvals Schema)
      → (cancel_suspended r reason now s).events ≡ s.events
  unfolding cancel_suspended
  cancel_suspended-events r reason now s = refl

-- What the row of a request comes to by a choice.
abbrev pub outcome : Choice → ApprovalState
outcome approve = approved
outcome deny = denied
outcome cancel = cancelled

state_of_choice-outcome : (c : Choice) → state_of_choice c ≡ outcome c
state_of_choice-outcome approve = refl
state_of_choice-outcome deny = refl
state_of_choice-outcome cancel = refl

-- The row with what a decision writes.
abbrev stamped : ApprovalRecord → ApprovalDecision → ℕ → ApprovalState → ℕ → ApprovalRecord
stamped r d now st version = record r {
  state = st;
  decision = some (record { choice = d.choice; comment = d.comment });
  decided_at = some now;
  version = version;
}

module _ {Schema : Type 0} (violations : Schema → Json → List String) where
  resolve_hit :
      (r : ApprovalRecord) (d : ApprovalDecision) (w : Answers) (s : Approvals Schema)
      → Unique s.approvals
      → get r.id s.approvals ≡ some r
      → is_hit d r ≡ true
      → resolve violations r d w s
        ≡ follow_up violations d.choice (decide_row (state_of_choice d.choice) d w.now r) w (
            append_event d.session
              (resolved r.id r.session_id (state_of_choice d.choice))
              (moved r (state_of_choice d.choice) d w.now s))
  unfolding resolve
  resolve_hit r d w s u found hit = rw (
    hit_update (state_of_choice d.choice) d w.now s r u found hit,
    hit_row (state_of_choice d.choice) d w.now s.approvals r found hit,
    resolve,
  )

  expire_hit :
      (r : ApprovalRecord) (d : ApprovalDecision) (w : Answers) (s : Approvals Schema)
      → Unique s.approvals
      → get r.id s.approvals ≡ some r
      → is_hit d r ≡ true
      → expire violations r d w s ≡ (
        raises (approval_expired r.id r.expires_at),
        append_event d.session
            (resolved r.id r.session_id expired)
            (cancel_suspended r "approval expired" w.now (moved r expired d w.now s)),
      )
  unfolding expire
  expire_hit r d w s u found hit = rw (hit_update expired d w.now s r u found hit, expire)

  -- What the action service is told of a decision.
  abbrev pub told : Choice → String → Answers → Service Schema → Service Schema
  told approve i w a = (resume violations false i w a).1
  told deny i w a = (cancel_execution i "approval denied" w.now a).1
  told cancel i w a = (cancel_execution i "approval cancelled" w.now a).1

  follow_up-fields :
      (c : Choice) (r : ApprovalRecord) (w : Answers) (s : Approvals Schema) (a : Service Schema)
      → s.actions ≡ some a
      → ((follow_up violations c r w s).1.approvals ≡ s.approvals)
        × ((follow_up violations c r w s).1.events ≡ s.events)
        × ((follow_up violations c r w s).1.actions ≡ some (told c r.action_execution_id w a))
  unfolding follow_up resume_suspended
  follow_up-fields approve r w s a e = ground (arith, e)
  follow_up-fields deny r w s a e = (
    cancel_suspended-approvals r "approval denied" w.now s,
    cancel_suspended-events r "approval denied" w.now s,
    cancel_suspended-actions r "approval denied" w.now s a e,
  )
  follow_up-fields cancel r w s a e = (
    cancel_suspended-approvals r "approval cancelled" w.now s,
    cancel_suspended-events r "approval cancelled" w.now s,
    cancel_suspended-actions r "approval cancelled" w.now s a e,
  )

  decide_resolves :
      (i : String) (d : ApprovalDecision) (w : Answers) (s : Approvals Schema) (r : ApprovalRecord)
      → is_valid d ≡ true
      → get i s.approvals ≡ some r
      → overdue w.now r.expires_at ≡ false
      → decide violations i d w s ≡ resolve violations r d w s
  decide_resolves i d w s r valid found early =
      ground (arith, decide_found violations i d w s r valid found, early)

  -- A valid decision on a pending request at its version, before its expiry: approve moves the row
  -- to `approved`, deny to `denied` and cancel to `cancelled`, with the decision's choice and comment,
  -- the time of the decision and the next version, and nothing else of the row or its id changes;
  -- with a session one event with that state is appended; the action service resumes exactly the
  -- request's execution when the choice is approve, and cancels exactly it when not.
  pub decide_takes_effect :
      (i : String) (d : ApprovalDecision) (w : Answers) (s : Approvals Schema) (r : ApprovalRecord)
      (a : Service Schema)
      → is_valid d ≡ true
      → Unique s.approvals
      → get i s.approvals ≡ some r
      → is_pending r.state ≡ true
      → r.version ≡ d.expected_version
      → overdue w.now r.expires_at ≡ false
      → s.actions ≡ some a
      → (get i (decide violations i d w s).1.approvals
          ≡ some (record r {
            state = outcome d.choice;
            decision = some (record { choice = d.choice; comment = d.comment });
            decided_at = some w.now;
            version = d.expected_version + 1;
          }))
        × ((decide violations i d w s).1.events ≡ (
            if d.session
            then s.events ++ resolved i r.session_id (outcome d.choice) ∷ []
            else s.events))
        × ((decide violations i d w s).1.actions ≡ some (told d.choice r.action_execution_id w a))
  unfolding decide_row
  decide_takes_effect i d w s r a valid u found waiting current early mounted =
      let hit : is_hit d r ≡ true = ground (arith, waiting, current) in
      let chosen = state_of_choice-outcome d.choice in
      let named : r.id ≡ i = get-id i s.approvals r found in
      let held : get r.id s.approvals ≡ some r = ap (λ j. get j s.approvals) named ∙ found in
      let st = state_of_choice d.choice in
      let s' = append_event d.session (resolved r.id r.session_id st) (moved r st d w.now s) in
      let whole = decide_resolves i d w s r valid found early ∙ resolve_hit r d w s u held hit in
      let fields =
        follow_up-fields d.choice (decide_row st d w.now r) w s' a
          (append_event-actions d.session _ (moved r st d w.now s) ∙ mounted) in
      (
        ap (λ o. get i o.1.approvals) whole
            ∙ ap (get i) fields.0
            ∙ ap (get i) (append_event-approvals d.session _ (moved r st d w.now s))
            ∙ ap (λ j. get j (moved r st d w.now s).approvals) (sym named)
            ∙ hit_row st d w.now s.approvals r held hit
            ∙ ap₂ (λ o n. some (stamped r d w.now o n)) chosen (ap (λ n. n + 1) current),
        ap (λ o. o.1.events) whole
            ∙ fields.1
            ∙ append_event-events d.session _ (moved r st d w.now s)
            ∙ ap₂
                (λ j o. if d.session then s.events ++ resolved j r.session_id o ∷ [] else s.events)
                named chosen,
        ap (λ o. o.1.actions) whole ∙ fields.2,
      )
