-- ===== src/Approvals/Decisions.antt =====
-- What a decision does, on every branch.
use rigo.Base.{
  ℕ, ◌^◌, String, Bool, true, false, List, some, ◌&&◌, ◌≡◌, ◌≢◌, refl, arith, leb, ltb,
  if◌then◌else◌, ap, ◌∙◌,
}
use rigo.Json.{Json}
use rigo.Actions.Registry.{Service}
use rigo.Actions.Execute.{Answers}
use rigo.Actions.Service.{cancel_execution}
use rigo.Approvals.{
  Approvals, ApprovalRecord, ApprovalState, pending, expired, is_pending, ApprovalDecision, get,
  decide, expire, resolve, cancel_suspended, apply_conditional_update, append_event, overdue,
  raises, state_of_choice, Event, approval_already_decided, approval_expired, resolved,
}
use rigo.Approvals.Table.{
  Unique, is_hit, get-id, conditional_update_count, conditional_update_missed,
}

-- The check of the decision's shape.
abbrev pub is_valid : ApprovalDecision → Bool
is_valid d = leb 1 d.expected_version && ltb d.expected_version (2 ^ 53)

module _ {Schema : Type 0} where
  pub append_event-approvals :
      (given : Bool) (e : Event) (s : Approvals Schema)
      → (append_event given e s).approvals ≡ s.approvals
  unfolding append_event
  append_event-approvals given e s = ground arith

  pub append_event-actions :
      (given : Bool) (e : Event) (s : Approvals Schema)
      → (append_event given e s).actions ≡ s.actions
  unfolding append_event
  append_event-actions given e s = ground arith

  pub cancel_suspended-approvals :
      (r : ApprovalRecord) (reason : String) (now : ℕ) (s : Approvals Schema)
      → (cancel_suspended r reason now s).approvals ≡ s.approvals
  unfolding cancel_suspended
  cancel_suspended-approvals r reason now s = refl

  pub cancel_suspended-actions :
      (r : ApprovalRecord) (reason : String) (now : ℕ) (s : Approvals Schema) (a : Service Schema)
      → s.actions ≡ some a
      → (cancel_suspended r reason now s).actions
        ≡ some (cancel_execution r.action_execution_id reason now a).1
  unfolding cancel_suspended
  cancel_suspended-actions r reason now s a e = ground arith

module _ {Schema : Type 0} (violations : Schema → Json → List String) where
  -- `decide` on a row that is there.
  pub decide_found :
      (i : String) (d : ApprovalDecision) (w : Answers) (s : Approvals Schema) (r : ApprovalRecord)
      → is_valid d ≡ true
      → get i s.approvals ≡ some r
      → decide violations i d w s ≡ (
          if is_pending r.state && overdue w.now r.expires_at
          then expire violations r d w s
          else resolve violations r d w s)
  unfolding decide
  decide_found i d w s r valid found = ground arith

  missed_update :
      (st : ApprovalState) (d : ApprovalDecision) (now : ℕ) (s : Approvals Schema)
      (r : ApprovalRecord)
      → Unique s.approvals
      → get r.id s.approvals ≡ some r
      → is_hit d r ≡ false
      → apply_conditional_update r.id st d now s ≡ (false, s)
  unfolding apply_conditional_update
  missed_update st d now s r u found missed = ground (
    arith,
    conditional_update_count r.id st d now s.approvals r u found,
    conditional_update_missed r.id st d now s.approvals r u found missed,
  )

  resolve_missed :
      (r : ApprovalRecord) (d : ApprovalDecision) (w : Answers) (s : Approvals Schema)
      → Unique s.approvals
      → get r.id s.approvals ≡ some r
      → is_hit d r ≡ false
      → resolve violations r d w s ≡ (raises (approval_already_decided r.id), s)
  unfolding resolve
  resolve_missed r d w s u found missed =
      rw (missed_update (state_of_choice d.choice) d w.now s r u found missed, resolve)

  expire_missed :
      (r : ApprovalRecord) (d : ApprovalDecision) (w : Answers) (s : Approvals Schema)
      → Unique s.approvals
      → get r.id s.approvals ≡ some r
      → is_hit d r ≡ false
      → expire violations r d w s ≡ (
        raises (approval_expired r.id r.expires_at),
        append_event d.session
            (resolved r.id r.session_id expired)
            (cancel_suspended r "approval expired" w.now s),
      )
  unfolding expire
  expire_missed r d w s u found missed =
      rw (missed_update expired d w.now s r u found missed, expire)

  pub decide_expired :
      (i : String) (d : ApprovalDecision) (w : Answers) (s : Approvals Schema) (r : ApprovalRecord)
      → is_valid d ≡ true
      → get i s.approvals ≡ some r
      → r.state ≡ pending
      → overdue w.now r.expires_at ≡ true
      → decide violations i d w s ≡ expire violations r d w s
  decide_expired i d w s r valid found waits late =
      ground (arith, decide_found i d w s r valid found, waits, late)

  -- A request that was decided before refuses every further decision, and nothing changes.
  pub decide_again :
      (i : String) (d : ApprovalDecision) (w : Answers) (s : Approvals Schema) (r : ApprovalRecord)
      → is_valid d ≡ true
      → Unique s.approvals
      → get i s.approvals ≡ some r
      → is_pending r.state ≡ false
      → decide violations i d w s ≡ (raises (approval_already_decided i), s)
  decide_again i d w s r valid u found over =
      let named : r.id ≡ i = get-id i s.approvals r found in
      ground (
        arith,
        decide_found i d w s r valid found,
        resolve_missed r d w s u (ap (λ j. get j s.approvals) named ∙ found),
      )

  -- An overdue pending request that is decided with another version than its own: the caller gets
  -- the expiry error and the suspended execution is cancelled, yet the request stays pending.
  pub decide_keeps_pending :
      (i : String) (d : ApprovalDecision) (w : Answers) (s : Approvals Schema) (r : ApprovalRecord)
      (a : Service Schema)
      → is_valid d ≡ true
      → Unique s.approvals
      → get i s.approvals ≡ some r
      → r.state ≡ pending
      → overdue w.now r.expires_at ≡ true
      → r.version ≢ d.expected_version
      → s.actions ≡ some a
      → ((decide violations i d w s).0 ≡ raises (approval_expired i r.expires_at))
        × (get i (decide violations i d w s).1.approvals ≡ some r)
        × ((decide violations i d w s).1.actions
            ≡ some (cancel_execution r.action_execution_id "approval expired" w.now a).1)
  decide_keeps_pending i d w s r a valid u found waits late stale mounted =
      let named : r.id ≡ i = get-id i s.approvals r found in
      let missed : is_hit d r ≡ false = ground (arith, waits, stale) in
      let whole =
        decide_expired i d w s r valid found waits late
        ∙ expire_missed r d w s u (ap (λ j. get j s.approvals) named ∙ found) missed in
      (
        ap (λ o. o.0) whole ∙ ap (λ j. raises (approval_expired j r.expires_at)) named,
        ap (λ o. get i o.1.approvals) whole
            ∙ ap (get i)
                (append_event-approvals d.session _ (cancel_suspended r "approval expired" w.now s))
            ∙ ap (get i) (cancel_suspended-approvals r _ w.now s)
            ∙ found,
        ap (λ o. o.1.actions) whole
            ∙ append_event-actions d.session _ (cancel_suspended r "approval expired" w.now s)
            ∙ cancel_suspended-actions r "approval expired" w.now s a mounted,
      )
