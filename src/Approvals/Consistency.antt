-- ===== src/Approvals/Consistency.antt =====
-- The table stays consistent under every operation.
use rigo.Base.{ℕ, ◌+◌, String, false, List, ◌≡◌, refl, arith, Option-cases, inl, inr, option_or}
use rigo.Json.{Json}
use rigo.Actions.Execute.{Answers}
use rigo.Approvals.{
  Approvals, ApprovalRecord, ApprovalState, expired, is_pending, ApprovalDecision, Choice, approve,
  deny, cancel, get, conditional_update, decide, expire, resolve, follow_up, resume_suspended,
  apply_conditional_update, state_of_choice, Instant, create, ApprovalRequestInput, insert_approval,
  new_approval,
}
use rigo.Approvals.Table.{
  Unique, AllStamped, conditional_update-Unique, conditional_update-AllStamped,
  insert_approval_cases,
}
use rigo.Approvals.Decisions.{append_event-approvals, cancel_suspended-approvals}

abbrev pub IsConsistent : List ApprovalRecord → Type 0
IsConsistent rs = Unique rs × AllStamped rs

update-IsConsistent :
    (i : String) (st : ApprovalState) (d : ApprovalDecision) (now : ℕ) (rs : List ApprovalRecord)
    → is_pending st ≡ false
    → IsConsistent rs
    → IsConsistent (conditional_update i st d now rs).0
update-IsConsistent i st d now rs over h = (
  conditional_update-Unique i st d now rs h.0,
  conditional_update-AllStamped i st d now rs over h.1,
)

choice_decides : (c : Choice) → is_pending (state_of_choice c) ≡ false
choice_decides approve = refl
choice_decides deny = refl
choice_decides cancel = refl

module _ {Schema : Type 0} where
  -- A request is stored pending, at version 1, and the table stays consistent, whether or not the
  -- insert is refused.
  pub create-IsConsistent :
      (id : String) (now : ℕ) (input : ApprovalRequestInput) (s : Approvals Schema)
      → IsConsistent s.approvals
      → IsConsistent (create id now input s).1.approvals
  unfolding create
  create-IsConsistent id now input s h =
      let row =
        new_approval id now (option_or input.expires_at (Instant.at (now + s.ttl_ms))) input in
      elim (Option-cases (insert_approval s.sessions row s.approvals)) [
        | inl refused ↦ ground (arith, refused, h)
        | inr (rows, placed) ↦
            let grown =
              insert_approval_cases s.sessions row s.approvals rows placed h.0 h.1
                (refl, refl, refl) in
            grind (arith, placed, h, grown, append_event-approvals {Schema = Schema})
      ]

module _ {Schema : Type 0} (violations : Schema → Json → List String) where
  follow_up-approvals :
      (c : Choice) (r : ApprovalRecord) (w : Answers) (s : Approvals Schema)
      → (follow_up violations c r w s).1.approvals ≡ s.approvals
  unfolding follow_up resume_suspended
  follow_up-approvals approve r w s = elim (Option-cases s.actions) [
    | inl gone ↦ ground (arith, gone)
    | inr (a, mounted) ↦ ground (arith, mounted)
  ]
  follow_up-approvals deny r w s = cancel_suspended-approvals r "approval denied" w.now s
  follow_up-approvals cancel r w s = cancel_suspended-approvals r "approval cancelled" w.now s

  resolve-approvals :
      (r : ApprovalRecord) (d : ApprovalDecision) (w : Answers) (s : Approvals Schema)
      → (resolve violations r d w s).1.approvals
        ≡ (conditional_update r.id (state_of_choice d.choice) d w.now s.approvals).0
  unfolding resolve apply_conditional_update
  resolve-approvals r d w s =
      grind (arith, follow_up-approvals, append_event-approvals {Schema = Schema})

  expire-approvals :
      (r : ApprovalRecord) (d : ApprovalDecision) (w : Answers) (s : Approvals Schema)
      → (expire violations r d w s).1.approvals
        ≡ (conditional_update r.id expired d w.now s.approvals).0
  unfolding expire apply_conditional_update
  expire-approvals r d w s = grind (
    arith,
    cancel_suspended-approvals {Schema = Schema},
    append_event-approvals {Schema = Schema},
  )

  resolve-IsConsistent :
      (r : ApprovalRecord) (d : ApprovalDecision) (w : Answers) (s : Approvals Schema)
      → IsConsistent s.approvals
      → IsConsistent (resolve violations r d w s).1.approvals
  resolve-IsConsistent r d w s h = rw (resolve-approvals r d w s) (
      update-IsConsistent r.id (state_of_choice d.choice) d w.now s.approvals
        (choice_decides d.choice) h)

  expire-IsConsistent :
      (r : ApprovalRecord) (d : ApprovalDecision) (w : Answers) (s : Approvals Schema)
      → IsConsistent s.approvals
      → IsConsistent (expire violations r d w s).1.approvals
  expire-IsConsistent r d w s h =
      rw (expire-approvals r d w s) (update-IsConsistent r.id expired d w.now s.approvals refl h)

  -- Whatever is decided, each id stands once and each row is either pending, at version 1 and
  -- without a decision, or decided, at version 2 and with a decision and its time.
  pub decide-IsConsistent :
      (i : String) (d : ApprovalDecision) (w : Answers) (s : Approvals Schema)
      → IsConsistent s.approvals
      → IsConsistent (decide violations i d w s).1.approvals
  unfolding decide
  decide-IsConsistent i d w s h = elim (Option-cases (get i s.approvals)) [
    | inl gone ↦ ground (arith, gone, h)
    | inr (r, found) ↦
        ground (arith, found, h, resolve-IsConsistent r d w s h, expire-IsConsistent r d w s h)
  ]
