-- ===== src/Approvals/Table.antt =====
-- The table of approvals under the conditional update.
use rigo.Base.{
  ℕ, String, Bool, true, false, List, [], ◌∷◌, ◌++◌, some, none, ◌==◌, ◌&&◌, ◌≡◌, refl, arith,
  eq_iff, is_some, nat_eq, if◌then◌else◌, Bool-cases, inl, inr,
}
use mathlib.Core.Option
use rigo.Approvals.{
  ApprovalRecord, ApprovalState, is_pending, ApprovalDecision, get, conditional_update, decide_row,
  insert_approval,
}

-- Each id stands once.
abbrev pub Unique : List ApprovalRecord → Type 0
Unique [] = Unit
Unique (r ∷ rs) = (get r.id rs ≡ none) × Unique rs

-- A pending request has version 1 and no decision; a decided one has version 2 and a decision.
abbrev pub IsStamped : ApprovalRecord → Type 0
IsStamped r =
    if is_pending r.state
    then (r.version ≡ 1) × (r.decision ≡ none) × (r.decided_at ≡ none)
    else (r.version ≡ 2) × (is_some r.decision ≡ true) × (is_some r.decided_at ≡ true)

abbrev pub AllStamped : List ApprovalRecord → Type 0
AllStamped [] = Unit
AllStamped (r ∷ rs) = IsStamped r × AllStamped rs

abbrev pub is_hit : ApprovalDecision → ApprovalRecord → Bool
is_hit d r = is_pending r.state && nat_eq r.version d.expected_version

pub get-id :
    (i : String) (rs : List ApprovalRecord) (r : ApprovalRecord) → get i rs ≡ some r → r.id ≡ i
unfolding get
get-id i [] r e = cc
get-id i (x ∷ rs) r e = ground (arith, eq_iff x.id i, get-id i rs r)

module _ (i : String) (st : ApprovalState) (d : ApprovalDecision) (now : ℕ) where
  pub get-conditional_update :
      (j : String) (rs : List ApprovalRecord)
      → get j (conditional_update i st d now rs).0 ≡ (
          if i == j
          then Option.map (λ r. if is_hit d r then decide_row st d now r else r) (get j rs)
          else get j rs)
  unfolding get conditional_update
  get-conditional_update j [] = ground arith
  get-conditional_update j (r ∷ rs) =
      ground (arith, eq_iff r.id i, eq_iff r.id j, eq_iff i j, get-conditional_update j rs)

  conditional_update_absent :
      (rs : List ApprovalRecord) → get i rs ≡ none → conditional_update i st d now rs ≡ (rs, 0)
  unfolding get conditional_update
  conditional_update_absent [] e = refl
  conditional_update_absent (r ∷ rs) e = ground (arith, conditional_update_absent rs)

  -- The one row with the id is counted if it is pending at the expected version.
  pub conditional_update_count :
      (rs : List ApprovalRecord) (r : ApprovalRecord)
      → Unique rs
      → get i rs ≡ some r
      → (conditional_update i st d now rs).1 ≡ (if is_hit d r then 1 else 0)
  unfolding get conditional_update
  conditional_update_count [] r u e = cc
  conditional_update_count (x ∷ rs) r u e = elim (Bool-cases (x.id == i)) [
    | inl same ↦ ground (arith, conditional_update_absent rs (rw (← (eq_iff x.id i).0 same) u.0))
    | inr other ↦ ground (arith, conditional_update_count rs r u.1)
  ]

  pub conditional_update_missed :
      (rs : List ApprovalRecord) (r : ApprovalRecord)
      → Unique rs
      → get i rs ≡ some r
      → is_hit d r ≡ false
      → (conditional_update i st d now rs).0 ≡ rs
  unfolding get conditional_update
  conditional_update_missed [] r u e m = cc
  conditional_update_missed (x ∷ rs) r u e m = elim (Bool-cases (x.id == i)) [
    | inl same ↦ ground (arith, conditional_update_absent rs (rw (← (eq_iff x.id i).0 same) u.0))
    | inr other ↦ ground (arith, conditional_update_missed rs r u.1)
  ]

  get-conditional_update-none :
      (j : String) (rs : List ApprovalRecord)
      → get j rs ≡ none
      → get j (conditional_update i st d now rs).0 ≡ none
  get-conditional_update-none j rs e = ground (arith, get-conditional_update j rs)

  pub conditional_update-Unique :
      (rs : List ApprovalRecord) → Unique rs → Unique (conditional_update i st d now rs).0
  unfolding conditional_update
  conditional_update-Unique [] u = tt
  conditional_update-Unique (r ∷ rs) u =
      ground (arith, conditional_update-Unique rs u.1, get-conditional_update-none r.id rs u.0)

  pub conditional_update-AllStamped :
      (rs : List ApprovalRecord)
      → is_pending st ≡ false
      → AllStamped rs
      → AllStamped (conditional_update i st d now rs).0
  unfolding conditional_update
  conditional_update-AllStamped [] f h = tt
  conditional_update-AllStamped (r ∷ rs) f h =
      ground (arith, conditional_update-AllStamped rs f h.1)

get-append :
    (j : String) (rs : List ApprovalRecord) (r : ApprovalRecord)
    → get j (rs ++ r ∷ [])
      ≡ (if is_some (get j rs) then get j rs else if r.id == j then some r else none)
unfolding get
get-append j [] r = refl
get-append j (x ∷ rs) r = ground (arith, get-append j rs r)

append-Unique :
    (rs : List ApprovalRecord) (r : ApprovalRecord)
    → get r.id rs ≡ none
    → Unique rs
    → Unique (rs ++ r ∷ [])
unfolding get
append-Unique [] r e u = (refl, tt)
append-Unique (x ∷ rs) r e u = (
  ground (arith, get-append x.id rs r, eq_iff r.id x.id, eq_iff x.id r.id),
  append-Unique rs r (ground arith) u.1,
)

append-AllStamped :
    (rs : List ApprovalRecord) (r : ApprovalRecord)
    → IsStamped r
    → AllStamped rs
    → AllStamped (rs ++ r ∷ [])
append-AllStamped [] r e u = (e, tt)
append-AllStamped (x ∷ rs) r e u = (u.0, append-AllStamped rs r e u.1)

-- What an insert gives.
pub insert_approval_cases :
    (sessions : List String) (r : ApprovalRecord) (rs rows : List ApprovalRecord)
    → insert_approval sessions r rs ≡ some rows
    → Unique rs
    → AllStamped rs
    → IsStamped r
    → Unique rows × AllStamped rows
unfolding insert_approval
insert_approval_cases sessions r rs rows e u h k =
    let free : get r.id rs ≡ none = ground arith in
    let placed : rows ≡ rs ++ r ∷ [] = ground arith in
    rw placed (append-Unique rs r free u, append-AllStamped rs r k h)
