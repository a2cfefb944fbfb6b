-- ===== src/Surface/Nodes.antt =====
-- The nodes of every state that the fold reaches, and the transition of one event.
use rigo.Base.{
  take, drop, ℕ, suc, ◌+◌, ◌-◌, ◌≤◌, ◌<◌, true, false, List, [], ◌∷◌, ◌++◌, Option, some, none, ◌≡◌,
  refl, arith, nat_eq, inl, inr, ap, ◌∙◌, subst, ◌⊎◌, length, length-append,
}
use rigo.Surface.{
  op_text, replace_op, SessionEvent, SurfaceFoldState, SurfacePlan, passes, SurfaceFoldReplacement,
  SurfaceFoldResult, includes, plan_surface_event, apply_surface_plan, apply_surface_event,
  is_surface_eligible_type, fold_from, fold_surface, create_fold_state, nth, push,
}
use rigo.Surface.Range.{
  Distinct, All, Distinct-splice, All-splice, replacement_range-IsRange, head, last,
}
use rigo.Surface.Marker.{IsMarkedAs}
use rigo.Surface.Fold.{
  Checked-cases, Covers, Plans, skips, appends, replaces, plan_surface_event-Plans,
}

-- A node below `i` is the position of an event of the log that can be on the surface.
abbrev pub IsNode : List SessionEvent → ℕ → ℕ → Type 0
IsNode events i n =
    (n < i)
    × (e : SessionEvent) × (nth n events ≡ some e)
    × (e.seq ≡ n)
    × (is_surface_eligible_type e.body ≡ true)

abbrev pub IsSurface : List SessionEvent → ℕ → List ℕ → Type 0
IsSurface events i nodes = All (IsNode events i) nodes × Distinct nodes

module _ (events : List SessionEvent) where
  All-IsNode_later :
      (i : ℕ) (xs : List ℕ) → All (IsNode events i) xs → All (IsNode events (suc i)) xs
  All-IsNode_later i [] h = tt
  All-IsNode_later i (x ∷ xs) h =
      ((omega (arith, h.0.0), h.0.1, h.0.2, h.0.3, h.0.4), All-IsNode_later i xs h.1)

  All-IsNode_fresh : (i : ℕ) (xs : List ℕ) → All (IsNode events i) xs → includes i xs ≡ false
  All-IsNode_fresh i [] h = refl
  All-IsNode_fresh i (x ∷ xs) h = ground (arith, h.0.0, All-IsNode_fresh i xs h.1)

  All-append : (P : ℕ → Type 0) (q : ℕ) (xs : List ℕ) → P q → All P xs → All P (xs ++ q ∷ [])
  All-append P q [] good h = (good, tt)
  All-append P q (x ∷ xs) good h = (h.0, All-append P q xs good h.1)

  node :
      (i : ℕ) (e : SessionEvent)
      → e.seq ≡ i
      → nth i events ≡ some e
      → is_surface_eligible_type e.body ≡ true
      → IsNode events (suc i) e.seq
  node i e named there eligible = rw named (omega arith, e, there, named, eligible)

includes-append :
    (n q : ℕ) (xs : List ℕ)
    → includes n xs ≡ false
    → nat_eq q n ≡ false
    → includes n (xs ++ q ∷ []) ≡ false
includes-append n q [] fresh other = ground (arith, other)
includes-append n q (x ∷ xs) fresh other = ground (arith, includes-append n q xs, other)

Distinct-append :
    (q : ℕ) (xs : List ℕ) → includes q xs ≡ false → Distinct xs → Distinct (xs ++ q ∷ [])
Distinct-append q [] fresh d = (refl, tt)
Distinct-append q (x ∷ xs) fresh d = (
  includes-append x q xs d.0 (ground (arith, fresh)),
  Distinct-append q xs (ground (arith, fresh)) d.1,
)

-- What one event does to the nodes.
abbrev pub Moves :
    SurfaceFoldState → SessionEvent → SurfaceFoldState → Option SurfaceFoldReplacement → Type 0
Moves s e s' none =
    ((is_surface_eligible_type e.body ≡ false) × (e.surface_op ≡ none) × (s' ≡ s))
    ⊎ ((is_surface_eligible_type e.body ≡ true)
        × (e.surface_op ≡ some (op_text "append"))
        × (s' ≡ record s { nodes = s.nodes ++ e.seq ∷ [] }))
Moves s e s' (some r) =
    (is_surface_eligible_type e.body ≡ true)
    × IsMarkedAs (replace_op r.start r.stop) e.surface_op
    × (r.seq ≡ e.seq)
    × (before after : List ℕ) × (s.nodes ≡ before ++ (r.shadowed_seqs ++ after))
    × (s'.nodes ≡ before ++ e.seq ∷ after)
    × (s'.replace_generation ≡ s.replace_generation + 1)
    × (head r.shadowed_seqs ≡ some r.start)
    × (last r.shadowed_seqs ≡ some r.stop)
    × Covers e r.shadowed_seqs

plan-Moves :
    (s : SurfaceFoldState) (e : SessionEvent) (p : Option SurfacePlan)
    → Plans s e p
    → Moves s e (apply_surface_plan s p).0 (apply_surface_plan s p).1
plan-Moves s e _ (skips inert unmarked) = inl (inert, unmarked, refl)
plan-Moves s e _ (appends eligible marked) = inr (eligible, marked, refl)
plan-Moves s e _ (replaces a b r eligible marked found covers) =
    let cut = replacement_range-IsRange s.nodes a b r found in
    (
      eligible,
      marked,
      refl,
      take r.start_idx s.nodes,
      drop (r.start_idx + ((r.end_idx - r.start_idx) + 1)) s.nodes,
      cut.1,
      refl,
      refl,
      cut.2,
      cut.3,
      covers,
    )

plan-IsSurface :
    (events : List SessionEvent) (i : ℕ) (s : SurfaceFoldState) (e : SessionEvent)
    (p : Option SurfacePlan)
    → e.seq ≡ i
    → nth i events ≡ some e
    → Plans s e p
    → IsSurface events i s.nodes
    → IsSurface events (suc i) (apply_surface_plan s p).0.nodes
plan-IsSurface events i s e _ named there (skips inert unmarked) h =
    (All-IsNode_later events i s.nodes h.0, h.1)
plan-IsSurface events i s e _ named there (appends eligible marked) h = (
  All-append events (IsNode events (suc i)) e.seq s.nodes (node events i e named there eligible)
      (All-IsNode_later events i s.nodes h.0),
  Distinct-append e.seq s.nodes (rw named (All-IsNode_fresh events i s.nodes h.0)) h.1,
)
plan-IsSurface events i s e _ named there (replaces a b r eligible marked found covers) h =
    let end = r.start_idx + ((r.end_idx - r.start_idx) + 1) in
    let le : r.start_idx ≤ end = omega arith in
    (
      All-splice (IsNode events (suc i)) r.start_idx end e.seq s.nodes le
          (node events i e named there eligible) (All-IsNode_later events i s.nodes h.0),
      Distinct-splice r.start_idx end e.seq s.nodes le
          (rw named (All-IsNode_fresh events i s.nodes h.0)) h.1,
    )

module _ (s : SurfaceFoldState) (e : SessionEvent) (n : ℕ) (events : List SessionEvent) (base : ℕ)
    (s' : SurfaceFoldState) (r : Option SurfaceFoldReplacement) where
  planned :
      apply_surface_event s e n events base ≡ passes (s', r)
      → (p : Option SurfacePlan) × (e.seq ≡ n) × Plans s e p × (apply_surface_plan s p ≡ (s', r))
  unfolding apply_surface_event
  planned h = elim (Checked-cases (plan_surface_event s e n events base)) [
    | inr (x, thrown) ↦ ground (arith, thrown, h)
    | inl (p, read) ↦
        let facts = plan_surface_event-Plans s e n events base p read in
        (p, facts.0, facts.1, ground (arith, read, h))
  ]

  -- An event that passes has no marker and leaves the surface, since its type cannot be on it; or
  -- is marked `append` and appends its node; or its marker is an object with just the members `op`,
  -- which is `replace`, `start` and `end`, and its node takes the place of the run of nodes from the
  -- `start` to the `end` of that marker, which it reports and each of which it cites.
  pub apply_surface_event-Moves :
      apply_surface_event s e n events base ≡ passes (s', r) → Moves s e s' r
  apply_surface_event-Moves h =
      let (p, named, plan, applied) = planned h in
      subst (λ o. Moves s e o.0 o.1) applied (plan-Moves s e p plan)

  pub apply_surface_event-IsSurface :
      apply_surface_event s e n events base ≡ passes (s', r)
      → nth n events ≡ some e
      → IsSurface events n s.nodes
      → IsSurface events (suc n) s'.nodes
  apply_surface_event-IsSurface h there good =
      let (p, named, plan, applied) = planned h in
      rw (← ap (λ o. o.0) applied) (plan-IsSurface events n s e p named there plan good)

nth-length :
    (before after : List SessionEvent) (e : SessionEvent)
    → nth (length before) (before ++ e ∷ after) ≡ some e
nth-length [] after e = refl
nth-length (x ∷ before) after e = nth-length before after e

append_one {ℓ} : {A : Type ℓ} (xs ys : List A) (y : A) → xs ++ y ∷ ys ≡ (xs ++ y ∷ []) ++ ys
append_one [] ys y = refl
append_one (x ∷ xs) ys y = ap (λ zs. x ∷ zs) (append_one xs ys y)

fold_from-IsSurface :
    (events before after : List SessionEvent) (i : ℕ) (s s' : SurfaceFoldState)
    (rs rs' : List SurfaceFoldReplacement)
    → events ≡ before ++ after
    → length before ≡ i
    → fold_from events i after s rs ≡ passes (s', rs')
    → IsSurface events i s.nodes
    → IsSurface events (length events) s'.nodes
unfolding fold_from
fold_from-IsSurface events before [] i s s' rs rs' whole len h good =
    let same : s' ≡ s = ground (arith, h) in
    let sum = length-append before [] in
    let size : length events ≡ i = ap length whole ∙ omega (arith, sum, len) in rw (same, size) good
fold_from-IsSurface events before (e ∷ after) i s s' rs rs' whole len h good =
    elim (Checked-cases (apply_surface_event s e i events 0)) [
      | inr (x, thrown) ↦ ground (arith, thrown, h)
      | inl ((s2, r), stepped) ↦
          fold_from-IsSurface events (before ++ e ∷ []) after (suc i) s2 s' (push r rs) rs'
            (whole ∙ append_one before after e) (ground (arith, length-append before (e ∷ []), len))
            (ground (arith, stepped, h))
            (apply_surface_event-IsSurface s e i events 0 s2 r stepped
              (rw (whole, ← len) (nth-length before after e)) good)
    ]

-- The nodes that a complete fold gives are each once there, and each is the position of an event
-- of the log that can be on the surface.
pub fold_surface-IsSurface :
    (events : List SessionEvent) (result : SurfaceFoldResult)
    → fold_surface events ≡ passes result
    → IsSurface events (length events) result.nodes
unfolding fold_surface
fold_surface-IsSurface events result h =
    elim (Checked-cases (fold_from events 0 events create_fold_state [])) [
      | inr (x, thrown) ↦ ground (arith, thrown, h)
      | inl ((s, rs), folded) ↦
          let same : s.nodes ≡ result.nodes = ground (arith, folded, h) in
          rw (← same) (
            fold_from-IsSurface events [] events 0 create_fold_state s [] rs refl refl folded
              (tt, tt))
    ]
