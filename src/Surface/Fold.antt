-- ===== src/Surface/Fold.antt =====
-- Every state that the fold reaches, and what a replacement does in it.
use rigo.Base.{
  ℕ, true, false, List, [], ◌∷◌, Option, some, none, ◌≡◌, refl, arith, is_empty, inl, inr, ◌⊎◌,
}
use rigo.Surface.{
  SessionEvent, SurfaceFoldState, ReplaceRange, SurfacePlan, replace_plan, append_plan, Checked,
  passes, throws, Done, append_op, replace_op, replacement_range, plan_surface_event,
  assert_provenance, assert_tool_result_rewrite, missing_sources, sources_of, surface_op_of,
  SurfaceError, is_surface_eligible_type, ◌>>=◌,
}
use rigo.Surface.Marker.{
  IsMarkedAs, surface_op_of-none, surface_op_of-some, surface_op_of-IsMarkedAs,
}

pub Checked-cases {ℓ} :
    {A : Type ℓ} (c : Checked A)
    → ((a : A) × (c ≡ passes a)) ⊎ ((x : SurfaceError) × (c ≡ throws x))
Checked-cases (passes a) = inl (a, refl)
Checked-cases (throws x) = inr (x, refl)

-- An event cites each of the nodes.
abbrev pub Covers : SessionEvent → List ℕ → Type 0
Covers e shadowed =
    (sources : List ℕ) × (sources_of e ≡ passes sources) × (missing_sources sources shadowed ≡ [])

is_empty-nil : (xs : List ℕ) → is_empty xs ≡ true → xs ≡ []
is_empty-nil [] h = refl
is_empty-nil (x ∷ xs) h = ground (arith, h)

assert_provenance-Covers :
    (e : SessionEvent) (shadowed : List ℕ) (u : Done)
    → assert_provenance e shadowed ≡ passes u
    → Covers e shadowed
unfolding assert_provenance
assert_provenance-Covers e shadowed u h = elim (Checked-cases (sources_of e)) [
  | inl (sources, read) ↦
      (sources, read, is_empty-nil (missing_sources sources shadowed) (ground (arith, read, h)))
  | inr (x, thrown) ↦ ground (arith, thrown, h)
]

-- What a plan can be.
pub data Plans (s : SurfaceFoldState) (e : SessionEvent) : Option SurfacePlan → Type 0 where
  skips : is_surface_eligible_type e.body ≡ false → e.surface_op ≡ none → Plans s e none
  appends :
      is_surface_eligible_type e.body ≡ true
      → IsMarkedAs append_op e.surface_op
      → Plans s e (some (append_plan e.seq))
  replaces :
      (a b : ℕ) (r : ReplaceRange)
      → is_surface_eligible_type e.body ≡ true
      → IsMarkedAs (replace_op a b) e.surface_op
      → replacement_range s.nodes a b ≡ passes r
      → Covers e r.shadowed_seqs
      → Plans s e (some (replace_plan e.seq a b r))

module _ (s : SurfaceFoldState) (e : SessionEvent) (n : ℕ) (events : List SessionEvent)
    (base : ℕ) where
  abbrev replace_checks : ℕ → ℕ → Checked (Option SurfacePlan)
  replace_checks a b = do
    range ← replacement_range s.nodes a b
    _ ← assert_provenance e range.shadowed_seqs
    _ ← assert_tool_result_rewrite e.body range.shadowed_seqs events base
    passes (some (replace_plan e.seq a b range))

  replace_checks-Plans :
      (a b : ℕ) (p : Option SurfacePlan)
      → is_surface_eligible_type e.body ≡ true
      → IsMarkedAs (replace_op a b) e.surface_op
      → replace_checks a b ≡ passes p
      → Plans s e p
  replace_checks-Plans a b p eligible marked h =
      elim (Checked-cases (replacement_range s.nodes a b)) [
        | inr (x, thrown) ↦ ground (arith, thrown, h)
        | inl (r, found) ↦ elim (Checked-cases (assert_provenance e r.shadowed_seqs)) [
          | inr (x, thrown) ↦ ground (arith, found, thrown, h)
          | inl (u, cited) ↦
              elim (Checked-cases (assert_tool_result_rewrite e.body r.shadowed_seqs events base)) [
                | inr (x, thrown) ↦ ground (arith, found, cited, thrown, h)
                | inl (v, kept) ↦
                    let same : p ≡ some (replace_plan e.seq a b r) =
                      ground (arith, found, cited, kept, h) in
                    rw same (
                      replaces a b r eligible marked found
                        (assert_provenance-Covers e r.shadowed_seqs u cited))
              ]
        ]
      ]

  pub plan_surface_event-Plans :
      (p : Option SurfacePlan)
      → plan_surface_event s e n events base ≡ passes p
      → (e.seq ≡ n) × Plans s e p
  unfolding plan_surface_event
  plan_surface_event-Plans p h =
      let contiguous : e.seq ≡ n = ground (arith, h) in
      elim (Checked-cases (surface_op_of e)) [
        | inr (x, thrown) ↦ ground (arith, contiguous, thrown, h)
        | inl (none, read) ↦
            let same : p ≡ none = ground (arith, contiguous, read, h) in
            let inert = surface_op_of-none e read in (contiguous, rw same (skips inert.0 inert.1))
        | inl (some append_op, read) ↦ elim (Checked-cases (assert_provenance e [])) [
          | inr (x, thrown) ↦ ground (arith, contiguous, read, thrown, h)
          | inl (u, cited) ↦
              let same : p ≡ some (append_plan e.seq) =
                ground (arith, contiguous, read, cited, h) in
              (
                contiguous,
                rw same (
                    appends (surface_op_of-some e append_op read)
                      (surface_op_of-IsMarkedAs e append_op read)),
              )
        ]
        | inl (some (replace_op a b), read) ↦ (
          contiguous,
          replace_checks-Plans a b p (surface_op_of-some e (replace_op a b) read)
              (surface_op_of-IsMarkedAs e (replace_op a b) read)
              (ground (arith, contiguous, read, h)),
        )
      ]
