-- ===== src/Scope/Forest.antt =====
-- The parent relation stays a forest, and a new link extends the parent's chain.
use rigo.Base.{
  ℕ, Bool, true, false, List, [], ◌∷◌, some, ◌≡◌, refl, arith, ap, sym, subst, ◌∙◌, nat_eq,
  if◌then◌else◌, Bool-cases, inl, inr,
}
use rigo.Scope.{
  Parents, scope_parent_of, set_parent, Grounded, root, under, scope_chain_of, meets, linked,
  link_scope_parent, admits,
}

-- Every walk ends.
abbrev pub IsForest : Parents → Type 0
IsForest ps = (k : ℕ) → Grounded ps k

scope_parent_of-set_parent :
    (j k p : ℕ) (ps : Parents)
    → scope_parent_of j (set_parent k p ps) ≡ (if nat_eq k j then some p else scope_parent_of j ps)
unfolding scope_parent_of set_parent
scope_parent_of-set_parent j k p [] = ground arith
scope_parent_of-set_parent j k p ((x, q) ∷ ps) = ground (arith, scope_parent_of-set_parent j k p ps)

module _ (key parent : ℕ) (ps : Parents) where
  -- A walk that does not meet the key is the same after the link.
  kept : (k : ℕ) (g : Grounded ps k) → meets key k g ≡ false → Grounded (set_parent key parent ps) k
  unfolding meets
  kept _ (root k e) h = root k (ground (arith, scope_parent_of-set_parent k key parent ps, e, h))
  kept _ (under k p e g) h =
      under k p (ground (arith, scope_parent_of-set_parent k key parent ps, e, h))
        (kept p g (ground (arith, h)))

  grown :
      Grounded ps parent
      → (g : Grounded ps parent) → meets key parent g ≡ false
      → Grounded (set_parent key parent ps) key
  grown _ g h =
      under key parent (ground (arith, scope_parent_of-set_parent key key parent ps))
        (kept parent g h)

  all_kept :
      Grounded (set_parent key parent ps) key
      → (k : ℕ) → Grounded ps k
      → Grounded (set_parent key parent ps) k
  all_kept top _ (root k e) = elim (Bool-cases (nat_eq key k)) [
    | inl same ↦ let named : key ≡ k = ground (arith, same) in rw (← named) top
    | inr other ↦ root k (ground (arith, scope_parent_of-set_parent k key parent ps, e, other))
  ]
  all_kept top _ (under k p e g) = elim (Bool-cases (nat_eq key k)) [
    | inl same ↦ let named : key ≡ k = ground (arith, same) in rw (← named) top
    | inr other ↦
        under k p (ground (arith, scope_parent_of-set_parent k key parent ps, e, other))
          (all_kept top p g)
  ]

-- A link that passes the cycle check keeps every walk finite.
pub link_scope_parent-IsForest :
    (key parent : ℕ) (ps ps' : Parents) (forest : IsForest ps)
    → link_scope_parent key parent ps (forest parent) ≡ linked ps'
    → IsForest ps'
unfolding link_scope_parent
link_scope_parent-IsForest key parent ps ps' forest h k =
    let clear : meets key parent (forest parent) ≡ false = ground (arith, h) in
    let same : ps' ≡ set_parent key parent ps = ground (arith, clear, h) in
    rw same (
      all_kept key parent ps (grown key parent ps (forest parent) (forest parent) clear) k
        (forest k))

module _ (key parent : ℕ) (ps : Parents) where
  -- A walk that does not meet the key visits the same keys after the link.
  chain_kept :
      (k j : ℕ) (g : Grounded ps k) (h : Grounded (set_parent key parent ps) j)
      → j ≡ k
      → meets key k g ≡ false
      → scope_chain_of j h ≡ scope_chain_of k g
  unfolding scope_chain_of meets
  chain_kept _ _ (root k e) (root j f) same clear = ap (λ n. n ∷ []) same
  chain_kept _ _ (root k e) (under j q f h) same clear =
      ground (arith, scope_parent_of-set_parent j key parent ps, e, f, same, clear)
  chain_kept _ _ (under k p e g) (root j f) same clear =
      ground (arith, scope_parent_of-set_parent j key parent ps, e, f, same, clear)
  chain_kept _ _ (under k p e g) (under j q f h) same clear =
      let parents : q ≡ p =
        ground (arith, scope_parent_of-set_parent j key parent ps, e, f, same, clear) in
      let rest = chain_kept p q g h parents (ground (arith, clear)) in
      ap (λ n. n ∷ scope_chain_of q h) same ∙ ap (λ ns. k ∷ ns) rest

  chain_linked :
      (j : ℕ) (g : Grounded ps parent) (h : Grounded (set_parent key parent ps) j)
      → j ≡ key
      → meets key parent g ≡ false
      → scope_chain_of j h ≡ key ∷ scope_chain_of parent g
  unfolding scope_chain_of
  chain_linked _ g (root j f) same clear =
      ground (arith, scope_parent_of-set_parent j key parent ps, f, same)
  chain_linked _ g (under j q f h) same clear =
      let parents : q ≡ parent =
        ground (arith, scope_parent_of-set_parent j key parent ps, f, same) in
      let rest = chain_kept parent q g h parents clear in
      ap (λ n. n ∷ scope_chain_of q h) same ∙ ap (λ ns. key ∷ ns) rest

-- After a link that passes, the chain of the key is the key before its parent's chain.
pub link_scope_parent_chain :
    (key parent : ℕ) (ps ps' : Parents) (forest : IsForest ps) (g : Grounded ps' key)
    → link_scope_parent key parent ps (forest parent) ≡ linked ps'
    → scope_chain_of key g ≡ key ∷ scope_chain_of parent (forest parent)
unfolding link_scope_parent
link_scope_parent_chain key parent ps ps' forest g h =
    let clear : meets key parent (forest parent) ≡ false = ground (arith, h) in
    let same : ps' ≡ set_parent key parent ps = ground (arith, clear, h) in
    subst
      (λ qs.
        (w : Grounded qs key) → scope_chain_of key w ≡ key ∷ scope_chain_of parent (forest parent))
      (sym same) (λ w. chain_linked key parent ps key (forest parent) w refl clear) g

abbrev holds_key : ℕ → List ℕ → Bool
holds_key t [] = false
holds_key t (k ∷ ks) = if nat_eq k t then true else holds_key t ks

meets-scope_chain_of :
    (ps : Parents) (t k : ℕ) (g : Grounded ps k) → meets t k g ≡ holds_key t (scope_chain_of k g)
unfolding meets scope_chain_of
meets-scope_chain_of ps t _ (root k e) = ground arith
meets-scope_chain_of ps t _ (under k p e g) = ground (arith, meets-scope_chain_of ps t p g)

-- After a link that passes, a listener with a tag is admitted to the key's events exactly when the
-- base filter admits it and its tag is the key or it is admitted to the parent's events.
pub link_scope_parent-admits :
    (key parent : ℕ) (ps ps' : Parents) (forest : IsForest ps) (g : Grounded ps' key) (base : Bool)
    (tag : ℕ)
    → link_scope_parent key parent ps (forest parent) ≡ linked ps'
    → admits base (some tag) key g
      ≡ (if nat_eq key tag then base else admits base (some tag) parent (forest parent))
unfolding admits
link_scope_parent-admits key parent ps ps' forest g base tag h =
    let chain = link_scope_parent_chain key parent ps ps' forest g h in
    let here = meets-scope_chain_of ps' tag key g ∙ ap (holds_key tag) chain in
    let above = meets-scope_chain_of ps tag parent (forest parent) in ground (arith, here, above)
