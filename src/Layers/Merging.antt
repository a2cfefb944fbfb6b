-- ===== src/Layers/Merging.antt =====
-- The merged view of a name is the nearest scope's entry.
use rigo.Base.{
  ℕ, String, false, List, [], ◌∷◌, ◌++◌, Option, some, none, ◌==◌, ◌≡◌, refl, sym, ap, subst, ◌∙◌,
  arith, eq_iff, nat_eq, is_some, if◌then◌else◌, Bool-cases, Option-cases, inl, inr,
}
use mathlib.Core.List.{append-nil}
use rigo.Scope.{Parents, Grounded, scope_chain_of}
use rigo.Layers.{
  find_entry, set_entry, NamedEntries, get, ScopedLayers, find_layer, peek, layers_back,
  chain_layers, set_all, merge_layers, merge_global, merge,
}

-- The names of a table's entries are distinct.
abbrev pub HasDistinctNames {ℓ} : {V : Type ℓ} → List (String × V) → Type 0
HasDistinctNames [] = Unit
HasDistinctNames (e ∷ es) = (is_some (find_entry e.0 es) ≡ false) × HasDistinctNames es

module _ {ℓ κ} {L : Type ℓ} {V : Type κ} (pick : L → NamedEntries V) where
  -- Every scoped layer's table has distinct names.
  abbrev pub HasTables : List (ℕ × L) → Type 0
  HasTables [] = Unit
  HasTables (x ∷ xs) = HasDistinctNames (pick x.1).entries × HasTables xs

  abbrev pub or_else : Option V → Option V → Option V
  or_else (some v) o = some v
  or_else none o = o

  abbrev pub own_entry : String → Option L → Option V
  own_entry name none = none
  own_entry name (some l) = get name (pick l)

  -- The entry of the first of these keys whose layer has one, or else the global entry.
  abbrev pub nearest : String → List ℕ → ScopedLayers L → Option V
  nearest name [] ls = get name (pick ls.global)
  nearest name (k ∷ ks) ls = or_else (own_entry name (peek (some k) ls)) (nearest name ks ls)

  find_entry-set_entry :
      (name other : String) (v : V) (es : List (String × V))
      → find_entry name (set_entry other v es)
        ≡ (if other == name then some v else find_entry name es)
  find_entry-set_entry name other v [] = refl
  find_entry-set_entry name other v (e ∷ es) = elim (Bool-cases (e.0 == other)) [
    | inl same ↦
        let equal = ap (λ x. x == name) ((eq_iff e.0 other).0 same) in ground (arith, same, equal)
    | inr differs ↦ elim (Bool-cases (e.0 == name)) [
      | inl here ↦
          let equal = ap (λ x. x == other) ((eq_iff e.0 name).0 here) in
          let apart = different name other (sym equal ∙ differs) in
          ground (arith, differs, here, apart)
      | inr elsewhere ↦ ground (arith, differs, elsewhere, find_entry-set_entry name other v es)
    ]
  ]
    where
      different : (a b : String) → (a == b) ≡ false → (b == a) ≡ false
      different a b h = elim (Bool-cases (b == a)) [
        | inr no_match ↦ no_match
        | inl match ↦
            let same = (eq_iff a b).1 (sym ((eq_iff b a).0 match)) in ground (arith, same, h)
      ]

  find_entry-set_all :
      (name : String) (es merged : List (String × V))
      → HasDistinctNames es
      → find_entry name (set_all pick es merged)
        ≡ or_else (find_entry name es) (find_entry name merged)
  find_entry-set_all name [] merged d = refl
  find_entry-set_all name (e ∷ es) merged d =
      let later = find_entry-set_all name es (set_entry e.0 e.1 merged) d.1 in
      let first = find_entry-set_entry name e.0 e.1 merged in
      elim (Bool-cases (e.0 == name)) [
        | inl same ↦
            let absent : find_entry name es ≡ none =
              ap (λ x. find_entry x es) (sym ((eq_iff e.0 name).0 same))
              ∙ none_there (find_entry e.0 es) d.0 in
            ground (arith, same, absent, later, first)
        | inr other ↦ ground (arith, other, later, first)
      ]
    where
      none_there : (o : Option V) → is_some o ≡ false → o ≡ none
      none_there none h = refl
      none_there (some v) h = ground (arith, h)

  merge_layers-append :
      (ls : List L) (l : L) (merged : List (String × V))
      → merge_layers pick (ls ++ l ∷ []) merged
        ≡ set_all pick (pick l).entries (merge_layers pick ls merged)
  merge_layers-append [] l merged = refl
  merge_layers-append (m ∷ ls) l merged =
      merge_layers-append ls l (set_all pick (pick m).entries merged)

  find_layer-HasDistinctNames :
      (k : ℕ) (xs : List (ℕ × L)) (l : L)
      → HasTables xs
      → find_layer k xs ≡ some l
      → HasDistinctNames (pick l).entries
  find_layer-HasDistinctNames k [] l tables found = ground (arith, found)
  find_layer-HasDistinctNames k (x ∷ xs) l tables found = elim (Bool-cases (nat_eq x.0 k)) [
    | inl here ↦
        let same : x.1 ≡ l = ground (arith, here, found) in
        subst (λ m. HasDistinctNames (pick m).entries) same tables.0
    | inr elsewhere ↦ find_layer-HasDistinctNames k xs l tables.1 (ground (arith, elsewhere, found))
  ]

  -- One key more, before the others.
  layers_back-here :
      (k : ℕ) (ks : List ℕ) (ls : ScopedLayers L) (l : L)
      → peek (some k) ls ≡ some l
      → layers_back (k ∷ ks) ls ≡ layers_back ks ls ++ l ∷ []
  layers_back-here k ks ls l here =
      ap (λ o. layers_back ks ls ++ elim o [ none ↦ [] | some m ↦ m ∷ [] ]) here

  layers_back-absent :
      (k : ℕ) (ks : List ℕ) (ls : ScopedLayers L)
      → peek (some k) ls ≡ none
      → layers_back (k ∷ ks) ls ≡ layers_back ks ls
  layers_back-absent k ks ls absent =
      ap (λ o. layers_back ks ls ++ elim o [ none ↦ [] | some m ↦ m ∷ [] ]) absent
      ∙ append-nil (layers_back ks ls)

  find_entry-layers :
      (name : String) (ks : List ℕ) (ls : ScopedLayers L)
      → HasDistinctNames (pick ls.global).entries
      → HasTables ls.scoped
      → find_entry name (merge_layers pick (layers_back ks ls) (merge_global pick ls))
        ≡ nearest name ks ls
  find_entry-layers name [] ls global tables =
      find_entry-set_all name (pick ls.global).entries [] global
      ∙ or_else-none (find_entry name (pick ls.global).entries)
    where
      or_else-none : (o : Option V) → or_else o none ≡ o
      or_else-none none = refl
      or_else-none (some v) = refl
  find_entry-layers name (k ∷ ks) ls global tables =
      let rest = find_entry-layers name ks ls global tables in
      elim (Option-cases (peek (some k) ls)) [
        | inl absent ↦
            ap (λ xs. find_entry name (merge_layers pick xs (merge_global pick ls)))
              (layers_back-absent k ks ls absent)
            ∙ rest
            ∙ sym (ap (λ o. or_else (own_entry name o) (nearest name ks ls)) absent)
        | inr (l, here) ↦
            ap (λ xs. find_entry name (merge_layers pick xs (merge_global pick ls)))
              (layers_back-here k ks ls l here)
            ∙ ap (find_entry name)
                (merge_layers-append (layers_back ks ls) l (merge_global pick ls))
            ∙ find_entry-set_all name (pick l).entries
                (merge_layers pick (layers_back ks ls) (merge_global pick ls))
                (find_layer-HasDistinctNames k ls.scoped l tables here)
            ∙ ap (or_else (get name (pick l))) rest
            ∙ sym (ap (λ o. or_else (own_entry name o) (nearest name ks ls)) here)
      ]

  -- In the merged view of a scope a name has the entry of the nearest scope on the chain whose own
  -- layer has one, and the global entry when none has; each table's names are distinct.
  pub merge-nearest :
      {ps : Parents} (name : String) (k : ℕ) (g : Grounded ps k) (ls : ScopedLayers L)
      → HasDistinctNames (pick ls.global).entries
      → HasTables ls.scoped
      → find_entry name (merge pick k g ls) ≡ nearest name (scope_chain_of k g) ls
  unfolding merge chain_layers
  merge-nearest name k g ls global tables =
      find_entry-layers name (scope_chain_of k g) ls global tables
