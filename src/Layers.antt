-- ===== src/Layers.antt =====
-- The tables and layers of registries that know scopes: packages/harness/scope/src/store.ts. A map
-- is a list of entries in order of insertion; a table's identity is the number of its generation.
-- The layers' effects on a registration context belong to the context library.
pub mod Merging
pub mod Entries
pub mod Tests
use rigo.Base.{
  ℕ, suc, String, Bool, true, false, not, List, [], ◌∷◌, ◌++◌, Option, some, none, ◌==◌, ◌&&◌,
  nat_eq, is_some, is_empty, if◌then◌else◌,
}
use rigo.Scope.{Parents, Grounded, scope_chain_of}

-- `Map.get`, `Map.set` and `Map.delete`.
abbrev pub find_entry {ℓ} : {V : Type ℓ} → String → List (String × V) → Option V
find_entry name [] = none
find_entry name (e ∷ es) = let rest = find_entry name es in if e.0 == name then some e.1 else rest

abbrev pub set_entry {ℓ} : {V : Type ℓ} → String → V → List (String × V) → List (String × V)
set_entry name value [] = (name, value) ∷ []
set_entry name value (e ∷ es) =
    let rest = set_entry name value es in if e.0 == name then (e.0, value) ∷ es else e ∷ rest

abbrev pub delete_entry {ℓ} : {V : Type ℓ} → String → List (String × V) → List (String × V)
delete_entry name [] = []
delete_entry name (e ∷ es) = let rest = delete_entry name es in if e.0 == name then es else e ∷ rest

pub record NamedEntries {ℓ} (V : Type ℓ) : Type ℓ where
  pub generation : ℕ
  pub entries : List (String × V)

-- The undo of one insertion, with the table generation that it holds on to.
pub record Undo : Type 0 where
  pub generation : ℕ
  pub name : String
  pub active : Bool

pub data Inserted {ℓ} (V : Type ℓ) : Type ℓ where
  duplicate : String → Inserted V
  inserted : NamedEntries V → Undo → Inserted V

module _ {ℓ} {V : Type ℓ} where
  -- `get`, `has` and `isEmpty`.
  abbrev pub get : String → NamedEntries V → Option V
  get name t = find_entry name t.entries

  abbrev pub has : String → NamedEntries V → Bool
  has name t = is_some (get name t)

  abbrev pub is_empty_table : NamedEntries V → Bool
  is_empty_table t = is_empty t.entries

  unfoldable pub insert : String → V → NamedEntries V → Inserted V
  insert name value t =
      if has name t
      then duplicate name
      else inserted (record t { entries = set_entry name value t.entries })
          (record { generation = t.generation; name = name; active = true })

  -- The map that the undo holds is the table's only within one generation.
  abbrev pub delete_held : Undo → NamedEntries V → NamedEntries V
  delete_held u t =
      let left = delete_entry u.name t.entries in
      if nat_eq u.generation t.generation
      then (if is_empty left
          then record { generation = suc t.generation; entries = [] }
          else record t { entries = left })
      else t

  unfoldable pub undo : Undo → NamedEntries V → Undo × NamedEntries V
  undo u t = if u.active then (record u { active = false }, delete_held u t) else (u, t)

pub record ScopedLayers {ℓ} (L : Type ℓ) : Type ℓ where
  pub global : L
  pub scoped : List (ℕ × L)

module _ {ℓ} {L : Type ℓ} where
  abbrev pub find_layer : ℕ → List (ℕ × L) → Option L
  find_layer k [] = none
  find_layer k (x ∷ xs) = let rest = find_layer k xs in if nat_eq x.0 k then some x.1 else rest

  abbrev pub peek : Option ℕ → ScopedLayers L → Option L
  peek none ls = none
  peek (some k) ls = find_layer k ls.scoped

  -- The layers of these keys, the first key last; absent ones are skipped.
  abbrev pub layers_back : List ℕ → ScopedLayers L → List L
  layers_back [] ls = []
  layers_back (k ∷ ks) ls =
      layers_back ks ls ++ elim (peek (some k) ls) [ none ↦ [] | some l ↦ l ∷ [] ]

  unfoldable pub chain_layers : {ps : Parents} (k : ℕ) → Grounded ps k → ScopedLayers L → List L
  unfolding scope_chain_of
  chain_layers k g ls = layers_back (scope_chain_of k g) ls

  module _ {κ} {V : Type κ} (pick : L → NamedEntries V) where
    abbrev pub set_all : List (String × V) → List (String × V) → List (String × V)
    set_all [] merged = merged
    set_all (e ∷ es) merged = set_all es (set_entry e.0 e.1 merged)

    abbrev pub merge_layers : List L → List (String × V) → List (String × V)
    merge_layers [] merged = merged
    merge_layers (l ∷ ls) merged = merge_layers ls (set_all (pick l).entries merged)

    -- Without a viewing scope, and for one.
    abbrev pub merge_global : ScopedLayers L → List (String × V)
    merge_global ls = set_all (pick ls.global).entries []

    unfoldable pub merge :
        {ps : Parents} (k : ℕ) → Grounded ps k → ScopedLayers L → List (String × V)
    unfolding chain_layers
    merge k g ls = merge_layers (chain_layers k g ls) (merge_global ls)
