-- ===== src/Layers/Tests.antt =====
-- A registry with two scopes.
use rigo.Base.{ℕ, String, true, [], ◌∷◌, List, ◌≡◌, refl}
use rigo.Scope.{Grounded, root, under, scope_parent_of, scope_chain_of}
use rigo.Layers.{NamedEntries, inserted, duplicate, insert, undo, find_entry, ScopedLayers, merge}
use rigo.Layers.Merging.{nearest, merge-nearest}
use rigo.Layers.Entries.{insert-undo}

abbrev table : List (String × ℕ) → NamedEntries ℕ
table es = record { generation = 0; entries = es }

-- The layer of a registry with one table.
abbrev own_table : NamedEntries ℕ → NamedEntries ℕ
own_table t = t

abbrev layers : ScopedLayers (NamedEntries ℕ)
layers = record {
  global = table (("read", 1) ∷ ("write", 2) ∷ []);
  scoped = (1, table (("write", 3) ∷ [])) ∷ (2, table (("run", 4) ∷ [])) ∷ [];
}

above : Grounded ((2, 1) ∷ []) 2
unfolding scope_parent_of
above = under 2 1 refl (root 1 refl)

merged : merge own_table 2 above layers ≡ ("read", 1) ∷ ("write", 3) ∷ ("run", 4) ∷ []
unfolding merge above
merged = refl

insert_twice : insert "read" 5 layers.global ≡ duplicate "read"
unfolding insert
insert_twice = refl

inserted_once :
    insert "list" 5 layers.global
    ≡ inserted
        (table (("read", 1) ∷ ("write", 2) ∷ ("list", 5) ∷ []))
        (record { generation = 0; name = "list"; active = true })
unfolding insert
inserted_once = refl

merge-nearest_example :
    find_entry "write" (merge own_table 2 above layers)
    ≡ nearest own_table "write" (scope_chain_of 2 above) layers
merge-nearest_example =
    merge-nearest own_table "write" 2 above layers (refl, (refl, tt)) ((refl, tt), ((refl, tt), tt))

insert-undo_example :
    ((undo
        (record { generation = 0; name = "list"; active = true })
        (table (("read", 1) ∷ ("write", 2) ∷ ("list", 5) ∷ ("run", 6) ∷ []))).1.entries
      ≡ ("read", 1) ∷ ("write", 2) ∷ ("run", 6) ∷ [])
    × ((s r : NamedEntries ℕ)
        → (undo (undo (record { generation = 0; name = "list"; active = true }) s).0 r).1 ≡ r)
insert-undo_example =
    insert-undo "list" 5 layers.global (table (("read", 1) ∷ ("write", 2) ∷ ("list", 5) ∷ []))
      (record { generation = 0; name = "list"; active = true }) (("run", 6) ∷ []) inserted_once
