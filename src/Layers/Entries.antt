-- ===== src/Layers/Entries.antt =====
-- The undo of an insertion.
use rigo.Base.{
  String, true, false, List, [], ◌∷◌, ◌++◌, ◌==◌, ◌≡◌, refl, sym, ap, ◌∙◌, arith, eq_self, is_some,
  is_empty, nat_eq, Bool-cases, inl, inr,
}
use mathlib.Core.List.{append_assoc}
use rigo.Layers.{
  find_entry, set_entry, delete_entry, NamedEntries, has, Undo, inserted, insert, undo,
}

module _ {ℓ} {V : Type ℓ} where
  set_entry_new :
      (name : String) (v : V) (es : List (String × V))
      → is_some (find_entry name es) ≡ false
      → set_entry name v es ≡ es ++ (name, v) ∷ []
  set_entry_new name v [] new = refl
  set_entry_new name v (e ∷ es) new = elim (Bool-cases (e.0 == name)) [
    | inl same ↦ ground (arith, same, new)
    | inr other ↦ ground (arith, other, set_entry_new name v es (ground (arith, other, new)))
  ]

  delete_entry-append :
      (name : String) (v : V) (es later : List (String × V))
      → is_some (find_entry name es) ≡ false
      → delete_entry name (es ++ (name, v) ∷ later) ≡ es ++ later
  delete_entry-append name v [] later new = ground (arith, eq_self name)
  delete_entry-append name v (e ∷ es) later new = elim (Bool-cases (e.0 == name)) [
    | inl same ↦ ground (arith, same, new)
    | inr other ↦
        ground (arith, other, delete_entry-append name v es later (ground (arith, other, new)))
  ]

  insert-inserted :
      (name : String) (v : V) (t after : NamedEntries V) (u : Undo)
      → insert name v t ≡ inserted after u
      → (is_some (find_entry name t.entries) ≡ false)
        × (after.entries ≡ set_entry name v t.entries)
        × (after.generation ≡ t.generation)
        × (u ≡ record { generation = t.generation; name = name; active = true })
  unfolding insert
  insert-inserted name v t after u h = elim (Bool-cases (has name t)) [
    | inl there ↦ ground (arith, there, h)
    | inr new ↦ (new, ground (arith, new, h), ground (arith, new, h), ground (arith, new, h))
  ]

  emptied : (es : List (String × V)) → is_empty es ≡ true → [] ≡ es
  emptied [] h = refl
  emptied (e ∷ es) h = ground (arith, h)

  undo-entries :
      (u : Undo) (t : NamedEntries V)
      → u.active ≡ true
      → u.generation ≡ t.generation
      → (undo u t).1.entries ≡ delete_entry u.name t.entries
  unfolding undo
  undo-entries u t active held =
      let same : nat_eq u.generation t.generation ≡ true = ground (arith, held) in
      elim (Bool-cases (is_empty (delete_entry u.name t.entries))) [
        | inl drained ↦
            ground (arith, active, same, drained, emptied (delete_entry u.name t.entries) drained)
        | inr left ↦ ground (arith, active, same, left)
      ]

  undo_again : (u : Undo) (t later : NamedEntries V) → (undo (undo u t).0 later).1 ≡ later
  unfolding undo
  undo_again u t later = ground arith

  -- The undo of an insertion removes exactly the inserted entry, whatever other entries stand behind
  -- it by then, and called again it changes nothing.
  pub insert-undo :
      (name : String) (v : V) (t after : NamedEntries V) (u : Undo) (later : List (String × V))
      → insert name v t ≡ inserted after u
      → ((undo u (record after { entries = after.entries ++ later })).1.entries
          ≡ t.entries ++ later)
        × ((s r : NamedEntries V) → (undo (undo u s).0 r).1 ≡ r)
  insert-undo name v t after u later h =
      let (new, entries, generation, held) = insert-inserted name v t after u h in
      let now = record after { entries = after.entries ++ later } in
      let grown : after.entries ++ later ≡ t.entries ++ (name, v) ∷ later =
        ap (λ es. es ++ later) (entries ∙ set_entry_new name v t.entries new)
        ∙ append_assoc t.entries ((name, v) ∷ []) later in
      (
        undo-entries u now (ap (λ x. x.active) held) (ap (λ x. x.generation) held ∙ sym generation)
            ∙ ap (λ x. delete_entry x.name (after.entries ++ later)) held
            ∙ ap (delete_entry name) grown
            ∙ delete_entry-append name v t.entries later new,
        undo_again u,
      )
