-- ===== src/Json/Alike.antt =====
-- When two values are equal as the action service compares them, told without its sorting.
use rigo.Base.{
  ℕ, String, ◌≡◌, ◌≢◌, ◌↔◌, refl, sym, ap, subst, ◌∙◌, arith, nat_eq, Bool-cases, inl, inr,
}
use rigo.Json.{
  Json, null, bool, num, str, arr, obj, Items, nil, cons, Fields, end, field, units, key_le,
  insert_field, canon, canon_items, canon_fields, minus_zero, written, written_items,
  written_fields, written_bits, stable_stringify,
}
use rigo.Json.Canonical.{stable_stringify-parts, insert_field-written}
use rigo.Json.KeyOrder.{key_le-differs, insert_field-swap}

-- Equal up to the order of members with different keys, at any depth, and up to the sign of zero.
mutual
  pub data Alike : Json → Json → Type 0 where
    itself : {v : Json} → Alike v v
    zeros : Alike (num minus_zero) (num 0)
    arrays : {vs ws : Items} → AlikeItems vs ws → Alike (arr vs) (arr ws)
    objects : {fs gs : Fields} → AlikeFields fs gs → Alike (obj fs) (obj gs)
    back : {v w : Json} → Alike v w → Alike w v
    through : {u v w : Json} → Alike u v → Alike v w → Alike u w

  pub data AlikeItems : Items → Items → Type 0 where
    no_items : AlikeItems nil nil
    items :
        {v w : Json} {vs ws : Items}
        → Alike v w
        → AlikeItems vs ws
        → AlikeItems (cons v vs) (cons w ws)

  pub data AlikeFields : Fields → Fields → Type 0 where
    no_fields : AlikeFields end end
    fields :
        {v w : Json} {fs gs : Fields} (k : String)
        → Alike v w
        → AlikeFields fs gs
        → AlikeFields (field k v fs) (field k w gs)
    swap :
        {v w : Json} {fs : Fields} (j k : String)
        → units j ≢ units k
        → AlikeFields (field j v (field k w fs)) (field k w (field j v fs))
    through_fields : {fs gs hs : Fields} → AlikeFields fs gs → AlikeFields gs hs → AlikeFields fs hs

-- Values that are alike have one text.
mutual
  unfolding canon written

  Alike-read_back : {v w : Json} → Alike v w → written (canon v) ≡ written (canon w)
  Alike-read_back itself = refl
  Alike-read_back zeros = refl
  Alike-read_back (arrays h) = ap arr (AlikeItems-read_back h)
  Alike-read_back (objects h) = ap obj (AlikeFields-read_back h)
  Alike-read_back (back h) = sym (Alike-read_back h)
  Alike-read_back (through h k) = Alike-read_back h ∙ Alike-read_back k

  AlikeItems-read_back :
      {vs ws : Items}
      → AlikeItems vs ws
      → written_items (canon_items vs) ≡ written_items (canon_items ws)
  AlikeItems-read_back no_items = refl
  AlikeItems-read_back (items {w = w} {vs = vs} h k) =
      ap (λ x. cons x (written_items (canon_items vs))) (Alike-read_back h)
      ∙ ap (cons (written (canon w))) (AlikeItems-read_back k)

  AlikeFields-read_back :
      {fs gs : Fields}
      → AlikeFields fs gs
      → written_fields (canon_fields fs) ≡ written_fields (canon_fields gs)
  AlikeFields-read_back no_fields = refl
  AlikeFields-read_back (fields {v = v} {w = w} {fs = fs} {gs = gs} k h r) =
      sym (insert_field-written k (canon v) (canon_fields fs))
      ∙ ap (λ x. insert_field k x (written_fields (canon_fields fs))) (Alike-read_back h)
      ∙ ap (insert_field k (written (canon w))) (AlikeFields-read_back r)
      ∙ insert_field-written k (canon w) (canon_fields gs)
  AlikeFields-read_back (swap {v = v} {w = w} {fs = fs} j k differ) =
      ap written_fields (insert_field-swap j k (canon v) (canon w) (canon_fields fs) differ)
  AlikeFields-read_back (through_fields h k) = AlikeFields-read_back h ∙ AlikeFields-read_back k

AlikeFields-refl : (fs : Fields) → AlikeFields fs fs
AlikeFields-refl end = no_fields
AlikeFields-refl (field k v fs) = fields k itself (AlikeFields-refl fs)

insert_field-AlikeFields :
    (k : String) (v : Json) (fs : Fields) → AlikeFields (field k v fs) (insert_field k v fs)
unfolding insert_field
insert_field-AlikeFields k v end = AlikeFields-refl (field k v end)
insert_field-AlikeFields k v (field j w fs) = elim (Bool-cases (key_le k j)) [
  | inl le ↦ rw le (AlikeFields-refl (field k v (field j w fs)))
  | inr gt ↦ rw gt (
      through_fields (swap k j (key_le-differs k j gt))
        (fields j itself (insert_field-AlikeFields k v fs)))
]

mutual
  unfolding canon

  canon-Alike : (v : Json) → Alike v (canon v)
  canon-Alike null = itself
  canon-Alike (bool b) = itself
  canon-Alike (num n) = itself
  canon-Alike (str s) = itself
  canon-Alike (arr vs) = arrays (canon_items-AlikeItems vs)
  canon-Alike (obj fs) = objects (canon_fields-AlikeFields fs)

  canon_items-AlikeItems : (vs : Items) → AlikeItems vs (canon_items vs)
  canon_items-AlikeItems nil = no_items
  canon_items-AlikeItems (cons v vs) = items (canon-Alike v) (canon_items-AlikeItems vs)

  canon_fields-AlikeFields : (fs : Fields) → AlikeFields fs (canon_fields fs)
  canon_fields-AlikeFields end = no_fields
  canon_fields-AlikeFields (field k v fs) =
      through_fields (fields k (canon-Alike v) (canon_fields-AlikeFields fs))
        (insert_field-AlikeFields k (canon v) (canon_fields fs))

written_bits-Alike : (n : ℕ) → Alike (num n) (num (written_bits n))
written_bits-Alike n = elim (Bool-cases (nat_eq n minus_zero)) [
  | inl negative ↦
      let zero_bits : n ≡ minus_zero = ground (arith, negative) in
      subst (λ m. Alike (num m) (num (written_bits m))) (sym zero_bits) zeros
  | inr other ↦ rw other itself
]

mutual
  unfolding written

  written-Alike : (v : Json) → Alike v (written v)
  written-Alike null = itself
  written-Alike (bool b) = itself
  written-Alike (num n) = written_bits-Alike n
  written-Alike (str s) = itself
  written-Alike (arr vs) = arrays (written_items-AlikeItems vs)
  written-Alike (obj fs) = objects (written_fields-AlikeFields fs)

  written_items-AlikeItems : (vs : Items) → AlikeItems vs (written_items vs)
  written_items-AlikeItems nil = no_items
  written_items-AlikeItems (cons v vs) = items (written-Alike v) (written_items-AlikeItems vs)

  written_fields-AlikeFields : (fs : Fields) → AlikeFields fs (written_fields fs)
  written_fields-AlikeFields end = no_fields
  written_fields-AlikeFields (field k v fs) =
      fields k (written-Alike v) (written_fields-AlikeFields fs)

read_back-Alike : (v : Json) → Alike v (written (canon v))
read_back-Alike v = through (canon-Alike v) (written-Alike (canon v))

-- Two values have one stable text exactly when they are equal up to the order, at any depth, of
-- members with different keys, and up to the sign of zero.
pub stable_stringify-Alike : (v w : Json) → (stable_stringify v ≡ stable_stringify w) ↔ Alike v w
stable_stringify-Alike v w = (
  λ e.
      through (read_back-Alike v) (
        subst (λ x. Alike x w) (sym ((stable_stringify-parts v w).0 e)) (back (read_back-Alike w))),
  λ h. (stable_stringify-parts v w).1 (Alike-read_back h),
)
