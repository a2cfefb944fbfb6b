-- ===== src/Json/KeyOrder.antt =====
-- The order of keys by their code units, and what it makes of two insertions.
use rigo.Base.{
  ℕ, List, [], ◌∷◌, String, true, false, ◌≡◌, ◌≢◌, refl, sym, ap, ◌∙◌, arith, Bool-cases, inl, inr,
}
use rigo.Json.{Json, Fields, end, field, units, units_le, key_le, insert_field}
use rigo.Json.Canonical.{key_le_total}

units_le_refl : (xs : List ℕ) → units_le xs xs ≡ true
unfolding units_le
units_le_refl [] = refl
units_le_refl (x ∷ xs) = ground (arith, units_le_refl xs)

units_le_trans :
    (xs ys zs : List ℕ) → units_le xs ys ≡ true → units_le ys zs ≡ true → units_le xs zs ≡ true
unfolding units_le
units_le_trans [] ys zs h k = refl
units_le_trans (x ∷ xs) [] zs h k = ground (arith, h)
units_le_trans (x ∷ xs) (y ∷ ys) [] h k = ground (arith, k)
units_le_trans (x ∷ xs) (y ∷ ys) (z ∷ zs) h k = ground (arith, h, k, units_le_trans xs ys zs)

units_le_antisym : (xs ys : List ℕ) → units_le xs ys ≡ true → units_le ys xs ≡ true → xs ≡ ys
unfolding units_le
units_le_antisym [] [] h k = refl
units_le_antisym [] (y ∷ ys) h k = ground (arith, k)
units_le_antisym (x ∷ xs) [] h k = ground (arith, h)
units_le_antisym (x ∷ xs) (y ∷ ys) h k = ground (arith, h, k, units_le_antisym xs ys)

-- A key that does not come before another has other code units.
pub key_le-differs : (j k : String) → key_le j k ≡ false → units j ≢ units k
unfolding key_le
key_le-differs j k h same =
    let le : units_le (units j) (units k) ≡ true =
      ap (λ us. units_le us (units k)) same ∙ units_le_refl (units k) in
    ground (arith, h, le)

key_le_trans : (i j k : String) → key_le i j ≡ true → key_le j k ≡ true → key_le i k ≡ true
unfolding key_le
key_le_trans i j k h g = units_le_trans (units i) (units j) (units k) h g

key_le_antisym : (j k : String) → units j ≢ units k → key_le j k ≡ true → key_le k j ≡ false
unfolding key_le
key_le_antisym j k differ h = elim (Bool-cases (units_le (units k) (units j))) [
  | inl back ↦ absurd (differ (units_le_antisym (units j) (units k) h back))
  | inr beyond ↦ beyond
]

-- An insertion at the first of the members, and one behind it.
insert_here :
    (k j : String) (v w : Json) (fs : Fields)
    → key_le k j ≡ true
    → insert_field k v (field j w fs) ≡ field k v (field j w fs)
unfolding insert_field
insert_here k j v w fs h = rw h

insert_behind :
    (k j : String) (v w : Json) (fs : Fields)
    → key_le k j ≡ false
    → insert_field k v (field j w fs) ≡ field j w (insert_field k v fs)
unfolding insert_field
insert_behind k j v w fs h = rw h

-- Two insertions, the smaller key's last, and the other way round.
ordered_insertions :
    (j k : String) (v w : Json) (fs : Fields)
    → key_le j k ≡ true
    → key_le k j ≡ false
    → insert_field j v (insert_field k w fs) ≡ insert_field k w (insert_field j v fs)
unfolding insert_field
ordered_insertions j k v w end le gt =
    insert_here j k v w end le ∙ sym (insert_behind k j w v end gt)
ordered_insertions j k v w (field i x fs) le gt = elim (Bool-cases (key_le j i)) [
  | inl before ↦ elim (Bool-cases (key_le k i)) [
    | inl also ↦
        ap (insert_field j v) (insert_here k i w x fs also)
        ∙ insert_here j k v w (field i x fs) le
        ∙ sym (
            ap (insert_field k w) (insert_here j i v x fs before)
            ∙ insert_behind k j w v (field i x fs) gt
            ∙ ap (field j v) (insert_here k i w x fs also))
    | inr later ↦
        ap (insert_field j v) (insert_behind k i w x fs later)
        ∙ insert_here j i v x (insert_field k w fs) before
        ∙ sym (
            ap (insert_field k w) (insert_here j i v x fs before)
            ∙ insert_behind k j w v (field i x fs) gt
            ∙ ap (field j v) (insert_behind k i w x fs later))
  ]
  | inr after ↦
      let later : key_le k i ≡ false = beyond after in
      ap (insert_field j v) (insert_behind k i w x fs later)
      ∙ insert_behind j i v x (insert_field k w fs) after
      ∙ ap (field i x) (ordered_insertions j k v w fs le gt)
      ∙ sym (
          ap (insert_field k w) (insert_behind j i v x fs after)
          ∙ insert_behind k i w x (insert_field j v fs) later)
]
  where
    beyond : key_le j i ≡ false → key_le k i ≡ false
    beyond after = elim (Bool-cases (key_le k i)) [
      | inr no_match ↦ no_match
      | inl before ↦ ground (arith, after, key_le_trans j k i le before)
    ]

-- Members with different keys may be inserted in either order.
pub insert_field-swap :
    (j k : String) (v w : Json) (fs : Fields)
    → units j ≢ units k
    → insert_field j v (insert_field k w fs) ≡ insert_field k w (insert_field j v fs)
insert_field-swap j k v w fs differ = elim (Bool-cases (key_le j k)) [
  | inl le ↦ ordered_insertions j k v w fs le (key_le_antisym j k differ le)
  | inr gt ↦ sym (ordered_insertions k j w v fs (key_le_total j k gt) gt)
]
