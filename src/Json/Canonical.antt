-- ===== src/Json/Canonical.antt =====
-- Canonical texts: what `stableStringify` writes is stable under parsing and writing again.
use rigo.Base.{
  ℕ, List, [], ◌∷◌, String, true, false, some, ◌≡◌, refl, sym, ap, ◌∙◌, arith, eq_iff, ◌↔◌,
  Bool-cases, inl, inr,
}
use rigo.Json.{
  Json, null, bool, num, str, arr, obj, Items, nil, cons, Fields, end, field, units_le, units, Text,
  Token, t_str, token_eq, text_eq, key_le, insert_field, canon, canon_items, canon_fields,
  stringify, stringify_items, stringify_fields, stable_stringify, parse, written, written_items,
  written_fields, written_bits, t_num,
}
use rigo.Json.RoundTrip.{parse-stringify}

pub units_le_total : (xs ys : List ℕ) → units_le xs ys ≡ false → units_le ys xs ≡ true
unfolding units_le
units_le_total [] ys h = cc
units_le_total (x ∷ xs) [] h = refl
units_le_total (x ∷ xs) (y ∷ ys) h = ground (arith, units_le_total xs ys)

pub key_le_total : (a b : String) → key_le a b ≡ false → key_le b a ≡ true
unfolding key_le
key_le_total a b h = units_le_total (units a) (units b) h

-- Members in key order.
abbrev LeHead : String → Fields → Type 0
LeHead k end = Unit
LeHead k (field j w fs) = key_le k j ≡ true

abbrev IsSorted : Fields → Type 0
IsSorted end = Unit
IsSorted (field k v fs) = LeHead k fs × IsSorted fs

-- Members that are canonical already.
abbrev IsFixed : Fields → Type 0
IsFixed end = Unit
IsFixed (field k v fs) = (canon v ≡ v) × IsFixed fs

LeHead-insert_field :
    (j k : String) (v : Json) (fs : Fields)
    → key_le j k ≡ true
    → LeHead j fs
    → LeHead j (insert_field k v fs)
unfolding insert_field
LeHead-insert_field j k v end h l = h
LeHead-insert_field j k v (field i w fs) h l = ground arith

insert_field-IsSorted :
    (k : String) (v : Json) (fs : Fields) → IsSorted fs → IsSorted (insert_field k v fs)
unfolding insert_field
insert_field-IsSorted k v end h = (tt, tt)
insert_field-IsSorted k v (field j w fs) h = elim (Bool-cases (key_le k j)) [
  | inl le ↦ rw le (le, h)
  | inr gt ↦
      rw gt
        (LeHead-insert_field j k v fs (key_le_total k j gt) h.0, insert_field-IsSorted k v fs h.1)
]

insert_field-IsFixed :
    (k : String) (v : Json) (fs : Fields) → canon v ≡ v → IsFixed fs → IsFixed (insert_field k v fs)
unfolding insert_field
insert_field-IsFixed k v end e h = (e, tt)
insert_field-IsFixed k v (field j w fs) e h = elim (Bool-cases (key_le k j)) [
  | inl le ↦ rw le (e, h)
  | inr gt ↦ rw gt (h.0, insert_field-IsFixed k v fs e h.1)
]

insert_field_of_LeHead :
    (k : String) (v : Json) (fs : Fields) → LeHead k fs → insert_field k v fs ≡ field k v fs
unfolding insert_field
insert_field_of_LeHead k v end h = refl
insert_field_of_LeHead k v (field j w fs) h = rw h

canon_fields_fixed : (fs : Fields) → IsSorted fs → IsFixed fs → canon_fields fs ≡ fs
unfolding canon_fields
canon_fields_fixed end s h = refl
canon_fields_fixed (field k v fs) s h =
    rw (h.0, canon_fields_fixed fs s.1 h.1) (insert_field_of_LeHead k v fs s.0)

canon_fields-IsSorted : (fs : Fields) → IsSorted (canon_fields fs)
unfolding canon_fields
canon_fields-IsSorted end = tt
canon_fields-IsSorted (field k v fs) =
    insert_field-IsSorted k (canon v) (canon_fields fs) (canon_fields-IsSorted fs)

mutual
  unfolding canon

  canon_idempotent : (v : Json) → canon (canon v) ≡ canon v
  canon_idempotent null = refl
  canon_idempotent (bool b) = refl
  canon_idempotent (num n) = refl
  canon_idempotent (str s) = refl
  canon_idempotent (arr vs) = ap arr (canon_items_idempotent vs)
  canon_idempotent (obj fs) =
      ap obj
        (canon_fields_fixed (canon_fields fs) (canon_fields-IsSorted fs) (canon_fields-IsFixed fs))

  canon_items_idempotent : (vs : Items) → canon_items (canon_items vs) ≡ canon_items vs
  canon_items_idempotent nil = refl
  canon_items_idempotent (cons v vs) = simp (canon_idempotent v, canon_items_idempotent vs)

  canon_fields-IsFixed : (fs : Fields) → IsFixed (canon_fields fs)
  canon_fields-IsFixed end = tt
  canon_fields-IsFixed (field k v fs) =
      insert_field-IsFixed k (canon v) (canon_fields fs) (canon_idempotent v)
        (canon_fields-IsFixed fs)

written_bits_idempotent : (n : ℕ) → written_bits (written_bits n) ≡ written_bits n
written_bits_idempotent n = ground arith

mutual
  unfolding stringify written

  -- A value and what is read back of it have one text.
  stringify-written : (v : Json) → stringify (written v) ≡ stringify v
  stringify-written null = refl
  stringify-written (bool b) = refl
  stringify-written (num n) = ap (λ m. t_num m ∷ []) (written_bits_idempotent n)
  stringify-written (str s) = refl
  stringify-written (arr nil) = refl
  stringify-written (arr (cons v vs)) = simp (stringify-written v, stringify_items-written_items vs)
  stringify-written (obj end) = refl
  stringify-written (obj (field k v fs)) =
      simp (stringify-written v, stringify_fields-written_fields fs)

  stringify_items-written_items :
      (vs : Items) → stringify_items (written_items vs) ≡ stringify_items vs
  stringify_items-written_items nil = refl
  stringify_items-written_items (cons v vs) =
      simp (stringify-written v, stringify_items-written_items vs)

  stringify_fields-written_fields :
      (fs : Fields) → stringify_fields (written_fields fs) ≡ stringify_fields fs
  stringify_fields-written_fields end = refl
  stringify_fields-written_fields (field k v fs) =
      simp (stringify-written v, stringify_fields-written_fields fs)

pub insert_field-written :
    (k : String) (v : Json) (fs : Fields)
    → insert_field k (written v) (written_fields fs) ≡ written_fields (insert_field k v fs)
unfolding insert_field written
insert_field-written k v end = refl
insert_field-written k v (field j w fs) = elim (Bool-cases (key_le k j)) [
  | inl le ↦ rw le refl
  | inr gt ↦ rw gt (ap (field j (written w)) (insert_field-written k v fs))
]

mutual
  unfolding canon written

  canon-written : (v : Json) → canon (written v) ≡ written (canon v)
  canon-written null = refl
  canon-written (bool b) = refl
  canon-written (num n) = refl
  canon-written (str s) = refl
  canon-written (arr vs) = ap arr (canon_items-written vs)
  canon-written (obj fs) = ap obj (canon_fields-written fs)

  canon_items-written :
      (vs : Items) → canon_items (written_items vs) ≡ written_items (canon_items vs)
  canon_items-written nil = refl
  canon_items-written (cons v vs) = simp (canon-written v, canon_items-written vs)

  canon_fields-written :
      (fs : Fields) → canon_fields (written_fields fs) ≡ written_fields (canon_fields fs)
  canon_fields-written end = refl
  canon_fields-written (field k v fs) =
      ap (λ x. insert_field k x (canon_fields (written_fields fs))) (canon-written v)
      ∙ ap (insert_field k (written (canon v))) (canon_fields-written fs)
      ∙ insert_field-written k (canon v) (canon_fields fs)

pub parse-stable_stringify : (v : Json) → parse (stable_stringify v) ≡ some (written (canon v))
unfolding stable_stringify
parse-stable_stringify v = parse-stringify (canon v)

-- What is read back of a stable text has that stable text: the comparison that `replay` makes
-- between a stored request and a new one is between such texts.
pub stable_stringify-written :
    (v : Json) → stable_stringify (written (canon v)) ≡ stable_stringify v
unfolding stable_stringify
stable_stringify-written v =
    ap stringify (canon-written (canon v) ∙ ap written (canon_idempotent v))
    ∙ stringify-written (canon v)

pub stable_stringify-parts :
    (v w : Json)
    → (stable_stringify v ≡ stable_stringify w) ↔ (written (canon v) ≡ written (canon w))
unfolding stable_stringify
stable_stringify-parts v w = (
  λ e. cc (parse-stringify (canon v), parse-stringify (canon w)),
  λ e. sym (stringify-written (canon v)) ∙ ap stringify e ∙ stringify-written (canon w),
)

token_eq_iff : (t u : Token) → (token_eq t u ≡ true) ↔ (t ≡ u)
unfolding token_eq
token_eq_iff (t_str s) (t_str t) = ground (arith, eq_iff s t)
token_eq_iff _ _ = ground arith

pub text_eq_iff : (ts us : Text) → (text_eq ts us ≡ true) ↔ (ts ≡ us)
unfolding text_eq
text_eq_iff [] [] = ground arith
text_eq_iff (t ∷ ts) [] = ground arith
text_eq_iff [] (u ∷ us) = ground arith
text_eq_iff (t ∷ ts) (u ∷ us) = ground (arith, token_eq_iff t u, text_eq_iff ts us)
