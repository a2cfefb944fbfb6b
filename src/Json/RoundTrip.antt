-- ===== src/Json/RoundTrip.antt =====
-- `JSON.parse` reads back what `JSON.stringify` writes.
use rigo.Base.{
  ℕ, zero, suc, ◌+◌, ◌≤◌, ◌<◌, sym, ap, ◌∙◌, [], ◌++◌, some, ◌≡◌, refl, arith, length,
  length-append,
}
use mathlib.Core.List.{append_assoc, append-nil}
use rigo.Json.{
  Json, null, bool, num, str, arr, obj, Items, nil, cons, Fields, end, field, Text, stringify,
  stringify_items, stringify_fields, parse_value, parse_items, parse_fields, parse_arr, parse,
  whole, ◌>>=◌, written, written_items, written_fields,
}

-- How many calls the parser nests for a value.
mutual
  cost : Json → ℕ
  cost null = 1
  cost (bool b) = 1
  cost (num n) = 1
  cost (str s) = 1
  cost (arr vs) = 1 + cost_items vs
  cost (obj fs) = 1 + cost_fields fs

  cost_items : Items → ℕ
  cost_items nil = 1
  cost_items (cons v vs) = 1 + cost v + cost_items vs

  cost_fields : Fields → ℕ
  cost_fields end = 1
  cost_fields (field k v fs) = 1 + cost v + cost_fields fs

-- A value's text does not begin with a closing bracket, so an array that is not empty goes on.
parse_arr-stringify :
    (v : Json) (f : ℕ) (rest : Text)
    → parse_arr (suc f) (stringify v ++ rest) ≡ (
        parse_value f (stringify v ++ rest) >>= λ v.
        parse_items f v.1 >>= λ vs. some (arr (cons v.0 vs.0), vs.1))
unfolding stringify parse_arr
parse_arr-stringify null f rest = refl
parse_arr-stringify (bool b) f rest = refl
parse_arr-stringify (num n) f rest = refl
parse_arr-stringify (str s) f rest = refl
parse_arr-stringify (arr nil) f rest = refl
parse_arr-stringify (arr (cons v vs)) f rest = refl
parse_arr-stringify (obj end) f rest = refl
parse_arr-stringify (obj (field k v fs)) f rest = refl

cost_items_pos : (vs : Items) → 0 < cost_items vs
unfolding cost_items
cost_items_pos nil = omega arith
cost_items_pos (cons v vs) = omega arith

cost_fields_pos : (fs : Fields) → 0 < cost_fields fs
unfolding cost_fields
cost_fields_pos end = omega arith
cost_fields_pos (field k v fs) = omega arith

mutual
  unfolding stringify parse_value cost written

  parse_value-stringify :
      (v : Json) (f : ℕ) (rest : Text)
      → cost v ≤ f
      → parse_value f (stringify v ++ rest) ≡ some (written v, rest)
  parse_value-stringify null zero rest h = absurd (omega arith)
  parse_value-stringify (bool b) zero rest h = absurd (omega arith)
  parse_value-stringify (num n) zero rest h = absurd (omega arith)
  parse_value-stringify (str s) zero rest h = absurd (omega arith)
  parse_value-stringify (arr vs) zero rest h = absurd (omega arith)
  parse_value-stringify (obj fs) zero rest h = absurd (omega arith)
  parse_value-stringify null (suc f) rest h = refl
  parse_value-stringify (bool b) (suc f) rest h = refl
  parse_value-stringify (num n) (suc f) rest h = refl
  parse_value-stringify (str s) (suc f) rest h = refl
  parse_value-stringify (arr vs) (suc zero) rest h = absurd (omega (arith, cost_items_pos vs))
  parse_value-stringify (arr nil) (suc (suc f)) rest h = refl
  parse_value-stringify (arr (cons v vs)) (suc (suc f)) rest h =
      rw (append_assoc (stringify v) (stringify_items vs) rest) (
        parse_arr-stringify v f (stringify_items vs ++ rest)
        ∙ simp (
          parse_value-stringify v f (stringify_items vs ++ rest) (omega arith),
          parse_items-stringify vs f rest (omega arith),
        ))
  parse_value-stringify (obj fs) (suc zero) rest h = absurd (omega (arith, cost_fields_pos fs))
  parse_value-stringify (obj end) (suc (suc f)) rest h = refl
  parse_value-stringify (obj (field k v fs)) (suc (suc f)) rest h =
      rw (append_assoc (stringify v) (stringify_fields fs) rest) (
        simp (
          parse_value-stringify v f (stringify_fields fs ++ rest) (omega arith),
          parse_fields-stringify fs f rest (omega arith),
        ))

  parse_items-stringify :
      (vs : Items) (f : ℕ) (rest : Text)
      → cost_items vs ≤ f
      → parse_items f (stringify_items vs ++ rest) ≡ some (written_items vs, rest)
  parse_items-stringify nil zero rest h = absurd (omega arith)
  parse_items-stringify (cons v vs) zero rest h = absurd (omega arith)
  parse_items-stringify nil (suc f) rest h = refl
  parse_items-stringify (cons v vs) (suc f) rest h =
      rw (append_assoc (stringify v) (stringify_items vs) rest) (
        simp (
          parse_value-stringify v f (stringify_items vs ++ rest) (omega arith),
          parse_items-stringify vs f rest (omega arith),
        ))

  parse_fields-stringify :
      (fs : Fields) (f : ℕ) (rest : Text)
      → cost_fields fs ≤ f
      → parse_fields f (stringify_fields fs ++ rest) ≡ some (written_fields fs, rest)
  parse_fields-stringify end zero rest h = absurd (omega arith)
  parse_fields-stringify (field k v fs) zero rest h = absurd (omega arith)
  parse_fields-stringify end (suc f) rest h = refl
  parse_fields-stringify (field k v fs) (suc f) rest h =
      rw (append_assoc (stringify v) (stringify_fields fs) rest) (
        simp (
          parse_value-stringify v f (stringify_fields fs ++ rest) (omega arith),
          parse_fields-stringify fs f rest (omega arith),
        ))

mutual
  unfolding stringify cost

  cost-le : (v : Json) → cost v ≤ length (stringify v) + length (stringify v)
  cost-le null = omega arith
  cost-le (bool b) = omega arith
  cost-le (num n) = omega arith
  cost-le (str s) = omega arith
  cost-le (arr nil) = omega arith
  cost-le (arr (cons v vs)) =
      omega (arith, cost-le v, cost_items-le vs, length-append (stringify v) (stringify_items vs))
  cost-le (obj end) = omega arith
  cost-le (obj (field k v fs)) =
      omega (arith, cost-le v, cost_fields-le fs, length-append (stringify v) (stringify_fields fs))

  cost_items-le :
      (vs : Items) → cost_items vs ≤ length (stringify_items vs) + length (stringify_items vs)
  cost_items-le nil = omega arith
  cost_items-le (cons v vs) =
      omega (arith, cost-le v, cost_items-le vs, length-append (stringify v) (stringify_items vs))

  cost_fields-le :
      (fs : Fields) → cost_fields fs ≤ length (stringify_fields fs) + length (stringify_fields fs)
  cost_fields-le end = omega arith
  cost_fields-le (field k v fs) =
      omega (arith, cost-le v, cost_fields-le fs, length-append (stringify v) (stringify_fields fs))

-- A value is read back from its text, with zero for minus zero.
pub parse-stringify : (v : Json) → parse (stringify v) ≡ some (written v)
unfolding parse
parse-stringify v =
    let ts = stringify v in
    ap whole (
      ap (parse_value (length ts + length ts)) (sym (append-nil ts))
      ∙ parse_value-stringify v (length ts + length ts) [] (cost-le v))
