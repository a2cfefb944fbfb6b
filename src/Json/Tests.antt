-- ===== src/Json/Tests.antt =====
-- Texts of two inputs that differ in the order of members.
use rigo.Base.{◌≡◌, ◌↔◌, some, refl}
use rigo.Json.{
  Json, null, num, str, arr, obj, nil, cons, end, field, minus_zero, stringify, stable_stringify,
  parse,
}
use rigo.Json.Alike.{Alike, stable_stringify-Alike}

abbrev nested : Json
nested =
    obj (
      field "b" (arr (cons (num 1) (cons null nil)))
        (field "a" (obj (field "c" (str "x") end)) end))

abbrev turned : Json
turned =
    obj (
      field "a" (obj (field "c" (str "x") end))
        (field "b" (arr (cons (num 1) (cons null nil))) end))

-- Minus zero is read back as zero.
minus_zero_read : parse (stringify (num minus_zero)) ≡ some (num 0)
unfolding parse stringify
minus_zero_read = refl

stable_stringify-Alike_example :
    (stable_stringify nested ≡ stable_stringify turned) ↔ Alike nested turned
stable_stringify-Alike_example = stable_stringify-Alike nested turned
