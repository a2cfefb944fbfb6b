-- ===== src/ChunkRows/Keys.antt =====
-- Objects up to the order of their members, and what an exact set of keys says.
use rigo.Base.{
  suc, String, Bool, true, false, List, [], ◌∷◌, some, none, is_some, ◌==◌, ◌≡◌, refl, sym, ap,
  subst, ◌∙◌, arith, eq_iff, length, if◌then◌else◌, Bool-cases, Option-cases, inl, inr,
}
use rigo.ChunkRows.Values.{
  Value, object, Members, end, member, get, key_count, has_keys, has_exact_keys,
}

-- Equal, or objects that have the same members up to their order, at every depth.
pub data Same : Value → Value → Type 0 where
  same_value : (v : Value) → Same v v
  same_object :
      (ms ns : Members)
      → ((k : String) → is_some (get k ms) ≡ is_some (get k ns))
      → ((k : String) (v w : Value) → get k ms ≡ some v → get k ns ≡ some w → Same v w)
      → Same (object ms) (object ns)

abbrev pub includes : String → List String → Bool
includes k [] = false
includes k (j ∷ ks) = if j == k then true else includes k ks

abbrev pub Distinct : List String → Type 0
Distinct [] = Unit
Distinct (k ∷ ks) = (includes k ks ≡ false) × Distinct ks

erase : String → Members → Members
erase k end = end
erase k (member name v ms) = let rest = erase k ms in if name == k then rest else member name v rest

get-erase : (j k : String) (ms : Members) → get j (erase k ms) ≡ (if k == j then none else get j ms)
unfolding erase
get-erase j k end = ground arith
get-erase j k (member name v ms) =
    ground (arith, eq_iff name k, eq_iff name j, eq_iff k j, get-erase j k ms)

erase_absent : (k : String) (ms : Members) → get k ms ≡ none → erase k ms ≡ ms
unfolding erase
erase_absent k end h = refl
erase_absent k (member name v ms) h = ground (arith, h, erase_absent k ms)

key_count-erase :
    (k : String) (ms : Members)
    → is_some (get k ms) ≡ true
    → suc (key_count (erase k ms)) ≡ key_count ms
unfolding erase
key_count-erase k end h = ground (arith, h)
key_count-erase k (member name v ms) h = elim (Bool-cases (name == k)) [
  | inl same ↦
      let named : name ≡ k = (eq_iff name k).0 same in
      elim (Option-cases (get k ms)) [
        | inl gone ↦
            ground (arith, same, named, gone, erase_absent k ms gone, ap (λ j. get j ms) named)
        | inr (w, there) ↦ ground (
          arith,
          same,
          there,
          key_count-erase k ms (ground (arith, there)),
          ap (λ j. get j ms) named,
        )
      ]
  | inr other ↦ ground (
    arith,
    other,
    h,
    eq_iff k name,
    eq_iff name k,
    get-erase name k ms,
    key_count-erase k ms (ground (arith, other, h)),
  )
]

no_keys : (k : String) (ms : Members) → key_count ms ≡ 0 → get k ms ≡ none
no_keys k end h = refl
no_keys k (member name v ms) h = ground (arith, h, no_keys name ms)

has_keys-erase :
    (j : String) (ks : List String) (ms : Members)
    → includes j ks ≡ false
    → has_keys ks ms ≡ true
    → has_keys ks (erase j ms) ≡ true
has_keys-erase j [] ms fresh h = refl
has_keys-erase j (k ∷ ks) ms fresh h =
    ground (arith, fresh, h, eq_iff j k, eq_iff k j, get-erase k j ms, has_keys-erase j ks ms)

-- Nothing else stands in an object that has exactly the keys.
exact_keys :
    (ks : List String) (ms : Members) (k : String)
    → Distinct ks
    → key_count ms ≡ length ks
    → has_keys ks ms ≡ true
    → includes k ks ≡ false
    → get k ms ≡ none
exact_keys [] ms k d size h out = no_keys k ms size
exact_keys (j ∷ ks) ms k d size h out =
    let rest =
      exact_keys ks (erase j ms) k d.1 (ground (arith, size, h, key_count-erase j ms))
        (has_keys-erase j ks ms d.0 (ground (arith, h))) (ground (arith, out)) in
    ground (arith, rest, out, get-erase k j ms)

abbrev pub names : Members → List String
names end = []
names (member name v ms) = name ∷ names ms

-- Each member of the second object stands in the first.
abbrev pub EachSame : Members → Members → Type 0
EachSame ms end = Unit
EachSame ms (member k w ns) = ((v : Value) × (get k ms ≡ some v) × Same v w) × EachSame ms ns

get_absent : (k : String) (ns : Members) → includes k (names ns) ≡ false → get k ns ≡ none
get_absent k end h = refl
get_absent k (member name w ns) h = ground (arith, h, get_absent k ns)

get-Same :
    (ms ns : Members) (k : String)
    → EachSame ms ns
    → includes k (names ns) ≡ true
    → (v w : Value) × (get k ms ≡ some v) × (get k ns ≡ some w) × Same v w
get-Same ms end k each h = ground (arith, h)
get-Same ms (member name w ns) k each h = elim (Bool-cases (name == k)) [
  | inl same ↦
      let (v, there, alike) = each.0 in
      (v, w, ap (λ j. get j ms) (sym ((eq_iff name k).0 same)) ∙ there, ground (arith, same), alike)
  | inr other ↦
      let (v, u, there, found, alike) = get-Same ms ns k each.1 (ground (arith, other, h)) in
      (v, u, there, ground (arith, other, found), alike)
]

pub rebuilt :
    (ms ns : Members)
    → Distinct (names ns)
    → has_exact_keys (names ns) ms ≡ true
    → EachSame ms ns
    → Same (object ms) (object ns)
rebuilt ms ns d exact each =
    let absent : (k : String) → includes k (names ns) ≡ false → get k ms ≡ none =
      λ k out. exact_keys (names ns) ms k d (ground (arith, exact)) (ground (arith, exact)) out in
    same_object ms ns
      (λ k. elim (Bool-cases (includes k (names ns))) [
        | inl inside ↦
            let (u, w, held, found, alike) = get-Same ms ns k each inside in
            ground (arith, held, found)
        | inr out ↦ ground (arith, absent k out, get_absent k ns out)
      ])
      (λ k v w there found. elim (Bool-cases (includes k (names ns))) [
        | inl inside ↦
            let (u, x, held, located, alike) = get-Same ms ns k each inside in
            let left : u ≡ v = ground (arith, there, held) in
            let right : x ≡ w = ground (arith, found, located) in
            subst (λ y. Same v y) right (subst (λ y. Same y x) left alike)
        | inr out ↦ ground (arith, absent k out, there)
      ])
