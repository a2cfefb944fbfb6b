-- ===== src/Surface/Marker.antt =====
-- What the marker of an event says: `surfaceOpOf` against the shape of the marker.
use rigo.Base.{
  ℕ, String, true, false, List, [], ◌∷◌, Option, some, none, ◌==◌, ◌≡◌, refl, sym, ap, subst, ◌∙◌,
  arith, inl, inr, ◌⊎◌, Bool-cases, Option-cases, eq_iff, length, nat_eq,
}
use rigo.Surface.{
  Value, number, text, other_value, RawOp, op_text, op_object, op_other, lookup, seq_member,
  is_event_seq, is_replace_op, SessionEvent, passes, SurfaceOp, append_op, replace_op,
  surface_op_of, is_surface_eligible_type,
}

pub surface_op_of-none :
    (e : SessionEvent)
    → surface_op_of e ≡ passes none
    → (is_surface_eligible_type e.body ≡ false) × (e.surface_op ≡ none)
unfolding surface_op_of
surface_op_of-none e h = ground (arith, h)

pub surface_op_of-some :
    (e : SessionEvent) (op : SurfaceOp)
    → surface_op_of e ≡ passes (some op)
    → is_surface_eligible_type e.body ≡ true
unfolding surface_op_of
surface_op_of-some e op h = ground (arith, h)

-- A marker that is an object has a member with this name and value.
abbrev pub HasMember : String → Value → List (String × Value) → Type 0
HasMember k v [] = ⊥
HasMember k v ((name, u) ∷ ms) = ((name ≡ k) × (u ≡ v)) ⊎ HasMember k v ms

lookup-HasMember :
    (k : String) (v : Value) (ms : List (String × Value)) → lookup k ms ≡ some v → HasMember k v ms
unfolding lookup
lookup-HasMember k v [] h = ground (arith, h)
lookup-HasMember k v ((name, u) ∷ ms) h = elim (Bool-cases (name == k)) [
  | inl same ↦ inl ((eq_iff name k).0 same, ground (arith, same, h))
  | inr other ↦ inr (lookup-HasMember k v ms (ground (arith, other, h)))
]

is_event_seq-number : (v : Value) (n : ℕ) → is_event_seq v ≡ some n → v ≡ number n
unfolding is_event_seq
is_event_seq-number (number m) n h = ground (arith, h)
is_event_seq-number (text t) n h = ground (arith, h)
is_event_seq-number other_value n h = ground (arith, h)

seq_member-HasMember :
    (k : String) (ms : List (String × Value)) (n : ℕ)
    → seq_member k ms ≡ some n
    → HasMember k (number n) ms
unfolding seq_member
seq_member-HasMember k ms n h = elim (Option-cases (lookup k ms)) [
  | inl missing ↦ ground (arith, missing, h)
  | inr (v, found) ↦
      let same = is_event_seq-number v n (ground (arith, found, h)) in
      subst (λ u. HasMember k u ms) same (lookup-HasMember k v ms found)
]

-- The marker is the text `append`, or an object with just the members `op`, `start` and `end`.
abbrev pub IsMarkedAs : SurfaceOp → Option RawOp → Type 0
IsMarkedAs append_op marker = marker ≡ some (op_text "append")
IsMarkedAs (replace_op a b) marker =
    (ms : List (String × Value)) × (marker ≡ some (op_object ms))
    × (length ms ≡ 3)
    × HasMember "op" (text "replace") ms
    × HasMember "start" (number a) ms
    × HasMember "end" (number b) ms

is_replace_op-IsMarkedAs :
    (ms : List (String × Value)) (op : SurfaceOp)
    → is_replace_op ms ≡ some op
    → IsMarkedAs op (some (op_object ms))
unfolding is_replace_op
is_replace_op-IsMarkedAs ms op h = elim (Bool-cases (nat_eq (length ms) 3)) [
  | inr other ↦ ground (arith, other, h)
  | inl three ↦ elim (Option-cases (lookup "op" ms)) [
    | inl missing ↦ ground (arith, three, missing, h)
    | inr (number n, found) ↦ ground (arith, three, found, h)
    | inr (other_value, found) ↦ ground (arith, three, found, h)
    | inr (text t, found) ↦ elim (Bool-cases (t == "replace")) [
      | inr other ↦ ground (arith, three, found, other, h)
      | inl named ↦ elim (Option-cases (seq_member "start" ms)) [
        | inl missing ↦ ground (arith, three, found, named, missing, h)
        | inr (a, first) ↦ elim (Option-cases (seq_member "end" ms)) [
          | inl missing ↦ ground (arith, three, found, named, first, missing, h)
          | inr (b, final) ↦
              let same : replace_op a b ≡ op =
                ground (arith, three, found, named, first, final, h) in
              subst (λ o. IsMarkedAs o (some (op_object ms))) same
                (
                  ms,
                  refl,
                  ground (arith, three),
                  subst (λ u. HasMember "op" (text u) ms) ((eq_iff t "replace").0 named)
                      (lookup-HasMember "op" (text t) ms found),
                  seq_member-HasMember "start" ms a first,
                  seq_member-HasMember "end" ms b final,
                )
        ]
      ]
    ]
  ]
]

pub surface_op_of-IsMarkedAs :
    (e : SessionEvent) (op : SurfaceOp)
    → surface_op_of e ≡ passes (some op)
    → IsMarkedAs op e.surface_op
unfolding surface_op_of
surface_op_of-IsMarkedAs e op h =
    let eligible = surface_op_of-some e op h in
    elim (Option-cases e.surface_op) [
      | inl unmarked ↦ ground (arith, eligible, unmarked, h)
      | inr (op_other, marked) ↦ ground (arith, eligible, marked, h)
      | inr (op_text t, marked) ↦ elim (Bool-cases (t == "append")) [
        | inr other ↦ ground (arith, eligible, marked, other, h)
        | inl named ↦
            let same : append_op ≡ op = ground (arith, eligible, marked, named, h) in
            subst (λ o. IsMarkedAs o e.surface_op) same
              (marked ∙ ap (λ u. some (op_text u)) ((eq_iff t "append").0 named))
      ]
      | inr (op_object ms, marked) ↦ elim (Option-cases (is_replace_op ms)) [
        | inl unread ↦ ground (arith, eligible, marked, unread, h)
        | inr (o, read) ↦
            let same : o ≡ op = ground (arith, eligible, marked, read, h) in
            subst (IsMarkedAs op) (sym marked)
              (is_replace_op-IsMarkedAs ms op (read ∙ ap some same))
      ]
    ]
