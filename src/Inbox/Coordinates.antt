-- ===== src/Inbox/Coordinates.antt =====
-- What a mutation comes to, and the coordinates that it logs.
use rigo.Base.{
  ℕ, ◌-◌, ◌≤◌, Bool, true, List, [], Option, some, none, ◌&&◌, ◌≡◌, refl, sym, ap, ◌∙◌, arith,
  nat_eq, length, is_empty, option_or, is_some, String, Bool-cases, Option-cases, inl, inr, ◌⊎◌,
}
use rigo.Base.Int.{pos, negsuc, is_safe}
use rigo.Inbox.{
  UserMessage, InboxTarget, InboxState, Splice, Inbox, InboxError, invalid_splice, Ran, throws,
  pending_list, find_repeated, all_pending, as_position, Validated, valid, invalid, check_pending,
  splice_state, validate, Truncated, not_a_number, minus_infinity, plus_infinity, minus_zero,
  append_from, append_refused, already_pending, whole, actual_start, actual_delete_count, normalize,
  commit, mutate_at,
}
use rigo.Inbox.Calls.{mutate, after}

pub Validated-cases :
    (v : Validated) → ((s : InboxState) × (v ≡ valid s)) ⊎ ((x : InboxError) × (v ≡ invalid x))
Validated-cases (valid s) = inl (s, refl)
Validated-cases (invalid x) = inr (x, refl)

-- A mutation leaves the inbox as it is, or commits a splice that passes its validation.
abbrev pub Mutated :
    InboxTarget → ℕ → ℕ → List UserMessage → Bool → Inbox → Ran (List UserMessage) → Type 0
Mutated target start removed_count inserted discard_removed i ran =
    (after ran ≡ i)
    ⊎ ((seq : ℕ) × (s : InboxState) × (validate
            (normalize target start removed_count inserted discard_removed) i.state
          ≡ valid s)
        × (ran
            ≡ commit (normalize target start removed_count inserted discard_removed) start
                removed_count discard_removed seq s i))

pub mutate_at-Mutated :
    (session_append : Splice → Option ℕ) (target : InboxTarget) (start removed_count : ℕ)
    (inserted : List UserMessage) (discard_removed : Bool) (i : Inbox)
    → Mutated target start removed_count inserted discard_removed i
        (mutate_at session_append target start removed_count inserted discard_removed i)
unfolding mutate_at
mutate_at-Mutated session_append target start removed_count inserted discard_removed i =
    let e = normalize target start removed_count inserted discard_removed in
    elim (Bool-cases (nat_eq removed_count 0 && is_empty inserted)) [
      | inl idle ↦ inl (ground (arith, idle))
      | inr busy ↦ elim (Validated-cases (validate e i.state)) [
        | inr (x, bad) ↦ inl (ground (arith, busy, bad))
        | inl (s, good) ↦ elim (Option-cases (session_append e)) [
          | inl refused ↦ inl (ground (arith, busy, good, refused))
          | inr (seq, taken) ↦ inr (seq, s, good, ground (arith, busy, good, taken))
        ]
      ]
    ]

actual_start-within : (size : ℕ) (x : Truncated) → actual_start size x ≤ size
actual_start-within size not_a_number = omega arith
actual_start-within size minus_infinity = omega arith
actual_start-within size plus_infinity = omega arith
actual_start-within size minus_zero = omega arith
actual_start-within size (whole (pos n)) = ground arith
actual_start-within size (whole (negsuc n)) = omega arith

actual_delete_count-within : (room : ℕ) (x : Truncated) → actual_delete_count room x ≤ room
actual_delete_count-within room not_a_number = omega arith
actual_delete_count-within room minus_infinity = omega arith
actual_delete_count-within room plus_infinity = omega arith
actual_delete_count-within room minus_zero = omega arith
actual_delete_count-within room (whole (pos n)) = ground arith
actual_delete_count-within room (whole (negsuc n)) = omega arith

as_position-within :
    (size n : ℕ) → is_safe (pos size) ≡ true → n ≤ size → as_position size (pos n) ≡ some n
unfolding is_safe
as_position-within size n safe within = ground (arith, safe, within)

safe_below : (m n : ℕ) → is_safe (pos n) ≡ true → m ≤ n → is_safe (pos m) ≡ true
unfolding is_safe
safe_below m n safe below = ground (arith, safe, below)

count_logged :
    (target : InboxTarget) (start removed_count : ℕ) (inserted : List UserMessage)
    (discard_removed : Bool)
    → option_or
        (normalize target start removed_count inserted discard_removed).removed_count
        (pos 0)
      ≡ pos removed_count
count_logged target start removed_count inserted discard_removed = ground arith

-- A normalized splice within the list is validated by its identities only.
pub validate-normalize :
    (target : InboxTarget) (start removed_count : ℕ) (inserted : List UserMessage)
    (discard_removed : Bool) (s : InboxState)
    → is_safe (pos (length (pending_list target s))) ≡ true
    → start ≤ length (pending_list target s)
    → removed_count ≤ length (pending_list target s) - start
    → validate (normalize target start removed_count inserted discard_removed) s
      ≡ check_pending (
          splice_state
            (normalize target start removed_count inserted discard_removed)
            start
            removed_count
            s)
unfolding validate
validate-normalize target start removed_count inserted discard_removed s safe front room =
    let size = length (pending_list target s) in
    let at_start = as_position-within size start safe front in
    let at_count =
      as_position-within (size - start) removed_count
        (safe_below (size - start) size safe (omega arith)) room in
    let counted =
      ap (as_position (size - start))
        (count_logged target start removed_count inserted discard_removed)
      ∙ at_count in
    ground (arith, at_start, counted)

check_pending-in_range : (s : InboxState) → check_pending s ≡ invalid invalid_splice → ⊥
check_pending-in_range s h = elim (Option-cases (find_repeated [] (all_pending s))) [
  | inl distinct ↦ ground (arith, distinct, h)
  | inr (i, repeated) ↦ ground (arith, repeated, h)
]

-- What a mutation throws: its validation's error, or the session's refusal.
mutate_at-throws :
    (session_append : Splice → Option ℕ) (target : InboxTarget) (start removed_count : ℕ)
    (inserted : List UserMessage) (discard_removed : Bool) (i j : Inbox) (x : InboxError)
    → mutate_at session_append target start removed_count inserted discard_removed i ≡ throws x j
    → (j ≡ i)
      × ((validate (normalize target start removed_count inserted discard_removed) i.state
            ≡ invalid x)
          ⊎ ((x ≡ append_refused) × ((e : Splice) × (session_append e ≡ none))))
unfolding mutate_at
mutate_at-throws session_append target start removed_count inserted discard_removed i j x h =
    let e = normalize target start removed_count inserted discard_removed in
    elim (Bool-cases (nat_eq removed_count 0 && is_empty inserted)) [
      | inl idle ↦ ground (arith, idle, h)
      | inr busy ↦ elim (Validated-cases (validate e i.state)) [
        | inr (y, bad) ↦
            let same : y ≡ x = ground (arith, busy, bad, h) in
            (ground (arith, busy, bad, h), inl (bad ∙ ap invalid same))
        | inl (s, good) ↦ elim (Option-cases (session_append e)) [
          | inl refused ↦ (
            ground (arith, busy, good, refused, h),
            inr (ground (arith, busy, good, refused, h), (e, refused)),
          )
          | inr (seq, taken) ↦ ground (arith, busy, good, taken, h)
        ]
      ]
    ]

check_pending-repeats :
    (s : InboxState) (x : InboxError)
    → check_pending s ≡ invalid x
    → (m : String) × (x ≡ already_pending m) × (find_repeated [] (all_pending s) ≡ some m)
check_pending-repeats s x h = elim (Option-cases (find_repeated [] (all_pending s))) [
  | inl distinct ↦ ground (arith, distinct, h)
  | inr (m, repeated) ↦ (m, ground (arith, repeated, h), repeated)
]

append_from-refuses :
    (start : Truncated) (session_append : Splice → Option ℕ) (e : Splice)
    → is_some (session_append e) ≡ true
    → append_from start session_append e ≡ none
    → start ≡ minus_zero
append_from-refuses minus_zero session_append e taken h = refl
append_from-refuses not_a_number session_append e taken h = ground (arith, taken, h)
append_from-refuses minus_infinity session_append e taken h = ground (arith, taken, h)
append_from-refuses plus_infinity session_append e taken h = ground (arith, taken, h)
append_from-refuses (whole z) session_append e taken h = ground (arith, taken, h)

-- Why a mutation of a list of safe length can throw, in a session that takes every event without a
-- minus zero, whatever numbers a caller passes: an identity would be pending twice, or the start
-- truncates to minus zero, which the session refuses. It is never an invalid coordinate, and the
-- inbox stays as it was.
pub mutate-in_range :
    (session_append : Splice → Option ℕ) (takes : (e : Splice) → is_some (session_append e) ≡ true)
    (target : InboxTarget) (start delete_count : Truncated) (inserted : List UserMessage)
    (discard_removed : Bool) (i j : Inbox) (x : InboxError)
    → is_safe (pos (length (pending_list target i.state))) ≡ true
    → mutate session_append target start delete_count inserted discard_removed i ≡ throws x j
    → (j ≡ i)
      × (((m : String) × (x ≡ already_pending m)) ⊎ ((x ≡ append_refused) × (start ≡ minus_zero)))
unfolding mutate
mutate-in_range session_append takes target start delete_count inserted discard_removed i j x safe
      h =
    let size = length (pending_list target i.state) in
    let at_start = actual_start size start in
    let removed_count = actual_delete_count (size - at_start) delete_count in
    let (stays, why) =
      mutate_at-throws (append_from start session_append) target at_start removed_count inserted
        discard_removed i j x h in
    (
      stays,
      elim why [
        | inr (refused, unlogged) ↦ inr (
          refused,
          append_from-refuses start session_append unlogged.0 (takes unlogged.0) unlogged.1,
        )
        | inl bad ↦
            let repeats =
              check_pending-repeats
                (splice_state (normalize target at_start removed_count inserted discard_removed)
                  at_start removed_count i.state)
                x
                (sym (
                    validate-normalize target at_start removed_count inserted discard_removed
                      i.state safe (actual_start-within size start)
                      (actual_delete_count-within (size - at_start) delete_count))
                  ∙ bad) in
            inl (repeats.0, repeats.1)
      ],
    )
