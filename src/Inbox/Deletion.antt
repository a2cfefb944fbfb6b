-- ===== src/Inbox/Deletion.antt =====
-- A mutation that deletes from the front of a list goes through, when the session takes its event.
use rigo.Base.{
  ℕ, zero, suc, ◌+◌, ◌≤◌, String, true, false, List, [], ◌∷◌, ◌++◌, Option, some, none, ◌==◌, ◌≡◌,
  refl, sym, ap, subst, ◌∙◌, arith, count, length, take, drop, Bool-cases, inl, inr, eq_self,
  eq_iff,
}
use rigo.Base.Int.{pos, is_safe}
use rigo.Inbox.{
  UserMessage, InboxTarget, next_turn, next_step, InboxState, Splice, Inbox, returns, pending_list,
  set_pending_list, has_id, find_repeated, all_pending, valid, check_pending, splice_state,
  normalize, commit, mutate_at,
}
use rigo.Inbox.Calls.{after}
use rigo.Inbox.Coordinates.{validate-normalize}
use rigo.Inbox.Identities.{ids_of, HasDistinctIds}

has_id-cons :
    (i j : String) (seen : List String) → (j == i) ≡ false → has_id i (j ∷ seen) ≡ has_id i seen
has_id-cons i j seen other = ground (arith, other)

count_cons :
    (i : String) (m : UserMessage) (ms : List UserMessage)
    → count i (ids_of ms) ≤ count i (ids_of (m ∷ ms))
count_cons i m ms = ground arith

count_self :
    (m : UserMessage) (ms : List UserMessage)
    → count m.id (ids_of (m ∷ ms)) ≡ suc (count m.id (ids_of ms))
count_self m ms = ground (arith, eq_self m.id)

pub find_repeated-distinct :
    (seen : List String) (ms : List UserMessage)
    → ((i : String) → count i (ids_of ms) ≤ 1)
    → ((i : String) → has_id i seen ≡ true → count i (ids_of ms) ≡ 0)
    → find_repeated seen ms ≡ none
find_repeated-distinct seen [] once new = refl
find_repeated-distinct seen (m ∷ ms) once new =
    let single = once m.id in
    let self = count_self m ms in
    let fresh : has_id m.id seen ≡ false = elim (Bool-cases (has_id m.id seen)) [
      | inr new_one ↦ new_one
      | inl held ↦ ground (arith, new m.id held, self)
    ] in
    let rest =
      find_repeated-distinct (m.id ∷ seen) ms (λ i. omega (arith, once i, count_cons i m ms))
        (λ i held. elim (Bool-cases (m.id == i)) [
          | inl same ↦
              subst (λ j. count j (ids_of ms) ≡ 0) ((eq_iff m.id i).0 same)
                (omega (arith, single, self))
          | inr other ↦
              let zero_there = new i (sym (has_id-cons i m.id seen other) ∙ held) in
              omega (arith, zero_there, count_cons i m ms)
        ]) in
    ground (arith, fresh, rest)

pub count-append :
    (i : String) (xs ys : List UserMessage)
    → count i (ids_of (xs ++ ys)) ≡ count i (ids_of xs) + count i (ids_of ys)
count-append i [] ys = omega arith
count-append i (x ∷ xs) ys = ground (arith, count-append i xs ys)

count-drop :
    (i : String) (n : ℕ) (xs : List UserMessage)
    → count i (ids_of (drop n xs)) ≤ count i (ids_of xs)
count-drop i zero xs = omega arith
count-drop i (suc n) [] = omega arith
count-drop i (suc n) (x ∷ xs) = omega (arith, count-drop i n xs, count_cons i x xs)

abbrev pub dropped : InboxTarget → ℕ → InboxState → InboxState
dropped target n s = set_pending_list target (drop n (pending_list target s)) s

pub dropped-HasDistinctIds :
    (target : InboxTarget) (n : ℕ) (s : InboxState)
    → HasDistinctIds s
    → HasDistinctIds (dropped target n s)
dropped-HasDistinctIds next_turn n s d i = omega (
  arith,
  d i,
  count-append i s.turns s.steps,
  count-append i (drop n s.turns) s.steps,
  count-drop i n s.turns,
)
dropped-HasDistinctIds next_step n s d i = omega (
  arith,
  d i,
  count-append i s.turns s.steps,
  count-append i s.turns (drop n s.steps),
  count-drop i n s.steps,
)

check_pending-distinct : (s : InboxState) → HasDistinctIds s → check_pending s ≡ valid s
check_pending-distinct s d =
    let none_repeated =
      find_repeated-distinct [] (all_pending s) d (λ i held. ground (arith, held)) in
    ground (arith, none_repeated)

dropped_none : (target : InboxTarget) (s : InboxState) → s ≡ dropped target 0 s
dropped_none next_turn s = refl
dropped_none next_step s = refl

abbrev deletion : InboxTarget → ℕ → Splice
deletion target n = normalize target 0 n [] false

splice_state-deletion :
    (target : InboxTarget) (n : ℕ) (s : InboxState)
    → splice_state (deletion target n) 0 n s ≡ dropped target n s
splice_state-deletion next_turn n s =
    let sum : 0 + n ≡ n = omega arith in ap (λ k. set_pending_list next_turn (drop k s.turns) s) sum
splice_state-deletion next_step n s =
    let sum : 0 + n ≡ n = omega arith in ap (λ k. set_pending_list next_step (drop k s.steps) s) sum

-- The session takes every event.
abbrev pub TakesAll : (Splice → Option ℕ) → Type 0
TakesAll session_append = (e : Splice) → (seq : ℕ) × (session_append e ≡ some seq)

module _ (session_append : Splice → Option ℕ) (takes : TakesAll session_append) where
  -- A mutation that only deletes from the front goes through.
  pub delete_front :
      (target : InboxTarget) (n : ℕ) (i : Inbox)
      → HasDistinctIds i.state
      → is_safe (pos (length (pending_list target i.state))) ≡ true
      → n ≤ length (pending_list target i.state)
      → (j : Inbox) × (mutate_at session_append target 0 n [] false i
          ≡ returns (take n (pending_list target i.state)) j)
        × (j.state ≡ dropped target n i.state)
  unfolding mutate_at
  delete_front target zero i d safe within = (i, refl, dropped_none target i.state)
  delete_front target (suc n) i d safe within =
      let e = deletion target (suc n) in
      let good =
        validate-normalize target 0 (suc n) [] false i.state safe (omega arith)
          (omega (arith, within))
        ∙ ap check_pending (splice_state-deletion target (suc n) i.state)
        ∙ check_pending-distinct (dropped target (suc n) i.state)
            (dropped-HasDistinctIds target (suc n) i.state d) in
      let (seq, taken) = takes e in
      let done = after (commit e 0 (suc n) false seq (dropped target (suc n) i.state) i) in
      (done, ground (arith, good, taken), refl)
