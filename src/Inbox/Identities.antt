-- ===== src/Inbox/Identities.antt =====
-- No two pending messages have one identity.
use rigo.Base.{
  ℕ, ◌-◌, ◌≤◌, String, true, List, [], ◌∷◌, some, none, ◌==◌, ◌≡◌, refl, ap, subst, arith, eq_iff,
  count, option_or, length, Bool-cases, Option-cases, inl, inr,
}
use rigo.Base.Int.{pos}
use rigo.Inbox.{
  UserMessage, InboxState, Splice, pending_list, has_id, find_repeated, all_pending, as_position,
  valid, check_pending, splice_state, validate,
}

abbrev pub ids_of : List UserMessage → List String
ids_of [] = []
ids_of (m ∷ ms) = m.id ∷ ids_of ms

-- Every identity occurs at most once among the pending messages.
abbrev pub HasDistinctIds : InboxState → Type 0
HasDistinctIds s = (i : String) → count i (ids_of (all_pending s)) ≤ 1

pub find_repeated-count :
    (seen : List String) (ms : List UserMessage)
    → find_repeated seen ms ≡ none
    → (i : String) → (has_id i seen ≡ true → count i (ids_of ms) ≡ 0) × (count i (ids_of ms) ≤ 1)
find_repeated-count seen [] h i = (λ held. refl, omega arith)
find_repeated-count seen (m ∷ ms) h i = elim (Bool-cases (has_id m.id seen)) [
  | inl old ↦ ground (arith, old, h)
  | inr fresh ↦
      let rest = find_repeated-count (m.id ∷ seen) ms (ground (arith, fresh, h)) i in
      elim (Bool-cases (m.id == i)) [
        | inl same ↦
            let equal = (eq_iff m.id i).0 same in
            let absent = rest.0 (ground (arith, same)) in
            (
              λ held. ground (arith, fresh, held, ap (λ j. has_id j seen) equal),
              ground (arith, same, absent),
            )
        | inr other ↦ (
          λ held. ground (arith, other, rest.0 (ground (arith, other, held))),
          ground (arith, other, rest.1),
        )
      ]
]

check_pending-HasDistinctIds :
    (s t : InboxState) → check_pending s ≡ valid t → (s ≡ t) × HasDistinctIds t
check_pending-HasDistinctIds s t h = elim (Option-cases (find_repeated [] (all_pending s))) [
  | inl fresh ↦
      let same : s ≡ t = ground (arith, fresh, h) in
      (same, subst HasDistinctIds same (λ i. (find_repeated-count [] (all_pending s) fresh i).1))
  | inr (i, repeated) ↦ ground (arith, repeated, h)
]

-- What a splice that passes its validation leads to.
pub validate-valid :
    (e : Splice) (s t : InboxState)
    → validate e s ≡ valid t
    → (start : ℕ) × (removed_count : ℕ) × (as_position (length (pending_list e.target s)) e.start
        ≡ some start)
      × (as_position (length (pending_list e.target s) - start) (option_or e.removed_count (pos 0))
          ≡ some removed_count)
      × (splice_state e start removed_count s ≡ t)
      × HasDistinctIds t
unfolding validate
validate-valid e s t h =
    elim (Option-cases (as_position (length (pending_list e.target s)) e.start)) [
      | inl bad ↦ ground (arith, bad, h)
      | inr (start, begins) ↦
          elim (Option-cases (
            as_position (length (pending_list e.target s) - start)
              (option_or e.removed_count (pos 0)))) [
                | inl bad ↦ ground (arith, begins, bad, h)
                | inr (removed_count, counted) ↦
                    let found =
                      check_pending-HasDistinctIds (splice_state e start removed_count s) t
                        (ground (arith, begins, counted, h)) in
                    (start, removed_count, begins, counted, found.0, found.1)
              ]
    ]
