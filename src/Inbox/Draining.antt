-- ===== src/Inbox/Draining.antt =====
-- Claims empty the inbox.
use rigo.Base.{
  ℕ, zero, suc, ◌+◌, ◌≤◌, true, false, not, List, [], ◌∷◌, ◌++◌, Option, ◌||◌, ◌≡◌, refl, sym, ap,
  subst, ◌∙◌, arith, length, take, drop, is_empty,
}
use mathlib.Core.List.{append_assoc}
use rigo.Base.Int.{pos, is_safe}
use rigo.Inbox.{UserMessage, next_turn, InboxState, Splice, Inbox, Ran, returns, ◌>>>◌}
use rigo.Inbox.Calls.{claim, has_pending}
use rigo.Inbox.Identities.{HasDistinctIds}
use rigo.Inbox.Deletion.{TakesAll, dropped-HasDistinctIds}
use rigo.Inbox.Delivery.{
  HasSafeLengths, remaining, batch, bind-returns, claim-delivers, emptied-HasDistinctIds,
}

-- So many claims at turn boundaries, with all the messages that they return.
unfoldable pub claim_rounds : (Splice → Option ℕ) → ℕ → ℕ → Inbox → Ran (List UserMessage)
claim_rounds session_append turn zero i = returns [] i
claim_rounds session_append turn (suc rounds) i = claim session_append next_turn turn i >>> λ ms j.
    claim_rounds session_append (turn + 1) rounds j >>> λ ns k. returns (ms ++ ns) k

remaining-HasDistinctIds :
    (s : InboxState) → HasDistinctIds s → HasDistinctIds (remaining next_turn s)
remaining-HasDistinctIds s d =
    dropped-HasDistinctIds next_turn 1 (record { turns = s.turns; steps = [] })
      (emptied-HasDistinctIds s d)

remaining-HasSafeLengths :
    (s : InboxState) → HasSafeLengths s → HasSafeLengths (remaining next_turn s)
unfolding is_safe
remaining-HasSafeLengths s safe = (shorter s.turns safe.0, refl)
  where
    shorter :
        (ms : List UserMessage)
        → is_safe (pos (length ms)) ≡ true
        → is_safe (pos (length (drop 1 ms))) ≡ true
    shorter [] h = h
    shorter (m ∷ ms) h = ground (arith, h)

length-drop_one : (ms : List UserMessage) (k : ℕ) → length ms ≤ suc k → length (drop 1 ms) ≤ k
length-drop_one [] k h = omega arith
length-drop_one (m ∷ ms) k h = omega (arith, h)

no_messages : (ms : List UserMessage) → length ms ≤ 0 → ms ≡ []
no_messages [] h = refl
no_messages (m ∷ ms) h = ground (arith, h)

take-drop_one : (ms : List UserMessage) → take 1 ms ++ drop 1 ms ≡ ms
take-drop_one [] = refl
take-drop_one (m ∷ ms) = refl

no_pending : (i : Inbox) → i.state ≡ record { turns = []; steps = [] } → has_pending i ≡ false
no_pending i h = ap (λ s. not (is_empty s.turns) || not (is_empty s.steps)) h

module _ (session_append : Splice → Option ℕ) (takes : TakesAll session_append) where
  -- The claims return these messages, and nothing is pending after them.
  abbrev pub Drains : ℕ → ℕ → Inbox → List UserMessage → Type 0
  Drains turn rounds i ms =
      (j : Inbox) × (claim_rounds session_append turn rounds i ≡ returns ms j)
      × (has_pending j ≡ false)

  -- One round, and what the later rounds take when no input for the next step is left.
  round_then :
      (turn rounds : ℕ) (i : Inbox)
      → HasDistinctIds i.state
      → HasSafeLengths i.state
      → length i.state.turns ≤ suc rounds
      → ((j : Inbox)
          → HasDistinctIds j.state
          → HasSafeLengths j.state
          → j.state.steps ≡ []
          → length j.state.turns ≤ rounds
          → Drains (turn + 1) rounds j j.state.turns)
      → Drains turn (suc rounds) i (i.state.steps ++ i.state.turns)
  unfolding claim_rounds
  round_then turn rounds i d safe few later_rounds =
      let (j, first, left) = claim-delivers session_append takes next_turn turn i d safe in
      let (k, later, empty) =
        later_rounds j (subst HasDistinctIds (sym left) (remaining-HasDistinctIds i.state d))
          (subst HasSafeLengths (sym left) (remaining-HasSafeLengths i.state safe))
          (ap (λ s. s.steps) left)
          (subst (λ s. length s.turns ≤ rounds) (sym left)
            (length-drop_one i.state.turns rounds few)) in
      (
        k,
        bind-returns (claim session_append next_turn turn i) _ (batch next_turn i.state) j first
            ∙ bind-returns (claim_rounds session_append (turn + 1) rounds j) _ j.state.turns k later
            ∙ ap (λ s. returns ((i.state.steps ++ take 1 i.state.turns) ++ s.turns) k) left
            ∙ ap (λ ms. returns ms k)
                (append_assoc i.state.steps (take 1 i.state.turns) (drop 1 i.state.turns)
                  ∙ ap (λ ms. i.state.steps ++ ms) (take-drop_one i.state.turns)),
        empty,
      )

  rounds_of_turns :
      (turn rounds : ℕ) (i : Inbox)
      → HasDistinctIds i.state
      → HasSafeLengths i.state
      → i.state.steps ≡ []
      → length i.state.turns ≤ rounds
      → Drains turn rounds i i.state.turns
  unfolding claim_rounds
  rounds_of_turns turn zero i d safe no_steps few =
      let none_left = no_messages i.state.turns few in
      (i, ap (λ ms. returns ms i) (sym none_left), ground (arith, none_left, no_steps))
  rounds_of_turns turn (suc rounds) i d safe no_steps few =
      subst (λ ms. Drains turn (suc rounds) i (ms ++ i.state.turns)) no_steps
        (round_then turn rounds i d safe few (λ j. rounds_of_turns (turn + 1) rounds j))

  -- With a session that takes every event, distinct identities and safe lengths, as many claims as
  -- there are queued turns or more, and at least one, return every pending message: the input of the
  -- next step, then the turns in their order. Nothing is pending after that.
  pub claim_rounds-Drains :
      (turn rounds : ℕ) (i : Inbox)
      → HasDistinctIds i.state
      → HasSafeLengths i.state
      → length i.state.turns ≤ suc rounds
      → Drains turn (suc rounds) i (i.state.steps ++ i.state.turns)
  claim_rounds-Drains turn rounds i d safe few =
      round_then turn rounds i d safe few (λ j. rounds_of_turns (turn + 1) rounds j)
