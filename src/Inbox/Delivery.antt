-- ===== src/Inbox/Delivery.antt =====
-- What claims take, when the session takes their events.
use rigo.Base.{
  ℕ, suc, ◌-◌, ◌≤◌, true, false, List, [], ◌∷◌, ◌++◌, Option, ◌≡◌, refl, sym, ap, subst, ◌∙◌, arith,
  leb, length, take, drop, if◌then◌else◌,
}
use mathlib.Core.List.{append-nil}
use rigo.Base.Int.{pos, is_safe}
use rigo.Inbox.{
  UserMessage, InboxTarget, next_turn, next_step, InboxState, Splice, Inbox, Ran, returns, ◌>>>◌,
  pending_list, set_pending_list, whole, actual_start, actual_delete_count, mutate_at,
}
use rigo.Inbox.Calls.{mutate, at_front, size_of, claim, claim_turn, publish_claimed, after}
use rigo.Inbox.Identities.{HasDistinctIds}
use rigo.Inbox.Deletion.{TakesAll, count-append, delete_front}

abbrev smaller : ℕ → ℕ → ℕ
smaller a b = if leb a b then a else b

start_at_front : (size : ℕ) → actual_start size at_front ≡ 0
start_at_front size = ground arith

delete_at_front : (size k : ℕ) → actual_delete_count (size - 0) (whole (pos k)) ≡ smaller k size
delete_at_front size k =
    let room : size - 0 ≡ size = omega arith in ap (λ r. actual_delete_count r (whole (pos k))) room

mutate_front :
    (session_append : Splice → Option ℕ) (target : InboxTarget) (k : ℕ) (i : Inbox)
    → mutate session_append target at_front (whole (pos k)) [] false i
      ≡ mutate_at session_append target 0
          (smaller k (length (pending_list target i.state)))
          []
          false
          i
unfolding mutate
mutate_front session_append target k i =
    let size = length (pending_list target i.state) in
    ap
      (λ a.
        mutate_at session_append target a (actual_delete_count (size - a) (whole (pos k))) [] false
          i)
      (start_at_front size)
    ∙ ap (λ n. mutate_at session_append target 0 n [] false i) (delete_at_front size k)

take_all : (ms : List UserMessage) → take (length ms) ms ≡ ms
take_all [] = refl
take_all (m ∷ ms) = ap (λ xs. m ∷ xs) (take_all ms)

drop_all : (ms : List UserMessage) → drop (length ms) ms ≡ []
drop_all [] = refl
drop_all (m ∷ ms) = drop_all ms

take_one : (ms : List UserMessage) → take (smaller 1 (length ms)) ms ≡ take 1 ms
take_one [] = refl
take_one (m ∷ ms) =
    let single : smaller 1 (suc (length ms)) ≡ 1 = ground arith in ap (λ n. take n (m ∷ ms)) single

drop_one : (ms : List UserMessage) → drop (smaller 1 (length ms)) ms ≡ drop 1 ms
drop_one [] = refl
drop_one (m ∷ ms) =
    let single : smaller 1 (suc (length ms)) ≡ 1 = ground arith in ap (λ n. drop n (m ∷ ms)) single

-- What a claim takes, and what it leaves.
abbrev pub batch : InboxTarget → InboxState → List UserMessage
batch next_step s = s.steps
batch next_turn s = s.steps ++ take 1 s.turns

abbrev pub remaining : InboxTarget → InboxState → InboxState
remaining next_step s = record { turns = s.turns; steps = [] }
remaining next_turn s = record { turns = drop 1 s.turns; steps = [] }

-- The lists' lengths are safe integers.
abbrev pub HasSafeLengths : InboxState → Type 0
HasSafeLengths s = (is_safe (pos (length s.turns)) ≡ true) × (is_safe (pos (length s.steps)) ≡ true)

pub bind-returns {ℓ κ} :
    {A : Type ℓ} {B : Type κ} (ran : Ran A) (f : A → Inbox → Ran B) (a : A) (i : Inbox)
    → ran ≡ returns a i
    → (ran >>> f) ≡ f a i
bind-returns ran f a i h = ap (λ r. r >>> f) h

pub emptied-HasDistinctIds :
    (s : InboxState) → HasDistinctIds s → HasDistinctIds (record { turns = s.turns; steps = [] })
emptied-HasDistinctIds s d i =
    omega (arith, d i, count-append i s.turns s.steps, count-append i s.turns [])

module _ (session_append : Splice → Option ℕ) (takes : TakesAll session_append) where
  steps_taken :
      (i : Inbox)
      → HasDistinctIds i.state
      → HasSafeLengths i.state
      → (j : Inbox) × (mutate session_append next_step at_front (size_of next_step i) [] false i
          ≡ returns i.state.steps j)
        × (j.state ≡ record { turns = i.state.turns; steps = [] })
  steps_taken i d safe =
      let n = length i.state.steps in
      let whole_list : smaller n n ≡ n = ground arith in
      let (j, ran, left) = delete_front session_append takes next_step n i d safe.1 (omega arith) in
      (
        j,
        mutate_front session_append next_step n i
            ∙ ap (λ k. mutate_at session_append next_step 0 k [] false i) whole_list
            ∙ ran
            ∙ ap (λ ms. returns ms j) (take_all i.state.steps),
        left ∙ ap (λ ms. set_pending_list next_step ms i.state) (drop_all i.state.steps),
      )

  turn_taken :
      (i : Inbox)
      → HasDistinctIds i.state
      → HasSafeLengths i.state
      → (j : Inbox) × (claim_turn session_append next_turn i ≡ returns (take 1 i.state.turns) j)
        × (j.state ≡ record { turns = drop 1 i.state.turns; steps = i.state.steps })
  turn_taken i d safe =
      let n = length i.state.turns in
      let within : smaller 1 n ≤ n = ground arith in
      let (j, ran, left) =
        delete_front session_append takes next_turn (smaller 1 n) i d safe.0 within in
      (
        j,
        mutate_front session_append next_turn 1 i
            ∙ ran
            ∙ ap (λ ms. returns ms j) (take_one i.state.turns),
        left ∙ ap (λ ms. set_pending_list next_turn ms i.state) (drop_one i.state.turns),
      )

  turn_claimed :
      (target : InboxTarget) (i : Inbox) (s : InboxState)
      → i.state ≡ record { turns = s.turns; steps = [] }
      → HasDistinctIds i.state
      → HasSafeLengths i.state
      → (ms : List UserMessage) × (j : Inbox) × (claim_turn session_append target i ≡ returns ms j)
        × (s.steps ++ ms ≡ batch target s)
        × (j.state ≡ remaining target s)
  turn_claimed next_step i s here d safe = ([], i, refl, append-nil s.steps, here)
  turn_claimed next_turn i s here d safe =
      let (j, ran, left) = turn_taken i d safe in
      (
        take 1 i.state.turns,
        j,
        ran,
        ap (λ t. s.steps ++ take 1 t.turns) here,
        left ∙ ap (λ t. record { turns = drop 1 t.turns; steps = t.steps }) here,
      )

  -- With a session that takes every event, distinct identities and safe lengths, a claim returns all
  -- the input of the next step, followed by the oldest queued turn when the boundary consumes one,
  -- and leaves exactly the rest pending.
  pub claim-delivers :
      (target : InboxTarget) (turn : ℕ) (i : Inbox)
      → HasDistinctIds i.state
      → HasSafeLengths i.state
      → (j : Inbox) × (claim session_append target turn i ≡ returns (batch target i.state) j)
        × (j.state ≡ remaining target i.state)
  unfolding claim is_safe
  claim-delivers target turn i d safe =
      let (j, first, left) = steps_taken i d safe in
      let distinct = subst HasDistinctIds (sym left) (emptied-HasDistinctIds i.state d) in
      let safe_left = subst HasSafeLengths (sym left) (safe.0, refl) in
      let (ms, k, second, whole_batch, rest) =
        turn_claimed target j i.state left distinct safe_left in
      (
        after (publish_claimed turn (batch target i.state) k),
        bind-returns (mutate session_append next_step at_front (size_of next_step i) [] false i) _
              i.state.steps j first
            ∙ bind-returns (claim_turn session_append target j) _ ms k second
            ∙ ap (λ b. publish_claimed turn b k) whole_batch,
        rest,
      )
