-- ===== src/Inbox/Calls.antt =====
-- The methods of an inbox, its constructor, and the runs of calls on one.
use rigo.Base.{
  ℕ, ◌+◌, ◌-◌, String, Bool, true, false, not, List, [], ◌∷◌, ◌++◌, map, Option, some, none, ◌==◌,
  ◌||◌, length, is_empty, drop, if◌then◌else◌,
}
use rigo.Base.Int.{pos}
use rigo.Inbox.{
  UserMessage, InboxTarget, InboxState, Splice, LogEvent, Inbox, InboxError, Ran, ◌>>>◌,
  pending_list, empty_state, replay, open_inbox, Truncated, append_from, actual_start,
  actual_delete_count, mutate_at, next_turn, next_step, claims, returns, throws, replayed,
  invalid_at, whole,
}

-- `mutate`
unfoldable pub mutate :
    (Splice → Option ℕ)
    → InboxTarget
    → Truncated
    → Truncated
    → List UserMessage
    → Bool
    → Inbox
    → Ran (List UserMessage)
unfolding mutate_at
mutate session_append target start delete_count inserted discard_removed i =
    let size = length (pending_list target i.state) in
    let at_start = actual_start size start in
    mutate_at (append_from start session_append) target at_start
      (actual_delete_count (size - at_start) delete_count) inserted discard_removed i

unfoldable pub splice :
    (Splice → Option ℕ)
    → InboxTarget
    → Truncated
    → Truncated
    → List UserMessage
    → Inbox
    → Ran (List UserMessage)
unfolding mutate
splice session_append target start delete_count inserted i =
    mutate session_append target start delete_count inserted true i

abbrev pub size_of : InboxTarget → Inbox → Truncated
size_of target i = whole (pos (length (pending_list target i.state)))

abbrev pub at_front : Truncated
at_front = whole (pos 0)

abbrev pub one_message : Truncated
one_message = whole (pos 1)

unfoldable pub append : (Splice → Option ℕ) → InboxTarget → UserMessage → Inbox → Ran (Unit {0})
unfolding splice
append session_append target message i =
    splice session_append target (size_of target i) at_front (message ∷ []) i >>> λ removed j.
    returns tt j

unfoldable pub prepend : (Splice → Option ℕ) → InboxTarget → UserMessage → Inbox → Ran (Unit {0})
unfolding splice
prepend session_append target message i =
    splice session_append target at_front at_front (message ∷ []) i >>> λ removed j. returns tt j

unfoldable pub clear : (Splice → Option ℕ) → Inbox → Ran (Unit {0})
unfolding splice
clear session_append i =
    splice session_append next_step at_front (size_of next_step i) [] i >>> λ steps j.
    splice session_append next_turn at_front (size_of next_turn j) [] j >>> λ turns k. returns tt k

abbrev pub find_index : String → List UserMessage → Option ℕ
find_index i [] = none
find_index i (m ∷ ms) =
    let rest = find_index i ms in
    if m.id == i then some 0 else elim rest [ none ↦ none | some n ↦ some (n + 1) ]

abbrev pub locate : String → InboxState → Option (InboxTarget × ℕ)
locate message_id s = elim (find_index message_id s.turns) [
  | some n ↦ some (next_turn, n)
  | none ↦ elim (find_index message_id s.steps) [ some n ↦ some (next_step, n) | none ↦ none ]
]

-- `replace` and `remove`: the message found there makes way for these.
unfoldable pub exchange_at :
    (Splice → Option ℕ) → List UserMessage → Inbox → Option (InboxTarget × ℕ) → Ran Bool
unfolding splice
exchange_at session_append inserted i none = returns false i
exchange_at session_append inserted i (some place) =
    splice session_append place.0 (whole (pos place.1)) one_message inserted i >>> λ removed j.
    returns true j

unfoldable pub exchange : (Splice → Option ℕ) → String → List UserMessage → Inbox → Ran Bool
unfolding exchange_at
exchange session_append message_id inserted i =
    exchange_at session_append inserted i (locate message_id i.state)

unfoldable pub replace : (Splice → Option ℕ) → String → UserMessage → Inbox → Ran Bool
unfolding exchange
replace session_append message_id new_message i =
    exchange session_append message_id (new_message ∷ []) i

unfoldable pub remove : (Splice → Option ℕ) → String → Inbox → Ran Bool
unfolding exchange
remove session_append message_id i = exchange session_append message_id [] i

abbrev pub publish_claimed : ℕ → List UserMessage → Inbox → Ran (List UserMessage)
publish_claimed turn claimed i =
    returns claimed
      (record i { notifications = i.notifications ++ map (λ m. claims m turn) claimed })

-- The queued turn, when the boundary consumes one.
abbrev pub claim_turn : (Splice → Option ℕ) → InboxTarget → Inbox → Ran (List UserMessage)
claim_turn session_append next_step i = returns [] i
claim_turn session_append next_turn i =
    mutate session_append next_turn at_front one_message [] false i

unfoldable pub claim : (Splice → Option ℕ) → InboxTarget → ℕ → Inbox → Ran (List UserMessage)
unfolding mutate
claim session_append target turn i =
    mutate session_append next_step at_front (size_of next_step i) [] false i >>> λ steps j.
    claim_turn session_append target j >>> λ turns k. publish_claimed turn (steps ++ turns) k

abbrev pub has_pending : Inbox → Bool
has_pending i = not (is_empty i.state.turns) || not (is_empty i.state.steps)

-- The constructor, for a log whose first `seed_length` events are the seed.
pub data Built : Type 0 where
  built : Inbox → Built
  invalid_persisted : ℕ → InboxError → Built

unfoldable pub create : ℕ → List LogEvent → Built
unfolding replay
create seed_length events = elim (replay (drop seed_length events) empty_state) [
  | replayed s ↦ built (open_inbox events s)
  | invalid_at seq x ↦ invalid_persisted seq x
]

abbrev pub after {ℓ} : {A : Type ℓ} → Ran A → Inbox
after (returns a i) = i
after (throws x i) = i

-- A call, with the session's answers in it.
pub data Step : Inbox → Inbox → Type 0 where
  splices :
      {i : Inbox} (session_append : Splice → Option ℕ) (target : InboxTarget)
      (start delete_count : Truncated) (inserted : List UserMessage)
      → Step i (after (splice session_append target start delete_count inserted i))
  appends :
      {i : Inbox} (session_append : Splice → Option ℕ) (target : InboxTarget)
      (message : UserMessage)
      → Step i (after (append session_append target message i))
  prepends :
      {i : Inbox} (session_append : Splice → Option ℕ) (target : InboxTarget)
      (message : UserMessage)
      → Step i (after (prepend session_append target message i))
  clears :
      {i : Inbox} (session_append : Splice → Option ℕ) → Step i (after (clear session_append i))
  replaces :
      {i : Inbox} (session_append : Splice → Option ℕ) (message_id : String)
      (new_message : UserMessage)
      → Step i (after (replace session_append message_id new_message i))
  removes :
      {i : Inbox} (session_append : Splice → Option ℕ) (message_id : String)
      → Step i (after (remove session_append message_id i))
  claims_step :
      {i : Inbox} (session_append : Splice → Option ℕ) (target : InboxTarget) (turn : ℕ)
      → Step i (after (claim session_append target turn i))
  -- The session logs an event of another type.
  logs :
      {i : Inbox} (seq : ℕ)
      → Step i (record i { events = i.events ++ record { seq = seq; spliced = none } ∷ [] })

pub data Steps : Inbox → Inbox → Type 0 where
  start : {i : Inbox} → Steps i i
  next : {i j k : Inbox} → Steps i j → Step j k → Steps i k
