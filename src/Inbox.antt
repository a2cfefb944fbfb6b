-- ===== src/Inbox.antt =====
-- The pending messages of an agent: packages/harness/agent/src/inbox.ts. Each mutation commits a
-- normalized splice to the session's log before the lists change, and a new inbox replays the
-- splices of the log. A number of a splice is an integer; whether the session takes an event, and
-- under which number, is an argument of each call.
pub mod Calls
pub mod Coordinates
pub mod Identities
pub mod Replaying
pub mod Deletion
pub mod Delivery
pub mod Draining
pub mod Tests
use rigo.Base.{
  ℕ, ◌+◌, ◌-◌, String, Bool, true, false, not, List, [], ◌∷◌, ◌++◌, map, Option, some, none, ◌==◌,
  ◌&&◌, ◌||◌, ltb, leb, nat_eq, length, is_empty, take, drop, option_or, if◌then◌else◌,
}
use rigo.Base.Int.{ℤ, pos, negsuc, is_safe}

pub record UserMessage : Type 0 where
  pub id : String
  pub content : String

pub data InboxTarget : Type 0 where
  next_turn next_step : InboxTarget

pub record InboxState : Type 0 where
  pub turns : List UserMessage
  pub steps : List UserMessage

-- The event `agent/inbox/spliced`; its outcome is there when the removed messages were canceled.
pub record Splice : Type 0 where
  pub target : InboxTarget
  pub start : ℤ
  pub removed_count : Option ℤ
  pub inserted : List UserMessage
  pub canceled : Bool

-- An event of the session, of another type when it holds no splice.
pub record LogEvent : Type 0 where
  pub seq : ℕ
  pub spliced : Option Splice

pub data Notification : Type 0 where
  inserts : UserMessage → Notification
  discards : UserMessage → Notification
  claims : UserMessage → ℕ → Notification

pub record Inbox : Type 0 where
  pub events : List LogEvent
  pub state : InboxState
  pub notifications : List Notification

pub data InboxError : Type 0 where
  invalid_splice : InboxError
  already_pending : String → InboxError
  append_refused : InboxError

-- What a call gives back, with the inbox after it.
pub data Ran {ℓ} (A : Type ℓ) : Type ℓ where
  returns : A → Inbox → Ran A
  throws : InboxError → Inbox → Ran A

infixl 5 ◌>>>◌
abbrev pub ◌>>>◌ {ℓ κ} : {A : Type ℓ} {B : Type κ} → Ran A → (A → Inbox → Ran B) → Ran B
returns a i >>> f = f a i
throws e i >>> f = throws e i

abbrev pub pending_list : InboxTarget → InboxState → List UserMessage
pending_list next_turn s = s.turns
pending_list next_step s = s.steps

abbrev pub set_pending_list : InboxTarget → List UserMessage → InboxState → InboxState
set_pending_list next_turn ms s = record s { turns = ms }
set_pending_list next_step ms s = record s { steps = ms }

-- `toSpliced`, and what `splice` removes, for a start and a count within the list.
abbrev pub to_spliced : ℕ → ℕ → List UserMessage → List UserMessage → List UserMessage
to_spliced start removed_count inserted ms =
    take start ms ++ inserted ++ drop (start + removed_count) ms

abbrev pub removed_by : ℕ → ℕ → List UserMessage → List UserMessage
removed_by start removed_count ms = take removed_count (drop start ms)

abbrev pub has_id : String → List String → Bool
has_id i [] = false
has_id i (j ∷ js) = if j == i then true else has_id i js

-- The loop over the messages that are pending after the splice.
abbrev pub find_repeated : List String → List UserMessage → Option String
find_repeated seen [] = none
find_repeated seen (m ∷ ms) =
    let rest = find_repeated (m.id ∷ seen) ms in if has_id m.id seen then some m.id else rest

abbrev pub all_pending : InboxState → List UserMessage
all_pending s = s.turns ++ s.steps

-- A position or a count that lies in a list of this length.
abbrev pub as_position : ℕ → ℤ → Option ℕ
as_position size (pos n) = if is_safe (pos n) && leb n size then some n else none
as_position size (negsuc n) = none

-- The list after a splice, or what is wrong with the splice.
pub data Validated : Type 0 where
  valid : InboxState → Validated
  invalid : InboxError → Validated

abbrev pub check_pending : InboxState → Validated
check_pending s = elim (find_repeated [] (all_pending s)) [
  | none ↦ valid s
  | some i ↦ invalid (already_pending i)
]

abbrev pub splice_state : Splice → ℕ → ℕ → InboxState → InboxState
splice_state e start removed_count s =
    set_pending_list e.target (to_spliced start removed_count e.inserted (pending_list e.target s))
      s

-- `validate`, with the state that the splice leads to.
unfoldable pub validate : Splice → InboxState → Validated
validate e s =
    let size = length (pending_list e.target s) in
    elim (as_position size e.start) [
      | none ↦ invalid invalid_splice
      | some start ↦ elim (as_position (size - start) (option_or e.removed_count (pos 0))) [
        | none ↦ invalid invalid_splice
        | some removed_count ↦ check_pending (splice_state e start removed_count s)
      ]
    ]

abbrev pub empty_state : InboxState
empty_state = record { turns = []; steps = [] }

pub data Replayed : Type 0 where
  replayed : InboxState → Replayed
  invalid_at : ℕ → InboxError → Replayed

-- The constructor's loop; `apply` validates and splices.
unfoldable pub replay : List LogEvent → InboxState → Replayed
unfolding validate
replay [] s = replayed s
replay (event ∷ events) s = elim event.spliced [
  | none ↦ replay events s
  | some e ↦ elim (validate e s) [ invalid x ↦ invalid_at event.seq x | valid t ↦ replay events t ]
]

abbrev pub open_inbox : List LogEvent → InboxState → Inbox
open_inbox events s = record { events = events; state = s; notifications = [] }

-- `Math.trunc` of an argument that is a number. From -0, and from what lies between -1 and 0, it
-- is minus zero.
pub data Truncated : Type 0 where
  not_a_number minus_infinity plus_infinity minus_zero : Truncated
  whole : ℤ → Truncated

-- Where a splice of a list of this length starts, and how many messages it removes, as amounts.
abbrev pub actual_start : ℕ → Truncated → ℕ
actual_start size not_a_number = 0
actual_start size minus_infinity = 0
actual_start size plus_infinity = size
actual_start size minus_zero = 0
actual_start size (whole (pos n)) = if leb n size then n else size
actual_start size (whole (negsuc n)) = size - (n + 1)

abbrev pub actual_delete_count : ℕ → Truncated → ℕ
actual_delete_count room not_a_number = 0
actual_delete_count room minus_infinity = 0
actual_delete_count room plus_infinity = room
actual_delete_count room minus_zero = 0
actual_delete_count room (whole (pos n)) = if leb n room then n else room
actual_delete_count room (whole (negsuc n)) = 0

-- A start that is minus zero stays so in the event, and `Session.append` takes no minus zero.
abbrev pub append_from : Truncated → (Splice → Option ℕ) → Splice → Option ℕ
append_from minus_zero session_append = λ e. none
append_from start session_append = session_append

abbrev pub normalize : InboxTarget → ℕ → ℕ → List UserMessage → Bool → Splice
normalize target start removed_count inserted discard_removed = record {
  target = target;
  start = pos start;
  removed_count = if nat_eq removed_count 0 then none else some (pos removed_count);
  inserted = inserted;
  canceled = discard_removed && not (nat_eq removed_count 0);
}

-- The event is in the log, the list is spliced, and what was discarded and inserted is published.
abbrev pub commit : Splice → ℕ → ℕ → Bool → ℕ → InboxState → Inbox → Ran (List UserMessage)
commit e start removed_count discard_removed seq s i =
    let removed = removed_by start removed_count (pending_list e.target i.state) in
    let discarded = if discard_removed then map discards removed else [] in
    returns removed (record {
      events = i.events ++ record { seq = seq; spliced = some e } ∷ [];
      state = s;
      notifications = i.notifications ++ discarded ++ map inserts e.inserted;
    })

abbrev pub append_event :
    (Splice → Option ℕ) → Splice → ℕ → ℕ → Bool → InboxState → Inbox → Ran (List UserMessage)
append_event session_append e start removed_count discard_removed s i = elim (session_append e) [
  | none ↦ throws append_refused i
  | some seq ↦ commit e start removed_count discard_removed seq s i
]

-- `mutate` from its normalized coordinates on.
unfoldable pub mutate_at :
    (Splice → Option ℕ)
    → InboxTarget
    → ℕ
    → ℕ
    → List UserMessage
    → Bool
    → Inbox
    → Ran (List UserMessage)
unfolding validate
mutate_at session_append target start removed_count inserted discard_removed i =
    let e = normalize target start removed_count inserted discard_removed in
    if nat_eq removed_count 0 && is_empty inserted
    then returns [] i
    else elim (validate e i.state) [
      | invalid x ↦ throws x i
      | valid s ↦ append_event session_append e start removed_count discard_removed s i
    ]
