-- ===== src/Inbox/Replaying.antt =====
-- The session's log and the live lists agree after every call.
use rigo.Base.{
  ℕ, zero, suc, ◌≤◌, String, Bool, true, false, List, [], ◌∷◌, ◌++◌, Option, some, none, ◌≡◌, refl,
  sym, ap, subst, ◌∙◌, arith, length, drop, length-append, Option-cases, inl, inr, ◌⊎◌,
}
use rigo.Base.Int.{pos}
use rigo.Inbox.{
  UserMessage, InboxTarget, next_turn, next_step, InboxState, Splice, LogEvent, Notification, Inbox,
  Ran, returns, throws, ◌>>>◌, normalize, commit, valid, validate, empty_state, Replayed, replayed,
  invalid_at, replay, open_inbox, Truncated, append_from, whole, mutate_at, InboxError,
}
use rigo.Inbox.Calls.{
  mutate, splice, append, prepend, clear, exchange, replace, remove, locate, size_of, at_front,
  one_message, claim, claim_turn, exchange_at, built, create, after, Step, splices, appends,
  prepends, clears, replaces, removes, claims_step, logs, Steps, start, next,
}
use rigo.Inbox.Coordinates.{Validated-cases, mutate_at-Mutated}
use rigo.Inbox.Identities.{HasDistinctIds, validate-valid}

-- The log after the seed replays to the state.
abbrev pub IsLogged : ℕ → Inbox → Type 0
IsLogged n i = (n ≤ length i.events) × (replay (drop n i.events) empty_state ≡ replayed i.state)

drop-append : (n : ℕ) (xs ys : List LogEvent) → n ≤ length xs → drop n (xs ++ ys) ≡ drop n xs ++ ys
drop-append zero xs ys h = refl
drop-append (suc n) [] ys h = ground (arith, h)
drop-append (suc n) (x ∷ xs) ys h = drop-append n xs ys (omega (arith, h))

replay-append :
    (es fs : List LogEvent) (s t : InboxState)
    → replay es s ≡ replayed t
    → replay (es ++ fs) s ≡ replay fs t
unfolding replay
replay-append [] fs s t h = ground (arith, h)
replay-append (e ∷ es) fs s t h = elim (Option-cases e.spliced) [
  | inl other ↦ ground (arith, other, h, replay-append es fs s t)
  | inr (p, here) ↦ elim (Validated-cases (validate p s)) [
    | inl (u, good) ↦ ground (arith, here, good, h, replay-append es fs u t)
    | inr (x, bad) ↦ ground (arith, here, bad, h)
  ]
]

replay_one :
    (seq : ℕ) (e : Splice) (s t : InboxState)
    → validate e s ≡ valid t
    → replay (record { seq = seq; spliced = some e } ∷ []) s ≡ replayed t
unfolding replay
replay_one seq e s t good = ground (arith, good)

replay_other :
    (seq : ℕ) (s : InboxState) → replay (record { seq = seq; spliced = none } ∷ []) s ≡ replayed s
unfolding replay
replay_other seq s = refl

Replayed-cases :
    (r : Replayed)
    → ((s : InboxState) × (r ≡ replayed s))
      ⊎ ((seq : ℕ) × (x : InboxError) × (r ≡ invalid_at seq x))
Replayed-cases (replayed s) = inl (s, refl)
Replayed-cases (invalid_at seq x) = inr (seq, x, refl)

-- A longer log, and the state that its last event leads to.
IsLogged-append :
    (n : ℕ) (i : Inbox) (e : LogEvent) (t : InboxState) (notices : List Notification)
    → IsLogged n i
    → replay (e ∷ []) i.state ≡ replayed t
    → IsLogged n (record { events = i.events ++ e ∷ []; state = t; notifications = notices })
IsLogged-append n i e t notices (seeded, h) one = (
  omega (arith, seeded, length-append i.events (e ∷ [])),
  ap (λ es. replay es empty_state) (drop-append n i.events (e ∷ []) seeded)
      ∙ replay-append (drop n i.events) (e ∷ []) empty_state i.state h
      ∙ one,
)

mutate_at-IsLogged :
    (session_append : Splice → Option ℕ) (target : InboxTarget) (at_start removed_count : ℕ)
    (inserted : List UserMessage) (discard_removed : Bool) (n : ℕ) (i : Inbox)
    → IsLogged n i
    → IsLogged n
        (after (mutate_at session_append target at_start removed_count inserted discard_removed i))
mutate_at-IsLogged session_append target at_start removed_count inserted discard_removed n i h =
    let e = normalize target at_start removed_count inserted discard_removed in
    elim (mutate_at-Mutated session_append target at_start removed_count inserted discard_removed
      i) [
        | inl idle ↦ subst (IsLogged n) (sym idle) h
        | inr (seq, s, good, done) ↦
            subst (λ ran. IsLogged n (after ran)) (sym done)
              (IsLogged-append n i (record { seq = seq; spliced = some e }) s
                (after (commit e at_start removed_count discard_removed seq s i)).notifications h
                (replay_one seq e i.state s good))
      ]

mutate-IsLogged :
    (session_append : Splice → Option ℕ) (target : InboxTarget) (at_start delete_count : Truncated)
    (inserted : List UserMessage) (discard_removed : Bool) (n : ℕ) (i : Inbox)
    → IsLogged n i
    → IsLogged n
        (after (mutate session_append target at_start delete_count inserted discard_removed i))
unfolding mutate
mutate-IsLogged session_append target at_start delete_count inserted discard_removed n i h =
    mutate_at-IsLogged (append_from at_start session_append) target _ _ inserted discard_removed n i
      h

-- One call after another.
bind-IsLogged {ℓ κ} :
    {A : Type ℓ} {B : Type κ} (n : ℕ) (ran : Ran A) (f : A → Inbox → Ran B)
    → IsLogged n (after ran)
    → ((a : A) (j : Inbox) → IsLogged n j → IsLogged n (after (f a j)))
    → IsLogged n (after (ran >>> f))
bind-IsLogged n (returns a i) f h k = k a i h
bind-IsLogged n (throws x i) f h k = h

module _ (n : ℕ) (session_append : Splice → Option ℕ) where
  splice-IsLogged :
      (target : InboxTarget) (at_start delete_count : Truncated) (inserted : List UserMessage)
      (i : Inbox)
      → IsLogged n i
      → IsLogged n (after (splice session_append target at_start delete_count inserted i))
  unfolding splice
  splice-IsLogged target at_start delete_count inserted i h =
      mutate-IsLogged session_append target at_start delete_count inserted true n i h

  append-IsLogged :
      (target : InboxTarget) (message : UserMessage) (i : Inbox)
      → IsLogged n i
      → IsLogged n (after (append session_append target message i))
  unfolding append
  append-IsLogged target message i h =
      bind-IsLogged n (splice session_append target (size_of target i) at_front (message ∷ []) i) _
        (splice-IsLogged target (size_of target i) at_front (message ∷ []) i h)
        (λ removed j logged. logged)

  prepend-IsLogged :
      (target : InboxTarget) (message : UserMessage) (i : Inbox)
      → IsLogged n i
      → IsLogged n (after (prepend session_append target message i))
  unfolding prepend
  prepend-IsLogged target message i h =
      bind-IsLogged n (splice session_append target at_front at_front (message ∷ []) i) _
        (splice-IsLogged target at_front at_front (message ∷ []) i h) (λ removed j logged. logged)

  clear-IsLogged : (i : Inbox) → IsLogged n i → IsLogged n (after (clear session_append i))
  unfolding clear
  clear-IsLogged i h =
      bind-IsLogged n (splice session_append next_step at_front (size_of next_step i) [] i) _
        (splice-IsLogged next_step at_front (size_of next_step i) [] i h)
        (λ steps j logged.
          bind-IsLogged n (splice session_append next_turn at_front (size_of next_turn j) [] j) _
            (splice-IsLogged next_turn at_front (size_of next_turn j) [] j logged)
            (λ turns k ready. ready))

  exchange_at-IsLogged :
      (inserted : List UserMessage) (i : Inbox) (found : Option (InboxTarget × ℕ))
      → IsLogged n i
      → IsLogged n (after (exchange_at session_append inserted i found))
  unfolding exchange_at
  exchange_at-IsLogged inserted i none h = h
  exchange_at-IsLogged inserted i (some place) h =
      bind-IsLogged n (splice session_append place.0 (whole (pos place.1)) one_message inserted i) _
        (splice-IsLogged place.0 (whole (pos place.1)) one_message inserted i h)
        (λ removed j logged. logged)

  exchange-IsLogged :
      (message_id : String) (inserted : List UserMessage) (i : Inbox)
      → IsLogged n i
      → IsLogged n (after (exchange session_append message_id inserted i))
  unfolding exchange
  exchange-IsLogged message_id inserted i h =
      exchange_at-IsLogged inserted i (locate message_id i.state) h

  claim_turn-IsLogged :
      (target : InboxTarget) (i : Inbox)
      → IsLogged n i
      → IsLogged n (after (claim_turn session_append target i))
  claim_turn-IsLogged next_step i h = h
  claim_turn-IsLogged next_turn i h =
      mutate-IsLogged session_append next_turn at_front one_message [] false n i h

  claim-IsLogged :
      (target : InboxTarget) (turn : ℕ) (i : Inbox)
      → IsLogged n i
      → IsLogged n (after (claim session_append target turn i))
  unfolding claim
  claim-IsLogged target turn i h =
      bind-IsLogged n (mutate session_append next_step at_front (size_of next_step i) [] false i) _
        (mutate-IsLogged session_append next_step at_front (size_of next_step i) [] false n i h)
        (λ steps j logged.
          bind-IsLogged n (claim_turn session_append target j) _
            (claim_turn-IsLogged target j logged) (λ turns k ready. ready))

Step-IsLogged : (n : ℕ) (i j : Inbox) → Step i j → IsLogged n i → IsLogged n j
unfolding replace remove
Step-IsLogged n i _ (splices session_append target at_start delete_count inserted) h =
    splice-IsLogged n session_append target at_start delete_count inserted i h
Step-IsLogged n i _ (appends session_append target message) h =
    append-IsLogged n session_append target message i h
Step-IsLogged n i _ (prepends session_append target message) h =
    prepend-IsLogged n session_append target message i h
Step-IsLogged n i _ (clears session_append) h = clear-IsLogged n session_append i h
Step-IsLogged n i _ (replaces session_append message_id new_message) h =
    exchange-IsLogged n session_append message_id (new_message ∷ []) i h
Step-IsLogged n i _ (removes session_append message_id) h =
    exchange-IsLogged n session_append message_id [] i h
Step-IsLogged n i _ (claims_step session_append target turn) h =
    claim-IsLogged n session_append target turn i h
Step-IsLogged n i _ (logs seq) h = other_event n i seq h
  where
    other_event :
        (n : ℕ) (i : Inbox) (seq : ℕ)
        → IsLogged n i
        → IsLogged n (record i { events = i.events ++ record { seq = seq; spliced = none } ∷ [] })
    other_event n i seq h =
        IsLogged-append n i (record { seq = seq; spliced = none }) i.state i.notifications h
          (replay_other seq i.state)

Steps-IsLogged : (n : ℕ) (i j : Inbox) → Steps i j → IsLogged n i → IsLogged n j
Steps-IsLogged n i _ start h = h
Steps-IsLogged n i j (next {j = k} run step) h =
    Step-IsLogged n k j step (Steps-IsLogged n i k run h)

create-cases :
    (n : ℕ) (events : List LogEvent) (i : Inbox)
    → create n events ≡ built i
    → (s : InboxState) × (replay (drop n events) empty_state ≡ replayed s)
      × (open_inbox events s ≡ i)
unfolding create
create-cases n events i h = elim (Replayed-cases (replay (drop n events) empty_state)) [
  | inl (s, done) ↦ (s, done, ground (arith, done, h))
  | inr (seq, x, bad) ↦ ground (arith, bad, h)
]

create-replayed :
    (n : ℕ) (events : List LogEvent) (s : InboxState)
    → replay (drop n events) empty_state ≡ replayed s
    → create n events ≡ built (open_inbox events s)
unfolding create
create-replayed n events s h = ground (arith, h)

-- After any run of calls on a new inbox of a log that is no shorter than its seed, a new inbox of
-- the session's log has the lists of the live one.
pub Steps-create :
    (n : ℕ) (events : List LogEvent) (i j : Inbox)
    → n ≤ length events
    → create n events ≡ built i
    → Steps i j
    → create n j.events ≡ built (open_inbox j.events j.state)
Steps-create n events i j seeded opened run =
    let (s, done, same) = create-cases n events i opened in
    let logged = Steps-IsLogged n i j run (subst (IsLogged n) same (seeded, done)) in
    create-replayed n j.events j.state logged.1

replay-HasDistinctIds :
    (es : List LogEvent) (s t : InboxState)
    → HasDistinctIds s
    → replay es s ≡ replayed t
    → HasDistinctIds t
unfolding replay
replay-HasDistinctIds [] s t d h =
    let same : s ≡ t = ground (arith, h) in subst HasDistinctIds same d
replay-HasDistinctIds (e ∷ es) s t d h = elim (Option-cases e.spliced) [
  | inl other ↦ replay-HasDistinctIds es s t d (ground (arith, other, h))
  | inr (p, here) ↦ elim (Validated-cases (validate p s)) [
    | inl (u, good) ↦
        let (_, _, _, _, _, distinct) = validate-valid p s u good in
        replay-HasDistinctIds es u t distinct (ground (arith, here, good, h))
    | inr (x, bad) ↦ ground (arith, here, bad, h)
  ]
]

-- After any run of calls on a new inbox of a log that is no shorter than its seed, no two pending
-- messages, of one list or of both, have one identity.
pub Steps-HasDistinctIds :
    (n : ℕ) (events : List LogEvent) (i j : Inbox)
    → n ≤ length events
    → create n events ≡ built i
    → Steps i j
    → HasDistinctIds j.state
Steps-HasDistinctIds n events i j seeded opened run =
    let (s, done, same) = create-cases n events i opened in
    let logged = Steps-IsLogged n i j run (subst (IsLogged n) same (seeded, done)) in
    replay-HasDistinctIds (drop n j.events) empty_state j.state (λ k. omega arith) logged.1
