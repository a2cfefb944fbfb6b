-- ===== src/Inbox/Tests.antt =====
-- Runs of an agent's inbox.
use rigo.Base.{ℕ, String, true, false, [], ◌∷◌, Option, some, none, ◌≡◌, ◌⊎◌, refl, arith}
use rigo.Base.Int.{pos, is_safe}
use rigo.Inbox.{
  UserMessage, next_turn, next_step, Splice, Inbox, invalid_splice, already_pending, append_refused,
  returns, throws, whole, minus_zero, empty_state, all_pending, open_inbox,
}
use rigo.Inbox.Calls.{
  mutate, append, prepend, replace, claim, built, invalid_persisted, create, after, appends,
  prepends, Steps, start, next,
}
use rigo.Inbox.Coordinates.{mutate-in_range}
use rigo.Inbox.Identities.{HasDistinctIds, find_repeated-count}
use rigo.Inbox.Replaying.{Steps-create, Steps-HasDistinctIds}
use rigo.Inbox.Delivery.{claim-delivers}
use rigo.Inbox.Draining.{Drains, claim_rounds-Drains}

abbrev say : String → UserMessage
say i = record { id = i; content = "hello" }

-- A session that takes every event, under one number, and one that takes none.
abbrev takes_all : Splice → Option ℕ
takes_all e = some 7

abbrev takes_none : Splice → Option ℕ
takes_none e = none

abbrev fresh : Inbox
fresh = open_inbox [] empty_state

abbrev waiting : Inbox
waiting = open_inbox [] (record { turns = say "a" ∷ say "b" ∷ []; steps = say "c" ∷ [] })

abbrev one_appended : Inbox
one_appended = after (append takes_all next_turn (say "a") fresh)

abbrev two_appended : Inbox
two_appended = after (prepend takes_all next_step (say "b") one_appended)

fresh_created : create 0 [] ≡ built fresh
unfolding create
fresh_created = refl

append_twice :
    append takes_all next_step (say "a") one_appended ≡ throws (already_pending "a") one_appended
unfolding append is_safe
append_twice = refl

refused : append takes_none next_step (say "b") one_appended ≡ throws append_refused one_appended
unfolding append is_safe
refused = refl

-- A persisted splice beyond the end of the list.
persisted_beyond :
    create 0 (
      record {
        seq = 3;
        spliced = some (record {
          target = next_turn;
          start = pos 1;
          removed_count = none;
          inserted = [];
          canceled = false;
        });
      }
      ∷ [])
    ≡ invalid_persisted 3 invalid_splice
unfolding create is_safe
persisted_beyond = refl

replaced : (after (replace takes_all "b" (say "d") two_appended)).state.steps ≡ say "d" ∷ []
unfolding replace append prepend is_safe
replaced = refl

run : Steps fresh two_appended
run =
    next (next start (appends takes_all next_turn (say "a")))
      (prepends takes_all next_step (say "b"))

safe_one : is_safe (pos 1) ≡ true
unfolding is_safe
safe_one = refl

safe_two : is_safe (pos 2) ≡ true
unfolding is_safe
safe_two = refl

waiting-HasDistinctIds : HasDistinctIds waiting.state
waiting-HasDistinctIds i = (find_repeated-count [] (all_pending waiting.state) refl i).1

-- A start of minus one half truncates to minus zero.
minus_zero_refused :
    mutate takes_all next_turn minus_zero (whole (pos 0)) (say "d" ∷ []) true waiting
    ≡ throws append_refused waiting
unfolding mutate is_safe
minus_zero_refused = refl

mutate-in_range_example :
    (waiting ≡ waiting)
    × (((m : String) × (append_refused ≡ already_pending m))
        ⊎ ((append_refused ≡ append_refused) × (minus_zero ≡ minus_zero)))
mutate-in_range_example =
    mutate-in_range takes_all (λ e. refl) next_turn minus_zero (whole (pos 0)) (say "d" ∷ []) true
      waiting waiting append_refused safe_two minus_zero_refused

Steps-create_example :
    create 0 two_appended.events ≡ built (open_inbox two_appended.events two_appended.state)
Steps-create_example = Steps-create 0 [] fresh two_appended (omega arith) fresh_created run

Steps-HasDistinctIds_example : HasDistinctIds two_appended.state
Steps-HasDistinctIds_example =
    Steps-HasDistinctIds 0 [] fresh two_appended (omega arith) fresh_created run

claim-delivers_example :
    (j : Inbox) × (claim takes_all next_turn 1 waiting ≡ returns (say "c" ∷ say "a" ∷ []) j)
    × (j.state ≡ record { turns = say "b" ∷ []; steps = [] })
claim-delivers_example =
    claim-delivers takes_all (λ e. (7, refl)) next_turn 1 waiting waiting-HasDistinctIds
      (safe_two, safe_one)

claim_rounds-Drains_example :
    Drains takes_all (λ e. (7, refl)) 1 2 waiting (say "c" ∷ say "a" ∷ say "b" ∷ [])
claim_rounds-Drains_example =
    claim_rounds-Drains takes_all (λ e. (7, refl)) 1 1 waiting waiting-HasDistinctIds
      (safe_two, safe_one) (omega arith)
