-- ===== src/WriteBehind.antt =====
-- The write controller of one live session:
-- packages/harness/session-persistence/src/write-behind.ts. The backend's durable log and the list
-- of everything enqueued stand beside the fields. A promise that settled has its continuation due,
-- which runs before any timer fires and before any other write settles: `background_due` is
-- `continueAutomatic`, a `Drain` is where the coroutine `drainBarrier` stands.
pub mod Conservation
pub mod Barrier
pub mod Tests
use rigo.Base.{
  ℕ, suc, Bool, true, false, List, [], ◌∷◌, ◌++◌, Option, none, some, is_some, is_empty,
  if◌then◌else◌, ◌≡◌,
}
use mathlib.Core.Option

pub data Drain : Type 0 where
  no_drain awaits_overlap overlap_over awaits_write write_done write_failed : Drain

pub record Write (Event : Type 0) : Type 0 where
  pub batch : List Event
  pub background : Bool

pub record SessionWriteBehind (Event : Type 0) : Type 0 where
  pub pending : List Event
  pub timer : Bool
  pub active : Option (Write Event)
  pub drain : Drain
  pub deadline_expired : Bool
  pub automatic_paused : Bool
  pub background_due : Bool
  pub durable : List Event
  pub enqueued : List Event
  -- How many barriers were resolved and rejected, and how many background failures reported.
  pub resolved : ℕ
  pub rejected : ℕ
  pub reported : ℕ

-- `barrier !== undefined`
abbrev pub has_barrier : Drain → Bool
has_barrier no_drain = false
has_barrier _ = true

-- Where the coroutine stands once the write that it waits for has settled.
abbrev pub wake : Bool → Drain → Drain
wake good awaits_overlap = overlap_over
wake true awaits_write = write_done
wake false awaits_write = write_failed
wake good d = d

-- Whether the coroutine's continuation is due.
abbrev pub is_due : Drain → Bool
is_due overlap_over = true
is_due write_done = true
is_due write_failed = true
is_due _ = false

module _ {Event : Type 0} where
  abbrev pub create_write_behind : SessionWriteBehind Event
  create_write_behind = record {
    pending = [];
    timer = false;
    active = none;
    drain = no_drain;
    deadline_expired = false;
    automatic_paused = false;
    background_due = false;
    durable = [];
    enqueued = [];
    resolved = 0;
    rejected = 0;
    reported = 0;
  }

  abbrev has_work : SessionWriteBehind Event → Bool
  has_work m = if is_empty m.pending then is_some m.active else true

  abbrev pub batch_of : Option (Write Event) → List Event
  batch_of none = []
  batch_of (some w) = w.batch

  unfoldable pub enqueue : Event → SessionWriteBehind Event → SessionWriteBehind Event
  enqueue e m =
      let pushed = record m { pending = m.pending ++ e ∷ []; enqueued = m.enqueued ++ e ∷ [] } in
      if has_barrier m.drain
      then pushed
      else if m.automatic_paused
      then record pushed { automatic_paused = false; deadline_expired = false; timer = true }
      else if is_empty m.pending
      then record pushed { timer = true }
      else pushed

  unfoldable pub start_write : Bool → SessionWriteBehind Event → SessionWriteBehind Event
  start_write background m = record m {
    pending = [];
    timer = false;
    deadline_expired = false;
    active = some (record { batch = m.pending; background = background });
  }

  -- `while (this.pending.length > 0) await this.startWrite(false)`, up to the next wait.
  unfoldable pub drain_loop : SessionWriteBehind Event → SessionWriteBehind Event
  unfolding start_write
  drain_loop m =
      if is_empty m.pending
      then record m { drain = no_drain; resolved = suc m.resolved }
      else record (start_write false m) { drain = awaits_write }

  -- `drainBarrier` up to its first wait.
  unfoldable pub drain_barrier : SessionWriteBehind Event → SessionWriteBehind Event
  unfolding drain_loop
  drain_barrier m = if is_some m.active then record m { drain = awaits_overlap } else drain_loop m

  unfoldable pub flush : SessionWriteBehind Event → SessionWriteBehind Event
  unfolding drain_barrier
  flush m =
      if has_barrier m.drain
      then m
      else drain_barrier
          (record m { timer = false; deadline_expired = false; automatic_paused = false })

  unfoldable pub cancel_automatic_wait : SessionWriteBehind Event → SessionWriteBehind Event
  cancel_automatic_wait m = record m { timer = false; deadline_expired = false }

  unfoldable pub on_deadline : SessionWriteBehind Event → SessionWriteBehind Event
  unfolding start_write
  on_deadline m =
      if is_some m.active
      then record m { timer = false; deadline_expired = true }
      else start_write true (record m { timer = false })

  unfoldable pub continue_automatic : SessionWriteBehind Event → SessionWriteBehind Event
  unfolding start_write
  continue_automatic m =
      let rest = record m { background_due = false } in
      if has_barrier m.drain
      then rest
      else if is_empty m.pending
      then rest
      else if m.deadline_expired
      then start_write true (record rest { deadline_expired = false })
      else rest

  -- The write resolves: its batch is durable.
  unfoldable pub write_resolves : Write Event → SessionWriteBehind Event → SessionWriteBehind Event
  write_resolves w m = record m {
    active = none;
    durable = m.durable ++ w.batch;
    background_due = w.background;
    drain = wake true m.drain;
  }

  -- The write rejects: its batch goes back before what came meanwhile.
  unfoldable pub write_rejects : Write Event → SessionWriteBehind Event → SessionWriteBehind Event
  write_rejects w m = record m {
    active = none;
    pending = w.batch ++ m.pending;
    timer = false;
    deadline_expired = false;
    automatic_paused = true;
    reported = if w.background then suc m.reported else m.reported;
    drain = wake false m.drain;
  }

  -- `drainBarrier` from the wait that is over to the next, or to its end.
  unfoldable pub continue_drain : SessionWriteBehind Event → SessionWriteBehind Event
  unfolding drain_loop
  continue_drain m = elim m.drain [
    | overlap_over ↦ drain_loop (record m { automatic_paused = false })
    | write_done ↦ drain_loop m
    | write_failed ↦ record m { drain = no_drain; rejected = suc m.rejected }
    | _ ↦ m
  ]

  pub data Step : SessionWriteBehind Event → SessionWriteBehind Event → Type 0 where
    enqueues : (e : Event) {m : SessionWriteBehind Event} → Step m (enqueue e m)
    flushes : {m : SessionWriteBehind Event} → Step m (flush m)
    cancels_wait : {m : SessionWriteBehind Event} → Step m (cancel_automatic_wait m)
    deadline :
        {m : SessionWriteBehind Event}
        → m.timer ≡ true
        → m.background_due ≡ false
        → is_due m.drain ≡ false
        → Step m (on_deadline m)
    continues :
        {m : SessionWriteBehind Event} → m.background_due ≡ true → Step m (continue_automatic m)
    drains : {m : SessionWriteBehind Event} → Step m (continue_drain m)
    resolves :
        (w : Write Event) {m : SessionWriteBehind Event}
        → m.active ≡ some w
        → m.background_due ≡ false
        → Step m (write_resolves w m)
    rejects :
        (w : Write Event) {m : SessionWriteBehind Event}
        → m.active ≡ some w
        → m.background_due ≡ false
        → Step m (write_rejects w m)

  pub data Reach : SessionWriteBehind Event → SessionWriteBehind Event → Type 0 where
    same : {m : SessionWriteBehind Event} → Reach m m
    after : {m m' m'' : SessionWriteBehind Event} → Reach m m' → Step m' m'' → Reach m m''
