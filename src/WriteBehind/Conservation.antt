-- ===== src/WriteBehind/Conservation.antt =====
-- No event is lost, doubled or moved, and a resolved barrier means that all are durable.
use rigo.Base.{
  Bool, true, false, List, [], ◌∷◌, ◌++◌, none, some, is_some, is_empty, if◌then◌else◌, ◌≡◌, refl,
  arith, ap, sym, ◌∙◌, Option-cases, inl, inr,
}
use rigo.WriteBehind.{
  Drain, is_due, no_drain, awaits_overlap, awaits_write, Write, SessionWriteBehind,
  create_write_behind, batch_of, enqueue, start_write, drain_loop, drain_barrier, flush,
  cancel_automatic_wait, on_deadline, continue_automatic, write_resolves, write_rejects,
  continue_drain, Step, enqueues, flushes, cancels_wait, deadline, continues, drains, resolves,
  rejects, Reach, same, after,
}

-- Whether a write is active, for each place where the coroutine can stand.
abbrev pub Agree : Drain → Bool → Bool → Type 0
Agree no_drain active due = if due then active ≡ false else Unit
Agree awaits_overlap active due = active ≡ true
Agree awaits_write active due = active ≡ true
Agree _ active due = active ≡ false

module _ {Event : Type 0} where
  append_assoc : (xs ys zs : List Event) → (xs ++ ys) ++ zs ≡ xs ++ (ys ++ zs)
  append_assoc [] ys zs = refl
  append_assoc (x ∷ xs) ys zs = ap (λ t. x ∷ t) (append_assoc xs ys zs)

  pub append_nil : (xs : List Event) → xs ++ [] ≡ xs
  append_nil [] = refl
  append_nil (x ∷ xs) = ap (λ t. x ∷ t) (append_nil xs)

  -- Durable events, then the active batch, then the pending ones, are all the events in order.
  abbrev pub IsConserved : SessionWriteBehind Event → Type 0
  IsConserved m =
      Agree m.drain (is_some m.active) m.background_due
      × (m.durable ++ (batch_of m.active ++ m.pending) ≡ m.enqueued)

  is_empty-nil : (xs : List Event) → is_empty xs ≡ true → xs ≡ []
  is_empty-nil [] h = refl
  is_empty-nil (x ∷ xs) h = ground (arith, h)

  start_write-sum :
      (b : Bool) (m : SessionWriteBehind Event)
      → m.active ≡ none
      → (start_write b m).durable
          ++ (batch_of (start_write b m).active ++ (start_write b m).pending)
        ≡ m.durable ++ (batch_of m.active ++ m.pending)
  unfolding start_write
  start_write-sum b m idle = rw idle (ap (λ t. m.durable ++ t) (append_nil m.pending))

  enqueue-IsConserved :
      (e : Event) (m : SessionWriteBehind Event) → IsConserved m → IsConserved (enqueue e m)
  unfolding enqueue
  enqueue-IsConserved e m (agree, sum) =
      let grown : m.durable ++ (batch_of m.active ++ (m.pending ++ e ∷ [])) ≡ m.enqueued ++ e ∷ [] =
        sym (ap (λ t. m.durable ++ t) (append_assoc (batch_of m.active) m.pending (e ∷ [])))
        ∙ sym (append_assoc m.durable (batch_of m.active ++ m.pending) (e ∷ []))
        ∙ ap (λ t. t ++ e ∷ []) sum in
      (ground (arith, agree), ground (arith, grown))

  idle_sum :
      (m : SessionWriteBehind Event)
      → m.active ≡ none
      → m.durable ++ (batch_of m.active ++ m.pending) ≡ m.enqueued
      → m.durable ++ (m.pending ++ []) ≡ m.enqueued
  idle_sum m idle sum =
      ap (λ t. m.durable ++ t) (append_nil m.pending)
      ∙ sym (ap (λ a. m.durable ++ (batch_of a ++ m.pending)) idle)
      ∙ sum

  drain_loop-IsConserved :
      (m : SessionWriteBehind Event)
      → m.active ≡ none
      → m.durable ++ (batch_of m.active ++ m.pending) ≡ m.enqueued
      → IsConserved (drain_loop m)
  unfolding drain_loop start_write
  drain_loop-IsConserved m idle sum =
      let whole : m.durable ++ (m.pending ++ []) ≡ m.enqueued = idle_sum m idle sum in
      (ground (arith, idle), ground (arith, idle, sum, whole))

  flush-IsConserved : (m : SessionWriteBehind Event) → IsConserved m → IsConserved (flush m)
  unfolding flush drain_barrier
  flush-IsConserved m (agree, sum) =
      let cleared = record m {
        timer = false;
        deadline_expired = false;
        automatic_paused = false;
      } in
      elim (Option-cases m.active) [
        | inl idle ↦
            let looped = drain_loop-IsConserved cleared idle sum in
            (ground (arith, agree, idle, looped.0), ground (arith, agree, idle, sum, looped.1))
        | inr (w, busy) ↦ (ground (arith, agree, busy), ground (arith, busy, sum))
      ]

  on_deadline-IsConserved :
      (m : SessionWriteBehind Event)
      → m.background_due ≡ false
      → is_due m.drain ≡ false
      → IsConserved m
      → IsConserved (on_deadline m)
  unfolding on_deadline start_write
  on_deadline-IsConserved m calm waits (agree, sum) = elim (Option-cases m.active) [
    | inl idle ↦
        let whole = idle_sum m idle sum in
        (ground (arith, agree, idle, calm, waits), ground (arith, idle, whole))
    | inr (w, busy) ↦ (ground (arith, agree, busy, calm, waits), ground (arith, busy, sum))
  ]

  continue_automatic-IsConserved :
      (m : SessionWriteBehind Event)
      → m.background_due ≡ true
      → IsConserved m
      → IsConserved (continue_automatic m)
  unfolding continue_automatic start_write
  continue_automatic-IsConserved m due (agree, sum) = elim (Option-cases m.active) [
    | inl idle ↦
        let whole = idle_sum m idle sum in
        (ground (arith, agree, idle, due), ground (arith, idle, whole, sum))
    | inr (w, busy) ↦ (ground (arith, agree, busy, due), ground (arith, busy, sum, agree, due))
  ]

  continue_drain-IsConserved :
      (m : SessionWriteBehind Event) → IsConserved m → IsConserved (continue_drain m)
  unfolding continue_drain
  continue_drain-IsConserved m (agree, sum) = elim (Option-cases m.active) [
    | inl idle ↦
        let cleared = drain_loop-IsConserved (record m { automatic_paused = false }) idle sum in
        let looped = drain_loop-IsConserved m idle sum in
        (
          ground (arith, agree, idle, cleared.0, looped.0),
          ground (arith, idle, sum, cleared.1, looped.1),
        )
    | inr (w, busy) ↦ (ground (arith, agree, busy), ground (arith, busy, sum, agree))
  ]

  write_resolves-IsConserved :
      (w : Write Event) (m : SessionWriteBehind Event)
      → m.active ≡ some w
      → m.background_due ≡ false
      → IsConserved m
      → IsConserved (write_resolves w m)
  unfolding write_resolves
  write_resolves-IsConserved w m busy calm (agree, sum) = (
    ground (arith, agree, busy),
    append_assoc m.durable w.batch m.pending
        ∙ sym (ap (λ a. m.durable ++ (batch_of a ++ m.pending)) busy)
        ∙ sum,
  )

  write_rejects-IsConserved :
      (w : Write Event) (m : SessionWriteBehind Event)
      → m.active ≡ some w
      → m.background_due ≡ false
      → IsConserved m
      → IsConserved (write_rejects w m)
  unfolding write_rejects
  write_rejects-IsConserved w m busy calm (agree, sum) = (
    ground (arith, agree, busy, calm),
    sym (ap (λ a. m.durable ++ (batch_of a ++ m.pending)) busy) ∙ sum,
  )

  -- Every step keeps the durable events, the active batch and the pending events, in this order,
  -- equal to all the events that were enqueued, with at most one write active.
  pub Step-IsConserved :
      {m m' : SessionWriteBehind Event} → Step m m' → IsConserved m → IsConserved m'
  unfolding cancel_automatic_wait
  Step-IsConserved (enqueues e {m}) h = enqueue-IsConserved e m h
  Step-IsConserved (flushes {m}) h = flush-IsConserved m h
  Step-IsConserved (cancels_wait {m}) h = (h.0, h.1)
  Step-IsConserved (deadline {m} armed calm waits) h = on_deadline-IsConserved m calm waits h
  Step-IsConserved (continues {m} due) h = continue_automatic-IsConserved m due h
  Step-IsConserved (drains {m}) h = continue_drain-IsConserved m h
  Step-IsConserved (resolves w {m} busy calm) h = write_resolves-IsConserved w m busy calm h
  Step-IsConserved (rejects w {m} busy calm) h = write_rejects-IsConserved w m busy calm h

  pub conserved : {m m' : SessionWriteBehind Event} → Reach m m' → IsConserved m → IsConserved m'
  conserved same h = h
  conserved (after run step) h = Step-IsConserved step (conserved run h)

  -- From a new controller, whatever the order of calls, timers and writes, the durable events, the
  -- active batch and the pending events are, in this order, all the events that were enqueued.
  pub Reach-IsConserved :
      {m : SessionWriteBehind Event}
      → Reach create_write_behind m
      → m.durable ++ (batch_of m.active ++ m.pending) ≡ m.enqueued
  Reach-IsConserved run = (conserved run (tt, refl)).1
