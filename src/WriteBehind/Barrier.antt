-- ===== src/WriteBehind/Barrier.antt =====
-- What a resolved barrier means.
use rigo.Base.{
  ◌<◌, true, false, List, [], ◌∷◌, ◌++◌, none, is_empty, ◌≡◌, refl, arith, ap, sym, ◌∙◌, Bool-cases,
  Option-cases, inl, inr,
}
use rigo.WriteBehind.{
  SessionWriteBehind, batch_of, create_write_behind, enqueue, start_write, drain_loop,
  drain_barrier, flush, cancel_automatic_wait, on_deadline, continue_automatic, write_resolves,
  write_rejects, continue_drain, Step, enqueues, flushes, cancels_wait, deadline, continues, drains,
  resolves, rejects, Reach,
}
use rigo.WriteBehind.Conservation.{IsConserved, conserved, append_nil}

module _ {Event : Type 0} where
  is_empty-nil : (xs : List Event) → is_empty xs ≡ true → xs ≡ []
  is_empty-nil [] h = refl
  is_empty-nil (x ∷ xs) h = ground (arith, h)

  durable_sum :
      (m : SessionWriteBehind Event)
      → m.active ≡ none
      → is_empty m.pending ≡ true
      → m.durable ++ (batch_of m.active ++ m.pending) ≡ m.enqueued
      → m.durable ≡ m.enqueued
  durable_sum m idle empty sum =
      sym (append_nil m.durable)
      ∙ sym (ap (λ t. m.durable ++ t) (is_empty-nil m.pending empty))
      ∙ sym (ap (λ a. m.durable ++ (batch_of a ++ m.pending)) idle)
      ∙ sum

  drain_loop_ends :
      (m : SessionWriteBehind Event)
      → m.active ≡ none
      → m.durable ++ (batch_of m.active ++ m.pending) ≡ m.enqueued
      → m.resolved < (drain_loop m).resolved
      → ((drain_loop m).durable ≡ (drain_loop m).enqueued) × ((drain_loop m).active ≡ none)
  unfolding drain_loop start_write
  drain_loop_ends m idle sum more = elim (Bool-cases (is_empty m.pending)) [
    | inl empty ↦
        let whole = durable_sum m idle empty sum in
        (ground (arith, empty, whole), ground (arith, empty, idle))
    | inr waits ↦ ground (arith, waits, more)
  ]

  -- A step that resolves a barrier leaves every enqueued event durable and no write active.
  pub Step-makes_durable :
      {m m' : SessionWriteBehind Event}
      → Step m m'
      → IsConserved m
      → m.resolved < m'.resolved
      → (m'.durable ≡ m'.enqueued) × (m'.active ≡ none)
  unfolding enqueue flush drain_barrier cancel_automatic_wait on_deadline start_write
      continue_automatic continue_drain write_resolves write_rejects
  Step-makes_durable (enqueues e {m}) h more = ground (arith, more)
  Step-makes_durable (flushes {m}) h more = elim (Option-cases m.active) [
    | inl idle ↦
        let ended =
          drain_loop_ends
            (record m { timer = false; deadline_expired = false; automatic_paused = false }) idle
            h.1 in
        ground (arith, idle, ended, more)
    | inr (w, busy) ↦ ground (arith, busy, more)
  ]
  Step-makes_durable (cancels_wait {m}) h more = ground (arith, more)
  Step-makes_durable (deadline {m} armed calm waits) h more = ground (arith, more)
  Step-makes_durable (continues {m} due) h more = ground (arith, more)
  Step-makes_durable (drains {m}) h more = elim (Option-cases m.active) [
    | inl idle ↦
        let cleared = drain_loop_ends (record m { automatic_paused = false }) idle h.1 in
        let ended = drain_loop_ends m idle h.1 in ground (arith, idle, ended, cleared, more)
    | inr (w, busy) ↦ ground (arith, busy, more, h.0)
  ]
  Step-makes_durable (resolves w {m} busy calm) h more = ground (arith, more)
  Step-makes_durable (rejects w {m} busy calm) h more = ground (arith, more)

  -- A barrier that resolves after any run of a new controller leaves every event that was enqueued
  -- durable, in order, and no write active.
  pub Reach-makes_durable :
      {m m' : SessionWriteBehind Event}
      → Reach create_write_behind m
      → Step m m'
      → m.resolved < m'.resolved
      → (m'.durable ≡ m'.enqueued) × (m'.active ≡ none)
  Reach-makes_durable run step more = Step-makes_durable step (conserved run (tt, refl)) more
