-- ===== src/WriteBehind/Tests.antt =====
-- A run with a failed background write and a barrier, and instances of the theorems.
use rigo.Base.{String, true, false, [], ◌∷◌, none, ◌≡◌, ◌<◌, refl, arith, ◌++◌}
use rigo.WriteBehind.{
  Write, SessionWriteBehind, create_write_behind, batch_of, enqueue, on_deadline, write_rejects,
  flush, write_resolves, continue_drain, enqueues, deadline, rejects, flushes, resolves, drains,
  Reach, same, after,
}
use rigo.WriteBehind.Conservation.{Reach-IsConserved}
use rigo.WriteBehind.Barrier.{Reach-makes_durable}

abbrev queued : SessionWriteBehind String
queued = enqueue "b" (enqueue "a" create_write_behind)

abbrev batch : Write String
batch = record { batch = "a" ∷ "b" ∷ []; background = true }

abbrev retried : Write String
retried = record { batch = "a" ∷ "b" ∷ "c" ∷ []; background = false }

-- The background write of two events fails while a third comes; a barrier writes all three.
abbrev failed : SessionWriteBehind String
failed = write_rejects batch (enqueue "c" (on_deadline queued))

abbrev written : SessionWriteBehind String
written = write_resolves retried (flush failed)

failed_run : Reach create_write_behind failed
unfolding enqueue on_deadline write_rejects
failed_run =
    after
      (after (after (after (after same (enqueues "a")) (enqueues "b")) (deadline refl refl refl))
        (enqueues "c"))
      (rejects batch refl refl)

written_run : Reach create_write_behind written
unfolding enqueue on_deadline write_rejects flush
written_run = after (after failed_run flushes) (resolves retried refl refl)

Reach-IsConserved_example :
    failed.durable ++ (batch_of failed.active ++ failed.pending) ≡ failed.enqueued
Reach-IsConserved_example = Reach-IsConserved failed_run

resolved_once : written.resolved < (continue_drain written).resolved
unfolding enqueue on_deadline write_rejects flush write_resolves continue_drain
resolved_once = omega arith

Reach-makes_durable_example :
    ((continue_drain written).durable ≡ (continue_drain written).enqueued)
    × ((continue_drain written).active ≡ none)
Reach-makes_durable_example = Reach-makes_durable written_run drains resolved_once
