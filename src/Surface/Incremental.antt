-- ===== src/Surface/Incremental.antt =====
-- The manager's first reading of a log, against the complete fold.
use rigo.Base.{
  ℕ, suc, ◌+◌, true, List, [], ◌∷◌, none, ◌≡◌, refl, arith, ap, sym, ◌∙◌, ltb, length, inl, inr,
}
use rigo.Surface.{
  SessionEvent, SurfaceFoldState, SurfaceFoldReplacement, SurfaceFoldResult, Checked, passes,
  throws, Done, apply_surface_event, fold_from, fold_surface, create_fold_state, push,
}
use rigo.Surface.Fold.{Checked-cases}
use rigo.Surface.Manager.{
  Held, SurfaceManager, create_manager, events_of, process_event, process_all, process_delta,
  catch_up, nodes,
}

abbrev folded_nodes : Checked (SurfaceFoldState × List SurfaceFoldReplacement) → Checked (List ℕ)
folded_nodes (throws x) = throws x
folded_nodes (passes (s, rs)) = passes s.nodes

abbrev seen_nodes : Checked Done → SurfaceManager → Checked (List ℕ)
seen_nodes (throws x) m = throws x
seen_nodes (passes u) m = passes m.state.nodes

module _ (log : List Held) where
  -- The manager at a place of its loop, with nothing planned.
  abbrev at_place : SurfaceFoldState → ℕ → SurfaceManager
  at_place s n = record { log = log; base_seq = 0; state = s; next_seq = n; pending_plan = none }

  process_all-fold_from :
      (hs : List Held) (s : SurfaceFoldState) (n : ℕ) (rs : List SurfaceFoldReplacement)
      → seen_nodes (process_all hs (at_place s n)).0 (process_all hs (at_place s n)).1
        ≡ folded_nodes (fold_from (events_of log) n (events_of hs) s rs)
  unfolding process_all process_event fold_from
  process_all-fold_from [] s n rs = refl
  process_all-fold_from (h ∷ hs) s n rs =
      elim (Checked-cases (apply_surface_event s h.event n (events_of log) 0)) [
        | inr (x, thrown) ↦ ground (arith, thrown)
        | inl ((s', r), stepped) ↦
            ground (arith, stepped, process_all-fold_from hs s' (suc n) (push r rs))
      ]

nodes-seen : (m : SurfaceManager) → (nodes m).0 ≡ seen_nodes (catch_up m).0 (catch_up m).1
unfolding nodes
nodes-seen m = ground arith

catch_up_first :
    (log : List Held)
    → catch_up (create_manager log 0) ≡ process_all log (at_place log create_fold_state 0)
unfolding catch_up process_delta process_all
catch_up_first [] = refl
catch_up_first (h ∷ hs) =
    let behind : ltb 0 (0 + suc (length hs)) ≡ true = ground arith in ground (arith, behind)

-- What the complete fold says of the nodes.
abbrev pub complete_nodes : Checked SurfaceFoldResult → Checked (List ℕ)
complete_nodes (throws x) = throws x
complete_nodes (passes result) = passes result.nodes

fold_surface-folded :
    (events : List SessionEvent)
    → complete_nodes (fold_surface events)
      ≡ folded_nodes (fold_from events 0 events create_fold_state [])
unfolding fold_surface
fold_surface-folded events = ground arith

-- The nodes that a new manager of a log from its start shows are those of the complete fold of the
-- log, and where the fold throws, the reading throws the same.
pub nodes-fold_surface :
    (log : List Held)
    → (nodes (create_manager log 0)).0 ≡ complete_nodes (fold_surface (events_of log))
nodes-fold_surface log =
    nodes-seen (create_manager log 0)
    ∙ ap (λ o. seen_nodes o.0 o.1) (catch_up_first log)
    ∙ process_all-fold_from log log create_fold_state 0 []
    ∙ sym (fold_surface-folded (events_of log))
