-- ===== src/Surface/Tests.antt =====
-- A log with a compaction, and instances of the theorems.
use rigo.Base.{suc, ℕ, List, [], ◌∷◌, some, none, ◌≡◌, refl}
use rigo.Json.{null, str, nil, cons, end}
use rigo.Surface.{
  SessionEvent, Body, Value, user_message, assistant_message, other_event, op_text, op_object, text,
  number, sources_array, fold_surface, passes, throws, sources_missing, SurfaceFoldResult,
  apply_surface_event, SurfaceFoldState, replacement_range, assert_provenance,
  assert_tool_result_rewrite,
}
use rigo.Surface.Manager.{Held, create_manager, events_of, nodes}
use rigo.Surface.Incremental.{complete_nodes, nodes-fold_surface}
use rigo.Surface.Nodes.{IsSurface, Moves, fold_surface-IsSurface, apply_surface_event-Moves}

abbrev appended : ℕ → Body → SessionEvent
appended n body = record {
  seq = n;
  body = body;
  surface_op = some (op_text "append");
  source_event_seqs = none;
}

abbrev values : List ℕ → List Value
values [] = []
values (n ∷ ns) = number n ∷ values ns

abbrev replacing : ℕ → Body → ℕ → ℕ → List ℕ → SessionEvent
replacing n body a b sources = record {
  seq = n;
  body = body;
  surface_op =
      some (op_object (("op", text "replace") ∷ ("start", number a) ∷ ("end", number b) ∷ []));
  source_event_seqs = some (sources_array (values sources));
}

abbrev log : List SessionEvent
log =
    appended 0 (user_message (str "hello"))
    ∷ record {
      seq = 1;
      body = other_event "step/start" null;
      surface_op = none;
      source_event_seqs = none;
    }
    ∷ appended 2 (assistant_message (record { message_rest = end; content = cons (str "hi") nil }))
    ∷ appended 3 (user_message (str "more"))
    ∷ replacing 4 (user_message (str "summary")) 0 2 (0 ∷ 2 ∷ [])
    ∷ []

abbrev folded : SurfaceFoldResult
folded = record {
  nodes = 4 ∷ 3 ∷ [];
  replacements = record { seq = 4; start = 0; stop = 2; shadowed_seqs = 0 ∷ 2 ∷ [] } ∷ [];
}

log_folds : fold_surface log ≡ passes folded
unfolding fold_surface apply_surface_event assert_provenance replacement_range
    assert_tool_result_rewrite
log_folds = refl

-- A replacement that cites one node of its range only.
log_refused :
    fold_surface (
      appended 0 (user_message null)
      ∷ appended 1 (user_message null)
      ∷ replacing 2 (user_message null) 0 1 (0 ∷ [])
      ∷ [])
    ≡ throws (sources_missing (1 ∷ []))
unfolding fold_surface apply_surface_event assert_provenance replacement_range
log_refused = refl

fold_surface-IsSurface_example : IsSurface log 5 (4 ∷ 3 ∷ [])
fold_surface-IsSurface_example = fold_surface-IsSurface log folded log_folds

abbrev before : SurfaceFoldState
before = record { nodes = 0 ∷ 2 ∷ 3 ∷ []; replace_generation = 0 }

apply_surface_event-Moves_example :
    Moves before
      (replacing 4 (user_message (str "summary")) 0 2 (0 ∷ 2 ∷ []))
      (record { nodes = 4 ∷ 3 ∷ []; replace_generation = 1 })
      (some (record { seq = 4; start = 0; stop = 2; shadowed_seqs = 0 ∷ 2 ∷ [] }))
unfolding apply_surface_event replacement_range assert_provenance assert_tool_result_rewrite
apply_surface_event-Moves_example =
    apply_surface_event-Moves before (replacing 4 (user_message (str "summary")) 0 2 (0 ∷ 2 ∷ [])) 4
      log 0 (record { nodes = 4 ∷ 3 ∷ []; replace_generation = 1 })
      (some (record { seq = 4; start = 0; stop = 2; shadowed_seqs = 0 ∷ 2 ∷ [] })) refl

-- The log as objects.
abbrev objects : ℕ → List SessionEvent → List Held
objects n [] = []
objects n (e ∷ es) = record { ref = n; event = e } ∷ objects (suc n) es

nodes-fold_surface_example :
    (nodes (create_manager (objects 0 log) 0)).0
    ≡ complete_nodes (fold_surface (events_of (objects 0 log)))
nodes-fold_surface_example = nodes-fold_surface (objects 0 log)
