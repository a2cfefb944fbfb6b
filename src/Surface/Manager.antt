-- ===== src/Surface/Manager.antt =====
-- The incremental view: class SurfaceManager. An event's identity as an object is a number beside
-- it, and the log is what the session has appended, by reference.
use rigo.Base.{
  ℕ, zero, suc, ◌+◌, ◌-◌, Bool, false, List, [], ◌∷◌, Option, some, none, ◌&&◌, ltb, leb, nat_eq,
  length, if◌then◌else◌, map,
}
use rigo.Surface.{
  SessionEvent, SurfaceFoldState, SurfacePlan, Checked, passes, throws, Done, plan_surface_event,
  apply_surface_plan, apply_surface_event, create_fold_state,
}

-- An event object: its identity and what it holds.
pub record Held : Type 0 where
  pub ref : ℕ
  pub event : SessionEvent

abbrev pub events_of : List Held → List SessionEvent
events_of hs = map (λ h. h.event) hs

pub record PendingPlan : Type 0 where
  pub held : Held
  pub expected_seq : ℕ
  pub plan : Option SurfacePlan

-- `next_seq` is `_lastProcessedSeq + 1`.
pub record SurfaceManager : Type 0 where
  pub log : List Held
  pub base_seq : ℕ
  pub state : SurfaceFoldState
  pub next_seq : ℕ
  pub pending_plan : Option PendingPlan

abbrev pub create_manager : List Held → ℕ → SurfaceManager
create_manager log base = record {
  log = log;
  base_seq = base;
  state = create_fold_state;
  next_seq = base;
  pending_plan = none;
}

-- Whether the pending plan was made for this object at this place.
abbrev pub is_planned : Option PendingPlan → Held → ℕ → Bool
is_planned none h seq = false
is_planned (some p) h seq = nat_eq p.held.ref h.ref && nat_eq p.expected_seq seq

abbrev pub planned_state : Option PendingPlan → SurfaceFoldState → SurfaceFoldState
planned_state none s = s
planned_state (some p) s = (apply_surface_plan s p.plan).0

abbrev pub keep_pending : Option PendingPlan → ℕ → Option PendingPlan
keep_pending none seq = none
keep_pending (some p) seq = if leb p.expected_seq seq then none else some p

-- One turn of the loop: the state with the event, or what it throws.
unfoldable pub process_event : Held → SurfaceManager → Checked SurfaceManager
process_event h m =
    if is_planned m.pending_plan h m.next_seq
    then passes (record m {
      state = planned_state m.pending_plan m.state;
      pending_plan = keep_pending m.pending_plan m.next_seq;
      next_seq = suc m.next_seq;
    })
    else elim (apply_surface_event m.state h.event m.next_seq (events_of m.log) m.base_seq) [
      | throws x ↦ throws x
      | passes (s, r) ↦ passes (record m {
        state = s;
        pending_plan = keep_pending m.pending_plan m.next_seq;
        next_seq = suc m.next_seq;
      })
    ]

-- The events that are not yet folded in.
abbrev pub skip : ℕ → List Held → List Held
skip zero hs = hs
skip (suc n) [] = []
skip (suc n) (h ∷ hs) = skip n hs

-- The loop; a throw leaves what was folded before it.
unfoldable pub process_all : List Held → SurfaceManager → Checked Done × SurfaceManager
unfolding process_event
process_all [] m = (passes tt, m)
process_all (h ∷ hs) m = elim (process_event h m) [
  | throws x ↦ (throws x, m)
  | passes m' ↦ process_all hs m'
]

unfoldable pub process_delta : SurfaceManager → Checked Done × SurfaceManager
unfolding process_all
process_delta m = process_all (skip (m.next_seq - m.base_seq) m.log) m

unfoldable pub catch_up : SurfaceManager → Checked Done × SurfaceManager
unfolding process_delta
catch_up m = if ltb m.next_seq (m.base_seq + length m.log) then process_delta m else (passes tt, m)

unfoldable pub validate_next : Held → SurfaceManager → Checked Done × SurfaceManager
unfolding catch_up
validate_next h m =
    let (outcome, m') = catch_up m in
    elim outcome [
      | throws x ↦ (throws x, m')
      | passes u ↦
          let expected = m'.base_seq + length m'.log in
          elim (plan_surface_event m'.state h.event expected (events_of m'.log) m'.base_seq) [
            | throws x ↦ (throws x, m')
            | passes p ↦ (
              passes tt,
              record m' {
                pending_plan = some (record { held = h; expected_seq = expected; plan = p });
              },
            )
          ]
    ]

unfoldable pub replace_generation : SurfaceManager → Checked ℕ × SurfaceManager
unfolding catch_up
replace_generation m =
    let (outcome, m') = catch_up m in
    elim outcome [ throws x ↦ (throws x, m') | passes u ↦ (passes m'.state.replace_generation, m') ]

unfoldable pub nodes : SurfaceManager → Checked (List ℕ) × SurfaceManager
unfolding catch_up
nodes m =
    let (outcome, m') = catch_up m in
    elim outcome [ throws x ↦ (throws x, m') | passes u ↦ (passes m'.state.nodes, m') ]
