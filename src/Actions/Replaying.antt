-- ===== src/Actions/Replaying.antt =====
-- Idempotency: what a call under a known key gets.
use rigo.Base.{
  ℕ, String, true, false, List, [], some, ◌==◌, ◌≡◌, refl, arith, Bool-cases, inl, inr, ◌∙◌, ap,
}
use rigo.Json.{Json, stable_stringify, text_eq}
use rigo.Json.Alike.{Alike, stable_stringify-Alike}
use rigo.Json.Canonical.{parse-stable_stringify, stable_stringify-written, text_eq_iff}
use rigo.Actions.Types.{ActionDefinition, ActionExecutionRequest, ok, err, idempotency_conflict}
use rigo.Actions.Table.{Row, find_execution}
use rigo.Actions.Registry.{Service, find_definition}
use rigo.Actions.Replay.{replay, outcome_of}
use rigo.Actions.Execute.{admit, answered, answer}

-- `replay` of a row that was written for the input `v`.
replay_same :
    (r : Row) (req : ActionExecutionRequest) (v : Json)
    → r.request_json ≡ stable_stringify v
    → Alike v req.input
    → replay r req ≡ ok (outcome_of r r.state)
unfolding replay
replay_same r req v stored same = rw (
  stored,
  replay,
  parse-stable_stringify v,
  stable_stringify-written v,
  (stable_stringify-Alike v req.input).1 same,
  (text_eq_iff (stable_stringify req.input) _).1 refl,
)

replay_other :
    (r : Row) (req : ActionExecutionRequest) (v : Json)
    → r.request_json ≡ stable_stringify v
    → ¬ Alike v req.input
    → replay r req ≡ err (idempotency_conflict r.idempotency_key r.action_name)
unfolding replay
replay_other r req v stored other =
    elim (Bool-cases (text_eq (stable_stringify v) (stable_stringify req.input))) [
      | inl same ↦
          absurd (other ((stable_stringify-Alike v req.input).0 ((text_eq_iff _ _).0 same)))
      | inr differ ↦
          rw (stored, replay, parse-stable_stringify v, stable_stringify-written v, differ)
    ]

module _ {Schema : Type 0} (violations : Schema → Json → List String) where
  admit_known :
      (d : ActionDefinition Schema) (id session key : String) (now : ℕ) (late : List Row)
      (req : ActionExecutionRequest) (s : Service Schema) (r : Row)
      → find_definition req.action s.definitions ≡ some d
      → violations d.input_schema req.input ≡ []
      → s.has_driver ≡ true
      → req.session_id ≡ some session
      → (session == "") ≡ false
      → req.idempotency_key ≡ some key
      → find_execution d.name key s.rows ≡ some r
      → admit violations false id now late req s ≡ (answer (replay r req), s)
  unfolding admit
  admit_known d id session key now late req s r found valid on owner named given known =
      ground arith

  -- A persisted call with a valid input, whose key stands in a row that was stored for the input `v`:
  -- if its input equals `v` up to the order, at any depth, of members with different keys, and up to
  -- the sign of zero, it gets what the row says, and the service is left as it was; if it does not,
  -- it gets the idempotency conflict, and the service is left too.
  pub admit-replays :
      (d : ActionDefinition Schema) (id session key : String) (now : ℕ) (late : List Row)
      (req : ActionExecutionRequest) (s : Service Schema) (r : Row) (v : Json)
      → find_definition req.action s.definitions ≡ some d
      → violations d.input_schema req.input ≡ []
      → s.has_driver ≡ true
      → req.session_id ≡ some session
      → (session == "") ≡ false
      → req.idempotency_key ≡ some key
      → find_execution d.name key s.rows ≡ some r
      → r.request_json ≡ stable_stringify v
      → (Alike v req.input
          → admit violations false id now late req s ≡ (ok (answered (outcome_of r r.state)), s))
        × (¬ Alike v req.input
            → admit violations false id now late req s
              ≡ (err (idempotency_conflict r.idempotency_key r.action_name), s))
  admit-replays d id session key now late req s r v found valid on owner named given known stored =
      let e =
        admit_known d id session key now late req s r found valid on owner named given known in
      (
        λ same. e ∙ ap (λ x. (answer x, s)) (replay_same r req v stored same),
        λ other. e ∙ ap (λ x. (answer x, s)) (replay_other r req v stored other),
      )
