-- ===== src/Actions/Registry.antt =====
-- The state of the service, and the methods that register and look up: the constructor's checks,
-- `registerAction`, `getAction`, `listActions`, `beforePolicy`, `listInFlight`, `cancelInflight`.
-- A Map is a list in insertion order. An AbortController that was aborted stays in `aborted` with
-- its reason, under the execution that it was made for, until that execution gets a new one.
use rigo.Base.{
  ℕ, String, Bool, not, List, [], ◌∷◌, ◌++◌, map, Option, some, none, ◌==◌, ◌&&◌, nat_eq, is_some,
  if◌then◌else◌,
}
use Prim.Native.String.{◌++◌ as join}
use rigo.Actions.Types.{
  ActionDefinition, ActionExecutionAuditEntry, Result, ok, err, empty_name, already_registered,
  unsupported_schema, tables_missing,
}
use rigo.Actions.Table.{Row, member}

-- An entry of `inflight`: the execution and the definition that it runs.
pub record Flight : Type 0 where
  pub execution_id : String
  pub definition_ref : ℕ

pub record Service (Schema : Type 0) : Type 0 where
  pub definitions : List (ActionDefinition Schema)
  pub hooks : List ℕ
  pub inflight : List Flight
  pub aborted : List (String × String)
  -- The driver, when the host wired it, with the two tables that the service reads.
  pub has_driver : Bool
  pub sessions : List String
  pub rows : List Row
  -- The recorder, when the host wired it, with what it has recorded.
  pub has_recorder : Bool
  pub audit : List ActionExecutionAuditEntry
  -- The executions whose executor was called, in order.
  pub launches : List String

-- The disposer of a hook removes its first occurrence.
unfoldable pub remove_first : ℕ → List ℕ → List ℕ
remove_first h [] = []
remove_first h (x ∷ xs) = if nat_eq x h then xs else x ∷ remove_first h xs

module _ {Schema : Type 0} where
  -- The constructor: with a driver both tables must be there.
  unfoldable pub create :
      Bool → Bool → List String → List String → List Row → Result (Service Schema)
  create has_driver has_recorder tables sessions rows =
      if has_driver && not (member "sessions" tables && member "action_executions" tables)
      then err tables_missing
      else ok (record {
        definitions = [];
        hooks = [];
        inflight = [];
        aborted = [];
        has_driver = has_driver;
        sessions = if has_driver then sessions else [];
        rows = if has_driver then rows else [];
        has_recorder = has_recorder;
        audit = [];
        launches = [];
      })

  unfoldable pub find_definition :
      String → List (ActionDefinition Schema) → Option (ActionDefinition Schema)
  find_definition n [] = none
  find_definition n (d ∷ ds) = if d.name == n then some d else find_definition n ds

  -- `Map.delete`: a name stands once.
  unfoldable pub delete_definition :
      String → List (ActionDefinition Schema) → List (ActionDefinition Schema)
  delete_definition n [] = []
  delete_definition n (d ∷ ds) = if d.name == n then ds else d ∷ delete_definition n ds

  -- `registerAction`; `supported` is `assertSupportedJsonSchema`.
  unfoldable pub register_action :
      (Schema → Bool) → ActionDefinition Schema → Service Schema → Result (Service Schema)
  register_action supported d s =
      if d.name == ""
      then err empty_name
      else if is_some (find_definition d.name s.definitions)
      then err (already_registered d.name)
      else if supported d.input_schema
      then ok (record s { definitions = s.definitions ++ d ∷ [] })
      else err unsupported_schema

  unfoldable pub get_action : String → Service Schema → Option (ActionDefinition Schema)
  get_action n s = find_definition n s.definitions

  unfoldable pub list_actions : Service Schema → List String
  list_actions s = map (λ d. d.name) s.definitions

  unfoldable pub list_in_flight : Service Schema → List String
  list_in_flight s = map (λ f. f.execution_id) s.inflight

  unfoldable pub before_policy : ℕ → Service Schema → Service Schema
  before_policy hook s = record s { hooks = s.hooks ++ hook ∷ [] }

  unfoldable pub dispose_hook : ℕ → Service Schema → Service Schema
  dispose_hook hook s = record s { hooks = remove_first hook s.hooks }

-- `cancelInflight`: the flights of a definition leave the map, and their controllers abort.
unfoldable pub kept_flights : ℕ → List Flight → List Flight
kept_flights ref [] = []
kept_flights ref (f ∷ fs) =
    let rest = kept_flights ref fs in if nat_eq f.definition_ref ref then rest else f ∷ rest

unfoldable pub aborted_flights : ℕ → String → List Flight → List (String × String)
aborted_flights ref reason [] = []
aborted_flights ref reason (f ∷ fs) =
    let rest = aborted_flights ref reason fs in
    if nat_eq f.definition_ref ref then (f.execution_id, reason) ∷ rest else rest

unfoldable pub unload_reason : String → String
unload_reason name = join "action \"" (join name "\" plugin unloaded")

module _ {Schema : Type 0} where
  unfoldable pub cancel_inflight : ℕ → String → Service Schema → Service Schema
  cancel_inflight ref reason s = record s {
    inflight = kept_flights ref s.inflight;
    aborted = s.aborted ++ aborted_flights ref reason s.inflight;
  }

  -- The disposer of a definition: unload deletes the name and cancels what runs.
  unfoldable pub unload : ActionDefinition Schema → Service Schema → Service Schema
  unload d s =
      cancel_inflight d.ref (unload_reason d.name)
        (record s { definitions = delete_definition d.name s.definitions })
