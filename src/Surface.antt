-- ===== src/Surface.antt =====
-- The surface of a session: packages/harness/session/src/surface.ts, the ordered view of the events
-- of an append-only log that produce the model's messages. The event union is one data type, so an
-- event's type and data agree. A raw marker keeps the shapes that the checks look at.
pub mod Range
pub mod Marker
pub mod Fold
pub mod Nodes
pub mod Manager
pub mod Incremental
pub mod Tests
use rigo.Base.{
  take, drop, ℕ, zero, suc, ◌+◌, ◌-◌, ◌^◌, String, Bool, true, false, not, List, [], ◌∷◌, ◌++◌,
  Option, some, none, ◌==◌, ◌&&◌, ltb, leb, nat_eq, length, is_empty, if◌then◌else◌,
}
use mathlib.Core.Option
use rigo.Json.{
  written_bits, Json, Items, Fields, null, bool, num, str, arr, obj, nil, cons, end, field,
}

-- The data of a tool result: its members beside `message`, the message's beside `content`, those of
-- the one result block beside its `content`, and that.
pub record ToolResult : Type 0 where
  pub data_rest : Fields
  pub message_rest : Fields
  pub block_rest : Fields
  pub content : Json

pub record AssistantMessage : Type 0 where
  pub message_rest : Fields
  pub content : Items

pub data Body : Type 0 where
  user_message : Json → Body
  assistant_message : AssistantMessage → Body
  tool_result : ToolResult → Body
  other_event : String → Json → Body

-- A value where a sequence number is expected.
pub data Value : Type 0 where
  number : ℕ → Value
  text : String → Value
  other_value : Value

pub data RawOp : Type 0 where
  op_text : String → RawOp
  op_object : List (String × Value) → RawOp
  op_other : RawOp

pub data RawSources : Type 0 where
  sources_array : List Value → RawSources
  sources_other : RawSources

pub record SessionEvent : Type 0 where
  pub seq : ℕ
  pub body : Body
  pub surface_op : Option RawOp
  pub source_event_seqs : Option RawSources

pub data SurfaceOp : Type 0 where
  append_op : SurfaceOp
  replace_op : (start stop : ℕ) → SurfaceOp

pub data SurfaceError : Type 0 where
  not_contiguous : (seq expected : ℕ) → SurfaceError
  cannot_carry_surface_op : SurfaceError
  cannot_carry_sources : SurfaceError
  requires_surface_op : SurfaceError
  invalid_surface_op : SurfaceError
  invalid_replace_op : SurfaceError
  sources_not_array : ℕ → SurfaceError
  sources_empty : SurfaceError
  sources_not_dense : SurfaceError
  sources_duplicate : SurfaceError
  sources_not_earlier : (source seq : ℕ) → SurfaceError
  sources_missing : List ℕ → SurfaceError
  start_not_found : ℕ → SurfaceError
  end_not_found : ℕ → SurfaceError
  start_after_end : (start stop : ℕ) → SurfaceError
  rewrite_not_single : SurfaceError
  rewrite_not_tool_result : SurfaceError
  rewrite_not_content : SurfaceError

pub data Checked {ℓ} (A : Type ℓ) : Type ℓ where
  passes : A → Checked A
  throws : SurfaceError → Checked A

infixl 5 ◌>>=◌
abbrev pub ◌>>=◌ {ℓ κ} : {A : Type ℓ} {B : Type κ} → Checked A → (A → Checked B) → Checked B
passes a >>= f = f a
throws e >>= f = throws e

-- What a check returns that only throws.
abbrev pub Done : Type 0
Done = Unit

abbrev pub is_surface_eligible_type : Body → Bool
is_surface_eligible_type (user_message d) = true
is_surface_eligible_type (assistant_message d) = true
is_surface_eligible_type (tool_result d) = true
is_surface_eligible_type (other_event type d) = false

abbrev is_surface_event : SessionEvent → Bool
is_surface_event e = elim e.surface_op [ none ↦ false | some op ↦ is_surface_eligible_type e.body ]

abbrev is_append_surface_event : SessionEvent → Bool
is_append_surface_event e = elim e.surface_op [
  | some (op_text t) ↦ is_surface_eligible_type e.body && (t == "append")
  | _ ↦ false
]

abbrev is_replacement_surface_event : SessionEvent → Bool
is_replacement_surface_event e = is_surface_event e && not (is_append_surface_event e)

abbrev pub message_of : ToolResult → Json
message_of t =
    obj (
      field "content" (arr (cons (obj (field "content" t.content t.block_rest)) nil))
        t.message_rest)

unfoldable derive_event_message : SessionEvent → Option Json
derive_event_message e = elim e.body [
  | user_message d ↦ some d
  | assistant_message m ↦ elim m.content [
    | nil ↦ none
    | cons x xs ↦ some (obj (field "content" (arr (cons x xs)) m.message_rest))
  ]
  | tool_result t ↦ some (message_of t)
  | other_event type d ↦ none
]

pub record SurfaceFoldReplacement : Type 0 where
  pub seq : ℕ
  pub start : ℕ
  pub stop : ℕ
  pub shadowed_seqs : List ℕ

pub record SurfaceFoldState : Type 0 where
  pub nodes : List ℕ
  pub replace_generation : ℕ

pub record ReplaceRange : Type 0 where
  pub start_idx : ℕ
  pub end_idx : ℕ
  pub shadowed_seqs : List ℕ

pub data SurfacePlan : Type 0 where
  append_plan : (seq : ℕ) → SurfacePlan
  replace_plan : (seq start stop : ℕ) (range : ReplaceRange) → SurfacePlan

abbrev pub create_fold_state : SurfaceFoldState
create_fold_state = record { nodes = []; replace_generation = 0 }

-- Non-negative safe integers.
unfoldable pub is_event_seq : Value → Option ℕ
is_event_seq (number n) = if ltb n (2 ^ 53) then some n else none
is_event_seq _ = none

unfoldable pub lookup : String → List (String × Value) → Option Value
lookup k [] = none
lookup k ((name, v) ∷ ms) = if name == k then some v else lookup k ms

unfoldable pub seq_member : String → List (String × Value) → Option ℕ
unfolding lookup is_event_seq
seq_member k ms = elim (lookup k ms) [ none ↦ none | some v ↦ is_event_seq v ]

-- Exactly the members `op`, `start` and `end`.
unfoldable pub is_replace_op : List (String × Value) → Option SurfaceOp
unfolding lookup seq_member
is_replace_op ms =
    if nat_eq (length ms) 3
    then elim (lookup "op" ms) [
      | some (text t) ↦
          if t == "replace"
          then elim (seq_member "start" ms) [
            | none ↦ none
            | some start ↦ elim (seq_member "end" ms) [
              | none ↦ none
              | some stop ↦ some (replace_op start stop)
            ]
          ]
          else none
      | _ ↦ none
    ]
    else none

unfoldable pub surface_op_of : SessionEvent → Checked (Option SurfaceOp)
unfolding is_replace_op
surface_op_of e =
    if not (is_surface_eligible_type e.body)
    then elim e.surface_op [
      | some op ↦ throws cannot_carry_surface_op
      | none ↦ elim e.source_event_seqs [
        | some sources ↦ throws cannot_carry_sources
        | none ↦ passes none
      ]
    ]
    else elim e.surface_op [
      | none ↦ throws requires_surface_op
      | some (op_text t) ↦
          if t == "append" then passes (some append_op) else throws invalid_surface_op
      | some op_other ↦ throws invalid_surface_op
      | some (op_object ms) ↦ elim (is_replace_op ms) [
        | none ↦ throws invalid_replace_op
        | some op ↦ passes (some op)
      ]
    ]

unfoldable pub read_seqs : List Value → Option (List ℕ)
unfolding is_event_seq
read_seqs [] = some []
read_seqs (v ∷ vs) = elim (is_event_seq v) [
  | none ↦ none
  | some n ↦ elim (read_seqs vs) [ none ↦ none | some ns ↦ some (n ∷ ns) ]
]

abbrev pub includes : ℕ → List ℕ → Bool
includes n [] = false
includes n (x ∷ xs) = if nat_eq x n then true else includes n xs

abbrev pub has_duplicates : List ℕ → Bool
has_duplicates [] = false
has_duplicates (x ∷ xs) = if includes x xs then true else has_duplicates xs

abbrev pub first_not_earlier : ℕ → List ℕ → Option ℕ
first_not_earlier seq [] = none
first_not_earlier seq (x ∷ xs) = if leb seq x then some x else first_not_earlier seq xs

-- `shadowedSeqs.filter(seq => !sources.has(seq))`
abbrev pub missing_sources : List ℕ → List ℕ → List ℕ
missing_sources sources [] = []
missing_sources sources (x ∷ xs) =
    if includes x sources then missing_sources sources xs else x ∷ missing_sources sources xs

abbrev pub is_assistant_message : Body → Bool
is_assistant_message (assistant_message m) = true
is_assistant_message _ = false

-- The set that `assertProvenance` collects.
unfoldable pub sources_of : SessionEvent → Checked (List ℕ)
unfolding read_seqs
sources_of e = elim e.source_event_seqs [
  | none ↦ passes []
  | some sources_other ↦ throws (sources_not_array e.seq)
  | some (sources_array vs) ↦
      if is_empty vs && not (is_assistant_message e.body)
      then throws sources_empty
      else elim (read_seqs vs) [
        | none ↦ throws sources_not_dense
        | some ns ↦
            if has_duplicates ns
            then throws sources_duplicate
            else elim (first_not_earlier e.seq ns) [
              | some source ↦ throws (sources_not_earlier source e.seq)
              | none ↦ passes ns
            ]
      ]
]

unfoldable pub assert_provenance : SessionEvent → List ℕ → Checked Done
unfolding sources_of
assert_provenance e shadowed = do
  sources ← sources_of e
  if is_empty (missing_sources sources shadowed)
      then passes tt
      else throws (sources_missing (missing_sources sources shadowed))

abbrev pub index_of : ℕ → List ℕ → Option ℕ
index_of n [] = none
index_of n (x ∷ xs) =
    if nat_eq x n then some 0 else elim (index_of n xs) [ none ↦ none | some i ↦ some (suc i) ]

abbrev pub slice : ℕ → ℕ → List ℕ → List ℕ
slice start stop xs = take (stop - start) (drop start xs)

-- `nodes.splice(start, count, item)`
abbrev pub splice : ℕ → ℕ → ℕ → List ℕ → List ℕ
splice start count item xs = take start xs ++ item ∷ drop (start + count) xs

unfoldable pub replacement_range : List ℕ → ℕ → ℕ → Checked ReplaceRange
replacement_range nodes start stop = elim (index_of start nodes) [
  | none ↦ throws (start_not_found start)
  | some i ↦ elim (index_of stop nodes) [
    | none ↦ throws (end_not_found stop)
    | some j ↦
        if ltb j i
        then throws (start_after_end start stop)
        else passes (record { start_idx = i; end_idx = j; shadowed_seqs = slice i (j + 1) nodes })
  ]
]

abbrev field_count : Fields → ℕ
field_count end = 0
field_count (field k v fs) = suc (field_count fs)

abbrev field_value : String → Fields → Option Json
field_value k end = none
field_value k (field name v fs) = if name == k then some v else field_value k fs

unfoldable mutual
  pub is_deep_equal_json : Json → Json → Bool
  is_deep_equal_json null null = true
  is_deep_equal_json (bool true) (bool b) = b
  is_deep_equal_json (bool false) (bool b) = not b
  is_deep_equal_json (num m) (num n) = nat_eq (written_bits m) (written_bits n)
  is_deep_equal_json (str s) (str t) = s == t
  is_deep_equal_json (arr xs) (arr ys) = every_item xs ys
  is_deep_equal_json (obj fs) (obj gs) =
      nat_eq (field_count fs) (field_count gs) && every_field fs gs
  is_deep_equal_json _ _ = false

  pub every_item : Items → Items → Bool
  every_item nil nil = true
  every_item (cons x xs) (cons y ys) = is_deep_equal_json x y && every_item xs ys
  every_item _ _ = false

  pub every_field : Fields → Fields → Bool
  every_field end gs = true
  every_field (field k v fs) gs =
      elim (field_value k gs) [ none ↦ false | some u ↦ is_deep_equal_json v u ]
      && every_field fs gs

-- The data with the block's content set to null.
abbrev pub without_content : ToolResult → Json
without_content t = obj (field "message" (message_of (record t { content = null })) t.data_rest)

abbrev pub nth : ℕ → List SessionEvent → Option SessionEvent
nth i [] = none
nth zero (e ∷ es) = some e
nth (suc i) (e ∷ es) = nth i es

-- `events[seq - baseSeq]`
abbrev pub event_at : ℕ → ℕ → List SessionEvent → Option SessionEvent
event_at base seq events = if ltb seq base then none else nth (seq - base) events

unfoldable pub assert_same_rest : ToolResult → Option SessionEvent → Checked Done
unfolding is_deep_equal_json
assert_same_rest t none = throws rewrite_not_tool_result
assert_same_rest t (some e) = elim e.body [
  | tool_result o ↦
      if is_deep_equal_json (without_content o) (without_content t)
      then passes tt
      else throws rewrite_not_content
  | _ ↦ throws rewrite_not_tool_result
]

unfoldable pub assert_tool_result_rewrite : Body → List ℕ → List SessionEvent → ℕ → Checked Done
unfolding assert_same_rest
assert_tool_result_rewrite (tool_result t) (seq ∷ []) events base =
    assert_same_rest t (event_at base seq events)
assert_tool_result_rewrite (tool_result t) _ events base = throws rewrite_not_single
assert_tool_result_rewrite _ shadowed events base = passes tt

unfoldable pub plan_surface_event :
    SurfaceFoldState → SessionEvent → ℕ → List SessionEvent → ℕ → Checked (Option SurfacePlan)
unfolding surface_op_of
plan_surface_event s e expected events base =
    if not (nat_eq e.seq expected) then throws (not_contiguous e.seq expected) else do
      op ← surface_op_of e
      elim op [
        | none ↦ passes none
        | some append_op ↦ do _ ← assert_provenance e []; passes (some (append_plan e.seq))
        | some (replace_op start stop) ↦ do
          range ← replacement_range s.nodes start stop
          _ ← assert_provenance e range.shadowed_seqs
          _ ← assert_tool_result_rewrite e.body range.shadowed_seqs events base
          passes (some (replace_plan e.seq start stop range))
      ]

abbrev pub apply_surface_plan :
    SurfaceFoldState → Option SurfacePlan → SurfaceFoldState × Option SurfaceFoldReplacement
apply_surface_plan s none = (s, none)
apply_surface_plan s (some (append_plan seq)) = (record s { nodes = s.nodes ++ seq ∷ [] }, none)
apply_surface_plan s (some (replace_plan seq start stop r)) = (
  record s {
    nodes = splice r.start_idx ((r.end_idx - r.start_idx) + 1) seq s.nodes;
    replace_generation = s.replace_generation + 1;
  },
  some (record { seq = seq; start = start; stop = stop; shadowed_seqs = r.shadowed_seqs }),
)

unfoldable pub apply_surface_event :
    SurfaceFoldState
    → SessionEvent
    → ℕ
    → List SessionEvent
    → ℕ
    → Checked (SurfaceFoldState × Option SurfaceFoldReplacement)
unfolding plan_surface_event
apply_surface_event s e expected events base = do
  plan ← plan_surface_event s e expected events base
  passes (apply_surface_plan s plan)

abbrev pub push :
    Option SurfaceFoldReplacement → List SurfaceFoldReplacement → List SurfaceFoldReplacement
push none rs = rs
push (some r) rs = rs ++ r ∷ []

-- The loop over the events from `index` on; `events` is the whole log.
unfoldable pub fold_from :
    List SessionEvent
    → ℕ
    → List SessionEvent
    → SurfaceFoldState
    → List SurfaceFoldReplacement
    → Checked (SurfaceFoldState × List SurfaceFoldReplacement)
fold_from events index [] s rs = passes (s, rs)
fold_from events index (e ∷ es) s rs = elim (apply_surface_event s e index events 0) [
  | throws x ↦ throws x
  | passes (s', r) ↦ fold_from events (suc index) es s' (push r rs)
]

pub record SurfaceFoldResult : Type 0 where
  pub nodes : List ℕ
  pub replacements : List SurfaceFoldReplacement

unfoldable pub fold_surface : List SessionEvent → Checked SurfaceFoldResult
unfolding fold_from
fold_surface events = elim (fold_from events 0 events create_fold_state []) [
  | throws x ↦ throws x
  | passes (s, rs) ↦ passes (record { nodes = s.nodes; replacements = rs })
]
