-- ===== src/ChunkRows/Classify.antt =====
-- `classify`: which events may be packed.
use rigo.Base.{ℕ, String, Bool, true, false, [], ◌∷◌, Option, some, none, ◌==◌, if◌then◌else◌}
use rigo.Base.Int.{ℤ}
use rigo.ChunkRows.Values.{
  Number, Value, object, Members, get, has_exact_keys, as_text, as_number, as_object, as_safe,
  as_seq,
}

-- `name` is there exactly when the chunk carries it.
pub record ToolCall : Type 0 where
  pub id : String
  pub name : Option String

pub data DeltaKind : Type 0 where
  text_delta reasoning_delta : DeltaKind
  tool_call_delta : ToolCall → DeltaKind

-- What a whitelisted event holds.
pub record Delta : Type 0 where
  pub seq : ℕ
  pub time : ℤ
  pub turn : Number
  pub step : Number
  pub index : Number
  pub kind : DeltaKind
  pub fragment : String

infixl 5 ◌>>=◌
abbrev pub ◌>>=◌ {ℓ κ} : {A : Type ℓ} {B : Type κ} → Option A → (A → Option B) → Option B
none >>= f = none
some a >>= f = f a

abbrev pub guard : {A : Type 0} → Bool → Option A → Option A
guard true a = a
guard false a = none

abbrev pub call_fragment : Option String → Members → Option (DeltaKind × String)
call_fragment name chunk = do
  id ← as_text (get "id" chunk)
  fragment ← as_text (get "argumentsDelta" chunk)
  some (tool_call_delta (record { id = id; name = name }), fragment)

abbrev pub named_fragment : Members → Option (DeltaKind × String)
named_fragment chunk = do name ← as_text (get "name" chunk); call_fragment (some name) chunk

abbrev pub classify_call : Members → Option (DeltaKind × String)
classify_call chunk =
    if has_exact_keys ("type" ∷ "index" ∷ "id" ∷ "argumentsDelta" ∷ []) chunk
    then call_fragment none chunk
    else guard (has_exact_keys ("type" ∷ "index" ∷ "id" ∷ "name" ∷ "argumentsDelta" ∷ []) chunk)
        (named_fragment chunk)

abbrev pub text_fragment : DeltaKind → Members → Option (DeltaKind × String)
text_fragment kind chunk = do fragment ← as_text (get "text" chunk); some (kind, fragment)

abbrev pub classify_text : DeltaKind → Members → Option (DeltaKind × String)
classify_text kind chunk =
    guard (has_exact_keys ("type" ∷ "index" ∷ "text" ∷ []) chunk) (text_fragment kind chunk)

-- The switch over the chunk's type.
abbrev pub classify_type : String → Members → Option (DeltaKind × String)
classify_type type chunk =
    if type == "text-delta"
    then classify_text text_delta chunk
    else if type == "reasoning-delta"
    then classify_text reasoning_delta chunk
    else if type == "tool-call-delta"
    then classify_call chunk
    else none

abbrev pub classify_chunk : Members → Option (DeltaKind × String)
classify_chunk chunk = do type ← as_text (get "type" chunk); classify_type type chunk

abbrev pub classify_data : ℕ → ℤ → Members → Option Delta
classify_data seq time ms = do
  turn ← as_number (get "turn" ms)
  step ← as_number (get "step" ms)
  chunk ← as_object (get "chunk" ms)
  index ← as_number (get "index" chunk)
  (kind, fragment) ← classify_chunk chunk
  some (record {
    seq = seq;
    time = time;
    turn = turn;
    step = step;
    index = index;
    kind = kind;
    fragment = fragment;
  })

abbrev pub classify_members : Members → Option Delta
classify_members ms = do
  seq ← as_seq (get "seq" ms)
  time ← as_safe (get "time" ms)
  run_data ← as_object (get "data" ms)
  guard (has_exact_keys ("turn" ∷ "step" ∷ "chunk" ∷ []) run_data) (classify_data seq time run_data)

abbrev pub is_text : String → Option String → Bool
is_text t none = false
is_text t (some u) = u == t

unfoldable pub classify : Value → Option Delta
classify (object ms) =
    guard (is_text "assistant/chunk" (as_text (get "type" ms)))
      (guard (has_exact_keys ("type" ∷ "seq" ∷ "time" ∷ "data" ∷ []) ms) (classify_members ms))
classify _ = none
