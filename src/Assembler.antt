-- ===== src/Assembler.antt =====
-- The assembly of a stream's chunks into a message: packages/harness/llm/src/assembler.ts. A map
-- from index to partial block is a list of entries; the text `call-N` of a call without an id is
-- told by its index; the payload of a block that the assembler does not read is a JSON value.
pub mod Output
pub mod Streams
pub mod Closing
pub mod Finding
pub mod Replays
pub mod Tests
use rigo.Base.{
  ℕ, ◌+◌, String, Bool, true, false, not, List, [], ◌∷◌, ◌++◌, Option, some, none, ◌==◌, ◌&&◌, ◌||◌,
  nat_eq, leb, length, is_some, option_or, if◌then◌else◌,
}
use rigo.Json.{Json}
use Prim.Native.Char.{code}
use Prim.Native.String

pub data CallId : Type 0 where
  provided : String → CallId
  call_at : ℕ → CallId

pub record ToolCallBlock : Type 0 where
  pub id : CallId
  pub name : String
  pub arguments : String

pub data ContentBlock : Type 0 where
  text_block reasoning_block : String → ContentBlock
  tool_call_block : ToolCallBlock → ContentBlock
  other_block : String → Json → ContentBlock

-- A block's type; an `other_block` is one of none of the three that the assembler builds.
abbrev pub type_of : ContentBlock → String
type_of (text_block t) = "text"
type_of (reasoning_block t) = "reasoning"
type_of (tool_call_block c) = "tool-call"
type_of (other_block type payload) = type

pub data FinishReason : Type 0 where
  stop tool_calls max_tokens : FinishReason
  failed : String → Json → FinishReason

pub record TokenUsage : Type 0 where
  pub input_tokens : ℕ
  pub output_tokens : ℕ
  pub cache_read_tokens : Option ℕ
  pub cache_write_tokens : Option ℕ
  pub reasoning_tokens : Option ℕ

pub record ReplayEnvelope : Type 0 where
  pub response : Json
  pub blocks : Option (List Json)

pub record ToolCallDelta : Type 0 where
  pub id : String
  pub name : Option String
  pub arguments : String

pub data StreamChunk : Type 0 where
  block_start : ℕ → String → StreamChunk
  text_delta reasoning_delta : ℕ → String → StreamChunk
  tool_call_delta : ℕ → ToolCallDelta → StreamChunk
  block_end : ℕ → ContentBlock → StreamChunk
  usage : TokenUsage → StreamChunk
  finish : FinishReason → Option ReplayEnvelope → StreamChunk

pub record PartialBlock : Type 0 where
  pub block_type : String
  pub text : String
  pub tool_call_id : Option String
  pub tool_call_name : Option String
  pub tool_call_arguments : String
  pub block : Option ContentBlock

pub record BlockAssembler : Type 0 where
  pub partials : List (ℕ × PartialBlock)
  pub order : List ℕ
  pub usage : Option TokenUsage
  pub finish : Option FinishReason
  pub replay_state : Option ReplayEnvelope

abbrev pub new_assembler : BlockAssembler
new_assembler = record {
  partials = [];
  order = [];
  usage = none;
  finish = none;
  replay_state = none;
}

abbrev pub new_partial : String → PartialBlock
new_partial block_type = record {
  block_type = block_type;
  text = "";
  tool_call_id = none;
  tool_call_name = none;
  tool_call_arguments = "";
  block = none;
}

-- `partials.get`
abbrev pub find_partial : ℕ → List (ℕ × PartialBlock) → Option PartialBlock
find_partial i [] = none
find_partial i (entry ∷ ps) =
    let rest = find_partial i ps in if nat_eq entry.0 i then some entry.1 else rest

abbrev pub update_partial :
    (PartialBlock → PartialBlock) → ℕ → List (ℕ × PartialBlock) → List (ℕ × PartialBlock)
update_partial f i [] = []
update_partial f i (entry ∷ ps) =
    let rest = update_partial f i ps in
    (if nat_eq entry.0 i then (entry.0, f entry.1) else entry) ∷ rest

-- `ensure`
abbrev pub ensure : ℕ → String → BlockAssembler → BlockAssembler
ensure i block_type a = if is_some (find_partial i a.partials) then a else record a {
  partials = a.partials ++ (i, new_partial block_type) ∷ [];
  order = a.order ++ i ∷ [];
}

abbrev pub name_given : Option String → Option String → Option String
name_given none kept = kept
name_given (some name) kept = if name == "" then kept else some name

-- A closed block ignores what comes later.
abbrev pub while_open : (PartialBlock → PartialBlock) → PartialBlock → PartialBlock
while_open f p = if is_some p.block then p else f p

abbrev pub add_text : String → PartialBlock → PartialBlock
add_text t p = record p { text = String.◌++◌ p.text t }

abbrev pub add_call : ToolCallDelta → PartialBlock → PartialBlock
add_call c p = record p {
  tool_call_id = some c.id;
  tool_call_name = name_given c.name p.tool_call_name;
  tool_call_arguments = String.◌++◌ p.tool_call_arguments c.arguments;
}

abbrev pub close_block : ContentBlock → PartialBlock → PartialBlock
close_block b p = record p { block = some b }

abbrev pub on_block : ℕ → String → (PartialBlock → PartialBlock) → BlockAssembler → BlockAssembler
on_block i block_type f a =
    let b = ensure i block_type a in
    record b { partials = update_partial (while_open f) i b.partials }

unfoldable pub push : StreamChunk → BlockAssembler → BlockAssembler
push (block_start i block_type) a = ensure i block_type a
push (text_delta i t) a = on_block i "text" (add_text t) a
push (reasoning_delta i t) a = on_block i "reasoning" (add_text t) a
push (tool_call_delta i c) a = on_block i "tool-call" (add_call c) a
push (block_end i b) a = on_block i (type_of b) (close_block b) a
push (usage u) a = record a { usage = some u }
push (finish reason envelope) a = record a { finish = some reason; replay_state = envelope }

unfoldable pub push_all : List StreamChunk → BlockAssembler → BlockAssembler
unfolding push
push_all [] a = a
push_all (c ∷ cs) a = push_all cs (push c a)
