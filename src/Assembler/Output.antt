-- ===== src/Assembler/Output.antt =====
-- What an assembler gives out: its blocks, its replay metadata, and an interrupted prefix.
use rigo.Base.{
  ℕ, String, Bool, true, false, not, List, [], ◌∷◌, ◌++◌, Option, some, none, ◌==◌, ◌&&◌, ◌||◌,
  nat_eq, leb, length, option_or, if◌then◌else◌,
}
use Prim.Native.Char.{code}
use rigo.Assembler.{
  CallId, ContentBlock, type_of, FinishReason, ReplayEnvelope, PartialBlock, BlockAssembler,
  find_partial, provided, call_at, text_block, reasoning_block, tool_call_block, stop, max_tokens,
}

-- What a reading gives, or the error that it throws.
pub data Reading {ℓ} (A : Type ℓ) : Type ℓ where
  reads : A → Reading A
  no_partial : ℕ → Reading A
  incomplete : String → Reading A

infixl 5 ◌>>=◌
abbrev pub ◌>>=◌ {ℓ κ} : {A : Type ℓ} {B : Type κ} → Reading A → (A → Reading B) → Reading B
reads a >>= f = f a
no_partial i >>= f = no_partial i
incomplete type >>= f = incomplete type

abbrev pub call_id : ℕ → Option String → CallId
call_id i none = call_at i
call_id i (some id) = provided id

abbrev pub assemble_open : PartialBlock → ℕ → Reading ContentBlock
assemble_open p i =
    if p.block_type == "text"
    then reads (text_block p.text)
    else if p.block_type == "reasoning"
    then reads (reasoning_block p.text)
    else if p.block_type == "tool-call"
    then reads (
        tool_call_block (record {
          id = call_id i p.tool_call_id;
          name = option_or p.tool_call_name "";
          arguments = p.tool_call_arguments;
        }))
    else incomplete p.block_type

abbrev pub assemble : PartialBlock → ℕ → Reading ContentBlock
assemble p i = elim p.block [ some b ↦ reads b | none ↦ assemble_open p i ]

-- `assemble` of `mustGet`.
abbrev pub assemble_at : Option PartialBlock → ℕ → Reading ContentBlock
assemble_at none i = no_partial i
assemble_at (some p) i = assemble p i

unfoldable pub assemble_all : List ℕ → List (ℕ × PartialBlock) → Reading (List ContentBlock)
assemble_all [] ps = reads []
assemble_all (i ∷ is) ps = do
  b ← assemble_at (find_partial i ps) i
  bs ← assemble_all is ps
  reads (b ∷ bs)

abbrev pub is_max_tokens : FinishReason → Bool
is_max_tokens max_tokens = true
is_max_tokens _ = false

abbrev pub is_tool_call : ContentBlock → Bool
is_tool_call b = type_of b == "tool-call"

-- The getter `finish`.
abbrev pub finish_of : BlockAssembler → FinishReason
finish_of a = option_or a.finish stop

-- Which positions are kept: all of them when the array is undefined.
abbrev pub kept_at : List ContentBlock → List Bool
kept_at [] = []
kept_at (b ∷ bs) = not (is_tool_call b) ∷ kept_at bs

-- `filter` by the flags at the same positions.
abbrev pub filter_kept {ℓ} : {A : Type ℓ} → List Bool → List A → List A
filter_kept (true ∷ flags) (x ∷ xs) = x ∷ filter_kept flags xs
filter_kept (false ∷ flags) (x ∷ xs) = filter_kept flags xs
filter_kept _ _ = []

pub record Assembled : Type 0 where
  pub blocks : List ContentBlock
  pub replay : Option ReplayEnvelope

-- The envelope's entries, in step with the blocks.
abbrev pub prune_replay :
    Option (List Bool)
    → List ContentBlock
    → List ContentBlock
    → Option ReplayEnvelope
    → Option ReplayEnvelope
prune_replay kept all blocks none = none
prune_replay kept all blocks (some envelope) = elim envelope.blocks [
  | none ↦ some envelope
  | some entries ↦ if not (nat_eq (length entries) (length all)) then none else elim kept [
    | none ↦ some envelope
    | some flags ↦
        if nat_eq (length blocks) (length all)
        then some envelope
        else some (record envelope { blocks = some (filter_kept flags entries) })
  ]
]

abbrev pub keep_blocks : Option (List Bool) → List ContentBlock → List ContentBlock
keep_blocks none all = all
keep_blocks (some flags) all = filter_kept flags all

abbrev pub assembled_of : Option (List Bool) → List ContentBlock → Option ReplayEnvelope → Assembled
assembled_of kept all envelope = record {
  blocks = keep_blocks kept all;
  replay = prune_replay kept all (keep_blocks kept all) envelope;
}

unfoldable pub assembled : BlockAssembler → Reading Assembled
unfolding assemble_all
assembled a = assemble_all a.order a.partials >>= λ all. reads (
    assembled_of (if is_max_tokens (finish_of a) then some (kept_at all) else none) all
      a.replay_state)

unfoldable pub blocks : BlockAssembler → Reading (List ContentBlock)
unfolding assembled
blocks a = assembled a >>= λ both. reads both.blocks

unfoldable pub replay_state : BlockAssembler → Reading (Option ReplayEnvelope)
unfolding assembled
replay_state a = assembled a >>= λ both. reads both.replay

-- What `trim` cuts off: white space and line ends.
abbrev pub is_white : ℕ → Bool
is_white c =
    (leb 9 c && leb c 13)
    || nat_eq c 32
    || nat_eq c 160
    || nat_eq c 5760
    || (leb 8192 c && leb c 8202)
    || nat_eq c 8232
    || nat_eq c 8233
    || nat_eq c 8239
    || nat_eq c 8287
    || nat_eq c 12288
    || nat_eq c 65279

-- `text.trim() === ''`
abbrev pub is_blank : String → Bool
is_blank String.[] = true
is_blank (String.◌∷◌ c s) = is_white (code c) && is_blank s

abbrev pub has_content : ContentBlock → Bool
has_content (text_block t) = not (is_blank t)
has_content (reasoning_block t) = not (is_blank t)
has_content _ = false

abbrev pub partial_type : PartialBlock → String
partial_type p = elim p.block [ some b ↦ type_of b | none ↦ p.block_type ]

abbrev pub interrupted_at : Option PartialBlock → ℕ → Reading (List ContentBlock)
interrupted_at none i = no_partial i
interrupted_at (some p) i =
    if (partial_type p == "text") || (partial_type p == "reasoning")
    then (assemble p i >>= λ b. reads (if has_content b then b ∷ [] else []))
    else reads []

unfoldable pub interrupted_from : List ℕ → List (ℕ × PartialBlock) → Reading (List ContentBlock)
interrupted_from [] ps = reads []
interrupted_from (i ∷ is) ps = do
  bs ← interrupted_at (find_partial i ps) i
  cs ← interrupted_from is ps
  reads (bs ++ cs)

unfoldable pub interrupted_blocks : BlockAssembler → Reading (List ContentBlock)
unfolding interrupted_from
interrupted_blocks a = interrupted_from a.order a.partials
