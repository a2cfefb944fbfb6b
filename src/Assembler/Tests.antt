-- ===== src/Assembler/Tests.antt =====
-- Streams, assembled.
use rigo.Base.{String, List, [], ◌∷◌, some, ◌≡◌, refl}
use rigo.Json.{Json, str}
use rigo.Assembler.{
  provided, text_block, reasoning_block, tool_call_block, max_tokens, StreamChunk, block_start,
  text_delta, reasoning_delta, tool_call_delta, block_end, finish, PartialBlock, BlockAssembler,
  new_assembler, new_partial, find_partial, push, push_all,
}
use rigo.Assembler.Output.{
  reads, no_partial, assemble_at, assemble_all, Assembled, assembled, finish_of, interrupted_blocks,
  blocks, incomplete,
}
use rigo.Assembler.Streams.{assemble_each, push_all-assemble_each}
use rigo.Assembler.Closing.{push_all-closed, push_all-assembles_text}
use rigo.Assembler.Finding.{push_all-finds_all}
use rigo.Assembler.Replays.{IsAligned, HasNoCalls, assembled-IsAligned}

abbrev call_part : String → StreamChunk
call_part text = tool_call_delta 1 (record { id = "c1"; name = some "read"; arguments = text })

-- Two blocks that are interleaved, and a third that is closed.
abbrev interleaved : List StreamChunk
interleaved =
    text_delta 2 "he"
    ∷ call_part "{"
    ∷ text_delta 2 "llo"
    ∷ call_part "}"
    ∷ block_end 0 (reasoning_block "so")
    ∷ reasoning_delta 0 "late"
    ∷ []

abbrev both_entries : List Json
both_entries = str "a" ∷ str "b" ∷ str "c" ∷ []

abbrev cut_short : BlockAssembler
cut_short =
    push (finish max_tokens (some (record { response = str "r"; blocks = some both_entries })))
      (push_all interleaved new_assembler)

abbrev kept : Assembled
kept = record {
  blocks = text_block "hello" ∷ reasoning_block "so" ∷ [];
  replay = some (record { response = str "r"; blocks = some (str "a" ∷ str "c" ∷ []) });
}

blocks_interleaved :
    blocks (push_all interleaved new_assembler)
    ≡ reads (
        text_block "hello"
        ∷ tool_call_block (record { id = provided "c1"; name = "read"; arguments = "{}" })
        ∷ reasoning_block "so"
        ∷ [])
unfolding blocks push_all
blocks_interleaved = refl

-- An image that was opened and never closed.
blocks_open_image :
    blocks (push_all (block_start 0 "image" ∷ []) new_assembler) ≡ incomplete "image"
unfolding blocks push_all
blocks_open_image = refl

interrupted_without_calls :
    interrupted_blocks (push_all (text_delta 3 " " ∷ interleaved) new_assembler)
    ≡ reads (text_block "hello" ∷ reasoning_block "so" ∷ [])
unfolding interrupted_blocks push_all
interrupted_without_calls = refl

cut_short-kept : assembled cut_short ≡ reads kept
unfolding assembled push_all
cut_short-kept = refl

abbrev closed_partial : PartialBlock
closed_partial = record (new_partial "text") { text = "x"; block = some (text_block "y") }

abbrev with_closed : BlockAssembler
with_closed = record new_assembler { partials = (4, closed_partial) ∷ []; order = 4 ∷ [] }

abbrev with_open : BlockAssembler
with_open = record new_assembler { partials = (2, new_partial "text") ∷ []; order = 2 ∷ [] }

push_all-assemble_each_example :
    assemble_all
      (push_all interleaved new_assembler).order
      (push_all interleaved new_assembler).partials
    ≡ assemble_each interleaved (2 ∷ 1 ∷ 0 ∷ [])
push_all-assemble_each_example = push_all-assemble_each interleaved

push_all-closed_example :
    find_partial 4
      (push_all
        (text_delta 4 "z" ∷ block_end 4 (text_block "w") ∷ interleaved)
        with_closed).partials
    ≡ some closed_partial
push_all-closed_example =
    push_all-closed 4 (text_delta 4 "z" ∷ block_end 4 (text_block "w") ∷ interleaved) with_closed
      closed_partial (text_block "y") refl refl

push_all-assembles_text_example :
    assemble_at (find_partial 2 (push_all interleaved with_open).partials) 2
    ≡ reads (text_block "hello")
push_all-assembles_text_example =
    push_all-assembles_text 2 interleaved with_open (new_partial "text") refl refl refl refl

push_all-finds_all_example : ¬ (assembled (push_all interleaved new_assembler) ≡ no_partial 1)
push_all-finds_all_example = push_all-finds_all interleaved 1

assembled-IsAligned_example :
    IsAligned kept × (finish_of cut_short ≡ max_tokens → HasNoCalls kept.blocks)
assembled-IsAligned_example = assembled-IsAligned cut_short kept cut_short-kept
