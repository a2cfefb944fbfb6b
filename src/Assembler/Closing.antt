-- ===== src/Assembler/Closing.antt =====
-- What later chunks leave of a block.
use rigo.Base.{
  ℕ, String, Bool, true, false, List, [], ◌∷◌, Option, some, none, ◌≡◌, refl, sym, ap, ◌∙◌, arith,
  eq_iff, ◌==◌, nat_eq, if◌then◌else◌, Bool-cases, inl, inr,
}
use Prim.Native.String
use text.Mathlib.TextLemmas.{append-nil, append_assoc}
use rigo.Assembler.{
  ContentBlock, StreamChunk, block_start, text_delta, reasoning_delta, tool_call_delta, block_end,
  usage, finish, PartialBlock, BlockAssembler, find_partial, push_all, add_text, add_call,
  text_block,
}
use rigo.Assembler.Output.{reads, assemble_at}
use rigo.Assembler.Streams.{addressed, feed_asked, feed, described, push_all-find_partial}

feed_asked-closed :
    (i : ℕ) (asked : Option (ℕ × String × (PartialBlock → PartialBlock))) (p : PartialBlock)
    (b : ContentBlock)
    → p.block ≡ some b
    → feed_asked i asked (some p) ≡ some p
feed_asked-closed i none p b closed = refl
feed_asked-closed i (some (j, block_type, f)) p b closed = ground (arith, closed)

described-closed :
    (i : ℕ) (cs : List StreamChunk) (p : PartialBlock) (b : ContentBlock)
    → p.block ≡ some b
    → described i cs (some p) ≡ some p
described-closed i [] p b closed = refl
described-closed i (c ∷ cs) p b closed =
    ap (described i cs) (feed_asked-closed i (addressed c) p b closed)
    ∙ described-closed i cs p b closed

-- Once a block is closed, no further chunk changes it: deltas and further ends for its index are
-- ignored.
pub push_all-closed :
    (i : ℕ) (cs : List StreamChunk) (a : BlockAssembler) (p : PartialBlock) (b : ContentBlock)
    → find_partial i a.partials ≡ some p
    → p.block ≡ some b
    → find_partial i (push_all cs a).partials ≡ some p
push_all-closed i cs a p b here closed =
    push_all-find_partial i cs a ∙ ap (described i cs) here ∙ described-closed i cs p b closed

-- The texts that a chunk adds to a block, and whether it ends it.
abbrev pub texts_for : ℕ → List StreamChunk → String
texts_for i [] = ""
texts_for i (text_delta j t ∷ cs) =
    let rest = texts_for i cs in if nat_eq j i then String.◌++◌ t rest else rest
texts_for i (reasoning_delta j t ∷ cs) =
    let rest = texts_for i cs in if nat_eq j i then String.◌++◌ t rest else rest
texts_for i (_ ∷ cs) = texts_for i cs

abbrev pub ends : ℕ → List StreamChunk → Bool
ends i [] = false
ends i (block_end j b ∷ cs) = let rest = ends i cs in if nat_eq j i then true else rest
ends i (_ ∷ cs) = ends i cs

-- What the chunks add to an open block that they do not end.
abbrev Adds : ℕ → List StreamChunk → PartialBlock → Type 0
Adds i cs p =
    (q : PartialBlock) × (described i cs (some p) ≡ some q)
    × (q.text ≡ String.◌++◌ p.text (texts_for i cs))
    × (q.block ≡ none)
    × (q.block_type ≡ p.block_type)

-- The first chunk adds a text, and the others the rest.
Adds-text :
    (i : ℕ) (c : StreamChunk) (cs : List StreamChunk) (p r : PartialBlock) (t : String)
    → feed i c (some p) ≡ some r
    → r.text ≡ String.◌++◌ p.text t
    → r.block_type ≡ p.block_type
    → texts_for i (c ∷ cs) ≡ String.◌++◌ t (texts_for i cs)
    → Adds i cs r
    → Adds i (c ∷ cs) p
Adds-text i c cs p r t fed added kind texts (q, reached, rest, still, kinds) = (
  q,
  ap (described i cs) fed ∙ reached,
  rest
      ∙ ap (λ s. String.◌++◌ s (texts_for i cs)) added
      ∙ append_assoc p.text t (texts_for i cs)
      ∙ ap (String.◌++◌ p.text) (sym texts),
  still,
  kinds ∙ kind,
)

-- The first chunk leaves the text.
Adds-other :
    (i : ℕ) (c : StreamChunk) (cs : List StreamChunk) (p r : PartialBlock)
    → feed i c (some p) ≡ some r
    → r.text ≡ p.text
    → r.block_type ≡ p.block_type
    → texts_for i (c ∷ cs) ≡ texts_for i cs
    → Adds i cs r
    → Adds i (c ∷ cs) p
Adds-other i c cs p r fed same kind texts (q, reached, rest, still, kinds) = (
  q,
  ap (described i cs) fed ∙ reached,
  rest ∙ ap (λ s. String.◌++◌ s (texts_for i cs)) same ∙ ap (String.◌++◌ p.text) (sym texts),
  still,
  kinds ∙ kind,
)

described-Adds :
    (i : ℕ) (cs : List StreamChunk) (p : PartialBlock)
    → p.block ≡ none
    → ends i cs ≡ false
    → Adds i cs p
described-Adds i [] p opened unended = (p, refl, sym (append-nil p.text), opened, refl)
described-Adds i (text_delta j t ∷ cs) p opened unended = elim (Bool-cases (nat_eq j i)) [
  | inl same ↦
      Adds-text i (text_delta j t) cs p (add_text t p) t (ground (arith, same, opened)) refl refl
        (ground (arith, same)) (described-Adds i cs (add_text t p) opened unended)
  | inr other ↦
      Adds-other i (text_delta j t) cs p p (ground (arith, other)) refl refl (ground (arith, other))
        (described-Adds i cs p opened unended)
]
described-Adds i (reasoning_delta j t ∷ cs) p opened unended = elim (Bool-cases (nat_eq j i)) [
  | inl same ↦
      Adds-text i (reasoning_delta j t) cs p (add_text t p) t (ground (arith, same, opened)) refl
        refl (ground (arith, same)) (described-Adds i cs (add_text t p) opened unended)
  | inr other ↦
      Adds-other i (reasoning_delta j t) cs p p (ground (arith, other)) refl refl
        (ground (arith, other)) (described-Adds i cs p opened unended)
]
described-Adds i (tool_call_delta j c ∷ cs) p opened unended = elim (Bool-cases (nat_eq j i)) [
  | inl same ↦
      Adds-other i (tool_call_delta j c) cs p (add_call c p) (ground (arith, same, opened)) refl
        refl refl (described-Adds i cs (add_call c p) opened unended)
  | inr other ↦
      Adds-other i (tool_call_delta j c) cs p p (ground (arith, other)) refl refl refl
        (described-Adds i cs p opened unended)
]
described-Adds i (block_end j b ∷ cs) p opened unended = elim (Bool-cases (nat_eq j i)) [
  | inl same ↦ ground (arith, same, unended)
  | inr other ↦
      Adds-other i (block_end j b) cs p p (ground (arith, other)) refl refl refl
        (described-Adds i cs p opened (ground (arith, other, unended)))
]
described-Adds i (block_start j block_type ∷ cs) p opened unended =
    Adds-other i (block_start j block_type) cs p p (ground (arith, opened)) refl refl refl
      (described-Adds i cs p opened unended)
described-Adds i (usage u ∷ cs) p opened unended = described-Adds i cs p opened unended
described-Adds i (finish reason envelope ∷ cs) p opened unended =
    described-Adds i cs p opened unended

-- A text block that is not ended assembles to its text so far and the texts of its later deltas,
-- in the order of the stream.
pub push_all-assembles_text :
    (i : ℕ) (cs : List StreamChunk) (a : BlockAssembler) (p : PartialBlock)
    → find_partial i a.partials ≡ some p
    → p.block ≡ none
    → p.block_type ≡ "text"
    → ends i cs ≡ false
    → assemble_at (find_partial i (push_all cs a).partials) i
      ≡ reads (text_block (String.◌++◌ p.text (texts_for i cs)))
push_all-assembles_text i cs a p here opened kind unended =
    let (q, reached, texts, still, kinds) = described-Adds i cs p opened unended in
    let found = push_all-find_partial i cs a ∙ ap (described i cs) here ∙ reached in
    let typed : q.block_type ≡ "text" = kinds ∙ kind in
    let named : (q.block_type == "text") ≡ true = (eq_iff q.block_type "text").1 typed in
    ground (arith, found, still, named, texts)
