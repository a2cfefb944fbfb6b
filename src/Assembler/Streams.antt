-- ===== src/Assembler/Streams.antt =====
-- What a stream comes to, told from each block's own chunks.
use rigo.Base.{
  ℕ, String, Bool, true, false, List, [], ◌∷◌, ◌++◌, Option, some, none, ◌≡◌, refl, sym, ap, ◌∙◌,
  arith, nat_eq, is_some, option_or, if◌then◌else◌, Bool-cases, Option-cases, inl, inr,
}
use rigo.Assembler.{
  ContentBlock, type_of, StreamChunk, block_start, text_delta, reasoning_delta, tool_call_delta,
  block_end, usage, finish, PartialBlock, BlockAssembler, new_assembler, new_partial, find_partial,
  update_partial, ensure, while_open, add_text, add_call, close_block, on_block, push, push_all,
}
use rigo.Assembler.Output.{Reading, reads, ◌>>=◌, assemble_at, assemble_all}

-- What a chunk asks of a block: its index, its type should it be new, and the change.
abbrev pub addressed : StreamChunk → Option (ℕ × String × (PartialBlock → PartialBlock))
addressed (block_start i block_type) = some (i, block_type, λ p. p)
addressed (text_delta i t) = some (i, "text", add_text t)
addressed (reasoning_delta i t) = some (i, "reasoning", add_text t)
addressed (tool_call_delta i c) = some (i, "tool-call", add_call c)
addressed (block_end i b) = some (i, type_of b, close_block b)
addressed _ = none

-- One block after what a chunk asks.
abbrev pub feed_asked :
    ℕ
    → Option (ℕ × String × (PartialBlock → PartialBlock))
    → Option PartialBlock
    → Option PartialBlock
feed_asked i none p = p
feed_asked i (some (j, block_type, f)) p =
    if nat_eq j i then some (while_open f (option_or p (new_partial block_type))) else p

abbrev pub feed : ℕ → StreamChunk → Option PartialBlock → Option PartialBlock
feed i c p = feed_asked i (addressed c) p

-- One block after the chunks, whatever other blocks the stream interleaves.
abbrev pub described : ℕ → List StreamChunk → Option PartialBlock → Option PartialBlock
described i [] p = p
described i (c ∷ cs) p = described i cs (feed i c p)

abbrev pub has_index : ℕ → List ℕ → Bool
has_index i [] = false
has_index i (j ∷ js) = if nat_eq j i then true else has_index i js

abbrev pub add_new : Option (ℕ × String × (PartialBlock → PartialBlock)) → List ℕ → List ℕ
add_new none seen = seen
add_new (some (i, block_type, f)) seen = if has_index i seen then seen else seen ++ i ∷ []

-- The indexes in the order in which they are first addressed.
abbrev pub first_seen : List ℕ → List StreamChunk → List ℕ
first_seen seen [] = seen
first_seen seen (c ∷ cs) = first_seen (add_new (addressed c) seen) cs

abbrev pub assemble_each : List StreamChunk → List ℕ → Reading (List ContentBlock)
assemble_each cs [] = reads []
assemble_each cs (i ∷ is) = do
  b ← assemble_at (described i cs none) i
  bs ← assemble_each cs is
  reads (b ∷ bs)

find_partial-append :
    (i j : ℕ) (p : PartialBlock) (ps : List (ℕ × PartialBlock))
    → find_partial i (ps ++ (j, p) ∷ [])
      ≡ elim (find_partial i ps) [ some q ↦ some q | none ↦ if nat_eq j i then some p else none ]
find_partial-append i j p [] = refl
find_partial-append i j p (entry ∷ ps) = ground (arith, find_partial-append i j p ps)

find_partial-update_partial :
    (f : PartialBlock → PartialBlock) (i j : ℕ) (ps : List (ℕ × PartialBlock))
    → find_partial i (update_partial f j ps)
      ≡ elim (find_partial i ps) [ some q ↦ some (if nat_eq j i then f q else q) | none ↦ none ]
find_partial-update_partial f i j [] = refl
find_partial-update_partial f i j (entry ∷ ps) =
    ground (arith, find_partial-update_partial f i j ps)

ensure-find_partial :
    (i j : ℕ) (block_type : String) (a : BlockAssembler)
    → find_partial i (ensure j block_type a).partials ≡ (
        if nat_eq j i
        then some (option_or (find_partial i a.partials) (new_partial block_type))
        else find_partial i a.partials)
ensure-find_partial i j block_type a = elim (Option-cases (find_partial j a.partials)) [
  | inl absent ↦ elim (Bool-cases (nat_eq j i)) [
    | inl same ↦
        let index : j ≡ i = ground (arith, same) in
        let absent_here = ap (λ k. find_partial k a.partials) (sym index) ∙ absent in
        ground (
          arith,
          absent,
          absent_here,
          same,
          find_partial-append i j (new_partial block_type) a.partials,
        )
    | inr other ↦ elim (Option-cases (find_partial i a.partials)) [
      | inl out ↦
          ground
            (arith, absent, other, out, find_partial-append i j (new_partial block_type) a.partials)
      | inr (q, here) ↦
          ground (
            arith,
            absent,
            other,
            here,
            find_partial-append i j (new_partial block_type) a.partials,
          )
    ]
  ]
  | inr (p, there) ↦ elim (Bool-cases (nat_eq j i)) [
    | inl same ↦
        let index : j ≡ i = ground (arith, same) in
        let there_too = ap (λ k. find_partial k a.partials) (sym index) ∙ there in
        ground (arith, there, there_too, same)
    | inr other ↦ ground (arith, there, other)
  ]
]

on_block-find_partial :
    (i j : ℕ) (block_type : String) (f : PartialBlock → PartialBlock) (a : BlockAssembler)
    → find_partial i (on_block j block_type f a).partials ≡ (
        if nat_eq j i
        then some (while_open f (option_or (find_partial i a.partials) (new_partial block_type)))
        else find_partial i a.partials)
on_block-find_partial i j block_type f a =
    let made = ensure-find_partial i j block_type a in
    let updated = find_partial-update_partial (while_open f) i j (ensure j block_type a).partials in
    elim (Bool-cases (nat_eq j i)) [
      | inl same ↦ ground (arith, same, made, updated)
      | inr other ↦ elim (Option-cases (find_partial i a.partials)) [
        | inl out ↦ ground (arith, other, out, made, updated)
        | inr (q, here) ↦ ground (arith, other, here, made, updated)
      ]
    ]

while_open_same : (p : PartialBlock) → while_open (λ q. q) p ≡ p
while_open_same p = ground arith

-- A chunk changes the block that it addresses, and no other.
pub push-find_partial :
    (i : ℕ) (c : StreamChunk) (a : BlockAssembler)
    → find_partial i (push c a).partials ≡ feed i c (find_partial i a.partials)
unfolding push
push-find_partial i (block_start j block_type) a =
    ensure-find_partial i j block_type a
    ∙ ap (λ p. if nat_eq j i then some p else find_partial i a.partials)
        (sym (while_open_same (option_or (find_partial i a.partials) (new_partial block_type))))
push-find_partial i (text_delta j t) a = on_block-find_partial i j "text" (add_text t) a
push-find_partial i (reasoning_delta j t) a = on_block-find_partial i j "reasoning" (add_text t) a
push-find_partial i (tool_call_delta j c) a = on_block-find_partial i j "tool-call" (add_call c) a
push-find_partial i (block_end j b) a = on_block-find_partial i j (type_of b) (close_block b) a
push-find_partial i (usage u) a = refl
push-find_partial i (finish reason envelope) a = refl

pub push_all-find_partial :
    (i : ℕ) (cs : List StreamChunk) (a : BlockAssembler)
    → find_partial i (push_all cs a).partials ≡ described i cs (find_partial i a.partials)
unfolding push_all
push_all-find_partial i [] a = refl
push_all-find_partial i (c ∷ cs) a =
    push_all-find_partial i cs (push c a) ∙ ap (described i cs) (push-find_partial i c a)

-- The order lists the blocks that are there.
abbrev pub IsListed : BlockAssembler → Type 0
IsListed a = (i : ℕ) → is_some (find_partial i a.partials) ≡ has_index i a.order

has_index-append :
    (i j : ℕ) (is : List ℕ)
    → has_index i (is ++ j ∷ []) ≡ (if has_index i is then true else nat_eq j i)
has_index-append i j [] = ground arith
has_index-append i j (k ∷ is) = ground (arith, has_index-append i j is)

ensure-order :
    (j : ℕ) (block_type : String) (a : BlockAssembler)
    → IsListed a
    → (ensure j block_type a).order ≡ (if has_index j a.order then a.order else a.order ++ j ∷ [])
ensure-order j block_type a listed = elim (Option-cases (find_partial j a.partials)) [
  | inl absent ↦ ground (arith, absent, listed j)
  | inr (p, there) ↦ ground (arith, there, listed j)
]

push-order :
    (c : StreamChunk) (a : BlockAssembler)
    → IsListed a
    → (push c a).order ≡ add_new (addressed c) a.order
unfolding push
push-order (block_start j block_type) a listed = ensure-order j block_type a listed
push-order (text_delta j t) a listed = ensure-order j "text" a listed
push-order (reasoning_delta j t) a listed = ensure-order j "reasoning" a listed
push-order (tool_call_delta j c) a listed = ensure-order j "tool-call" a listed
push-order (block_end j b) a listed = ensure-order j (type_of b) a listed
push-order (usage u) a listed = refl
push-order (finish reason envelope) a listed = refl

feed_asked-add_new :
    (i : ℕ) (asked : Option (ℕ × String × (PartialBlock → PartialBlock))) (p : Option PartialBlock)
    (seen : List ℕ)
    → is_some p ≡ has_index i seen
    → is_some (feed_asked i asked p) ≡ has_index i (add_new asked seen)
feed_asked-add_new i none p seen agree = agree
feed_asked-add_new i (some (j, block_type, f)) p seen agree = elim (Bool-cases (nat_eq j i)) [
  | inl same ↦
      let index : j ≡ i = ground (arith, same) in
      let both = ap (λ k. has_index k seen) index in
      ground (arith, same, both, agree, has_index-append i j seen)
  | inr other ↦ ground (arith, other, agree, has_index-append i j seen)
]

push-IsListed : (c : StreamChunk) (a : BlockAssembler) → IsListed a → IsListed (push c a)
push-IsListed c a listed i =
    ap is_some (push-find_partial i c a)
    ∙ feed_asked-add_new i (addressed c) (find_partial i a.partials) a.order (listed i)
    ∙ ap (has_index i) (sym (push-order c a listed))

push_all-order :
    (cs : List StreamChunk) (a : BlockAssembler)
    → IsListed a
    → (push_all cs a).order ≡ first_seen a.order cs
unfolding push_all
push_all-order [] a listed = refl
push_all-order (c ∷ cs) a listed =
    push_all-order cs (push c a) (push-IsListed c a listed)
    ∙ ap (λ seen. first_seen seen cs) (push-order c a listed)

pub push_all-IsListed :
    (cs : List StreamChunk) (a : BlockAssembler) → IsListed a → IsListed (push_all cs a)
unfolding push_all
push_all-IsListed [] a listed = listed
push_all-IsListed (c ∷ cs) a listed = push_all-IsListed cs (push c a) (push-IsListed c a listed)

assemble_all-each :
    (cs : List StreamChunk) (is : List ℕ)
    → assemble_all is (push_all cs new_assembler).partials ≡ assemble_each cs is
unfolding assemble_all
assemble_all-each cs [] = refl
assemble_all-each cs (i ∷ is) =
    ap
      (λ p. assemble_at p i >>= λ b.
        assemble_all is (push_all cs new_assembler).partials >>= λ bs. reads (b ∷ bs))
      (push_all-find_partial i cs new_assembler)
    ∙ ap (λ r. assemble_at (described i cs none) i >>= λ b. r >>= λ bs. reads (b ∷ bs))
        (assemble_all-each cs is)

-- The blocks that a stream assembles are, in the order in which their indexes first occur, what
-- each block's own chunks come to, whatever other chunks lie between them; it throws the same.
pub push_all-assemble_each :
    (cs : List StreamChunk)
    → assemble_all (push_all cs new_assembler).order (push_all cs new_assembler).partials
      ≡ assemble_each cs (first_seen [] cs)
push_all-assemble_each cs =
    ap (λ is. assemble_all is (push_all cs new_assembler).partials)
      (push_all-order cs new_assembler (λ i. refl))
    ∙ assemble_all-each cs (first_seen [] cs)
