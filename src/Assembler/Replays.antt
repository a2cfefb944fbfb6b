-- ===== src/Assembler/Replays.antt =====
-- The blocks that are emitted and the replay metadata agree.
use rigo.Base.{
  suc, Bool, true, false, List, [], ◌∷◌, Option, some, none, ◌≡◌, refl, sym, ap, subst, ◌∙◌, arith,
  nat_eq, length, if◌then◌else◌, Bool-cases, Option-cases, inl, inr,
}
use rigo.Json.{Json}
use rigo.Assembler.Finding.{Reading-cases}
use rigo.Assembler.{ContentBlock, max_tokens, ReplayEnvelope, BlockAssembler}
use rigo.Assembler.Output.{
  reads, assemble_all, is_max_tokens, is_tool_call, finish_of, kept_at, filter_kept, Assembled,
  prune_replay, keep_blocks, assembled_of, assembled,
}

-- The entries of the replay metadata, if any, are as many as the blocks.
abbrev pub IsAligned : Assembled → Type 0
IsAligned both =
    (envelope : ReplayEnvelope) (entries : List Json)
    → both.replay ≡ some envelope
    → envelope.blocks ≡ some entries
    → length entries ≡ length both.blocks

abbrev pub HasNoCalls : List ContentBlock → Type 0
HasNoCalls [] = Unit
HasNoCalls (b ∷ bs) = (is_tool_call b ≡ false) × HasNoCalls bs

length-filter_kept {ℓ κ} :
    {A : Type ℓ} {B : Type κ} (flags : List Bool) (xs : List A) (ys : List B)
    → length xs ≡ length ys
    → length (filter_kept flags xs) ≡ length (filter_kept flags ys)
length-filter_kept [] xs ys h = refl
length-filter_kept (true ∷ flags) [] [] h = refl
length-filter_kept (false ∷ flags) [] [] h = refl
length-filter_kept (true ∷ flags) (x ∷ xs) (y ∷ ys) h =
    ap suc (length-filter_kept flags xs ys (omega (arith, h)))
length-filter_kept (false ∷ flags) (x ∷ xs) (y ∷ ys) h =
    length-filter_kept flags xs ys (omega (arith, h))
length-filter_kept (true ∷ flags) [] (y ∷ ys) h = ground (arith, h)
length-filter_kept (false ∷ flags) [] (y ∷ ys) h = ground (arith, h)
length-filter_kept (true ∷ flags) (x ∷ xs) [] h = ground (arith, h)
length-filter_kept (false ∷ flags) (x ∷ xs) [] h = ground (arith, h)

filter_kept-HasNoCalls : (bs : List ContentBlock) → HasNoCalls (filter_kept (kept_at bs) bs)
filter_kept-HasNoCalls [] = tt
filter_kept-HasNoCalls (b ∷ bs) = elim (Bool-cases (is_tool_call b)) [
  | inl call ↦ rw call (filter_kept-HasNoCalls bs)
  | inr other ↦ rw other (other, filter_kept-HasNoCalls bs)
]

-- What pruning leaves of an envelope whose entries fit all blocks.
fitting-IsAligned :
    (kept : Option (List Bool)) (all : List ContentBlock) (held envelope : ReplayEnvelope)
    (es entries : List Json)
    → held.blocks ≡ some es
    → nat_eq (length es) (length all) ≡ true
    → prune_replay kept all (keep_blocks kept all) (some held) ≡ some envelope
    → envelope.blocks ≡ some entries
    → length entries ≡ length (keep_blocks kept all)
fitting-IsAligned none all held envelope es entries given fits here has =
    let same : held ≡ envelope = ground (arith, given, fits, here) in
    let kept_same = ap (λ e. e.blocks) same in
    let equal : es ≡ entries = ground (arith, given, kept_same, has) in
    ap length (sym equal) ∙ ground (arith, fits)
fitting-IsAligned (some flags) all held envelope es entries given fits here has =
    let sizes : length es ≡ length all = ground (arith, fits) in
    elim (Bool-cases (nat_eq (length (filter_kept flags all)) (length all))) [
      | inl whole ↦
          let same : held ≡ envelope = ground (arith, given, fits, whole, here) in
          let kept_same = ap (λ e. e.blocks) same in
          let equal : es ≡ entries = ground (arith, given, kept_same, has) in
          let size : length (filter_kept flags all) ≡ length all = ground (arith, whole) in
          ap length (sym equal) ∙ sizes ∙ sym size
      | inr fewer ↦
          let same : record held { blocks = some (filter_kept flags es) } ≡ envelope =
            ground (arith, given, fits, fewer, here) in
          let kept_same = ap (λ e. e.blocks) same in
          let equal : filter_kept flags es ≡ entries = ground (arith, kept_same, has) in
          ap length (sym equal) ∙ length-filter_kept flags es all sizes
    ]

assembled_of-IsAligned :
    (kept : Option (List Bool)) (all : List ContentBlock) (held : Option ReplayEnvelope)
    → IsAligned (assembled_of kept all held)
assembled_of-IsAligned kept all none envelope entries here has = ground (arith, here)
assembled_of-IsAligned kept all (some held) envelope entries here has =
    elim (Option-cases held.blocks) [
      | inl free ↦
          let same : held ≡ envelope = ground (arith, free, here) in
          let none_there = ap (λ e. e.blocks) (sym same) ∙ free in ground (arith, none_there, has)
      | inr (es, given) ↦ elim (Bool-cases (nat_eq (length es) (length all))) [
        | inr off ↦ ground (arith, given, off, here)
        | inl fits ↦ fitting-IsAligned kept all held envelope es entries given fits here has
      ]
    ]

-- Whatever an assembler has read, the replay metadata that it emits has as many entries as it emits
-- blocks, if it has entries; and a response that the token limit cut short emits no tool call.
pub assembled-IsAligned :
    (a : BlockAssembler) (both : Assembled)
    → assembled a ≡ reads both
    → IsAligned both × (finish_of a ≡ max_tokens → HasNoCalls both.blocks)
unfolding assembled
assembled-IsAligned a both h = elim (Reading-cases (assemble_all a.order a.partials)) [
  | inl (all, read) ↦
      let kept : Option (List Bool) =
        if is_max_tokens (finish_of a) then some (kept_at all) else none in
      let same : assembled_of kept all a.replay_state ≡ both = ground (arith, read, h) in
      (
        subst IsAligned same (assembled_of-IsAligned kept all a.replay_state),
        λ limit.
            let cut =
              ap (λ r. keep_blocks (if is_max_tokens r then some (kept_at all) else none) all)
                limit in
            subst HasNoCalls (sym cut ∙ ap (λ x. x.blocks) same) (filter_kept-HasNoCalls all),
      )
  | inr (inl (i, missing)) ↦ ground (arith, missing, h)
  | inr (inr (type, bad)) ↦ ground (arith, bad, h)
]
