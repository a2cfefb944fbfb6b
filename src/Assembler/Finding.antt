-- ===== src/Assembler/Finding.antt =====
-- Every index of the order has its block: the accessor `mustGet` always finds one.
use rigo.Base.{
  ℕ, String, true, List, [], ◌∷◌, ◌≡◌, refl, ap, ◌∙◌, arith, is_some, Option-cases, inl, inr, ◌⊎◌,
}
use rigo.Assembler.{StreamChunk, PartialBlock, new_assembler, find_partial, push_all}
use rigo.Assembler.Output.{
  Reading, reads, no_partial, incomplete, assemble, assemble_all, assembled,
}
use rigo.Assembler.Streams.{has_index, push_all-IsListed}

pub Reading-cases {ℓ} :
    {A : Type ℓ} (r : Reading A)
    → ((a : A) × (r ≡ reads a))
      ⊎ (((i : ℕ) × (r ≡ no_partial i)) ⊎ ((type : String) × (r ≡ incomplete type)))
Reading-cases (reads a) = inl (a, refl)
Reading-cases (no_partial i) = inr (inl (i, refl))
Reading-cases (incomplete type) = inr (inr (type, refl))

assemble_all-found :
    (is : List ℕ) (ps : List (ℕ × PartialBlock)) (i : ℕ)
    → ((j : ℕ) → has_index j is ≡ true → is_some (find_partial j ps) ≡ true)
    → assemble_all is ps ≡ no_partial i
    → ⊥
unfolding assemble_all
assemble_all-found [] ps i found h = ground (arith, h)
assemble_all-found (j ∷ is) ps i found h =
    let here = found j (ground arith) in
    let later = assemble_all-found is ps i (λ k held. found k (ground (arith, held))) in
    elim (Option-cases (find_partial j ps)) [
      | inl absent ↦ ground (arith, absent, here)
      | inr (p, there) ↦ elim (Reading-cases (assemble p j)) [
        | inl (b, read) ↦ elim (Reading-cases (assemble_all is ps)) [
          | inl (bs, rest) ↦ ground (arith, there, read, rest, h)
          | inr (inl (k, missing)) ↦
              let same : k ≡ i = ground (arith, there, read, missing, h) in
              later (missing ∙ ap no_partial same)
          | inr (inr (type, bad)) ↦ ground (arith, there, read, bad, h)
        ]
        | inr (inl (k, missing)) ↦ assemble_finds p j k missing
        | inr (inr (type, bad)) ↦ ground (arith, there, bad, h)
      ]
    ]
  where
    assemble_finds : (p : PartialBlock) (j k : ℕ) → assemble p j ≡ no_partial k → ⊥
    assemble_finds p j k h = ground (arith, h)

-- Reading the blocks of any stream never finds an index of the order without its block.
pub push_all-finds_all :
    (cs : List StreamChunk) (i : ℕ) → ¬ (assembled (push_all cs new_assembler) ≡ no_partial i)
unfolding assembled
push_all-finds_all cs i h =
    let a = push_all cs new_assembler in
    let listed = push_all-IsListed cs new_assembler (λ k. refl) in
    elim (Reading-cases (assemble_all a.order a.partials)) [
      | inl (bs, read) ↦ ground (arith, read, h)
      | inr (inl (k, missing)) ↦
          assemble_all-found a.order a.partials k (λ j held. listed j ∙ held) missing
      | inr (inr (type, bad)) ↦ ground (arith, bad, h)
    ]
