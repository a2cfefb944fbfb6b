-- ===== src/Surface/Range.antt =====
-- What a replacement does to the nodes.
use rigo.Base.{
  take-drop, drop_empty, drop-drop, take, drop, ℕ, zero, suc, ◌+◌, ◌-◌, ◌≤◌, false, List, [], ◌∷◌,
  ◌++◌, Option, some, none, ◌≡◌, refl, arith, nat_eq, Option-cases, inl, inr, ap, ◌∙◌,
}
use rigo.Surface.{ReplaceRange, passes, includes, index_of, slice, replacement_range}

-- Each node stands once.
abbrev pub Distinct : List ℕ → Type 0
Distinct [] = Unit
Distinct (x ∷ xs) = (includes x xs ≡ false) × Distinct xs

abbrev pub All : (ℕ → Type 0) → List ℕ → Type 0
All P [] = Unit
All P (x ∷ xs) = P x × All P xs

abbrev pub last : List ℕ → Option ℕ
last [] = none
last (x ∷ []) = some x
last (x ∷ y ∷ ys) = last (y ∷ ys)

abbrev pub head : List ℕ → Option ℕ
head [] = none
head (x ∷ xs) = some x

includes-drop : (q n : ℕ) (xs : List ℕ) → includes q xs ≡ false → includes q (drop n xs) ≡ false
includes-drop q zero xs e = e
includes-drop q (suc n) [] e = e
includes-drop q (suc n) (x ∷ xs) e = includes-drop q n xs (ground arith)

Distinct-drop : (n : ℕ) (xs : List ℕ) → Distinct xs → Distinct (drop n xs)
Distinct-drop zero xs d = d
Distinct-drop (suc n) [] d = d
Distinct-drop (suc n) (x ∷ xs) d = Distinct-drop n xs d.1

All-drop : (P : ℕ → Type 0) (n : ℕ) (xs : List ℕ) → All P xs → All P (drop n xs)
All-drop P zero xs d = d
All-drop P (suc n) [] d = d
All-drop P (suc n) (x ∷ xs) d = All-drop P n xs d.1

includes-splice :
    (n i k q : ℕ) (xs : List ℕ)
    → i ≤ k
    → nat_eq q n ≡ false
    → includes n xs ≡ false
    → includes n (take i xs ++ q ∷ drop k xs) ≡ false
includes-splice n zero k q xs le other fresh = ground (arith, includes-drop n k xs fresh)
includes-splice n (suc i) k q [] le other fresh = ground (arith, drop_empty {A = ℕ} k)
includes-splice n (suc i) zero q (x ∷ xs) le other fresh = ground (arith, le)
includes-splice n (suc i) (suc k) q (x ∷ xs) le other fresh =
    ground (arith, includes-splice n i k q xs (omega (arith, le)) other)

pub Distinct-splice :
    (i k q : ℕ) (xs : List ℕ)
    → i ≤ k
    → includes q xs ≡ false
    → Distinct xs
    → Distinct (take i xs ++ q ∷ drop k xs)
Distinct-splice zero k q xs le fresh d = (includes-drop q k xs fresh, Distinct-drop k xs d)
Distinct-splice (suc i) zero q xs le fresh d = ground (arith, le)
Distinct-splice (suc i) (suc k) q [] le fresh d = (refl, tt)
Distinct-splice (suc i) (suc k) q (x ∷ xs) le fresh d = (
  includes-splice x i k q xs (omega (arith, le)) (ground (arith, fresh)) d.0,
  Distinct-splice i k q xs (omega (arith, le)) (ground (arith, fresh)) d.1,
)

absurd : (i : ℕ) → suc i ≤ zero → ⊥
absurd i le = omega (arith, le)

pub All-splice :
    (P : ℕ → Type 0) (i k q : ℕ) (xs : List ℕ)
    → i ≤ k
    → P q
    → All P xs
    → All P (take i xs ++ q ∷ drop k xs)
All-splice P zero k q xs le good h = (good, All-drop P k xs h)
All-splice P (suc i) zero q xs le good h = elim (absurd i le) [ ]
All-splice P (suc i) (suc k) q [] le good h = (good, tt)
All-splice P (suc i) (suc k) q (x ∷ xs) le good h =
    (h.0, All-splice P i k q xs (omega (arith, le)) good h.1)

-- What `indexOf` finds.
index_of-drop : (a i : ℕ) (xs : List ℕ) → index_of a xs ≡ some i → drop i xs ≡ a ∷ drop (suc i) xs
index_of-drop a i [] e = cc
index_of-drop a zero (x ∷ xs) e = ground (arith, e)
index_of-drop a (suc i) (x ∷ xs) e = ground (arith, e, index_of-drop a i xs)

last-take : (n b : ℕ) (xs ys : List ℕ) → drop n xs ≡ b ∷ ys → last (take (suc n) xs) ≡ some b
last-take zero b [] ys e = cc
last-take zero b (x ∷ xs) ys e = ground (arith, e)
last-take (suc n) b [] ys e = cc
last-take (suc n) b (x ∷ []) ys e = ground (arith, e, drop_empty {A = ℕ} n)
last-take (suc n) b (x ∷ y ∷ xs) ys e = last-take n b (y ∷ xs) ys e

-- The range that `replacementRange` finds, as a cut of the nodes in three.
abbrev pub IsRange : List ℕ → ℕ → ℕ → ReplaceRange → Type 0
IsRange nodes a b r =
    (r.start_idx ≤ r.end_idx)
    × (nodes
        ≡ take r.start_idx nodes
          ++ (r.shadowed_seqs ++ drop (r.start_idx + ((r.end_idx - r.start_idx) + 1)) nodes))
    × (head r.shadowed_seqs ≡ some a)
    × (last r.shadowed_seqs ≡ some b)

-- The slice from `i` to `j` inclusive.
cut-IsRange :
    (nodes : List ℕ) (a b i j : ℕ)
    → index_of a nodes ≡ some i
    → index_of b nodes ≡ some j
    → i ≤ j
    → IsRange nodes a b
        (record { start_idx = i; end_idx = j; shadowed_seqs = slice i (j + 1) nodes })
cut-IsRange nodes a b i j ea eb le =
    let width : (j + 1) - i ≡ suc (j - i) = omega (arith, le) in
    let same : (j + 1) - i ≡ (j - i) + 1 = omega (arith, le) in
    let from_a = index_of-drop a i nodes ea in
    let sum : i + (j - i) ≡ j = omega (arith, le) in
    let from_b : drop (j - i) (drop i nodes) ≡ b ∷ drop (suc j) nodes =
      drop-drop i (j - i) nodes ∙ ap (λ k. drop k nodes) sum ∙ index_of-drop b j nodes eb in
    (
      le,
      take-drop i nodes
          ∙ ap (λ ys. take i nodes ++ ys)
              (take-drop ((j + 1) - i) (drop i nodes)
                ∙ ap (λ ys. slice i (j + 1) nodes ++ ys)
                    (drop-drop i ((j + 1) - i) nodes ∙ ap (λ k. drop (i + k) nodes) same)),
      ap (λ k. head (take k (drop i nodes))) width ∙ ap (λ xs. head (take (suc (j - i)) xs)) from_a,
      ap (λ k. last (take k (drop i nodes))) width
          ∙ last-take (j - i) b (drop i nodes) (drop (suc j) nodes) from_b,
    )

pub replacement_range-IsRange :
    (nodes : List ℕ) (a b : ℕ) (r : ReplaceRange)
    → replacement_range nodes a b ≡ passes r
    → IsRange nodes a b r
unfolding replacement_range
replacement_range-IsRange nodes a b r e = elim (Option-cases (index_of a nodes)) [
  | inl gone ↦ ground (arith, gone)
  | inr (i, ea) ↦ elim (Option-cases (index_of b nodes)) [
    | inl gone ↦ ground (arith, gone)
    | inr (j, eb) ↦ ground (arith, ea, eb, e, cut-IsRange nodes a b i j ea eb)
  ]
]
