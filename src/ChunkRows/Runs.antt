-- ===== src/ChunkRows/Runs.antt =====
-- The members of a run: what a delta that continues another shares with it, and the fields of a row.
use rigo.Base.{
  suc, ◌+◌, String, true, List, [], ◌∷◌, Option, some, none, ◌≡◌, refl, sym, ap, ◌∙◌, arith, eq_iff,
  length,
}
use rigo.Base.Int.{ℤ, pos, negsuc, is_safe, ◌-ℤ◌, +ℤ-sub}
use rigo.ChunkRows.Values.{Number, int, double}
use rigo.ChunkRows.Classify.{DeltaKind, text_delta, reasoning_delta, tool_call_delta, Delta}
use rigo.ChunkRows.Pack.{
  continues, number_eq, int_eq, kind_eq, name_eq, RunMember, texts_value, gaps_value,
}
use rigo.ChunkRows.Decode.{read_texts, read_gaps, times_stay_safe}
use rigo.ChunkRows.Reading.{IsSafe}

int_eq_sound : (a b : ℤ) → int_eq a b ≡ true → a ≡ b
int_eq_sound (pos m) (pos n) h = ground (arith, h)
int_eq_sound (negsuc m) (negsuc n) h = ground (arith, h)
int_eq_sound (pos m) (negsuc n) h = ground (arith, h)
int_eq_sound (negsuc m) (pos n) h = ground (arith, h)

number_eq_sound : (a b : Number) → number_eq a b ≡ true → a ≡ b
number_eq_sound (int a) (int b) h = ap int (int_eq_sound a b h)
number_eq_sound (double a) (double b) h = ground (arith, h)
number_eq_sound (int a) (double b) h = ground (arith, h)
number_eq_sound (double a) (int b) h = ground (arith, h)

name_eq_sound : (a b : Option String) → name_eq a b ≡ true → a ≡ b
name_eq_sound none none h = refl
name_eq_sound (some a) (some b) h = ap some ((eq_iff a b).0 h)
name_eq_sound none (some b) h = ground (arith, h)
name_eq_sound (some a) none h = ground (arith, h)

kind_eq_sound : (a b : DeltaKind) → kind_eq a b ≡ true → a ≡ b
kind_eq_sound text_delta text_delta h = refl
kind_eq_sound reasoning_delta reasoning_delta h = refl
kind_eq_sound (tool_call_delta a) (tool_call_delta b) h =
    let ids : a.id ≡ b.id = (eq_iff a.id b.id).0 (ground (arith, h)) in
    let names = name_eq_sound a.name b.name (ground (arith, h)) in ground (arith, ids, names)
kind_eq_sound _ _ h = ground (arith, h)

-- What a delta that continues another shares with it.
pub continues_facts :
    (p n : Delta)
    → continues p n ≡ true
    → (n.seq ≡ suc p.seq)
      × (is_safe (n.time -ℤ p.time) ≡ true)
      × (n.turn ≡ p.turn)
      × (n.step ≡ p.step)
      × (n.index ≡ p.index)
      × (n.kind ≡ p.kind)
unfolding continues
continues_facts p n h = (
  ground (arith, h),
  ground (arith, h),
  number_eq_sound n.turn p.turn (ground (arith, h)),
  number_eq_sound n.step p.step (ground (arith, h)),
  number_eq_sound n.index p.index (ground (arith, h)),
  sym (kind_eq_sound p.kind n.kind (ground (arith, h))),
)

-- The members after a delta continue it one by one, and their numbers are safe.
abbrev pub Chain : Delta → List RunMember → Type 0
Chain d [] = Unit
Chain d (m ∷ ms) = (continues d m.delta ≡ true) × IsSafe m.delta × Chain m.delta ms

abbrev pub fragments : List RunMember → List String
fragments [] = []
fragments (m ∷ ms) = m.delta.fragment ∷ fragments ms

abbrev pub gaps_of : ℤ → List RunMember → List ℤ
gaps_of time [] = []
gaps_of time (m ∷ ms) = (m.delta.time -ℤ time) ∷ gaps_of m.delta.time ms

pub read_texts-texts_value :
    (ms : List RunMember) → read_texts (texts_value ms) ≡ some (fragments ms)
read_texts-texts_value [] = refl
read_texts-texts_value (m ∷ ms) = ground (arith, read_texts-texts_value ms)

pub read_gaps-gaps_value :
    (d : Delta) (ms : List RunMember)
    → Chain d ms
    → read_gaps (gaps_value d.time ms) ≡ some (gaps_of d.time ms)
read_gaps-gaps_value d [] c = refl
read_gaps-gaps_value d (m ∷ ms) (next, safe, rest) =
    ground (arith, (continues_facts d m.delta next).1, read_gaps-gaps_value m.delta ms rest)

pub length-gaps_of : (time : ℤ) (ms : List RunMember) → length (gaps_of time ms) ≡ length ms
length-gaps_of time [] = refl
length-gaps_of time (m ∷ ms) = ap suc (length-gaps_of m.delta.time ms)

pub length-fragments : (ms : List RunMember) → length (fragments ms) ≡ length ms
length-fragments [] = refl
length-fragments (m ∷ ms) = ap suc (length-fragments ms)

pub times_stay_safe-gaps_of :
    (d : Delta) (ms : List RunMember)
    → Chain d ms
    → times_stay_safe d.time (gaps_of d.time ms) ≡ true
times_stay_safe-gaps_of d [] c = refl
times_stay_safe-gaps_of d (m ∷ ms) (next, safe, rest) =
    let sum = +ℤ-sub d.time m.delta.time in
    rw (sum, safe.1) (times_stay_safe-gaps_of m.delta ms rest)

pub last_seq_safe :
    (d : Delta) (ms : List RunMember)
    → IsSafe d
    → Chain d ms
    → is_safe (pos (d.seq + length ms)) ≡ true
last_seq_safe d [] safe c = ap (λ n. is_safe (pos n)) (omega arith) ∙ safe.0
last_seq_safe d (m ∷ ms) safe (next, here, rest) =
    let up = (continues_facts d m.delta next).0 in
    let sum : d.seq + suc (length ms) ≡ m.delta.seq + length ms = omega (arith, up) in
    ap (λ n. is_safe (pos n)) sum ∙ last_seq_safe m.delta ms here rest
