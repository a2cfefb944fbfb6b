-- ===== src/ChunkRows/Checks.antt =====
-- What a check that passes says of the value that it read.
use rigo.Base.{ℕ, String, Bool, true, false, Option, some, none, ◌≡◌, refl, ap, arith, eq_iff}
use rigo.Base.Int.{ℤ, pos, negsuc, is_safe}
use rigo.ChunkRows.Values.{
  Number, int, double, Value, number, text, object, Members, as_text, as_number, as_object, as_safe,
  as_seq, safe_number,
}
use rigo.ChunkRows.Classify.{Delta, guard, ◌>>=◌, is_text}

pub bind_some {ℓ κ} :
    {A : Type ℓ} {B : Type κ} (o : Option A) (f : A → Option B) (b : B)
    → (o >>= f) ≡ some b
    → (a : A) × (o ≡ some a) × (f a ≡ some b)
bind_some none f b h = ground (arith, h)
bind_some (some a) f b h = (a, refl, h)

none-some {ℓ} : {A : Type ℓ} (a : A) → none ≡ some a → ⊥
none-some a h = ground (arith, h)

-- The same, handing the value on.
pub bind_then {ℓ κ μ} :
    {A : Type ℓ} {B : Type κ} {C : Type μ} (o : Option A) (f : A → Option B) (b : B)
    → (o >>= f) ≡ some b
    → ((a : A) → o ≡ some a → f a ≡ some b → C)
    → C
bind_then none f b h k = elim (none-some b h) [ ]
bind_then (some a) f b h k = k a refl h

pub some_injective : {a b : Delta} → some a ≡ some b → a ≡ b
some_injective h = ground (arith, h)

pub guard-some :
    {A : Type 0} (c : Bool) (o : Option A) (a : A) → guard c o ≡ some a → (c ≡ true) × (o ≡ some a)
guard-some true o a h = (refl, h)
guard-some false o a h = ground (arith, h)

pub as_text-some : (o : Option Value) (t : String) → as_text o ≡ some t → o ≡ some (text t)
as_text-some (some (text u)) t h = ground (arith, h)
as_text-some _ t h = ground (arith, h)

pub as_number-some : (o : Option Value) (n : Number) → as_number o ≡ some n → o ≡ some (number n)
as_number-some (some (number u)) n h = ground (arith, h)
as_number-some _ n h = ground (arith, h)

pub as_object-some :
    (o : Option Value) (ms : Members) → as_object o ≡ some ms → o ≡ some (object ms)
as_object-some (some (object u)) ms h = ground (arith, h)
as_object-some _ ms h = ground (arith, h)

safe_number-some : (n : Number) (z : ℤ) → safe_number n ≡ some z → (n ≡ int z) × (is_safe z ≡ true)
safe_number-some (int y) z h = ground (arith, h)
safe_number-some (double b) z h = ground (arith, h)

pub as_safe-some :
    (o : Option Value) (z : ℤ)
    → as_safe o ≡ some z
    → (o ≡ some (number (int z))) × (is_safe z ≡ true)
as_safe-some (some (number n)) z h =
    let (same, safe) = safe_number-some n z h in (ap (λ m. some (number m)) same, safe)
as_safe-some _ z h = ground (arith, h)

pub as_seq-some :
    (o : Option Value) (n : ℕ)
    → as_seq o ≡ some n
    → (o ≡ some (number (int (pos n)))) × (is_safe (pos n) ≡ true)
as_seq-some o n h =
    let same : as_safe o ≡ some (pos n) = safe_pos (as_safe o) n h in as_safe-some o (pos n) same
  where
    safe_pos :
        (s : Option ℤ) (n : ℕ)
        → (elim s [ some (pos m) ↦ some m | _ ↦ none ]) ≡ some n
        → s ≡ some (pos n)
    safe_pos none n h = ground (arith, h)
    safe_pos (some (pos m)) n h = ground (arith, h)
    safe_pos (some (negsuc m)) n h = ground (arith, h)

pub is_text-some : (t : String) (o : Option String) → is_text t o ≡ true → o ≡ some t
is_text-some t none h = ground (arith, h)
is_text-some t (some u) h = ground (arith, h, eq_iff u t)
