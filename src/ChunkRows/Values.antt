-- ===== src/ChunkRows/Values.antt =====
-- Values, and what the checks of chunk-rows.ts read of them.
use rigo.Base.{
  ℕ, suc, String, Bool, true, List, [], ◌∷◌, Option, some, none, is_some, ◌==◌, ◌&&◌, nat_eq,
  length, if◌then◌else◌,
}
use rigo.Base.Int.{ℤ, pos, is_safe}

pub data Number : Type 0 where
  int : ℤ → Number
  double : ℕ → Number

mutual
  pub data Value : Type 0 where
    number : Number → Value
    text : String → Value
    array : Values → Value
    object : Members → Value
    null : Value
    boolean : Bool → Value

  pub data Values : Type 0 where
    nil : Values
    cons : Value → Values → Values

  pub data Members : Type 0 where
    end : Members
    member : String → Value → Members → Members

abbrev pub get : String → Members → Option Value
get k end = none
get k (member name v ms) = if name == k then some v else get k ms

-- `Object.keys(value).length`
abbrev pub key_count : Members → ℕ
key_count end = 0
key_count (member name v ms) = if is_some (get name ms) then key_count ms else suc (key_count ms)

abbrev pub has_keys : List String → Members → Bool
has_keys [] ms = true
has_keys (k ∷ ks) ms = is_some (get k ms) && has_keys ks ms

abbrev pub has_exact_keys : List String → Members → Bool
has_exact_keys ks ms = nat_eq (key_count ms) (length ks) && has_keys ks ms

-- What the checks read of a member.
abbrev pub as_text : Option Value → Option String
as_text (some (text t)) = some t
as_text _ = none

abbrev pub as_number : Option Value → Option Number
as_number (some (number n)) = some n
as_number _ = none

abbrev pub as_object : Option Value → Option Members
as_object (some (object ms)) = some ms
as_object _ = none

abbrev pub safe_number : Number → Option ℤ
safe_number (int z) = if is_safe z then some z else none
safe_number (double bits) = none

abbrev pub as_safe : Option Value → Option ℤ
as_safe (some (number n)) = safe_number n
as_safe _ = none

-- A safe integer that is not negative.
abbrev pub as_seq : Option Value → Option ℕ
as_seq v = elim (as_safe v) [ some (pos n) ↦ some n | _ ↦ none ]
