-- ===== src/Json.antt =====
-- JSON values and their texts: `stableStringify` of packages/shared/actions/src/index.ts, with the
-- language's `JSON.stringify` and `JSON.parse`. A text is a list of tokens; the quoting inside a
-- string token and the digits of a number token are left to the language. A finite double is
-- its bit pattern, and minus zero is written as zero. `undefined` members do not occur.
pub mod RoundTrip
pub mod Canonical
pub mod KeyOrder
pub mod Alike
pub mod Tests
use rigo.Base.{
  ℕ, zero, suc, String, Bool, true, false, List, [], ◌∷◌, ◌++◌, Option, none, some, ltb, nat_eq,
  length, not, ◌==◌, ◌&&◌, if◌then◌else◌,
}
use Prim.Native.Char.{code}
use Prim.Native.Nat.{◌+◌, ◌-◌, ◌/◌, ◌%◌}
use Prim.Native.String

mutual
  pub data Json : Type 0 where
    null : Json
    bool : Bool → Json
    num : ℕ → Json
    str : String → Json
    arr : Items → Json
    obj : Fields → Json

  pub data Items : Type 0 where
    nil : Items
    cons : Json → Items → Items

  pub data Fields : Type 0 where
    end : Fields
    field : String → Json → Fields → Fields

pub data Token : Type 0 where
  t_null : Token
  t_bool : Bool → Token
  t_num : ℕ → Token
  t_str : String → Token
  comma colon open_arr close_arr open_obj close_obj : Token

abbrev pub Text : Type 0
Text = List Token

bool_eq : Bool → Bool → Bool
bool_eq true b = b
bool_eq false b = not b

token_eq : Token → Token → Bool
unfolding bool_eq
token_eq t_null t_null = true
token_eq (t_bool a) (t_bool b) = bool_eq a b
token_eq (t_num m) (t_num n) = nat_eq m n
token_eq (t_str s) (t_str t) = s == t
token_eq comma comma = true
token_eq colon colon = true
token_eq open_arr open_arr = true
token_eq close_arr close_arr = true
token_eq open_obj open_obj = true
token_eq close_obj close_obj = true
token_eq _ _ = false

-- `===` on texts.
unfoldable pub text_eq : Text → Text → Bool
unfolding token_eq
text_eq [] [] = true
text_eq (t ∷ ts) (u ∷ us) = token_eq t u && text_eq ts us
text_eq _ _ = false

-- The UTF-16 code units of a text, by which JavaScript orders strings.
abbrev pub units : String → List ℕ
units String.[] = []
units (String.◌∷◌ c s) =
    if ltb (code c) 0x10000
    then code c ∷ units s
    else (0xD800 + (code c - 0x10000) / 0x400) ∷ (0xDC00 + (code c - 0x10000) % 0x400) ∷ units s

pub units_le : List ℕ → List ℕ → Bool
units_le [] ys = true
units_le (x ∷ xs) [] = false
units_le (x ∷ xs) (y ∷ ys) = if ltb x y then true else if nat_eq x y then units_le xs ys else false

pub key_le : String → String → Bool
unfolding units_le
key_le a b = units_le (units a) (units b)

-- Insertion into members ordered by key; on equal keys the old member stays first.
pub insert_field : String → Json → Fields → Fields
insert_field k v end = field k v end
insert_field k v (field j w fs) =
    if key_le k j then field k v (field j w fs) else field j w (insert_field k v fs)

-- The value with the members of every object in the order of `Object.keys(record).sort()`.
mutual
  pub canon : Json → Json
  canon null = null
  canon (bool b) = bool b
  canon (num n) = num n
  canon (str s) = str s
  canon (arr vs) = arr (canon_items vs)
  canon (obj fs) = obj (canon_fields fs)

  pub canon_items : Items → Items
  canon_items nil = nil
  canon_items (cons v vs) = cons (canon v) (canon_items vs)

  pub canon_fields : Fields → Fields
  canon_fields end = end
  canon_fields (field k v fs) = insert_field k (canon v) (canon_fields fs)

-- The bits of minus zero; its text is that of zero.
abbrev pub minus_zero : ℕ
minus_zero = 9223372036854775808

abbrev pub written_bits : ℕ → ℕ
written_bits n = if nat_eq n minus_zero then 0 else n

-- The value that is read back from a text.
unfoldable mutual
  pub written : Json → Json
  written null = null
  written (bool b) = bool b
  written (num n) = num (written_bits n)
  written (str s) = str s
  written (arr vs) = arr (written_items vs)
  written (obj fs) = obj (written_fields fs)

  pub written_items : Items → Items
  written_items nil = nil
  written_items (cons v vs) = cons (written v) (written_items vs)

  pub written_fields : Fields → Fields
  written_fields end = end
  written_fields (field k v fs) = field k (written v) (written_fields fs)

-- `JSON.stringify`: members in insertion order. The comma stands before each later member.
unfoldable mutual
  pub stringify : Json → Text
  stringify null = t_null ∷ []
  stringify (bool b) = t_bool b ∷ []
  stringify (num n) = t_num (written_bits n) ∷ []
  stringify (str s) = t_str s ∷ []
  stringify (arr nil) = open_arr ∷ close_arr ∷ []
  stringify (arr (cons v vs)) = open_arr ∷ stringify v ++ stringify_items vs
  stringify (obj end) = open_obj ∷ close_obj ∷ []
  stringify (obj (field k v fs)) = open_obj ∷ t_str k ∷ colon ∷ stringify v ++ stringify_fields fs

  pub stringify_items : Items → Text
  stringify_items nil = close_arr ∷ []
  stringify_items (cons v vs) = comma ∷ stringify v ++ stringify_items vs

  pub stringify_fields : Fields → Text
  stringify_fields end = close_obj ∷ []
  stringify_fields (field k v fs) = comma ∷ t_str k ∷ colon ∷ stringify v ++ stringify_fields fs

-- `stableStringify`: the text of a value with every object's keys sorted.
unfoldable pub stable_stringify : Json → Text
unfolding canon stringify insert_field key_le
stable_stringify v = stringify (canon v)

infixl 5 ◌>>=◌
abbrev ◌>>=◌ {ℓ κ} : {A : Type ℓ} {B : Type κ} → Option A → (A → Option B) → Option B
none >>= k = none
some a >>= k = k a

-- The grammar that `JSON.parse` reads, by recursive descent; the fuel bounds the calls.
unfoldable mutual
  pub parse_value : ℕ → Text → Option (Json × Text)
  parse_value zero ts = none
  parse_value (suc f) [] = none
  parse_value (suc f) (t_null ∷ ts) = some (null, ts)
  parse_value (suc f) (t_bool b ∷ ts) = some (bool b, ts)
  parse_value (suc f) (t_num n ∷ ts) = some (num n, ts)
  parse_value (suc f) (t_str s ∷ ts) = some (str s, ts)
  parse_value (suc f) (open_arr ∷ ts) = parse_arr f ts
  parse_value (suc f) (open_obj ∷ ts) = parse_obj f ts
  parse_value (suc f) (_ ∷ ts) = none

  pub parse_arr : ℕ → Text → Option (Json × Text)
  parse_arr zero ts = none
  parse_arr (suc f) (close_arr ∷ ts) = some (arr nil, ts)
  parse_arr (suc f) ts =
      parse_value f ts >>= λ v. parse_items f v.1 >>= λ vs. some (arr (cons v.0 vs.0), vs.1)

  pub parse_items : ℕ → Text → Option (Items × Text)
  parse_items zero ts = none
  parse_items (suc f) (close_arr ∷ ts) = some (nil, ts)
  parse_items (suc f) (comma ∷ ts) =
      parse_value f ts >>= λ v. parse_items f v.1 >>= λ vs. some (cons v.0 vs.0, vs.1)
  parse_items (suc f) _ = none

  pub parse_obj : ℕ → Text → Option (Json × Text)
  parse_obj zero ts = none
  parse_obj (suc f) (close_obj ∷ ts) = some (obj end, ts)
  parse_obj (suc f) (t_str k ∷ colon ∷ ts) =
      parse_value f ts >>= λ v. parse_fields f v.1 >>= λ fs. some (obj (field k v.0 fs.0), fs.1)
  parse_obj (suc f) _ = none

  pub parse_fields : ℕ → Text → Option (Fields × Text)
  parse_fields zero ts = none
  parse_fields (suc f) (close_obj ∷ ts) = some (end, ts)
  parse_fields (suc f) (comma ∷ t_str k ∷ colon ∷ ts) =
      parse_value f ts >>= λ v. parse_fields f v.1 >>= λ fs. some (field k v.0 fs.0, fs.1)
  parse_fields (suc f) _ = none

whole : Option (Json × Text) → Option Json
whole (some (v, [])) = some v
whole _ = none

-- `JSON.parse`; `none` is its SyntaxError. A text of n tokens nests at most n calls, twice over.
unfoldable pub parse : Text → Option Json
unfolding parse_value whole
parse ts = whole (parse_value (length ts + length ts) ts)
