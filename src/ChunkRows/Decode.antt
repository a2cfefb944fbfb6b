-- ===== src/ChunkRows/Decode.antt =====
-- `decodeStorageRecord`: a row is checked and expanded, any other value stands for itself.
use rigo.Base.{
  ℕ, suc, ◌+◌, ◌-◌, String, Bool, true, false, not, List, [], ◌∷◌, Option, some, none, ◌==◌, ◌&&◌,
  ◌||◌, ◌^◌, leb, nat_eq, length, if◌then◌else◌,
}
use Prim.Native.Nat.{◌%◌}
use rigo.Base.Int.{ℤ, pos, ◌+ℤ◌, is_safe}
use rigo.ChunkRows.Values.{
  Number, int, Value, number, text, array, object, Values, nil, cons, Members, end, member, get,
  has_exact_keys, as_text, as_number, as_object, as_safe, as_seq, safe_number,
}
use rigo.ChunkRows.Classify.{DeltaKind, text_delta, reasoning_delta, tool_call_delta, Delta}
use rigo.ChunkRows.Pack.{name_member}

pub data Malformed : Type 0 where
  bad_envelope bad_seq0 bad_time0 bad_data bad_keys bad_call bad_placement : Malformed
  bad_payload bad_gaps wrong_length unsafe_seq unsafe_time : Malformed

pub data Decoded {ℓ} (A : Type ℓ) : Type ℓ where
  decodes : A → Decoded A
  malformed : Malformed → Decoded A

-- A validated row.
pub record ChunkRow : Type 0 where
  pub seq0 : ℕ
  pub time0 : ℤ
  pub turn : Number
  pub step : Number
  pub index : Number
  pub kind : DeltaKind
  pub gaps : List ℤ
  pub members : List String

-- A non-empty array of texts.
abbrev pub read_texts : Values → Option (List String)
read_texts nil = some []
read_texts (cons (text t) vs) = elim (read_texts vs) [ none ↦ none | some ts ↦ some (t ∷ ts) ]
read_texts (cons _ vs) = none

abbrev pub read_gaps : Values → Option (List ℤ)
read_gaps nil = some []
read_gaps (cons (number n) vs) = elim (safe_number n) [
  | none ↦ none
  | some z ↦ elim (read_gaps vs) [ none ↦ none | some zs ↦ some (z ∷ zs) ]
]
read_gaps (cons _ vs) = none

abbrev pub as_texts : Option Value → Option (List String)
as_texts (some (array vs)) = elim (read_texts vs) [ some (t ∷ ts) ↦ some (t ∷ ts) | _ ↦ none ]
as_texts _ = none

abbrev pub as_gaps : Option Value → Option (List ℤ)
as_gaps (some (array vs)) = read_gaps vs
as_gaps _ = none

infixl 5 ◌>>!◌
abbrev pub ◌>>!◌ {ℓ κ} : {A : Type ℓ} {B : Type κ} → Decoded A → (A → Decoded B) → Decoded B
decodes a >>! f = f a
malformed m >>! f = malformed m

abbrev pub or_malformed {ℓ} : {A : Type ℓ} → Malformed → Option A → Decoded A
or_malformed m none = malformed m
or_malformed m (some a) = decodes a

-- The checks of `id` and `name`.
abbrev pub plain_call : Members → Decoded DeltaKind
plain_call ms = or_malformed bad_call (as_text (get "id" ms)) >>! λ id.
    decodes (tool_call_delta (record { id = id; name = none }))

abbrev pub named_call : Members → Decoded DeltaKind
named_call ms = or_malformed bad_call (as_text (get "id" ms)) >>! λ id.
    or_malformed bad_call (as_text (get "name" ms)) >>! λ name.
    decodes (tool_call_delta (record { id = id; name = some name }))

abbrev pub read_call : Members → Decoded DeltaKind
read_call ms =
    if has_exact_keys ("turn" ∷ "step" ∷ "index" ∷ "id" ∷ "name" ∷ "dt" ∷ "args" ∷ []) ms
    then named_call ms
    else if has_exact_keys ("turn" ∷ "step" ∷ "index" ∷ "id" ∷ "dt" ∷ "args" ∷ []) ms
    then plain_call ms
    else malformed bad_keys

abbrev pub read_plain : DeltaKind → Members → Decoded DeltaKind
read_plain kind ms =
    if has_exact_keys ("turn" ∷ "step" ∷ "index" ∷ "dt" ∷ "texts" ∷ []) ms
    then decodes kind
    else malformed bad_keys

abbrev pub payload_key : DeltaKind → String
payload_key (tool_call_delta call) = "args"
payload_key _ = "texts"

-- `member times must stay safe integers`
abbrev pub times_stay_safe : ℤ → List ℤ → Bool
times_stay_safe time [] = true
times_stay_safe time (gap ∷ gaps) = is_safe (time +ℤ gap) && times_stay_safe (time +ℤ gap) gaps

-- The data's members by the row's tag.
abbrev pub read_kind : String → Members → Decoded DeltaKind
read_kind tag ms =
    if tag == "tool-call-chunks"
    then read_call ms
    else read_plain (if tag == "text-chunks" then text_delta else reasoning_delta) ms

abbrev pub check : Malformed → Bool → ChunkRow → Decoded ChunkRow
check m true row = decodes row
check m false row = malformed m

-- The double of a whole number below 2 ^ 54, as large as a sum here can be: from 2 ^ 53 on the even
-- numbers, and a tie goes to the multiple of 4.
abbrev pub round_double : ℕ → ℕ
round_double n =
    if leb n (2 ^ 53)
    then n
    else if nat_eq (n % 4) 1
    then n - 1
    else if nat_eq (n % 4) 3
    then n + 1
    else n

-- `validateRunData`, then the bounds of the reconstruction.
unfoldable pub read_run : ℕ → ℤ → DeltaKind → Members → Decoded ChunkRow
read_run seq0 time0 kind ms = or_malformed bad_placement (as_number (get "turn" ms)) >>! λ turn.
    or_malformed bad_placement (as_number (get "step" ms)) >>! λ step.
    or_malformed bad_placement (as_number (get "index" ms)) >>! λ index.
    or_malformed bad_payload (as_texts (get (payload_key kind) ms)) >>! λ members.
    or_malformed bad_gaps (as_gaps (get "dt" ms)) >>! λ gaps.
    check wrong_length (nat_eq (suc (length gaps)) (length members)) (record {
      seq0 = seq0;
      time0 = time0;
      turn = turn;
      step = step;
      index = index;
      kind = kind;
      gaps = gaps;
      members = members;
    })
    >>! λ row.
        check unsafe_seq (is_safe (pos (round_double (round_double (seq0 + length members) - 1))))
          row
        >>! λ row. check unsafe_time (times_stay_safe time0 gaps) row

unfoldable pub validate_row : String → Members → Decoded ChunkRow
unfolding read_run
validate_row tag ms =
    if not (has_exact_keys ("type" ∷ "seq0" ∷ "time0" ∷ "data" ∷ []) ms)
    then malformed bad_envelope
    else or_malformed bad_seq0 (as_seq (get "seq0" ms)) >>! λ seq0.
        or_malformed bad_time0 (as_safe (get "time0" ms)) >>! λ time0.
        or_malformed bad_data (as_object (get "data" ms)) >>! λ run_data.
        read_kind tag run_data >>! λ kind. read_run seq0 time0 kind run_data

abbrev pub chunk_members : Number → DeltaKind → String → Members
chunk_members index text_delta fragment =
    member "type" (text "text-delta")
      (member "index" (number index) (member "text" (text fragment) end))
chunk_members index reasoning_delta fragment =
    member "type" (text "reasoning-delta")
      (member "index" (number index) (member "text" (text fragment) end))
chunk_members index (tool_call_delta call) fragment = member "type" (text "tool-call-delta") (
    member "index" (number index) (
      member "id" (text call.id)
        (name_member call.name (member "argumentsDelta" (text fragment) end))))

-- The event of one member.
abbrev pub event_of : Delta → Value
event_of d = object (
    member "type" (text "assistant/chunk") (
      member "seq" (number (int (pos d.seq))) (
        member "time" (number (int d.time)) (
          member "data"
            (object (
              member "turn" (number d.turn) (
                member "step" (number d.step)
                  (member "chunk" (object (chunk_members d.index d.kind d.fragment)) end))))
            end))))

abbrev pub member_delta : ChunkRow → ℕ → ℤ → String → Delta
member_delta row seq time fragment = record {
  seq = seq;
  time = time;
  turn = row.turn;
  step = row.step;
  index = row.index;
  kind = row.kind;
  fragment = fragment;
}

-- The members from the second on, each after its gap.
unfoldable pub expand_from : ChunkRow → ℕ → ℤ → List ℤ → List String → List Value
expand_from row seq time (gap ∷ gaps) (t ∷ ts) =
    event_of (member_delta row seq (time +ℤ gap) t)
    ∷ expand_from row (suc seq) (time +ℤ gap) gaps ts
expand_from row seq time _ _ = []

unfoldable pub expand_row : ChunkRow → List Value
unfolding expand_from
expand_row row = elim row.members [
  | [] ↦ []
  | t ∷ ts ↦
      event_of (member_delta row row.seq0 row.time0 t)
      ∷ expand_from row (suc row.seq0) row.time0 row.gaps ts
]

abbrev pub is_row_tag : String → Bool
is_row_tag tag =
    (tag == "text-chunks") || (tag == "reasoning-chunks") || (tag == "tool-call-chunks")

abbrev pub row_tag : Value → Option String
row_tag (object ms) = elim (as_text (get "type" ms)) [
  | none ↦ none
  | some tag ↦ if is_row_tag tag then some tag else none
]
row_tag _ = none

unfoldable pub decode_tagged : String → Value → Decoded (List Value)
unfolding validate_row expand_row
decode_tagged tag (object ms) = validate_row tag ms >>! λ row. decodes (expand_row row)
decode_tagged tag v = decodes (v ∷ [])

unfoldable pub decode_storage_record : Value → Decoded (List Value)
unfolding decode_tagged
decode_storage_record v = elim (row_tag v) [
  | none ↦ decodes (v ∷ [])
  | some tag ↦ decode_tagged tag v
]
