-- ===== src/ChunkRows/Restoring.antt =====
-- Records that restore a list of events.
use rigo.Base.{List, [], ◌∷◌, ◌++◌, none, ◌≡◌, refl, arith, inl, inr, ◌⊎◌}
use mathlib.Core.List.{append_assoc}
use rigo.ChunkRows.Values.{Value}
use rigo.ChunkRows.Decode.{Decoded, Malformed, decodes, malformed, decode_storage_record, row_tag}
use rigo.ChunkRows.Keys.{Same, same_value}

-- The storage's reader: the events of all records, or the first malformation.
unfoldable pub decode_all : List Value → Decoded (List Value)
decode_all [] = decodes []
decode_all (v ∷ vs) = elim (decode_storage_record v) [
  | malformed m ↦ malformed m
  | decodes es ↦ elim (decode_all vs) [
    | malformed m ↦ malformed m
    | decodes fs ↦ decodes (es ++ fs)
  ]
]

-- No event carries the tag of a row.
abbrev pub AllPlain : List Value → Type 0
AllPlain [] = Unit
AllPlain (v ∷ vs) = (row_tag v ≡ none) × AllPlain vs

abbrev pub AllSame : List Value → List Value → Type 0
AllSame [] [] = Unit
AllSame (v ∷ vs) (w ∷ ws) = Same v w × AllSame vs ws
AllSame _ _ = ⊥

-- The records decode to the events, up to the order of members.
abbrev pub Restores : List Value → List Value → Type 0
Restores records events = (es : List Value) × (decode_all records ≡ decodes es) × AllSame events es

Decoded-cases {ℓ} :
    {A : Type ℓ} (d : Decoded A)
    → ((a : A) × (d ≡ decodes a)) ⊎ ((m : Malformed) × (d ≡ malformed m))
Decoded-cases (decodes a) = inl (a, refl)
Decoded-cases (malformed m) = inr (m, refl)

AllSame-append :
    (us bs cs ds : List Value) → AllSame us cs → AllSame bs ds → AllSame (us ++ bs) (cs ++ ds)
AllSame-append [] bs [] ds h k = k
AllSame-append (a ∷ us) bs (c ∷ cs) ds h k = (h.0, AllSame-append us bs cs ds h.1 k)
AllSame-append [] bs (c ∷ cs) ds h k = elim h [ ]
AllSame-append (a ∷ us) bs [] ds h k = elim h [ ]

AllSame-refl : (vs : List Value) → AllSame vs vs
AllSame-refl [] = tt
AllSame-refl (v ∷ vs) = (same_value v, AllSame-refl vs)

decode_all-append :
    (rs ss es fs : List Value)
    → decode_all rs ≡ decodes es
    → decode_all ss ≡ decodes fs
    → decode_all (rs ++ ss) ≡ decodes (es ++ fs)
unfolding decode_all
decode_all-append [] ss es fs h k = ground (arith, h, k)
decode_all-append (r ∷ rs) ss es fs h k = elim (Decoded-cases (decode_storage_record r)) [
  | inr (m, bad) ↦ ground (arith, bad, h)
  | inl (gs, read) ↦ elim (Decoded-cases (decode_all rs)) [
    | inr (m, bad) ↦ ground (arith, read, bad, h)
    | inl (hs, rest) ↦
        let sum : gs ++ hs ≡ es = ground (arith, read, rest, h) in
        let tail = decode_all-append rs ss hs fs rest k in
        ground (arith, read, tail, sum, append_assoc gs hs fs)
  ]
]

pub Restores-append :
    (rs ss us bs : List Value) → Restores rs us → Restores ss bs → Restores (rs ++ ss) (us ++ bs)
Restores-append rs ss us bs (es, h, same) (fs, k, alike) =
    (es ++ fs, decode_all-append rs ss es fs h k, AllSame-append us bs es fs same alike)

pub decode_plain : (v : Value) → row_tag v ≡ none → decode_storage_record v ≡ decodes (v ∷ [])
unfolding decode_storage_record
decode_plain v plain = ground (arith, plain)

pub Restores-plain : (vs : List Value) → AllPlain vs → Restores vs vs
unfolding decode_all
Restores-plain [] h = ([], refl, tt)
Restores-plain (v ∷ vs) h =
    let (es, read, same) = Restores-plain vs h.1 in
    (v ∷ es, ground (arith, read, decode_plain v h.0), (same_value v, same))
