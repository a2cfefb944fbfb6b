-- ===== src/ChunkRows/RoundTrip.antt =====
-- What was packed decodes to the events that were packed.
use rigo.Base.{
  true, false, List, [], ◌∷◌, ◌++◌, map, some, none, ◌≡◌, refl, sym, ap, subst, ◌∙◌, arith, ltb,
  length, Bool-cases, Option-cases, inl, inr,
}
use mathlib.Core.List.{append-nil}
use rigo.ChunkRows.Values.{Value}
use rigo.ChunkRows.Classify.{Delta, classify}
use rigo.ChunkRows.Pack.{
  continues, RunMember, build_row, flush, min_run, extends_run, pack_from, pack_chunk_runs,
}
use rigo.ChunkRows.Decode.{decodes, decode_storage_record, row_tag}
use rigo.ChunkRows.Keys.{same_value}
use rigo.ChunkRows.Reading.{IsSafe, classify-Same}
use rigo.ChunkRows.Rows.{events_of, decode_storage_record-build_row}
use rigo.ChunkRows.Runs.{Chain}
use rigo.ChunkRows.Restoring.{
  decode_all, AllPlain, AllSame, Restores, Restores-append, decode_plain, Restores-plain,
}

-- The events of a run, as they came.
abbrev held : List RunMember → List Value
held ms = map (λ m. m.event) ms

-- Each member is an event without a tag, read as its delta.
abbrev AllRead : List RunMember → Type 0
AllRead [] = Unit
AllRead (m ∷ ms) = (classify m.event ≡ some m.delta) × (row_tag m.event ≡ none) × AllRead ms

abbrev IsRun : List RunMember → Type 0
IsRun [] = Unit
IsRun (m ∷ ms) = IsSafe m.delta × Chain m.delta ms

AllRead-Same : (ms : List RunMember) → AllRead ms → AllSame (held ms) (events_of ms)
AllRead-Same [] h = tt
AllRead-Same (m ∷ ms) h = ((classify-Same m.event m.delta h.0).0, AllRead-Same ms h.2)

AllRead-plain : (ms : List RunMember) → AllRead ms → AllPlain (held ms)
AllRead-plain [] h = tt
AllRead-plain (m ∷ ms) h = (h.1, AllRead-plain ms h.2)

one_row :
    (row : Value) (es : List Value)
    → decode_storage_record row ≡ decodes es
    → decode_all (row ∷ []) ≡ decodes es
unfolding decode_all
one_row row es read = ground (arith, read, append-nil es)

flush_short :
    (m : RunMember) (ms : List RunMember)
    → ltb (length (m ∷ ms)) min_run ≡ true
    → flush (m ∷ ms) ≡ held (m ∷ ms)
unfolding flush
flush_short m ms short = ground (arith, short)

flush_long :
    (m : RunMember) (ms : List RunMember)
    → ltb (length (m ∷ ms)) min_run ≡ false
    → flush (m ∷ ms) ≡ build_row m ms ∷ []
unfolding flush
flush_long m ms long = ground (arith, long)

Restores-row :
    (m : RunMember) (ms : List RunMember)
    → IsRun (m ∷ ms)
    → AllRead (m ∷ ms)
    → Restores (build_row m ms ∷ []) (held (m ∷ ms))
Restores-row m ms r h = (
  events_of (m ∷ ms),
  one_row (build_row m ms) (events_of (m ∷ ms)) (decode_storage_record-build_row m ms r.0 r.1),
  AllRead-Same (m ∷ ms) h,
)

flush-Restores : (run : List RunMember) → IsRun run → AllRead run → Restores (flush run) (held run)
unfolding flush decode_all
flush-Restores [] r h = ([], refl, tt)
flush-Restores (m ∷ ms) r h = elim (Bool-cases (ltb (length (m ∷ ms)) min_run)) [
  | inl short ↦
      subst (λ rs. Restores rs (held (m ∷ ms))) (sym (flush_short m ms short))
        (Restores-plain (held (m ∷ ms)) (AllRead-plain (m ∷ ms) h))
  | inr long ↦
      subst (λ rs. Restores rs (held (m ∷ ms))) (sym (flush_long m ms long)) (Restores-row m ms r h)
]

-- The delta of the last member.
abbrev last_delta : Delta → List RunMember → Delta
last_delta d [] = d
last_delta d (m ∷ ms) = last_delta m.delta ms

extends_run-last_delta :
    (m : RunMember) (ms : List RunMember) (d : Delta)
    → extends_run (m ∷ ms) d ≡ continues (last_delta m.delta ms) d
unfolding extends_run
extends_run-last_delta m [] d = refl
extends_run-last_delta m (n ∷ ms) d = extends_run-last_delta n ms d

Chain-append :
    (d : Delta) (ms : List RunMember) (one : RunMember)
    → Chain d ms
    → continues (last_delta d ms) one.delta ≡ true
    → IsSafe one.delta
    → Chain d (ms ++ one ∷ [])
Chain-append d [] one c next safe = (next, safe, tt)
Chain-append d (m ∷ ms) one c next safe = (c.0, c.1, Chain-append m.delta ms one c.2 next safe)

IsRun-append :
    (run : List RunMember) (one : RunMember)
    → IsRun run
    → extends_run run one.delta ≡ true
    → IsSafe one.delta
    → IsRun (run ++ one ∷ [])
IsRun-append [] one r next safe = (safe, tt)
IsRun-append (m ∷ ms) one r next safe =
    (r.0, Chain-append m.delta ms one r.1 (sym (extends_run-last_delta m ms one.delta) ∙ next) safe)

AllRead-append :
    (run : List RunMember) (one : RunMember)
    → AllRead run
    → classify one.event ≡ some one.delta
    → row_tag one.event ≡ none
    → AllRead (run ++ one ∷ [])
AllRead-append [] one h read plain = (read, plain, tt)
AllRead-append (m ∷ run) one h read plain = (h.0, h.1, AllRead-append run one h.2 read plain)

held-append :
    (run : List RunMember) (one : RunMember) (vs : List Value)
    → held (run ++ one ∷ []) ++ vs ≡ held run ++ one.event ∷ vs
held-append [] one vs = refl
held-append (m ∷ run) one vs = ap (λ ws. m.event ∷ ws) (held-append run one vs)

Restores-cons :
    (v : Value) (rs us : List Value)
    → row_tag v ≡ none
    → Restores rs us
    → Restores (v ∷ rs) (v ∷ us)
unfolding decode_all
Restores-cons v rs us plain (es, read, same) =
    (v ∷ es, ground (arith, read, decode_plain v plain), (same_value v, same))

module _ (run : List RunMember) (v : Value) (vs : List Value) where
  pack_from_opaque : classify v ≡ none → pack_from run (v ∷ vs) ≡ flush run ++ v ∷ pack_from [] vs
  unfolding pack_from
  pack_from_opaque opaque = ground (arith, opaque)

  pack_from_longer :
      (d : Delta)
      → classify v ≡ some d
      → extends_run run d ≡ true
      → pack_from run (v ∷ vs) ≡ pack_from (run ++ (record { event = v; delta = d }) ∷ []) vs
  unfolding pack_from
  pack_from_longer d read longer = ground (arith, read, longer)

  pack_from_over :
      (d : Delta)
      → classify v ≡ some d
      → extends_run run d ≡ false
      → pack_from run (v ∷ vs) ≡ flush run ++ pack_from ((record { event = v; delta = d }) ∷ []) vs
  unfolding pack_from
  pack_from_over d read over = ground (arith, read, over)

pack_from-Restores :
    (run : List RunMember) (vs : List Value)
    → IsRun run
    → AllRead run
    → AllPlain vs
    → Restores (pack_from run vs) (held run ++ vs)
unfolding pack_from
pack_from-Restores run [] r h plain =
    subst (Restores (flush run)) (sym (append-nil (held run))) (flush-Restores run r h)
pack_from-Restores run (v ∷ vs) r h plain =
    let kept : List Value → Type 0 = λ rs. Restores rs (held run ++ v ∷ vs) in
    let flushed = flush-Restores run r h in
    elim (Option-cases (classify v)) [
      | inl opaque ↦ subst kept (sym (pack_from_opaque run v vs opaque)) (
          Restores-append (flush run) (v ∷ pack_from [] vs) (held run) (v ∷ vs) flushed
            (Restores-cons v (pack_from [] vs) vs plain.0 (pack_from-Restores [] vs tt tt plain.1)))
      | inr (d, read) ↦
          let one : RunMember = record { event = v; delta = d } in
          let safe = (classify-Same v d read).1 in
          elim (Bool-cases (extends_run run d)) [
            | inl longer ↦ subst kept (sym (pack_from_longer run v vs d read longer)) (
                subst (Restores (pack_from (run ++ one ∷ []) vs)) (held-append run one vs) (
                  pack_from-Restores (run ++ one ∷ []) vs (IsRun-append run one r longer safe)
                    (AllRead-append run one h read plain.0) plain.1))
            | inr over ↦ subst kept (sym (pack_from_over run v vs d read over)) (
                Restores-append (flush run) (pack_from (one ∷ []) vs) (held run) (v ∷ vs) flushed
                  (pack_from-Restores (one ∷ []) vs (safe, tt) (read, plain.0, tt) plain.1))
          ]
    ]

-- Packed events that carry no row's tag decode, record by record, to the same events in the same
-- order, each up to the order of its members.
pub pack_chunk_runs-Restores :
    (events : List Value) → AllPlain events → Restores (pack_chunk_runs events) events
unfolding pack_chunk_runs
pack_chunk_runs-Restores events plain = pack_from-Restores [] events tt tt plain
