-- ===== src/ChunkRows/Tests.antt =====
-- Runs of the packing and of its reader.
use rigo.Base.{ℕ, ◌+◌, ◌-◌, String, true, List, [], ◌∷◌, ◌≡◌, refl, length}
use rigo.Base.Int.{ℤ, pos, negsuc, is_safe, ◌+ℤ◌, ◌-ℤ◌}
use rigo.ChunkRows.Values.{int, Value, number, text, array, object, nil, cons, end, member}
use rigo.ChunkRows.Classify.{text_delta, classify}
use rigo.ChunkRows.Pack.{pack_chunk_runs}
use rigo.ChunkRows.Decode.{
  round_double, decodes, malformed, unsafe_time, wrong_length, event_of, decode_storage_record,
}
use rigo.ChunkRows.RoundTrip.{pack_chunk_runs-Restores}
use rigo.ChunkRows.Restoring.{Restores}

abbrev text_event : ℕ → ℤ → String → Value
text_event seq time fragment = event_of (record {
  seq = seq;
  time = time;
  turn = int (pos 0);
  step = int (pos 0);
  index = int (pos 1);
  kind = text_delta;
  fragment = fragment;
})

-- The members in another order than the writer's.
abbrev turn_end : Value
turn_end = object (member "seq" (number (int (pos 8))) (member "type" (text "turn/end") end))

abbrev log : List Value
log =
    text_event 4 (pos 100) "he"
    ∷ text_event 5 (pos 90) "ll"
    ∷ text_event 6 (pos 95) "o"
    ∷ text_event 7 (pos 96) "!"
    ∷ turn_end
    ∷ text_event 9 (pos 97) "a"
    ∷ text_event 11 (pos 98) "b"
    ∷ []

abbrev row : Value → Value
row gaps = object (
    member "type" (text "text-chunks") (
      member "seq0" (number (int (pos 4))) (
        member "time0" (number (int (pos 100))) (
          member "data"
            (object (
              member "turn" (number (int (pos 0))) (
                member "step" (number (int (pos 0))) (
                  member "index" (number (int (pos 1))) (
                    member "dt" gaps
                      (member "texts" (array (cons (text "he") (cons (text "ll") nil))) end))))))
            end))))

pack_run : length (pack_chunk_runs log) ≡ 4
unfolding pack_chunk_runs classify is_safe ◌-ℤ◌
pack_run = refl

decode_backwards :
    decode_storage_record (row (array (cons (number (int (negsuc 9))) nil)))
    ≡ decodes (text_event 4 (pos 100) "he" ∷ text_event 5 (pos 90) "ll" ∷ [])
unfolding decode_storage_record is_safe ◌+ℤ◌
decode_backwards = refl

decode_short_gaps : decode_storage_record (row (array nil)) ≡ malformed wrong_length
unfolding decode_storage_record is_safe
decode_short_gaps = refl

decode_far_gap :
    decode_storage_record (row (array (cons (number (int (pos 9007199254740991))) nil)))
    ≡ malformed unsafe_time
unfolding decode_storage_record is_safe ◌+ℤ◌
decode_far_gap = refl

pack_chunk_runs-Restores_example : Restores (pack_chunk_runs log) log
pack_chunk_runs-Restores_example =
    pack_chunk_runs-Restores log (refl, (refl, (refl, (refl, (refl, (refl, (refl, tt)))))))

-- Two members from 2 ^ 53 - 1 on: the last number is 2 ^ 53, and the sum that checks it rounds.
beyond_accepted : is_safe (pos (round_double (round_double (9007199254740991 + 2) - 1))) ≡ true
unfolding is_safe
beyond_accepted = refl
