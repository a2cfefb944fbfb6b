-- ===== src/ChunkRows/Rows.antt =====
-- The row of a run decodes to the events of its members.
use rigo.Base.{
  ◌≤◌, ◌^◌, ℕ, suc, ◌+◌, ◌-◌, String, true, List, [], ◌∷◌, Option, some, none, ◌≡◌, refl, sym, ap,
  subst, ◌∙◌, arith, length,
}
use rigo.Base.Int.{ℤ, pos, is_safe, ◌+ℤ◌, ◌-ℤ◌, +ℤ-sub}
use rigo.ChunkRows.Values.{int, Value, number, text, array, object, cons, Members, end, member, get}
use rigo.ChunkRows.Classify.{DeltaKind, text_delta, reasoning_delta, tool_call_delta, Delta}
use rigo.ChunkRows.Pack.{RunMember, texts_value, gaps_value, row_type, payload_members, build_row}
use rigo.ChunkRows.Decode.{
  decodes, ChunkRow, read_run, round_double, validate_row, payload_key, event_of, member_delta,
  expand_from, expand_row, decode_tagged, decode_storage_record, row_tag,
}
use rigo.ChunkRows.Reading.{IsSafe}
use rigo.ChunkRows.Runs.{
  continues_facts, Chain, fragments, gaps_of, read_texts-texts_value, read_gaps-gaps_value,
  length-gaps_of, length-fragments, times_stay_safe-gaps_of, last_seq_safe,
}

-- What the row of a run holds once it is read.
abbrev row_of : Delta → List RunMember → ChunkRow
row_of d ms = record {
  seq0 = d.seq;
  time0 = d.time;
  turn = d.turn;
  step = d.step;
  index = d.index;
  kind = d.kind;
  gaps = gaps_of d.time ms;
  members = d.fragment ∷ fragments ms;
}

abbrev pub events_of : List RunMember → List Value
events_of [] = []
events_of (m ∷ ms) = event_of m.delta ∷ events_of ms

abbrev Shares : ChunkRow → Delta → Type 0
Shares row d =
    (row.turn ≡ d.turn) × (row.step ≡ d.step) × (row.index ≡ d.index) × (row.kind ≡ d.kind)

member_delta_is :
    (row : ChunkRow) (seq : ℕ) (time : ℤ) (d : Delta)
    → seq ≡ d.seq
    → time ≡ d.time
    → Shares row d
    → member_delta row seq time d.fragment ≡ d
member_delta_is row seq time d seqs times (turns, steps, indices, kinds) =
    cc (seqs, times, turns, steps, indices, kinds)

expand_from-Chain :
    (row : ChunkRow) (d : Delta) (ms : List RunMember)
    → Shares row d
    → Chain d ms
    → expand_from row (suc d.seq) d.time (gaps_of d.time ms) (fragments ms) ≡ events_of ms
unfolding expand_from
expand_from-Chain row d [] shares c = refl
expand_from-Chain row d (m ∷ ms) shares (next, safe, rest) =
    let (up, gap, turns, steps, indices, kinds) = continues_facts d m.delta next in
    let sum = +ℤ-sub d.time m.delta.time in
    let shared : Shares row m.delta =
      (shares.0 ∙ sym turns, shares.1 ∙ sym steps, shares.2 ∙ sym indices, shares.3 ∙ sym kinds) in
    let front = ap event_of (
      member_delta_is row (suc d.seq) (d.time +ℤ (m.delta.time -ℤ d.time)) m.delta (sym up) sum
        shared) in
    let back =
      ap
        (λ n.
          expand_from row (suc n) (d.time +ℤ (m.delta.time -ℤ d.time)) (gaps_of m.delta.time ms)
            (fragments ms))
        (sym up)
      ∙ ap (λ t. expand_from row (suc m.delta.seq) t (gaps_of m.delta.time ms) (fragments ms)) sum
      ∙ expand_from-Chain row m.delta ms shared rest in
    ap
      (λ v.
        v
        ∷ expand_from row (suc (suc d.seq)) (d.time +ℤ (m.delta.time -ℤ d.time))
            (gaps_of m.delta.time ms) (fragments ms))
      front
    ∙ ap (λ vs. event_of m.delta ∷ vs) back

expand_row-Chain :
    (d : Delta) (ms : List RunMember)
    → Chain d ms
    → expand_row (row_of d ms) ≡ event_of d ∷ events_of ms
unfolding expand_row
expand_row-Chain d ms c =
    ap (λ vs. event_of d ∷ vs) (expand_from-Chain (row_of d ms) d ms (refl, refl, refl, refl) c)

round_double-exact : (n : ℕ) → n ≤ 2 ^ 53 → round_double n ≡ n
round_double-exact n small = ground arith

-- A last number that is safe is computed exactly.
last_rounded :
    (a b : ℕ)
    → is_safe (pos (a + b)) ≡ true
    → is_safe (pos (round_double (round_double (a + suc b) - 1))) ≡ true
last_rounded a b safe =
    let small : a + suc b ≤ 2 ^ 53 = unfold is_safe in ground (arith, safe) in
    let shift : (a + suc b) - 1 ≡ a + b = omega arith in
    ap (λ n. is_safe (pos (round_double (n - 1)))) (round_double-exact (a + suc b) small)
    ∙ ap (λ n. is_safe (pos (round_double n))) shift
    ∙ ap (λ n. is_safe (pos n)) (round_double-exact (a + b) (omega arith))
    ∙ safe

-- The run's data is read back.
read_run-Chain :
    (d : Delta) (ms : List RunMember) (run_data : Members)
    → IsSafe d
    → Chain d ms
    → get "turn" run_data ≡ some (number d.turn)
    → get "step" run_data ≡ some (number d.step)
    → get "index" run_data ≡ some (number d.index)
    → get (payload_key d.kind) run_data ≡ some (array (cons (text d.fragment) (texts_value ms)))
    → get "dt" run_data ≡ some (array (gaps_value d.time ms))
    → read_run d.seq d.time d.kind run_data ≡ decodes (row_of d ms)
unfolding read_run
read_run-Chain d ms run_data safe c turns steps indices payload gaps =
    let texts = read_texts-texts_value ms in
    let read = read_gaps-gaps_value d ms c in
    let size = length-gaps_of d.time ms ∙ sym (length-fragments ms) in
    let last =
      last_rounded d.seq (length (fragments ms))
        (ap (λ n. is_safe (pos (d.seq + n))) (length-fragments ms) ∙ last_seq_safe d ms safe c) in
    ground (
      arith,
      turns,
      steps,
      indices,
      payload,
      gaps,
      texts,
      read,
      size,
      last,
      times_stay_safe-gaps_of d ms c,
    )

-- The row's data, with the kind given by itself.
abbrev run_data_of : DeltaKind → Delta → List RunMember → Members
run_data_of kind d ms = member "turn" (number d.turn) (
    member "step" (number d.step) (
      member "index" (number d.index) (
        member "dt" (array (gaps_value d.time ms))
          (payload_members kind (cons (text d.fragment) (texts_value ms))))))

abbrev row_members : DeltaKind → Delta → List RunMember → Members
row_members kind d ms = member "type" (text (row_type kind)) (
    member "seq0" (number (int (pos d.seq)))
      (member "time0" (number (int d.time)) (member "data" (object (run_data_of kind d ms)) end)))

module _ (d : Delta) (ms : List RunMember) (safe : IsSafe d) (c : Chain d ms) where
  run_read :
      (kind : DeltaKind) (run_data : Members)
      → d.kind ≡ kind
      → get "turn" run_data ≡ some (number d.turn)
      → get "step" run_data ≡ some (number d.step)
      → get "index" run_data ≡ some (number d.index)
      → get "dt" run_data ≡ some (array (gaps_value d.time ms))
      → get (payload_key kind) run_data ≡ some (array (cons (text d.fragment) (texts_value ms)))
      → read_run d.seq d.time kind run_data ≡ decodes (row_of d ms)
  run_read kind run_data e turns steps indices gaps payload =
      subst (λ k. read_run d.seq d.time k run_data ≡ decodes (row_of d ms)) e
        (read_run-Chain d ms run_data safe c turns steps indices
          (ap (λ k. get (payload_key k) run_data) e ∙ payload) gaps)

  validate_call :
      (id : String) (name : Option String)
      → d.kind ≡ tool_call_delta (record { id = id; name = name })
      → validate_row "tool-call-chunks"
          (row_members (tool_call_delta (record { id = id; name = name })) d ms)
        ≡ decodes (row_of d ms)
  unfolding validate_row
  validate_call id none e =
      let call = tool_call_delta (record { id = id; name = none }) in
      ground (arith, safe, run_read call (run_data_of call d ms) e refl refl refl refl refl)
  validate_call id (some name) e =
      let call = tool_call_delta (record { id = id; name = some name }) in
      ground (arith, safe, run_read call (run_data_of call d ms) e refl refl refl refl refl)

  validate_row-Chain :
      (kind : DeltaKind)
      → d.kind ≡ kind
      → validate_row (row_type kind) (row_members kind d ms) ≡ decodes (row_of d ms)
  unfolding validate_row
  validate_row-Chain text_delta e =
      ground
        (arith, safe, run_read text_delta (run_data_of text_delta d ms) e refl refl refl refl refl)
  validate_row-Chain reasoning_delta e = ground (
    arith,
    safe,
    run_read reasoning_delta (run_data_of reasoning_delta d ms) e refl refl refl refl refl,
  )
  validate_row-Chain (tool_call_delta call) e = validate_call call.id call.name e

  row_tag-row_members :
      (kind : DeltaKind) → row_tag (object (row_members kind d ms)) ≡ some (row_type kind)
  row_tag-row_members text_delta = refl
  row_tag-row_members reasoning_delta = refl
  row_tag-row_members (tool_call_delta call) = refl

  decode_row :
      decode_storage_record (object (row_members d.kind d ms)) ≡ decodes (event_of d ∷ events_of ms)
  unfolding decode_storage_record decode_tagged
  decode_row =
      ground
        (arith, row_tag-row_members d.kind, validate_row-Chain d.kind refl, expand_row-Chain d ms c)

-- A row decodes to the events of its run.
pub decode_storage_record-build_row :
    (first : RunMember) (ms : List RunMember)
    → IsSafe first.delta
    → Chain first.delta ms
    → decode_storage_record (build_row first ms) ≡ decodes (events_of (first ∷ ms))
unfolding build_row
decode_storage_record-build_row first ms safe c = decode_row first.delta ms safe c
