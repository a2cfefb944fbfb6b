-- ===== src/ChunkRows/Pack.antt =====
-- `packChunkRuns`, with the row that it builds of a run.
use rigo.Base.{
  ℕ, suc, String, Bool, true, false, List, [], ◌∷◌, ◌++◌, map, Option, some, none, ◌==◌, ◌&&◌, ltb,
  nat_eq, length, if◌then◌else◌,
}
use rigo.Base.Int.{ℤ, pos, negsuc, ◌-ℤ◌, is_safe}
use rigo.ChunkRows.Values.{
  Number, int, double, Value, number, text, array, object, Values, nil, cons, Members, end, member,
}
use rigo.ChunkRows.Classify.{
  DeltaKind, text_delta, reasoning_delta, tool_call_delta, Delta, classify,
}

abbrev pub int_eq : ℤ → ℤ → Bool
int_eq (pos m) (pos n) = nat_eq m n
int_eq (negsuc m) (negsuc n) = nat_eq m n
int_eq _ _ = false

abbrev pub number_eq : Number → Number → Bool
number_eq (int a) (int b) = int_eq a b
number_eq (double a) (double b) = nat_eq a b
number_eq _ _ = false

abbrev pub name_eq : Option String → Option String → Bool
name_eq none none = true
name_eq (some a) (some b) = a == b
name_eq _ _ = false

-- The same kind of delta and, for a tool call, the same call.
abbrev pub kind_eq : DeltaKind → DeltaKind → Bool
kind_eq text_delta text_delta = true
kind_eq reasoning_delta reasoning_delta = true
kind_eq (tool_call_delta a) (tool_call_delta b) = (a.id == b.id) && name_eq a.name b.name
kind_eq _ _ = false

unfoldable pub continues : Delta → Delta → Bool
continues prev next =
    nat_eq next.seq (suc prev.seq)
    && is_safe (next.time -ℤ prev.time)
    && number_eq next.turn prev.turn
    && number_eq next.step prev.step
    && number_eq next.index prev.index
    && kind_eq prev.kind next.kind

-- A run's member: the event with what was read of it.
pub record RunMember : Type 0 where
  pub event : Value
  pub delta : Delta

abbrev pub texts_value : List RunMember → Values
texts_value [] = nil
texts_value (m ∷ ms) = cons (text m.delta.fragment) (texts_value ms)

-- The gaps between the members, from the time before the first.
abbrev pub gaps_value : ℤ → List RunMember → Values
gaps_value time [] = nil
gaps_value time (m ∷ ms) = cons (number (int (m.delta.time -ℤ time))) (gaps_value m.delta.time ms)

abbrev pub row_type : DeltaKind → String
row_type text_delta = "text-chunks"
row_type reasoning_delta = "reasoning-chunks"
row_type (tool_call_delta call) = "tool-call-chunks"

abbrev pub name_member : Option String → Members → Members
name_member none ms = ms
name_member (some name) ms = member "name" (text name) ms

-- What follows the shared members of the row's data.
abbrev pub payload_members : DeltaKind → Values → Members
payload_members (tool_call_delta call) payload =
    member "id" (text call.id) (name_member call.name (member "args" (array payload) end))
payload_members _ payload = member "texts" (array payload) end

unfoldable pub build_row : RunMember → List RunMember → Value
build_row first rest =
    let d = first.delta in
    object (
      member "type" (text (row_type d.kind)) (
        member "seq0" (number (int (pos d.seq))) (
          member "time0" (number (int d.time)) (
            member "data"
              (object (
                member "turn" (number d.turn) (
                  member "step" (number d.step) (
                    member "index" (number d.index) (
                      member "dt" (array (gaps_value d.time rest))
                        (payload_members d.kind (texts_value (first ∷ rest))))))))
              end))))

-- `MIN_RUN`
abbrev pub min_run : ℕ
min_run = 3

-- `flush`
unfoldable pub flush : List RunMember → List Value
unfolding build_row
flush [] = []
flush (first ∷ rest) =
    if ltb (length (first ∷ rest)) min_run
    then map (λ m. m.event) (first ∷ rest)
    else build_row first rest ∷ []

abbrev pub last_member : List RunMember → Option RunMember
last_member [] = none
last_member (m ∷ []) = some m
last_member (m ∷ n ∷ ms) = last_member (n ∷ ms)

unfoldable pub extends_run : List RunMember → Delta → Bool
unfolding continues
extends_run run d = elim (last_member run) [ none ↦ false | some m ↦ continues m.delta d ]

unfoldable pub pack_from : List RunMember → List Value → List Value
unfolding flush extends_run
pack_from run [] = flush run
pack_from run (v ∷ vs) = elim (classify v) [
  | none ↦ flush run ++ v ∷ pack_from [] vs
  | some d ↦
      let one : RunMember = record { event = v; delta = d } in
      let extended = pack_from (run ++ one ∷ []) vs in
      let restarted = flush run ++ pack_from (one ∷ []) vs in
      if extends_run run d then extended else restarted
]

unfoldable pub pack_chunk_runs : List Value → List Value
unfolding pack_from
pack_chunk_runs events = pack_from [] events
