-- ===== src/ChunkRows/Reading.antt =====
-- A classified event is, up to the order of members, the event that its delta stands for.
use rigo.Base.{
  ℕ, String, true, [], ◌∷◌, Option, some, none, ◌==◌, ◌≡◌, refl, sym, ap, subst, ◌∙◌, arith, eq_iff,
  Bool-cases, inl, inr,
}
use rigo.Base.Int.{ℤ, pos, is_safe}
use rigo.ChunkRows.Values.{
  Number, int, Value, number, text, array, object, Members, end, member, boolean, null, get,
  has_exact_keys, as_text, as_number, as_object, as_safe, as_seq,
}
use rigo.ChunkRows.Classify.{
  DeltaKind, text_delta, reasoning_delta, tool_call_delta, Delta, classify, call_fragment,
  named_fragment, classify_call, text_fragment, classify_text, classify_type, classify_chunk,
  classify_data, classify_members,
}
use rigo.ChunkRows.Decode.{event_of, chunk_members}
use rigo.ChunkRows.Keys.{Same, same_value, rebuilt}
use rigo.ChunkRows.Checks.{
  bind_some, bind_then, some_injective, guard-some, as_text-some, as_number-some, as_object-some,
  as_safe-some, as_seq-some, is_text-some,
}

abbrev plain_members : String → Number → String → Members
plain_members type index fragment =
    member "type" (text type) (member "index" (number index) (member "text" (text fragment) end))

module _ (chunk : Members) (index : Number)
    (indexed : get "index" chunk ≡ some (number index)) where
  text-Same :
      (plain kind : DeltaKind) (type fragment : String)
      → get "type" chunk ≡ some (text type)
      → classify_text plain chunk ≡ some (kind, fragment)
      → (plain ≡ kind) × Same (object chunk) (object (plain_members type index fragment))
  text-Same plain kind type fragment typed h =
      let (exact, read) =
        guard-some (has_exact_keys ("type" ∷ "index" ∷ "text" ∷ []) chunk)
          (text_fragment plain chunk) (kind, fragment) h in
      let (f, held, same) =
        bind_some (as_text (get "text" chunk)) (λ t. some (plain, t)) (kind, fragment) read in
      let kinds : plain ≡ kind = ground (arith, same) in
      let fragments : f ≡ fragment = ground (arith, same) in
      (
        kinds,
        rebuilt chunk (plain_members type index fragment) (refl, (refl, (refl, tt))) exact
            (
              (text type, typed, same_value (text type)),
              (
                (number index, indexed, same_value (number index)),
                (
                  (
                    text fragment,
                    as_text-some (get "text" chunk) fragment (held ∙ ap some fragments),
                    same_value (text fragment),
                  ),
                  tt,
                ),
              ),
            ),
      )

  call_fragment-some :
      (name : Option String) (kind : DeltaKind) (fragment : String)
      → call_fragment name chunk ≡ some (kind, fragment)
      → (id : String) × (get "id" chunk ≡ some (text id))
        × (get "argumentsDelta" chunk ≡ some (text fragment))
        × (tool_call_delta (record { id = id; name = name }) ≡ kind)
  call_fragment-some name kind fragment h =
      let (id, named, rest) = bind_some (as_text (get "id" chunk)) _ (kind, fragment) h in
      let (f, held, same) =
        bind_some (as_text (get "argumentsDelta" chunk)) _ (kind, fragment) rest in
      let fragments : f ≡ fragment = ground (arith, same) in
      (
        id,
        as_text-some (get "id" chunk) id named,
        as_text-some (get "argumentsDelta" chunk) fragment (held ∙ ap some fragments),
        ground (arith, same),
      )

  call-Same :
      (kind : DeltaKind) (fragment : String)
      → get "type" chunk ≡ some (text "tool-call-delta")
      → classify_call chunk ≡ some (kind, fragment)
      → Same (object chunk) (object (chunk_members index kind fragment))
  call-Same kind fragment typed h =
      elim (Bool-cases (has_exact_keys ("type" ∷ "index" ∷ "id" ∷ "argumentsDelta" ∷ []) chunk)) [
        | inl exact ↦
            let (id, named, held, same) =
              call_fragment-some none kind fragment (ground (arith, exact, h)) in
            subst (λ k. Same (object chunk) (object (chunk_members index k fragment))) same
              (rebuilt chunk _ (refl, (refl, (refl, (refl, tt)))) exact
                (
                  (_, typed, same_value _),
                  (
                    (_, indexed, same_value _),
                    ((_, named, same_value _), ((_, held, same_value _), tt)),
                  ),
                ))
        | inr inexact ↦
            let (exact, read) =
              guard-some
                (has_exact_keys ("type" ∷ "index" ∷ "id" ∷ "name" ∷ "argumentsDelta" ∷ []) chunk)
                (named_fragment chunk) (kind, fragment) (ground (arith, inexact, h)) in
            let (name, called, rest) =
              bind_some (as_text (get "name" chunk)) _ (kind, fragment) read in
            let (id, named, held, same) = call_fragment-some (some name) kind fragment rest in
            subst (λ k. Same (object chunk) (object (chunk_members index k fragment))) same
              (rebuilt chunk _ (refl, (refl, (refl, (refl, (refl, tt))))) exact
                (
                  (_, typed, same_value _),
                  (
                    (_, indexed, same_value _),
                    (
                      (_, named, same_value _),
                      (
                        (_, as_text-some (get "name" chunk) name called, same_value _),
                        ((_, held, same_value _), tt),
                      ),
                    ),
                  ),
                ))
      ]

  classify_chunk-Same :
      (kind : DeltaKind) (fragment : String)
      → classify_chunk chunk ≡ some (kind, fragment)
      → Same (object chunk) (object (chunk_members index kind fragment))
  classify_chunk-Same kind fragment h =
      let (type, read, rest) =
        bind_some (as_text (get "type" chunk)) (λ t. classify_type t chunk) (kind, fragment) h in
      let typed = as_text-some (get "type" chunk) type read in
      let kept : DeltaKind → Type 0 =
        λ k. Same (object chunk) (object (chunk_members index k fragment)) in
      elim (Bool-cases (type == "text-delta")) [
        | inl plain ↦
            let named = typed ∙ ap (λ t. some (text t)) ((eq_iff type "text-delta").0 plain) in
            let (same, alike) =
              text-Same text_delta kind "text-delta" fragment named (ground (arith, plain, rest)) in
            subst kept same alike
        | inr not_plain ↦ elim (Bool-cases (type == "reasoning-delta")) [
          | inl reasons ↦
              let named =
                typed ∙ ap (λ t. some (text t)) ((eq_iff type "reasoning-delta").0 reasons) in
              let (same, alike) =
                text-Same reasoning_delta kind "reasoning-delta" fragment named
                  (ground (arith, not_plain, reasons, rest)) in
              subst kept same alike
          | inr not_reason ↦ elim (Bool-cases (type == "tool-call-delta")) [
            | inl calls ↦
                let named =
                  typed ∙ ap (λ t. some (text t)) ((eq_iff type "tool-call-delta").0 calls) in
                call-Same kind fragment named (ground (arith, not_plain, not_reason, calls, rest))
            | inr neither ↦ ground (arith, not_plain, not_reason, neither, rest)
          ]
        ]
      ]

-- A delta whose numbers are safe.
abbrev pub IsSafe : Delta → Type 0
IsSafe d = (is_safe (pos d.seq) ≡ true) × (is_safe d.time ≡ true)

abbrev data_members : Delta → Members
data_members d = member "turn" (number d.turn) (
    member "step" (number d.step)
      (member "chunk" (object (chunk_members d.index d.kind d.fragment)) end))

data_built :
    (ms chunk : Members) (turn step index : Number) (kind : DeltaKind) (fragment : String)
    → has_exact_keys ("turn" ∷ "step" ∷ "chunk" ∷ []) ms ≡ true
    → get "turn" ms ≡ some (number turn)
    → get "step" ms ≡ some (number step)
    → get "chunk" ms ≡ some (object chunk)
    → Same (object chunk) (object (chunk_members index kind fragment))
    → Same (object ms) (
        object (
          member "turn" (number turn) (
            member "step"
              (number step)
              (member "chunk" (object (chunk_members index kind fragment)) end))))
data_built ms chunk turn step index kind fragment exact turns steps chunks alike =
    rebuilt ms _ (refl, (refl, (refl, tt))) exact
      ((_, turns, same_value _), ((_, steps, same_value _), ((_, chunks, alike), tt)))

-- The delta that is put together from what the data holds.
data-Same :
    (ms : Members) (seq : ℕ) (time : ℤ) (d : Delta)
    → has_exact_keys ("turn" ∷ "step" ∷ "chunk" ∷ []) ms ≡ true
    → classify_data seq time ms ≡ some d
    → (d.seq ≡ seq) × (d.time ≡ time) × Same (object ms) (object (data_members d))
data-Same ms seq time d exact h = bind_then (as_number (get "turn" ms)) _ d h λ turn t_read h1.
    bind_then (as_number (get "step" ms)) _ d h1 λ step s_read h2.
      bind_then (as_object (get "chunk" ms)) _ d h2 λ chunk c_read h3.
        bind_then (as_number (get "index" chunk)) _ d h3 λ index i_read h4.
          bind_then (classify_chunk chunk) _ d h4 λ read k_read same.
            subst
              (λ x. (x.seq ≡ seq) × (x.time ≡ time) × Same (object ms) (object (data_members x)))
              (some_injective same)
              (
                refl,
                refl,
                data_built ms chunk turn step index read.0 read.1 exact
                    (as_number-some (get "turn" ms) turn t_read)
                    (as_number-some (get "step" ms) step s_read)
                    (as_object-some (get "chunk" ms) chunk c_read)
                    (classify_chunk-Same chunk index
                      (as_number-some (get "index" chunk) index i_read) read.0 read.1 k_read),
              )

abbrev event_members : Delta → Members
event_members d = member "type" (text "assistant/chunk") (
    member "seq" (number (int (pos d.seq)))
      (member "time" (number (int d.time)) (member "data" (object (data_members d)) end)))

-- The envelope round the data.
event_built :
    (ms run_data : Members) (d : Delta)
    → has_exact_keys ("type" ∷ "seq" ∷ "time" ∷ "data" ∷ []) ms ≡ true
    → get "type" ms ≡ some (text "assistant/chunk")
    → get "seq" ms ≡ some (number (int (pos d.seq)))
    → get "time" ms ≡ some (number (int d.time))
    → get "data" ms ≡ some (object run_data)
    → Same (object run_data) (object (data_members d))
    → Same (object ms) (event_of d)
event_built ms run_data d exact typed seqs times held alike =
    rebuilt ms (event_members d) (refl, (refl, (refl, (refl, tt)))) exact
      (
        (_, typed, same_value _),
        ((_, seqs, same_value _), ((_, times, same_value _), ((_, held, alike), tt))),
      )

members-Same :
    (ms : Members) (d : Delta)
    → get "type" ms ≡ some (text "assistant/chunk")
    → has_exact_keys ("type" ∷ "seq" ∷ "time" ∷ "data" ∷ []) ms ≡ true
    → classify_members ms ≡ some d
    → Same (object ms) (event_of d) × IsSafe d
members-Same ms d typed exact h = bind_then (as_seq (get "seq" ms)) _ d h λ seq q_read h1.
    bind_then (as_safe (get "time" ms)) _ d h1 λ time t_read h2.
      bind_then (as_object (get "data" ms)) _ d h2 λ run_data d_read h3.
        let (shape, body) = guard-some _ (classify_data seq time run_data) d h3 in
        let (seqs, times, alike) = data-Same run_data seq time d shape body in
        let (seq_there, seq_safe) = as_seq-some (get "seq" ms) seq q_read in
        let (time_there, time_safe) = as_safe-some (get "time" ms) time t_read in
        (
          event_built ms run_data d exact typed
              (seq_there ∙ ap (λ n. some (number (int (pos n)))) (sym seqs))
              (time_there ∙ ap (λ n. some (number (int n))) (sym times))
              (as_object-some (get "data" ms) run_data d_read) alike,
          (ap (λ n. is_safe (pos n)) seqs ∙ seq_safe, ap is_safe times ∙ time_safe),
        )

-- A classified event is its delta's event up to the order of members, and its numbers are safe.
pub classify-Same : (v : Value) (d : Delta) → classify v ≡ some d → Same v (event_of d) × IsSafe d
unfolding classify
classify-Same (object ms) d h =
    let (typed, rest) = guard-some _ _ d h in
    let (exact, read) = guard-some _ (classify_members ms) d rest in
    members-Same ms d
      (as_text-some (get "type" ms) "assistant/chunk"
        (is_text-some "assistant/chunk" (as_text (get "type" ms)) typed))
      exact read
classify-Same (number n) d h = ground (arith, h)
classify-Same (text t) d h = ground (arith, h)
classify-Same (array vs) d h = ground (arith, h)
classify-Same null d h = ground (arith, h)
classify-Same (boolean b) d h = ground (arith, h)
