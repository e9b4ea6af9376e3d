-- ===== src/Upstream/Aggregate/Text.antt =====
-- internal/upstream/sse.go: `Aggregate` always ends, it fails exactly on a stream without events, and
-- it loses no text.
use Prim.Native.String.{String}
use text.Mathlib.TextLemmas.{nil-append, append-nil, append_assoc}
use workbuddy2plus_plugin.Base.{
  ◌+◌, ◌≡◌, refl, sym, ap, ◌∙◌, inl, inr, Bool, true, false, not, Option, none, some, List, [], ◌∷◌,
  if◌then◌else◌, length, str_eq, starts_with, Dict, Bool-cases, All, arith, ◌==◌,
}
use workbuddy2plus_plugin.Pool.Floats.{Floats}
use workbuddy2plus_plugin.Upstream.Json.{Json, list_at}
use workbuddy2plus_plugin.Upstream.Markup.Scan.{◌<>◌, after}
use workbuddy2plus_plugin.Upstream.Frames.{Decoded, failed, nil_map, decoded}
use workbuddy2plus_plugin.Upstream.Aggregate.Calls.{Answer}
use workbuddy2plus_plugin.Upstream.Aggregate.{merge_event, read_lines, empty_answer}
use workbuddy2plus_plugin.Upstream.Aggregate.Finish.{
  Surroundings, Aggregated, empty_stream, response, response_of, aggregate,
}
use workbuddy2plus_plugin.Upstream.Aggregate.Added.{
  choices_text, chunks_text, ChunkHasNoMessage, event-Adds,
}

module _ {F : Type 0} where
  -- The events of a stream: what its data lines decode to, up to the end mark.
  abbrev pub events : (String → Decoded F) → List String → List (Dict (Json F))
  events decode [] = []
  events decode (line ∷ lines) =
      let rest = events decode lines in
      if not (starts_with line "data: ")
      then rest
      else if str_eq (after "data: " line) "[DONE]"
      then []
      else elim (decode (after "data: " line)) [
        | failed ↦ rest
        | nil_map ↦ [] ∷ rest
        | decoded chunk ↦ chunk ∷ rest
      ]

module _ {F : Type 0} (fl : Floats F) where
  abbrev Reads : List (Dict (Json F)) → Answer F → Option (Answer F × Bool) → Type 0
  Reads chunks a result =
      (b : Answer F) × (done : Bool) × (result ≡ some (b, done))
      × (b.valid_events ≡ a.valid_events + length chunks)
      × (All (ChunkHasNoMessage fl) chunks → b.content ≡ a.content <> chunks_text chunks)

  -- One event, and then the others.
  Reads-cons :
      (chunk : Dict (Json F)) (chunks : List (Dict (Json F))) (a : Answer F)
      (more : Answer F → Option (Answer F × Bool))
      → ((b : Answer F) → Reads chunks b (more b))
      → Reads (chunk ∷ chunks) a (elim (merge_event fl chunk a) [ none ↦ none | some b ↦ more b ])
  Reads-cons chunk chunks a more ih =
      let x = event-Adds fl chunk a in
      let y = ih x.0 in
      (
        y.0,
        y.1,
        ap (λ o. elim o [ none ↦ none | some b ↦ more b ]) x.1 ∙ y.2,
        omega (arith, y.3, x.2),
        λ h.
            y.4 h.1
            ∙ ap (λ u. u <> chunks_text chunks) (x.3 h.0)
            ∙ append_assoc a.content (choices_text (list_at "choices" chunk)) (chunks_text chunks),
      )

  Reads-decoded :
      (x : Decoded F) (chunks : List (Dict (Json F))) (a : Answer F)
      (more : Answer F → Option (Answer F × Bool))
      → ((b : Answer F) → Reads chunks b (more b))
      → Reads
          (elim x [ failed ↦ chunks | nil_map ↦ [] ∷ chunks | decoded chunk ↦ chunk ∷ chunks ])
          a
          (elim (elim x as (λ y. Option (Answer F)) [
            | failed ↦ some a
            | nil_map ↦ merge_event fl [] a
            | decoded chunk ↦ merge_event fl chunk a
          ])
            as (λ o. Option (Answer F × Bool)) [ none ↦ none | some b ↦ more b ])
  Reads-decoded failed chunks a more ih = ih a
  Reads-decoded nil_map chunks a more ih = Reads-cons [] chunks a more ih
  Reads-decoded (decoded chunk) chunks a more ih = Reads-cons chunk chunks a more ih

  read_lines-Reads :
      (decode : String → Decoded F) (lines : List String) (a : Answer F)
      → Reads (events decode lines) a (read_lines fl decode lines a)
  unfolding read_lines
  read_lines-Reads decode [] a = (a, false, refl, omega arith, λ h. sym (append-nil a.content))
  read_lines-Reads decode (line ∷ lines) a = elim (Bool-cases (starts_with line "data: ")) [
    | inr n ↦ rw (n, read_lines, events) (read_lines-Reads decode lines a)
    | inl y ↦ elim (Bool-cases (str_eq (after "data: " line) "[DONE]")) [
      | inl d ↦
          rw (y, read_lines, events)
            (rw d (a, true, refl, omega arith, λ h. sym (append-nil a.content)))
      | inr d ↦
          rw (y, read_lines, events)
            (rw d (
              Reads-decoded (decode (after "data: " line)) (events decode lines) a
                (read_lines fl decode lines) (read_lines-Reads decode lines)))
    ]
  ]

  -- The aggregation of a stream always ends. It fails, as an empty stream, exactly if no data line
  -- before the end mark decodes. Otherwise its response is made of an answer that has counted every event
  -- and, if no choice carries a whole message, has the texts of all deltas, in their order.
  pub aggregate_lem :
      (s : Surroundings F) (lines : List String)
      → (a : Answer F) × (done : Bool) × (aggregate fl s lines
          ≡ some (
              if length (events s.decode lines) == 0
              then empty_stream
              else response (response_of fl s a done)))
        × (a.valid_events ≡ length (events s.decode lines))
        × (All (ChunkHasNoMessage fl) (events s.decode lines)
            → a.content ≡ chunks_text (events s.decode lines))
  unfolding aggregate
  aggregate_lem s lines =
      let (a, done, found, count, text) = read_lines-Reads s.decode lines (empty_answer fl) in
      let n : a.valid_events ≡ length (events s.decode lines) = omega (arith, count) in
      (
        a,
        done,
        ap
              (λ o. elim o as (λ x. Option (Aggregated F)) [
                | none ↦ none
                | some (b, d) ↦
                    some (
                      if b.valid_events == 0 then empty_stream else response (response_of fl s b d))
              ])
              found
            ∙ ap (λ k. some (if k == 0 then empty_stream else response (response_of fl s a done)))
                n,
        n,
        λ h. text h ∙ nil-append (chunks_text (events s.decode lines)),
      )
