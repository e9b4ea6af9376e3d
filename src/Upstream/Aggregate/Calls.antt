-- ===== src/Upstream/Aggregate/Calls.antt =====
-- internal/upstream/sse.go: `mergeToolCallsChunk`, `nextToolIndex` and `mergeToolCallDelta`, which put
-- the fragments of the tool calls of a stream together.
use workbuddy2plus_plugin.Base.{
  ℕ, suc, zero, ◌+◌, ℤ, pos, String, Bool, true, false, not, Option, none, some, List, [], ◌∷◌,
  if◌then◌else◌, length, str_eq, Dict, lookup, insert, ◌++◌,
}
use mathlib.Core.Option
use workbuddy2plus_plugin.Pool.Floats.{Floats}
use workbuddy2plus_plugin.Upstream.Json.{Json, text, num, as_map, as_num, value_at, text_at, of_map}
use workbuddy2plus_plugin.Upstream.Markup.Scan.{◌<>◌}
use workbuddy2plus_plugin.Upstream.Frames.{same_index, copy_text}

-- The variables of `Aggregate`. `tool_calls` is a map by index.
pub record Answer (F : Type 0) : Type 0 where
  pub id : String
  pub model : String
  pub created : F
  pub content : String
  pub reasoning : String
  pub role : String
  pub finish_reason : String
  pub usage : Option (Dict (Json F))
  pub got_any_content : Bool
  pub valid_events : ℕ
  pub tool_calls : List (ℤ × Dict (Json F))
  pub tool_order : List ℤ
  pub tool_seq : ℕ
  pub id_index : Dict ℤ

module _ {V : Type 0} where
  unfoldable pub call_at : ℤ → List (ℤ × V) → Option V
  call_at idx [] = none
  call_at idx (kv ∷ rest) = if same_index kv.0 idx then some kv.1 else call_at idx rest

  unfoldable pub set_call : ℤ → V → List (ℤ × V) → List (ℤ × V)
  set_call idx v [] = (idx, v) ∷ []
  set_call idx v (kv ∷ rest) =
      if same_index kv.0 idx then (idx, v) ∷ rest else kv ∷ set_call idx v rest

  abbrev pub is_used : List (ℤ × V) → ℤ → Bool
  is_used calls idx = elim (call_at idx calls) [ none ↦ false | some v ↦ true ]

  -- `nextToolIndex`, with fuel: the index and the new `toolSeq`.
  unfoldable pub next_tool_index : ℕ → List (ℤ × V) → ℕ → Option (ℕ × ℕ)
  unfolding call_at
  next_tool_index zero calls seq = none
  next_tool_index (suc fuel) calls seq = elim (is_used calls (pos seq)) [
    | true ↦ next_tool_index fuel calls (seq + 1)
    | false ↦ some (seq, seq + 1)
  ]

-- The last index of the order of the calls.
unfoldable pub last_index : List ℤ → Option ℤ
last_index [] = none
last_index (i ∷ []) = some i
last_index (i ∷ j ∷ rest) = last_index (j ∷ rest)

module _ {F : Type 0} where
  -- What the fragment adds to the arguments so far.
  unfoldable pub merge_arguments : Dict (Json F) → Dict (Json F) → Dict (Json F)
  merge_arguments df mf =
      let v = text_at "arguments" df in
      let prev = text_at "arguments" mf in
      if str_eq v ""
      then mf
      else insert "arguments" (text (if str_eq prev "" then v else prev <> v)) mf

  abbrev pub map_of : Json F → Dict (Json F)
  map_of v = elim (as_map v) [ none ↦ [] | some m ↦ m ]

  unfoldable pub merge_tool_call_delta : Dict (Json F) → Dict (Json F) → Dict (Json F)
  unfolding copy_text merge_arguments
  merge_tool_call_delta merged delta =
      let named = copy_text "type" delta (copy_text "id" delta merged) in
      elim (as_map (value_at "function" delta)) [
        | none ↦ named
        | some df ↦
            insert "function"
              (of_map
                (merge_arguments df (copy_text "name" df (map_of (value_at "function" named)))))
              named
      ]

module _ {F : Type 0} (fl : Floats F) where
  unfoldable pub new_index : Answer F → Option (ℤ × Answer F)
  unfolding next_tool_index
  new_index a =
      Option.map (λ p. (pos p.0, record a { tool_seq = p.1 }))
        (next_tool_index (suc (length a.tool_calls)) a.tool_calls a.tool_seq)

  -- The index that a fragment belongs to.
  unfoldable pub index_for : Dict (Json F) → Answer F → Option (ℤ × Answer F)
  unfolding new_index last_index
  index_for call a = elim (as_num (value_at "index" call)) [
    | some v ↦ some (fl.to_int v, a)
    | none ↦
        if not (str_eq (text_at "id" call) "")
        then elim (lookup (text_at "id" call) a.id_index) [
          | some known ↦ some (known, a)
          | none ↦ new_index a
        ]
        else elim (last_index a.tool_order) [ some last ↦ some (last, a) | none ↦ new_index a ]
  ]

  unfoldable pub note_id : String → ℤ → Dict ℤ → Dict ℤ
  note_id id idx ids = if str_eq id "" then ids else insert id idx ids

  -- What the fragment does under the index that it belongs to.
  unfoldable pub merge_at : Dict (Json F) → ℤ → Answer F → Answer F
  unfolding merge_tool_call_delta call_at set_call note_id
  merge_at call idx a =
      let merged = elim (call_at idx a.tool_calls) as (λ o. Dict (Json F)) [
        | none ↦ ("index", num (fl.of_int idx)) ∷ []
        | some m ↦ m
      ] in
      record a {
        tool_calls = set_call idx (merge_tool_call_delta merged call) a.tool_calls;
        tool_order = elim (call_at idx a.tool_calls) [
          | none ↦ a.tool_order ++ (idx ∷ [])
          | some m ↦ a.tool_order
        ];
        id_index = note_id (text_at "id" merged) idx (note_id (text_at "id" call) idx a.id_index);
      }

  unfoldable pub merge_tool_call : Json F → Answer F → Option (Answer F)
  unfolding index_for merge_at
  merge_tool_call tc a = elim (as_map tc) [
    | none ↦ some a
    | some call ↦ Option.map (λ p. merge_at call p.0 p.1) (index_for call a)
  ]

  unfoldable pub merge_tool_calls_chunk : List (Json F) → Answer F → Option (Answer F)
  unfolding merge_tool_call
  merge_tool_calls_chunk [] a = some a
  merge_tool_calls_chunk (tc ∷ tcs) a = elim (merge_tool_call tc a) [
    | none ↦ none
    | some b ↦ merge_tool_calls_chunk tcs b
  ]
