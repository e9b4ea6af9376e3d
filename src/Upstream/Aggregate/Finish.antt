-- ===== src/Upstream/Aggregate/Finish.antt =====
-- internal/upstream/sse.go: the end of `Aggregate`, `ensureUsageTotal`, and truncation.go.
use workbuddy2plus_plugin.Base.{
  ℤ, pos, String, Bool, true, false, not, ◌||◌, Option, none, some, List, [], ◌∷◌, ◌==◌,
  if◌then◌else◌, str_eq, Dict, lookup, insert, ltb_ℤ, keep, sort_stable, length,
}
use workbuddy2plus_plugin.Pool.Floats.{Floats}
use workbuddy2plus_plugin.Upstream.Json.{
  Json, text, num, as_map, as_num, value_at, text_at, of_list, of_map, of_maps,
}
use workbuddy2plus_plugin.Upstream.Texts.{is_blank, trim}
use workbuddy2plus_plugin.Upstream.Frames.{Decoded}
use workbuddy2plus_plugin.Upstream.Aggregate.Calls.{Answer, call_at}
use workbuddy2plus_plugin.Upstream.Aggregate.{read_lines, empty_answer}

-- `isTruncatedArguments`; `parses` is whether `json.Unmarshal` takes a text.
unfoldable pub is_truncated_arguments : (String → Bool) → String → Bool
unfolding trim is_blank
is_truncated_arguments parses raw = if is_blank raw then false else not (parses (trim raw))

-- What the environment answers to `Aggregate`: whether a text is JSON, an id made from the clock, and
-- the clock.
pub record Surroundings (F : Type 0) : Type 0 where
  pub decode : String → Decoded F
  pub parses : String → Bool
  pub fresh_id : String
  pub now : F

pub data Aggregated (F : Type 0) : Type 0 where
  empty_stream : Aggregated F
  response : Dict (Json F) → Aggregated F

module _ {F : Type 0} where
  unfoldable pub is_whole : (String → Bool) → Dict (Json F) → Bool
  unfolding is_truncated_arguments
  is_whole parses call = elim (as_map (value_at "function" call)) [
    | none ↦ true
    | some fn ↦ not (is_truncated_arguments parses (text_at "arguments" fn))
  ]

  unfoldable pub drop_truncated_tool_calls :
      (String → Bool) → List (Dict (Json F)) → List (Dict (Json F))
  unfolding is_whole
  drop_truncated_tool_calls parses calls = keep (is_whole parses) calls

  -- The calls in the order of their indices.
  unfoldable pub calls_at : List ℤ → List (ℤ × Dict (Json F)) → List (Dict (Json F))
  unfolding call_at
  calls_at [] calls = []
  calls_at (idx ∷ order) calls = elim (call_at idx calls) [
    | none ↦ calls_at order calls
    | some call ↦ call ∷ calls_at order calls
  ]

  unfoldable pub sorted_calls : Answer F → List (Dict (Json F))
  unfolding calls_at
  sorted_calls a = calls_at (sort_stable ltb_ℤ a.tool_order) a.tool_calls

  -- The calls of the answer: of a stream that broke off, the whole ones.
  unfoldable pub final_calls : (String → Bool) → Bool → Answer F → List (Dict (Json F))
  unfolding sorted_calls drop_truncated_tool_calls
  final_calls parses saw_done a =
      if str_eq a.finish_reason "length" || not saw_done
      then drop_truncated_tool_calls parses (sorted_calls a)
      else sorted_calls a

  unfoldable pub message_of : (String → Bool) → Bool → Answer F → Dict (Json F)
  unfolding final_calls
  message_of parses saw_done a =
      let spoken : Dict (Json F) = ("role", text a.role) ∷ ("content", text a.content) ∷ [] in
      let reasoned =
        if str_eq a.reasoning ""
        then spoken
        else insert "reasoning_content" (text a.reasoning) spoken in
      if length (final_calls parses saw_done a) == 0
      then reasoned
      else insert "tool_calls" (of_maps (final_calls parses saw_done a)) reasoned

module _ {F : Type 0} (fl : Floats F) where
  unfoldable pub ensure_usage_total : Dict (Json F) → Dict (Json F)
  ensure_usage_total u = elim (lookup "total_tokens" u) [
    | some v ↦ u
    | none ↦ elim (as_num (value_at "prompt_tokens" u)) [
      | none ↦ u
      | some p ↦ elim (as_num (value_at "completion_tokens" u)) [
        | none ↦ u
        | some c ↦ insert "total_tokens" (num (fl.add p c)) u
      ]
    ]
  ]

  unfoldable pub response_of : Surroundings F → Answer F → Bool → Dict (Json F)
  unfolding message_of ensure_usage_total
  response_of s a saw_done =
      let created = if fl.eq a.created (fl.of_int (pos 0)) then s.now else a.created in
      let choice : Dict (Json F) =
        ("index", num (fl.of_int (pos 0)))
        ∷ ("message", of_map (message_of s.parses saw_done a))
        ∷ ("finish_reason", text a.finish_reason)
        ∷ [] in
      let base : Dict (Json F) =
        ("id", text (if str_eq a.id "" then s.fresh_id else a.id))
        ∷ ("object", text "chat.completion")
        ∷ ("created", num (fl.of_int (fl.to_int created)))
        ∷ ("model", text a.model)
        ∷ ("choices", of_list (of_map choice ∷ []))
        ∷ [] in
      elim a.usage [ none ↦ base | some u ↦ insert "usage" (of_map (ensure_usage_total u)) base ]

  -- `none` is that the search for a free index ran out of fuel.
  unfoldable pub aggregate : Surroundings F → List String → Option (Aggregated F)
  unfolding read_lines empty_answer response_of
  aggregate s lines = elim (read_lines fl s.decode lines (empty_answer fl)) [
    | none ↦ none
    | some (a, saw_done) ↦
        some (if a.valid_events == 0 then empty_stream else response (response_of s a saw_done))
  ]
