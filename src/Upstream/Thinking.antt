-- ===== src/Upstream/Thinking.antt =====
-- internal/upstream/thinking.go: `injectThinking` and `backfillReasoningContent`. The loops write to
-- the messages in place, which is the new value of `messages` in the request.
pub mod Filled
use workbuddy2plus_plugin.Base.{
  String, Bool, true, false, not, ◌&&◌, ◌||◌, none, some, List, [], ◌∷◌, map, str_eq, if◌then◌else◌,
  some_of, length, ◌==◌, Dict, lookup, insert, delete,
}
use workbuddy2plus_plugin.Upstream.Json.{
  Json, text, as_map, as_list, as_text, value_at, text_at, of_list, of_map,
}
use workbuddy2plus_plugin.Upstream.Texts.{trim, lower_starts, fold_is}
use workbuddy2plus_plugin.Upstream.Tools.{role_is}
use workbuddy2plus_plugin.Upstream.Tools.Merge.{has_key}

unfoldable pub is_deep_seek_model : String → Bool
is_deep_seek_model model = lower_starts (trim model) "deepseek"

unfoldable pub lookup_default_effort : Dict String → String → String
lookup_default_effort efforts model =
    if str_eq model "" then "" else elim (lookup model efforts) [ none ↦ "" | some e ↦ e ]

module _ {F : Type 0} where
  unfoldable pub ensure_deep_seek_effort : String → Dict (Json F) → Dict (Json F)
  unfolding has_key
  ensure_deep_seek_effort default d =
      if has_key "reasoning_effort" d || has_key "reasoningEffort" d
      then d
      else insert "reasoning_effort" (text (if str_eq default "" then "high" else default)) d

  -- `th["type"]`, trimmed, of a `thinking` that is an object.
  unfoldable pub thinking_type : Dict (Json F) → String
  thinking_type d = elim (as_map (value_at "thinking" d)) [
    | none ↦ ""
    | some th ↦ trim (text_at "type" th)
  ]

  unfoldable pub enabled : Dict (Json F) → Dict (Json F)
  enabled d = elim (as_map (value_at "thinking" d)) [
    | none ↦ insert "thinking" (of_map (("type", text "enabled") ∷ [])) d
    | some th ↦ insert "thinking" (of_map (insert "type" (text "enabled") th)) d
  ]

  unfoldable pub inject_thinking : String → Dict (Json F) → Dict (Json F)
  unfolding ensure_deep_seek_effort thinking_type enabled is_deep_seek_model
  inject_thinking default d =
      if not (is_deep_seek_model (text_at "model" d))
      then d
      else if str_eq (thinking_type d) ""
      then ensure_deep_seek_effort default (enabled d)
      else if fold_is (thinking_type d) "disabled"
      then delete "reasoningEffort" (delete "reasoning_effort" d)
      else ensure_deep_seek_effort default d

  -- A message that shows a trace of reasoning.
  unfoldable pub has_trace : Json F → Bool
  unfolding has_key
  has_trace m = elim (as_map m) [
    | none ↦ false
    | some d ↦ not (str_eq (text_at "reasoning" d) "") || has_key "reasoning_content" d
  ]

  -- The reasoning content that a message has, or gets of its reasoning.
  unfoldable pub content_of : Dict (Json F) → String
  content_of d = elim (as_text (value_at "reasoning_content" d)) [
    | some rc ↦ rc
    | none ↦ text_at "reasoning" d
  ]

  unfoldable pub fill_content : Dict (Json F) → Dict (Json F)
  unfolding content_of
  fill_content d = elim (as_text (value_at "reasoning_content" d)) [
    | some rc ↦ d
    | none ↦ insert "reasoning_content" (text (content_of d)) d
  ]

  unfoldable pub fill_reasoning : String → Dict (Json F) → Dict (Json F)
  fill_reasoning rc d =
      if not (str_eq (text_at "reasoning" d) "")
      then d
      else insert "reasoning" (text (if str_eq rc "" then " " else rc)) d

  unfoldable pub fill : Dict (Json F) → Dict (Json F)
  unfolding fill_content fill_reasoning
  fill d = fill_reasoning (content_of d) (fill_content d)

  unfoldable pub fill_message : Json F → Json F
  unfolding fill
  fill_message m = elim (as_map m) [
    | none ↦ m
    | some d ↦ if role_is "assistant" d then of_map (fill d) else m
  ]

  unfoldable pub backfill_reasoning_content : Dict (Json F) → Dict (Json F)
  unfolding fill_message has_trace thinking_type is_deep_seek_model
  backfill_reasoning_content d =
      if not (is_deep_seek_model (text_at "model" d))
      then d
      else elim (as_list (value_at "messages" d)) [
        | none ↦ d
        | some ms ↦
            if length ms == 0
            then d
            else if fold_is (thinking_type d) "enabled" || some_of has_trace ms
            then insert "messages" (of_list (map fill_message ms)) d
            else d
      ]
