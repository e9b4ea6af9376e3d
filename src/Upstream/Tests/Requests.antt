-- ===== src/Upstream/Tests/Requests.antt =====
-- internal/upstream/payload.go: the reasoning of concrete requests.
use workbuddy2plus_plugin.Base.{
  ℕ, String, ◌≡◌, refl, ◌⊎◌, inl, none, some, List, [], ◌∷◌, map, All, Dict, insert, lookup,
}
use mathlib.Core.Bool
use workbuddy2plus_plugin.Upstream.Json.{
  Json, text, arr, no_items, item, obj, no_fields, field, as_map, as_text, value_at, text_at,
  list_at,
}
use workbuddy2plus_plugin.Upstream.Texts.{trim, trim_left, trim_right, lower_starts}
use workbuddy2plus_plugin.Upstream.Effort.{requested, supported_of, normalize_reasoning_effort}
use workbuddy2plus_plugin.Upstream.Effort.Chosen.{IsChosen}
use workbuddy2plus_plugin.Upstream.Effort.Written.{IsLeft, normalize_reasoning_effort_lem}
use workbuddy2plus_plugin.Upstream.Thinking.{is_deep_seek_model, thinking_type, fill_message}
use workbuddy2plus_plugin.Upstream.Thinking.Filled.{IsFilled}
use workbuddy2plus_plugin.Upstream.Payload.{prepare_thinking}
use workbuddy2plus_plugin.Upstream.Payload.Reasoning.{WantsThinking}
use workbuddy2plus_plugin.Upstream.Payload.Assistants.{prepare_thinking_lem}

abbrev levels : Dict (List String)
levels = ("DeepSeek-v4", "low" ∷ "Medium" ∷ "max" ∷ []) ∷ []

abbrev said : Json ℕ
said = obj (field "role" (text "assistant") (field "content" (text "yes") no_fields))

abbrev asked : Dict (Json ℕ)
asked =
    ("model", text "DeepSeek-v4")
    ∷ ("reasoning_effort", text " HIGH ")
    ∷ ("messages", arr (item said no_items))
    ∷ []

deep_seek : is_deep_seek_model (text_at "model" asked) ≡ Bool.true
unfolding is_deep_seek_model text_at value_at lookup as_text trim trim_left trim_right lower_starts
deep_seek = refl

wants : WantsThinking asked
unfolding thinking_type value_at lookup as_map
wants = (deep_seek, inl refl)

normalize_reasoning_effort_lem_example :
    ((requested asked ≡ none) × (normalize_reasoning_effort levels asked ≡ asked))
    ⊎ ((key : String) × (req : ℕ) × (requested asked ≡ some (key, req))
        × ((IsLeft req (supported_of levels asked)
              × (normalize_reasoning_effort levels asked ≡ asked))
            ⊎ ((level : String) × IsChosen req (supported_of levels asked) level
                × (normalize_reasoning_effort levels asked ≡ insert key (text level) asked))))
normalize_reasoning_effort_lem_example = normalize_reasoning_effort_lem levels asked

prepare_thinking_lem_example :
    (list_at "messages" (prepare_thinking [] levels asked)
      ≡ map fill_message (list_at "messages" asked))
    × All IsFilled (list_at "messages" (prepare_thinking [] levels asked))
prepare_thinking_lem_example = prepare_thinking_lem [] levels asked wants
