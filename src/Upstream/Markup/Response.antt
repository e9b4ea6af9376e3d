-- ===== src/Upstream/Markup/Response.antt =====
-- internal/upstream/dsml.go: `RepairAggregatedResponse`, and the calls as the values that go out. The
-- clock that the ids are made from is a parameter, and so is the printing of an id.
pub mod Kept
use workbuddy2plus_plugin.Base.{
  ℕ, ◌+◌, String, Bool, not, ◌||◌, Option, none, some, List, [], ◌∷◌, ltb, if◌then◌else◌, length,
  str_eq, Dict, insert, ◌==◌,
}
use workbuddy2plus_plugin.Upstream.Json.{
  Json, text, num, as_map, as_list, value_at, text_at, list_at, of_list, of_map,
}
use workbuddy2plus_plugin.Upstream.Texts.{contains}
use workbuddy2plus_plugin.Upstream.Markup.Scan.{◌<>◌}
use workbuddy2plus_plugin.Upstream.Markup.Block.{MarkupCall, Codec, markup_pipe}
use workbuddy2plus_plugin.Upstream.Markup.{Repair, Fed, enabled, feed, flush, new_repair}

-- What the code asks of its surroundings: the number `float64(n)`, and the id of the call with the
-- index n, which `markupCallID` prints from the clock and the index.
pub record Wire (F : Type 0) : Type 0 where
  pub number : ℕ → F
  pub call_id : ℕ → String

module _ {F : Type 0} where
  -- A choice whose message can be repaired: its text, or none.
  unfoldable pub repairable : Dict (Json F) → Dict (Json F) → Option String
  unfolding contains
  repairable c msg =
      if ltb 0 (length (list_at "tool_calls" msg))
      then none
      else if not (str_eq (text_at "finish_reason" c) "stop")
      then none
      else if str_eq (text_at "content" msg) ""
          || not (contains (text_at "content" msg) markup_pipe)
      then none
      else some (text_at "content" msg)

module _ {F : Type 0} (wire : Wire F) where
  unfoldable pub call_function : MarkupCall → Json F
  call_function call = of_map (("name", text call.name) ∷ ("arguments", text call.arguments) ∷ [])

  unfoldable pub message_calls : ℕ → List MarkupCall → List (Json F)
  unfolding call_function
  message_calls i [] = []
  message_calls i (call ∷ calls) =
      of_map (
        ("id", text (wire.call_id i))
        ∷ ("type", text "function")
        ∷ ("function", call_function call)
        ∷ [])
      ∷ message_calls (i + 1) calls

  unfoldable pub markup_message_tool_calls : List MarkupCall → List (Json F)
  unfolding message_calls
  markup_message_tool_calls calls = message_calls 0 calls

  unfoldable pub markup_tool_calls : List MarkupCall → ℕ → List (Json F)
  unfolding call_function
  markup_tool_calls [] base = []
  markup_tool_calls (call ∷ calls) base =
      of_map (
        ("index", num (wire.number base))
        ∷ ("id", text (wire.call_id base))
        ∷ ("type", text "function")
        ∷ ("function", call_function call)
        ∷ [])
      ∷ markup_tool_calls calls (base + 1)

  -- The choice with what `Feed` and `Flush` made of its text, if there were calls in it.
  unfoldable pub with_calls : Dict (Json F) → Dict (Json F) → Fed → String → Json F
  unfolding markup_message_tool_calls
  with_calls c msg o tail = of_map (
      insert "finish_reason" (text "tool_calls") (
        insert "message"
          (of_map (
            insert "tool_calls" (of_list (markup_message_tool_calls o.calls))
              (insert "content" (text (o.emit <> tail)) msg)))
          c))

  module _ (codec : Codec F) where
    -- One choice, with the repair that all choices of the response share.
    unfoldable pub repair_choice : Repair → Json F → Repair × Json F
    unfolding repairable with_calls feed flush
    repair_choice r ci = elim (as_map ci) [
      | none ↦ (r, ci)
      | some c ↦ elim (as_map (value_at "message" c)) [
        | none ↦ (r, ci)
        | some msg ↦ elim (repairable c msg) [
          | none ↦ (r, ci)
          | some t ↦ elim (feed codec r t) [
            | none ↦ (r, ci)
            | some o ↦
                let tail = flush o.repair in
                (tail.1, (if length o.calls == 0 then ci else with_calls c msg o tail.0))
          ]
        ]
      ]
    ]

    unfoldable pub repair_choices : Repair → List (Json F) → Repair × List (Json F)
    unfolding repair_choice
    repair_choices r [] = (r, [])
    repair_choices r (ci ∷ cs) =
        let one = repair_choice r ci in
        let rest = repair_choices one.0 cs in (rest.0, one.1 ∷ rest.1)

    unfoldable pub repair_aggregated_response :
        Dict (Json F) → List String → Bool → Dict (Json F) × Repair
    unfolding repair_choices enabled new_repair
    repair_aggregated_response resp allowed allow_unknown =
        let r = new_repair allowed allow_unknown in
        if not (enabled r) then (resp, r) else elim (as_list (value_at "choices" resp)) [
          | none ↦ (resp, r)
          | some cs ↦
              let done = repair_choices r cs in (insert "choices" (of_list done.1) resp, done.0)
        ]
