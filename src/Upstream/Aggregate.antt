-- ===== src/Upstream/Aggregate.antt =====
-- internal/upstream/sse.go: `Aggregate`, which makes one response of a stream, with `mergeToolCallDelta`
-- and `ensureUsageTotal` there, and truncation.go. The variables of the function are the record
-- `Answer`; the lines of the stream are a list.
pub mod Calls
pub mod Merge
pub mod Finish
mod Repaired
pub mod Total
pub mod Added
pub mod Text
pub mod Arguments
use workbuddy2plus_plugin.Base.{
  ℕ, suc, zero, ◌+◌, ℤ, pos, String, Bool, true, false, not, ◌&&◌, ◌||◌, Option, none, some, List,
  [], ◌∷◌, ◌++◌, if◌then◌else◌, length, str_eq, starts_with, Dict, ◌==◌, map, keep,
}
use workbuddy2plus_plugin.Pool.Floats.{Floats}
use workbuddy2plus_plugin.Upstream.Json.{
  Json, text, num, as_map, as_list, as_text, as_num, value_at, text_at, list_at,
}
use workbuddy2plus_plugin.Upstream.Markup.Scan.{◌<>◌, after}
use workbuddy2plus_plugin.Upstream.Frames.{Decoded, failed, nil_map, decoded}
use workbuddy2plus_plugin.Upstream.Aggregate.Calls.{Answer, merge_tool_calls_chunk}

module _ {F : Type 0} (fl : Floats F) where
  -- `appendContent`
  unfoldable pub append_content : String → Answer F → Answer F
  append_content t a =
      if str_eq t "" then a else record a { content = a.content <> t; got_any_content = true }

  -- The fields that a delta and a whole message have alike: role, text, reasoning and calls.
  unfoldable pub merge_message_fields : Dict (Json F) → Answer F → Option (Answer F)
  unfolding append_content merge_tool_calls_chunk
  merge_message_fields msg a =
      let role = text_at "role" msg in
      let b : Answer F = if str_eq role "" then a else record a { role = role } in
      let c = append_content (text_at "content" msg) b in
      let d : Answer F = record c { reasoning = c.reasoning <> text_at "reasoning_content" msg } in
      merge_tool_calls_chunk fl (list_at "tool_calls" msg) d

  unfoldable pub merge_delta : Dict (Json F) → Answer F → Option (Answer F)
  unfolding merge_message_fields
  merge_delta c a = elim (as_map (value_at "delta" c)) [
    | none ↦ some a
    | some delta ↦ merge_message_fields delta a
  ]

  unfoldable pub merge_message : Dict (Json F) → Answer F → Option (Answer F)
  unfolding merge_message_fields
  merge_message c a = elim (as_map (value_at "message" c)) [
    | none ↦ some a
    | some msg ↦ if not a.got_any_content then merge_message_fields msg a else some a
  ]

  unfoldable pub with_finish : Dict (Json F) → Answer F → Answer F
  with_finish c a =
      let reason = text_at "finish_reason" c in
      if str_eq reason "" then a else record a { finish_reason = reason }

  unfoldable pub merge_choice : Json F → Answer F → Option (Answer F)
  unfolding merge_delta merge_message with_finish
  merge_choice ci a = elim (as_map ci) [
    | none ↦ some a
    | some c ↦ elim (merge_delta c (with_finish c a)) [ none ↦ none | some b ↦ merge_message c b ]
  ]

  unfoldable pub merge_choices : List (Json F) → Answer F → Option (Answer F)
  unfolding merge_choice
  merge_choices [] a = some a
  merge_choices (ci ∷ cs) a = elim (merge_choice ci a) [ none ↦ none | some b ↦ merge_choices cs b ]

  -- The first id, model and time that are not empty, and the last usage.
  unfoldable pub merge_head : Dict (Json F) → Answer F → Answer F
  merge_head chunk a =
      let created = elim (as_num (value_at "created" chunk)) as (λ o. F) [
        | none ↦ a.created
        | some v ↦ v
      ] in
      record a {
        valid_events = a.valid_events + 1;
        id = if str_eq a.id "" then text_at "id" chunk else a.id;
        model = if str_eq a.model "" then text_at "model" chunk else a.model;
        created = if fl.eq a.created (fl.of_int (pos 0)) then created else a.created;
        usage = elim (as_map (value_at "usage" chunk)) [ none ↦ a.usage | some u ↦ some u ];
      }

  unfoldable pub merge_event : Dict (Json F) → Answer F → Option (Answer F)
  unfolding merge_head merge_choices
  merge_event chunk a = merge_choices (list_at "choices" chunk) (merge_head chunk a)

  -- A line without its end: the rest of the loop's body. A line that is no data, or does not decode,
  -- is skipped.
  unfoldable pub merge_payload : (String → Decoded F) → String → Answer F → Option (Answer F)
  unfolding merge_event
  merge_payload decode payload a = elim (decode payload) [
    | failed ↦ some a
    | nil_map ↦ merge_event [] a
    | decoded chunk ↦ merge_event chunk a
  ]

  -- The loop over the lines, up to the end or to the end mark; the flag says that it came.
  unfoldable pub read_lines :
      (String → Decoded F) → List String → Answer F → Option (Answer F × Bool)
  unfolding merge_payload
  read_lines decode [] a = some (a, false)
  read_lines decode (line ∷ lines) a =
      let next =
        elim (merge_payload decode (after "data: " line) a) as (λ o. Option (Answer F × Bool)) [
          | none ↦ none
          | some b ↦ read_lines decode lines b
        ] in
      let skipped = read_lines decode lines a in
      if not (starts_with line "data: ")
      then skipped
      else if str_eq (after "data: " line) "[DONE]"
      then some (a, true)
      else next

  unfoldable pub empty_answer : Answer F
  empty_answer = record {
    id = "";
    model = "";
    created = fl.of_int (pos 0);
    content = "";
    reasoning = "";
    role = "assistant";
    finish_reason = "stop";
    usage = none;
    got_any_content = false;
    valid_events = 0;
    tool_calls = [];
    tool_order = [];
    tool_seq = 0;
    id_index = [];
  }
