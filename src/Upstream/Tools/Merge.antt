-- ===== src/Upstream/Tools/Merge.antt =====
-- internal/upstream/tool_pairing.go: `mergeAdjacentToolCalls`, with the last message put out as the
-- one that the next may be merged into. Of a message that is merged into another, nothing goes on but
-- its calls, its text and its reasoning.
pub mod Join
pub mod Reasoning
pub mod Lossless
use Prim.Native.String.{◌++◌ as concat}
use workbuddy2plus_plugin.Base.{
  String, Bool, true, false, not, ◌&&◌, Option, none, some, List, [], ◌∷◌, ◌++◌, str_eq, ltb, ◌==◌,
  if◌then◌else◌, length, Dict, lookup, insert,
}
use workbuddy2plus_plugin.Upstream.Json.{
  Json, null, flag, num, text, arr, obj, maps, items, as_map, of_map, of_list, value_at, text_at,
  list_at,
}
use workbuddy2plus_plugin.Upstream.Tools.{role_is}

module _ {F : Type 0} where
  unfoldable pub empty_content : Json F → Bool
  empty_content null = true
  empty_content (text s) = str_eq s ""
  empty_content (arr xs) = length (items xs) == 0
  empty_content (flag b) = false
  empty_content (num x) = false
  empty_content (obj fs) = false
  empty_content (maps rs) = false

  unfoldable pub merge_reasoning_content : Dict (Json F) → Dict (Json F) → Dict (Json F)
  merge_reasoning_content dst src =
      let rc = text_at "reasoning_content" src in
      let prev = text_at "reasoning_content" dst in
      if str_eq rc ""
      then dst
      else if str_eq prev ""
      then insert "reasoning_content" (text rc) dst
      else insert "reasoning_content" (text (concat prev (concat "\n" rc))) dst

  -- An assistant message that declares calls.
  unfoldable pub has_calls : Dict (Json F) → Bool
  has_calls d = role_is "assistant" d && ltb 0 (length (list_at "tool_calls" d))

  unfoldable pub has_key : String → Dict (Json F) → Bool
  has_key k d = elim (lookup k d) [ none ↦ false | some v ↦ true ]

  -- The first form: calls without content behind calls.
  unfoldable pub merge_calls : Dict (Json F) → Dict (Json F) → Option (Dict (Json F))
  unfolding has_calls empty_content merge_reasoning_content
  merge_calls prev msg =
      if (has_calls msg && empty_content (value_at "content" msg)) && has_calls prev
      then some (
          merge_reasoning_content
            (insert "tool_calls" (of_list (list_at "tool_calls" prev ++ list_at "tool_calls" msg))
              prev)
            msg)
      else none

  -- The second form: a text without calls behind calls without content.
  unfoldable pub merge_text : Dict (Json F) → Dict (Json F) → Option (Dict (Json F))
  unfolding has_calls has_key empty_content merge_reasoning_content
  merge_text prev msg =
      if (role_is "assistant" msg
          && (not (has_key "tool_calls" msg) && not (str_eq (text_at "content" msg) "")))
        && (has_calls prev && empty_content (value_at "content" prev))
      then some (merge_reasoning_content (insert "content" (text (text_at "content" msg)) prev) msg)
      else none

  unfoldable pub merged : Dict (Json F) → Dict (Json F) → Option (Json F)
  unfolding merge_calls merge_text
  merged prev msg = elim (merge_calls prev msg) [
    | some both ↦ some (of_map both)
    | none ↦ elim (merge_text prev msg) [ none ↦ none | some both ↦ some (of_map both) ]
  ]

  unfoldable pub join : Json F → Json F → Option (Json F)
  unfolding merged
  join last m = elim (as_map m) [
    | none ↦ none
    | some msg ↦ elim (as_map last) [ none ↦ none | some prev ↦ merged prev msg ]
  ]

  -- The loop behind a message that was put out last.
  unfoldable pub merge_behind : Json F → List (Json F) → List (Json F) × Bool
  unfolding join
  merge_behind last [] = (last ∷ [], false)
  merge_behind last (m ∷ ms) = elim (join last m) [
    | some both ↦ ((merge_behind both ms).0, true)
    | none ↦ let out = merge_behind m ms in (last ∷ out.0, out.1)
  ]

  unfoldable pub merge_adjacent_tool_calls : List (Json F) → List (Json F) × Bool
  unfolding merge_behind
  merge_adjacent_tool_calls [] = ([], false)
  merge_adjacent_tool_calls (m ∷ ms) =
      let out = merge_behind m ms in if out.1 then (out.0, true) else (m ∷ ms, false)
