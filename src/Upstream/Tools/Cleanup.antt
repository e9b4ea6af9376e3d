-- ===== src/Upstream/Tools/Cleanup.antt =====
-- internal/upstream/tool_pairing.go: `cleanupOrphanToolCalls`. The messages are decoded JSON, so no
-- two of them are one map, and a write to a map is a write to that message alone.
pub mod Message
pub mod Pairing
use workbuddy2plus_plugin.Base.{
  String, Bool, true, false, not, ◌&&◌, ◌||◌, none, some, List, [], ◌∷◌, map, str_eq, ◌==◌,
  if◌then◌else◌, length, keep, some_of, Dict, insert, delete,
}
use workbuddy2plus_plugin.Upstream.Json.{Json, as_map, of_map, of_list}
use workbuddy2plus_plugin.Upstream.Tools.{is_in, gather, call_id, calls_of, answers_of, bad_name}

abbrev pub is_empty : String → Bool
is_empty s = str_eq s ""

module _ {F : Type 0} where
  -- The ids of the tool calls that the messages declare, the ids that they answer, and those of
  -- calls with a blank name; an id that is missing is "".
  unfoldable pub declared : List (Json F) → List String
  declared ms = map call_id (gather calls_of ms)

  unfoldable pub answered : List (Json F) → List String
  answered ms = gather answers_of ms

  unfoldable pub bad_names : List (Json F) → List String
  bad_names ms = gather bad_name (gather calls_of ms)

  -- `keepCalls[id]`
  unfoldable pub keep_call : List (Json F) → String → Bool
  keep_call ms id =
      not (is_empty id)
      && (is_in (declared ms) id && (not (is_in (bad_names ms) id) && is_in (answered ms) id))

  unfoldable pub has_traffic : List (Json F) → Bool
  has_traffic ms =
      some_of (λ id. not (is_empty id)) (declared ms)
      || some_of (λ id. not (is_empty id)) (answered ms)

  -- The calls that are kept of those that one message declares.
  unfoldable pub kept_calls : (String → Bool) → List (Json F) → List (Json F)
  kept_calls kept calls = keep (λ call. kept (call_id call)) calls

  unfoldable pub is_cut : (String → Bool) → Json F → Bool
  unfolding kept_calls
  is_cut kept m = not (length (kept_calls kept (calls_of m)) == length (calls_of m))

  -- The message with the calls that are left; without any the key goes.
  unfoldable pub put_calls : Dict (Json F) → List (Json F) → Dict (Json F)
  put_calls d [] = delete "tool_calls" d
  put_calls d (call ∷ rest) = insert "tool_calls" (of_list (call ∷ rest)) d

  unfoldable pub clean_message : (String → Bool) → Json F → Json F
  clean_message kept m = elim (as_map m) [
    | none ↦ m
    | some d ↦ if is_cut kept m then of_map (put_calls d (kept_calls kept (calls_of m))) else m
  ]

  -- A tool message whose call is not kept.
  unfoldable pub is_orphan : (String → Bool) → Json F → Bool
  is_orphan kept m = some_of (λ id. not (kept id)) (answers_of m)

  unfoldable pub cleanup_orphan_tool_calls : List (Json F) → List (Json F) × Bool
  unfolding keep_call clean_message is_orphan is_cut has_traffic
  cleanup_orphan_tool_calls ms =
      let kept = keep_call ms in
      if not (has_traffic ms)
      then (ms, false)
      else if some_of (is_cut kept) ms || some_of (is_orphan kept) ms
      then (keep (λ m. not (is_orphan kept m)) (map (clean_message kept) ms), true)
      else (ms, false)
