-- ===== src/Upstream/Payload.antt =====
-- internal/upstream/payload.go: the three passes of `PrepareBodyOptWithEffortsAndDefault` over the
-- messages of a request, one after the other, and its three steps on the reasoning.
pub mod Messages
pub mod Reasoning
pub mod Assistants
use workbuddy2plus_plugin.Base.{String, List, Dict}
use workbuddy2plus_plugin.Upstream.Json.{Json, text_at}
use workbuddy2plus_plugin.Upstream.Effort.{normalize_reasoning_effort}
use workbuddy2plus_plugin.Upstream.Thinking.{
  lookup_default_effort, inject_thinking, backfill_reasoning_content,
}
use workbuddy2plus_plugin.Upstream.Tools.Merge.{merge_adjacent_tool_calls}
use workbuddy2plus_plugin.Upstream.Tools.Repack.{repack_tool_result_blocks}
use workbuddy2plus_plugin.Upstream.Tools.Cleanup.{cleanup_orphan_tool_calls}

module _ {F : Type 0} where
  -- `obj["messages"]` after the passes.
  unfoldable pub prepare_messages : List (Json F) → List (Json F)
  unfolding merge_adjacent_tool_calls repack_tool_result_blocks cleanup_orphan_tool_calls
  prepare_messages ms =
      (cleanup_orphan_tool_calls (repack_tool_result_blocks (merge_adjacent_tool_calls ms).0).0).0

  -- The request after `injectThinking`, `normalizeReasoningEffort` and `backfillReasoningContent`.
  unfoldable pub prepare_thinking : Dict String → Dict (List String) → Dict (Json F) → Dict (Json F)
  unfolding inject_thinking normalize_reasoning_effort backfill_reasoning_content
  prepare_thinking defaults efforts d = backfill_reasoning_content (
      normalize_reasoning_effort efforts
        (inject_thinking (lookup_default_effort defaults (text_at "model" d)) d))
