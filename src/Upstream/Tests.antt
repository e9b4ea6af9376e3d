-- ===== src/Upstream/Tests.antt =====
-- A request with a split pair of results, an orphan of each kind and calls in two messages, and what
-- the theorems say of it.
pub mod Requests
pub mod Streams
pub mod Chunks
pub mod Keys
use workbuddy2plus_plugin.Base.{ℕ, String, ◌≡◌, refl, false, List, [], ◌∷◌, lookup, keep, arith}
use workbuddy2plus_plugin.Upstream.Json.{
  Json, Items, as_map, as_text, value_at, list_at, as_list, text_at, text, arr, obj, no_items, item,
  no_fields, field,
}
use workbuddy2plus_plugin.Upstream.Tools.{role_is, call_id, is_in, calls_of}
use workbuddy2plus_plugin.Upstream.Tools.Cleanup.{
  declared, answered, bad_names, keep_call, cleanup_orphan_tool_calls,
}
use workbuddy2plus_plugin.Upstream.Tools.Cleanup.Pairing.{cleanup_orphan_tool_calls-again}
use workbuddy2plus_plugin.Upstream.Tools.Repack.{repack_all, repack_tool_result_blocks}
use workbuddy2plus_plugin.Upstream.Tools.Repack.Order.{
  is_tool, is_other, repack_tool_result_blocks-order,
}
use workbuddy2plus_plugin.Upstream.Tools.Repack.Again.{repack_tool_result_blocks-again}
use workbuddy2plus_plugin.Upstream.Payload.{prepare_messages}
use workbuddy2plus_plugin.Upstream.Payload.Messages.{prepare_messages_lem}

abbrev call : String → String → Json ℕ
call id name =
    obj
      (field "id" (text id) (field "function" (obj (field "name" (text name) no_fields)) no_fields))

abbrev declares : Items ℕ → Json ℕ
declares calls = obj (field "role" (text "assistant") (field "tool_calls" (arr calls) no_fields))

abbrev answers : String → Json ℕ
answers id = obj (field "role" (text "tool") (field "tool_call_id" (text id) no_fields))

abbrev notice : Json ℕ
notice = obj (field "role" (text "user") (field "content" (text "resized") no_fields))

abbrev request : List (Json ℕ)
request =
    declares (item (call "a" "read") (item (call "x" " ") no_items))
    ∷ declares (item (call "b" "write") (item (call "c" "run") no_items))
    ∷ answers "a"
    ∷ notice
    ∷ answers "b"
    ∷ answers "x"
    ∷ answers "d"
    ∷ []

packed :
    (repack_tool_result_blocks (
      declares (item (call "a" "read") (item (call "b" "write") no_items))
      ∷ answers "a"
      ∷ notice
      ∷ answers "b"
      ∷ [])).0
    ≡ declares (item (call "a" "read") (item (call "b" "write") no_items))
      ∷ answers "a"
      ∷ answers "b"
      ∷ notice
      ∷ []
unfolding repack_tool_result_blocks repack_all calls_of as_map role_is as_text value_at lookup
    list_at as_list call_id text_at
packed = refl

prepare_messages_lem_example :
    (is_in (declared (prepare_messages request)) "a" ≡ keep_call request "a")
    × (is_in (answered (prepare_messages request)) "a" ≡ keep_call request "a")
    × (is_in (bad_names (prepare_messages request)) "a" ≡ false)
prepare_messages_lem_example = prepare_messages_lem request "a" (λ q. cc (q))

repack_tool_result_blocks-order_example :
    (keep is_tool (repack_tool_result_blocks request).0 ≡ keep is_tool request)
    × (keep is_other (repack_tool_result_blocks request).0 ≡ keep is_other request)
repack_tool_result_blocks-order_example = repack_tool_result_blocks-order request

repack_tool_result_blocks-again_example :
    repack_tool_result_blocks (repack_tool_result_blocks request).0
    ≡ ((repack_tool_result_blocks request).0, false)
repack_tool_result_blocks-again_example = repack_tool_result_blocks-again request
