-- ===== src/Upstream/Payload/Messages.antt =====
-- internal/upstream/payload.go: what the passes over the messages leave of a request's tool traffic.
use workbuddy2plus_plugin.Base.{
  String, ◌≡◌, ◌≢◌, refl, sym, ap, ◌∙◌, false, true, not, List, [], map, if◌then◌else◌, Bool-cases,
  Option-cases, inl, inr, arith, ◌&&◌,
}
use workbuddy2plus_plugin.Upstream.Json.{Json, as_map, value_at}
use workbuddy2plus_plugin.Upstream.Tools.{
  is_in, gather, call_id, calls_of, answers_of, bad_name, role_is,
}
use workbuddy2plus_plugin.Upstream.Tools.Members.{gather-keep}
use workbuddy2plus_plugin.Upstream.Tools.Cleanup.{
  declared, answered, bad_names, keep_call, is_empty,
}
use workbuddy2plus_plugin.Upstream.Tools.Cleanup.Message.{is_text_unique, no_calls, of_object-none}
use workbuddy2plus_plugin.Upstream.Tools.Cleanup.Pairing.{cleanup_orphan_tool_calls_lem}
use workbuddy2plus_plugin.Upstream.Tools.Repack.{repack_tool_result_blocks}
use workbuddy2plus_plugin.Upstream.Tools.Repack.Order.{
  is_tool, is_other, repack_tool_result_blocks-order,
}
use workbuddy2plus_plugin.Upstream.Tools.Merge.{merge_adjacent_tool_calls}
use workbuddy2plus_plugin.Upstream.Tools.Merge.Lossless.{merge_adjacent_tool_calls_lem}
use workbuddy2plus_plugin.Upstream.Payload.{prepare_messages}

module _ {F : Type 0} where
  -- Calls stand in messages of other roles, answers in messages of tools.
  tool_no_calls : (m : Json F) → is_tool m ≡ true → calls_of m ≡ []
  unfolding is_tool role_is calls_of
  tool_no_calls m y = elim (Option-cases (as_map m)) [
    | inl q ↦ of_object-none _ m q
    | inr (d, q) ↦
        no_calls m d q
          (is_text_unique "tool" "assistant" (value_at "role" d) refl (rw (q, is_tool) at y))
  ]

  other-calls_of : (m : Json F) → (if is_other m then calls_of m else []) ≡ calls_of m
  unfolding is_other
  other-calls_of m = elim (Bool-cases (is_tool m)) [
    | inl y ↦ rw (tool_no_calls m y) (ground arith)
    | inr n ↦ rw (n, is_other) refl
  ]

  tool-answers_of : (m : Json F) → (if is_tool m then answers_of m else []) ≡ answers_of m
  unfolding is_tool answers_of
  tool-answers_of m = ground arith

  repack-calls_of :
      (ms : List (Json F)) → gather calls_of (repack_tool_result_blocks ms).0 ≡ gather calls_of ms
  repack-calls_of ms =
      sym (gather-keep calls_of calls_of is_other (repack_tool_result_blocks ms).0 other-calls_of)
      ∙ ap (gather calls_of) (repack_tool_result_blocks-order ms).1
      ∙ gather-keep calls_of calls_of is_other ms other-calls_of

  repack-answers_of :
      (ms : List (Json F))
      → gather answers_of (repack_tool_result_blocks ms).0 ≡ gather answers_of ms
  repack-answers_of ms =
      sym
        (gather-keep answers_of answers_of is_tool (repack_tool_result_blocks ms).0 tool-answers_of)
      ∙ ap (gather answers_of) (repack_tool_result_blocks-order ms).0
      ∙ gather-keep answers_of answers_of is_tool ms tool-answers_of

  -- The calls to keep depend on what is declared and answered alone.
  keep_call-agree :
      (xs ys : List (Json F)) (id : String)
      → gather calls_of xs ≡ gather calls_of ys
      → gather answers_of xs ≡ gather answers_of ys
      → keep_call xs id ≡ keep_call ys id
  unfolding keep_call declared answered bad_names
  keep_call-agree xs ys id c a = λ i.
      not (is_empty id)
      && (is_in (map call_id (c i)) id
          && (not (is_in (gather bad_name (c i)) id) && is_in (a i) id))

  -- After the three passes over the messages, an id that is not empty is declared by a call
  -- exactly if the request declares it, with no blank name, and answers it; it is answered by a
  -- tool message under the same condition; and no call of the id has a blank name.
  pub prepare_messages_lem :
      (ms : List (Json F)) (id : String)
      → id ≢ ""
      → let out = prepare_messages ms in
        (is_in (declared out) id ≡ keep_call ms id)
        × (is_in (answered out) id ≡ keep_call ms id)
        × (is_in (bad_names out) id ≡ false)
  unfolding prepare_messages
  prepare_messages_lem ms id e =
      let merged = (merge_adjacent_tool_calls ms).0 in
      let packed = (repack_tool_result_blocks merged).0 in
      let m = merge_adjacent_tool_calls_lem ms in
      let same =
        keep_call-agree packed ms id (repack-calls_of merged ∙ m.0)
          (repack-answers_of merged ∙ m.1) in
      let q = cleanup_orphan_tool_calls_lem packed id e in (q.0 ∙ same, q.1 ∙ same, q.2)
