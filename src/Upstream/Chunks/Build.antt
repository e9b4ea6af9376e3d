-- ===== src/Upstream/Chunks/Build.antt =====
-- internal/upstream/markup_chunks.go: the frames that `MarkupChunkNormalizer` makes.
use workbuddy2plus_plugin.Base.{
  ℕ, ℤ, ◌+◌, String, ◌&&◌, none, some, List, [], ◌∷◌, ◌++◌, ltb, if◌then◌else◌, length, str_eq,
  Dict, insert, delete,
}
use workbuddy2plus_plugin.Upstream.Json.{Json, num, text, as_map, value_at, of_list, of_map}
use workbuddy2plus_plugin.Upstream.Markup.Block.{MarkupCall, Codec}
use workbuddy2plus_plugin.Upstream.Markup.Response.{Wire, markup_tool_calls}
use workbuddy2plus_plugin.Upstream.Frames.{FrameCodec, copy_value}

-- What the code asks of encoding/json, of its clock and of the conversion of a float to an int.
pub record ChunkContext (F : Type 0) : Type 0 where
  pub frames : FrameCodec F
  pub blocks : Codec F
  pub wire : Wire F
  pub to_int : F → ℤ

module _ {F : Type 0} where
  -- The choice with the text that stays in it.
  unfoldable pub put_content : Dict (Json F) → String → Dict (Json F)
  put_content c visible = elim (as_map (value_at "delta" c)) [
    | none ↦ c
    | some delta ↦
        insert "delta"
          (of_map (
            if str_eq visible ""
            then delete "content" delta
            else insert "content" (text visible) delta))
          c
  ]

  abbrev pub with_choice : Dict (Json F) → Dict (Json F) → Dict (Json F)
  with_choice d c = insert "choices" (of_list (of_map c ∷ [])) d

module _ {F : Type 0} (ctx : ChunkContext F) where
  abbrev pub frame_with : Dict (Json F) → Dict (Json F) → Dict (Json F)
  frame_with src choice = copy_value "model" src (
      copy_value "created" src
        (("object", text "chat.completion.chunk") ∷ ("choices", of_list (of_map choice ∷ [])) ∷ []))

  abbrev pub finish_choice : String → Dict (Json F)
  finish_choice finish =
      ("index", num (ctx.wire.number 0))
      ∷ ("delta", of_map [])
      ∷ ("finish_reason", text finish)
      ∷ []

  abbrev pub call_delta : ℕ → MarkupCall → Dict (Json F)
  call_delta idx call = ("tool_calls", of_list (markup_tool_calls ctx.wire (call ∷ []) idx)) ∷ []

  abbrev pub call_choice : ℕ → MarkupCall → Dict (Json F)
  call_choice idx call =
      ("index", num (ctx.wire.number 0)) ∷ ("delta", of_map (call_delta idx call)) ∷ []

  unfoldable pub markup_call_frame : Dict (Json F) → ℕ → MarkupCall → Dict (Json F)
  unfolding copy_value markup_tool_calls
  markup_call_frame src idx call = frame_with src (call_choice idx call)

  unfoldable pub finish_only_frame : Dict (Json F) → String → Dict (Json F)
  unfolding copy_value
  finish_only_frame src finish = frame_with src (finish_choice finish)

  -- The frame of `finishOnlyFrame(n.last, "")` whose choice is then changed to say `tail`.
  unfoldable pub tail_frame : Dict (Json F) → String → Dict (Json F)
  unfolding copy_value
  tail_frame src tail = frame_with src (
      insert "delta" (of_map (("content", text tail) ∷ []))
        (delete "finish_reason" (finish_choice "")))

  unfoldable pub call_frames : Dict (Json F) → ℕ → List MarkupCall → List (Dict (Json F))
  unfolding markup_call_frame
  call_frames src idx [] = []
  call_frames src idx (call ∷ calls) =
      markup_call_frame src idx call ∷ call_frames src (idx + 1) calls

  -- The frame that ends a chunk which has had calls, if the chunk ends the stream.
  unfoldable pub end_frames : Dict (Json F) → String → List (Dict (Json F))
  unfolding finish_only_frame
  end_frames d finish =
      if str_eq finish ""
      then []
      else finish_only_frame d (if str_eq finish "stop" then "tool_calls" else finish) ∷ []

  -- The frames of one repaired chunk, where `idx` is the index of the next call.
  unfoldable pub chunk_frames :
      Dict (Json F) → Dict (Json F) → ℕ → String → List MarkupCall → String → List (Dict (Json F))
  unfolding put_content call_frames end_frames
  chunk_frames d c idx visible calls finish =
      let said = put_content c visible in
      if ltb 0 (length calls)
      then with_choice d (delete "finish_reason" said)
        ∷ (call_frames d idx calls
            ++ (if str_eq finish ""
                then []
                else finish_only_frame d (if str_eq finish "stop" then "tool_calls" else finish)
                  ∷ []))
      else if ltb 0 idx && str_eq finish "stop"
      then with_choice d (insert "finish_reason" (text "tool_calls") said) ∷ []
      else with_choice d said ∷ []
