-- ===== src/Upstream/Chunks/Repaired.antt =====
-- internal/upstream/markup_chunks.go: the frames of a repaired chunk, against its text and its calls.
use mathlib.Core.List.{append-nil as list-append-nil}
use package.text.Mathlib.TextLemmas.{append-nil}
use package.text.Mathlib.TextEquality.{eq_iff}
use workbuddy2plus_plugin.Base.{
  ℕ, ◌≡◌, refl, sym, ap, ◌∙◌, inl, inr, ◌&&◌, ◌||◌, String, true, some, List, [], ◌∷◌, ◌++◌, arith,
  lt→ltb, Bool-cases, if◌then◌else◌, str_eq, Dict, insert, delete, ltb, length,
}
use workbuddy2plus_plugin.Upstream.Json.{
  Json, text, as_map, as_text, value_at, text_at, list_at, of_map, text_of, list_of,
  value_at-insert, value_at-delete, as_map-of_map, list_at-insert,
}
use workbuddy2plus_plugin.Upstream.Markup.Block.{MarkupCall}
use workbuddy2plus_plugin.Upstream.Markup.Response.{markup_tool_calls}
use workbuddy2plus_plugin.Upstream.Chunks.Build.{
  ChunkContext, put_content, call_frames, end_frames, with_choice, chunk_frames,
}
use workbuddy2plus_plugin.Upstream.Chunks.Says.{
  ending, ending_after, Say, cons-Say, finish_only_frame-Say, call_frames-Say,
}

str_eq-same : (a b : String) → str_eq a b ≡ true → a ≡ b
str_eq-same a b = (eq_iff a b).0

module _ {F : Type 0} (ctx : ChunkContext F) where
  -- A choice whose delta says this text, and no calls.
  abbrev Speaks : String → Dict (Json F) → Type 0
  Speaks visible c =
      (delta : Dict (Json F)) × (as_map (value_at "delta" c) ≡ some delta)
      × (text_at "content" delta ≡ visible)
      × (list_at "tool_calls" delta ≡ [])

  Speaks-value :
      (visible : String) (c c' : Dict (Json F))
      → value_at "delta" c' ≡ value_at "delta" c
      → Speaks visible c
      → Speaks visible c'
  Speaks-value visible c c' e (delta, m, t, k) = (delta, ap as_map e ∙ m, t, k)

  put_content-Speaks :
      (c delta : Dict (Json F)) (visible : String)
      → as_map (value_at "delta" c) ≡ some delta
      → list_at "tool_calls" delta ≡ []
      → Speaks visible (put_content c visible)
  unfolding put_content text_at list_at as_text
  put_content-Speaks c delta visible m k = elim (Bool-cases (str_eq visible "")) [
    | inl e ↦
        let d = delete "content" delta in
        rw (m, put_content)
          (rw e (
            d,
            ap as_map (value_at-insert "delta" "delta" (of_map d) c) ∙ as_map-of_map d,
            ap text_of (value_at-delete "content" "content" delta) ∙ sym (str_eq-same visible "" e),
            ap list_of (value_at-delete "content" "tool_calls" delta) ∙ k,
          ))
    | inr e ↦
        let d = insert "content" (text visible) delta in
        rw (m, put_content)
          (rw e (
            d,
            ap as_map (value_at-insert "delta" "delta" (of_map d) c) ∙ as_map-of_map d,
            ap text_of (value_at-insert "content" "content" (text visible) delta),
            ap list_of (value_at-insert "content" "tool_calls" (text visible) delta) ∙ k,
          ))
  ]

  put_content-reason :
      (c delta : Dict (Json F)) (visible : String)
      → as_map (value_at "delta" c) ≡ some delta
      → text_at "finish_reason" (put_content c visible) ≡ text_at "finish_reason" c
  unfolding put_content text_at
  put_content-reason c delta visible m =
      rw (m, put_content) (ap text_of (value_at-insert "delta" "finish_reason" _ c))

  -- The frame of the chunk with such a choice.
  chunk-Say :
      (d c : Dict (Json F)) (visible : String) (ds : List (Dict (Json F))) {calls : List (Json F)}
      {ends : List String}
      → Speaks visible c
      → Say ds "" calls ends
      → Say (with_choice d c ∷ ds) visible calls (ending (text_at "finish_reason" c) ++ ends)
  chunk-Say d c visible ds {calls} {ends} (delta, m, t, k) h =
      let (p, q, r) =
        cons-Say (with_choice d c) c delta ds (list_at-insert "choices" (of_map c ∷ []) d) m h in
      (p ∙ append-nil (text_at "content" delta) ∙ t, q ∙ ap (λ u. u ++ calls) k, r)

  reason-insert :
      (s : String) (b : Dict (Json F))
      → text_at "finish_reason" (insert "finish_reason" (text s) b) ≡ s
  unfolding text_at as_text
  reason-insert s b = ap text_of (value_at-insert "finish_reason" "finish_reason" (text s) b)

  reason-delete : (b : Dict (Json F)) → text_at "finish_reason" (delete "finish_reason" b) ≡ ""
  unfolding text_at as_text
  reason-delete b = ap text_of (value_at-delete "finish_reason" "finish_reason" b)

  end_frames-Say :
      (src : Dict (Json F)) (finish : String)
      → Say (end_frames ctx src finish) "" [] (ending_after true finish)
  unfolding end_frames
  end_frames-Say src finish = elim (Bool-cases (str_eq finish "")) [
    | inl e ↦
        rw (e, end_frames) (refl, refl, sym (ap (ending_after true) (str_eq-same finish "" e)))
    | inr e ↦
        rw (e, end_frames)
          (finish_only_frame-Say ctx src (if str_eq finish "stop" then "tool_calls" else finish))
  ]

  -- A chunk whose delta holds no calls of its own is sent as frames that together say exactly the
  -- text that stays, with exactly the calls that were found in it, numbered from the next index, and
  -- with the ending of the chunk once, if it has one; that is `tool_calls` in place of `stop`, if the
  -- stream has had a call.
  pub chunk_frames_lem :
      (d c delta : Dict (Json F)) (idx : ℕ) (visible : String) (calls : List MarkupCall)
      → as_map (value_at "delta" c) ≡ some delta
      → list_at "tool_calls" delta ≡ []
      → Say
          (chunk_frames ctx d c idx visible calls (text_at "finish_reason" c))
          visible
          (markup_tool_calls ctx.wire calls idx)
          (ending_after (ltb 0 (length calls) || ltb 0 idx) (text_at "finish_reason" c))
  unfolding chunk_frames
  chunk_frames_lem d c delta idx visible [] m k =
      let said = put_content c visible in
      let speaks = put_content-Speaks c delta visible m k in
      elim (Bool-cases (ltb 0 idx && str_eq (text_at "finish_reason" c) "stop")) [
        | inl b ↦
            let c' = insert "finish_reason" (text "tool_calls") said in
            let (p, q, r) =
              chunk-Say d c' visible []
                (Speaks-value visible said c'
                  (value_at-insert "finish_reason" "delta" (text "tool_calls") said) speaks)
                (refl, refl, refl) in
            rw (b, chunk_frames)
              (p, q, r ∙ list-append-nil _ ∙ ap ending (reason-insert "tool_calls" said))
        | inr b ↦
            let (p, q, r) = chunk-Say d said visible [] speaks (refl, refl, refl) in
            rw (b, chunk_frames)
              (
                p,
                q,
                r
                    ∙ list-append-nil (ending (text_at "finish_reason" said))
                    ∙ ap ending (put_content-reason c delta visible m),
              )
      ]
  chunk_frames_lem d c delta idx visible (call ∷ calls) m k =
      let said = put_content c visible in
      let c' = delete "finish_reason" said in
      let (p, q, r) =
        chunk-Say d c' visible
          (call_frames ctx d idx (call ∷ calls) ++ end_frames ctx d (text_at "finish_reason" c))
          (Speaks-value visible said c' (value_at-delete "finish_reason" "delta" said)
            (put_content-Speaks c delta visible m k))
          (call_frames-Say ctx d idx (call ∷ calls) (end_frames ctx d (text_at "finish_reason" c))
            (end_frames-Say d (text_at "finish_reason" c))) in
      let z : ltb 0 (length (call ∷ calls)) ≡ true =
        lt→ltb 0 (length (call ∷ calls)) (omega arith) in
      rw (z, chunk_frames)
        (
          p,
          q,
          r
              ∙ ap (λ u. ending u ++ ending_after true (text_at "finish_reason" c))
                  (reason-delete said),
        )
