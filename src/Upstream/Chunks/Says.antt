-- ===== src/Upstream/Chunks/Says.antt =====
-- internal/upstream/markup_chunks.go: what the frames say that a repaired chunk is sent as.
use mathlib.Core.List.{append-nil as list-append-nil}
use package.text.Mathlib.TextLemmas.{append-nil}
use workbuddy2plus_plugin.Base.{
  ℕ, ◌+◌, ◌≡◌, refl, ap, ◌∙◌, inl, inr, ◌&&◌, String, Bool, false, none, some, List, [], ◌∷◌, ◌++◌,
  Bool-cases, if◌then◌else◌, str_eq, Dict, lookup,
}
use workbuddy2plus_plugin.Upstream.Json.{
  Json, text, as_map, as_list, as_text, value_at, text_at, list_at, of_list, of_map, list_of,
  value_at-insert, as_map-of_map, as_list-of_list, list_at-some,
}
use workbuddy2plus_plugin.Upstream.Tools.{gather, of_object}
use workbuddy2plus_plugin.Upstream.Markup.Scan.{◌<>◌}
use workbuddy2plus_plugin.Upstream.Markup.Block.{MarkupCall}
use workbuddy2plus_plugin.Upstream.Markup.Response.{markup_tool_calls}
use workbuddy2plus_plugin.Upstream.Frames.{copy_value, is_null}
use workbuddy2plus_plugin.Upstream.Frames.Names.{choice_fragments, fragments}
use workbuddy2plus_plugin.Upstream.Frames.Stream.{object_some}
use workbuddy2plus_plugin.Upstream.Aggregate.Added.{
  choice_text, choices_text, chunks_text, delta_text,
}
use workbuddy2plus_plugin.Upstream.Chunks.Build.{
  ChunkContext, call_delta, call_choice, frame_with, finish_choice, markup_call_frame,
  finish_only_frame, call_frames,
}

-- The ending that a text in `finish_reason` is, if it is one.
abbrev pub ending : String → List String
ending s = if str_eq s "" then [] else s ∷ []

-- The ending that a client sees, where `said` is whether it has been sent a call.
abbrev pub ending_after : Bool → String → List String
ending_after said s = ending (if said && str_eq s "stop" then "tool_calls" else s)

module _ {F : Type 0} where
  abbrev choice_endings : Json F → List String
  choice_endings ci = elim (as_map ci) [ none ↦ [] | some c ↦ ending (text_at "finish_reason" c) ]

  abbrev pub frame_endings : Dict (Json F) → List String
  frame_endings d = gather choice_endings (list_at "choices" d)

  -- The text, the calls and the endings that frames carry.
  abbrev pub Say : List (Dict (Json F)) → String → List (Json F) → List String → Type 0
  Say frames t calls ends =
      (chunks_text frames ≡ t)
      × (gather fragments frames ≡ calls)
      × (gather frame_endings frames ≡ ends)

  frame_text :
      (d c delta : Dict (Json F))
      → list_at "choices" d ≡ of_map c ∷ []
      → as_map (value_at "delta" c) ≡ some delta
      → choices_text (list_at "choices" d) ≡ text_at "content" delta
  frame_text d c delta e m =
      ap choices_text e
      ∙ append-nil (choice_text (of_map c))
      ∙ ap (λ o. elim o [ none ↦ "" | some b ↦ delta_text b ]) (as_map-of_map c)
      ∙ ap (λ o. elim o [ none ↦ "" | some b ↦ text_at "content" b ]) m

  frame_calls :
      (d c delta : Dict (Json F))
      → list_at "choices" d ≡ of_map c ∷ []
      → as_map (value_at "delta" c) ≡ some delta
      → fragments d ≡ list_at "tool_calls" delta
  frame_calls d c delta e m =
      ap (gather choice_fragments) e
      ∙ list-append-nil (choice_fragments (of_map c))
      ∙ object_some (λ b. of_object (list_at "tool_calls") (value_at "delta" b)) (of_map c)
          (as_map-of_map c)
      ∙ object_some (list_at "tool_calls") (value_at "delta" c) m

  frame_ends :
      (d c : Dict (Json F))
      → list_at "choices" d ≡ of_map c ∷ []
      → frame_endings d ≡ ending (text_at "finish_reason" c)
  frame_ends d c e =
      ap (gather choice_endings) e
      ∙ list-append-nil (choice_endings (of_map c))
      ∙ ap (λ o. elim o [ none ↦ [] | some b ↦ ending (text_at "finish_reason" b) ])
          (as_map-of_map c)

  -- A frame with one choice, before others.
  pub cons-Say :
      (d c delta : Dict (Json F)) (ds : List (Dict (Json F))) {t : String} {calls : List (Json F)}
      {ends : List String}
      → list_at "choices" d ≡ of_map c ∷ []
      → as_map (value_at "delta" c) ≡ some delta
      → Say ds t calls ends
      → Say
          (d ∷ ds)
          (text_at "content" delta <> t)
          (list_at "tool_calls" delta ++ calls)
          (ending (text_at "finish_reason" c) ++ ends)
  cons-Say d c delta ds e m (p, q, r) = (
    ap (λ u. u <> chunks_text ds) (frame_text d c delta e m)
        ∙ ap (λ u. text_at "content" delta <> u) p,
    ap (λ u. u ++ gather fragments ds) (frame_calls d c delta e m)
        ∙ ap (λ u. list_at "tool_calls" delta ++ u) q,
    ap (λ u. u ++ gather frame_endings ds) (frame_ends d c e)
        ∙ ap (λ u. ending (text_at "finish_reason" c) ++ u) r,
  )

  copy_value-choices :
      (key : String) (src out : Dict (Json F)) {cs : List (Json F)}
      → str_eq key "choices" ≡ false
      → list_at "choices" out ≡ cs
      → list_at "choices" (copy_value key src out) ≡ cs
  unfolding copy_value list_at
  copy_value-choices key src out h e = elim (Bool-cases (is_null (value_at key src))) [
    | inl k ↦ rw (k, copy_value) e
    | inr k ↦
        rw (k, copy_value)
          (ap list_of (value_at-insert key "choices" (value_at key src) out ∙ rw h refl) ∙ e)
  ]

module _ {F : Type 0} (ctx : ChunkContext F) where
  base-choices :
      (cs : List (Json F))
      → value_at "choices" (("object", text "chat.completion.chunk") ∷ ("choices", of_list cs) ∷ [])
        ≡ of_list cs
  unfolding value_at lookup
  base-choices cs = refl

  frame_with-choices :
      (src choice : Dict (Json F))
      → list_at "choices" (frame_with ctx src choice) ≡ of_map choice ∷ []
  frame_with-choices src choice =
      let cs = of_map choice ∷ [] in
      copy_value-choices "model" src _ refl (
        copy_value-choices "created" src
          (("object", text "chat.completion.chunk") ∷ ("choices", of_list cs) ∷ []) refl
          (list_at-some "choices" _ (ap as_list (base-choices cs) ∙ as_list-of_list cs)))

  finish_choice-delta :
      (finish : String) → as_map (value_at "delta" (finish_choice ctx finish)) ≡ some []
  unfolding value_at lookup as_map of_map
  finish_choice-delta finish = refl

  finish_choice-reason :
      (finish : String) → text_at "finish_reason" (finish_choice ctx finish) ≡ finish
  unfolding text_at lookup as_text value_at
  finish_choice-reason finish = refl

  pub finish_only_frame-Say :
      (src : Dict (Json F)) (finish : String)
      → Say (finish_only_frame ctx src finish ∷ []) "" [] (ending finish)
  unfolding finish_only_frame text_at list_at lookup as_text value_at as_list
  finish_only_frame-Say src finish =
      let (p, q, r) =
        cons-Say (finish_only_frame ctx src finish) (finish_choice ctx finish) [] []
          (frame_with-choices src (finish_choice ctx finish)) (finish_choice-delta finish)
          (refl, refl, refl) in
      (p, q, r ∙ list-append-nil _ ∙ ap ending (finish_choice-reason finish))

  call_choice-delta :
      (idx : ℕ) (call : MarkupCall)
      → as_map (value_at "delta" (call_choice ctx idx call)) ≡ some (call_delta ctx idx call)
  unfolding value_at lookup
  call_choice-delta idx call = as_map-of_map (call_delta ctx idx call)

  call_delta-calls :
      (idx : ℕ) (call : MarkupCall)
      → list_at "tool_calls" (call_delta ctx idx call) ≡ markup_tool_calls ctx.wire (call ∷ []) idx
  unfolding value_at lookup
  call_delta-calls idx call =
      list_at-some "tool_calls" (call_delta ctx idx call)
        (as_list-of_list (markup_tool_calls ctx.wire (call ∷ []) idx))

  call_frame-Say :
      (src : Dict (Json F)) (idx : ℕ) (call : MarkupCall) (ds : List (Dict (Json F)))
      {calls : List (Json F)} {ends : List String}
      → Say ds "" calls ends
      → Say
          (markup_call_frame ctx src idx call ∷ ds)
          ""
          (markup_tool_calls ctx.wire (call ∷ []) idx ++ calls)
          ends
  unfolding markup_call_frame text_at lookup as_text value_at
  call_frame-Say src idx call ds {calls} {ends} h =
      let (p, q, r) =
        cons-Say (markup_call_frame ctx src idx call) (call_choice ctx idx call)
          (call_delta ctx idx call) ds (frame_with-choices src (call_choice ctx idx call))
          (call_choice-delta idx call) h in
      (p, q ∙ ap (λ u. u ++ calls) (call_delta-calls idx call), r)

  pub call_frames-Say :
      (src : Dict (Json F)) (idx : ℕ) (calls : List MarkupCall) (ds : List (Dict (Json F)))
      {ends : List String}
      → Say ds "" [] ends
      → Say (call_frames ctx src idx calls ++ ds) "" (markup_tool_calls ctx.wire calls idx) ends
  unfolding call_frames markup_tool_calls
  call_frames-Say src idx [] ds h = h
  call_frames-Say src idx (call ∷ calls) ds h =
      call_frame-Say src idx call _ (call_frames-Say src (idx + 1) calls ds h)
