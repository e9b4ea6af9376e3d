-- ===== src/Upstream/Frames/Stream.antt =====
-- internal/upstream/sse.go: `stripToolCallNames` on frame after frame, as `Normalize` calls it.
use mathlib.Core.Path.{subst}
use workbuddy2plus_plugin.Base.{
  ℤ, ◌≡◌, refl, sym, ap, ◌∙◌, inl, inr, none, some, List, [], ◌∷◌, ◌++◌, Option-cases, Dict, insert,
}
use workbuddy2plus_plugin.Upstream.Json.{
  list_at-none, list_at-some, list_at-insert, Json, as_map, as_list, value_at, list_at, of_list,
  of_map, value_at-insert, as_map-of_map,
}
use workbuddy2plus_plugin.Upstream.Tools.{gather, of_object}
use workbuddy2plus_plugin.Upstream.Frames.{
  strip_calls, strip_choice, strip_choices, strip_tool_call_names,
}
use workbuddy2plus_plugin.Upstream.Frames.Names.{
  fragments, choice_fragments, AllSame, Once, Kept, strip_calls-Kept, strip_calls-append,
}

module _ {F : Type 0} where
  pub object_some :
      (f : Dict (Json F) → List (Json F)) (x : Json F) {d : Dict (Json F)}
      → as_map x ≡ some d
      → of_object f x ≡ f d
  object_some f x e = ap (λ o. elim o [ none ↦ [] | some d ↦ f d ]) e

  object_none :
      (f : Dict (Json F) → List (Json F)) (x : Json F) → as_map x ≡ none → of_object f x ≡ []
  object_none f x e = ap (λ o. elim o [ none ↦ [] | some d ↦ f d ]) e

  abbrev delta_fragments : Dict (Json F) → List (Json F)
  delta_fragments c = of_object (list_at "tool_calls") (value_at "delta" c)

module _ {F : Type 0} (to_int : F → ℤ) where
  -- What a stripped value holds of fragments, with the calls seen, against the stripped fragments.
  abbrev Through : List ℤ → List (Json F) → List (Json F) × List ℤ → Type 0
  Through seen before after = after ≡ strip_calls to_int seen before

  nil-Through : (seen : List ℤ) → Through seen [] ([], seen)
  unfolding strip_calls
  nil-Through seen = refl

  untouched :
      (seen : List ℤ) (ci : Json F)
      → strip_choice to_int seen ci ≡ (ci, seen)
      → choice_fragments ci ≡ []
      → Through seen
          (choice_fragments ci)
          (choice_fragments (strip_choice to_int seen ci).0, (strip_choice to_int seen ci).1)
  unfolding strip_calls
  untouched seen ci p q =
      ap (λ r. (choice_fragments r.0, r.1)) p
      ∙ ap (λ l. (l, seen)) q
      ∙ sym (ap (λ l. strip_calls to_int seen l) q)

  -- A choice with these calls in it, in place of those that it had.
  abbrev with_calls : Dict (Json F) → Dict (Json F) → List (Json F) → Json F
  with_calls c delta xs =
      of_map (insert "delta" (of_map (insert "tool_calls" (of_list xs) delta)) c)

  fragments-with_calls :
      (c delta : Dict (Json F)) (xs : List (Json F)) → choice_fragments (with_calls c delta xs) ≡ xs
  fragments-with_calls c delta xs =
      let inner = insert "tool_calls" (of_list xs) delta in
      object_some delta_fragments (with_calls c delta xs)
        (as_map-of_map (insert "delta" (of_map inner) c))
      ∙ object_some (list_at "tool_calls") (value_at "delta" (insert "delta" (of_map inner) c))
          (ap as_map (value_at-insert "delta" "delta" (of_map inner) c) ∙ as_map-of_map inner)
      ∙ list_at-insert "tool_calls" xs delta

  touched :
      (seen : List ℤ) (ci : Json F) (c delta : Dict (Json F)) (tcs : List (Json F))
      → as_map ci ≡ some c
      → as_map (value_at "delta" c) ≡ some delta
      → as_list (value_at "tool_calls" delta) ≡ some tcs
      → strip_choice to_int seen ci
        ≡ (with_calls c delta (strip_calls to_int seen tcs).0, (strip_calls to_int seen tcs).1)
  unfolding strip_choice
  touched seen ci c delta tcs e d t = rw (e, strip_choice) (rw d (rw t refl))

  choice-Through :
      (seen : List ℤ) (ci : Json F)
      → Through seen
          (choice_fragments ci)
          (choice_fragments (strip_choice to_int seen ci).0, (strip_choice to_int seen ci).1)
  unfolding strip_choice
  choice-Through seen ci = elim (Option-cases (as_map ci)) [
    | inl e ↦ untouched seen ci (rw (e, strip_choice) refl) (object_none delta_fragments ci e)
    | inr (c, e) ↦
        let outer = object_some delta_fragments ci e in
        elim (Option-cases (as_map (value_at "delta" c))) [
          | inl d ↦
              untouched seen ci (rw (e, strip_choice) (rw d refl))
                (outer ∙ object_none (list_at "tool_calls") (value_at "delta" c) d)
          | inr (delta, d) ↦
              let inner = outer ∙ object_some (list_at "tool_calls") (value_at "delta" c) d in
              elim (Option-cases (as_list (value_at "tool_calls" delta))) [
                | inl t ↦
                    untouched seen ci (rw (e, strip_choice) (rw d (rw t refl)))
                      (inner ∙ list_at-none "tool_calls" delta t)
                | inr (tcs, t) ↦
                    ap (λ r. (choice_fragments r.0, r.1)) (touched seen ci c delta tcs e d t)
                    ∙ ap (λ l. (l, (strip_calls to_int seen tcs).1))
                        (fragments-with_calls c delta (strip_calls to_int seen tcs).0)
                    ∙ sym (ap (strip_calls to_int seen) (inner ∙ list_at-some "tool_calls" delta t))
              ]
        ]
  ]

  -- One part of the fragments after another.
  Through-append :
      (seen seen' : List ℤ) (xs ys xs' : List (Json F)) (out : List (Json F) × List ℤ)
      → Through seen xs (xs', seen')
      → Through seen' ys out
      → Through seen (xs ++ ys) (xs' ++ out.0, out.1)
  Through-append seen seen' xs ys xs' out p q =
      ap (λ r. (xs' ++ r.0, r.1)) q
      ∙ ap (λ r. (r.0 ++ (strip_calls to_int r.1 ys).0, (strip_calls to_int r.1 ys).1)) p
      ∙ sym (strip_calls-append to_int seen xs ys)

  choices-Through :
      (seen : List ℤ) (cs : List (Json F))
      → Through seen (gather choice_fragments cs) (
        gather choice_fragments (strip_choices to_int seen cs).0,
        (strip_choices to_int seen cs).1,
      )
  unfolding strip_choices
  choices-Through seen [] = refl
  choices-Through seen (ci ∷ cs) =
      let one = strip_choice to_int seen ci in
      Through-append seen one.1 (choice_fragments ci) (gather choice_fragments cs)
        (choice_fragments one.0) _ (choice-Through seen ci) (choices-Through one.1 cs)

  frame-Through :
      (seen : List ℤ) (d : Dict (Json F))
      → Through seen (fragments d) (
        fragments (strip_tool_call_names to_int d seen).0,
        (strip_tool_call_names to_int d seen).1,
      )
  unfolding strip_tool_call_names
  frame-Through seen d = elim (Option-cases (as_list (value_at "choices" d))) [
    | inl e ↦
        let q = ap (gather choice_fragments) (list_at-none "choices" d e) in
        let p : strip_tool_call_names to_int d seen ≡ (d, seen) =
          rw (e, strip_tool_call_names) refl in
        ap (λ r. (fragments r.0, r.1)) p
        ∙ ap (λ l. (l, seen)) q
        ∙ nil-Through seen
        ∙ sym (ap (strip_calls to_int seen) q)
    | inr (cs, e) ↦
        let done = strip_choices to_int seen cs in
        let p : strip_tool_call_names to_int d seen
            ≡ (insert "choices" (of_list done.0) d, done.1) =
          rw (e, strip_tool_call_names) refl in
        ap (λ r. (fragments r.0, r.1)) p
        ∙ ap (λ l. (gather choice_fragments l, done.1)) (list_at-insert "choices" done.0 d)
        ∙ choices-Through seen cs
        ∙ sym (
            ap (λ l. strip_calls to_int seen (gather choice_fragments l))
              (list_at-some "choices" d e))
  ]

  -- The frames of a stream, one after the other, with the state of the normalizer.
  unfoldable pub strip_frames : List ℤ → List (Dict (Json F)) → List (Dict (Json F)) × List ℤ
  strip_frames seen [] = ([], seen)
  strip_frames seen (d ∷ ds) =
      let one = strip_tool_call_names to_int d seen in
      let rest = strip_frames one.1 ds in (one.0 ∷ rest.0, rest.1)

  frames-Through :
      (seen : List ℤ) (ds : List (Dict (Json F)))
      → Through seen
          (gather fragments ds)
          (gather fragments (strip_frames seen ds).0, (strip_frames seen ds).1)
  unfolding strip_frames
  frames-Through seen [] = nil-Through seen
  frames-Through seen (d ∷ ds) =
      let one = strip_tool_call_names to_int d seen in
      Through-append seen one.1 (fragments d) (gather fragments ds) (fragments one.0) _
        (frame-Through seen d) (frames-Through one.1 ds)

  -- Over all frames of a stream, at most the first fragment of each call has the name of its function,
  -- and a fragment after it has none; nothing else of any fragment changes, and none is lost.
  pub strip_frames_lem :
      (ds : List (Dict (Json F)))
      → Once to_int [] (gather fragments (strip_frames [] ds).0)
        × AllSame (gather fragments ds) (gather fragments (strip_frames [] ds).0)
  strip_frames_lem ds =
      subst (Kept to_int [] (gather fragments ds)) (sym (ap (λ r. r.0) (frames-Through [] ds)))
        (strip_calls-Kept to_int [] (gather fragments ds))
