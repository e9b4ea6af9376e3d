-- ===== src/Upstream/Tools/Merge/Lossless.antt =====
-- internal/upstream/tool_pairing.go: what the messages declare, answer and say, through
-- `mergeAdjacentToolCalls`.
use mathlib.Core.List.{append_assoc}
use workbuddy2plus_plugin.Base.{
  ◌≡◌, refl, ap, ◌∙◌, some, List, [], ◌∷◌, ◌++◌, Bool-cases, Option-cases, inl, inr,
}
use workbuddy2plus_plugin.Upstream.Json.{Json}
use workbuddy2plus_plugin.Upstream.Tools.{gather, calls_of, answers_of}
use workbuddy2plus_plugin.Upstream.Tools.Merge.{join, merge_behind, merge_adjacent_tool_calls}
use workbuddy2plus_plugin.Upstream.Tools.Merge.Reasoning.{reasoning_in, reasoning-merge}
use workbuddy2plus_plugin.Upstream.Tools.Merge.Join.{join-both, texts_of}

module _ {F : Type 0} where
  -- What is read of each message, and of two that are merged of both in turn.
  gather-merge_behind :
      {B : Type 0} (f : Json F → List B)
      → ((last m q : Json F) → join last m ≡ some q → f q ≡ f last ++ f m)
      → (last : Json F) (ms : List (Json F))
      → gather f (merge_behind last ms).0 ≡ f last ++ gather f ms
  unfolding merge_behind
  gather-merge_behind f h last [] = refl
  gather-merge_behind f h last (m ∷ ms) = elim (Option-cases (join last m)) [
    | inl n ↦ rw (n, merge_behind) (ap (λ l. f last ++ l) (gather-merge_behind f h m ms))
    | inr (both, q) ↦
        rw (q, merge_behind)
          (gather-merge_behind f h both ms
            ∙ ap (λ l. l ++ gather f ms) (h last m both q)
            ∙ append_assoc (f last) (f m) (gather f ms))
  ]

  gather-merge :
      {B : Type 0} (f : Json F → List B)
      → ((last m q : Json F) → join last m ≡ some q → f q ≡ f last ++ f m)
      → (ms : List (Json F)) → gather f (merge_adjacent_tool_calls ms).0 ≡ gather f ms
  unfolding merge_adjacent_tool_calls
  gather-merge f h [] = refl
  gather-merge f h (m ∷ ms) = elim (Bool-cases (merge_behind m ms).1) [
    | inl y ↦ rw (y, merge_adjacent_tool_calls) (gather-merge_behind f h m ms)
    | inr n ↦ rw (n, merge_adjacent_tool_calls) refl
  ]

  pub merge_adjacent_tool_calls_lem :
      (ms : List (Json F))
      → let out = (merge_adjacent_tool_calls ms).0 in
        (gather calls_of out ≡ gather calls_of ms)
        × (gather answers_of out ≡ gather answers_of ms)
        × (gather texts_of out ≡ gather texts_of ms)
        × (reasoning_in out ≡ reasoning_in ms)
  merge_adjacent_tool_calls_lem ms = (
    gather-merge calls_of (λ last m q h. (join-both last m q h).0) ms,
    gather-merge answers_of (λ last m q h. (join-both last m q h).1) ms,
    gather-merge texts_of (λ last m q h. (join-both last m q h).2) ms,
    reasoning-merge ms,
  )
