-- ===== src/Upstream/Payload/Assistants.antt =====
-- internal/upstream/payload.go: the assistant messages of a DeepSeek request as they are sent.
use mathlib.Core.Path.{subst}
use workbuddy2plus_plugin.Base.{
  String, ◌≡◌, refl, sym, ap, ◌∙◌, inl, inr, true, false, none, some, List, [], ◌∷◌, map, str_eq,
  arith, Bool-cases, Option-cases, All, Dict, insert, length, ◌==◌,
}
use workbuddy2plus_plugin.Upstream.Json.{
  Json, as_list, value_at, text_at, text_of, list_at, list_of, of_list, value_at-insert,
  as_list-of_list,
}
use workbuddy2plus_plugin.Upstream.Texts.{fold_is}
use workbuddy2plus_plugin.Upstream.Effort.{normalize_reasoning_effort}
use workbuddy2plus_plugin.Upstream.Thinking.{
  is_deep_seek_model, fill_message, thinking_type, inject_thinking, lookup_default_effort,
  backfill_reasoning_content,
}
use workbuddy2plus_plugin.Upstream.Thinking.Filled.{IsFilled, messages-IsFilled}
use workbuddy2plus_plugin.Upstream.Payload.{prepare_thinking}
use workbuddy2plus_plugin.Upstream.Payload.Reasoning.{
  WantsThinking, value_at-normalize_reasoning_effort, value_at-inject_thinking, thinking_type-agree,
  inject_thinking-enabled,
}

module _ {F : Type 0} where
  list_at-none : (k : String) (d : Dict (Json F)) → as_list (value_at k d) ≡ none → list_at k d ≡ []
  unfolding list_at
  list_at-none k d n = ap (λ o. elim o [ none ↦ [] | some xs ↦ xs ]) n

  list_at-some :
      (k : String) (d : Dict (Json F)) (xs : List (Json F))
      → as_list (value_at k d) ≡ some xs
      → list_at k d ≡ xs
  unfolding list_at
  list_at-some k d xs q = ap (λ o. elim o [ none ↦ [] | some ys ↦ ys ]) q

  list_at-put :
      (k : String) (xs : List (Json F)) (d : Dict (Json F))
      → str_eq k k ≡ true
      → list_at k (insert k (of_list xs) d) ≡ xs
  list_at-put k xs d r =
      list_at-some k (insert k (of_list xs) d) xs
        (ap as_list (value_at-insert k k (of_list xs) d ∙ rw r refl) ∙ as_list-of_list xs)

  empty_list : (xs : List (Json F)) → (length xs == 0) ≡ true → xs ≡ []
  empty_list [] h = refl
  empty_list (x ∷ xs) h = absurd (ground (arith, h))

  left_alone :
      (d : Dict (Json F))
      → as_list (value_at "messages" d) ≡ none
      → backfill_reasoning_content d ≡ d
  unfolding backfill_reasoning_content
  left_alone d n = rw (n, backfill_reasoning_content) (ground arith)

  left_empty :
      (d : Dict (Json F)) (ms : List (Json F))
      → as_list (value_at "messages" d) ≡ some ms
      → (length ms == 0) ≡ true
      → backfill_reasoning_content d ≡ d
  unfolding backfill_reasoning_content
  left_empty d ms q z = rw (q, z, backfill_reasoning_content) (ground arith)

  backfilled :
      (d : Dict (Json F)) (ms : List (Json F))
      → is_deep_seek_model (text_at "model" d) ≡ true
      → fold_is (thinking_type d) "enabled" ≡ true
      → as_list (value_at "messages" d) ≡ some ms
      → (length ms == 0) ≡ false
      → backfill_reasoning_content d ≡ insert "messages" (of_list (map fill_message ms)) d
  unfolding backfill_reasoning_content
  backfilled d ms m e q z = rw (m, q, z, e, backfill_reasoning_content) refl

  messages-backfill_reasoning_content :
      (d : Dict (Json F))
      → is_deep_seek_model (text_at "model" d) ≡ true
      → fold_is (thinking_type d) "enabled" ≡ true
      → list_at "messages" (backfill_reasoning_content d) ≡ map fill_message (list_at "messages" d)
  messages-backfill_reasoning_content d m e =
      elim (Option-cases (as_list (value_at "messages" d))) [
        | inl n ↦
            ap (list_at "messages") (left_alone d n)
            ∙ list_at-none "messages" d n
            ∙ ap (map fill_message) (sym (list_at-none "messages" d n))
        | inr (ms, q) ↦ elim (Bool-cases (length ms == 0)) [
          | inl z ↦
              let nothing = list_at-some "messages" d ms q ∙ empty_list ms z in
              ap (list_at "messages") (left_empty d ms q z)
              ∙ nothing
              ∙ ap (map fill_message) (sym nothing)
          | inr z ↦
              ap (list_at "messages") (backfilled d ms m e q z)
              ∙ list_at-put "messages" (map fill_message ms) d refl
              ∙ ap (map fill_message) (sym (list_at-some "messages" d ms q))
        ]
      ]

  -- The messages of a DeepSeek request whose thinking is not set, or set to "enabled", are those of the
  -- request, filled in; every assistant message has its reasoning content as a text and a reasoning
  -- that is not empty.
  pub prepare_thinking_lem :
      (defaults : Dict String) (efforts : Dict (List String)) (d : Dict (Json F))
      → WantsThinking d
      → (list_at "messages" (prepare_thinking defaults efforts d)
          ≡ map fill_message (list_at "messages" d))
        × All IsFilled (list_at "messages" (prepare_thinking defaults efforts d))
  unfolding prepare_thinking text_at list_at
  prepare_thinking_lem defaults efforts d w =
      let default = lookup_default_effort defaults (text_at "model" d) in
      let injected = inject_thinking default d in
      let leveled = normalize_reasoning_effort efforts injected in
      let same =
        messages-backfill_reasoning_content leveled
          (ap (λ v. is_deep_seek_model (text_of v))
              (value_at-normalize_reasoning_effort "model" efforts injected (refl, refl)
                ∙ value_at-inject_thinking "model" default d (refl, refl) refl)
            ∙ w.0)
          (ap (λ t. fold_is t "enabled")
              (thinking_type-agree leveled injected
                (value_at-normalize_reasoning_effort "thinking" efforts injected (refl, refl)))
            ∙ inject_thinking-enabled default d w)
        ∙ ap (λ v. map fill_message (list_of v))
            (value_at-normalize_reasoning_effort "messages" efforts injected (refl, refl)
              ∙ value_at-inject_thinking "messages" default d (refl, refl) refl) in
      (same, subst (All IsFilled) (sym same) (messages-IsFilled (list_at "messages" d)))
