-- ===== src/Upstream/Payload/Reasoning.antt =====
-- internal/upstream/payload.go: the reasoning of a DeepSeek request, through `injectThinking`,
-- `normalizeReasoningEffort` and `backfillReasoningContent` in their order.
use mathlib.Core.Option.{some-injective}
use workbuddy2plus_plugin.Base.{
  ℕ, String, ◌≡◌, refl, sym, ap, ◌∙◌, ◌⊎◌, inl, inr, true, false, ◌||◌, none, some, List, [], ◌∷◌,
  str_eq, if◌then◌else◌, Bool-cases, Option-cases, Dict, insert, delete, lookup,
}
use workbuddy2plus_plugin.Upstream.Json.{
  Json, text, as_map, as_text, value_at, text_at, text_of, of_map, value_at-insert, value_at-delete,
  as_map-of_map,
}
use workbuddy2plus_plugin.Upstream.Texts.{fold_is, trim, trim_left, trim_right}
use workbuddy2plus_plugin.Upstream.Effort.{
  rank, effort_key, requested, level_for, supported_of, normalize_reasoning_effort,
}
use workbuddy2plus_plugin.Upstream.Tools.Merge.{has_key}
use workbuddy2plus_plugin.Upstream.Thinking.{
  is_deep_seek_model, thinking_type, enabled, ensure_deep_seek_effort, inject_thinking,
}

-- A key that is none of the two under which an effort may stand.
abbrev IsPlain : String → Type 0
IsPlain k = (str_eq "reasoning_effort" k ≡ false) × (str_eq "reasoningEffort" k ≡ false)

module _ {F : Type 0} where
  effort_key-plain :
      (k key : String) (d : Dict (Json F))
      → effort_key d ≡ some key
      → IsPlain k
      → str_eq key k ≡ false
  unfolding effort_key
  effort_key-plain k key d q p = elim (Option-cases (lookup "reasoning_effort" d)) [
    | inr (v, e) ↦ ap (λ x. str_eq x k) (sym (some-injective _ key (rw (e, effort_key) at q))) ∙ p.0
    | inl n ↦ elim (Option-cases (lookup "reasoningEffort" d)) [
      | inr (v, e) ↦
          ap (λ x. str_eq x k) (sym (some-injective _ key (rw (n, e, effort_key) at q))) ∙ p.1
      | inl m ↦ absurd (cc (rw (n, m, effort_key) at q))
    ]
  ]

  requested-plain :
      (k : String) (d : Dict (Json F)) (r : String × ℕ)
      → requested d ≡ some r
      → IsPlain k
      → str_eq r.0 k ≡ false
  unfolding requested
  requested-plain k d r q p = elim (Option-cases (effort_key d)) [
    | inl n ↦ absurd (cc (rw (n, requested) at q))
    | inr (key, e) ↦ elim (Option-cases (as_text (value_at key d))) [
      | inl n ↦ absurd (cc (rw (e, n, requested) at q))
      | inr (s, t) ↦ elim (Option-cases (rank s)) [
        | inl n ↦ absurd (cc (rw (e, t, n, requested) at q))
        | inr (i, o) ↦
            ap (λ x. str_eq x k)
              (sym (ap (λ x. x.0) (some-injective (key, i) r (rw (e, t, o, requested) at q))))
            ∙ effort_key-plain k key d e p
      ]
    ]
  ]

  value_at-ensure_deep_seek_effort :
      (k default : String) (d : Dict (Json F))
      → IsPlain k
      → value_at k (ensure_deep_seek_effort default d) ≡ value_at k d
  unfolding ensure_deep_seek_effort
  value_at-ensure_deep_seek_effort k default d p =
      elim (Bool-cases (has_key "reasoning_effort" d || has_key "reasoningEffort" d)) [
        | inl y ↦ rw (y, ensure_deep_seek_effort) refl
        | inr n ↦
            rw (n, ensure_deep_seek_effort) (value_at-insert "reasoning_effort" k _ d ∙ rw p.0 refl)
      ]

  pub value_at-normalize_reasoning_effort :
      (k : String) (efforts : Dict (List String)) (d : Dict (Json F))
      → IsPlain k
      → value_at k (normalize_reasoning_effort efforts d) ≡ value_at k d
  unfolding normalize_reasoning_effort
  value_at-normalize_reasoning_effort k efforts d p = elim (Option-cases (requested d)) [
    | inl q ↦ rw (q, normalize_reasoning_effort) refl
    | inr (r, q) ↦ elim (Option-cases (level_for r.1 (supported_of efforts d))) [
      | inl n ↦ rw (q, n, normalize_reasoning_effort) refl
      | inr (s, e) ↦
          rw (q, e, normalize_reasoning_effort)
            (value_at-insert r.0 k _ d ∙ rw (requested-plain k d r q p) refl)
    ]
  ]

  value_at-enabled :
      (k : String) (d : Dict (Json F))
      → str_eq "thinking" k ≡ false
      → value_at k (enabled d) ≡ value_at k d
  unfolding enabled
  value_at-enabled k d o = elim (Option-cases (as_map (value_at "thinking" d))) [
    | inl n ↦ rw (n, enabled) (value_at-insert "thinking" k _ d ∙ rw o refl)
    | inr (th, q) ↦ rw (q, enabled) (value_at-insert "thinking" k _ d ∙ rw o refl)
  ]

  -- A thinking of the type "enabled" is of that type.
  pub thinking_type-agree :
      (d e : Dict (Json F))
      → value_at "thinking" d ≡ value_at "thinking" e
      → thinking_type d ≡ thinking_type e
  unfolding thinking_type
  thinking_type-agree d e q =
      ap (λ v. elim (as_map v) [ none ↦ "" | some th ↦ trim (text_at "type" th) ]) q

  thinking_type-put :
      (d th : Dict (Json F)) (s : String)
      → value_at "type" th ≡ text s
      → thinking_type (insert "thinking" (of_map th) d) ≡ trim s
  unfolding thinking_type text_at as_text
  thinking_type-put d th s q =
      ap (λ v. elim (as_map v) [ none ↦ "" | some x ↦ trim (text_at "type" x) ])
        (value_at-insert "thinking" "thinking" (of_map th) d)
      ∙ ap (λ o. elim o [ none ↦ "" | some x ↦ trim (text_at "type" x) ]) (as_map-of_map th)
      ∙ ap (λ v. trim (text_of v)) q

  fresh_type : ◌≡◌ {A = Json F} (value_at "type" (("type", text "enabled") ∷ [])) (text "enabled")
  unfolding value_at lookup
  fresh_type = refl

  thinking_type-enabled : (d : Dict (Json F)) → thinking_type (enabled d) ≡ trim "enabled"
  unfolding enabled
  thinking_type-enabled d = elim (Option-cases (as_map (value_at "thinking" d))) [
    | inl n ↦
        rw (n, enabled) (thinking_type-put d (("type", text "enabled") ∷ []) "enabled" fresh_type)
    | inr (th, q) ↦
        rw (q, enabled)
          (thinking_type-put d (insert "type" (text "enabled") th) "enabled"
            (value_at-insert "type" "type" _ th))
  ]

  -- A DeepSeek request whose thinking is not set, or is set to "enabled".
  abbrev pub WantsThinking : Dict (Json F) → Type 0
  WantsThinking d =
      (is_deep_seek_model (text_at "model" d) ≡ true)
      × ((str_eq (thinking_type d) "" ≡ true) ⊎ (fold_is (thinking_type d) "enabled" ≡ true))

  value_at-delete_efforts :
      (k : String) (d : Dict (Json F))
      → IsPlain k
      → value_at k (delete "reasoningEffort" (delete "reasoning_effort" d)) ≡ value_at k d
  value_at-delete_efforts k d p =
      rw
        (
          value_at-delete "reasoningEffort" k (delete "reasoning_effort" d),
          p.1,
          value_at-delete "reasoning_effort" k d,
          p.0,
        )
        refl

  injected-unset :
      (default : String) (d : Dict (Json F))
      → is_deep_seek_model (text_at "model" d) ≡ true
      → str_eq (thinking_type d) "" ≡ true
      → inject_thinking default d ≡ ensure_deep_seek_effort default (enabled d)
  unfolding inject_thinking
  injected-unset default d m y = rw (m, y, inject_thinking) refl

  value_at-set_thinking :
      (k default : String) (d : Dict (Json F))
      → IsPlain k
      → value_at k (
          if fold_is (thinking_type d) "disabled"
          then delete "reasoningEffort" (delete "reasoning_effort" d)
          else ensure_deep_seek_effort default d)
        ≡ value_at k d
  value_at-set_thinking k default d p = elim (Bool-cases (fold_is (thinking_type d) "disabled")) [
    | inl y ↦ rw y (value_at-delete_efforts k d p)
    | inr n ↦ rw n (value_at-ensure_deep_seek_effort k default d p)
  ]

  pub value_at-inject_thinking :
      (k default : String) (d : Dict (Json F))
      → IsPlain k
      → str_eq "thinking" k ≡ false
      → value_at k (inject_thinking default d) ≡ value_at k d
  unfolding inject_thinking
  value_at-inject_thinking k default d p o =
      elim (Bool-cases (is_deep_seek_model (text_at "model" d))) [
        | inr n ↦ rw (n, inject_thinking) refl
        | inl y ↦ elim (Bool-cases (str_eq (thinking_type d) "")) [
          | inl t ↦
              rw (y, t, inject_thinking)
                (value_at-ensure_deep_seek_effort k default (enabled d) p ∙ value_at-enabled k d o)
          | inr n ↦ rw (y, n, inject_thinking) (value_at-set_thinking k default d p)
        ]
      ]

  injected-set :
      (default : String) (d : Dict (Json F))
      → is_deep_seek_model (text_at "model" d) ≡ true
      → str_eq (thinking_type d) "" ≡ false
      → value_at "thinking" (inject_thinking default d) ≡ value_at "thinking" d
  unfolding inject_thinking
  injected-set default d m n =
      rw (m, n, inject_thinking) (value_at-set_thinking "thinking" default d (refl, refl))

  pub inject_thinking-enabled :
      (default : String) (d : Dict (Json F))
      → WantsThinking d
      → fold_is (thinking_type (inject_thinking default d)) "enabled" ≡ true
  unfolding inject_thinking fold_is trim trim_left trim_right
  inject_thinking-enabled default d (m, w) = elim (Bool-cases (str_eq (thinking_type d) "")) [
    | inl y ↦
        ap (λ t. fold_is t "enabled")
          (ap thinking_type (injected-unset default d m y)
            ∙ thinking_type-agree (ensure_deep_seek_effort default (enabled d)) (enabled d)
                (value_at-ensure_deep_seek_effort "thinking" default (enabled d) (refl, refl))
            ∙ thinking_type-enabled d)
    | inr n ↦ elim w [
      | inl y ↦ absurd (cc (n, y))
      | inr e ↦
          ap (λ t. fold_is t "enabled")
            (thinking_type-agree (inject_thinking default d) d (injected-set default d m n))
          ∙ e
    ]
  ]
