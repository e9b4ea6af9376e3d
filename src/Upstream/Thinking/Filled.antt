-- ===== src/Upstream/Thinking/Filled.antt =====
-- internal/upstream/thinking.go: the reasoning of a message that `backfillReasoningContent` fills in.
use mathlib.Core.Option.{some-injective}
use mathlib.Core.Path.{subst}
use workbuddy2plus_plugin.Base.{
  String, ◌≡◌, refl, sym, ap, ◌∙◌, true, false, none, some, List, [], ◌∷◌, map, str_eq,
  if◌then◌else◌, Bool-cases, Option-cases, inl, inr, All, Dict, insert,
}
use workbuddy2plus_plugin.Upstream.Json.{
  Json, text, as_map, as_text, value_at, text_at, text_of, of_map, value_at-insert, as_map-of_map,
}
use workbuddy2plus_plugin.Upstream.Tools.{role_is, is_text}
use workbuddy2plus_plugin.Upstream.Thinking.{
  content_of, fill_content, fill_reasoning, fill, fill_message,
}

not_blank : (rc : String) → str_eq (if str_eq rc "" then " " else rc) "" ≡ false
not_blank rc = elim (Bool-cases (str_eq rc "")) [ inl y ↦ rw y refl | inr n ↦ rw (n, n) refl ]

module _ {F : Type 0} where
  -- An assistant's message has its reasoning in both fields: as a text, and as one that is not empty.
  abbrev pub IsFilled : Json F → Type 0
  IsFilled m =
      (d : Dict (Json F))
      → as_map m ≡ some d
      → role_is "assistant" d ≡ true
      → ((rc : String) × (as_text (value_at "reasoning_content" d) ≡ some rc))
        × (str_eq (text_at "reasoning" d) "" ≡ false)

  written :
      (d : Dict (Json F)) {rc : String}
      → as_text (value_at "reasoning_content" d) ≡ some rc
      → fill_content d ≡ d
  unfolding fill_content
  written d q = rw (q, fill_content) refl

  unwritten :
      (d : Dict (Json F))
      → as_text (value_at "reasoning_content" d) ≡ none
      → fill_content d ≡ insert "reasoning_content" (text (content_of d)) d
  unfolding fill_content
  unwritten d n = rw (n, fill_content) refl

  text-fill_content :
      (d : Dict (Json F))
      → (rc : String) × (as_text (value_at "reasoning_content" (fill_content d)) ≡ some rc)
  unfolding fill_content as_text
  text-fill_content d = elim (Option-cases (as_text (value_at "reasoning_content" d))) [
    | inr (rc, q) ↦ (rc, ap (λ x. as_text (value_at "reasoning_content" x)) (written d q) ∙ q)
    | inl n ↦ (
      content_of d,
      ap (λ x. as_text (value_at "reasoning_content" x)) (unwritten d n)
          ∙ ap as_text
              (value_at-insert "reasoning_content" "reasoning_content" (text (content_of d)) d),
    )
  ]

  spoken :
      (rc : String) (d : Dict (Json F))
      → str_eq (text_at "reasoning" d) "" ≡ false
      → fill_reasoning rc d ≡ d
  unfolding fill_reasoning
  spoken rc d n = rw (n, fill_reasoning) refl

  unspoken :
      (rc : String) (d : Dict (Json F))
      → str_eq (text_at "reasoning" d) "" ≡ true
      → fill_reasoning rc d ≡ insert "reasoning" (text (if str_eq rc "" then " " else rc)) d
  unfolding fill_reasoning
  unspoken rc d y = rw (y, fill_reasoning) refl

  value_at-fill_reasoning :
      (k rc : String) (d : Dict (Json F))
      → str_eq "reasoning" k ≡ false
      → value_at k (fill_reasoning rc d) ≡ value_at k d
  value_at-fill_reasoning k rc d o = elim (Bool-cases (str_eq (text_at "reasoning" d) "")) [
    | inr n ↦ ap (value_at k) (spoken rc d n)
    | inl y ↦ ap (value_at k) (unspoken rc d y) ∙ value_at-insert "reasoning" k _ d ∙ rw o refl
  ]

  value_at-fill_content :
      (k : String) (d : Dict (Json F))
      → str_eq "reasoning_content" k ≡ false
      → value_at k (fill_content d) ≡ value_at k d
  value_at-fill_content k d o = elim (Option-cases (as_text (value_at "reasoning_content" d))) [
    | inr (rc, q) ↦ ap (value_at k) (written d q)
    | inl n ↦
        ap (value_at k) (unwritten d n) ∙ value_at-insert "reasoning_content" k _ d ∙ rw o refl
  ]

  text-fill :
      (d : Dict (Json F))
      → (rc : String) × (as_text (value_at "reasoning_content" (fill d)) ≡ some rc)
  unfolding fill
  text-fill d =
      let (rc, q) = text-fill_content d in
      (
        rc,
        ap as_text
              (value_at-fill_reasoning "reasoning_content" (content_of d) (fill_content d) refl)
            ∙ q,
      )

  fill_reasoning_lem :
      (rc : String) (d : Dict (Json F))
      → str_eq (text_at "reasoning" (fill_reasoning rc d)) "" ≡ false
  unfolding text_at as_text
  fill_reasoning_lem rc d = elim (Bool-cases (str_eq (text_at "reasoning" d) "")) [
    | inr n ↦ ap (λ x. str_eq (text_at "reasoning" x) "") (spoken rc d n) ∙ n
    | inl y ↦
        ap (λ x. str_eq (text_at "reasoning" x) "") (unspoken rc d y)
        ∙ ap (λ v. str_eq (text_of v) "") (value_at-insert "reasoning" "reasoning" _ d)
        ∙ not_blank rc
  ]

  role_is-fill : (role : String) (d : Dict (Json F)) → role_is role (fill d) ≡ role_is role d
  unfolding role_is fill
  role_is-fill role d = ap (is_text role) (
      value_at-fill_reasoning "role" (content_of d) (fill_content d) refl
      ∙ value_at-fill_content "role" d refl)

  untouched : (m : Json F) → as_map m ≡ none → fill_message m ≡ m
  unfolding fill_message
  untouched m n = rw (n, fill_message) refl

  filled :
      (m : Json F) (d : Dict (Json F))
      → as_map m ≡ some d
      → role_is "assistant" d ≡ true
      → fill_message m ≡ of_map (fill d)
  unfolding fill_message
  filled m d q y = rw (q, y, fill_message) refl

  passed :
      (m : Json F) (d : Dict (Json F))
      → as_map m ≡ some d
      → role_is "assistant" d ≡ false
      → fill_message m ≡ m
  unfolding fill_message
  passed m d q n = rw (q, n, fill_message) refl

  fill_message-IsFilled : (m : Json F) → IsFilled (fill_message m)
  unfolding fill_message fill
  fill_message-IsFilled m e a r = elim (Option-cases (as_map m)) [
    | inl n ↦ absurd (cc (n, ap as_map (sym (untouched m n)) ∙ a))
    | inr (d, q) ↦ elim (Bool-cases (role_is "assistant" d)) [
      | inl y ↦
          let s =
            some-injective (fill d) e
              (sym (as_map-of_map (fill d)) ∙ ap as_map (sym (filled m d q y)) ∙ a) in
          subst
            (λ x.
              ((rc : String) × (as_text (value_at "reasoning_content" x) ≡ some rc))
              × (str_eq (text_at "reasoning" x) "" ≡ false))
            s (text-fill d, fill_reasoning_lem (content_of d) (fill_content d))
      | inr o ↦
          let s = some-injective d e (sym q ∙ ap as_map (sym (passed m d q o)) ∙ a) in
          absurd (cc (ap (role_is "assistant") s, o, r))
    ]
  ]

  pub messages-IsFilled : (ms : List (Json F)) → All IsFilled (map fill_message ms)
  messages-IsFilled [] = tt
  messages-IsFilled (m ∷ ms) = (fill_message-IsFilled m, messages-IsFilled ms)
