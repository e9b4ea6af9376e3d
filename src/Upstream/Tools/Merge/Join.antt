-- ===== src/Upstream/Tools/Merge/Join.antt =====
-- internal/upstream/tool_pairing.go: what two messages that are merged become.
use mathlib.Core.Option.{some-injective}
use mathlib.Core.List.{append-nil}
use workbuddy2plus_plugin.Base.{
  String, ◌≡◌, refl, sym, ap, ◌∙◌, Bool, true, false, not, ◌&&◌, none, some, List, [], ◌∷◌, ◌++◌,
  str_eq, arith, if◌then◌else◌, Dict, lookup, insert, Bool-cases, Option-cases, inl, inr,
}
use workbuddy2plus_plugin.Upstream.Json.{
  Json, null, flag, num, text, arr, obj, maps, as_map, of_list, value_at, text_at, list_at,
  value_at-insert, text_of, list_of, as_text, as_list-of_list, as_list, as_map-of_map,
}
use workbuddy2plus_plugin.Upstream.Tools.{role_is, is_text, calls_of, answers_of, of_object}
use workbuddy2plus_plugin.Upstream.Tools.Cleanup.Message.{is_text_unique, of_object-as_map}
use workbuddy2plus_plugin.Upstream.Tools.Merge.{
  empty_content, merge_reasoning_content, has_calls, has_key, merge_calls, merge_text, merged, join,
}

pub if-some :
    {A : Type 0} (t : Bool) (x y : A) → (if t then some x else none) ≡ some y → (t ≡ true) × (x ≡ y)
if-some true x y h = (refl, some-injective x y h)
if-some false x y h = absurd (cc (h))

not-false : (a b : Bool) → (not a && b) ≡ true → a ≡ false
not-false a b h = ground (arith, h)

and-true : (a b : Bool) → (a && b) ≡ true → (a ≡ true) × (b ≡ true)
and-true a b h = (ground (arith, h), ground (arith, h))

module _ {F : Type 0} where
  -- What an object says as a message: its calls, the id it answers, and an assistant's text.
  abbrev pub calls_in : Dict (Json F) → List (Json F)
  calls_in d = if role_is "assistant" d then list_at "tool_calls" d else []

  abbrev pub answers_in : Dict (Json F) → List String
  answers_in d = if role_is "tool" d then text_at "tool_call_id" d ∷ [] else []

  abbrev pub texts_in : Dict (Json F) → List String
  texts_in d =
      if role_is "assistant" d && not (str_eq (text_at "content" d) "")
      then text_at "content" d ∷ []
      else []

  unfoldable pub texts_of : Json F → List String
  texts_of m = of_object texts_in m

  pub value_at-insert_other :
      (j k : String) (x : Json F) (d : Dict (Json F))
      → str_eq j k ≡ false
      → value_at k (insert j x d) ≡ value_at k d
  value_at-insert_other j k x d n = value_at-insert j k x d ∙ rw n refl

  value_at-merge_reasoning_content :
      (k : String) (dst src : Dict (Json F))
      → str_eq "reasoning_content" k ≡ false
      → value_at k (merge_reasoning_content dst src) ≡ value_at k dst
  unfolding merge_reasoning_content
  value_at-merge_reasoning_content k dst src n =
      elim (Bool-cases (str_eq (text_at "reasoning_content" src) "")) [
        | inl y ↦ rw (y, merge_reasoning_content) refl
        | inr o ↦ elim (Bool-cases (str_eq (text_at "reasoning_content" dst) "")) [
          | inl y ↦
              rw (o, y, merge_reasoning_content)
                (value_at-insert_other "reasoning_content" k _ dst n)
          | inr p ↦
              rw (o, p, merge_reasoning_content)
                (value_at-insert_other "reasoning_content" k _ dst n)
        ]
      ]

  empty_content-text : (v : Json F) → empty_content v ≡ true → str_eq (text_of v) "" ≡ true
  unfolding empty_content as_text
  empty_content-text null h = refl
  empty_content-text (text s) h = h
  empty_content-text (arr xs) h = refl
  empty_content-text (flag b) h = refl
  empty_content-text (num x) h = refl
  empty_content-text (obj fs) h = refl
  empty_content-text (maps rs) h = refl

  -- An assistant answers nothing.
  answers_in-assistant : (d : Dict (Json F)) → role_is "assistant" d ≡ true → answers_in d ≡ []
  unfolding role_is
  answers_in-assistant d h =
      rw (is_text_unique "assistant" "tool" (value_at "role" d) refl h, role_is) refl

  -- The message that two make says what both said.
  abbrev pub IsBoth : Dict (Json F) → Dict (Json F) → Dict (Json F) → Type 0
  IsBoth prev msg both =
      (calls_in both ≡ calls_in prev ++ calls_in msg)
      × (answers_in both ≡ answers_in prev ++ answers_in msg)
      × (texts_in both ≡ texts_in prev ++ texts_in msg)

  IsBoth-of :
      (prev msg both : Dict (Json F))
      → role_is "assistant" prev ≡ true
      → role_is "assistant" msg ≡ true
      → value_at "role" both ≡ value_at "role" prev
      → list_at "tool_calls" both ≡ list_at "tool_calls" prev ++ list_at "tool_calls" msg
      → texts_in both ≡ texts_in prev ++ texts_in msg
      → IsBoth prev msg both
  unfolding role_is
  IsBoth-of prev msg both p m r c t =
      let b = ap (is_text "assistant") r ∙ p in
      (
        rw (b, p, m, c) refl,
        answers_in-assistant both b
            ∙ sym (λ i. answers_in-assistant prev p i ++ answers_in-assistant msg m i),
        t,
      )

  -- Two objects of one role with one content have the same text.
  texts_in-agree :
      (d e : Dict (Json F))
      → role_is "assistant" d ≡ role_is "assistant" e
      → text_at "content" d ≡ text_at "content" e
      → texts_in d ≡ texts_in e
  texts_in-agree d e r c = λ i. if r i && not (str_eq (c i) "") then c i ∷ [] else []

  no_key : (k : String) (d : Dict (Json F)) → has_key k d ≡ false → list_at k d ≡ []
  unfolding has_key list_at value_at as_list
  no_key k d h = elim (Option-cases (lookup k d)) [
    | inl q ↦ rw (q, list_at) refl
    | inr (v, q) ↦ absurd (cc (rw (q, has_key) at h))
  ]

  texts_in-empty :
      (d : Dict (Json F)) → empty_content (value_at "content" d) ≡ true → texts_in d ≡ []
  unfolding text_at
  texts_in-empty d h = ground (arith, empty_content-text (value_at "content" d) h)

  merge_calls-IsBoth :
      (prev msg both : Dict (Json F)) → merge_calls prev msg ≡ some both → IsBoth prev msg both
  unfolding merge_calls has_calls role_is list_at text_at
  merge_calls-IsBoth prev msg both h =
      let (w, e) = if-some _ _ both h in
      let (u, p) = and-true _ _ w in
      let (m, c) = and-true _ _ u in
      let put =
        insert "tool_calls" (of_list (list_at "tool_calls" prev ++ list_at "tool_calls" msg))
          prev in
      let role =
        ap (value_at "role") (sym e)
        ∙ value_at-merge_reasoning_content "role" put msg refl
        ∙ value_at-insert_other "tool_calls" "role" _ prev refl in
      let content =
        ap (value_at "content") (sym e)
        ∙ value_at-merge_reasoning_content "content" put msg refl
        ∙ value_at-insert_other "tool_calls" "content" _ prev refl in
      IsBoth-of prev msg both (and-true _ _ p).0 (and-true _ _ m).0 role
        (ap list_of (
            ap (value_at "tool_calls") (sym e)
            ∙ value_at-merge_reasoning_content "tool_calls" put msg refl
            ∙ value_at-insert "tool_calls" "tool_calls" _ prev)
          ∙ ap (λ o. elim o [ none ↦ [] | some xs ↦ xs ])
              (as_list-of_list (list_at "tool_calls" prev ++ list_at "tool_calls" msg)))
        (texts_in-agree both prev (ap (is_text "assistant") role) (ap text_of content)
          ∙ sym (append-nil (texts_in prev))
          ∙ ap (λ l. texts_in prev ++ l) (sym (texts_in-empty msg c)))

  merge_text-IsBoth :
      (prev msg both : Dict (Json F)) → merge_text prev msg ≡ some both → IsBoth prev msg both
  unfolding merge_text has_calls role_is text_at list_at as_text
  merge_text-IsBoth prev msg both h =
      let (w, e) = if-some _ _ both h in
      let (u, v) = and-true _ _ w in
      let (m, n) = and-true _ _ u in
      let (p, c) = and-true _ _ v in
      let put = insert "content" (text (text_at "content" msg)) prev in
      let role =
        ap (value_at "role") (sym e)
        ∙ value_at-merge_reasoning_content "role" put msg refl
        ∙ value_at-insert_other "content" "role" _ prev refl in
      let content =
        ap (value_at "content") (sym e)
        ∙ value_at-merge_reasoning_content "content" put msg refl
        ∙ value_at-insert "content" "content" _ prev in
      let calls =
        ap (value_at "tool_calls") (sym e)
        ∙ value_at-merge_reasoning_content "tool_calls" put msg refl
        ∙ value_at-insert_other "content" "tool_calls" _ prev refl in
      IsBoth-of prev msg both (and-true _ _ p).0 m role
        (ap list_of calls
          ∙ sym (append-nil (list_at "tool_calls" prev))
          ∙ ap (λ l. list_at "tool_calls" prev ++ l)
              (sym (no_key "tool_calls" msg (not-false _ _ n))))
        (texts_in-agree both msg (ap (is_text "assistant") role ∙ (and-true _ _ p).0 ∙ sym m)
            (ap text_of content)
          ∙ ap (λ l. l ++ texts_in msg) (sym (texts_in-empty prev c)))

  read_both :
      {B : Type 0} (f : Dict (Json F) → List B) (last m q : Json F) (prev msg both : Dict (Json F))
      → as_map last ≡ some prev
      → as_map m ≡ some msg
      → as_map q ≡ some both
      → f both ≡ f prev ++ f msg
      → of_object f q ≡ of_object f last ++ of_object f m
  read_both f last m q prev msg both b a c h =
      of_object-as_map f q both c
      ∙ h
      ∙ sym (λ i. of_object-as_map f last prev b i ++ of_object-as_map f m msg a i)

  merged-IsBoth :
      (prev msg : Dict (Json F)) (q : Json F)
      → merged prev msg ≡ some q
      → (both : Dict (Json F)) × (as_map q ≡ some both) × IsBoth prev msg both
  unfolding merged
  merged-IsBoth prev msg q h = elim (Option-cases (merge_calls prev msg)) [
    | inr (both, c) ↦ (
      both,
      ap as_map (sym (some-injective _ q (rw (c, merged) at h))) ∙ as_map-of_map both,
      merge_calls-IsBoth prev msg both c,
    )
    | inl n ↦ elim (Option-cases (merge_text prev msg)) [
      | inr (both, c) ↦ (
        both,
        ap as_map (sym (some-injective _ q (rw (n, c, merged) at h))) ∙ as_map-of_map both,
        merge_text-IsBoth prev msg both c,
      )
      | inl o ↦ absurd (cc (rw (n, o, merged) at h))
    ]
  ]

  -- A message that two make declares, answers and says what both did.
  pub join-both :
      (last m q : Json F)
      → join last m ≡ some q
      → (calls_of q ≡ calls_of last ++ calls_of m)
        × (answers_of q ≡ answers_of last ++ answers_of m)
        × (texts_of q ≡ texts_of last ++ texts_of m)
  unfolding join calls_of answers_of texts_of
  join-both last m q h = elim (Option-cases (as_map m)) [
    | inl n ↦ absurd (cc (rw (n, join) at h))
    | inr (msg, a) ↦ elim (Option-cases (as_map last)) [
      | inl o ↦ absurd (cc (rw (a, o, join) at h))
      | inr (prev, b) ↦
          let (both, c, d) = merged-IsBoth prev msg q (rw (a, b, join) at h) in
          (
            read_both _ last m q prev msg both b a c d.0,
            read_both _ last m q prev msg both b a c d.1,
            read_both _ last m q prev msg both b a c d.2,
          )
    ]
  ]
