-- ===== src/Upstream/Tools/Cleanup/Message.antt =====
-- internal/upstream/tool_pairing.go: what `cleanupOrphanToolCalls` does to one message.
use mathlib.Core.Path.{subst}
use workbuddy2plus_plugin.Base.{
  ℕ, String, ◌≡◌, refl, sym, ap, ◌∙◌, Bool, true, false, not, none, some, List, [], ◌∷◌, arith,
  str_eq, eq_iff, if◌then◌else◌, length, keep, Bool-cases, ◌⊎◌, Option-cases, inl, inr, Dict,
  insert, delete, ◌==◌,
}
use workbuddy2plus_plugin.Upstream.Json.{
  Json, as_map, value_at, text_at, list_at, of_map, of_list, as_map-of_map, as_list-of_list,
  as_list, as_text, null, value_at-insert, value_at-delete, text_of, text, num, flag, arr, obj,
  maps,
}
use workbuddy2plus_plugin.Upstream.Tools.{
  is_text, of_object, role_is, call_id, calls_of, answers_of,
}
use workbuddy2plus_plugin.Upstream.Tools.Members.{keep-all, keep-again}
use workbuddy2plus_plugin.Upstream.Tools.Cleanup.{
  kept_calls, is_cut, put_calls, clean_message, is_orphan,
}

differs_not : (n : ℕ) → not (n == n) ≡ false
differs_not n = ground arith

module _ {F : Type 0} where
  pub of_object-of_map {κ} :
      {B : Type κ} (f : Dict (Json F) → List B) (d : Dict (Json F)) → of_object f (of_map d) ≡ f d
  of_object-of_map f d = ap (λ o. elim o [ none ↦ [] | some e ↦ f e ]) (as_map-of_map d)

  pub of_object-as_map {κ} :
      {B : Type κ} (f : Dict (Json F) → List B) (m : Json F) (d : Dict (Json F))
      → as_map m ≡ some d
      → of_object f m ≡ f d
  of_object-as_map f m d q = ap (λ o. elim o [ none ↦ [] | some e ↦ f e ]) q

  pub of_object-none {κ} :
      {B : Type κ} (f : Dict (Json F) → List B) (m : Json F) → as_map m ≡ none → of_object f m ≡ []
  of_object-none f m q = ap (λ o. elim o [ none ↦ [] | some e ↦ f e ]) q

  -- Two objects that agree on the role and the id answered are read alike.
  pub answers_of-agree :
      (m n : Json F) (d e : Dict (Json F))
      → as_map m ≡ some d
      → as_map n ≡ some e
      → value_at "role" d ≡ value_at "role" e
      → value_at "tool_call_id" d ≡ value_at "tool_call_id" e
      → answers_of m ≡ answers_of n
  unfolding answers_of role_is text_at
  answers_of-agree m n d e p q r t =
      of_object-as_map _ m d p
      ∙ (λ i. if is_text "tool" (r i) then text_of (t i) ∷ [] else [])
      ∙ sym (of_object-as_map _ n e q)

  -- A value is one text at most.
  pub is_text_unique :
      (s t : String) (v : Json F) → str_eq s t ≡ false → is_text s v ≡ true → is_text t v ≡ false
  unfolding as_text
  is_text_unique s t (text r) n h = ground (arith, eq_iff r s, eq_iff r t, eq_iff s t)
  is_text_unique s t null n h = refl
  is_text_unique s t (flag b) n h = refl
  is_text_unique s t (num x) n h = refl
  is_text_unique s t (arr xs) n h = refl
  is_text_unique s t (obj fs) n h = refl
  is_text_unique s t (maps rs) n h = refl

  pub calls_of-drop : (d : Dict (Json F)) → calls_of (of_map (delete "tool_calls" d)) ≡ []
  unfolding calls_of list_at as_list role_is
  calls_of-drop d =
      of_object-of_map _ (delete "tool_calls" d)
      ∙ rw (value_at-delete "tool_calls" "tool_calls" d) (ground arith)

  pub calls_of-put :
      (d : Dict (Json F)) (calls : List (Json F))
      → role_is "assistant" d ≡ true
      → calls_of (of_map (insert "tool_calls" (of_list calls) d)) ≡ calls
  unfolding calls_of list_at as_list role_is
  calls_of-put d calls h =
      of_object-of_map _ (insert "tool_calls" (of_list calls) d)
      ∙ rw
          (
            value_at-insert "tool_calls" "tool_calls" (of_list calls) d,
            value_at-insert "tool_calls" "role" (of_list calls) d,
            h,
          )
          (ap (λ o. elim o [ none ↦ [] | some xs ↦ xs ]) (as_list-of_list calls))

  pub calls_of-as_map :
      (m : Json F) (d : Dict (Json F))
      → as_map m ≡ some d
      → calls_of m ≡ (if role_is "assistant" d then list_at "tool_calls" d else [])
  unfolding calls_of
  calls_of-as_map m d q = of_object-as_map _ m d q

  -- A message that has calls is an assistant's.
  pub no_calls :
      (m : Json F) (d : Dict (Json F))
      → as_map m ≡ some d
      → role_is "assistant" d ≡ false
      → calls_of m ≡ []
  no_calls m d q n = rw (calls_of-as_map m d q, n) refl

  pub clean_message-none :
      (kept : String → Bool) (m : Json F) → as_map m ≡ none → clean_message kept m ≡ m
  unfolding clean_message
  clean_message-none kept m q = rw (q, clean_message) refl

  pub clean_message-whole :
      (kept : String → Bool) (m : Json F) → is_cut kept m ≡ false → clean_message kept m ≡ m
  unfolding clean_message
  clean_message-whole kept m n = elim (Option-cases (as_map m)) [
    | inl q ↦ rw (q, clean_message) refl
    | inr (d, q) ↦ rw (q, n, clean_message) refl
  ]

  pub clean_message-cut :
      (kept : String → Bool) (m : Json F) (d : Dict (Json F))
      → as_map m ≡ some d
      → is_cut kept m ≡ true
      → clean_message kept m ≡ of_map (put_calls d (kept_calls kept (calls_of m)))
  unfolding clean_message
  clean_message-cut kept m d q y =
      subst
        (λ o.
          elim o [
            | none ↦ m
            | some e ↦
                if is_cut kept m then of_map (put_calls e (kept_calls kept (calls_of m))) else m
          ]
          ≡ of_map (put_calls d (kept_calls kept (calls_of m))))
        (sym q) (rw y refl)

  -- Only an assistant's calls are cut.
  pub is_cut-assistant :
      (kept : String → Bool) (m : Json F) (d : Dict (Json F))
      → as_map m ≡ some d
      → is_cut kept m ≡ true
      → role_is "assistant" d ≡ true
  unfolding is_cut kept_calls
  is_cut-assistant kept m d q y = elim (Bool-cases (role_is "assistant" d)) [
    | inl r ↦ r
    | inr n ↦ absurd (cc (rw (no_calls m d q n) at y))
  ]

  pub calls_of-put_calls :
      (d : Dict (Json F)) (calls : List (Json F))
      → role_is "assistant" d ≡ true
      → calls_of (of_map (put_calls d calls)) ≡ calls
  unfolding put_calls
  calls_of-put_calls d [] r = calls_of-drop d
  calls_of-put_calls d (call ∷ rest) r = calls_of-put d (call ∷ rest) r

  pub value_at-put_calls :
      (k : String) (d : Dict (Json F)) (calls : List (Json F))
      → str_eq "tool_calls" k ≡ false
      → value_at k (put_calls d calls) ≡ value_at k d
  unfolding put_calls
  value_at-put_calls k d [] n = value_at-delete "tool_calls" k d ∙ rw n refl
  value_at-put_calls k d (call ∷ rest) n =
      value_at-insert "tool_calls" k (of_list (call ∷ rest)) d ∙ rw n refl

  pub uncut :
      (kept : String → Bool) (m : Json F)
      → is_cut kept m ≡ false
      → kept_calls kept (calls_of m) ≡ calls_of m
  unfolding is_cut kept_calls
  uncut kept m n = keep-all (λ call. kept (call_id call)) (calls_of m) (ground (arith, n))

  pub no_object : (kept : String → Bool) (m : Json F) → as_map m ≡ none → is_cut kept m ≡ false
  unfolding is_cut kept_calls calls_of
  no_object kept m q = rw (of_object-none _ m q) refl

  pub calls_of-clean_message :
      (kept : String → Bool) (m : Json F)
      → calls_of (clean_message kept m) ≡ kept_calls kept (calls_of m)
  calls_of-clean_message kept m = elim (Bool-cases (is_cut kept m)) [
    | inr n ↦ ap calls_of (clean_message-whole kept m n) ∙ sym (uncut kept m n)
    | inl y ↦ elim (Option-cases (as_map m)) [
      | inl q ↦ absurd (cc (no_object kept m q, y))
      | inr (d, q) ↦
          ap calls_of (clean_message-cut kept m d q y)
          ∙ calls_of-put_calls d (kept_calls kept (calls_of m)) (is_cut-assistant kept m d q y)
    ]
  ]

  pub answers_of-put_calls :
      (m : Json F) (d : Dict (Json F)) (calls : List (Json F))
      → as_map m ≡ some d
      → answers_of (of_map (put_calls d calls)) ≡ answers_of m
  answers_of-put_calls m d calls q =
      answers_of-agree (of_map (put_calls d calls)) m (put_calls d calls) d
        (as_map-of_map (put_calls d calls)) q (value_at-put_calls "role" d calls refl)
        (value_at-put_calls "tool_call_id" d calls refl)

  pub answers_of-clean_message :
      (kept : String → Bool) (m : Json F) → answers_of (clean_message kept m) ≡ answers_of m
  answers_of-clean_message kept m = elim (Bool-cases (is_cut kept m)) [
    | inr n ↦ ap answers_of (clean_message-whole kept m n)
    | inl y ↦ elim (Option-cases (as_map m)) [
      | inl q ↦ ap answers_of (clean_message-none kept m q)
      | inr (d, q) ↦
          ap answers_of (clean_message-cut kept m d q y)
          ∙ answers_of-put_calls m d (kept_calls kept (calls_of m)) q
    ]
  ]

  -- A message answers at most one call, and one that does declares none.
  pub answers_of-cases :
      (m : Json F)
      → (answers_of m ≡ []) ⊎ ((id : String) × (answers_of m ≡ id ∷ []) × (calls_of m ≡ []))
  unfolding answers_of role_is
  answers_of-cases m = elim (Option-cases (as_map m)) [
    | inl q ↦ inl (of_object-none _ m q)
    | inr (d, q) ↦ elim (Bool-cases (role_is "tool" d)) [
      | inl y ↦ inr (
        text_at "tool_call_id" d,
        of_object-as_map _ m d q ∙ rw y refl,
        no_calls m d q (is_text_unique "tool" "assistant" (value_at "role" d) refl y),
      )
      | inr n ↦ inl (of_object-as_map _ m d q ∙ rw n refl)
    ]
  ]

  pub orphan-calls_of :
      (kept : String → Bool) (m : Json F)
      → (if not (is_orphan kept m) then calls_of m else []) ≡ calls_of m
  unfolding is_orphan
  orphan-calls_of kept m = elim (answers_of-cases m) [
    | inl q ↦ rw q refl
    | inr (id, q, r) ↦ rw r (ground arith)
  ]

  pub orphan-answers_of :
      (kept : String → Bool) (m : Json F)
      → (if not (is_orphan kept m) then answers_of m else []) ≡ keep kept (answers_of m)
  unfolding is_orphan
  orphan-answers_of kept m = elim (answers_of-cases m) [
    | inl q ↦ rw q refl
    | inr (id, q, r) ↦ rw q (ground arith)
  ]

  -- Nothing is left to cut of what is cut down.
  pub is_cut-clean_message :
      (kept : String → Bool) (m : Json F) → is_cut kept (clean_message kept m) ≡ false
  unfolding is_cut kept_calls
  is_cut-clean_message kept m =
      rw (calls_of-clean_message kept m, keep-again (λ call. kept (call_id call)) (calls_of m))
        (differs_not (length (kept_calls kept (calls_of m))))
