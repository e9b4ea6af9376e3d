-- ===== src/Upstream/Frames/Names.antt =====
-- internal/upstream/sse.go: over a whole stream, the name of a tool call goes out once.
use mathlib.Core.Path.{subst}
use workbuddy2plus_plugin.Base.{
  ℤ, pos, String, ◌≡◌, refl, sym, ap, ◌∙◌, ◌⊎◌, inl, inr, true, false, none, some, List, [], ◌∷◌,
  ◌++◌, Bool-cases, Option-cases, if◌then◌else◌, str_eq, Dict, insert, delete,
}
use workbuddy2plus_plugin.Upstream.Json.{
  Json, as_map, as_num, value_at, list_at, of_map, value_at-insert, value_at-delete, as_map-of_map,
}
use workbuddy2plus_plugin.Upstream.Tools.{gather, of_object}
use workbuddy2plus_plugin.Upstream.Markup.Scanned.{some_inj}
use workbuddy2plus_plugin.Upstream.Frames.{is_seen, index_of, without_name, strip_call, strip_calls}

module _ {F : Type 0} where
  -- A value of the function that a fragment of a call is about.
  abbrev pub function_at : String → Dict (Json F) → Json F
  function_at key tc = elim (as_map (value_at "function" tc)) [
    | none ↦ Json.null
    | some fn ↦ value_at key fn
  ]

  -- The same fragment, but for the name of its function.
  abbrev pub SameButName : Json F → Json F → Type 0
  SameButName x y =
      (y ≡ x)
      ⊎ ((tc : Dict (Json F)) × (tc' : Dict (Json F)) × (as_map x ≡ some tc)
          × (as_map y ≡ some tc')
          × ((key : String) → str_eq "function" key ≡ false → value_at key tc' ≡ value_at key tc)
          × ((key : String) → str_eq "name" key ≡ false → function_at key tc' ≡ function_at key tc))

  abbrev pub AllSame : List (Json F) → List (Json F) → Type 0
  AllSame [] [] = Unit
  AllSame [] (y ∷ ys) = ⊥
  AllSame (x ∷ xs) [] = ⊥
  AllSame (x ∷ xs) (y ∷ ys) = SameButName x y × AllSame xs ys

  -- The fragments of calls in a choice, and in a frame.
  abbrev pub choice_fragments : Json F → List (Json F)
  choice_fragments = of_object (λ c. of_object (list_at "tool_calls") (value_at "delta" c))

  abbrev pub fragments : Dict (Json F) → List (Json F)
  fragments d = gather choice_fragments (list_at "choices" d)

  function_at-insert :
      (tc fn : Dict (Json F)) (key : String)
      → function_at key (insert "function" (of_map fn) tc) ≡ value_at key fn
  function_at-insert tc fn key =
      ap (λ v. elim (as_map v) [ none ↦ Json.null | some d ↦ value_at key d ])
        (value_at-insert "function" "function" (of_map fn) tc ∙ refl)
      ∙ ap (λ o. elim o [ none ↦ Json.null | some d ↦ value_at key d ]) (as_map-of_map fn)

  without_name-null : (tc : Dict (Json F)) → function_at "name" (without_name tc) ≡ Json.null
  unfolding without_name
  without_name-null tc = elim (Option-cases (as_map (value_at "function" tc))) [
    | inl e ↦ rw (e, without_name) (rw (e, function_at) refl)
    | inr (fn, e) ↦
        rw (e, without_name)
          (function_at-insert tc (delete "name" fn) "name" ∙ value_at-delete "name" "name" fn)
  ]

  without_name-same :
      (tci : Json F) (tc : Dict (Json F))
      → as_map tci ≡ some tc
      → SameButName tci (of_map (without_name tc))
  unfolding without_name
  without_name-same tci tc m = elim (Option-cases (as_map (value_at "function" tc))) [
    | inl e ↦ inr (
      tc,
      without_name tc,
      m,
      as_map-of_map (without_name tc),
      λ key other. rw (e, without_name) refl,
      λ key other. rw (e, without_name) refl,
    )
    | inr (fn, e) ↦ inr (
      tc,
      without_name tc,
      m,
      as_map-of_map (without_name tc),
      λ key other. rw (e, without_name) (value_at-insert "function" key _ tc ∙ rw other refl),
      λ key other.
          rw (e, without_name)
            (function_at-insert tc (delete "name" fn) key
              ∙ value_at-delete "name" key fn
              ∙ rw other (rw (e, function_at) refl)),
    )
  ]

module _ {F : Type 0} (to_int : F → ℤ) where
  -- The calls that a fragment, after those of `seen`, makes known.
  abbrev pub noted : List ℤ → Json F → List ℤ
  noted seen tci = elim (as_map tci) [
    | none ↦ seen
    | some tc ↦ if is_seen seen (index_of to_int tc) then seen else index_of to_int tc ∷ seen
  ]

  abbrev pub IsUnnamed : List ℤ → Json F → Type 0
  IsUnnamed seen tci =
      (tc : Dict (Json F))
      → as_map tci ≡ some tc
      → is_seen seen (index_of to_int tc) ≡ true
      → function_at "name" tc ≡ Json.null

  -- Of the fragments after those of the calls in `seen`, none has a name whose call had one before.
  abbrev pub Once : List ℤ → List (Json F) → Type 0
  Once seen [] = Unit
  Once seen (tci ∷ tcs) = IsUnnamed seen tci × Once (noted seen tci) tcs

  index_of-without_name :
      (tc : Dict (Json F)) → index_of to_int (without_name tc) ≡ index_of to_int tc
  unfolding index_of without_name
  index_of-without_name tc = elim (Option-cases (as_map (value_at "function" tc))) [
    | inl e ↦ rw (e, without_name) refl
    | inr (fn, e) ↦
        rw (e, without_name)
          (ap (λ v. elim (as_num v) [ none ↦ pos 0 | some x ↦ to_int x ])
            (value_at-insert "function" "index" (of_map (delete "name" fn)) tc))
  ]

  abbrev Stripped : List ℤ → Json F → Json F × List ℤ → Type 0
  Stripped seen tci out = IsUnnamed seen out.0 × (noted seen out.0 ≡ out.1) × SameButName tci out.0

  noted-some :
      (seen : List ℤ) (tci : Json F) {tc : Dict (Json F)}
      → as_map tci ≡ some tc
      → noted seen tci
        ≡ (if is_seen seen (index_of to_int tc) then seen else index_of to_int tc ∷ seen)
  noted-some seen tci e =
      ap
        (λ o. elim o [
          | none ↦ seen
          | some tc ↦ if is_seen seen (index_of to_int tc) then seen else index_of to_int tc ∷ seen
        ])
        e

  strip_call-other :
      (seen : List ℤ) (tci : Json F) → as_map tci ≡ none → strip_call to_int seen tci ≡ (tci, seen)
  unfolding strip_call
  strip_call-other seen tci e = rw (e, strip_call) refl

  strip_call-known :
      (seen : List ℤ) (tci : Json F) (tc : Dict (Json F))
      → as_map tci ≡ some tc
      → is_seen seen (index_of to_int tc) ≡ true
      → strip_call to_int seen tci ≡ (of_map (without_name tc), seen)
  unfolding strip_call
  strip_call-known seen tci tc e k = rw (e, strip_call) (rw k refl)

  strip_call-fresh :
      (seen : List ℤ) (tci : Json F) (tc : Dict (Json F))
      → as_map tci ≡ some tc
      → is_seen seen (index_of to_int tc) ≡ false
      → strip_call to_int seen tci ≡ (tci, index_of to_int tc ∷ seen)
  unfolding strip_call
  strip_call-fresh seen tci tc e k = rw (e, strip_call) (rw k refl)

  strip_call-Stripped :
      (seen : List ℤ) (tci : Json F) → Stripped seen tci (strip_call to_int seen tci)
  strip_call-Stripped seen tci = elim (Option-cases (as_map tci)) [
    | inl e ↦ subst (Stripped seen tci) (sym (strip_call-other seen tci e)) (
      λ tc m k. let z : none ≡ some tc = sym e ∙ m in cc,
      ap
          (λ o. elim o [
            | none ↦ seen
            | some tc ↦
                if is_seen seen (index_of to_int tc) then seen else index_of to_int tc ∷ seen
          ])
          e,
      inl refl,
    )
    | inr (tc, e) ↦ elim (Bool-cases (is_seen seen (index_of to_int tc))) [
      | inl k ↦
          let w = without_name tc in
          subst (Stripped seen tci) (sym (strip_call-known seen tci tc e k)) (
            λ tc' m k'.
                subst (λ u. function_at "name" u ≡ Json.null) (some_inj (sym (as_map-of_map w) ∙ m))
                  (without_name-null tc),
            noted-some seen (of_map w) (as_map-of_map w)
                ∙ rw (index_of-without_name tc) (rw k refl),
            without_name-same tci tc e,
          )
      | inr k ↦ subst (Stripped seen tci) (sym (strip_call-fresh seen tci tc e k)) (
        λ tc' m k'.
            let q : tc ≡ tc' = some_inj (sym e ∙ m) in
            let z : false ≡ true = sym k ∙ (rw q k') in cc,
        noted-some seen tci e ∙ rw k refl,
        inl refl,
      )
    ]
  ]

  abbrev pub Kept : List ℤ → List (Json F) → List (Json F) → Type 0
  Kept seen tcs out = Once seen out × AllSame tcs out

  pub strip_calls-Kept :
      (seen : List ℤ) (tcs : List (Json F)) → Kept seen tcs (strip_calls to_int seen tcs).0
  unfolding strip_calls
  strip_calls-Kept seen [] = (tt, tt)
  strip_calls-Kept seen (tci ∷ tcs) =
      let one = strip_call-Stripped seen tci in
      let ih = strip_calls-Kept (strip_call to_int seen tci).1 tcs in
      (
        (
          one.0,
          subst (λ l. Once l (strip_calls to_int (strip_call to_int seen tci).1 tcs).0) (sym one.1)
              ih.0,
        ),
        (one.2, ih.1),
      )

  pub strip_calls-append :
      (seen : List ℤ) (xs ys : List (Json F))
      → let a = strip_calls to_int seen xs in
        let b = strip_calls to_int a.1 ys in strip_calls to_int seen (xs ++ ys) ≡ (a.0 ++ b.0, b.1)
  unfolding strip_calls
  strip_calls-append seen [] ys = refl
  strip_calls-append seen (tci ∷ tcs) ys =
      ap (λ r. ((strip_call to_int seen tci).0 ∷ r.0, r.1))
        (strip_calls-append (strip_call to_int seen tci).1 tcs ys)
