-- ===== src/Upstream/Aggregate/Arguments.antt =====
-- internal/upstream/sse.go: the arguments of each tool call are the fragments that came for it.
use Prim.Native.String.{String}
use mathlib.Core.Option
use package.text.Mathlib.TextLemmas.{nil-append, append-nil, append_assoc}
use package.text.Mathlib.TextPositions.{eq_refl}
use package.text.Mathlib.TextEquality.{eq_iff}
use workbuddy2plus_plugin.Base.{
  ◌≡◌, ◌↔◌, refl, sym, ap, ◌∙◌, ℤ, pos, negsuc, inl, inr, true, false, Option, none, some, List, [],
  ◌∷◌, if◌then◌else◌, str_eq, Dict, insert, lookup, Bool-cases, Option-cases, All, arith,
}
use workbuddy2plus_plugin.Pool.Floats.{Floats}
use workbuddy2plus_plugin.Upstream.Json.{
  Json, text, num, as_map, as_num, as_text, text_of, value_at, text_at, of_map, value_at-insert,
  as_map-of_map,
}
use workbuddy2plus_plugin.Upstream.Markup.Scan.{◌<>◌}
use workbuddy2plus_plugin.Upstream.Frames.{same_index, copy_text}
use workbuddy2plus_plugin.Upstream.Aggregate.Calls.{
  Answer, call_at, set_call, map_of, merge_arguments, merge_tool_call_delta, merge_at, index_for,
  merge_tool_call, merge_tool_calls_chunk,
}

same_index_iff : (a b : ℤ) → (same_index a b ≡ true) ↔ (a ≡ b)
same_index_iff (pos a) (pos b) = ground arith
same_index_iff (pos a) (negsuc b) = ground arith
same_index_iff (negsuc a) (pos b) = ground arith
same_index_iff (negsuc a) (negsuc b) = ground arith

module _ {V : Type 0} where
  call_at-set_call :
      (i j : ℤ) (v : V) (l : List (ℤ × V))
      → call_at j (set_call i v l) ≡ (if same_index i j then some v else call_at j l)
  unfolding call_at set_call
  call_at-set_call i j v [] = refl
  call_at-set_call i j v (kv ∷ rest) = ground (
    arith,
    call_at-set_call i j v rest,
    same_index_iff kv.0 i,
    same_index_iff kv.0 j,
    same_index_iff i j,
  )

joined : (prev v : String) → (if str_eq prev "" then v else prev <> v) ≡ prev <> v
joined prev v = elim (Bool-cases (str_eq prev "")) [
  | inl y ↦ rw y (sym (ap (λ u. u <> v) ((eq_iff prev "").0 y) ∙ nil-append v))
  | inr n ↦ rw n refl
]

text_at-nil : (F : Type 0) (key : String) → text_at {F = F} key [] ≡ ""
unfolding text_at value_at lookup as_text
text_at-nil F key = refl

module _ {F : Type 0} where
  -- The arguments of a call, or of a fragment of one.
  abbrev pub arguments_of : Dict (Json F) → String
  arguments_of m = text_at "arguments" (map_of (value_at "function" m))

  value_at-copy_text :
      (key other : String) (d out : Dict (Json F))
      → str_eq key other ≡ false
      → value_at other (copy_text key d out) ≡ value_at other out
  unfolding copy_text
  value_at-copy_text key other d out n = elim (Bool-cases (str_eq (text_at key d) "")) [
    | inl y ↦ rw (y, copy_text) refl
    | inr k ↦ rw (k, copy_text) (value_at-insert key other _ out ∙ rw n refl)
  ]

  text_at-value :
      (key : String) (d e : Dict (Json F))
      → value_at key d ≡ value_at key e
      → text_at key d ≡ text_at key e
  unfolding text_at
  text_at-value key d e h = ap text_of h

  text_at-insert : (key t : String) (d : Dict (Json F)) → text_at key (insert key (text t) d) ≡ t
  unfolding text_at as_text
  text_at-insert key t d =
      let e : value_at key (insert key (text t) d) ≡ text t =
        value_at-insert key key (text t) d ∙ rw (eq_refl key) refl in
      ap text_of e

  merge_arguments_lem :
      (df mf : Dict (Json F))
      → text_at "arguments" (merge_arguments df mf)
        ≡ text_at "arguments" mf <> text_at "arguments" df
  unfolding merge_arguments
  merge_arguments_lem df mf = elim (Bool-cases (str_eq (text_at "arguments" df) "")) [
    | inl y ↦
        rw (y, merge_arguments)
          (sym (
            ap (λ u. text_at "arguments" mf <> u) ((eq_iff (text_at "arguments" df) "").0 y)
            ∙ append-nil (text_at "arguments" mf)))
    | inr n ↦
        rw (n, merge_arguments)
          (text_at-insert "arguments" _ mf
            ∙ joined (text_at "arguments" mf) (text_at "arguments" df))
  ]

  arguments_of-insert :
      (m fn : Dict (Json F))
      → arguments_of (insert "function" (of_map fn) m) ≡ text_at "arguments" fn
  arguments_of-insert m fn =
      ap (λ v. text_at "arguments" (map_of v))
        (value_at-insert "function" "function" (of_map fn) m ∙ refl)
      ∙ ap (λ o. text_at "arguments" (elim o [ none ↦ [] | some d ↦ d ])) (as_map-of_map fn)

  merge_tool_call_delta_lem :
      (m d : Dict (Json F))
      → arguments_of (merge_tool_call_delta m d) ≡ arguments_of m <> arguments_of d
  unfolding merge_tool_call_delta
  merge_tool_call_delta_lem m d =
      let named = copy_text "type" d (copy_text "id" d m) in
      let kept =
        value_at-copy_text "type" "function" d (copy_text "id" d m) refl
        ∙ value_at-copy_text "id" "function" d m refl in
      elim (Option-cases (as_map (value_at "function" d))) [
        | inl e ↦
            let q : arguments_of d ≡ "" = rw (e, map_of) (text_at-nil F "arguments") in
            rw (e, merge_tool_call_delta)
              (ap (λ v. text_at "arguments" (map_of v)) kept
                ∙ sym (ap (λ u. arguments_of m <> u) q ∙ append-nil (arguments_of m)))
        | inr (df, e) ↦
            let mf = map_of (value_at "function" named) in
            let q : arguments_of d ≡ text_at "arguments" df = rw (e, map_of) refl in
            rw (e, merge_tool_call_delta)
              (arguments_of-insert named (merge_arguments df (copy_text "name" df mf))
                ∙ merge_arguments_lem df (copy_text "name" df mf)
                ∙ ap (λ u. u <> text_at "arguments" df)
                    (text_at-value "arguments" (copy_text "name" df mf) mf
                        (value_at-copy_text "name" "arguments" df mf refl)
                      ∙ ap (λ v. text_at "arguments" (map_of v)) kept)
                ∙ ap (λ u. arguments_of m <> u) (sym q))
      ]

  -- The arguments of the call with an index, so far.
  abbrev pub arguments_in : ℤ → List (ℤ × Dict (Json F)) → String
  arguments_in j calls = elim (call_at j calls) [ none ↦ "" | some m ↦ arguments_of m ]

  set_call-arguments :
      (m call : Dict (Json F)) (i j : ℤ) (calls : List (ℤ × Dict (Json F)))
      → arguments_of m ≡ arguments_in i calls
      → arguments_in j (set_call i (merge_tool_call_delta m call) calls)
        ≡ arguments_in j calls <> (if same_index i j then arguments_of call else "")
  set_call-arguments m call i j calls h =
      ap (λ o. elim o as (λ x. String) [ none ↦ "" | some n ↦ arguments_of n ])
        (call_at-set_call i j (merge_tool_call_delta m call) calls)
      ∙ elim (Bool-cases (same_index i j)) [
        | inl y ↦
            let q : arguments_in i calls ≡ arguments_in j calls =
              ap (λ k. arguments_in k calls) ((same_index_iff i j).0 y) in
            rw y (merge_tool_call_delta_lem m call ∙ ap (λ u. u <> arguments_of call) (h ∙ q))
        | inr n ↦ rw n (sym (append-nil (arguments_in j calls)))
      ]

  abbrev pub arguments_at : ℤ → Answer F → String
  arguments_at j a = arguments_in j a.tool_calls

  -- A fragment that is an object has an index.
  abbrev pub HasIndex : Json F → Type 0
  HasIndex tc =
      (call : Dict (Json F))
      → as_map tc ≡ some call
      → (v : F) × (as_num (value_at "index" call) ≡ some v)

module _ {F : Type 0} (fl : Floats F) where
  -- What a fragment brings for the call `j`: its arguments, if the fragment names that index.
  abbrev pub fragment_for : ℤ → Json F → String
  fragment_for j tc = elim (as_map tc) [
    | none ↦ ""
    | some call ↦ elim (as_num (value_at "index" call)) [
      | none ↦ ""
      | some v ↦ if same_index (fl.to_int v) j then arguments_of call else ""
    ]
  ]

  abbrev pub fragments_for : ℤ → List (Json F) → String
  fragments_for j [] = ""
  fragments_for j (tc ∷ tcs) = fragment_for j tc <> fragments_for j tcs

  fresh_arguments : (n : F) → arguments_of (("index", num n) ∷ []) ≡ ""
  unfolding text_at value_at lookup as_text as_map
  fresh_arguments n = refl

  started :
      (i : ℤ) (o : Option (Dict (Json F)))
      → arguments_of
          (elim o as (λ x. Dict (Json F)) [ none ↦ ("index", num (fl.of_int i)) ∷ [] | some m ↦ m ])
        ≡ elim o as (λ x. String) [ none ↦ "" | some m ↦ arguments_of m ]
  started i none = fresh_arguments (fl.of_int i)
  started i (some m) = refl

  merge_at-arguments :
      (call : Dict (Json F)) (i j : ℤ) (a : Answer F)
      → arguments_at j (merge_at fl call i a)
        ≡ arguments_at j a <> (if same_index i j then arguments_of call else "")
  unfolding merge_at
  merge_at-arguments call i j a =
      set_call-arguments
        (elim (call_at i a.tool_calls) as (λ x. Dict (Json F)) [
          | none ↦ ("index", num (fl.of_int i)) ∷ []
          | some m ↦ m
        ])
        call i j a.tool_calls (started i (call_at i a.tool_calls))

  abbrev Appends : ℤ → String → Answer F → Option (Answer F) → Type 0
  Appends j t a result =
      (b : Answer F) × (result ≡ some b) × (arguments_at j b ≡ arguments_at j a <> t)

  index_for-given :
      (call : Dict (Json F)) (a : Answer F) (v : F)
      → as_num (value_at "index" call) ≡ some v
      → index_for fl call a ≡ some (fl.to_int v, a)
  unfolding index_for
  index_for-given call a v e = rw (e, index_for) refl

  call-Appends :
      (j : ℤ) (tc : Json F) (a : Answer F)
      → HasIndex tc
      → Appends j (fragment_for j tc) a (merge_tool_call fl tc a)
  unfolding merge_tool_call
  call-Appends j tc a h = elim (Option-cases (as_map tc)) [
    | inl e ↦ (
      a,
      rw (e, merge_tool_call) refl,
      rw (e, fragment_for) (sym (append-nil (arguments_at j a))),
    )
    | inr (call, e) ↦
        let (v, k) = h call e in
        (
          merge_at fl call (fl.to_int v) a,
          rw (e, merge_tool_call)
              (ap (Option.map (λ p. merge_at fl call p.0 p.1)) (index_for-given call a v k)),
          merge_at-arguments call (fl.to_int v) j a ∙ rw (e, fragment_for) (rw k refl),
        )
  ]

  -- When every fragment has an index, as the protocol asks, the arguments of each call grow by its own
  -- fragments, in their order, and by nothing else.
  pub merge_tool_calls_chunk-arguments :
      (j : ℤ) (tcs : List (Json F)) (a : Answer F)
      → All HasIndex tcs
      → (b : Answer F) × (merge_tool_calls_chunk fl tcs a ≡ some b)
        × (arguments_at j b ≡ arguments_at j a <> fragments_for j tcs)
  unfolding merge_tool_calls_chunk
  merge_tool_calls_chunk-arguments j [] a h = (a, refl, sym (append-nil (arguments_at j a)))
  merge_tool_calls_chunk-arguments j (tc ∷ tcs) a h =
      let x = call-Appends j tc a h.0 in
      let y = merge_tool_calls_chunk-arguments j tcs x.0 h.1 in
      (
        y.0,
        ap (λ o. elim o [ none ↦ none | some b ↦ merge_tool_calls_chunk fl tcs b ]) x.1 ∙ y.1,
        y.2
            ∙ ap (λ u. u <> fragments_for j tcs) x.2
            ∙ append_assoc (arguments_at j a) (fragment_for j tc) (fragments_for j tcs),
      )
