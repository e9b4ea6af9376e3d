-- ===== src/Upstream/Tools/Merge/Reasoning.antt =====
-- internal/upstream/tool_pairing.go: the reasoning of messages that are merged.
use Prim.Native.String.{◌++◌ as concat}
use mathlib.Core.Option.{some-injective}
use package.text.Mathlib.TextLemmas.{append_assoc, append-eq-nil_iff}
use workbuddy2plus_plugin.Base.{
  String, ◌≡◌, refl, sym, ap, ◌∙◌, false, none, some, List, [], ◌∷◌, str_eq, if◌then◌else◌, Dict,
  insert, Bool-cases, Option-cases, inl, inr, eq_iff,
}
use workbuddy2plus_plugin.Upstream.Json.{
  Json, as_map, of_map, as_text, text_at, value_at-insert, as_map-of_map, text_of, text,
}
use workbuddy2plus_plugin.Upstream.Tools.Merge.{
  merge_reasoning_content, merge_calls, merge_text, merged, join, merge_behind,
  merge_adjacent_tool_calls,
}
use workbuddy2plus_plugin.Upstream.Tools.Merge.Join.{if-some, value_at-insert_other}

-- Two texts on lines of their own, but for one that is empty.
abbrev pub join_lines : String → String → String
join_lines a b = if str_eq b "" then a else if str_eq a "" then b else concat a (concat "\n" b)

longer : (a b : String) → str_eq a "" ≡ false → str_eq (concat a b) "" ≡ false
longer a b h = elim (Bool-cases (str_eq (concat a b) "")) [
  | inl e ↦
      let nothing = (append-eq-nil_iff {p = a} {q = b}).0 ((eq_iff (concat a b) "").0 e) in
      cc (h, (eq_iff a "").1 nothing.0)
  | inr e ↦ e
]

-- Three texts, where the middle one and the last are not empty.
lines_assoc :
    (a b c : String)
    → str_eq b "" ≡ false
    → str_eq c "" ≡ false
    → join_lines (join_lines a b) c ≡ join_lines a (join_lines b c)
lines_assoc a b c m n = elim (Bool-cases (str_eq a "")) [
  | inl e ↦ rw (m, n) (rw e (rw (m, longer b (concat "\n" c) m) refl))
  | inr e ↦
      rw (m, n)
        (rw e (
          rw (longer a (concat "\n" b) e, longer b (concat "\n" c) m)
            (append_assoc a (concat "\n" b) (concat "\n" c)
              ∙ ap (concat a) (append_assoc "\n" b (concat "\n" c)))))
]

join_lines_assoc : (a b c : String) → join_lines (join_lines a b) c ≡ join_lines a (join_lines b c)
join_lines_assoc a b c = elim (Bool-cases (str_eq c "")) [
  | inl n ↦ rw n refl
  | inr n ↦ elim (Bool-cases (str_eq b "")) [
    | inl m ↦ rw (n, m) (rw n refl)
    | inr m ↦ lines_assoc a b c m n
  ]
]

module _ {F : Type 0} where
  abbrev pub reasoning_of : Json F → String
  reasoning_of m = elim (as_map m) [ none ↦ "" | some d ↦ text_at "reasoning_content" d ]

  -- The reasoning in all messages, on lines of its own for each.
  abbrev pub reasoning_in : List (Json F) → String
  reasoning_in [] = ""
  reasoning_in (m ∷ ms) = join_lines (reasoning_of m) (reasoning_in ms)

  text_at-merge_reasoning_content :
      (dst src : Dict (Json F))
      → text_at "reasoning_content" (merge_reasoning_content dst src)
        ≡ join_lines (text_at "reasoning_content" dst) (text_at "reasoning_content" src)
  unfolding merge_reasoning_content text_at as_text
  text_at-merge_reasoning_content dst src =
      elim (Bool-cases (str_eq (text_at "reasoning_content" src) "")) [
        | inl y ↦ rw (y, merge_reasoning_content) refl
        | inr o ↦ elim (Bool-cases (str_eq (text_at "reasoning_content" dst) "")) [
          | inl y ↦
              rw (o, y, merge_reasoning_content)
                (ap text_of (value_at-insert "reasoning_content" "reasoning_content" _ dst))
          | inr p ↦
              rw (o, p, merge_reasoning_content)
                (ap text_of (value_at-insert "reasoning_content" "reasoning_content" _ dst))
        ]
      ]

  -- A change of another key before it.
  merged-reasoning :
      (key : String) (x : Json F) (prev msg both : Dict (Json F))
      → str_eq key "reasoning_content" ≡ false
      → merge_reasoning_content (insert key x prev) msg ≡ both
      → text_at "reasoning_content" both
        ≡ join_lines (text_at "reasoning_content" prev) (text_at "reasoning_content" msg)
  unfolding text_at
  merged-reasoning key x prev msg both n e =
      ap (text_at "reasoning_content") (sym e)
      ∙ text_at-merge_reasoning_content (insert key x prev) msg
      ∙ ap (λ v. join_lines (text_of v) (text_at "reasoning_content" msg))
          (value_at-insert_other key "reasoning_content" x prev n)

  read_at :
      (d : Dict (Json F)) (m : Json F)
      → as_map m ≡ some d
      → reasoning_of m ≡ text_at "reasoning_content" d
  read_at d m e = ap (λ o. elim o [ none ↦ "" | some x ↦ text_at "reasoning_content" x ]) e

  read_reasoning :
      (both : Dict (Json F)) (q : Json F)
      → q ≡ of_map both
      → reasoning_of q ≡ text_at "reasoning_content" both
  read_reasoning both q e = read_at both q (ap as_map e ∙ as_map-of_map both)

  merged-Both :
      (prev msg : Dict (Json F)) (q : Json F)
      → merged prev msg ≡ some q
      → reasoning_of q
        ≡ join_lines (text_at "reasoning_content" prev) (text_at "reasoning_content" msg)
  unfolding merged merge_calls merge_text
  merged-Both prev msg q h = elim (Option-cases (merge_calls prev msg)) [
    | inr (both, c) ↦
        let (w, e) = if-some _ _ both c in
        read_reasoning both q (sym (some-injective _ q (rw (c, merged) at h)))
        ∙ merged-reasoning "tool_calls" _ prev msg both refl e
    | inl n ↦ elim (Option-cases (merge_text prev msg)) [
      | inr (both, c) ↦
          let (w, e) = if-some _ _ both c in
          read_reasoning both q (sym (some-injective _ q (rw (n, c, merged) at h)))
          ∙ merged-reasoning "content" _ prev msg both refl e
      | inl o ↦ absurd (cc (rw (n, o, merged) at h))
    ]
  ]

  -- A message that two make has the reasoning of both.
  join-reasoning :
      (last m q : Json F)
      → join last m ≡ some q
      → reasoning_of q ≡ join_lines (reasoning_of last) (reasoning_of m)
  unfolding join
  join-reasoning last m q h = elim (Option-cases (as_map m)) [
    | inl n ↦ absurd (cc (rw (n, join) at h))
    | inr (msg, a) ↦ elim (Option-cases (as_map last)) [
      | inl o ↦ absurd (cc (rw (a, o, join) at h))
      | inr (prev, b) ↦
          merged-Both prev msg q (rw (a, b, join) at h)
          ∙ sym (λ i. join_lines (read_at prev last b i) (read_at msg m a i))
    ]
  ]

  reasoning-merge_behind :
      (last : Json F) (ms : List (Json F))
      → reasoning_in (merge_behind last ms).0 ≡ join_lines (reasoning_of last) (reasoning_in ms)
  unfolding merge_behind
  reasoning-merge_behind last [] = refl
  reasoning-merge_behind last (m ∷ ms) = elim (Option-cases (join last m)) [
    | inl n ↦
        rw (n, merge_behind) (ap (join_lines (reasoning_of last)) (reasoning-merge_behind m ms))
    | inr (both, q) ↦
        rw (q, merge_behind)
          (reasoning-merge_behind both ms
            ∙ ap (λ r. join_lines r (reasoning_in ms)) (join-reasoning last m both q)
            ∙ join_lines_assoc (reasoning_of last) (reasoning_of m) (reasoning_in ms))
  ]

  pub reasoning-merge :
      (ms : List (Json F)) → reasoning_in (merge_adjacent_tool_calls ms).0 ≡ reasoning_in ms
  unfolding merge_adjacent_tool_calls
  reasoning-merge [] = refl
  reasoning-merge (m ∷ ms) = elim (Bool-cases (merge_behind m ms).1) [
    | inl y ↦ rw (y, merge_adjacent_tool_calls) (reasoning-merge_behind m ms)
    | inr n ↦ rw (n, merge_adjacent_tool_calls) refl
  ]
