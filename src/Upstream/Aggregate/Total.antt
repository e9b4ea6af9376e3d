-- ===== src/Upstream/Aggregate/Total.antt =====
-- internal/upstream/sse.go: the merging of fragments of calls always ends, and leaves the text alone.
use mathlib.Core.Option
use workbuddy2plus_plugin.Base.{
  ◌+◌, ◌≡◌, refl, ap, ◌∙◌, ℤ, pos, inl, inr, none, some, List, [], ◌∷◌, str_eq, Dict, lookup,
  Bool-cases, Option-cases,
}
use workbuddy2plus_plugin.Pool.Floats.{Floats}
use workbuddy2plus_plugin.Upstream.Json.{Json, as_map, as_num, value_at, text_at}
use workbuddy2plus_plugin.Upstream.Aggregate.Calls.{
  Answer, last_index, new_index, index_for, merge_at, merge_tool_call, merge_tool_calls_chunk,
}
use workbuddy2plus_plugin.Upstream.Aggregate.Merge.{next_tool_index_lem}

module _ {F : Type 0} where
  -- What the merging of calls leaves alone.
  abbrev pub SameText : Answer F → Answer F → Type 0
  SameText a b = (b.valid_events ≡ a.valid_events) × (b.content ≡ a.content)

module _ {F : Type 0} (fl : Floats F) where
  new_index-total : (a : Answer F) → (p : ℤ × Answer F) × (new_index fl a ≡ some p) × SameText a p.1
  unfolding new_index
  new_index-total a =
      let x = next_tool_index_lem a.tool_calls a.tool_seq in
      (
        (pos x.0, record a { tool_seq = x.0 + 1 }),
        ap (Option.map (λ p. (pos p.0, record a { tool_seq = p.1 }))) x.1,
        (refl, refl),
      )

  index_for-total :
      (call : Dict (Json F)) (a : Answer F)
      → (p : ℤ × Answer F) × (index_for fl call a ≡ some p) × SameText a p.1
  unfolding index_for
  index_for-total call a = elim (Option-cases (as_num (value_at "index" call))) [
    | inr (v, e) ↦ ((fl.to_int v, a), rw (e, index_for) refl, (refl, refl))
    | inl e ↦ elim (Bool-cases (str_eq (text_at "id" call) "")) [
      | inr named ↦ elim (Option-cases (lookup (text_at "id" call) a.id_index)) [
        | inr (known, k) ↦ ((known, a), rw (e, index_for) (rw (named, k) refl), (refl, refl))
        | inl k ↦ let x = new_index-total a in (x.0, rw (e, index_for) (rw (named, k) x.1), x.2)
      ]
      | inl bare ↦ elim (Option-cases (last_index a.tool_order)) [
        | inr (last, k) ↦ ((last, a), rw (e, index_for) (rw (bare, k) refl), (refl, refl))
        | inl k ↦ let x = new_index-total a in (x.0, rw (e, index_for) (rw (bare, k) x.1), x.2)
      ]
    ]
  ]

  merge_at-same :
      (call : Dict (Json F)) (idx : ℤ) (a : Answer F) → SameText a (merge_at fl call idx a)
  unfolding merge_at
  merge_at-same call idx a = (refl, refl)

  merge_tool_call-total :
      (tc : Json F) (a : Answer F)
      → (b : Answer F) × (merge_tool_call fl tc a ≡ some b) × SameText a b
  unfolding merge_tool_call
  merge_tool_call-total tc a = elim (Option-cases (as_map tc)) [
    | inl e ↦ (a, rw (e, merge_tool_call) refl, (refl, refl))
    | inr (call, e) ↦
        let x = index_for-total call a in
        let same = merge_at-same call x.0.0 x.0.1 in
        (
          merge_at fl call x.0.0 x.0.1,
          rw (e, merge_tool_call) (ap (Option.map (λ p. merge_at fl call p.0 p.1)) x.1),
          (same.0 ∙ x.2.0, same.1 ∙ x.2.1),
        )
  ]

  pub calls-total :
      (tcs : List (Json F)) (a : Answer F)
      → (b : Answer F) × (merge_tool_calls_chunk fl tcs a ≡ some b) × SameText a b
  unfolding merge_tool_calls_chunk
  calls-total [] a = (a, refl, (refl, refl))
  calls-total (tc ∷ tcs) a =
      let x = merge_tool_call-total tc a in
      let y = calls-total tcs x.0 in
      (
        y.0,
        ap (λ o. elim o [ none ↦ none | some b ↦ merge_tool_calls_chunk fl tcs b ]) x.1 ∙ y.1,
        (y.2.0 ∙ x.2.0, y.2.1 ∙ x.2.1),
      )
