-- ===== src/Upstream/Effort/Written.antt =====
-- internal/upstream/payload.go: what `normalizeReasoningEffort` makes of a request.
use mathlib.Core.List.{Memᴰ}
use mathlib.Core.Path.{subst}
use workbuddy2plus_plugin.Base.{
  ℕ, String, ◌≡◌, refl, ◌⊎◌, inl, inr, true, false, none, some, List, Bool-cases, Option-cases, All,
  All-map_pred, Dict, insert,
}
use workbuddy2plus_plugin.Upstream.Json.{Json, text}
use workbuddy2plus_plugin.Upstream.Texts.{fold_is}
use workbuddy2plus_plugin.Upstream.Effort.{
  rank, effort_rank, word_in, below, best_of, lowest_of, level_for, requested, supported_of,
  normalize_reasoning_effort,
}
use workbuddy2plus_plugin.Upstream.Effort.Chosen.{
  IsChosen, best_of-made, lowest_of-covers, level_for-IsChosen,
}

-- The model has the level asked for, up to the case of its letters, or none that is known.
abbrev pub IsLeft : ℕ → List String → Type 0
IsLeft req levels =
    ((s : String) × Memᴰ s levels × (fold_is s (word_in effort_rank req) ≡ true))
    ⊎ All (λ t. rank t ≡ none) levels

no_rank : (t : String) → ((j : ℕ) → rank t ≡ some j → true ≡ false) → rank t ≡ none
no_rank t h = elim (Option-cases (rank t)) [ inl q ↦ q | inr (j, q) ↦ absurd (cc (h j q)) ]

level_for-IsLeft :
    (req : ℕ) (levels : List String) → level_for req levels ≡ none → IsLeft req levels
unfolding level_for
level_for-IsLeft req levels h = elim (Option-cases (best_of req levels)) [
  | inr (l, q) ↦ elim (Bool-cases (fold_is l.0 (word_in effort_rank req))) [
    | inl y ↦ inl (l.0, (best_of-made req levels l q).0.0, y)
    | inr n ↦ absurd (cc (rw (q, n, level_for) at h))
  ]
  | inl n ↦ elim (Option-cases (lowest_of levels)) [
    | inr (l, q) ↦ absurd (cc (rw (n, q, level_for) at h))
    | inl e ↦ inr (
        All-map_pred levels
          (λ t c. no_rank t (λ j q. subst (λ o. below j o ≡ false) e (c j q refl)))
          (lowest_of-covers levels))
  ]
]

module _ {F : Type 0} where
  -- A request without a known effort stays as it is. Otherwise it stays so only if its model has the
  -- level asked for, or no known level at all; else the effort, and nothing but it, becomes the
  -- highest level of the model up to the one asked for, or, where all are above, the lowest.
  pub normalize_reasoning_effort_lem :
      (efforts : Dict (List String)) (d : Dict (Json F))
      → ((requested d ≡ none) × (normalize_reasoning_effort efforts d ≡ d))
        ⊎ ((key : String) × (req : ℕ) × (requested d ≡ some (key, req))
            × ((IsLeft req (supported_of efforts d) × (normalize_reasoning_effort efforts d ≡ d))
                ⊎ ((level : String) × IsChosen req (supported_of efforts d) level
                    × (normalize_reasoning_effort efforts d ≡ insert key (text level) d))))
  unfolding normalize_reasoning_effort
  normalize_reasoning_effort_lem efforts d = elim (Option-cases (requested d)) [
    | inl q ↦ inl (q, rw (q, normalize_reasoning_effort) refl)
    | inr (r, q) ↦ inr (
      r.0,
      r.1,
      q,
      elim (Option-cases (level_for r.1 (supported_of efforts d))) [
        | inl n ↦ inl (
          level_for-IsLeft r.1 (supported_of efforts d) n,
          rw (q, n, normalize_reasoning_effort) refl,
        )
        | inr (s, e) ↦ inr (
          s,
          level_for-IsChosen r.1 (supported_of efforts d) s e,
          rw (q, e, normalize_reasoning_effort) refl,
        )
      ],
    )
  ]
