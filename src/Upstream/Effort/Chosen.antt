-- ===== src/Upstream/Effort/Chosen.antt =====
-- internal/upstream/payload.go: which level `normalizeReasoningEffort` writes.
use mathlib.Core.List.{Memᴰ}
use mathlib.Core.Option.{some-injective}
use mathlib.Core.Path.{subst}
use workbuddy2plus_plugin.Base.{
  ℕ, ◌≤◌, ◌<◌, String, ◌≡◌, refl, sym, ap, ◌∙◌, ◌⊎◌, inl, inr, Bool, true, false, ◌&&◌, Option,
  none, some, List, [], ◌∷◌, arith, leb, le→leb, leb→le, All-map_pred, All-and, Bool-cases,
  Option-cases, All,
}
use workbuddy2plus_plugin.Upstream.Texts.{fold_is}
use workbuddy2plus_plugin.Upstream.Effort.{
  rank, effort_rank, word_in, Level, above, below, level_step, level_from, up_to, any_rank, best_of,
  lowest_of, level_for,
}

and_left : (a b : Bool) → (a && b) ≡ true → a ≡ true
and_left a b h = ground (arith, h)

and_right : (a b : Bool) → (a && b) ≡ true → b ≡ true
and_right a b h = ground (arith, h)

-- A level of the list, with its rank.
abbrev IsLevel : List String → Level → Type 0
IsLevel levels l = Memᴰ l.0 levels × (rank l.0 ≡ some l.1)

-- The level that a loop has met is one of the list, and a later one is not better.
module _ (may : ℕ → Bool) (better : ℕ → Option Level → Bool)
    (first : (j : ℕ) → better j none ≡ true)
    (irreflexive : (j : ℕ) (s : String) → better j (some (s, j)) ≡ false)
    (widen : (i j : ℕ) (s : String) (l : Level)
      → better i (some l) ≡ true
      → better j (some l) ≡ false
      → better j (some (s, i)) ≡ false) where
  level_step_mono :
      (j : ℕ) (found : Option Level) (s : String) (r : Option ℕ)
      → better j found ≡ false
      → better j (level_step may better found s r) ≡ false
  unfolding level_step
  level_step_mono j found s none h = h
  level_step_mono j none s (some i) h = absurd (cc (h, first j))
  level_step_mono j (some l) s (some i) h = elim (Bool-cases (may i && better i (some l))) [
    | inl y ↦ rw (y, level_step) (widen i j s l (and_right (may i) _ y) h)
    | inr n ↦ rw (n, level_step) h
  ]

  level_step-covers :
      (j : ℕ) (found : Option Level) (s : String)
      → may j ≡ true
      → better j (level_step may better found s (some j)) ≡ false
  unfolding level_step
  level_step-covers j found s m = elim (Bool-cases (better j found)) [
    | inl y ↦ rw (m, y, level_step) (irreflexive j s)
    | inr n ↦ rw (m, n, level_step) n
  ]

  level_step-made :
      (found : Option Level) (s : String) (r : Option ℕ) (l : Level)
      → level_step may better found s r ≡ some l
      → (found ≡ some l) ⊎ ((s ≡ l.0) × (r ≡ some l.1) × (may l.1 ≡ true))
  unfolding level_step
  level_step-made found s none l h = inl h
  level_step-made found s (some i) l h = elim (Bool-cases (may i && better i found)) [
    | inl y ↦
        let e = some-injective (s, i) l (rw (y, level_step) at h) in
        inr (
          ap (λ x. x.0) e,
          ap (λ x. some x.1) e,
          subst (λ x. may x.1 ≡ true) e (and_left (may i) _ y),
        )
    | inr n ↦ inl (rw (n, level_step) at h)
  ]

  level_from_mono :
      (j : ℕ) (found : Option Level) (levels : List String)
      → better j found ≡ false
      → better j (level_from may better found levels) ≡ false
  unfolding level_from
  level_from_mono j found [] h = h
  level_from_mono j found (s ∷ rest) h =
      level_from_mono j (level_step may better found s (rank s)) rest
        (level_step_mono j found s (rank s) h)

  level_from-covers :
      (found : Option Level) (levels : List String)
      → All
          (λ s.
            (j : ℕ)
            → rank s ≡ some j
            → may j ≡ true
            → better j (level_from may better found levels) ≡ false)
          levels
  unfolding level_from
  level_from-covers found [] = tt
  level_from-covers found (s ∷ rest) = (
    λ j q m. level_from_mono j (level_step may better found s (rank s)) rest (
        subst (λ r. better j (level_step may better found s r) ≡ false) (sym q)
          (level_step-covers j found s m)),
    level_from-covers (level_step may better found s (rank s)) rest,
  )

  level_from-made :
      (found : Option Level) (levels : List String) (l : Level)
      → level_from may better found levels ≡ some l
      → (found ≡ some l) ⊎ (IsLevel levels l × (may l.1 ≡ true))
  unfolding level_from
  level_from-made found [] l h = inl h
  level_from-made found (s ∷ rest) l h =
      elim (level_from-made (level_step may better found s (rank s)) rest l h) [
        | inr (q, m) ↦ inr ((Memᴰ.tail q.0, q.1), m)
        | inl e ↦ elim (level_step-made found s (rank s) l e) [
          | inl o ↦ inl o
          | inr (a, b, m) ↦ inr ((Memᴰ.head (sym a), ap rank (sym a) ∙ b), m)
        ]
      ]

not_above : (j : ℕ) (l : Level) → above j (some l) ≡ false → j ≤ l.1
not_above j l h = ground (arith, h)

not_below : (j : ℕ) (l : Level) → below j (some l) ≡ false → l.1 ≤ j
not_below j l h = ground (arith, h)

over : (j req : ℕ) → (leb j req ≡ true → true ≡ false) → req < j
over j req h = elim (Bool-cases (leb j req)) [
  | inl y ↦ absurd (cc (h y))
  | inr n ↦ ground (arith, n)
]

-- A supported level that is the highest up to the rank asked for, or the lowest where all are above.
abbrev pub IsChosen : ℕ → List String → String → Type 0
IsChosen req levels s =
    (i : ℕ) × Memᴰ s levels
    × (rank s ≡ some i)
    × ((i ≤ req) × All (λ t. (j : ℕ) → rank t ≡ some j → j ≤ req → j ≤ i) levels
        ⊎ All (λ t. (j : ℕ) → rank t ≡ some j → (req < j) × (i ≤ j)) levels)

best_of-covers :
    (req : ℕ) (levels : List String)
    → All
        (λ t. (j : ℕ) → rank t ≡ some j → leb j req ≡ true → above j (best_of req levels) ≡ false)
        levels
unfolding best_of
best_of-covers req levels =
    level_from-covers (up_to req) above (λ j. refl) (λ j s. ground arith)
      (λ i j s l p q. ground (arith, p, q)) none levels

pub best_of-made :
    (req : ℕ) (levels : List String) (l : Level)
    → best_of req levels ≡ some l
    → IsLevel levels l × (leb l.1 req ≡ true)
unfolding best_of
best_of-made req levels l h =
    elim (level_from-made (up_to req) above (λ j. refl) (λ j s. ground arith)
      (λ i j s l p q. ground (arith, p, q)) none levels l h) [ inl e ↦ absurd (cc (e)) | inr q ↦ q ]

pub lowest_of-covers :
    (levels : List String)
    → All (λ t. (j : ℕ) → rank t ≡ some j → true ≡ true → below j (lowest_of levels) ≡ false) levels
unfolding lowest_of
lowest_of-covers levels =
    level_from-covers any_rank below (λ j. refl) (λ j s. ground arith)
      (λ i j s l p q. ground (arith, p, q)) none levels

lowest_of-made : (levels : List String) (l : Level) → lowest_of levels ≡ some l → IsLevel levels l
unfolding lowest_of
lowest_of-made levels l h =
    elim (level_from-made any_rank below (λ j. refl) (λ j s. ground arith)
      (λ i j s l p q. ground (arith, p, q)) none levels l h) [
        | inl e ↦ absurd (cc (e))
        | inr q ↦ q.0
      ]

best-IsChosen :
    (req : ℕ) (levels : List String) (l : Level)
    → best_of req levels ≡ some l
    → IsChosen req levels l.0
best-IsChosen req levels l h =
    let (a, b) = best_of-made req levels l h in
    (
      l.1,
      a.0,
      a.1,
      inl (
        leb→le l.1 req b,
        All-map_pred levels
            (λ t c j q le.
              not_above j l (subst (λ o. above j o ≡ false) h (c j q (le→leb j req le))))
            (best_of-covers req levels),
      ),
    )

lowest-IsChosen :
    (req : ℕ) (levels : List String) (l : Level)
    → best_of req levels ≡ none
    → lowest_of levels ≡ some l
    → IsChosen req levels l.0
lowest-IsChosen req levels l n h =
    let a = lowest_of-made levels l h in
    (
      l.1,
      a.0,
      a.1,
      inr (
          All-map_pred levels
            (λ t c j q. (
              over j req (λ y. subst (λ o. above j o ≡ false) n (c.0 j q y)),
              not_below j l (subst (λ o. below j o ≡ false) h (c.1 j q refl)),
            ))
            (All-and _ _ levels (best_of-covers req levels) (lowest_of-covers levels))),
    )

pub level_for-IsChosen :
    (req : ℕ) (levels : List String) (s : String)
    → level_for req levels ≡ some s
    → IsChosen req levels s
unfolding level_for
level_for-IsChosen req levels s h = elim (Option-cases (best_of req levels)) [
  | inr (l, q) ↦ elim (Bool-cases (fold_is l.0 (word_in effort_rank req))) [
    | inl y ↦ absurd (cc (rw (q, y, level_for) at h))
    | inr n ↦
        subst (IsChosen req levels) (some-injective l.0 s (rw (q, n, level_for) at h))
          (best-IsChosen req levels l q)
  ]
  | inl n ↦ elim (Option-cases (lowest_of levels)) [
    | inl e ↦ absurd (cc (rw (n, e, level_for) at h))
    | inr (l, q) ↦
        subst (IsChosen req levels) (some-injective l.0 s (rw (n, q, level_for) at h))
          (lowest-IsChosen req levels l n q)
  ]
]
