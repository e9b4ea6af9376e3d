-- ===== src/Upstream/Tools/Repack/Again.antt =====
-- internal/upstream/tool_pairing.go: `repackToolResultBlocks` on its own outcome.
use mathlib.Core.Path.{subst}
use mathlib.Core.List.{append-nil}
use workbuddy2plus_plugin.Base.{
  ℕ, zero, suc, String, ◌≡◌, refl, ap, ◌∙◌, Bool, true, false, ◌||◌, List, [], ◌∷◌, ◌++◌, arith,
  length, Bool-cases, inl, inr, ◌≤◌, All, ltb,
}
use workbuddy2plus_plugin.Upstream.Json.{Json}
use workbuddy2plus_plugin.Upstream.Tools.{calls_of}
use workbuddy2plus_plugin.Upstream.Tools.Repack.{
  Group, turn, takes, passes, stops, collect, head_group, repack_all, repack_tool_result_blocks,
  wanted, follow, stop, add_result, add_between,
}
use workbuddy2plus_plugin.Upstream.Tools.Repack.Order.{Turn-cases}

module _ {F : Type 0} where
  -- The inner loop stops at the head of a list.
  abbrev StopsAt : List String → Bool → List (Json F) → Type 0
  StopsAt want any [] = Unit
  StopsAt want any (m ∷ ms) = turn want any m ≡ stops

  abbrev has_any : Bool → List (Json F) → Bool
  has_any any [] = any
  has_any any (m ∷ ms) = true

  has_any-true : (any : Bool) (l : List (Json F)) → any ≡ true → has_any any l ≡ true
  has_any-true any [] h = h
  has_any-true any (m ∷ ms) h = refl

  -- A result is taken whether there was one before or not.
  takes_always :
      (want : List String) (any other : Bool) (m : Json F)
      → turn want any m ≡ takes
      → turn want other m ≡ takes
  unfolding turn
  takes_always want any other m q = ground (arith, q)

  passes_after :
      (want : List String) (any : Bool) (m : Json F)
      → turn want any m ≡ passes
      → (any ≡ true) × (turn want true m ≡ passes)
  unfolding turn
  passes_after want any m q = (ground (arith, q), ground (arith, q))

  -- What a group is made of.
  abbrev IsGroup : List String → Bool → Group F → Type 0
  IsGroup want any g =
      All (λ m. turn want true m ≡ takes) g.results
      × All (λ m. turn want true m ≡ passes) g.between
      × StopsAt want (has_any any g.results) g.rest
      × (has_any any g.results ≡ false → g.between ≡ [])

  collect-IsGroup :
      (want : List String) (any saw : Bool) (ms : List (Json F))
      → IsGroup want any (collect want any saw ms)
  unfolding collect
  collect-IsGroup want any saw [] = (tt, tt, tt, λ h. refl)
  collect-IsGroup want any saw (m ∷ ms) = elim (Turn-cases (turn want any m)) [
    | inl q ↦
        let (a, b, c, d) = collect-IsGroup want true saw ms in
        rw (q, collect)
          (
            (takes_always want any true m q, a),
            b,
            subst (λ h. StopsAt want h (collect want true saw ms).rest)
                (has_any-true true (collect want true saw ms).results refl) c,
            λ h. absurd (cc (h)),
          )
    | inr (inl q) ↦
        let (a, b, c, d) = collect-IsGroup want any true ms in
        let p = passes_after want any m q in
        rw (q, collect)
          (
            a,
            (p.1, b),
            c,
            λ h. absurd (cc (h, has_any-true any (collect want any true ms).results p.0)),
          )
    | inr (inr q) ↦ rw (q, collect) (tt, tt, q, λ h. refl)
  ]

  -- The loop over results, over messages between, and at its end.
  abbrev append_results : List (Json F) → Group F → Group F
  append_results rs g = record g { results = rs ++ g.results }

  collect-results :
      (want : List String) (any : Bool) (rs xs : List (Json F))
      → All (λ m. turn want true m ≡ takes) rs
      → collect want any false (rs ++ xs)
        ≡ append_results rs (collect want (has_any any rs) false xs)
  unfolding collect
  collect-results want any [] xs h = refl
  collect-results want any (m ∷ rs) xs h =
      rw (takes_always want true any m h.0, collect)
        (ap (add_result m false) (collect-results want true rs xs h.1) ∙ (λ i.
          add_result m false
            (append_results rs (collect want (has_any-true true rs refl i) false xs))))

  collect-stops :
      (want : List String) (any saw : Bool) (ms : List (Json F))
      → StopsAt want any ms
      → collect want any saw ms ≡ stop ms
  unfolding collect
  collect-stops want any saw [] h = refl
  collect-stops want any saw (m ∷ ms) h = rw (h, collect) refl

  collect-between :
      (want : List String) (saw : Bool) (bs ms : List (Json F))
      → All (λ m. turn want true m ≡ passes) bs
      → StopsAt want true ms
      → collect want true saw (bs ++ ms)
        ≡ record { results = []; between = bs; rest = ms; changed = false }
  unfolding collect
  collect-between want saw [] ms h s = collect-stops want true saw ms s
  collect-between want saw (b ∷ bs) ms h s =
      rw (h.0, collect) (ap (add_between b) (collect-between want true bs ms h.1 s))

  collect-tail :
      (want : List String) (any : Bool) (bs ms : List (Json F))
      → All (λ m. turn want true m ≡ passes) bs
      → StopsAt want any ms
      → (any ≡ false → bs ≡ [])
      → collect want any false (bs ++ ms)
        ≡ record { results = []; between = bs; rest = ms; changed = false }
  collect-tail want true bs ms h s e = collect-between want false bs ms h s
  collect-tail want false bs ms h s e = rw (e refl) (collect-stops want false false ms s)

  -- The inner loop on its own outcome, with whatever it stops at behind.
  collect-again :
      (want : List String) (g : Group F) (xs : List (Json F))
      → IsGroup want false g
      → StopsAt want (has_any false g.results) xs
      → collect want false false (g.results ++ (g.between ++ xs))
        ≡ record { results = g.results; between = g.between; rest = xs; changed = false }
  collect-again want g xs h s =
      collect-results want false g.results (g.between ++ xs) h.0
      ∙ ap (append_results g.results)
          (collect-tail want (has_any false g.results) g.between xs h.1 s h.3)
      ∙ ap (λ l. record { results = l; between = g.between; rest = xs; changed = false })
          (append-nil g.results)

  -- The outer loop leaves the head of the list where it is.
  repack_all-head :
      (want : List String) (any : Bool) (n : ℕ) (ms : List (Json F))
      → StopsAt want any ms
      → StopsAt want any (repack_all n ms).0
  unfolding repack_all
  repack_all-head want any zero ms h = tt
  repack_all-head want any (suc n) [] h = tt
  repack_all-head want any (suc n) (m ∷ ms) h = h

  follow-again :
      (want : List String) (calls ms xs : List (Json F))
      → let g = follow want calls ms in
        ((any : Bool) → StopsAt want any g.rest → StopsAt want any xs)
        → follow want calls (g.results ++ (g.between ++ xs))
          ≡ record { results = g.results; between = g.between; rest = xs; changed = false }
  unfolding follow
  follow-again want [] ms xs h = refl
  follow-again want (call ∷ calls) ms xs h =
      let g = collect want false false ms in
      let p = collect-IsGroup want false false ms in
      collect-again want g xs p (h (has_any false g.results) p.2)

  length-append_le : (xs ys : List (Json F)) → length ys ≤ length (xs ++ ys)
  length-append_le [] ys = omega arith
  length-append_le (x ∷ xs) ys = let r = length-append_le xs ys in omega (arith, r)

  head_group-again :
      (m : Json F) (ms xs : List (Json F))
      → let g = head_group m ms in
        ((want : List String) (any : Bool) → StopsAt want any g.rest → StopsAt want any xs)
        → head_group m (g.results ++ (g.between ++ xs))
          ≡ record { results = g.results; between = g.between; rest = xs; changed = false }
  unfolding head_group
  head_group-again m ms xs h = follow-again (wanted m) (calls_of m) ms xs (h (wanted m))

  abbrev step : ℕ → Json F → Group F → List (Json F) × Bool
  step n m g =
      let later = repack_all n g.rest in
      (m ∷ (g.results ++ (g.between ++ later.0)), g.changed || later.1)

  repack_all-again :
      (k n : ℕ) (ms : List (Json F))
      → length (repack_all k ms).0 ≤ n
      → repack_all n (repack_all k ms).0 ≡ ((repack_all k ms).0, false)
  unfolding repack_all
  repack_all-again zero zero ms h = refl
  repack_all-again zero (suc n) ms h = refl
  repack_all-again (suc k) zero [] h = refl
  repack_all-again (suc k) (suc n) [] h = refl
  repack_all-again (suc k) zero (m ∷ ms) h = absurd (omega (arith, h))
  repack_all-again (suc k) (suc n) (m ∷ ms) h =
      let g = head_group m ms in
      let out = repack_all k g.rest in
      let l = length-append_le g.between out.0 in
      let r = length-append_le g.results (g.between ++ out.0) in
      let again = repack_all-again k n g.rest (omega (arith, h, l, r)) in
      ap (step n m) (head_group-again m ms out.0 (λ want any. repack_all-head want any k g.rest))
      ∙ ap (λ later. (m ∷ (g.results ++ (g.between ++ later.0)), later.1)) again

  settled :
      (ms : List (Json F))
      → repack_all (length ms) ms ≡ (ms, false)
      → repack_tool_result_blocks ms ≡ (ms, false)
  unfolding repack_tool_result_blocks
  settled ms q = rw q (ground arith)

  -- The repacking reaches its end in one run: running it on its own outcome moves nothing and
  -- reports no change.
  pub repack_tool_result_blocks-again :
      (ms : List (Json F))
      → repack_tool_result_blocks (repack_tool_result_blocks ms).0
        ≡ ((repack_tool_result_blocks ms).0, false)
  unfolding repack_tool_result_blocks
  repack_tool_result_blocks-again ms = elim (Bool-cases (ltb (length ms) 3)) [
    | inl y ↦ rw (y, y) refl
    | inr n ↦ elim (Bool-cases (repack_all (length ms) ms).1) [
      | inl c ↦
          rw (n, c)
            (settled (repack_all (length ms) ms).0
              (repack_all-again (length ms) _ ms (omega arith)))
      | inr o ↦ rw (n, o, n, o) refl
    ]
  ]
