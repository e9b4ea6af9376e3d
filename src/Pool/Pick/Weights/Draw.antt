-- ===== src/Pool/Pick/Weights/Draw.antt =====
-- pick.go: the weighted draw gives every candidate as many of the draws as its weight.
use workbuddy2plus_plugin.Base.{ℕ, ◌+◌, ◌≤◌, ◌<◌, ◌≡◌, refl, ap, ◌∙◌, List, [], ◌∷◌, ◌++◌, arith}
use workbuddy2plus_plugin.Pool.Floats.{Floats}
use workbuddy2plus_plugin.Pool.Pick.Weights.{Weighted, draw_weight, draw_total, walk, pick_weighted}

module _ {F : Type 0} (fl : Floats F) where
  pub draw_weight-pos : (c : Weighted F) → 1 ≤ draw_weight fl c
  unfolding draw_weight
  draw_weight-pos c = ground arith

  walk_hit :
      (xs : List (Weighted F)) (c : Weighted F) (ys : List (Weighted F)) (last : Weighted F)
      (acc k : ℕ)
      → k < draw_weight fl c
      → walk fl (acc + draw_total fl xs + k) acc last (xs ++ c ∷ ys) ≡ c
  unfolding walk draw_total
  walk_hit [] c ys last acc k h = ground arith
  walk_hit (x ∷ xs) c ys last acc k h =
      ground (arith, walk_hit xs c ys x (acc + draw_weight fl x) k, draw_weight-pos x)

  draw_total-append :
      (xs ys : List (Weighted F)) → draw_total fl (xs ++ ys) ≡ draw_total fl xs + draw_total fl ys
  unfolding draw_total
  draw_total-append [] ys = omega arith
  draw_total-append (x ∷ xs) ys = omega (arith, draw_total-append xs ys)

module _ {F : Type 0} (fl : Floats F) where
  from_start :
      (xs : List (Weighted F)) (c : Weighted F) (ys : List (Weighted F)) (last : Weighted F) (k : ℕ)
      → k < draw_weight fl c
      → walk fl (draw_total fl xs + k) 0 last (xs ++ c ∷ ys) ≡ c
  from_start xs c ys last k h =
      ap (λ r. walk fl r 0 last (xs ++ c ∷ ys)) (omega arith) ∙ walk_hit fl xs c ys last 0 k h

  total_cons :
      (c : Weighted F) (ys : List (Weighted F))
      → draw_total fl (c ∷ ys) ≡ draw_weight fl c + draw_total fl ys
  unfolding draw_total
  total_cons c ys = refl

-- The list of candidates as the draw takes it: its head and the rest.
abbrev pub head_of : {F : Type 0} → List (Weighted F) → Weighted F → Weighted F
head_of [] c = c
head_of (x ∷ xs) c = x

abbrev pub rest_of :
    {F : Type 0} → List (Weighted F) → Weighted F → List (Weighted F) → List (Weighted F)
rest_of [] c ys = ys
rest_of (x ∷ xs) c ys = xs ++ c ∷ ys

as_walk :
    {F : Type 0} (fl : Floats F) (rnd : ℕ → ℕ) (c : Weighted F) (cs : List (Weighted F))
    → pick_weighted fl rnd c cs ≡ walk fl (rnd (draw_total fl (c ∷ cs))) 0 c (c ∷ cs)
unfolding pick_weighted
as_walk fl rnd c cs = refl

drawn :
    {F : Type 0} (fl : Floats F) (xs : List (Weighted F)) (c : Weighted F) (ys : List (Weighted F))
    (k : ℕ)
    → k < draw_weight fl c
    → pick_weighted fl (λ total. draw_total fl xs + k) (head_of xs c) (rest_of xs c ys) ≡ c
drawn fl [] c ys k h = as_walk fl _ c ys ∙ from_start fl [] c ys c k h
drawn fl (x ∷ zs) c ys k h = as_walk fl _ x (zs ++ c ∷ ys) ∙ from_start fl (x ∷ zs) c ys x k h

-- Of the numbers below the sum of the weights, a candidate is drawn by those that are at least the
-- sum of the weights before it and less than that plus its own weight: as many as its weight, and
-- at least one. So every candidate can be drawn, in proportion to its weight.
pub pick_weighted_lem :
    {F : Type 0} (fl : Floats F) (xs : List (Weighted F)) (c : Weighted F) (ys : List (Weighted F))
    (k : ℕ)
    → k < draw_weight fl c
    → (pick_weighted fl (λ total. draw_total fl xs + k) (head_of xs c) (rest_of xs c ys) ≡ c)
      × (1 ≤ draw_weight fl c)
      × (draw_total fl xs + k < draw_total fl (xs ++ c ∷ ys))
pick_weighted_lem fl xs c ys k h = (
  drawn fl xs c ys k h,
  draw_weight-pos fl c,
  omega (arith, draw_total-append fl xs (c ∷ ys), total_cons fl c ys),
)
