-- ===== src/Pool/Pick/Weights.antt =====
-- internal/pool/pick.go: the three-factor weight of a candidate, and the weighted draw.
pub mod Draw
use workbuddy2plus_plugin.Base.{
  ℕ, zero, suc, ◌+◌, ◌/◌, ◌%◌, ℤ, pos, negsuc, ltb_ℤ, sub_ℕ, ◌&&◌, String, List, [], ◌∷◌, ltb, ◌==◌,
  if◌then◌else◌,
}
use workbuddy2plus_plugin.Pool.Types.{Entry, Pool, hour}
use workbuddy2plus_plugin.Pool.Floats.{Floats}

-- A candidate with what is computed of it once for one selection.
pub record Weighted (F : Type 0) : Type 0 where
  pub uid : String
  pub e : Entry F
  pub w : F
  pub tier : ℕ
  pub cost_1k : F

-- A draw's weight is at least 1.
abbrev pub at_least_one : ℤ → ℕ
at_least_one (pos zero) = 1
at_least_one (pos (suc n)) = suc n
at_least_one (negsuc n) = 1

module _ {F : Type 0} (fl : Floats F) where
  open fl use {ratio, of_int, to_int, add, sub, mul, div, lt}

  -- `Duration.Hours()`
  abbrev pub hours : ℤ → F
  hours (pos d) = add (of_int (pos (d / hour))) (div (of_int (pos (d % hour))) (ratio hour 1))
  hours (negsuc n) =
      sub (ratio 0 1)
        (add (of_int (pos ((n + 1) / hour))) (div (of_int (pos ((n + 1) % hour))) (ratio hour 1)))

  unfoldable pub idle_weight : Pool F → Entry F → ℕ → F
  idle_weight p e now =
      if e.last_used == 0
      then p.idle_weight_max
      else (let raw = mul (hours (sub_ℕ now e.last_used)) p.idle_weight_per_hour in
          let capped = if lt p.idle_weight_max raw then p.idle_weight_max else raw in
          if lt capped (ratio 0 1) then ratio 0 1 else capped)

  unfoldable pub weight_of : Pool F → Entry F → ℤ → ℕ → F
  unfolding idle_weight
  weight_of p e max_credits now =
      let by_credits =
        if ltb_ℤ (pos 0) max_credits
        then add (ratio 1 1) (mul (div (of_int e.credits) (of_int max_credits)) (ratio 10 1))
        else ratio 1 1 in
      let by_expiring =
        if ltb_ℤ (pos 0) e.credits && ltb_ℤ (pos 0) e.credits_expiring
        then add by_credits (mul (div (of_int e.credits_expiring) (of_int e.credits)) (ratio 8 1))
        else by_credits in
      add by_expiring (idle_weight p e now)

  -- The fixed-point weight of a candidate in the draw.
  unfoldable pub draw_weight : Weighted F → ℕ
  draw_weight c = at_least_one (to_int (add (mul c.w (ratio 1000000 1)) (ratio 1 2)))

  unfoldable pub draw_total : List (Weighted F) → ℕ
  unfolding draw_weight
  draw_total [] = 0
  draw_total (c ∷ cs) = draw_weight c + draw_total cs

  -- The loop that adds up the weights until they pass `r`; `last` stands for `cands[len-1]`.
  unfoldable pub walk : ℕ → ℕ → Weighted F → List (Weighted F) → Weighted F
  unfolding draw_weight
  walk r acc last [] = last
  walk r acc last (c ∷ cs) =
      if ltb r (acc + draw_weight c) then c else walk r (acc + draw_weight c) c cs

  -- `rnd n` is the number that the random source answers to `Int64N(n)`. The list is `c ∷ cs`.
  unfoldable pub pick_weighted : (ℕ → ℕ) → Weighted F → List (Weighted F) → Weighted F
  unfolding draw_total walk
  pick_weighted rnd c cs = walk (rnd (draw_total (c ∷ cs))) 0 c (c ∷ cs)
