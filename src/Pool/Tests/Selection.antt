-- ===== src/Pool/Tests/Selection.antt =====
-- The selection and the leases at concrete pools.
use mathlib.Core.List.{Memᴰ}
use workbuddy2plus_plugin.Base.{
  inr, ℕ, ◌+◌, ◌≤◌, ◌<◌, String, ◌≡◌, refl, ◌⊎◌, false, none, some, List, [], ◌∷◌, arith, Dict,
  lookup,
}
use workbuddy2plus_plugin.Pool.Types.{Entry}
use workbuddy2plus_plugin.Pool.Health.{
  in_flight_full, healthy_for_model, healthy, model_cooled, expiry,
}
use workbuddy2plus_plugin.Pool.Lease.Race.{
  Caller, idle, loaded, leased, Run, start, next, here, there, unlimited, load, swap, IsSafe,
  Run-IsSafe,
}
use workbuddy2plus_plugin.Pool.Pick.{pick, pick_from, pick_among, prune_all, candidates, best_tier}
use workbuddy2plus_plugin.Pool.Pick.Fallback.{pick_earliest_expiry, mark_used}
use workbuddy2plus_plugin.Pool.Pick.Fallback.Earliest.{
  IsEarliest, AllRefused, pick_earliest_expiry_lem,
}
use workbuddy2plus_plugin.Pool.Pick.Weights.{Weighted, draw_weight, draw_total, pick_weighted}
use workbuddy2plus_plugin.Pool.Pick.Weights.Draw.{pick_weighted_lem}
use workbuddy2plus_plugin.Pool.Pick.Select.{served, IsBestTier, IsDue, served-best}
use workbuddy2plus_plugin.Pool.Pick.Outcome.{Selects, pick_lem}
use workbuddy2plus_plugin.Pool.Pick.Safety.{InPlay, pick-InPlay}
use workbuddy2plus_plugin.Pool.Tests.{
  whole, unshuffled, unshuffled-Perm, low, ann, bob, noon, fresh, stopped, cooled, open_pool,
  cooled_pool, empty,
}

pick_open : (pick whole unshuffled low noon [] "gpt" "cn" open_pool).1 ≡ some ann
unfolding pick pick_from candidates prune_all fresh healthy_for_model healthy model_cooled lookup
    in_flight_full empty pick_among best_tier
pick_open = refl

pick_cooled : (pick whole unshuffled low noon [] "gpt" "cn" cooled_pool).1 ≡ some bob
unfolding pick pick_from candidates prune_all healthy_for_model healthy stopped pick_earliest_expiry
    in_flight_full empty expiry
pick_cooled = refl

pick-InPlay_example :
    (uid : String) × (e : Entry ℕ) × Memᴰ (uid, e) (prune_all noon open_pool).by_uid
    × InPlay (prune_all noon open_pool) [] "cn" uid e
    × (ann ≡ e.a)
pick-InPlay_example =
    pick-InPlay whole unshuffled low noon [] "gpt" "cn" open_pool ann unshuffled-Perm pick_open

pick_lem_example :
    ((candidates [] noon "gpt" "cn" (prune_all noon cooled_pool) ≡ [])
      × (pick whole unshuffled low noon [] "gpt" "cn" cooled_pool
          ≡ pick_earliest_expiry [] noon "cn" (prune_all noon cooled_pool)))
    ⊎ Selects whole [] noon "gpt" "cn"
        (prune_all noon cooled_pool)
        (pick whole unshuffled low noon [] "gpt" "cn" cooled_pool)
pick_lem_example = pick_lem whole unshuffled low noon [] "gpt" "cn" unshuffled-Perm cooled_pool

pick_earliest_expiry_lem_example :
    ((pick_earliest_expiry [] noon "cn" cooled_pool ≡ (cooled_pool, none))
      × AllRefused cooled_pool [] noon "cn" cooled_pool.by_uid)
    ⊎ ((uid : String) × (e : Entry ℕ) × IsEarliest cooled_pool [] noon "cn" uid e cooled_pool.by_uid
        × (pick_earliest_expiry [] noon "cn" cooled_pool
            ≡ (mark_used noon uid e cooled_pool, some e.a)))
pick_earliest_expiry_lem_example = pick_earliest_expiry_lem cooled_pool [] noon "cn"

abbrev two : Dict (Entry ℕ)
two = ("ann", fresh) ∷ ("bob", cooled) ∷ []

served-best_example :
    (IsBestTier whole noon "gpt" "cn" open_pool two (served whole noon "gpt" "cn" open_pool two)
      × ¬ IsDue whole noon "gpt" "cn" open_pool two)
    ⊎ ((served whole noon "gpt" "cn" open_pool two ≡ 1) × IsDue whole noon "gpt" "cn" open_pool two)
served-best_example =
    served-best whole noon "gpt" "cn" open_pool ("ann", fresh) (("bob", cooled) ∷ [])

abbrev weighted_of : Entry ℕ → ℕ → Weighted ℕ
weighted_of e w = record { uid = e.a.uid; e = e; w = w; tier = 1; cost_1k = 0 }

small : 3 < draw_weight whole (weighted_of cooled 2)
unfolding draw_weight
small = omega arith

pick_weighted_lem_example :
    (pick_weighted whole
        (λ total. draw_total whole (weighted_of fresh 1 ∷ []) + 3)
        (weighted_of fresh 1)
        (weighted_of cooled 2 ∷ [])
      ≡ weighted_of cooled 2)
    × (1 ≤ draw_weight whole (weighted_of cooled 2))
    × (draw_total whole (weighted_of fresh 1 ∷ []) + 3
        < draw_total whole (weighted_of fresh 1 ∷ weighted_of cooled 2 ∷ []))
pick_weighted_lem_example =
    pick_weighted_lem whole (weighted_of fresh 1 ∷ []) (weighted_of cooled 2) [] 3 small

fresh_free : in_flight_full open_pool fresh ≡ false
unfolding in_flight_full empty
fresh_free = refl

ann_there : lookup "ann" open_pool.by_uid ≡ some fresh
unfolding lookup
ann_there = refl

-- Two callers meet a limit of one: both load the counter, the first swaps it, the second fails,
-- loads again and is refused.
abbrev before_race : List Caller
before_race = idle ∷ idle ∷ []

abbrev after_race : List Caller
after_race = leased ∷ loaded 1 ∷ []

before-IsSafe : IsSafe 1 0 before_race
before-IsSafe = record { counted = refl; within = inr (omega arith); sound = (tt, (tt, tt)) }

race : Run 1 0 before_race 1 after_race
race =
    next
      (next (next start (here (idle ∷ []) (load 0 (omega arith))))
        (here (idle ∷ []) (swap 0 0 1 (omega arith) refl refl)))
      (there leased (here [] (load 1 (omega arith))))

Run-IsSafe_example : IsSafe 1 1 after_race
Run-IsSafe_example = Run-IsSafe race before-IsSafe

-- Without a limit nobody is refused.
no_limit : Run 0 0 before_race 2 (leased ∷ leased ∷ [])
no_limit =
    next (next start (here (idle ∷ []) (unlimited 0 1 refl refl)))
      (there leased (here [] (unlimited 1 2 refl refl)))
