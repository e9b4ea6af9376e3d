-- ===== src/Pool/Pick.antt =====
-- internal/pool/pick.go: the selection of an account. The clock, the number drawn by the random
-- source and the shuffle are arguments; a parameter `fl` gives the operations on floats.
pub mod Fallback
pub mod Weights
pub mod Select
pub mod Answer
pub mod Outcome
pub mod Safety
use Prim.Native.String.{compare, ◌++◌ as text_append}
use text.Mathlib.Text.{is_lt}
use workbuddy2plus_plugin.Base.{
  ℕ, ◌+◌, ◌-◌, ◌*◌, String, Bool, false, not, ◌&&◌, Option, none, some, List, [], ◌∷◌, map, str_eq,
  ltb, leb, ◌==◌, if◌then◌else◌, ℤ, pos, ltb_ℤ, length, take, keep, some_of, sort_stable, Dict,
  lookup, insert,
}
use workbuddy2plus_plugin.Pool.Types.{Auth, Entry, Pool, millisecond}
use workbuddy2plus_plugin.Pool.Floats.{Floats}
use workbuddy2plus_plugin.Pool.Health.{
  healthy, healthy_for_model, model_cost_of, in_flight_full, prune_expired_model_costs,
  prune_expired_model_cooldowns,
}
use Fallback.{pick_earliest_expiry, is_tried, realm_ok, mark_used}
use Weights.{Weighted, weight_of, pick_weighted}

-- `minPickGap`
abbrev pub min_pick_gap : ℕ
min_pick_gap = 100 * millisecond

-- The separator stands between the realm and the model.
abbrev pub explore_key : String → String → String
explore_key realm model = text_append realm (text_append "\u{1f}" model)

-- The time of the last exploration; a key that is not there reads as the zero time.
abbrev pub last_explored : Option ℕ → ℕ
last_explored none = 0
last_explored (some t) = t

module _ {F : Type 0} where
  unfoldable pub prune_all : ℕ → Pool F → Pool F
  unfolding prune_expired_model_cooldowns prune_expired_model_costs
  prune_all now p = record p {
    by_uid =
        map (λ kv. (kv.0, prune_expired_model_costs now (prune_expired_model_cooldowns now kv.1)))
          p.by_uid;
  }

  abbrev pub healthy_of : ℕ → String → Entry F → Bool
  healthy_of now model e = if str_eq model "" then healthy e now else healthy_for_model e now model

  -- The account passes every `continue` of the loop over the pool.
  unfoldable pub selectable : Pool F → List String → ℕ → String → String → String × Entry F → Bool
  selectable p tried now model realm (uid, e) =
      if is_tried tried uid
      then false
      else if not (realm_ok realm e && healthy_of now model e)
      then false
      else not (in_flight_full p e)

  unfoldable pub candidates : List String → ℕ → String → String → Pool F → Dict (Entry F)
  unfolding selectable
  candidates tried now model realm p = keep (selectable p tried now model realm) p.by_uid

  unfoldable pub max_credits : ℤ → Dict (Entry F) → ℤ
  max_credits most [] = most
  max_credits most ((uid, e) ∷ rest) =
      max_credits (if ltb_ℤ most e.credits then e.credits else most) rest

  -- The least recently selected one, by the sequence number.
  unfoldable pub least_recent : Weighted F → List (Weighted F) → Weighted F
  least_recent best [] = best
  least_recent best (c ∷ cs) =
      least_recent (if ltb c.e.used_seq best.e.used_seq then c else best) cs

module _ {F : Type 0} (fl : Floats F) where
  open fl use {ratio, sub, lt, le, eq}

  -- 0: measured as free; 1: not known; 2: measured as charged, with its price.
  unfoldable pub cost_tier : String → ℕ → Entry F → ℕ × F
  unfolding model_cost_of
  cost_tier model now e = elim (model_cost_of e model now) [
    | none ↦ (1, ratio 0 1)
    | some mc ↦ if le mc.cost_per_1k (ratio 0 1) then (0, ratio 0 1) else (2, mc.cost_per_1k)
  ]

  unfoldable pub best_tier : String → ℕ → ℕ → Dict (Entry F) → ℕ
  unfolding cost_tier
  best_tier model now best [] = best
  best_tier model now best ((uid, e) ∷ rest) =
      best_tier model now
        (let tier = (cost_tier model now e).0 in if ltb tier best then tier else best) rest

  -- The window of the exploration of unknown accounts is open.
  abbrev pub may_explore : ℕ → String → String → ℕ → Dict (Entry F) → Pool F → Bool
  may_explore now model realm best cands p =
      ltb 0 p.cost_explore_interval
      && (best == 0
          && (not (str_eq model "")
              && (some_of (λ kv. (cost_tier model now kv.1).0 == 1) cands
                  && leb p.cost_explore_interval
                      (now - last_explored (lookup (explore_key realm model) p.explore_last)))))

  -- The tier that this selection serves, and the pool with the exploration noted.
  unfoldable pub effective_tier : ℕ → String → String → Dict (Entry F) → Pool F → ℕ × Pool F
  effective_tier now model realm cands p =
      let best = best_tier model now 2 cands in
      if may_explore now model realm best cands p
      then (
        1,
        record p {
          explore_last = insert (explore_key realm model) now p.explore_last;
          cost_explore_events = p.cost_explore_events + 1;
        },
      )
      else (best, p)

  -- The candidates of the tier, each with its weight.
  unfoldable pub weigh : Pool F → ℤ → ℕ → String → ℕ → Dict (Entry F) → List (Weighted F)
  unfolding cost_tier weight_of
  weigh p most now model best [] = []
  weigh p most now model best ((uid, e) ∷ rest) =
      let (tier, cost_1k) = cost_tier model now e in
      let others = weigh p most now model best rest in
      if tier == best
      then record {
        uid = uid;
        e = e;
        w = weight_of fl p e most now;
        tier = tier;
        cost_1k = cost_1k;
      }
        ∷ others
      else others

  -- The comparison of the sort.
  unfoldable pub before : Weighted F → Weighted F → Bool
  before x y =
      if not (eq x.cost_1k y.cost_1k)
      then lt x.cost_1k y.cost_1k
      else if not (eq x.w y.w)
      then lt y.w x.w
      else is_lt (compare x.e.a.uid y.e.a.uid)

  -- `math.Abs(x-y) < weightEpsilon`
  abbrev pub close : F → F → Bool
  close x y =
      let d = sub x y in lt (if lt d (ratio 0 1) then sub (ratio 0 1) d else d) (ratio 1 1000000000)

  abbrev pub has_equal : List (Weighted F) → Bool
  has_equal [] = false
  has_equal (c ∷ cs) = some_of (λ x. close x.w c.w) cs

  -- The shuffle against a cut among equals, and the sort.
  unfoldable pub rank :
      (List (Weighted F) → List (Weighted F)) → List (Weighted F) → List (Weighted F)
  unfolding before
  rank shuffle ws =
      sort_stable before (if ltb 5 (length ws) && has_equal ws then shuffle ws else ws)

  unfoldable pub choose : (ℕ → ℕ) → ℕ → Weighted F → List (Weighted F) → Weighted F
  unfolding pick_weighted least_recent
  choose rnd now c cs =
      elim (keep (λ x. leb min_pick_gap (now - x.e.last_used)) (take 5 (c ∷ cs))) [
        | [] ↦ least_recent c cs
        | x ∷ xs ↦ pick_weighted fl rnd x xs
      ]

  -- The choice among the ranked candidates, and its mark. The list is never empty.
  unfoldable pub serve : (ℕ → ℕ) → ℕ → List (Weighted F) → Pool F → Pool F × Option Auth
  unfolding choose mark_used
  serve rnd now [] p = (p, none)
  serve rnd now (c ∷ cs) p =
      let chosen = choose rnd now c cs in (mark_used now chosen.uid chosen.e p, some chosen.e.a)

  -- The end of `pick`, from the candidates on.
  unfoldable pub pick_among :
      (List (Weighted F) → List (Weighted F))
      → (ℕ → ℕ)
      → ℕ
      → String
      → String
      → Dict (Entry F)
      → Pool F
      → Pool F × Option Auth
  unfolding effective_tier weigh rank serve max_credits
  pick_among shuffle rnd now model realm cands p =
      let (tier, explored) = effective_tier now model realm cands p in
      serve rnd now (rank shuffle (weigh p (max_credits (pos 0) cands) now model tier cands))
        explored

  -- The fallback if there is no candidate.
  unfoldable pub pick_from :
      (List (Weighted F) → List (Weighted F))
      → (ℕ → ℕ)
      → ℕ
      → List String
      → String
      → String
      → Dict (Entry F)
      → Pool F
      → Pool F × Option Auth
  pick_from shuffle rnd now tried model realm [] p = pick_earliest_expiry tried now realm p
  pick_from shuffle rnd now tried model realm (kv ∷ cands) p =
      pick_among shuffle rnd now model realm (kv ∷ cands) p

  unfoldable pub pick :
      (List (Weighted F) → List (Weighted F))
      → (ℕ → ℕ)
      → ℕ
      → List String
      → String
      → String
      → Pool F
      → Pool F × Option Auth
  pick shuffle rnd now tried model realm p =
      let pruned = prune_all now p in
      pick_from shuffle rnd now tried model realm (candidates tried now model realm pruned) pruned

module _ {F : Type 0} where
  -- The sticky selection of one account.
  unfoldable pub pick_by_uid_for_model : ℕ → String → String → Pool F → Pool F × Option Auth
  unfolding mark_used
  pick_by_uid_for_model now uid model p = elim (lookup uid p.by_uid) [
    | none ↦ (p, none)
    | some e ↦
        if not (healthy_for_model e now model)
        then (p, none)
        else if in_flight_full p e
        then (p, none)
        else (mark_used now uid e p, some e.a)
  ]
