-- ===== src/Pool/Pick/Select.antt =====
-- pick.go: what the selection answers when some account is healthy.
use mathlib.Core.List.{Memᴰ, Permᴰ}
use mathlib.Core.Path.{subst}
use workbuddy2plus_plugin.Base.{
  str_eq, Mem-All, Mem-some_of, ℕ, ◌+◌, ◌-◌, ◌≤◌, ◌<◌, String, ◌≡◌, refl, sym, ap, ◌∙◌, ◌⊎◌, inl,
  inr, Bool, true, false, ◌&&◌, List, [], ◌∷◌, arith, ltb, leb, ◌==◌, if◌then◌else◌, ==_iff,
  Bool-cases, ℤ, length, take, All, All-take, some_of, Dict, lookup, All-map_pred, All-keep,
  All-sort_stable, All-perm, some_of-Mem,
}
use workbuddy2plus_plugin.Pool.Types.{Entry, Pool}
use workbuddy2plus_plugin.Pool.Floats.{Floats}
use workbuddy2plus_plugin.Pool.Pick.Weights.{Weighted, walk, draw_weight, pick_weighted}
use workbuddy2plus_plugin.Pool.Pick.{
  last_explored, explore_key, min_pick_gap, has_equal, least_recent, cost_tier, best_tier,
  may_explore, effective_tier, weigh, before, rank, choose,
}

module _ {F : Type 0} (P : Weighted F → Type 0) where
  least_recent-All :
      (best : Weighted F) (cs : List (Weighted F)) → P best → All P cs → P (least_recent best cs)
  unfolding least_recent
  least_recent-All best [] pb h = pb
  least_recent-All best (c ∷ cs) pb h = elim (Bool-cases (ltb c.e.used_seq best.e.used_seq)) [
    | inl y ↦ rw (y, least_recent) (least_recent-All c cs h.0 h.1)
    | inr n ↦ rw (n, least_recent) (least_recent-All best cs pb h.1)
  ]

  module _ (fl : Floats F) where
    walk-All :
        (r acc : ℕ) (last : Weighted F) (cs : List (Weighted F))
        → P last
        → All P cs
        → P (walk fl r acc last cs)
    unfolding walk
    walk-All r acc last [] pl h = pl
    walk-All r acc last (c ∷ cs) pl h = elim (Bool-cases (ltb r (acc + draw_weight fl c))) [
      | inl y ↦ rw (y, walk) h.0
      | inr n ↦ rw (n, walk) (walk-All r (acc + draw_weight fl c) c cs h.0 h.1)
    ]

    choose_from :
        (rnd : ℕ → ℕ) (c : Weighted F) (cs eligible : List (Weighted F))
        → All P (c ∷ cs)
        → All P eligible
        → P (elim eligible [ [] ↦ least_recent c cs | x ∷ xs ↦ pick_weighted fl rnd x xs ])
    unfolding pick_weighted
    choose_from rnd c cs [] h k = least_recent-All c cs h.0 h.1
    choose_from rnd c cs (x ∷ xs) h k = walk-All _ 0 x (x ∷ xs) k.0 k

    -- The choice among ranked candidates is one of them.
    pub choose-All :
        (rnd : ℕ → ℕ) (now : ℕ) (c : Weighted F) (cs : List (Weighted F))
        → All P (c ∷ cs)
        → P (choose fl rnd now c cs)
    unfolding choose
    choose-All rnd now c cs h = choose_from rnd c cs _ h (
        All-keep P (λ x. leb min_pick_gap (now - x.e.last_used)) (take 5 (c ∷ cs))
          (All-take P 5 (c ∷ cs) h))

    pub rank-All :
        (shuffle : List (Weighted F) → List (Weighted F)) (ws : List (Weighted F))
        → ((xs : List (Weighted F)) → Permᴰ (shuffle xs) xs)
        → All P ws
        → All P (rank fl shuffle ws)
    unfolding rank
    rank-All shuffle ws perm h =
        All-sort_stable P (before fl)
          (if ltb 5 (length ws) && has_equal fl ws then shuffle ws else ws)
          (elim (Bool-cases (ltb 5 (length ws) && has_equal fl ws)) [
            | inl y ↦ rw y (All-perm P (perm ws) h)
            | inr n ↦ rw n h
          ])

-- A weighted candidate is one of the list and of the tier.
abbrev pub FromTier :
    {F : Type 0} → Floats F → String → ℕ → ℕ → Dict (Entry F) → Weighted F → Type 0
FromTier fl model now tier l w = Memᴰ (w.uid, w.e) l × ((cost_tier fl model now w.e).0 ≡ tier)

module _ {F : Type 0} (fl : Floats F) (p : Pool F) (most : ℤ) (now : ℕ) (model : String)
    (tier : ℕ) where
  pub weigh-FromTier :
      (l : Dict (Entry F)) → All (FromTier fl model now tier l) (weigh fl p most now model tier l)
  unfolding weigh
  weigh-FromTier [] = tt
  weigh-FromTier ((uid, e) ∷ rest) =
      let others : All (FromTier fl model now tier ((uid, e) ∷ rest))
          (weigh fl p most now model tier rest) =
        All-map_pred _ (λ w h. (Memᴰ.tail h.0, h.1)) (weigh-FromTier rest) in
      elim (Bool-cases ((cost_tier fl model now e).0 == tier)) [
        | inl y ↦ rw (y, weigh) ((Memᴰ.head refl, (==_iff _ _).0 y), others)
        | inr n ↦ rw (n, weigh) others
      ]

  -- A member of the tier makes the list of weighted candidates not empty.
  pub weigh-pos :
      (l : Dict (Entry F)) {uid : String} {e : Entry F}
      → Memᴰ (uid, e) l
      → (cost_tier fl model now e).0 ≡ tier
      → 0 < length (weigh fl p most now model tier l)
  unfolding weigh
  weigh-pos [] m h = elim m [ ]
  weigh-pos ((u, x) ∷ rest) (Memᴰ.head q) h =
      let y : (cost_tier fl model now x).0 ≡ tier =
        ap (λ kv. (cost_tier fl model now kv.1).0) (sym q) ∙ h in
      rw ((==_iff _ _).1 y, weigh) (omega arith)
  weigh-pos ((u, x) ∷ rest) (Memᴰ.tail m) h =
      elim (Bool-cases ((cost_tier fl model now x).0 == tier)) [
        | inl y ↦ rw (y, weigh) (omega arith)
        | inr n ↦ rw (n, weigh) (weigh-pos rest m h)
      ]

lesser-le : (a b : ℕ) → ((if ltb a b then a else b) ≤ a) × ((if ltb a b then a else b) ≤ b)
lesser-le a b = (ground arith, ground arith)

lesser-cases : (a b : ℕ) → ((if ltb a b then a else b) ≡ a) ⊎ ((if ltb a b then a else b) ≡ b)
lesser-cases a b = ground arith

module _ {F : Type 0} (fl : Floats F) (model : String) (now : ℕ) where
  cost_tier-le : (e : Entry F) → (cost_tier fl model now e).0 ≤ 2
  unfolding cost_tier
  cost_tier-le e = ground arith

  best_tier-All :
      (best : ℕ) (l : Dict (Entry F))
      → (best_tier fl model now best l ≤ best)
        × All (λ kv. best_tier fl model now best l ≤ (cost_tier fl model now kv.1).0) l
  unfolding best_tier
  best_tier-All best [] = (omega arith, tt)
  best_tier-All best ((uid, e) ∷ rest) =
      let tier = (cost_tier fl model now e).0 in
      let ih = best_tier-All (if ltb tier best then tier else best) rest in
      let lesser = lesser-le tier best in
      (omega (arith, ih.0, lesser.1), (omega (arith, ih.0, lesser.0), ih.1))

  -- The best tier is met by some account, if there is any.
  best_tier-met :
      (best : ℕ) (l : Dict (Entry F))
      → (best_tier fl model now best l ≡ best)
        ⊎ ((uid : String) × (e : Entry F) × Memᴰ (uid, e) l
            × ((cost_tier fl model now e).0 ≡ best_tier fl model now best l))
  unfolding best_tier
  best_tier-met best [] = inl refl
  best_tier-met best ((uid, e) ∷ rest) =
      let tier = (cost_tier fl model now e).0 in
      elim (best_tier-met (if ltb tier best then tier else best) rest) [
        | inl q ↦ elim (lesser-cases tier best) [
          | inl is_tier ↦ inr (uid, e, Memᴰ.head refl, sym (q ∙ is_tier))
          | inr is_best ↦ inl (q ∙ is_best)
        ]
        | inr (u, x, m, h) ↦ inr (u, x, Memᴰ.tail m, h)
      ]

module _ {F : Type 0} (fl : Floats F) (now : ℕ) (model realm : String) (p : Pool F) where
  abbrev pub served : Dict (Entry F) → ℕ
  served l = (effective_tier fl now model realm l p).0

  abbrev explores : Dict (Entry F) → Bool
  explores l = may_explore fl now model realm (best_tier fl model now 2 l) l p

  served_explored : (l : Dict (Entry F)) → explores l ≡ true → served l ≡ 1
  unfolding effective_tier
  served_explored l y = rw (y, served)

  served_plain : (l : Dict (Entry F)) → explores l ≡ false → served l ≡ best_tier fl model now 2 l
  unfolding effective_tier
  served_plain l n = rw (n, served)

  abbrev pub Met : Dict (Entry F) → ℕ → Type 0
  Met l tier =
      (uid : String) × (e : Entry F) × Memᴰ (uid, e) l × ((cost_tier fl model now e).0 ≡ tier)

  best-Met :
      (kv : String × Entry F) (rest : Dict (Entry F))
      → Met (kv ∷ rest) (best_tier fl model now 2 (kv ∷ rest))
  best-Met (u, x) rest = elim (best_tier-met fl model now 2 ((u, x) ∷ rest)) [
    | inl q ↦ (
      u,
      x,
      Memᴰ.head refl,
      omega (
        arith,
        q,
        cost_tier-le fl model now x,
        (best_tier-All fl model now 2 ((u, x) ∷ rest)).1.0,
      ),
    )
    | inr met ↦ met
  ]

  unknown-Met :
      (l : Dict (Entry F)) → some_of (λ kv. (cost_tier fl model now kv.1).0 == 1) l ≡ true → Met l 1
  unknown-Met l h =
      let (kv, m, t) = some_of-Mem (λ kv. (cost_tier fl model now kv.1).0 == 1) l h in
      (kv.0, kv.1, m, (==_iff _ _).0 t)

  -- The selection serves the tier of some account.
  pub served-Met :
      (kv : String × Entry F) (rest : Dict (Entry F)) → Met (kv ∷ rest) (served (kv ∷ rest))
  served-Met kv rest = elim (Bool-cases (explores (kv ∷ rest))) [
    | inl y ↦
        subst (Met (kv ∷ rest)) (sym (served_explored (kv ∷ rest) y))
          (unknown-Met (kv ∷ rest) (ground arith))
    | inr n ↦ subst (Met (kv ∷ rest)) (sym (served_plain (kv ∷ rest) n)) (best-Met kv rest)
  ]

  -- A tier that some candidate has, and no candidate a better one.
  abbrev pub IsBestTier : Dict (Entry F) → ℕ → Type 0
  IsBestTier l tier = Met l tier × All (λ kv. tier ≤ (cost_tier fl model now kv.1).0) l

  -- An exploration is due: the interval for it is set, the model is named, some candidate is free and
  -- the cost of another is unknown, and the interval since the last exploration is over.
  abbrev pub IsDue : Dict (Entry F) → Type 0
  IsDue l =
      (0 < p.cost_explore_interval)
      × (str_eq model "" ≡ false)
      × Met l 0
      × Met l 1
      × (p.cost_explore_interval
          ≤ now - last_explored (lookup (explore_key realm model) p.explore_last))

  Met-best : (l : Dict (Entry F)) → Met l 0 → best_tier fl model now 2 l ≡ 0
  Met-best l (uid, e, m, q) = omega (
    arith,
    q,
    Mem-All (λ kv. best_tier fl model now 2 l ≤ (cost_tier fl model now kv.1).0) m
        (best_tier-All fl model now 2 l).1,
  )

  unknown_some :
      (l : Dict (Entry F)) → Met l 1 → some_of (λ kv. (cost_tier fl model now kv.1).0 == 1) l ≡ true
  unknown_some l (uid, e, m, q) =
      Mem-some_of (λ kv. (cost_tier fl model now kv.1).0 == 1) l m ((==_iff _ _).1 q)

  due-explores : (l : Dict (Entry F)) → IsDue l → explores l ≡ true
  due-explores l (open_now, named, free, unknown, over) =
      ground (arith, Met-best l free, unknown_some l unknown, open_now, named, over)

  -- Of some candidates, the selection serves the best tier, which one has and none is better than,
  -- exactly unless an exploration is due: the interval for it is set, the model is named, some
  -- candidate is free and the cost of another is unknown, and the interval since the last exploration
  -- is over. Then it serves the candidates of unknown cost.
  pub served-best :
      (kv : String × Entry F) (rest : Dict (Entry F))
      → (IsBestTier (kv ∷ rest) (served (kv ∷ rest)) × ¬ IsDue (kv ∷ rest))
        ⊎ ((served (kv ∷ rest) ≡ 1) × IsDue (kv ∷ rest))
  served-best kv rest =
      let l = kv ∷ rest in
      elim (Bool-cases (explores l)) [
        | inl y ↦
            let free : best_tier fl model now 2 l ≡ 0 = ground arith in
            inr (
              served_explored l y,
              (
                ground arith,
                ground arith,
                subst (Met l) free (best-Met kv rest),
                unknown-Met l (ground arith),
                ground arith,
              ),
            )
        | inr n ↦
            let best = sym (served_plain l n) in
            inl (
              (
                subst (Met l) best (best-Met kv rest),
                subst (λ t. All (λ x. t ≤ (cost_tier fl model now x.1).0) l) best
                    (best_tier-All fl model now 2 l).1,
              ),
              λ due. cc (n, due-explores l due),
            )
      ]
