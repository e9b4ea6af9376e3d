-- ===== src/Pool/Pick/Answer.antt =====
-- pick.go: the answer of the whole selection.
use mathlib.Core.List.{Memᴰ, Permᴰ}
use workbuddy2plus_plugin.Base.{
  ℕ, ◌<◌, String, ◌≡◌, refl, ◌∙◌, inl, inr, ◌&&◌, Option, some, List, [], ◌∷◌, arith, ltb,
  if◌then◌else◌, Bool-cases, pos, length, All, Dict, length-perm, length-sort_stable,
}
use workbuddy2plus_plugin.Pool.Types.{Auth, Entry, Pool}
use workbuddy2plus_plugin.Pool.Floats.{Floats}
use workbuddy2plus_plugin.Pool.Pick.Fallback.{mark_used}
use workbuddy2plus_plugin.Pool.Pick.Weights.{Weighted}
use workbuddy2plus_plugin.Pool.Pick.{
  serve, has_equal, effective_tier, weigh, before, rank, choose, pick_among, max_credits, cost_tier,
}
use workbuddy2plus_plugin.Pool.Pick.Select.{
  FromTier, choose-All, rank-All, weigh-FromTier, weigh-pos, served, served-Met,
}

module _ {F : Type 0} (fl : Floats F) (shuffle : List (Weighted F) → List (Weighted F))
    (perm : (xs : List (Weighted F)) → Permᴰ (shuffle xs) xs) where
  length-rank : (ws : List (Weighted F)) → length (rank fl shuffle ws) ≡ length ws
  unfolding rank
  length-rank ws =
      length-sort_stable (before fl)
        (if ltb 5 (length ws) && has_equal fl ws then shuffle ws else ws)
      ∙ elim (Bool-cases (ltb 5 (length ws) && has_equal fl ws)) [
        | inl y ↦ rw y (length-perm (perm ws))
        | inr n ↦ rw n
      ]

module _ {F : Type 0} (fl : Floats F) (rnd : ℕ → ℕ) (now : ℕ) where
  serve_lem :
      (P : Weighted F → Type 0) (r : List (Weighted F)) (q : Pool F)
      → 0 < length r
      → All P r
      → (w : Weighted F) × P w × (serve fl rnd now r q ≡ (mark_used now w.uid w.e q, some w.e.a))
  unfolding serve
  serve_lem P [] q h a = absurd (omega arith)
  serve_lem P (c ∷ cs) q h a = (choose fl rnd now c cs, choose-All P fl rnd now c cs a, refl)

-- An answer of the selection from candidates: one of them that is of the served tier, and marked
-- as used in the pool.
abbrev pub Answers :
    {F : Type 0}
    → Floats F
    → ℕ
    → String
    → String
    → Dict (Entry F)
    → Pool F
    → Pool F × Option Auth
    → Type 0
Answers fl now model realm l p r =
    (uid : String) × (e : Entry _) × Memᴰ (uid, e) l
    × ((cost_tier fl model now e).0 ≡ served fl now model realm p l)
    × (r ≡ (mark_used now uid e (effective_tier fl now model realm l p).1, some e.a))

module _ {F : Type 0} (fl : Floats F) (shuffle : List (Weighted F) → List (Weighted F))
    (perm : (xs : List (Weighted F)) → Permᴰ (shuffle xs) xs) (rnd : ℕ → ℕ) (now : ℕ)
    (model realm : String) where
  pub pick_among-Answers :
      (kv : String × Entry F) (rest : Dict (Entry F)) (p : Pool F)
      → Answers fl now model realm
          (kv ∷ rest)
          p
          (pick_among fl shuffle rnd now model realm (kv ∷ rest) p)
  unfolding pick_among
  pick_among-Answers kv rest p =
      let l : Dict (Entry F) = kv ∷ rest in
      let tier = served fl now model realm p l in
      let ws = weigh fl p (max_credits (pos 0) l) now model tier l in
      let met = served-Met fl now model realm p kv rest in
      let (w, from, q) =
        serve_lem fl rnd now (FromTier fl model now tier l) (rank fl shuffle ws)
          (effective_tier fl now model realm l p).1
          (omega (
            arith,
            length-rank fl shuffle perm ws,
            weigh-pos fl p (max_credits (pos 0) l) now model tier l met.2 met.3,
          ))
          (rank-All (FromTier fl model now tier l) fl shuffle ws perm
            (weigh-FromTier fl p (max_credits (pos 0) l) now model tier l)) in
      (w.uid, w.e, from.0, from.1, q)
