-- ===== src/Plugin/Budget.antt =====
-- plugin/wb_pool.go: the choice is an offered account, and the budget of draws is enough.
use mathlib.Core.List.{Permᴰ}
use mathlib.Core.Path.{subst}
use workbuddy2plus_plugin.Base.{
  ℕ, zero, suc, ◌+◌, ◌<◌, Option, String, ◌≡◌, refl, sym, ◌⊎◌, inl, inr, Bool, true, false, not,
  none, some, List, [], ◌∷◌, arith, ◌==◌, if◌then◌else◌, Bool-cases, Option-cases, length, some_of,
}
use workbuddy2plus_plugin.Pool.Types.{Auth, Pool}
use workbuddy2plus_plugin.Pool.Floats.{Floats}
use workbuddy2plus_plugin.Pool.Pick.Weights.{Weighted}
use workbuddy2plus_plugin.Pool.Pick.{pick}
use workbuddy2plus_plugin.Plugin.{is_allowed, draw, pick_from_pool}
use workbuddy2plus_plugin.Plugin.Keys.{
  keys, untried, IsKeyed, pick-IsSame, pick-untried, length-keys, untried-le, untried-less,
}

module _ {F : Type 0} (fl : Floats F) (shuffle : List (Weighted F) → List (Weighted F))
    (rnd : ℕ → ℕ) (clock : ℕ → ℕ) (model : String) (allowed : String → Bool) where
  abbrev pub drawn : List String → Pool F → Pool F × Option Auth
  drawn tried p = pick fl shuffle rnd (clock (length tried)) tried model "" p

  -- Draws from the pool, each of an account that is not allowed, with the names tried and the pool
  -- before and after them.
  pub data Draws : List String → Pool F → List String → Pool F → Type 0 where
    no_draw : (tried : List String) (p : Pool F) → Draws tried p tried p
    passed :
        {tried : List String} {p : Pool F} {later : List String} {left : Pool F} (a : Auth)
        → (drawn tried p).1 ≡ some a
        → allowed a.uid ≡ false
        → Draws (a.uid ∷ tried) (drawn tried p).0 later left
        → Draws tried p later left

  -- The draw that ends the loop: the pool refuses to select, or it selects an allowed account.
  abbrev pub Ends : List String → Pool F → Pool F × String → Type 0
  Ends tried p result =
      (((drawn tried p).1 ≡ none) × (result ≡ ((drawn tried p).0, "")))
      ⊎ ((a : Auth) × ((drawn tried p).1 ≡ some a)
          × (allowed a.uid ≡ true)
          × (result ≡ ((drawn tried p).0, a.uid)))

  -- What drawing until the end comes to, however many draws it takes.
  pub record IsDrawn (tried : List String) (p : Pool F) (result : Pool F × String) : Type 0 where
    pub later : List String
    pub left : Pool F
    pub draws : Draws tried p later left
    pub ends : Ends later left result

  draw-allowed :
      (budget : ℕ) (tried : List String) (p : Pool F)
      → ((draw fl shuffle rnd clock budget tried model allowed p).1 ≡ "")
        ⊎ (allowed (draw fl shuffle rnd clock budget tried model allowed p).1 ≡ true)
  unfolding draw
  draw-allowed zero tried p = inl refl
  draw-allowed (suc budget) tried p =
      let r = pick fl shuffle rnd (clock (length tried)) tried model "" p in
      elim (Option-cases r.1) [
        | inl q ↦ rw (q, draw) (inl refl)
        | inr (a, q) ↦ elim (Bool-cases (allowed a.uid)) [
          | inl y ↦ rw (q, draw) (rw y (inr y))
          | inr n ↦ rw (q, draw) (rw n (draw-allowed budget (a.uid ∷ tried) r.0))
        ]
      ]

  module _ (perm : (xs : List (Weighted F)) → Permᴰ (shuffle xs) xs) where
    draw-IsDrawn :
        (budget : ℕ) (tried : List String) (p : Pool F)
        → IsKeyed p.by_uid
        → untried tried (keys p.by_uid) < budget
        → IsDrawn tried p (draw fl shuffle rnd clock budget tried model allowed p)
    unfolding draw
    draw-IsDrawn zero tried p u few = absurd (omega (arith, few))
    draw-IsDrawn (suc budget) tried p u few =
        let r = drawn tried p in
        let now = clock (length tried) in
        elim (Option-cases r.1) [
          | inl q ↦ record {
            later = tried;
            left = p;
            draws = no_draw tried p;
            ends = inl (q, rw (q, draw) refl);
          }
          | inr (a, q) ↦ elim (Bool-cases (allowed a.uid)) [
            | inl y ↦ record {
              later = tried;
              left = p;
              draws = no_draw tried p;
              ends = inr (a, q, y, rw (q, draw) (rw y refl));
            }
            | inr n ↦
                let same = pick-IsSame fl shuffle rnd perm now tried model "" p u in
                let (m, new) = pick-untried fl shuffle rnd perm now tried model "" p a u q in
                let more = draw-IsDrawn budget (a.uid ∷ tried) r.0 same.1 (
                  subst (λ ks. untried (a.uid ∷ tried) ks < budget) (sym same.0)
                    (omega (arith, few, untried-less a.uid tried (keys p.by_uid) m new))) in
                record {
                  later = more.later;
                  left = more.left;
                  draws = passed a q n more.draws;
                  ends = rw (q, draw) (rw n more.ends);
                }
          ]
        ]

suc_not_zero : (n : ℕ) → (suc n == 0) ≡ false
suc_not_zero n = ground arith

module _ {F : Type 0} (fl : Floats F) (shuffle : List (Weighted F) → List (Weighted F))
    (rnd : ℕ → ℕ) (clock : ℕ → ℕ) where
  abbrev budget_of : List String → Pool F → ℕ
  budget_of offered p =
      let budget = length p.by_uid + length offered in
      if budget == 0 then length offered else budget

  budget_enough :
      (id : String) (offered : List String) (p : Pool F)
      → untried [] (keys p.by_uid) < budget_of (id ∷ offered) p
  budget_enough id offered p = ground (arith, untried-le [] (keys p.by_uid), length-keys p.by_uid)

  as_draw :
      (id : String) (offered : List String) (exhausted : String → Bool) (model : String)
      (p : Pool F)
      → some_of (λ x. not (exhausted x)) (id ∷ offered) ≡ true
      → pick_from_pool fl shuffle rnd clock (id ∷ offered) exhausted model p
        ≡ draw fl shuffle rnd clock
            (budget_of (id ∷ offered) p)
            []
            model
            (is_allowed (id ∷ offered) exhausted)
            p
  unfolding pick_from_pool
  as_draw id offered exhausted model p y =
      rw (suc_not_zero (length offered), y, pick_from_pool) refl

  -- Whatever is chosen is allowed, with no assumption on the pool or the shuffle.
  pub pick_from_pool-allowed :
      (offered : List String) (exhausted : String → Bool) (model : String) (p : Pool F)
      → let chosen = (pick_from_pool fl shuffle rnd clock offered exhausted model p).1 in
        (chosen ≡ "") ⊎ (is_allowed offered exhausted chosen ≡ true)
  unfolding pick_from_pool
  pick_from_pool-allowed [] exhausted model p = inl refl
  pick_from_pool-allowed (id ∷ offered) exhausted model p =
      let ids = id ∷ offered in
      elim (Bool-cases (some_of (λ x. not (exhausted x)) ids)) [
        | inl y ↦
            subst (λ r. (r.1 ≡ "") ⊎ (is_allowed ids exhausted r.1 ≡ true))
              (sym (as_draw id offered exhausted model p y))
              (draw-allowed fl shuffle rnd clock model (is_allowed ids exhausted) (budget_of ids p)
                [] p)
        | inr n ↦ inl (rw (suc_not_zero (length offered), n, pick_from_pool) refl)
      ]

  -- If every account offered has a balance known to be exhausted, nothing is drawn and the choice is
  -- left to the host. Otherwise the outcome is that of drawing from the pool until it refuses to
  -- select, which leaves the choice to the host, or selects an account that is offered and whose
  -- balance is not known to be exhausted, which is the choice: the budget of draws never runs out
  -- first. Every account of the pool stands under its own uid, and the shuffle is a permutation.
  pub pick_from_pool_lem :
      (offered : List String) (exhausted : String → Bool) (model : String) (p : Pool F)
      → ((xs : List (Weighted F)) → Permᴰ (shuffle xs) xs)
      → IsKeyed p.by_uid
      → let result = pick_from_pool fl shuffle rnd clock offered exhausted model p in
        ((some_of (λ id. not (exhausted id)) offered ≡ false) × (result ≡ (p, "")))
        ⊎ ((some_of (λ id. not (exhausted id)) offered ≡ true)
            × IsDrawn fl shuffle rnd clock model (is_allowed offered exhausted) [] p result)
  unfolding pick_from_pool
  pick_from_pool_lem [] exhausted model p perm u = inl (refl, refl)
  pick_from_pool_lem (id ∷ offered) exhausted model p perm u =
      let ids = id ∷ offered in
      elim (Bool-cases (some_of (λ x. not (exhausted x)) ids)) [
        | inl y ↦ inr (
          y,
          subst (IsDrawn fl shuffle rnd clock model (is_allowed ids exhausted) [] p)
              (sym (as_draw id offered exhausted model p y))
              (draw-IsDrawn fl shuffle rnd clock model (is_allowed ids exhausted) perm
                (budget_of ids p) [] p u (budget_enough id offered p)),
        )
        | inr n ↦ inl (n, rw (suc_not_zero (length offered), n, pick_from_pool) refl)
      ]
