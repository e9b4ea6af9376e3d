-- ===== src/Pool/Pick/Outcome.antt =====
-- pick.go: the outcomes of `pick` as a whole, and what holds of the account that it answers.
use mathlib.Core.List.{Memᴰ, Permᴰ}
use workbuddy2plus_plugin.Base.{
  ℕ, String, ◌≡◌, refl, ◌⊎◌, inl, inr, true, false, Option, some, List, [], ◌∷◌, arith, All, Dict,
  All-map_pred, All-Mem, Mem-All, All-keep, keep-passes, All-and,
}
use workbuddy2plus_plugin.Pool.Types.{Auth, Entry, Pool}
use workbuddy2plus_plugin.Pool.Floats.{Floats}
use workbuddy2plus_plugin.Pool.Health.{in_flight_full}
use workbuddy2plus_plugin.Pool.Pick.Fallback.{is_tried, realm_ok, mark_used, pick_earliest_expiry}
use workbuddy2plus_plugin.Pool.Pick.Weights.{Weighted}
use workbuddy2plus_plugin.Pool.Pick.{
  pick_from, candidates, effective_tier, pick, prune_all, selectable, cost_tier, healthy_of,
}
use workbuddy2plus_plugin.Pool.Pick.Select.{served}
use workbuddy2plus_plugin.Pool.Pick.Answer.{Answers, pick_among-Answers}

-- What it takes to be selected directly.
pub record MaySelect {F : Type 0} (p : Pool F) (tried : List String) (now : ℕ)
    (model realm uid : String) (e : Entry F) : Type 0 where
  pub untried : is_tried tried uid ≡ false
  pub in_realm : realm_ok realm e ≡ true
  pub fit : healthy_of now model e ≡ true
  pub has_room : in_flight_full p e ≡ false

selectable-MaySelect :
    {F : Type 0} (p : Pool F) (tried : List String) (now : ℕ) (model realm uid : String)
    (e : Entry F)
    → selectable p tried now model realm (uid, e) ≡ true
    → MaySelect p tried now model realm uid e
unfolding selectable
selectable-MaySelect p tried now model realm uid e h = ground arith

module _ {F : Type 0} (p : Pool F) (tried : List String) (now : ℕ) (model realm : String) where
  candidates-MaySelect :
      All
        (λ kv. Memᴰ kv p.by_uid × MaySelect p tried now model realm kv.0 kv.1)
        (candidates tried now model realm p)
  unfolding candidates
  candidates-MaySelect =
      All-map_pred (candidates tried now model realm p)
        (λ kv h. (h.0, selectable-MaySelect p tried now model realm kv.0 kv.1 h.1))
        (All-and (λ kv. Memᴰ kv p.by_uid) (λ kv. selectable p tried now model realm kv ≡ true)
          (candidates tried now model realm p)
          (All-keep (λ kv. Memᴰ kv p.by_uid) (selectable p tried now model realm) p.by_uid
            (All-Mem p.by_uid))
          (keep-passes (selectable p tried now model realm) p.by_uid))

-- An answer among the accounts that may be selected directly: it is of the served tier, and it is
-- marked as used.
abbrev pub Selects :
    {F : Type 0}
    → Floats F
    → List String
    → ℕ
    → String
    → String
    → Pool F
    → Pool F × Option Auth
    → Type 0
Selects fl tried now model realm p r =
    let cands = candidates tried now model realm p in
    (uid : String) × (e : Entry _) × Memᴰ (uid, e) p.by_uid
    × MaySelect p tried now model realm uid e
    × ((cost_tier fl model now e).0 ≡ served fl now model realm p cands)
    × (r ≡ (mark_used now uid e (effective_tier fl now model realm cands p).1, some e.a))

module _ {F : Type 0} (fl : Floats F) (shuffle : List (Weighted F) → List (Weighted F))
    (rnd : ℕ → ℕ) (now : ℕ) (tried : List String) (model realm : String) where
  -- What `pick` does with the pool once the expired entries are dropped.
  abbrev Cases : Pool F → Dict (Entry F) → Pool F × Option Auth → Type 0
  Cases p l r =
      ((l ≡ []) × (r ≡ pick_earliest_expiry tried now realm p)) ⊎ Answers fl now model realm l p r

  pick_from-Cases :
      ((xs : List (Weighted F)) → Permᴰ (shuffle xs) xs)
      → (l : Dict (Entry F)) (p : Pool F)
      → Cases p l (pick_from fl shuffle rnd now tried model realm l p)
  unfolding pick_from
  pick_from-Cases perm [] p = inl (refl, refl)
  pick_from-Cases perm (kv ∷ rest) p =
      inr (pick_among-Answers fl shuffle perm rnd now model realm kv rest p)

  -- The selection first drops the expired entries of the tables. If no account may then be
  -- selected directly, it answers what the fallback answers. Otherwise it always answers an account,
  -- one that may be selected directly and is of the tier that is served, and marks it as used. The
  -- shuffle is a permutation; nothing is assumed of the numbers drawn or of the floats.
  pub pick_lem :
      ((xs : List (Weighted F)) → Permᴰ (shuffle xs) xs)
      → (p : Pool F)
      → let pruned = prune_all now p in
        let r = pick fl shuffle rnd now tried model realm p in
        ((candidates tried now model realm pruned ≡ [])
          × (r ≡ pick_earliest_expiry tried now realm pruned))
        ⊎ Selects fl tried now model realm pruned r
  unfolding pick
  pick_lem perm p =
      let pruned = prune_all now p in
      let cands = candidates tried now model realm pruned in
      elim (pick_from-Cases perm cands pruned) [
        | inl none_left ↦ inl none_left
        | inr (uid, e, m, tier, q) ↦
            let (member, may) = Mem-All _ m (candidates-MaySelect pruned tried now model realm) in
            inr (uid, e, member, may, tier, q)
      ]
