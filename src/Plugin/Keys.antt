-- ===== src/Plugin/Keys.antt =====
-- internal/pool/pick.go: the selection keeps the keys of the pool, and answers one not tried.
use mathlib.Core.List.{Memᴰ, Permᴰ}
use mathlib.Core.Path.{subst}
use workbuddy2plus_plugin.Base.{
  ℕ, suc, ◌+◌, ◌≤◌, ◌<◌, String, ◌≡◌, refl, sym, ap, ◌∙◌, inl, inr, false, not, some, List, [], ◌∷◌,
  map, arith, str_eq, eq_iff, Bool-cases, length, keep, All, Dict, insert, Mem-All,
}
use workbuddy2plus_plugin.Pool.Types.{Auth, Entry, Pool}
use workbuddy2plus_plugin.Pool.Floats.{Floats}
use workbuddy2plus_plugin.Pool.Pick.Fallback.{is_tried, mark_used, pick_earliest_expiry}
use workbuddy2plus_plugin.Pool.Pick.Fallback.Earliest.{pick_earliest_expiry_lem}
use workbuddy2plus_plugin.Pool.Health.{prune_expired_model_costs, prune_expired_model_cooldowns}
use workbuddy2plus_plugin.Pool.Pick.Weights.{Weighted}
use workbuddy2plus_plugin.Pool.Pick.{pick, prune_all}
use workbuddy2plus_plugin.Pool.Pick.Outcome.{pick_lem}
use workbuddy2plus_plugin.Pool.Pick.Safety.{pick-InPlay}
use workbuddy2plus_plugin.Pool.Events.Kept.{effective_tier-by_uid}

module _ {A : Type 0} where
  abbrev pub keys : Dict A → List String
  keys [] = []
  keys (kv ∷ rest) = kv.0 ∷ keys rest

  Mem-keys : {uid : String} {e : A} (l : Dict A) → Memᴰ (uid, e) l → Memᴰ uid (keys l)
  Mem-keys [] m = elim m [ ]
  Mem-keys (kv ∷ rest) (Memᴰ.head q) = Memᴰ.head (ap (λ x. x.0) q)
  Mem-keys (kv ∷ rest) (Memᴰ.tail m) = Memᴰ.tail (Mem-keys rest m)

  keys-insert :
      (uid : String) (e : A) (l : Dict A) → Memᴰ uid (keys l) → keys (insert uid e l) ≡ keys l
  unfolding insert
  keys-insert uid e [] m = elim m [ ]
  keys-insert uid e (kv ∷ rest) m = elim (Bool-cases (str_eq kv.0 uid)) [
    | inl y ↦ rw (y, insert) (ap (λ k. k ∷ keys rest) (sym ((eq_iff kv.0 uid).0 y)))
    | inr n ↦
        rw (n, insert)
          (elim m [
            | Memᴰ.head q ↦ ground (arith, eq_iff kv.0 uid)
            | Memᴰ.tail m' ↦ ap (λ ks. kv.0 ∷ ks) (keys-insert uid e rest m')
          ])
  ]

  keys-map : (f : A → A) (l : Dict A) → keys (map (λ kv. (kv.0, f kv.1)) l) ≡ keys l
  keys-map f [] = refl
  keys-map f (kv ∷ rest) = ap (λ ks. kv.0 ∷ ks) (keys-map f rest)

  pub length-keys : (l : Dict A) → length (keys l) ≡ length l
  length-keys [] = refl
  length-keys (kv ∷ rest) = ap suc (length-keys rest)

-- How many keys have not been tried.
abbrev pub untried : List String → List String → ℕ
untried tried ks = length (keep (λ k. not (is_tried tried k)) ks)

pub untried-le : (tried : List String) (ks : List String) → untried tried ks ≤ length ks
untried-le tried [] = omega arith
untried-le tried (k ∷ ks) = ground (arith, untried-le tried ks)

untried-cons : (u : String) (tried ks : List String) → untried (u ∷ tried) ks ≤ untried tried ks
untried-cons u tried [] = omega arith
untried-cons u tried (k ∷ ks) = ground (arith, untried-cons u tried ks)

-- One more key is tried, that was not: fewer are left.
pub untried-less :
    (u : String) (tried ks : List String)
    → Memᴰ u ks
    → is_tried tried u ≡ false
    → untried (u ∷ tried) ks < untried tried ks
untried-less u tried [] m h = elim m [ ]
untried-less u tried (k ∷ ks) (Memᴰ.head q) h =
    ground (arith, eq_iff u k, subst (λ x. is_tried tried x ≡ false) q h, untried-cons u tried ks)
untried-less u tried (k ∷ ks) (Memᴰ.tail m) h = ground (arith, untried-less u tried ks m h)

module _ {F : Type 0} where
  -- Every account stands under its own uid.
  abbrev pub IsKeyed : Dict (Entry F) → Type 0
  IsKeyed l = All (λ kv. kv.1.a.uid ≡ kv.0) l

  insert-IsKeyed :
      (uid : String) (e : Entry F) (l : Dict (Entry F))
      → e.a.uid ≡ uid
      → IsKeyed l
      → IsKeyed (insert uid e l)
  unfolding insert
  insert-IsKeyed uid e [] q h = (q, tt)
  insert-IsKeyed uid e (kv ∷ rest) q h = elim (Bool-cases (str_eq kv.0 uid)) [
    | inl y ↦ rw (y, insert) (q, h.1)
    | inr n ↦ rw (n, insert) (h.0, insert-IsKeyed uid e rest q h.1)
  ]

  abbrev pub IsSame : Dict (Entry F) → Dict (Entry F) → Type 0
  IsSame l k = (keys k ≡ keys l) × IsKeyed k

  mark_used-IsSame :
      (now : ℕ) (uid : String) (e : Entry F) (l : Dict (Entry F)) (p : Pool F)
      → l ≡ p.by_uid
      → IsKeyed l
      → Memᴰ (uid, e) l
      → IsSame l (mark_used now uid e p).by_uid
  unfolding mark_used
  mark_used-IsSame now uid e l p q u m =
      let used : Entry F = record e { last_used = now; used_seq = p.pick_seq + 1 } in
      subst (λ k. IsSame l (insert uid used k)) q
        (keys-insert uid used l (Mem-keys l m), insert-IsKeyed uid used l (Mem-All _ m u) u)

  pruned-IsKeyed :
      (now : ℕ) (l : Dict (Entry F))
      → IsKeyed l
      → IsKeyed (
          map
            (λ kv. (kv.0, prune_expired_model_costs now (prune_expired_model_cooldowns now kv.1)))
            l)
  unfolding prune_expired_model_costs prune_expired_model_cooldowns
  pruned-IsKeyed now [] u = tt
  pruned-IsKeyed now (kv ∷ rest) u = (u.0, pruned-IsKeyed now rest u.1)

  prune_all-IsSame :
      (now : ℕ) (p : Pool F) → IsKeyed p.by_uid → IsSame p.by_uid (prune_all now p).by_uid
  unfolding prune_all
  prune_all-IsSame now p u = (
    keys-map (λ e. prune_expired_model_costs now (prune_expired_model_cooldowns now e)) p.by_uid,
    pruned-IsKeyed now p.by_uid u,
  )

pick_earliest_expiry-IsSame :
    {F : Type 0} (now : ℕ) (tried : List String) (realm : String) (p : Pool F)
    → IsKeyed p.by_uid
    → IsSame p.by_uid (pick_earliest_expiry tried now realm p).0.by_uid
pick_earliest_expiry-IsSame now tried realm p u =
    elim (pick_earliest_expiry_lem p tried now realm) [
      | inl (q, _) ↦ subst (λ r. IsSame p.by_uid r.0.by_uid) (sym q) (refl, u)
      | inr (uid, e, first, q) ↦
          subst (λ r. IsSame p.by_uid r.0.by_uid) (sym q)
            (mark_used-IsSame now uid e p.by_uid p refl u first.member)
    ]

module _ {F : Type 0} (fl : Floats F) (shuffle : List (Weighted F) → List (Weighted F))
    (rnd : ℕ → ℕ) (perm : (xs : List (Weighted F)) → Permᴰ (shuffle xs) xs) where
  pub pick-IsSame :
      (now : ℕ) (tried : List String) (model realm : String) (p : Pool F)
      → IsKeyed p.by_uid
      → IsSame p.by_uid (pick fl shuffle rnd now tried model realm p).0.by_uid
  pick-IsSame now tried model realm p u =
      let pruned = prune_all now p in
      let same = prune_all-IsSame now p u in
      let after : IsSame pruned.by_uid (pick fl shuffle rnd now tried model realm p).0.by_uid =
        elim (pick_lem fl shuffle rnd now tried model realm perm p) [
          | inl (_, q) ↦
              subst (λ r. IsSame pruned.by_uid r.0.by_uid) (sym q)
                (pick_earliest_expiry-IsSame now tried realm pruned same.1)
          | inr (uid, e, m, may, tier, q) ↦
              subst (λ r. IsSame pruned.by_uid r.0.by_uid) (sym q)
                (mark_used-IsSame now uid e pruned.by_uid _
                  (sym (effective_tier-by_uid fl now model realm _ pruned)) same.1 m)
        ] in
      (after.0 ∙ same.0, after.1)

  -- An answer has a key of the pool that was not tried.
  pub pick-untried :
      (now : ℕ) (tried : List String) (model realm : String) (p : Pool F) (a : Auth)
      → IsKeyed p.by_uid
      → (pick fl shuffle rnd now tried model realm p).1 ≡ some a
      → Memᴰ a.uid (keys p.by_uid) × (is_tried tried a.uid ≡ false)
  pick-untried now tried model realm p a u got =
      let (uid, e, m, play, q) = pick-InPlay fl shuffle rnd now tried model realm p a perm got in
      let same = prune_all-IsSame now p u in
      let named : a.uid ≡ uid = ap (λ x. x.uid) q ∙ Mem-All (λ kv. kv.1.a.uid ≡ kv.0) m same.1 in
      (
        subst (λ k. Memᴰ k (keys p.by_uid)) (sym named)
            (subst (λ ks. Memᴰ uid ks) same.0 (Mem-keys _ m)),
        subst (λ k. is_tried tried k ≡ false) (sym named) play.untried,
      )
