-- ===== src/Pool/Events/Kept.antt =====
-- internal/pool: what the operations of the events leave as it was, one by one: that no account
-- stands twice, and who is stopped by hand.
use mathlib.Core.Option
use mathlib.Core.List.{Memᴰ, Permᴰ}
use mathlib.Core.Path.{subst}
use workbuddy2plus_plugin.Base.{
  ℕ, ◌+◌, ◌-◌, String, ◌≡◌, refl, sym, ap, ◌∙◌, inl, inr, Bool, Option, some, List, arith, str_eq,
  eq_iff, Bool-cases, Option-cases, ℤ, Dict, lookup, insert, lookup-insert, HasUniqueKeys,
  HasUniqueKeys-insert, lookup-Mem, lookup-map, HasUniqueKeys-map,
}
use workbuddy2plus_plugin.Pool.Types.{Entry, Pool, update_entry}
use workbuddy2plus_plugin.Pool.Floats.{Floats}
use workbuddy2plus_plugin.Pool.Health.{prune_expired_model_costs, prune_expired_model_cooldowns}
use workbuddy2plus_plugin.Pool.Block.{
  block_model_backoff, block_model_clear, block_entry, unblock_entry,
}
use workbuddy2plus_plugin.Pool.State.{
  note_session_dead, clear_session_dead, revive_disabled, session_dead_entry, revive_entry,
}
use workbuddy2plus_plugin.Pool.Lease.{acquire, release, put_in_flight}
use workbuddy2plus_plugin.Pool.Cost.{note_model_cost, cost_entry, deduct}
use workbuddy2plus_plugin.Pool.Pick.Fallback.{mark_used, pick_earliest_expiry}
use workbuddy2plus_plugin.Pool.Pick.Weights.{Weighted}
use workbuddy2plus_plugin.Pool.Pick.Fallback.Earliest.{pick_earliest_expiry_lem}
use workbuddy2plus_plugin.Pool.Pick.Outcome.{pick_lem}
use workbuddy2plus_plugin.Pool.Pick.{effective_tier, pick, pick_by_uid_for_model, prune_all}

module _ {F : Type 0} where
  abbrev pub stop_of : Entry F → Bool × String
  stop_of e = (e.manual_disabled, e.manual_reason)

  abbrev pub stop_at : String → Dict (Entry F) → Option (Bool × String)
  stop_at j l = Option.map stop_of (lookup j l)

  -- The accounts of the second map are unique, and stopped by hand as in the first.
  abbrev pub IsKept : Dict (Entry F) → Dict (Entry F) → Type 0
  IsKept l k = HasUniqueKeys k × ((j : String) → stop_at j k ≡ stop_at j l)

  pub refl-IsKept : (l : Dict (Entry F)) → HasUniqueKeys l → IsKept l l
  refl-IsKept l u = (u, λ j. refl)

  pub trans-IsKept : (l k m : Dict (Entry F)) → IsKept l k → IsKept k m → IsKept l m
  trans-IsKept l k m a b = (b.0, λ j. b.1 j ∙ a.1 j)

  pub insert-IsKept :
      (uid : String) (e e' : Entry F) (l : Dict (Entry F))
      → HasUniqueKeys l
      → lookup uid l ≡ some e
      → stop_of e' ≡ stop_of e
      → IsKept l (insert uid e' l)
  insert-IsKept uid e e' l u at same = (
    HasUniqueKeys-insert uid e' l u,
    λ j. rw lookup-insert (elim (Bool-cases (str_eq uid j)) [
      | inl y ↦
          rw (y, same)
            (ap (Option.map stop_of)
              (sym (subst (λ x. lookup x l ≡ some e) ((eq_iff uid j).0 y) at)))
      | inr n ↦ rw n refl
    ]),
  )

  pub update-IsKept :
      (uid : String) (f : Entry F → Entry F) (p : Pool F)
      → HasUniqueKeys p.by_uid
      → ((e : Entry F) → stop_of (f e) ≡ stop_of e)
      → IsKept p.by_uid (update_entry uid f p).by_uid
  unfolding update_entry
  update-IsKept uid f p u same = elim (Option-cases (lookup uid p.by_uid)) [
    | inl a ↦ rw (a, update_entry) (refl-IsKept p.by_uid u)
    | inr (e, a) ↦ rw (a, update_entry) (insert-IsKept uid e (f e) p.by_uid u a (same e))
  ]

  pub mark_used-IsKept :
      (now : ℕ) (uid : String) (e : Entry F) (l : Dict (Entry F)) (p : Pool F)
      → l ≡ p.by_uid
      → HasUniqueKeys l
      → Memᴰ (uid, e) l
      → IsKept l (mark_used now uid e p).by_uid
  unfolding mark_used
  mark_used-IsKept now uid e l p q u m =
      let used : Entry F = record e { last_used = now; used_seq = p.pick_seq + 1 } in
      subst (λ k. IsKept l (insert uid used k)) q
        (insert-IsKept uid e used l u (lookup-Mem uid e l u m) refl)

  pub prune_all-IsKept :
      (now : ℕ) (p : Pool F) → HasUniqueKeys p.by_uid → IsKept p.by_uid (prune_all now p).by_uid
  unfolding prune_all prune_expired_model_costs prune_expired_model_cooldowns
  prune_all-IsKept now p u = (
    HasUniqueKeys-map _ p.by_uid u,
    λ j.
        ap (Option.map stop_of) (
          lookup-map (λ e. prune_expired_model_costs now (prune_expired_model_cooldowns now e)) j
            p.by_uid)
        ∙ elim (Option-cases (lookup j p.by_uid)) [ inl a ↦ rw a refl | inr (e, a) ↦ rw a refl ],
  )

  pub acquire-IsKept :
      (uid : String) (p : Pool F)
      → HasUniqueKeys p.by_uid
      → IsKept p.by_uid (acquire uid p).0.by_uid
  unfolding acquire
  acquire-IsKept uid p u = elim (Option-cases (lookup uid p.by_uid)) [
    | inl a ↦ rw (a, acquire) (refl-IsKept p.by_uid u)
    | inr (e, a) ↦
        let kept : IsKept p.by_uid (put_in_flight uid e (e.in_flight + 1) p).by_uid =
          insert-IsKept uid e (record e { in_flight = e.in_flight + 1 }) p.by_uid u a refl in
        ground (arith, kept, refl-IsKept p.by_uid u)
  ]

  pub release-IsKept :
      (uid : String) (p : Pool F) → HasUniqueKeys p.by_uid → IsKept p.by_uid (release uid p).by_uid
  unfolding release
  release-IsKept uid p u = elim (Option-cases (lookup uid p.by_uid)) [
    | inl a ↦ rw (a, release) (refl-IsKept p.by_uid u)
    | inr (e, a) ↦
        let kept : IsKept p.by_uid (put_in_flight uid e (e.in_flight - 1) p).by_uid =
          insert-IsKept uid e (record e { in_flight = e.in_flight - 1 }) p.by_uid u a refl in
        ground (arith, kept, refl-IsKept p.by_uid u)
  ]

  pub note_session_dead-IsKept :
      (uid : String) (p : Pool F)
      → HasUniqueKeys p.by_uid
      → IsKept p.by_uid (note_session_dead uid p).0.by_uid
  unfolding note_session_dead session_dead_entry
  note_session_dead-IsKept uid p u = elim (Option-cases (lookup uid p.by_uid)) [
    | inl a ↦ rw (a, note_session_dead) (refl-IsKept p.by_uid u)
    | inr (e, a) ↦ rw (a, note_session_dead) (update-IsKept uid _ p u (λ x. ground arith))
  ]

  pub clear_session_dead-IsKept :
      (uid : String) (p : Pool F)
      → HasUniqueKeys p.by_uid
      → IsKept p.by_uid (clear_session_dead uid p).by_uid
  unfolding clear_session_dead
  clear_session_dead-IsKept uid p u = ground (
    arith,
    refl-IsKept p.by_uid u,
    update-IsKept uid (λ x. record x { session_dead_fails = 0 }) p u (λ x. refl),
  )

  pub revive_disabled-IsKept :
      (uid : String) (p : Pool F)
      → HasUniqueKeys p.by_uid
      → IsKept p.by_uid (revive_disabled uid p).0.by_uid
  unfolding revive_disabled revive_entry
  revive_disabled-IsKept uid p u =
      ground (arith, refl-IsKept p.by_uid u, update-IsKept uid revive_entry p u (λ x. refl))

  pub block_model_clear-IsKept :
      (uid model : String) (p : Pool F)
      → HasUniqueKeys p.by_uid
      → IsKept p.by_uid (block_model_clear uid model p).by_uid
  unfolding block_model_clear
  block_model_clear-IsKept uid model p u =
      ground
        (arith, refl-IsKept p.by_uid u, update-IsKept uid (unblock_entry model) p u (λ x. refl))

  pub block_model_backoff-IsKept :
      (now : ℕ) (uid model reason : String) (p : Pool F)
      → HasUniqueKeys p.by_uid
      → IsKept p.by_uid (block_model_backoff now uid model reason p).by_uid
  unfolding block_model_backoff block_entry
  block_model_backoff-IsKept now uid model reason p u = ground (
    arith,
    refl-IsKept p.by_uid u,
    update-IsKept uid (block_entry now model reason) p u (λ x. refl),
  )

  pub pick_by_uid_for_model-IsKept :
      (now : ℕ) (uid model : String) (p : Pool F)
      → HasUniqueKeys p.by_uid
      → IsKept p.by_uid (pick_by_uid_for_model now uid model p).0.by_uid
  unfolding pick_by_uid_for_model mark_used
  pick_by_uid_for_model-IsKept now uid model p u = elim (Option-cases (lookup uid p.by_uid)) [
    | inl a ↦ rw (a, pick_by_uid_for_model) (refl-IsKept p.by_uid u)
    | inr (e, a) ↦
        let used : Entry F = record e { last_used = now; used_seq = p.pick_seq + 1 } in
        ground (arith, refl-IsKept p.by_uid u, insert-IsKept uid e used p.by_uid u a refl)
  ]

module _ {F : Type 0} (fl : Floats F) where
  pub note_model_cost-IsKept :
      (now : ℕ) (uid model : String) (credit : F) (tokens : ℤ) (p : Pool F)
      → HasUniqueKeys p.by_uid
      → IsKept p.by_uid (note_model_cost fl now uid model credit tokens p).by_uid
  unfolding note_model_cost cost_entry deduct
  note_model_cost-IsKept now uid model credit tokens p u = ground (
    arith,
    refl-IsKept p.by_uid u,
    update-IsKept uid (cost_entry fl now model credit tokens) p u (λ x. ground arith),
  )

  pub effective_tier-by_uid :
      (now : ℕ) (model realm : String) (l : Dict (Entry F)) (p : Pool F)
      → (effective_tier fl now model realm l p).1.by_uid ≡ p.by_uid
  unfolding effective_tier
  effective_tier-by_uid now model realm l p = ground arith

pub pick_earliest_expiry-IsKept :
    {F : Type 0} (now : ℕ) (tried : List String) (realm : String) (p : Pool F)
    → HasUniqueKeys p.by_uid
    → IsKept p.by_uid (pick_earliest_expiry tried now realm p).0.by_uid
pick_earliest_expiry-IsKept now tried realm p u =
    elim (pick_earliest_expiry_lem p tried now realm) [
      | inl (q, _) ↦ subst (λ r. IsKept p.by_uid r.0.by_uid) (sym q) (refl-IsKept p.by_uid u)
      | inr (uid, e, first, q) ↦
          subst (λ r. IsKept p.by_uid r.0.by_uid) (sym q)
            (mark_used-IsKept now uid e p.by_uid p refl u first.member)
    ]

module _ {F : Type 0} (fl : Floats F) (shuffle : List (Weighted F) → List (Weighted F))
    (rnd : ℕ → ℕ) (perm : (xs : List (Weighted F)) → Permᴰ (shuffle xs) xs) where
  pub pick-IsKept :
      (now : ℕ) (tried : List String) (model realm : String) (p : Pool F)
      → HasUniqueKeys p.by_uid
      → IsKept p.by_uid (pick fl shuffle rnd now tried model realm p).0.by_uid
  pick-IsKept now tried model realm p u =
      let pruned = prune_all now p in
      let kept = prune_all-IsKept now p u in
      trans-IsKept p.by_uid pruned.by_uid _ kept
        (elim (pick_lem fl shuffle rnd now tried model realm perm p) [
          | inl (_, q) ↦
              subst (λ r. IsKept pruned.by_uid r.0.by_uid) (sym q)
                (pick_earliest_expiry-IsKept now tried realm pruned kept.0)
          | inr (uid, e, m, may, tier, q) ↦
              subst (λ r. IsKept pruned.by_uid r.0.by_uid) (sym q)
                (mark_used-IsKept now uid e pruned.by_uid _
                  (sym (effective_tier-by_uid fl now model realm _ pruned)) kept.0 m)
        ])
