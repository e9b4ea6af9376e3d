-- ===== src/Pool/Events/Manual.antt =====
-- internal/pool: the manual stop of an account through runs of events, and the selection after.
use workbuddy2plus_plugin.Pool.Events.{Event, run, apply}
use mathlib.Core.List.{Permᴰ}
use workbuddy2plus_plugin.Base.{
  ℕ, String, ◌≡◌, refl, sym, ap, ◌∙◌, ◌≢◌, inl, inr, true, none, some, List, [], ◌∷◌, arith,
  Option-cases, Dict, lookup, HasUniqueKeys, lookup-Mem,
}
use workbuddy2plus_plugin.Pool.Types.{Auth, Entry, Pool}
use workbuddy2plus_plugin.Pool.Floats.{Floats}
use workbuddy2plus_plugin.Pool.Cooldown.{
  disable_locked, cool_entry, soft_for_model_entry, soft_rate_entry, cooldown,
  cooldown_soft_for_model, cooldown_soft_rate,
}
use workbuddy2plus_plugin.Pool.Breaker.{
  error_entry, failure_entry, success_entry, note_error, note_failures, note_success,
}
use workbuddy2plus_plugin.Pool.State.{
  disable, reenable_if_credits, set_credits, set_credits_detailed, reenable_entry, credits_entry,
}
use workbuddy2plus_plugin.Pool.Pick.Weights.{Weighted}
use mathlib.Core.Option.{some-injective}
use mathlib.Core.Option
use workbuddy2plus_plugin.Pool.Health.{healthy, healthy_for_model}
use workbuddy2plus_plugin.Pool.State.{manual_disabled_state}
use workbuddy2plus_plugin.Pool.Pick.{pick, pick_by_uid_for_model, prune_all}
use workbuddy2plus_plugin.Pool.Pick.Safety.{pick-InPlay}
use workbuddy2plus_plugin.Pool.Events.Kept.{
  stop_of, stop_at, prune_all-IsKept, IsKept, update-IsKept, trans-IsKept, refl-IsKept,
  acquire-IsKept, release-IsKept, note_session_dead-IsKept, clear_session_dead-IsKept,
  revive_disabled-IsKept, block_model_clear-IsKept, block_model_backoff-IsKept,
  pick_by_uid_for_model-IsKept, note_model_cost-IsKept, pick-IsKept,
}

module _ {F : Type 0} (fl : Floats F) (shuffle : List (Weighted F) → List (Weighted F))
    (rnd : ℕ → ℕ) (perm : (xs : List (Weighted F)) → Permᴰ (shuffle xs) xs) where
  apply-IsKept :
      (now : ℕ) (ev : Event F) (p : Pool F)
      → HasUniqueKeys p.by_uid
      → IsKept p.by_uid (apply fl shuffle rnd now ev p).by_uid
  unfolding apply disable_locked cool_entry soft_for_model_entry soft_rate_entry error_entry
      failure_entry success_entry reenable_entry credits_entry note_error note_failures note_success
      disable reenable_if_credits set_credits set_credits_detailed cooldown cooldown_soft_for_model
      cooldown_soft_rate
  apply-IsKept now (Event.acquires uid) p u = acquire-IsKept uid p u
  apply-IsKept now (Event.releases uid) p u = release-IsKept uid p u
  apply-IsKept now (Event.session_dies uid) p u = note_session_dead-IsKept uid p u
  apply-IsKept now (Event.session_lives uid) p u = clear_session_dead-IsKept uid p u
  apply-IsKept now (Event.revives uid) p u = revive_disabled-IsKept uid p u
  apply-IsKept now (Event.errs uid) p u =
      update-IsKept uid (error_entry p now) p u (λ x. ground arith)
  apply-IsKept now (Event.fails uid) p u =
      update-IsKept uid (failure_entry p now) p u (λ x. ground arith)
  apply-IsKept now (Event.succeeds uid) p u = update-IsKept uid (success_entry now) p u (λ x. refl)
  apply-IsKept now (Event.disables uid reason) p u =
      update-IsKept uid (disable_locked reason) p u (λ x. refl)
  apply-IsKept now (Event.reenables uid n) p u =
      update-IsKept uid (reenable_entry n) p u (λ x. ground arith)
  apply-IsKept now (Event.credits uid n) p u = update-IsKept uid _ p u (λ x. refl)
  apply-IsKept now (Event.credits_detailed uid n x) p u =
      update-IsKept uid (credits_entry n x) p u (λ x. refl)
  apply-IsKept now (Event.cools uid kind d reason) p u =
      update-IsKept uid (cool_entry now kind d reason) p u (λ x. refl)
  apply-IsKept now (Event.limits_model uid base reset_at model reason) p u =
      update-IsKept uid (soft_for_model_entry p now base reset_at model reason) p u
        (λ x. ground arith)
  apply-IsKept now (Event.limits uid base reset_at reason) p u =
      update-IsKept uid (soft_rate_entry p now base reset_at reason) p u (λ x. ground arith)
  apply-IsKept now (Event.blocks uid model reason) p u =
      block_model_backoff-IsKept now uid model reason p u
  apply-IsKept now (Event.unblocks uid model) p u = block_model_clear-IsKept uid model p u
  apply-IsKept now (Event.costs uid model credit tokens) p u =
      note_model_cost-IsKept fl now uid model credit tokens p u
  apply-IsKept now (Event.picks tried model realm) p u =
      pick-IsKept fl shuffle rnd perm now tried model realm p u
  apply-IsKept now (Event.picks_uid uid model) p u = pick_by_uid_for_model-IsKept now uid model p u

  run-IsKept :
      (evs : List (ℕ × Event F)) (p : Pool F)
      → HasUniqueKeys p.by_uid
      → IsKept p.by_uid (run fl shuffle rnd evs p).by_uid
  unfolding run
  run-IsKept [] p u = refl-IsKept p.by_uid u
  run-IsKept ((now, ev) ∷ evs) p u =
      let first = apply-IsKept now ev p u in
      trans-IsKept p.by_uid _ _ first (run-IsKept evs (apply fl shuffle rnd now ev p) first.0)

  state_at : (j : String) (p : Pool F) → manual_disabled_state j p ≡ stop_at j p.by_uid
  unfolding manual_disabled_state
  state_at j p = elim (Option-cases (lookup j p.by_uid)) [
    | inl a ↦ rw (a, manual_disabled_state) refl
    | inr (e, a) ↦ rw (a, manual_disabled_state) refl
  ]

  -- No answer of the upstream, no check of the balance, no revival, lease or selection, in whatever
  -- order and number, changes whether an account is stopped by hand, or why; and the pool keeps at
  -- most one account for each key. The shuffle of the selection is a permutation.
  pub run-manual_disabled_state :
      (evs : List (ℕ × Event F)) (p : Pool F)
      → HasUniqueKeys p.by_uid
      → HasUniqueKeys (run fl shuffle rnd evs p).by_uid
        × ((uid : String)
            → manual_disabled_state uid (run fl shuffle rnd evs p) ≡ manual_disabled_state uid p)
  run-manual_disabled_state evs p u =
      let kept = run-IsKept evs p u in
      (kept.0, λ uid. state_at uid (run fl shuffle rnd evs p) ∙ kept.1 uid ∙ sym (state_at uid p))

  stopped_by_uid :
      (now : ℕ) (uid model reason : String) (p : Pool F)
      → manual_disabled_state uid p ≡ some (true, reason)
      → (pick_by_uid_for_model now uid model p).1 ≡ none
  unfolding manual_disabled_state pick_by_uid_for_model healthy_for_model healthy
  stopped_by_uid now uid model reason p h = ground arith

  stopped_clash :
      (uid reason : String) (e : Entry F) (l : Dict (Entry F))
      → stop_at uid l ≡ some (true, reason)
      → lookup uid l ≡ some e
      → e.manual_disabled ≡ true
  stopped_clash uid reason e l h at =
      ap (λ x. x.0) (some-injective _ _ (sym (ap (Option.map stop_of) at) ∙ h))

  -- An account that is stopped by hand is never selected, whatever has happened since: the sticky
  -- selection refuses it, and any other selection answers, if at all, an account with another key.
  -- The shuffle of the selection is a permutation, and no key stood twice when it was stopped.
  pub stopped-never_picked :
      (evs : List (ℕ × Event F)) (p : Pool F) (stopped reason : String)
      → HasUniqueKeys p.by_uid
      → manual_disabled_state stopped p ≡ some (true, reason)
      → (now : ℕ) (tried : List String) (model realm : String)
      → let after = run fl shuffle rnd evs p in
        ((pick_by_uid_for_model now stopped model after).1 ≡ none)
        × ((a : Auth)
            → (pick fl shuffle rnd now tried model realm after).1 ≡ some a
            → (uid : String) × (e : Entry F) × (lookup uid (prune_all now after).by_uid ≡ some e)
              × (a ≡ e.a)
              × (uid ≢ stopped))
  stopped-never_picked evs p stopped reason u h now tried model realm =
      let after = run fl shuffle rnd evs p in
      let kept = run-manual_disabled_state evs p u in
      let pruned = prune_all-IsKept now after kept.0 in
      (
        stopped_by_uid now stopped model reason after (kept.1 stopped ∙ h),
        λ a got.
            let (uid, e, m, play, q) =
              pick-InPlay fl shuffle rnd now tried model realm after a perm got in
            let at = lookup-Mem uid e _ pruned.0 m in
            (
              uid,
              e,
              at,
              q,
              λ same. cc (
                play.manually_enabled,
                stopped_clash uid reason e _
                    (pruned.1 uid
                      ∙ sym (state_at uid after)
                      ∙ kept.1 uid
                      ∙ ap (λ x. manual_disabled_state x p) same
                      ∙ h)
                    at,
              ),
            ),
      )
