-- ===== src/Pool/State/Laws.antt =====
-- state.go: the automatic and the manual disabling of an account, and how they are undone.
use workbuddy2plus_plugin.Base.{
  ℕ, zero, suc, String, ◌≡◌, refl, inl, inr, Bool, true, false, some, [], arith, eq_iff, Bool-cases,
  lookup,
}
use workbuddy2plus_plugin.Pool.Types.{cool_hard, Entry, Pool, update_entry, session_dead_reason}
use workbuddy2plus_plugin.Pool.Cooldown.{set_manual_disabled_locked}
use workbuddy2plus_plugin.Pool.Types.Update.{lookup-update_entry}
use workbuddy2plus_plugin.Pool.State.{set_manual_disabled, manual_unchanged, session_dead_entry}

-- The number of 12153 answers in a row.
module _ {F : Type 0} where
  pub deaths : ℕ → Entry F → Entry F
  deaths zero e = e
  deaths (suc n) e = deaths n (session_dead_entry e).0

  -- One or two 12153 answers in a row disable nothing and only count. The third disables the
  -- account, says so, clears its cooldowns and restarts the count; the breaker stays as it is.
  pub deaths-disable :
      (e : Entry F)
      → e.session_dead_fails ≡ 0
      → (deaths 1 e ≡ record e { session_dead_fails = 1 })
        × (deaths 2 e ≡ record e { session_dead_fails = 2 })
        × ((session_dead_entry (deaths 2 e)).1 ≡ true)
        × (deaths 3 e ≡ record e {
          disabled = true;
          reason = session_dead_reason;
          session_dead_fails = 0;
          until = 0;
          cool_kind = cool_hard;
          soft_streak = 0;
          model_cooldowns = [];
        })
  unfolding deaths session_dead_entry
  deaths-disable e h = (ground arith, ground arith, ground arith, ground arith)

module _ {F : Type 0} (uid reason : String) (stop : Bool) (p : Pool F) (e : Entry F)
    (at : lookup uid p.by_uid ≡ some e) where
  -- The manual switch of a known account takes effect, and touches no field of the account but the
  -- stop and its reason: not the automatic disabling, nor a cooldown, the breaker or the demotion.
  -- To switch the same way again finds the account and changes nothing.
  pub set_manual_disabled_lem :
      let r = set_manual_disabled uid stop reason p in
      ((e' : Entry F) × (lookup uid r.0.by_uid ≡ some e')
        × (e'.manual_disabled ≡ stop)
        × (stop ≡ true → e'.manual_reason ≡ reason)
        × (e'
            ≡ record e { manual_disabled = e'.manual_disabled; manual_reason = e'.manual_reason }))
      × (r.1 ≡ true)
      × (set_manual_disabled uid stop reason r.0 ≡ (r.0, true, false))
  unfolding set_manual_disabled set_manual_disabled_locked
  set_manual_disabled_lem = elim (Bool-cases (manual_unchanged stop reason e)) [
    | inl y ↦ (
      (e, ground arith, ground arith, ground (arith, eq_iff e.manual_reason reason), refl),
      ground arith,
      ground arith,
    )
    | inr n ↦
        let e' = set_manual_disabled_locked stop reason e in
        let found : lookup uid (update_entry uid (set_manual_disabled_locked stop reason) p).by_uid
            ≡ some e' =
          ground (
            arith,
            lookup-update_entry uid uid (set_manual_disabled_locked stop reason) p,
            eq_iff uid uid,
          ) in
        (
          (e', ground (arith, found), ground arith, ground arith, ground arith),
          ground arith,
          ground (arith, found, eq_iff reason reason),
        )
  ]
