-- ===== src/Pool/Persist/Restart.antt =====
-- persist.go: what an account is after its state was written and read back at a later start.
use workbuddy2plus_plugin.Base.{
  ℕ, ◌≤◌, String, ◌≡◌, refl, inl, inr, Bool, false, none, some, [], ◌∷◌, arith, str_eq, eq_iff,
  Bool-cases, Dict, lookup, HasUniqueKeys,
}
use workbuddy2plus_plugin.Pool.Types.{ModelCooldown}
use workbuddy2plus_plugin.Pool.Health.{model_cooled, healthy_for_model, healthy, pending}
use workbuddy2plus_plugin.Pool.Persist.{
  save_entry, load_entry, Entry, Floats, save_cooldowns, load_cooldowns,
}

-- The cooldown of a model in the table still holds.
abbrev holds_at : ℕ → String → Dict ModelCooldown → Bool
holds_at t m l = elim (lookup m l) [ none ↦ false | some mc ↦ pending t mc.until ]

reload_none :
    (now later : ℕ) (m : String) (l : Dict ModelCooldown)
    → lookup m l ≡ none
    → lookup m (load_cooldowns later (save_cooldowns now l)) ≡ none
unfolding lookup save_cooldowns load_cooldowns
reload_none now later m [] h = refl
reload_none now later m ((k, mc) ∷ rest) h = elim (Bool-cases (pending now mc.until)) [
  | inl y ↦ ground (arith, reload_none now later m rest)
  | inr n ↦ ground (arith, reload_none now later m rest)
]

reload-holds_at :
    (now later t : ℕ) (m : String) (l : Dict ModelCooldown)
    → now ≤ t
    → later ≤ t
    → HasUniqueKeys l
    → holds_at t m (load_cooldowns later (save_cooldowns now l)) ≡ holds_at t m l
unfolding lookup save_cooldowns load_cooldowns
reload-holds_at now later t m [] a b u = refl
reload-holds_at now later t m ((k, mc) ∷ rest) a b u = elim (Bool-cases (str_eq k m)) [
  | inl y ↦ ground (arith, eq_iff k m, reload_none now later m rest)
  | inr n ↦ ground (arith, reload-holds_at now later t m rest a b u.1)
]

module _ {F : Type 0} (fl : Floats F) (now later : ℕ) (uid : String) (e : Entry F) where
  abbrev pub restarted : Entry F
  restarted = load_entry fl later uid (save_entry now e)

  restarted-healthy : (t : ℕ) → now ≤ t → later ≤ t → healthy restarted t ≡ healthy e t
  unfolding healthy load_entry save_entry
  restarted-healthy t a b = ground arith

  restarted-model_cooled :
      (t : ℕ) (m : String)
      → now ≤ t
      → later ≤ t
      → HasUniqueKeys e.model_cooldowns
      → model_cooled restarted t m ≡ model_cooled e t m
  unfolding model_cooled load_entry save_entry
  restarted-model_cooled t m a b u =
      ground (arith, reload-holds_at now later t m e.model_cooldowns a b u)

  -- A restart changes nothing in what can be selected: from the time of the reload on, the account
  -- is selectable for a model, or for any, exactly when it would have been without the restart.
  -- Its balance, the manual stop, the automatic disabling, the deadline and the streak of its soft
  -- cooldown and the count of 12153 answers are what they were. The keys of the table of model
  -- cooldowns are distinct.
  pub load_entry-save_entry :
      HasUniqueKeys e.model_cooldowns
      → ((t : ℕ) (m : String)
          → now ≤ t
          → later ≤ t
          → healthy_for_model restarted t m ≡ healthy_for_model e t m)
        × (restarted.credits ≡ e.credits)
        × (restarted.manual_disabled ≡ e.manual_disabled)
        × (restarted.manual_reason ≡ e.manual_reason)
        × (restarted.disabled ≡ e.disabled)
        × (restarted.until ≡ e.until)
        × (restarted.soft_streak ≡ e.soft_streak)
        × (restarted.session_dead_fails ≡ e.session_dead_fails)
  unfolding healthy_for_model load_entry save_entry
  load_entry-save_entry u = (
    λ t m a b. rw (restarted-healthy t a b, restarted-model_cooled t m a b u) refl,
    refl,
    refl,
    refl,
    refl,
    refl,
    refl,
    refl,
  )
