-- ===== src/Pool/Health/Deadlines.antt =====
-- entry.go: what `healthy`, `healthyForModel` and `expiry` mean in terms of the deadlines.
use workbuddy2plus_plugin.Base.{
  ℕ, ◌≤◌, ◌<◌, ◌≡◌, ◌≢◌, ◌↔◌, ◌⊎◌, true, false, String, Option, none, some, arith, lookup, eq_iff,
}
use workbuddy2plus_plugin.Pool.Types.{Entry, ModelCooldown}
use workbuddy2plus_plugin.Pool.Health.{healthy, healthy_for_model, model_cooled, expiry}

-- Nothing keeps the account out at this time.
pub record IsFree {F : Type 0} (e : Entry F) (now : ℕ) : Type 0 where
  pub enabled : e.disabled ≡ false
  pub manually_enabled : e.manual_disabled ≡ false
  pub cooled_off : e.until ≤ now
  pub breaker_closed : e.breaker_until ≤ now
  pub not_degraded : e.degrade_until ≤ now

module _ {F : Type 0} (e : Entry F) (now : ℕ) where
  pub healthy-IsFree : healthy e now ≡ true → IsFree e now
  unfolding healthy
  healthy-IsFree h = ground arith

  pub IsFree-healthy : IsFree e now → healthy e now ≡ true
  unfolding healthy
  IsFree-healthy h = ground arith

-- An account is healthy exactly when it is neither disabled nor stopped by hand and none of its
-- three deadlines is still to come.
pub healthy_iff : {F : Type 0} (e : Entry F) (now : ℕ) → (healthy e now ≡ true) ↔ IsFree e now
healthy_iff e now = (healthy-IsFree e now, IsFree-healthy e now)

-- The deadline of the model's own cooldown, if there is one.
abbrev pub model_deadline : Option ModelCooldown → ℕ
model_deadline none = 0
model_deadline (some mc) = mc.until

module _ {F : Type 0} (e : Entry F) (now : ℕ) (model : String) where
  model_cooled-false :
      model_deadline (lookup model e.model_cooldowns) ≤ now → model_cooled e now model ≡ false
  unfolding model_cooled
  model_cooled-false h = ground arith

  model_cooled_deadline :
      model ≢ ""
      → model_cooled e now model ≡ false
      → model_deadline (lookup model e.model_cooldowns) ≤ now
  unfolding model_cooled
  model_cooled_deadline ne h = ground (arith, eq_iff model "")

-- For a model, an account is selectable exactly when it is free as a whole and the model's own
-- cooldown, if it has one, is over; the cooldowns of other models do not matter. The model's name
-- is not empty.
pub healthy_for_model_iff :
    {F : Type 0} (e : Entry F) (now : ℕ) (model : String)
    → model ≢ ""
    → (healthy_for_model e now model ≡ true)
      ↔ (IsFree e now × (model_deadline (lookup model e.model_cooldowns) ≤ now))
unfolding healthy_for_model
healthy_for_model_iff e now model ne = (
  λ h. ground (arith, healthy-IsFree e now, model_cooled_deadline e now model ne),
  λ h. ground (arith, IsFree-healthy e now, model_cooled-false e now model),
)

-- Time alone never makes an account unavailable: one that is selectable for a model stays so, as
-- long as nothing is reported about it.
pub healthy_for_model_mono :
    {F : Type 0} (e : Entry F) (now later : ℕ) (model : String)
    → now ≤ later
    → healthy_for_model e now model ≡ true
    → healthy_for_model e later model ≡ true
unfolding healthy_for_model model_cooled healthy
healthy_for_model_mono e now later model le h = ground arith

-- `t` is the first of the account's deadlines that are still to come.
pub record IsNext {F : Type 0} (e : Entry F) (now t : ℕ) : Type 0 where
  pub to_come : now < t
  pub is_deadline : (t ≡ e.until) ⊎ ((t ≡ e.breaker_until) ⊎ (t ≡ e.degrade_until))
  pub until_later : (e.until ≤ now) ⊎ (t ≤ e.until)
  pub breaker_later : (e.breaker_until ≤ now) ⊎ (t ≤ e.breaker_until)
  pub degrade_later : (e.degrade_until ≤ now) ⊎ (t ≤ e.degrade_until)

-- `expiry` answers the zero time exactly when all three deadlines have passed, and otherwise the
-- first of the deadlines that are still to come.
pub expiry_lem :
    {F : Type 0} (e : Entry F) (now : ℕ)
    → ((expiry e now ≡ 0) × (e.until ≤ now) × (e.breaker_until ≤ now) × (e.degrade_until ≤ now))
      ⊎ IsNext e now (expiry e now)
unfolding expiry
expiry_lem e now = ground arith

-- An account that is not disabled is either healthy or has a next deadline, and not both.
pub expiry-healthy :
    {F : Type 0} (e : Entry F) (now : ℕ)
    → e.disabled ≡ false
    → e.manual_disabled ≡ false
    → (healthy e now ≡ true) ↔ (expiry e now ≡ 0)
unfolding healthy expiry
expiry-healthy e now d m = (λ h. ground arith, λ h. ground arith)
