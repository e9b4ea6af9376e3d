-- ===== src/Pool/Persist.antt =====
-- internal/pool/persist.go and pool.go: what of the pool's state is written to state.json and read
-- back, and the alignment of the pool with the credentials. JSON text and files are left out: the
-- functions stop at the value that is encoded.
pub mod Restart
use workbuddy2plus_plugin.Base.{
  ℕ, ℤ, pos, ltb_ℤ, Bool, false, not, ◌||◌, String, Option, none, some, [], ◌∷◌, ltb, ◌==◌,
  if◌then◌else◌, Dict, insert, keep, map,
}
use workbuddy2plus_plugin.Pool.Types.{
  CoolKind, cool_hard, ModelCooldown, ModelCostEntry, Entry, Pool,
}
use workbuddy2plus_plugin.Pool.Floats.{Floats}
use workbuddy2plus_plugin.Pool.Health.{pending, is_stale}

pub record StateModelCooldown : Type 0 where
  pub until : ℕ
  pub reset_at : ℕ
  pub reason : String

-- The pointers `*time.Time` are options. The row of a cost is the runtime's, field for field.
pub record StateAccount (F : Type 0) : Type 0 where
  pub credits : ℤ
  pub disabled : Bool
  pub reason : String
  pub manual_disabled : Bool
  pub manual_reason : String
  pub until : ℕ
  pub cool_kind : CoolKind
  pub success_count : ℕ
  pub err_total : ℕ
  pub err_count : ℕ
  pub last_success : ℕ
  pub last_err : ℕ
  pub soft_streak : ℕ
  pub session_dead_fails : ℕ
  pub consecutive_fails : ℕ
  pub degrade_until : Option ℕ
  pub breaker_until : Option ℕ
  pub retry_count : ℕ
  pub credits_expiring : ℤ
  pub model_cooldowns : Dict StateModelCooldown
  pub model_costs : Dict (ModelCostEntry F)

abbrev pub save_cooldown : ModelCooldown → StateModelCooldown
save_cooldown mc = record { until = mc.until; reset_at = mc.reset_at; reason = mc.reason }

abbrev pub load_cooldown : StateModelCooldown → ModelCooldown
load_cooldown s = record { until = s.until; reset_at = s.reset_at; reason = s.reason; hits = 0 }

-- The rows whose deadline is still to come.
unfoldable pub save_cooldowns : ℕ → Dict ModelCooldown → Dict StateModelCooldown
save_cooldowns now [] = []
save_cooldowns now ((m, mc) ∷ rest) =
    if pending now mc.until
    then (m, save_cooldown mc) ∷ save_cooldowns now rest
    else save_cooldowns now rest

unfoldable pub load_cooldowns : ℕ → Dict StateModelCooldown → Dict ModelCooldown
load_cooldowns now [] = []
load_cooldowns now ((m, s) ∷ rest) =
    if pending now s.until
    then (m, load_cooldown s) ∷ load_cooldowns now rest
    else load_cooldowns now rest

-- A pointer to a deadline that is still to come, or nil.
abbrev pub save_deadline : ℕ → ℕ → Option ℕ
save_deadline now t = if pending now t then some t else none

-- `s != nil && !s.IsZero() && now.Before(*s)`
abbrev pub deadline_holds : ℕ → Option ℕ → Bool
deadline_holds now none = false
deadline_holds now (some t) = pending now t

abbrev pub load_deadline : ℕ → Option ℕ → ℕ
load_deadline now none = 0
load_deadline now (some t) = if pending now t then t else 0

-- `creditsExpiring` within [0, credits], as far as the credits allow it.
abbrev pub clamp_expiring : ℤ → ℤ → ℤ
clamp_expiring credits expiring =
    let nonneg = if ltb_ℤ expiring (pos 0) then pos 0 else expiring in
    if ltb_ℤ credits nonneg then credits else nonneg

module _ {F : Type 0} where
  unfoldable pub cooled_reason : Entry F → ℕ → CoolKind × String
  cooled_reason e now =
      if e.disabled || pending now e.until then (e.cool_kind, e.reason) else (cool_hard, "")

  unfoldable pub save_entry : ℕ → Entry F → StateAccount F
  unfolding cooled_reason save_cooldowns
  save_entry now e = record {
    credits = e.credits;
    disabled = e.disabled;
    reason = (cooled_reason e now).1;
    manual_disabled = e.manual_disabled;
    manual_reason = e.manual_reason;
    until = e.until;
    cool_kind = (cooled_reason e now).0;
    success_count = e.success_count;
    err_total = e.err_total;
    err_count = 0;
    last_success = e.last_success;
    last_err = e.last_err;
    soft_streak = e.soft_streak;
    session_dead_fails = e.session_dead_fails;
    consecutive_fails = e.consecutive_fails;
    degrade_until = save_deadline now e.degrade_until;
    breaker_until = save_deadline now e.breaker_until;
    retry_count = if pending now e.breaker_until then e.retry_count else 0;
    credits_expiring = e.credits_expiring;
    model_cooldowns = save_cooldowns now e.model_cooldowns;
    model_costs = keep (λ kv. not (is_stale now kv.1)) e.model_cost;
  }

  -- `stateOverviewLocked`
  unfoldable pub state_overview : ℕ → Pool F → Dict (StateAccount F)
  unfolding save_entry
  state_overview now p = map (λ kv. (kv.0, save_entry now kv.1)) p.by_uid

module _ {F : Type 0} (fl : Floats F) where
  open fl use {ratio, lt}

  abbrev pub keep_cost : ℕ → String × ModelCostEntry F → Bool
  keep_cost now (m, mc) =
      if mc.last_seen == 0 || lt mc.cost_per_1k (ratio 0 1) then false else not (is_stale now mc)

  -- The account that one row of the file makes.
  unfoldable pub load_entry : ℕ → String → StateAccount F → Entry F
  unfolding load_cooldowns
  load_entry now uid s = record {
    a = record { uid = uid; nickname = ""; realm = "cn" };
    credits = s.credits;
    credits_expiring = clamp_expiring s.credits s.credits_expiring;
    success_count = s.success_count;
    err_total = if ltb s.err_total s.err_count then s.err_count else s.err_total;
    last_err = s.last_err;
    last_success = s.last_success;
    cool_kind = s.cool_kind;
    until = s.until;
    disabled = s.disabled;
    reason = s.reason;
    manual_disabled = s.manual_disabled;
    manual_reason = s.manual_reason;
    last_used = 0;
    used_seq = 0;
    breaker_until = load_deadline now s.breaker_until;
    fails = 0;
    retry_count = if deadline_holds now s.breaker_until then s.retry_count else 0;
    soft_streak = s.soft_streak;
    model_cooldowns = load_cooldowns now s.model_cooldowns;
    session_dead_fails = s.session_dead_fails;
    consecutive_fails = s.consecutive_fails;
    degrade_until = load_deadline now s.degrade_until;
    in_flight = 0;
    model_cost = keep (keep_cost now) s.model_costs;
  }

  unfoldable pub apply_accounts : ℕ → Dict (StateAccount F) → Dict (Entry F) → Dict (Entry F)
  unfolding load_entry
  apply_accounts now [] by_uid = by_uid
  apply_accounts now ((uid, s) ∷ rest) by_uid =
      apply_accounts now rest (insert uid (load_entry now uid s) by_uid)
