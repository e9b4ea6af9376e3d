-- ===== src/Pool/Types.antt =====
-- internal/pool/entry.go and pool.go: the state of an account and of the pool, the constants, and
-- the setters. A time is the number of nanoseconds since Go's zero time, so 0 is `time.Time{}` and
-- `t.Before(u)` is `ltb t u`; a duration is a number of nanoseconds.
pub mod Update
use workbuddy2plus_plugin.Base.{
  ℕ, zero, suc, ◌*◌, ℤ, pos, negsuc, Bool, true, false, String, none, some, [], Dict, lookup,
  insert,
}

-- What the pool reads of `auth.Auth`. `realm` is the answer of `Realm()`.
pub record Auth : Type 0 where
  pub uid : String
  pub nickname : String
  pub realm : String

pub data CoolKind : Type 0 where
  cool_hard cool_soft : CoolKind

abbrev pub is_hard : CoolKind → Bool
is_hard cool_hard = true
is_hard cool_soft = false

abbrev pub is_soft : CoolKind → Bool
is_soft cool_hard = false
is_soft cool_soft = true

pub record ModelCooldown : Type 0 where
  pub until : ℕ
  pub reset_at : ℕ
  pub reason : String
  pub hits : ℕ

pub record ModelCostEntry (F : Type 0) : Type 0 where
  pub cost_per_1k : F
  pub last_seen : ℕ
  pub samples : ℕ

pub record Entry (F : Type 0) : Type 0 where
  pub a : Auth
  pub credits : ℤ
  pub credits_expiring : ℤ
  pub success_count : ℕ
  pub err_total : ℕ
  pub last_err : ℕ
  pub last_success : ℕ
  pub cool_kind : CoolKind
  pub until : ℕ
  pub disabled : Bool
  pub reason : String
  pub manual_disabled : Bool
  pub manual_reason : String
  pub last_used : ℕ
  pub used_seq : ℕ
  pub breaker_until : ℕ
  pub fails : ℕ
  pub retry_count : ℕ
  pub soft_streak : ℕ
  pub model_cooldowns : Dict ModelCooldown
  pub session_dead_fails : ℕ
  pub consecutive_fails : ℕ
  pub degrade_until : ℕ
  pub in_flight : ℕ
  pub model_cost : Dict (ModelCostEntry F)

-- `&entry{a: a}`
unfoldable pub new_entry : {F : Type 0} → Auth → Entry F
new_entry a = record {
  a = a;
  credits = pos 0;
  credits_expiring = pos 0;
  success_count = 0;
  err_total = 0;
  last_err = 0;
  last_success = 0;
  cool_kind = cool_hard;
  until = 0;
  disabled = false;
  reason = "";
  manual_disabled = false;
  manual_reason = "";
  last_used = 0;
  used_seq = 0;
  breaker_until = 0;
  fails = 0;
  retry_count = 0;
  soft_streak = 0;
  model_cooldowns = [];
  session_dead_fails = 0;
  consecutive_fails = 0;
  degrade_until = 0;
  in_flight = 0;
  model_cost = [];
}

pub record Pool (F : Type 0) : Type 0 where
  pub by_uid : Dict (Entry F)
  pub state_fp : String
  pub dirty : Bool
  pub breaker_threshold : ℕ
  pub breaker_cooldown : ℕ
  pub breaker_cooldown_max : ℕ
  pub soft_rate_max : ℕ
  pub cost_explore_interval : ℕ
  pub explore_last : Dict ℕ
  pub cost_explore_events : ℕ
  pub degrade_threshold : ℕ
  pub degrade_cooldown : ℕ
  pub degrade_cooldown_max : ℕ
  pub idle_weight_per_hour : F
  pub idle_weight_max : F
  pub max_in_flight : ℕ
  pub max_in_flight_global : ℕ
  pub persist_fails : ℕ
  pub pick_seq : ℕ

abbrev pub millisecond : ℕ
millisecond = 1000000

abbrev pub second : ℕ
second = 1000 * millisecond

abbrev pub minute : ℕ
minute = 60 * second

abbrev pub hour : ℕ
hour = 60 * minute

abbrev pub model_cost_ttl : ℕ
model_cost_ttl = 6 * hour

abbrev pub default_breaker_threshold : ℕ
default_breaker_threshold = 3

abbrev pub default_breaker_cooldown : ℕ
default_breaker_cooldown = 30 * minute

abbrev pub default_breaker_cooldown_max : ℕ
default_breaker_cooldown_max = 6 * hour

abbrev pub default_soft_rate_max : ℕ
default_soft_rate_max = 2 * hour

abbrev pub model_block_base_ttl : ℕ
model_block_base_ttl = 6 * hour

abbrev pub model_block_max_ttl : ℕ
model_block_max_ttl = 24 * hour

abbrev pub model_block_shift : ℕ
model_block_shift = 6

abbrev pub session_dead_threshold : ℕ
session_dead_threshold = 3

abbrev pub default_degrade_threshold : ℕ
default_degrade_threshold = 5

abbrev pub default_degrade_cooldown : ℕ
default_degrade_cooldown = 10 * minute

abbrev pub default_degrade_cooldown_max : ℕ
default_degrade_cooldown_max = 2 * hour

abbrev pub default_cost_explore_interval : ℕ
default_cost_explore_interval = 30 * minute

abbrev pub soft_streak_shift_max : ℕ
soft_streak_shift_max = 16

abbrev pub session_dead_reason : String
session_dead_reason = "12153 session dead"

abbrev pub degrade_reason : String
degrade_reason = "consecutive failures"

-- `x > 0` stores, anything else keeps the old value.
abbrev pub positive_or : ℕ → ℤ → ℕ
positive_or old (pos zero) = old
positive_or old (pos (suc n)) = suc n
positive_or old (negsuc n) = old

-- `x >= 0` stores, a negative number keeps the old value.
abbrev pub nonnegative_or : ℕ → ℤ → ℕ
nonnegative_or old (pos n) = n
nonnegative_or old (negsuc n) = old

module _ {F : Type 0} where
  -- The literal of `New`; the two idle weights are constants of the float type.
  unfoldable pub new : String → F → F → Pool F
  new state_fp idle_per_hour idle_max = record {
    by_uid = [];
    state_fp = state_fp;
    dirty = false;
    breaker_threshold = default_breaker_threshold;
    breaker_cooldown = default_breaker_cooldown;
    breaker_cooldown_max = default_breaker_cooldown_max;
    soft_rate_max = 0;
    cost_explore_interval = default_cost_explore_interval;
    explore_last = [];
    cost_explore_events = 0;
    degrade_threshold = default_degrade_threshold;
    degrade_cooldown = default_degrade_cooldown;
    degrade_cooldown_max = default_degrade_cooldown_max;
    idle_weight_per_hour = idle_per_hour;
    idle_weight_max = idle_max;
    max_in_flight = 0;
    max_in_flight_global = 0;
    persist_fails = 0;
    pick_seq = 0;
  }

  unfoldable pub set_breaker : ℤ → ℤ → ℤ → Pool F → Pool F
  set_breaker threshold cooldown cooldown_max p = record p {
    breaker_threshold = positive_or p.breaker_threshold threshold;
    breaker_cooldown = positive_or p.breaker_cooldown cooldown;
    breaker_cooldown_max = positive_or p.breaker_cooldown_max cooldown_max;
  }

  unfoldable pub set_soft_rate_max : ℤ → Pool F → Pool F
  set_soft_rate_max d p = record p { soft_rate_max = positive_or p.soft_rate_max d }

  unfoldable pub set_cost_explore_interval : ℤ → Pool F → Pool F
  set_cost_explore_interval d p = record p {
    cost_explore_interval = nonnegative_or p.cost_explore_interval d;
  }

  unfoldable pub set_degrade : ℤ → ℤ → ℤ → Pool F → Pool F
  set_degrade threshold cooldown cooldown_max p = record p {
    degrade_threshold = positive_or p.degrade_threshold threshold;
    degrade_cooldown = positive_or p.degrade_cooldown cooldown;
    degrade_cooldown_max = positive_or p.degrade_cooldown_max cooldown_max;
  }

  unfoldable pub set_max_in_flight : ℤ → Pool F → Pool F
  set_max_in_flight n p = record p { max_in_flight = nonnegative_or p.max_in_flight n }

  unfoldable pub set_max_in_flight_global : ℤ → Pool F → Pool F
  set_max_in_flight_global n p = record p {
    max_in_flight_global = nonnegative_or p.max_in_flight_global n;
  }

  -- `if e, ok := p.byUID[uid]; ok { … ; p.dirty.Store(true) }`: the write through the pointer `e`
  -- is a write to the map's entry.
  unfoldable pub update_entry : String → (Entry F → Entry F) → Pool F → Pool F
  update_entry uid f p = elim (lookup uid p.by_uid) [
    | none ↦ p
    | some e ↦ record p { by_uid = insert uid (f e) p.by_uid; dirty = true }
  ]
