-- ===== src/Pool/Health.antt =====
-- internal/pool/entry.go: whether an account can be selected, and until when it cannot.
pub mod Deadlines
use workbuddy2plus_plugin.Base.{
  ℕ, ◌-◌, Bool, true, false, not, ◌&&◌, ◌||◌, String, str_eq, Option, none, some, ltb, ◌==◌,
  if◌then◌else◌, lookup, keep, length,
}
use workbuddy2plus_plugin.Pool.Types.{ModelCostEntry, Entry, Pool, model_cost_ttl}

-- `!t.IsZero() && now.Before(t)`
abbrev pub pending : ℕ → ℕ → Bool
pending now t = not (t == 0) && ltb now t

-- `mc.LastSeen.IsZero() || now.Sub(mc.LastSeen) > modelCostTTL`
abbrev pub is_stale : {F : Type 0} → ℕ → ModelCostEntry F → Bool
is_stale now mc = mc.last_seen == 0 || ltb model_cost_ttl (now - mc.last_seen)

-- `if pending(u) { if t.IsZero() || u.Before(t) { t = u } }`
abbrev pub nearer : ℕ → ℕ → ℕ → ℕ
nearer now u t = if pending now u then (if t == 0 || ltb u t then u else t) else t

pub data FallbackKind : Type 0 where
  breaker soft : FallbackKind

module _ {F : Type 0} where
  unfoldable pub model_cost_of : Entry F → String → ℕ → Option (ModelCostEntry F)
  model_cost_of e model now = if str_eq model "" then none else elim (lookup model e.model_cost) [
    | none ↦ none
    | some mc ↦ if is_stale now mc then none else some mc
  ]

  unfoldable pub healthy : Entry F → ℕ → Bool
  healthy e now =
      if e.disabled || e.manual_disabled
      then false
      else if pending now e.until
      then false
      else if pending now e.breaker_until
      then false
      else if pending now e.degrade_until
      then false
      else true

  unfoldable pub model_exempt : Entry F → Bool
  model_exempt e =
      ltb 0 (length e.model_cooldowns)
      && (not e.disabled && (not e.manual_disabled && e.breaker_until == 0))

  unfoldable pub model_cooled : Entry F → ℕ → String → Bool
  model_cooled e now model =
      if str_eq model ""
      then false
      else elim (lookup model e.model_cooldowns) [ none ↦ false | some mc ↦ pending now mc.until ]

  unfoldable pub healthy_for_model : Entry F → ℕ → String → Bool
  healthy_for_model e now model =
      if not (healthy e now) then false else if model_cooled e now model then false else true

  unfoldable pub prune_expired_model_costs : ℕ → Entry F → Entry F
  prune_expired_model_costs now e = record e {
    model_cost = keep (λ kv. not (is_stale now kv.1)) e.model_cost;
  }

  unfoldable pub prune_expired_model_cooldowns : ℕ → Entry F → Entry F
  prune_expired_model_cooldowns now e = record e {
    model_cooldowns = keep (λ kv. pending now kv.1.until) e.model_cooldowns;
  }

  -- The nearest of the deadlines that still hold, or the zero time.
  unfoldable pub expiry : Entry F → ℕ → ℕ
  expiry e now =
      nearer now e.degrade_until
        (nearer now e.breaker_until (if pending now e.until then e.until else 0))

  unfoldable pub fallback_kind : Entry F → ℕ → FallbackKind
  fallback_kind e now =
      if pending now e.breaker_until
      then (if e.until == 0 || (not (ltb now e.until) || ltb e.breaker_until e.until)
          then breaker
          else soft)
      else soft

  unfoldable pub in_flight_limit : Pool F → Entry F → ℕ
  in_flight_limit p e =
      if ltb 0 p.max_in_flight_global && str_eq e.a.realm "global"
      then p.max_in_flight_global
      else p.max_in_flight

  unfoldable pub in_flight_full : Pool F → Entry F → Bool
  unfolding in_flight_limit
  in_flight_full p e =
      let limit = in_flight_limit p e in if limit == 0 then false else not (ltb e.in_flight limit)
