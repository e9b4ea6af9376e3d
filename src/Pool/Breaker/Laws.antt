-- ===== src/Pool/Breaker/Laws.antt =====
-- cooldown.go, degrade.go: when the breaker opens and for how long, and when an account is demoted.
use workbuddy2plus_plugin.Base.{
  ℕ, zero, suc, ◌+◌, ◌*◌, ◌^◌, ◌≤◌, ◌<◌, min, ◌≡◌, refl, sym, ap, ◌∙◌, inl, inr, not, ◌&&◌, List,
  [], ◌∷◌, arith, ltb, leb, ◌==◌, if◌then◌else◌, Bool-cases, length,
}
use native.Mathlib.Nat.{pow-suc, mul_assoc, mul_comm}
use mathlib.Core.Path.{subst}
use workbuddy2plus_plugin.Pool.Types.{Entry, Pool, default_degrade_cooldown_max}
use workbuddy2plus_plugin.Pool.Health.{healthy, pending}
use workbuddy2plus_plugin.Pool.Cooldown.{int64_sign}
use workbuddy2plus_plugin.Pool.Breaker.{
  breaker_backoff, error_entry, degrade_duration, failure_entry, success_entry,
}

pow_pos : (n : ℕ) → 1 ≤ 2 ^ n
pow_pos zero = omega arith
pow_pos (suc n) = rw pow-suc (omega (arith, pow_pos n))

double_first : (d n : ℕ) → d * 2 * 2 ^ n ≡ d * 2 ^ suc n
double_first d n = rw (pow-suc, mul_assoc, mul_comm 2)

over_most : (d n most : ℕ) → most ≤ d * 2 → most ≤ d * 2 ^ suc n
over_most d n most h = rw (← double_first d n) (grind (arith, pow_pos n))

-- The breaker stays open for the base time doubled once for every time that it opened before, and
-- at most for the configured maximum. The base is positive and below the maximum, and the maximum
-- is below 2 ^ 62 nanoseconds, so that the int64 does not overflow.
pub breaker_backoff_lem :
    (n d most : ℕ)
    → 0 < d
    → d ≤ most
    → most * 2 < int64_sign
    → breaker_backoff n d most ≡ min (d * 2 ^ n) most
unfolding breaker_backoff
breaker_backoff_lem zero d most dp le small = omega arith
breaker_backoff_lem (suc n) d most dp le small = elim (Bool-cases (leb most (d * 2))) [
  | inl h ↦ ground (arith, over_most d n most)
  | inr h ↦
      let ih : breaker_backoff n (d * 2) most ≡ min (d * 2 * 2 ^ n) most =
        breaker_backoff_lem n (d * 2) most (omega arith) (ground arith) small in
      ground (arith, double_first d n)
]

abbrev bumped : {F : Type 0} → ℕ → Entry F → Entry F
bumped t e = record e { err_total = e.err_total + 1; last_err = t; fails = e.fails + 1 }

abbrev blamed : {F : Type 0} → Entry F → Entry F
blamed e = record e { consecutive_fails = e.consecutive_fails + 1 }

module _ {F : Type 0} (p : Pool F) where
  trip :
      (now : ℕ) (e : Entry F)
      → p.breaker_threshold ≤ e.fails + 1
      → ((error_entry p now e).fails ≡ 0)
        × ((error_entry p now e).retry_count ≡ e.retry_count + 1)
        × ((error_entry p now e).breaker_until
            ≡ now + breaker_backoff e.retry_count p.breaker_cooldown p.breaker_cooldown_max)
  unfolding error_entry
  trip now e h = (ground arith, ground arith, ground arith)

  -- The errors at the times of a list, one after the other.
  pub errors : List ℕ → Entry F → Entry F
  errors [] e = e
  errors (t ∷ ts) e = errors ts (error_entry p t e)

  quiet_error :
      (t : ℕ) (e : Entry F)
      → e.fails + 1 < p.breaker_threshold
      → error_entry p t e
        ≡ record e { err_total = e.err_total + 1; last_err = t; fails = e.fails + 1 }
  unfolding error_entry
  quiet_error t e h = ground arith

  abbrev AfterErrors : List ℕ → ℕ → ℕ → ℕ → Entry F → Type 0
  AfterErrors ts fails retries until e =
      ((errors ts e).fails ≡ fails + length ts)
      × ((errors ts e).retry_count ≡ retries)
      × ((errors ts e).breaker_until ≡ until)

  quiet_errors :
      (ts : List ℕ) (e : Entry F)
      → e.fails + length ts < p.breaker_threshold
      → AfterErrors ts e.fails e.retry_count e.breaker_until e
  unfolding errors
  quiet_errors [] e h = (omega arith, refl, refl)
  quiet_errors (t ∷ ts) e h =
      let ih : AfterErrors ts (e.fails + 1) e.retry_count e.breaker_until (error_entry p t e) =
        subst (AfterErrors ts (e.fails + 1) e.retry_count e.breaker_until)
          (sym (quiet_error t e (omega arith))) (quiet_errors ts (bumped t e) (omega arith)) in
      (omega (arith, ih.0), ih.1, ih.2)

  -- An account with no error since its last success or trip keeps its breaker as it is through
  -- fewer errors than the threshold. The error that reaches the threshold opens the breaker for the
  -- doubled time, counts the trip and starts the count of errors again.
  pub errors-trip :
      (ts : List ℕ) (now : ℕ) (e : Entry F)
      → e.fails ≡ 0
      → length ts + 1 ≡ p.breaker_threshold
      → ((errors ts e).breaker_until ≡ e.breaker_until)
        × ((error_entry p now (errors ts e)).fails ≡ 0)
        × ((error_entry p now (errors ts e)).retry_count ≡ e.retry_count + 1)
        × ((error_entry p now (errors ts e)).breaker_until
            ≡ now + breaker_backoff e.retry_count p.breaker_cooldown p.breaker_cooldown_max)
  errors-trip ts now e f0 full =
      let q = quiet_errors ts e (omega arith) in
      let t = trip now (errors ts e) (omega (arith, q.0)) in
      (
        q.2,
        t.0,
        omega (arith, t.1, q.1),
        t.2 ∙ ap (λ r. now + breaker_backoff r p.breaker_cooldown p.breaker_cooldown_max) q.1,
      )

  pub degrade_duration_bounds :
      (0 < degrade_duration p)
      × (degrade_duration p ≤ (
          if p.degrade_cooldown_max == 0
          then default_degrade_cooldown_max
          else p.degrade_cooldown_max))
  unfolding degrade_duration
  degrade_duration_bounds = ground arith

  -- The failures at the times of a list, one after the other.
  pub failures : List ℕ → Entry F → Entry F
  failures [] e = e
  failures (t ∷ ts) e = failures ts (failure_entry p t e)

  quiet_failure :
      (t : ℕ) (e : Entry F)
      → e.consecutive_fails + 1 < p.degrade_threshold
      → failure_entry p t e ≡ record e { consecutive_fails = e.consecutive_fails + 1 }
  unfolding failure_entry
  quiet_failure t e h = ground arith

  abbrev AfterFailures : List ℕ → ℕ → ℕ → Entry F → Type 0
  AfterFailures ts fails until e =
      ((failures ts e).consecutive_fails ≡ fails + length ts)
      × ((failures ts e).degrade_until ≡ until)

  quiet_failures :
      (ts : List ℕ) (e : Entry F)
      → e.consecutive_fails + length ts < p.degrade_threshold
      → AfterFailures ts e.consecutive_fails e.degrade_until e
  unfolding failures
  quiet_failures [] e h = (omega arith, refl)
  quiet_failures (t ∷ ts) e h =
      let ih : AfterFailures ts (e.consecutive_fails + 1) e.degrade_until (failure_entry p t e) =
        subst (AfterFailures ts (e.consecutive_fails + 1) e.degrade_until)
          (sym (quiet_failure t e (omega arith))) (quiet_failures ts (blamed e) (omega arith)) in
      (omega (arith, ih.0), ih.1)

  last_failure :
      (now : ℕ) (e : Entry F)
      → p.degrade_threshold ≤ e.consecutive_fails + 1
      → ((failure_entry p now e).consecutive_fails ≡ 0)
        × ((failure_entry p now e).degrade_until
            ≡ (if pending now e.degrade_until then e.degrade_until else now + degrade_duration p))
  unfolding failure_entry
  last_failure now e h = (ground arith, ground arith)

  -- Fewer failures of unknown cause than the threshold, in a row, leave the demotion as it is. The
  -- failure that reaches the threshold demotes the account for the configured time, at most the
  -- configured maximum, but never prolongs a demotion that is running; it restarts the count.
  pub failures-demote :
      (ts : List ℕ) (now : ℕ) (e : Entry F)
      → e.consecutive_fails ≡ 0
      → length ts + 1 ≡ p.degrade_threshold
      → ((failures ts e).degrade_until ≡ e.degrade_until)
        × ((failure_entry p now (failures ts e)).consecutive_fails ≡ 0)
        × ((failure_entry p now (failures ts e)).degrade_until
            ≡ (if pending now e.degrade_until then e.degrade_until else now + degrade_duration p))
        × (0 < degrade_duration p)
        × (degrade_duration p ≤ (
            if p.degrade_cooldown_max == 0
            then default_degrade_cooldown_max
            else p.degrade_cooldown_max))
  failures-demote ts now e f0 full =
      let q = quiet_failures ts e (omega arith) in
      let t = last_failure now (failures ts e) (omega (arith, q.0)) in
      (
        q.1,
        t.0,
        t.1 ∙ ap (λ u. if pending now u then u else now + degrade_duration p) q.1,
        degrade_duration_bounds.0,
        degrade_duration_bounds.1,
      )

-- A success lifts the breaker and the demotion at once and restarts all counts of failures. From
-- then on the account is healthy exactly when it is enabled and its own cooldown is over; the
-- cooldowns of models stay.
pub success-healthy :
    {F : Type 0} (e : Entry F) (now t : ℕ)
    → (healthy (success_entry now e) t
        ≡ not e.disabled && (not e.manual_disabled && not (ltb t e.until)))
      × ((success_entry now e).model_cooldowns ≡ e.model_cooldowns)
      × ((success_entry now e).fails ≡ 0)
      × ((success_entry now e).retry_count ≡ 0)
      × ((success_entry now e).consecutive_fails ≡ 0)
      × ((success_entry now e).session_dead_fails ≡ 0)
      × ((success_entry now e).soft_streak ≡ 0)
unfolding success_entry healthy
success-healthy e now t = (ground arith, refl, refl, refl, refl, refl, refl)
