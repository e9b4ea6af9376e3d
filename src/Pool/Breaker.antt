-- ===== src/Pool/Breaker.antt =====
-- internal/pool/cooldown.go, state.go and degrade.go: the breaker for repeated errors, the demotion
-- for repeated failures of unknown cause, and the success that ends both.
pub mod Laws
use workbuddy2plus_plugin.Base.{
  ℕ, zero, suc, ◌+◌, ◌*◌, ◌%◌, ◌&&◌, String, ltb, leb, ◌==◌, if◌then◌else◌,
}
use workbuddy2plus_plugin.Pool.Types.{
  Entry, Pool, update_entry, default_degrade_cooldown, default_degrade_cooldown_max,
}
use workbuddy2plus_plugin.Pool.Health.{pending}
use workbuddy2plus_plugin.Pool.Cooldown.{int64_mod, int64_sign}

-- `for i := 0; i < n; i++ { d *= 2; if d >= max { d = max; break } }` on an int64.
unfoldable pub breaker_backoff : ℕ → ℕ → ℕ → ℕ
breaker_backoff zero d most = d
breaker_backoff (suc n) d most =
    let doubled = (d * 2) % int64_mod in
    let rest = breaker_backoff n doubled most in
    if ltb doubled int64_sign && leb most doubled then most else rest

module _ {F : Type 0} where
  unfoldable pub record_breaker_failure : Pool F → ℕ → Entry F → Entry F
  record_breaker_failure p now e =
      let fails = e.fails + 1 in
      if ltb fails p.breaker_threshold then record e { fails = fails } else record e {
        fails = 0;
        retry_count = e.retry_count + 1;
        breaker_until =
            now + breaker_backoff e.retry_count p.breaker_cooldown p.breaker_cooldown_max;
      }

  -- `NoteError` on the entry.
  unfoldable pub error_entry : Pool F → ℕ → Entry F → Entry F
  unfolding record_breaker_failure
  error_entry p now e =
      record_breaker_failure p now (record e { err_total = e.err_total + 1; last_err = now })

  unfoldable pub note_error : ℕ → String → Pool F → Pool F
  unfolding update_entry error_entry
  note_error now uid p = update_entry uid (error_entry p now) p

  unfoldable pub degrade_duration : Pool F → ℕ
  degrade_duration p =
      let d = if p.degrade_cooldown == 0 then default_degrade_cooldown else p.degrade_cooldown in
      let most =
        if p.degrade_cooldown_max == 0
        then default_degrade_cooldown_max
        else p.degrade_cooldown_max in
      if ltb most d then most else d

  -- `NoteFailures` on the entry.
  unfoldable pub failure_entry : Pool F → ℕ → Entry F → Entry F
  unfolding degrade_duration
  failure_entry p now e =
      let fails = e.consecutive_fails + 1 in
      if ltb fails p.degrade_threshold
      then record e { consecutive_fails = fails }
      else if pending now e.degrade_until
      then record e { consecutive_fails = 0 }
      else record e { consecutive_fails = 0; degrade_until = now + degrade_duration p }

  unfoldable pub note_failures : ℕ → String → Pool F → Pool F
  unfolding update_entry failure_entry
  note_failures now uid p = update_entry uid (failure_entry p now) p

  -- `NoteSuccess` on the entry.
  unfoldable pub success_entry : ℕ → Entry F → Entry F
  success_entry now e = record e {
    success_count = e.success_count + 1;
    last_success = now;
    fails = 0;
    retry_count = 0;
    breaker_until = 0;
    soft_streak = 0;
    session_dead_fails = 0;
    consecutive_fails = 0;
    degrade_until = 0;
  }

  unfoldable pub note_success : ℕ → String → Pool F → Pool F
  unfolding update_entry success_entry
  note_success now uid p = update_entry uid (success_entry now) p
