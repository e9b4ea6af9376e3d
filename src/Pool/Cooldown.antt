-- ===== src/Pool/Cooldown.antt =====
-- internal/pool/cooldown.go, transition.go and degrade.go: the operations that put an account out
-- of selection for a while, and the moves that end it. Each operation reads the clock once, `now`.
pub mod Soft
use workbuddy2plus_plugin.Base.{
  ℕ, ◌+◌, ◌-◌, ◌*◌, ◌%◌, ◌^◌, ℤ, Bool, true, not, ◌||◌, String, ltb, leb, ◌==◌, if◌then◌else◌,
  insert, [],
}
use workbuddy2plus_plugin.Pool.Types.{
  CoolKind, cool_hard, cool_soft, is_soft, Entry, Pool, update_entry, default_soft_rate_max,
  soft_streak_shift_max, millisecond,
}

-- An int64 by its bit pattern; a pattern from 2^63 on is a negative number.
abbrev pub int64_mod : ℕ
int64_mod = 2 ^ 64

abbrev pub int64_sign : ℕ
int64_sign = 2 ^ 63

module _ {F : Type 0} where
  unfoldable pub clear_cooling : Entry F → Entry F
  clear_cooling e = record e {
    until = 0;
    cool_kind = cool_hard;
    reason = "";
    soft_streak = 0;
    model_cooldowns = [];
  }

  unfoldable pub disable_locked : String → Entry F → Entry F
  unfolding clear_cooling
  disable_locked reason e = let c = clear_cooling e in record c { disabled = true; reason = reason }

  unfoldable pub revive_cooling : ℤ → Entry F → Entry F
  unfolding clear_cooling
  revive_cooling credits e = clear_cooling (record e { credits = credits })

  unfoldable pub set_manual_disabled_locked : Bool → String → Entry F → Entry F
  set_manual_disabled_locked disabled reason e = record e {
    manual_disabled = disabled;
    manual_reason = if disabled then reason else "";
  }

  -- `Cooldown` on the entry.
  unfoldable pub cool_entry : ℕ → CoolKind → ℕ → String → Entry F → Entry F
  cool_entry now kind d reason e = record e {
    until = now + d;
    cool_kind = kind;
    reason = reason;
    model_cooldowns = [];
  }

  unfoldable pub cooldown : ℕ → String → CoolKind → ℕ → String → Pool F → Pool F
  unfolding update_entry cool_entry
  cooldown now uid kind d reason p = update_entry uid (cool_entry now kind d reason) p

  unfoldable pub soft_rate_max_or : Pool F → ℕ
  soft_rate_max_or p = if ltb 0 p.soft_rate_max then p.soft_rate_max else default_soft_rate_max

  unfoldable pub capped_soft_until : Pool F → ℕ → ℕ → ℕ
  unfolding soft_rate_max_or
  capped_soft_until p now reset_at =
      let cap = now + soft_rate_max_or p in
      if ltb cap reset_at then cap else if ltb now reset_at then reset_at else now + millisecond

  -- The shift is that of an int64, which may overflow.
  unfoldable pub soft_duration : Pool F → ℕ → ℕ → ℕ
  unfolding soft_rate_max_or
  soft_duration p d streak =
      if leb streak 1
      then d
      else (let shift =
            if ltb soft_streak_shift_max (streak - 1) then soft_streak_shift_max else streak - 1 in
          let shifted = (d * 2 ^ shift) % int64_mod in
          let most = if p.soft_rate_max == 0 then default_soft_rate_max else p.soft_rate_max in
          if ltb most shifted || (shifted == 0 || leb int64_sign shifted) then most else shifted)

  -- A new soft cooldown starts unless one is running: the step that both soft entry points share.
  abbrev pub soft_backoff : Pool F → ℕ → ℕ → Entry F → Entry F
  soft_backoff p now base e =
      if not (is_soft e.cool_kind) || not (ltb now e.until)
      then record e {
        soft_streak = e.soft_streak + 1;
        until = now + soft_duration p base (e.soft_streak + 1);
      }
      else e

  -- `CooldownSoftForModel` on the entry.
  unfoldable pub soft_for_model_entry : Pool F → ℕ → ℕ → ℕ → String → String → Entry F → Entry F
  unfolding capped_soft_until soft_duration
  soft_for_model_entry p now base reset_at model reason e =
      if not (reset_at == 0)
      then record e {
        model_cooldowns =
            insert model
              (record {
                until = capped_soft_until p now reset_at;
                reset_at = reset_at;
                reason = reason;
                hits = 0;
              })
              e.model_cooldowns;
      }
      else (let s = soft_backoff p now base e in
          record s { cool_kind = cool_soft; reason = reason; model_cooldowns = [] })

  unfoldable pub cooldown_soft_for_model : ℕ → String → ℕ → ℕ → String → String → Pool F → Pool F
  unfolding update_entry soft_for_model_entry
  cooldown_soft_for_model now uid base reset_at model reason p =
      update_entry uid (soft_for_model_entry p now base reset_at model reason) p

  -- `CooldownSoftRate` on the entry.
  unfoldable pub soft_rate_entry : Pool F → ℕ → ℕ → ℕ → String → Entry F → Entry F
  unfolding capped_soft_until soft_duration
  soft_rate_entry p now base reset_at reason e =
      let s =
        if not (reset_at == 0)
        then record e { until = capped_soft_until p now reset_at }
        else soft_backoff p now base e in
      record s { cool_kind = cool_soft; reason = reason; model_cooldowns = [] }

  unfoldable pub cooldown_soft_rate : ℕ → String → ℕ → ℕ → String → Pool F → Pool F
  unfolding update_entry soft_rate_entry
  cooldown_soft_rate now uid base reset_at reason p =
      update_entry uid (soft_rate_entry p now base reset_at reason) p
