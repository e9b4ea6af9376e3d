-- ===== src/Pool/State.antt =====
-- internal/pool/state.go: the automatic and the manual disabling of an account, and its credits.
pub mod Laws
use workbuddy2plus_plugin.Base.{
  ◌+◌, ℤ, pos, Bool, true, false, not, ◌&&◌, ◌||◌, String, str_eq, Option, none, some, ltb, ◌==◌,
  ltb_ℤ, if◌then◌else◌, lookup,
}
use workbuddy2plus_plugin.Pool.Types.{
  Auth, Entry, Pool, update_entry, session_dead_threshold, session_dead_reason,
}
use workbuddy2plus_plugin.Pool.Cooldown.{disable_locked, revive_cooling, set_manual_disabled_locked}

-- `a == b` on Booleans.
abbrev pub same_flag : Bool → Bool → Bool
same_flag true b = b
same_flag false b = not b

module _ {F : Type 0} where
  unfoldable pub disable : String → String → Pool F → Pool F
  unfolding update_entry disable_locked
  disable uid reason p = update_entry uid (disable_locked reason) p

  -- `NoteSessionDead` on the entry, with the answer.
  unfoldable pub session_dead_entry : Entry F → Entry F × Bool
  unfolding disable_locked
  session_dead_entry e =
      let fails = e.session_dead_fails + 1 in
      if ltb fails session_dead_threshold
      then (record e { session_dead_fails = fails }, false)
      else (disable_locked session_dead_reason (record e { session_dead_fails = 0 }), true)

  unfoldable pub note_session_dead : String → Pool F → Pool F × Bool
  unfolding update_entry session_dead_entry
  note_session_dead uid p = elim (lookup uid p.by_uid) [
    | none ↦ (p, false)
    | some e ↦ (update_entry uid (λ x. (session_dead_entry x).0) p, (session_dead_entry e).1)
  ]

  unfoldable pub clear_session_dead : String → Pool F → Pool F
  unfolding update_entry
  clear_session_dead uid p = elim (lookup uid p.by_uid) [
    | none ↦ p
    | some e ↦
        if e.session_dead_fails == 0
        then p
        else update_entry uid (λ x. record x { session_dead_fails = 0 }) p
  ]

  -- `ReviveDisabled` on a disabled entry.
  unfoldable pub revive_entry : Entry F → Entry F
  revive_entry e = record e { disabled = false; reason = ""; session_dead_fails = 0 }

  unfoldable pub revive_disabled : String → Pool F → Pool F × Bool
  unfolding update_entry revive_entry
  revive_disabled uid p = elim (lookup uid p.by_uid) [
    | none ↦ (p, false)
    | some e ↦ if e.disabled then (update_entry uid revive_entry p, true) else (p, false)
  ]

  abbrev pub manual_unchanged : Bool → String → Entry F → Bool
  manual_unchanged disabled reason e =
      same_flag e.manual_disabled disabled && (not disabled || str_eq e.manual_reason reason)

  -- The two answers are `found` and `changed`.
  unfoldable pub set_manual_disabled : String → Bool → String → Pool F → Pool F × Bool × Bool
  unfolding update_entry set_manual_disabled_locked
  set_manual_disabled uid disabled reason p = elim (lookup uid p.by_uid) [
    | none ↦ (p, false, false)
    | some e ↦
        if manual_unchanged disabled reason e
        then (p, true, false)
        else (update_entry uid (set_manual_disabled_locked disabled reason) p, true, true)
  ]

  unfoldable pub manual_disabled_state : String → Pool F → Option (Bool × String)
  manual_disabled_state uid p = elim (lookup uid p.by_uid) [
    | none ↦ none
    | some e ↦ some (e.manual_disabled, e.manual_reason)
  ]

  -- `ReenableIfCredits` on the entry.
  unfoldable pub reenable_entry : ℤ → Entry F → Entry F
  unfolding revive_cooling
  reenable_entry remain e =
      if ltb_ℤ (pos 0) remain && not e.disabled
      then revive_cooling remain e
      else record e { credits = remain }

  unfoldable pub reenable_if_credits : String → ℤ → Pool F → Pool F
  unfolding update_entry reenable_entry
  reenable_if_credits uid remain p = update_entry uid (reenable_entry remain) p

  unfoldable pub set_credits : String → ℤ → Pool F → Pool F
  unfolding update_entry
  set_credits uid credits p = update_entry uid (λ e. record e { credits = credits }) p

  -- `SetCreditsDetailed` on the entry.
  unfoldable pub credits_entry : ℤ → ℤ → Entry F → Entry F
  credits_entry credits expiring e =
      let nonneg = if ltb_ℤ expiring (pos 0) then pos 0 else expiring in
      let clamped = if ltb_ℤ credits nonneg then credits else nonneg in
      record e { credits = credits; credits_expiring = clamped }

  unfoldable pub set_credits_detailed : String → ℤ → ℤ → Pool F → Pool F
  unfolding update_entry credits_entry
  set_credits_detailed uid credits expiring p = update_entry uid (credits_entry credits expiring) p

  unfoldable pub auth_by_uid : String → Pool F → Option Auth
  auth_by_uid uid p = elim (lookup uid p.by_uid) [ none ↦ none | some e ↦ some e.a ]
