-- ===== src/Plugin/Report.antt =====
-- plugin/wb_pool.go: how a failed or a clean request is reported to the pool.
pub mod Scope
use workbuddy2plus_plugin.Base.{ℕ, ◌-◌, ◌*◌, String, Bool, not, ◌&&◌, str_eq, ltb, if◌then◌else◌}
use workbuddy2plus_plugin.Pool.Types.{Pool, cool_hard, minute}
use workbuddy2plus_plugin.Pool.Cooldown.{cooldown, cooldown_soft_for_model, cooldown_soft_rate}
use workbuddy2plus_plugin.Pool.Block.{block_model_backoff}
use workbuddy2plus_plugin.Pool.Breaker.{note_error, note_success}
use workbuddy2plus_plugin.Pool.State.{note_session_dead, clear_session_dead}

pub data ErrKind : Type 0 where
  err_none err_hard_credit err_soft_rate err_session_dead err_not_found err_server : ErrKind
  err_content_blocked err_bad_params err_account_fault err_model_blocked err_waf_block : ErrKind
  err_prompt_too_long err_client : ErrKind

-- `hour` is `now.Hour()`, and `at_4 n` is 04:00 of the day that is `n` days after that of `now`.
abbrev pub next_day_4am : ℕ → (ℕ → ℕ) → ℕ
next_day_4am hour at_4 = if ltb hour 4 then at_4 0 else at_4 1

module _ {F : Type 0} where
  unfoldable pub cooldown_until_tomorrow_4am : ℕ → ℕ → (ℕ → ℕ) → String → String → Pool F → Pool F
  unfolding cooldown
  cooldown_until_tomorrow_4am now hour at_4 uid reason p =
      cooldown now uid cool_hard (next_day_4am hour at_4 - now) reason p

  -- The answers of the classification of the body: its kind, whether it is the limit of a model,
  -- and the reset time that it names, or the zero time.
  unfoldable pub apply_upstream_error :
      ℕ → ℕ → (ℕ → ℕ) → String → String → ErrKind → Bool → ℕ → Pool F → Pool F
  unfolding cooldown_until_tomorrow_4am
  apply_upstream_error now hour at_4 auth_id model kind limited reset_at p =
      if str_eq auth_id "" then p else elim kind [
        | err_model_blocked ↦
            if str_eq model ""
            then p
            else block_model_backoff now auth_id model "11102 no such model" p
        | err_soft_rate ↦
            if not (str_eq model "") && limited
            then cooldown_soft_for_model now auth_id (10 * minute) reset_at model "6004 model limit"
                p
            else cooldown_soft_rate now auth_id (10 * minute) 0 "rate limited" p
        | err_hard_credit ↦ cooldown_until_tomorrow_4am now hour at_4 auth_id "credits exhausted" p
        | err_session_dead ↦ (note_session_dead auth_id p).0
        | err_server ↦ note_error now auth_id p
        | err_none ↦ p
        | err_not_found ↦ p
        | err_content_blocked ↦ p
        | err_bad_params ↦ p
        | err_account_fault ↦ p
        | err_waf_block ↦ p
        | err_prompt_too_long ↦ p
        | err_client ↦ p
      ]

  unfoldable pub note_pool_success : ℕ → String → Pool F → Pool F
  note_pool_success now auth_id p =
      if str_eq auth_id "" then p else clear_session_dead auth_id (note_success now auth_id p)
