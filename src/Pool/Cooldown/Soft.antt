-- ===== src/Pool/Cooldown/Soft.antt =====
-- cooldown.go: the bounds of the soft back-off, and what the soft cooldowns change.
use workbuddy2plus_plugin.Base.{
  ℕ, ◌+◌, ◌-◌, ◌*◌, ◌^◌, ◌≤◌, ◌<◌, min, String, ◌≡◌, refl, ◌≢◌, inl, inr, not, ◌&&◌, List, [], ◌∷◌,
  arith, str_eq, eq_iff, ltb, ◌==◌, if◌then◌else◌, ==_iff, Bool-cases, All, insert, lookup-insert,
}
use workbuddy2plus_plugin.Pool.Types.{ModelCooldown, Entry, millisecond, cool_soft, Entry, Pool}
use workbuddy2plus_plugin.Pool.Health.{healthy, healthy_for_model, model_cooled}
use workbuddy2plus_plugin.Pool.Cooldown.{
  soft_for_model_entry, int64_sign, soft_streak_shift_max, soft_for_model_entry, millisecond,
  capped_soft_until, soft_rate_max_or, soft_duration, soft_rate_entry,
}

shift_min :
    (n : ℕ)
    → (if ltb soft_streak_shift_max n then soft_streak_shift_max else n)
      ≡ min n soft_streak_shift_max
shift_min n = ground arith

module _ {F : Type 0} (p : Pool F) where
  pub soft_rate_max_or-pos : 0 < soft_rate_max_or p
  unfolding soft_rate_max_or
  soft_rate_max_or-pos = ground arith

  -- From the second soft cooldown in a row on, the back-off is positive and at most the configured
  -- maximum, also where the shift of the int64 overflows.
  pub soft_duration_bounds :
      (d streak : ℕ)
      → 2 ≤ streak
      → (0 < soft_duration p d streak) × (soft_duration p d streak ≤ soft_rate_max_or p)
  unfolding soft_duration
  soft_duration_bounds d streak h = ground arith

  -- A running soft cooldown is neither prolonged nor counted again by a probe that meets the limit.
  soft_probe :
      (now base : ℕ) (reason : String) (e : Entry F)
      → e.cool_kind ≡ cool_soft
      → now < e.until
      → soft_rate_entry p now base 0 reason e ≡ record e { reason = reason; model_cooldowns = [] }
  unfolding soft_rate_entry
  soft_probe now base reason e k h = ground arith

  -- Any number of probes at times before the end of a running soft cooldown, each answered by a
  -- limit with no reset time.
  pub probes : List ℕ → ℕ → String → Entry F → Entry F
  probes [] base reason e = e
  probes (t ∷ ts) base reason e = probes ts base reason (soft_rate_entry p t base 0 reason e)

  -- However often an account in a running soft cooldown is probed before it ends, and answered by
  -- a limit with no reset time, its deadline and its streak stay what they were.
  pub probes-keep :
      (ts : List ℕ) (base : ℕ) (reason : String) (e : Entry F)
      → e.cool_kind ≡ cool_soft
      → All (λ t. t < e.until) ts
      → ((probes ts base reason e).until ≡ e.until)
        × ((probes ts base reason e).soft_streak ≡ e.soft_streak)
  unfolding probes
  probes-keep [] base reason e k h = (refl, refl)
  probes-keep (t ∷ ts) base reason e k h =
      rw (soft_probe t base reason e k h.0, probes)
        (probes-keep ts base reason (record e { reason = reason; model_cooldowns = [] }) k h.1)

  -- A reset time that the upstream names becomes the deadline, but never later than the configured
  -- maximum from now; one that has passed gives a deadline of one millisecond.
  pub capped_soft_until_lem :
      (now reset_at : ℕ)
      → (now < capped_soft_until p now reset_at)
        × (now < reset_at
            → capped_soft_until p now reset_at ≡ min reset_at (now + soft_rate_max_or p))
        × (reset_at ≤ now → capped_soft_until p now reset_at ≡ now + millisecond)
  unfolding capped_soft_until
  capped_soft_until_lem now reset_at = (ground arith, λ h. ground arith, λ h. ground arith)

  -- While the shift does not overflow, the back-off doubles with each soft cooldown in a row, up to
  -- 2 ^ 16 times the base, and stops at the maximum.
  pub soft_duration_doubles :
      (d streak : ℕ)
      → 2 ≤ streak
      → 0 < d * 2 ^ min (streak - 1) soft_streak_shift_max
      → d * 2 ^ min (streak - 1) soft_streak_shift_max < int64_sign
      → soft_duration p d streak
        ≡ min (d * 2 ^ min (streak - 1) soft_streak_shift_max) (soft_rate_max_or p)
  unfolding soft_duration
  soft_duration_doubles d streak h pos_h small = rw (shift_min (streak - 1)) (ground arith)

limit_row : {F : Type 0} → Pool F → ℕ → ℕ → String → ModelCooldown
limit_row p now reset_at reason = record {
  until = capped_soft_until p now reset_at;
  reset_at = reset_at;
  reason = reason;
  hits = 0;
}

soft_for_model_limited :
    {F : Type 0} (p : Pool F) (now base reset_at : ℕ) (model reason : String) (e : Entry F)
    → reset_at ≢ 0
    → soft_for_model_entry p now base reset_at model reason e ≡ record e {
      model_cooldowns = insert model (limit_row p now reset_at reason) e.model_cooldowns;
    }
unfolding soft_for_model_entry limit_row
soft_for_model_limited p now base reset_at model reason e nz = elim (Bool-cases (reset_at == 0)) [
  | inl z ↦ absurd (nz ((==_iff reset_at 0).0 z))
  | inr z ↦ rw z
]

-- A model limit with a reset time bars that model alone, until the capped reset time: for every
-- other model, and at every time, the account is selectable exactly when it was before.
pub soft_for_model-healthy :
    {F : Type 0} (p : Pool F) (now base reset_at : ℕ) (model reason : String) (e : Entry F)
    → reset_at ≢ 0
    → (t : ℕ) (m : String) → m ≢ ""
    → healthy_for_model (soft_for_model_entry p now base reset_at model reason e) t m ≡ (
        if str_eq model m
        then healthy e t && not (ltb t (capped_soft_until p now reset_at))
        else healthy_for_model e t m)
unfolding healthy_for_model model_cooled limit_row healthy
soft_for_model-healthy p now base reset_at model reason e nz t m ne =
    rw (soft_for_model_limited p now base reset_at model reason e nz) (
      ground (
        arith,
        eq_iff m "",
        eq_iff model m,
        (capped_soft_until_lem p now reset_at).0,
        lookup-insert model m (limit_row p now reset_at reason) e.model_cooldowns,
      ))
