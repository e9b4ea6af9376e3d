-- ===== src/Pool/Tests/Cooldowns.antt =====
-- Cooldowns, the negative cache and the breaker at concrete accounts.
use workbuddy2plus_plugin.Base.{
  ℕ, ◌+◌, ◌*◌, ◌^◌, min, String, ◌≡◌, refl, ◌≢◌, true, not, ◌&&◌, some, List, [], ◌∷◌, arith,
  str_eq, ltb, if◌then◌else◌, lookup,
}
use workbuddy2plus_plugin.Pool.Types.{hour, minute}
use workbuddy2plus_plugin.Pool.Health.{healthy, healthy_for_model, model_cooled}
use workbuddy2plus_plugin.Pool.Cooldown.{capped_soft_until, soft_for_model_entry}
use workbuddy2plus_plugin.Pool.Cooldown.Soft.{soft_for_model-healthy}
use workbuddy2plus_plugin.Pool.Breaker.{breaker_backoff, error_entry}
use workbuddy2plus_plugin.Pool.Breaker.Laws.{breaker_backoff_lem, errors, errors-trip}
use workbuddy2plus_plugin.Pool.Tests.{noon, fresh, barred, empty, barred_pool}

gpt_named : ◌≢◌ {A = String} "gpt" ""
gpt_named q = cc (q)

claude_named : ◌≢◌ {A = String} "claude" ""
claude_named q = cc (q)

ann_named : ◌≢◌ {A = String} "ann" ""
ann_named q = cc (q)

later_not_zero : noon + hour ≢ 0
later_not_zero q = absurd (omega (arith, q))

soft_for_model-healthy_example :
    healthy_for_model
      (soft_for_model_entry empty noon minute (noon + hour) "gpt" "6004" fresh)
      noon
      "claude"
    ≡ (if str_eq "gpt" "claude"
        then healthy fresh noon && not (ltb noon (capped_soft_until empty noon (noon + hour)))
        else healthy_for_model fresh noon "claude")
soft_for_model-healthy_example =
    soft_for_model-healthy empty noon minute (noon + hour) "gpt" "6004" fresh later_not_zero noon
      "claude" claude_named

ann_barred : lookup "ann" barred_pool.by_uid ≡ some barred
unfolding lookup
ann_barred = refl

breaker_backoff_lem_example : breaker_backoff 3 minute hour ≡ min (minute * 2 ^ 3) hour
breaker_backoff_lem_example =
    breaker_backoff_lem 3 minute hour (omega arith) (omega arith) (omega arith)

errors-trip_example :
    ((errors empty (noon ∷ (noon + minute) ∷ []) fresh).breaker_until ≡ fresh.breaker_until)
    × ((error_entry empty (noon + hour) (errors empty (noon ∷ (noon + minute) ∷ []) fresh)).fails
        ≡ 0)
    × ((error_entry empty
          (noon + hour)
          (errors empty (noon ∷ (noon + minute) ∷ []) fresh)).retry_count
        ≡ fresh.retry_count + 1)
    × ((error_entry empty
          (noon + hour)
          (errors empty (noon ∷ (noon + minute) ∷ []) fresh)).breaker_until
        ≡ noon
          + hour
          + breaker_backoff fresh.retry_count empty.breaker_cooldown empty.breaker_cooldown_max)
unfolding fresh empty
errors-trip_example = errors-trip empty (noon ∷ (noon + minute) ∷ []) (noon + hour) fresh refl refl

abbrev four_times : List ℕ
four_times = noon ∷ noon ∷ (noon + minute) ∷ (noon + minute) ∷ []

barred_for_claude : healthy_for_model barred noon "claude" ≡ true
unfolding healthy_for_model healthy barred model_cooled lookup
barred_for_claude = refl
