-- ===== src/Plugin/Tests.antt =====
-- plugin/wb_pool.go: a choice among concrete candidates, and concrete reports.
pub mod Scheduling
use workbuddy2plus_plugin.Base.{
  ℕ, ◌+◌, ◌*◌, String, ◌≡◌, refl, ◌≢◌, ◌⊎◌, inr, Bool, true, false, not, some, List, [], ◌∷◌, arith,
  eq_iff, some_of, lookup,
}
use workbuddy2plus_plugin.Plugin.{is_allowed, pick_from_pool}
use workbuddy2plus_plugin.Pool.Types.{Entry, hour}
use workbuddy2plus_plugin.Pool.Health.{healthy_for_model}
use workbuddy2plus_plugin.Plugin.Report.{apply_upstream_error, err_hard_credit, err_soft_rate}
use workbuddy2plus_plugin.Plugin.Report.Scope.{
  AboutModel, apply_upstream_error-lookup, apply_upstream_error-healthy,
}
use workbuddy2plus_plugin.Plugin.Keys.{IsKeyed}
use workbuddy2plus_plugin.Plugin.Budget.{IsDrawn, pick_from_pool_lem}
use workbuddy2plus_plugin.Pool.Tests.{
  fresh, whole, unshuffled, unshuffled-Perm, low, noon, fresh_uid, stopped_uid, open_pool,
}

abbrev offered : List String
offered = "bob" ∷ "ann" ∷ []

abbrev none_exhausted : String → Bool
none_exhausted id = false

abbrev always_noon : ℕ → ℕ
always_noon n = noon

open-IsKeyed : IsKeyed open_pool.by_uid
open-IsKeyed = (fresh_uid, (stopped_uid, tt))

pick_from_pool_lem_example :
    ((some_of (λ id. not (none_exhausted id)) offered ≡ false)
      × (pick_from_pool whole unshuffled low always_noon offered none_exhausted "gpt" open_pool
          ≡ (open_pool, "")))
    ⊎ ((some_of (λ id. not (none_exhausted id)) offered ≡ true)
        × IsDrawn whole unshuffled low always_noon "gpt"
            (is_allowed offered none_exhausted)
            []
            open_pool
            (pick_from_pool whole unshuffled low always_noon offered none_exhausted "gpt"
              open_pool))
pick_from_pool_lem_example =
    pick_from_pool_lem whole unshuffled low always_noon offered none_exhausted "gpt" open_pool
      unshuffled-Perm open-IsKeyed

abbrev at_four : ℕ → ℕ
at_four n = n * (24 * hour) + 4 * hour

ann_not_bob : ◌≢◌ {A = String} "ann" "bob"
ann_not_bob = ground (arith, eq_iff "ann" "bob")

ann_not_empty : ◌≢◌ {A = String} "ann" ""
ann_not_empty q = cc (q)

gpt_not_empty : ◌≢◌ {A = String} "gpt" ""
gpt_not_empty q = cc (q)

apply_upstream_error-lookup_example :
    lookup "bob"
      (apply_upstream_error noon 12 at_four "ann" "gpt" err_hard_credit false 0 open_pool).by_uid
    ≡ lookup "bob" open_pool.by_uid
apply_upstream_error-lookup_example =
    apply_upstream_error-lookup noon 12 at_four "ann" "gpt" false 0 open_pool err_hard_credit "bob"
      ann_not_bob

reset_named : noon + hour ≢ 0
reset_named q = absurd (omega (arith, q))

about_gpt : AboutModel noon 12 at_four "ann" "gpt" true (noon + hour) open_pool err_soft_rate
about_gpt = inr (refl, refl, reset_named)

ann_there : lookup "ann" open_pool.by_uid ≡ some fresh
unfolding lookup
ann_there = refl

apply_upstream_error-healthy_example :
    (e' : Entry ℕ) × (lookup "ann"
        (apply_upstream_error noon 12 at_four "ann" "gpt" err_soft_rate true
          (noon + hour)
          open_pool).by_uid
      ≡ some e')
    × ((t : ℕ) (m : String)
        → m ≢ ""
        → "gpt" ≢ m
        → healthy_for_model e' t m ≡ healthy_for_model fresh t m)
apply_upstream_error-healthy_example =
    apply_upstream_error-healthy noon 12 at_four "ann" "gpt" true (noon + hour) open_pool
      err_soft_rate fresh about_gpt ann_not_empty gpt_not_empty ann_there
