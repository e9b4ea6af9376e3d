-- ===== src/Plugin/Tests/Scheduling.antt =====
-- plugin/scheduler.go and active_auth.go: requests of the host on concrete candidates.
use mathlib.Core.List.{Memᴰ}
use mathlib.Core.Path.{subst}
use workbuddy2plus_plugin.Base.{
  ℕ, String, ◌≡◌, refl, sym, insert, ◌≢◌, ◌⊎◌, Bool, true, false, Option, some, List, [], ◌∷◌, map,
  keep, lookup, Dict, pos,
}
use workbuddy2plus_plugin.Upstream.Texts.{trim, trim_left, trim_right, lower_is}
use workbuddy2plus_plugin.Pool.Types.{Pool}
use workbuddy2plus_plugin.Pool.State.{manual_disabled_state}
use workbuddy2plus_plugin.Pool.Tests.{whole, unshuffled, low, noon, open_pool}
use workbuddy2plus_plugin.Plugin.Active.{
  Candidate, current, by_id, remember, pick_active_auth, ensure_default_active_auth,
}
use workbuddy2plus_plugin.Plugin.Active.Choice.{pick_active_auth-ensure_default_active_auth}
use workbuddy2plus_plugin.Plugin.Scheduler.{
  Credits, is_exhausted, cached_credits_score, HostCandidate, Router, deferred, eligible,
  candidate_disabled, manual_disabled_for_auth_uid, handle_scheduler_pick,
}
use workbuddy2plus_plugin.Plugin.Scheduler.Answer.{AllNamed, IsServed, handle_scheduler_pick_lem}
use workbuddy2plus_plugin.Plugin.Scheduler.Sticky.{handle_scheduler_pick-sticky}

abbrev host_noon : ℕ → ℕ
host_noon n = noon

abbrev all_ready : String → Bool
all_ready id = true

abbrev balances : Dict (Option Credits)
balances =
    (
      "bob",
      some (record { total_remain = pos 5; total_used = pos 1; total_size = pos 6; packages = 1 }),
    )
    ∷ []

abbrev hosted : String → String → HostCandidate ℕ
hosted id provider = record { id = id; provider = provider; status = "active"; metadata = [] }

abbrev hosts : List (HostCandidate ℕ)
hosts =
    hosted "ann" "workbuddy"
    ∷ hosted "eve" "other"
    ∷ hosted "bob" "workbuddy"
    ∷ hosted "cid" "workbuddy"
    ∷ []

-- No account was ever reported on.
abbrev unused_pool : Pool ℕ
unused_pool = record open_pool { by_uid = [] }

abbrev router : Router ℕ
router = record { mode = "credits"; active = " ann "; pool = unused_pool }

abbrev seen_ids : List String
seen_ids = map (λ c. c.id) (keep (eligible all_ready unused_pool) hosts)

seen_names : seen_ids ≡ "ann" ∷ "bob" ∷ "cid" ∷ []
unfolding eligible candidate_disabled manual_disabled_for_auth_uid manual_disabled_state trim
    trim_left trim_right lower_is lookup
seen_names = refl

seen-AllNamed : AllNamed seen_ids
seen-AllNamed = subst AllNamed (sym seen_names) (refl, (refl, (refl, tt)))

ann_active : trim " ann " ≡ "ann"
unfolding trim trim_left trim_right
ann_active = refl

active_seen : Memᴰ (trim " ann ") seen_ids
active_seen = subst (λ ids. Memᴰ (trim " ann ") ids) (sym seen_names) (Memᴰ.head ann_active)

active_funded : is_exhausted balances (trim " ann ") ≡ false
unfolding cached_credits_score lookup trim trim_left trim_right
active_funded = refl

handle_scheduler_pick_lem_example :
    let out =
      handle_scheduler_pick whole unshuffled low host_noon all_ready balances hosts "gpt" router in
    ((router.mode ≢ "credits") ⊎ (seen_ids ≡ [])) × (out ≡ (router, deferred))
    ⊎ (router.mode ≡ "credits") × IsServed balances seen_ids out.1
handle_scheduler_pick_lem_example =
    handle_scheduler_pick_lem whole unshuffled low host_noon all_ready balances hosts "gpt" router
      seen-AllNamed

handle_scheduler_pick-sticky_example :
    handle_scheduler_pick whole unshuffled low host_noon all_ready balances hosts "gpt" router
    ≡ (router, record { auth_id = trim " ann "; handled = true })
handle_scheduler_pick-sticky_example =
    handle_scheduler_pick-sticky whole unshuffled low host_noon all_ready balances hosts "gpt"
      router seen-AllNamed refl active_seen active_funded

abbrev listed : List Candidate
listed =
    record { id = "ann"; disabled = false; exhausted = true }
    ∷ record { id = "bob"; disabled = false; exhausted = false }
    ∷ []

pick_active_auth-ensure_default_active_auth_example :
    pick_active_auth "ann" listed ≡ ensure_default_active_auth "ann" listed
pick_active_auth-ensure_default_active_auth_example =
    pick_active_auth-ensure_default_active_auth "ann" listed (refl, (refl, tt)) (refl, (refl, tt))

-- With a disabled account the two differ.
abbrev half_disabled : List Candidate
half_disabled =
    record { id = "ann"; disabled = true; exhausted = false }
    ∷ record { id = "bob"; disabled = false; exhausted = true }
    ∷ []

routed : pick_active_auth "" half_disabled ≡ ("ann", "ann")
unfolding pick_active_auth current by_id lookup insert remember trim trim_left trim_right
routed = refl

displayed : ensure_default_active_auth "" half_disabled ≡ ("bob", "bob")
unfolding ensure_default_active_auth current by_id lookup insert remember trim trim_left trim_right
displayed = refl
