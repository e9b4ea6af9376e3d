-- ===== src/Pool/Tests/Accounts.antt =====
-- Balances, disabling, restarts, alignments and counts at concrete accounts.
use workbuddy2plus_plugin.Base.{
  ℕ, ◌+◌, ◌-◌, ◌≤◌, String, ◌≡◌, refl, ◌≢◌, true, false, none, some, List, [], ◌∷◌, arith, pos,
  pos_part, ◌≤ℤ◌, length, lookup, HasUniqueKeys,
}
use workbuddy2plus_plugin.Pool.Types.{Auth, Entry, minute}
use workbuddy2plus_plugin.Pool.Health.{healthy_for_model, in_flight_full, model_exempt}
use workbuddy2plus_plugin.Pool.State.{manual_disabled_state}
use workbuddy2plus_plugin.Pool.Cost.{deduct}
use workbuddy2plus_plugin.Pool.Cost.Balance.{IsBalanced, deduct-IsBalanced}
use workbuddy2plus_plugin.Pool.Query.{
  available_uids_locked, counts_detailed_for_realm, servable_locked,
}
use workbuddy2plus_plugin.Pool.Health.{healthy, in_flight_full, model_exempt}
use workbuddy2plus_plugin.Pool.Query.Counted.{counts_detailed_lem}
use workbuddy2plus_plugin.Pool.Sync.{sync_to_dir}
use workbuddy2plus_plugin.Pool.Sync.Aligned.{last_of, with_auth, lookup-sync_to_dir}
use workbuddy2plus_plugin.Pool.Persist.Restart.{restarted, load_entry-save_entry}
use workbuddy2plus_plugin.Pool.Pick.{pick, pick_by_uid_for_model, prune_all}
use workbuddy2plus_plugin.Pool.Events.{Event, run}
use workbuddy2plus_plugin.Pool.Events.Manual.{run-manual_disabled_state, stopped-never_picked}
use workbuddy2plus_plugin.Pool.Tests.{
  whole, unshuffled, unshuffled-Perm, low, ann, noon, fresh, stopped, barred, empty, open_pool,
  cooled_pool,
}

fresh-IsBalanced : IsBalanced fresh
unfolding fresh
fresh-IsBalanced = record { part_nonneg = ground arith; part_le = ground arith }

deduct-IsBalanced_example :
    IsBalanced (deduct (pos 60) fresh)
    × ((deduct (pos 60) fresh).credits ≡ pos (pos_part fresh.credits - 60))
    × ((deduct (pos 60) fresh).credits_expiring ≡ pos (pos_part fresh.credits_expiring - 60))
deduct-IsBalanced_example = deduct-IsBalanced 60 fresh fresh-IsBalanced

nonneg : pos 0 ≤ℤ pos 30
nonneg = ground arith

counts_detailed_lem_example :
    ((counts_detailed_for_realm noon "cn" open_pool).total
      ≡ (counts_detailed_for_realm noon "cn" open_pool).healthy
        + (counts_detailed_for_realm noon "cn" open_pool).cooling
        + (counts_detailed_for_realm noon "cn" open_pool).disabled)
    × ((counts_detailed_for_realm noon "cn" open_pool).healthy
        ≡ (counts_detailed_for_realm noon "cn" open_pool).in_flight_full
          + length (available_uids_locked "cn" (λ e. healthy e noon) open_pool))
counts_detailed_lem_example = counts_detailed_lem open_pool "cn" noon

nobody : servable_locked noon "cn" cooled_pool ≡ false
unfolding servable_locked in_flight_full empty healthy stopped model_exempt
nobody = refl

lookup-sync_to_dir_example :
    lookup "ann" (sync_to_dir (ann ∷ ann ∷ []) open_pool).0.by_uid
    ≡ elim (last_of (ann ∷ ann ∷ []) "ann") [
      | none ↦ none
      | some a ↦ some (with_auth a (lookup "ann" open_pool.by_uid))
    ]
lookup-sync_to_dir_example = lookup-sync_to_dir (ann ∷ ann ∷ []) open_pool "ann"

barred_unique : HasUniqueKeys barred.model_cooldowns
unfolding barred lookup
barred_unique = (refl, tt)

load_entry-save_entry_example :
    ((t : ℕ) (m : String)
      → noon ≤ t
      → noon + minute ≤ t
      → healthy_for_model (restarted whole noon (noon + minute) "ann" barred) t m
        ≡ healthy_for_model barred t m)
    × ((restarted whole noon (noon + minute) "ann" barred).credits ≡ barred.credits)
    × ((restarted whole noon (noon + minute) "ann" barred).manual_disabled ≡ barred.manual_disabled)
    × ((restarted whole noon (noon + minute) "ann" barred).manual_reason ≡ barred.manual_reason)
    × ((restarted whole noon (noon + minute) "ann" barred).disabled ≡ barred.disabled)
    × ((restarted whole noon (noon + minute) "ann" barred).until ≡ barred.until)
    × ((restarted whole noon (noon + minute) "ann" barred).soft_streak ≡ barred.soft_streak)
    × ((restarted whole noon (noon + minute) "ann" barred).session_dead_fails
        ≡ barred.session_dead_fails)
load_entry-save_entry_example =
    load_entry-save_entry whole noon (noon + minute) "ann" barred barred_unique

open_unique : HasUniqueKeys open_pool.by_uid
unfolding lookup
open_unique = (refl, (refl, tt))

bob_there : lookup "bob" open_pool.by_uid ≡ some stopped
unfolding lookup
bob_there = refl

bob_stopped : manual_disabled_state "bob" open_pool ≡ some (true, "")
unfolding manual_disabled_state stopped lookup
bob_stopped = refl

abbrev morning : List (ℕ × Event ℕ)
morning =
    (noon, Event.succeeds "bob")
    ∷ (noon, Event.revives "bob")
    ∷ (noon, Event.reenables "bob" (pos 500))
    ∷ []

run-manual_disabled_state_example :
    HasUniqueKeys (run whole unshuffled low morning open_pool).by_uid
    × ((uid : String)
        → manual_disabled_state uid (run whole unshuffled low morning open_pool)
          ≡ manual_disabled_state uid open_pool)
run-manual_disabled_state_example =
    run-manual_disabled_state whole unshuffled low unshuffled-Perm morning open_pool open_unique

stopped-never_picked_example :
    ((pick_by_uid_for_model noon "bob" "gpt" (run whole unshuffled low morning open_pool)).1 ≡ none)
    × ((a : Auth)
        → (pick whole unshuffled low noon [] "gpt" "cn"
            (run whole unshuffled low morning open_pool)).1
          ≡ some a
        → (uid : String) × (e : Entry ℕ) × (lookup uid
              (prune_all noon (run whole unshuffled low morning open_pool)).by_uid
            ≡ some e)
          × (a ≡ e.a)
          × (uid ≢ "bob"))
stopped-never_picked_example =
    stopped-never_picked whole unshuffled low unshuffled-Perm morning open_pool "bob" "" open_unique
      bob_stopped noon [] "gpt" "cn"
