-- ===== src/Pool/Query.antt =====
-- internal/pool/state.go and realm.go: the questions about the pool's availability.
pub mod Counted
use Prim.Native.String.{compare}
use text.Mathlib.Text.{is_lt}
use workbuddy2plus_plugin.Base.{
  ℕ, ◌+◌, Bool, false, not, ◌||◌, String, List, [], ◌∷◌, if◌then◌else◌, Dict, keep, map,
  sort_stable, some_of,
}
use workbuddy2plus_plugin.Pool.Types.{Entry, Pool}
use workbuddy2plus_plugin.Pool.Health.{healthy, healthy_for_model, model_exempt, in_flight_full}
use workbuddy2plus_plugin.Pool.Pick.Fallback.{realm_ok}

abbrev pub text_lt : String → String → Bool
text_lt s t = is_lt (compare s t)

pub record Counts : Type 0 where
  pub total : ℕ
  pub healthy : ℕ
  pub cooling : ℕ
  pub disabled : ℕ
  pub in_flight_full : ℕ

abbrev pub no_counts : Counts
no_counts = record { total = 0; healthy = 0; cooling = 0; disabled = 0; in_flight_full = 0 }

module _ {F : Type 0} where
  -- The account passes every `continue` of the loop.
  abbrev pub is_available : Pool F → String → (Entry F → Bool) → String × Entry F → Bool
  is_available p realm health (uid, e) =
      if not (realm_ok realm e)
      then false
      else if not (health e)
      then false
      else not (in_flight_full p e)

  unfoldable pub available_uids_locked : String → (Entry F → Bool) → Pool F → List String
  available_uids_locked realm health p =
      sort_stable text_lt (map (λ kv. kv.0) (keep (is_available p realm health) p.by_uid))

  unfoldable pub available_uids : ℕ → Pool F → List String
  unfolding available_uids_locked
  available_uids now p = available_uids_locked "" (λ e. healthy e now) p

  unfoldable pub available_uids_for_model_realm : ℕ → String → String → Pool F → List String
  unfolding available_uids_locked
  available_uids_for_model_realm now model realm p =
      available_uids_locked realm (λ e. healthy_for_model e now model) p

  -- One round of the counting loop.
  unfoldable pub count_entry : Pool F → String → ℕ → Entry F → Counts → Counts
  count_entry p realm now e c =
      if not (realm_ok realm e)
      then c
      else if e.disabled || e.manual_disabled
      then record c { total = c.total + 1; disabled = c.disabled + 1 }
      else if not (healthy e now)
      then record c { total = c.total + 1; cooling = c.cooling + 1 }
      else record c {
        total = c.total + 1;
        healthy = c.healthy + 1;
        in_flight_full = c.in_flight_full + (if in_flight_full p e then 1 else 0);
      }

  unfoldable pub count_all : Pool F → String → ℕ → Dict (Entry F) → Counts → Counts
  unfolding count_entry
  count_all p realm now [] c = c
  count_all p realm now ((uid, e) ∷ rest) c =
      count_all p realm now rest (count_entry p realm now e c)

  unfoldable pub counts_detailed_for_realm : ℕ → String → Pool F → Counts
  unfolding count_all
  counts_detailed_for_realm now realm p = count_all p realm now p.by_uid no_counts

  abbrev pub is_servable : Pool F → String → ℕ → String × Entry F → Bool
  is_servable p realm now (uid, e) =
      if not (realm_ok realm e)
      then false
      else if in_flight_full p e
      then false
      else healthy e now || model_exempt e

  unfoldable pub servable_locked : ℕ → String → Pool F → Bool
  servable_locked now realm p = some_of (is_servable p realm now) p.by_uid
