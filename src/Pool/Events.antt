-- ===== src/Pool/Events.antt =====
-- internal/pool: the calls that the handlers make on a pool, as one type of events, and runs of
-- them. Left out are the manual stop itself, the alignment with a scan, the reload and the setters.
pub mod Kept
pub mod Manual
use mathlib.Core.List.{Permᴰ}
use workbuddy2plus_plugin.Base.{
  ℕ, zero, suc, ◌+◌, ◌-◌, ◌*◌, ◌/◌, ◌%◌, ◌^◌, ◌≤◌, ◌<◌, min, String, ◌≡◌, refl, sym, ap, ◌∙◌, ◌≢◌,
  ◌↔◌, ◌⊎◌, inl, inr, Bool, true, false, not, ◌&&◌, ◌||◌, Option, none, some, List, [], ◌∷◌, ◌++◌,
  map, arith, str_eq, starts_with, eq_iff, ltb, leb, ◌==◌, if◌then◌else◌, ltb→lt, lt→ltb, leb→le,
  le→leb, ==_iff, tests, Bool-cases, Option-cases, ℤ, pos, negsuc, pos_part, neg_part, sub_ℕ, ◌-ℤ◌,
  ◌≤ℤ◌, ltb_ℤ, length, take, keep, All, All-append, All-take, every, some_of, insert_sorted,
  sort_stable, Dict, lookup, insert, delete, lookup-insert, lookup-delete, All-map_pred, All-Mem,
  Mem-All, All-keep, keep-passes, All-insert_sorted, All-sort_stable, All-perm, length-perm,
  length-insert_sorted, length-sort_stable, some_of-Mem, All-and, HasUniqueKeys,
  HasUniqueKeys-insert, lookup-Mem, lookup-map, HasUniqueKeys-map, lookup-keep,
}
use workbuddy2plus_plugin.Pool.Types.{CoolKind, Entry, Pool}
use workbuddy2plus_plugin.Pool.Floats.{Floats}
use workbuddy2plus_plugin.Pool.Cooldown.{cooldown, cooldown_soft_for_model, cooldown_soft_rate}
use workbuddy2plus_plugin.Pool.Block.{block_model_backoff, block_model_clear}
use workbuddy2plus_plugin.Pool.Breaker.{note_error, note_failures, note_success}
use workbuddy2plus_plugin.Pool.State.{
  disable, note_session_dead, clear_session_dead, revive_disabled, reenable_if_credits, set_credits,
  set_credits_detailed,
}
use workbuddy2plus_plugin.Pool.Lease.{acquire, release}
use workbuddy2plus_plugin.Pool.Cost.{note_model_cost}
use workbuddy2plus_plugin.Pool.Pick.Weights.{Weighted}
use workbuddy2plus_plugin.Pool.Pick.{pick, pick_by_uid_for_model}

pub data Event (F : Type 0) : Type 0 where
  acquires releases session_dies session_lives revives errs fails succeeds : String → Event F
  disables : String → String → Event F
  reenables credits : String → ℤ → Event F
  credits_detailed : String → ℤ → ℤ → Event F
  cools : String → CoolKind → ℕ → String → Event F
  limits_model : String → ℕ → ℕ → String → String → Event F
  limits : String → ℕ → ℕ → String → Event F
  blocks : String → String → String → Event F
  unblocks : String → String → Event F
  costs : String → String → F → ℤ → Event F
  picks : List String → String → String → Event F
  picks_uid : String → String → Event F

module _ {F : Type 0} (fl : Floats F) (shuffle : List (Weighted F) → List (Weighted F))
    (rnd : ℕ → ℕ) where
  unfoldable pub apply : ℕ → Event F → Pool F → Pool F
  apply now (acquires uid) p = (acquire uid p).0
  apply now (releases uid) p = release uid p
  apply now (session_dies uid) p = (note_session_dead uid p).0
  apply now (session_lives uid) p = clear_session_dead uid p
  apply now (revives uid) p = (revive_disabled uid p).0
  apply now (errs uid) p = note_error now uid p
  apply now (fails uid) p = note_failures now uid p
  apply now (succeeds uid) p = note_success now uid p
  apply now (disables uid reason) p = disable uid reason p
  apply now (reenables uid n) p = reenable_if_credits uid n p
  apply now (credits uid n) p = set_credits uid n p
  apply now (credits_detailed uid n x) p = set_credits_detailed uid n x p
  apply now (cools uid kind d reason) p = cooldown now uid kind d reason p
  apply now (limits_model uid base reset_at model reason) p =
      cooldown_soft_for_model now uid base reset_at model reason p
  apply now (limits uid base reset_at reason) p = cooldown_soft_rate now uid base reset_at reason p
  apply now (blocks uid model reason) p = block_model_backoff now uid model reason p
  apply now (unblocks uid model) p = block_model_clear uid model p
  apply now (costs uid model credit tokens) p = note_model_cost fl now uid model credit tokens p
  apply now (picks tried model realm) p = (pick fl shuffle rnd now tried model realm p).0
  apply now (picks_uid uid model) p = (pick_by_uid_for_model now uid model p).0

  -- The events with their times, one after the other.
  unfoldable pub run : List (ℕ × Event F) → Pool F → Pool F
  unfolding apply
  run [] p = p
  run ((now, ev) ∷ evs) p = run evs (apply now ev p)
