-- ===== src/Pool/Block.antt =====
-- internal/pool/cooldown.go: the negative cache of (account, model) pairs that answered 11102,
-- which shares the table of model cooldowns with the 6004 limits.
pub mod Laws
use workbuddy2plus_plugin.Base.{
  ℕ, ◌+◌, ◌-◌, ◌*◌, ◌^◌, min, Bool, false, ◌||◌, String, str_eq, starts_with, Option, none, some,
  ltb, if◌then◌else◌, lookup, insert, delete,
}
use workbuddy2plus_plugin.Pool.Types.{
  ModelCooldown, Entry, Pool, update_entry, model_block_base_ttl, model_block_max_ttl,
  model_block_shift,
}

-- The back-off for a number of hits.
unfoldable pub block_ttl : ℕ → ℕ
block_ttl hits =
    let d = model_block_base_ttl * 2 ^ min (hits - 1) model_block_shift in
    if ltb d model_block_max_ttl then d else model_block_max_ttl

-- `e.modelCooldowns[model].Hits`, 0 where there is no entry.
abbrev pub hits_of : Option ModelCooldown → ℕ
hits_of none = 0
hits_of (some mc) = mc.hits

-- The reason of an 11102 entry begins with the code.
abbrev pub is_block : ModelCooldown → Bool
is_block mc = starts_with mc.reason "11102"

module _ {F : Type 0} where
  unfoldable pub block_entry : ℕ → String → String → Entry F → Entry F
  block_entry now model reason e =
      let hits = hits_of (lookup model e.model_cooldowns) + 1 in
      record e {
        model_cooldowns =
            insert model
              (record { until = now + block_ttl hits; reset_at = 0; reason = reason; hits = hits })
              e.model_cooldowns;
      }

  unfoldable pub block_model_backoff : ℕ → String → String → String → Pool F → Pool F
  unfolding update_entry block_entry
  block_model_backoff now uid model reason p =
      if str_eq uid "" || str_eq model ""
      then p
      else update_entry uid (block_entry now model reason) p

  -- Whether the model's entry is there and is an 11102 entry.
  abbrev pub has_block : String → Entry F → Bool
  has_block model e = elim (lookup model e.model_cooldowns) [ none ↦ false | some mc ↦ is_block mc ]

  abbrev pub unblock_entry : String → Entry F → Entry F
  unblock_entry model e = record e { model_cooldowns = delete model e.model_cooldowns }

  unfoldable pub block_model_clear : String → String → Pool F → Pool F
  unfolding update_entry
  block_model_clear uid model p =
      if str_eq uid "" || str_eq model "" then p else elim (lookup uid p.by_uid) [
        | none ↦ p
        | some e ↦ if has_block model e then update_entry uid (unblock_entry model) p else p
      ]
