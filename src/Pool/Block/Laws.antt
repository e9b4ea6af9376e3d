-- ===== src/Pool/Block/Laws.antt =====
-- cooldown.go: the back-off of the 11102 negative cache, and what blocking and clearing change.
use workbuddy2plus_plugin.Base.{
  ℕ, zero, suc, ◌+◌, ◌-◌, ◌*◌, ◌^◌, ◌≤◌, min, String, ◌≡◌, refl, ◌≢◌, inl, inr, not, ◌&&◌, none,
  some, arith, str_eq, eq_iff, ltb, leb, if◌then◌else◌, Option-cases, lookup, lookup-insert,
  lookup-delete,
}
use mathlib.Core.Option
use native.Mathlib.Nat.{pow-suc}
use workbuddy2plus_plugin.Pool.Types.{model_block_shift, ModelCooldown, Entry, Pool, hour}
use workbuddy2plus_plugin.Pool.Health.{healthy, healthy_for_model, model_cooled}
use workbuddy2plus_plugin.Pool.Block.{
  block_ttl, hits_of, block_entry, has_block, block_model_clear, unblock_entry,
}

one_le_pow : (n : ℕ) → 1 ≤ 2 ^ n
one_le_pow zero = omega arith
one_le_pow (suc n) = rw pow-suc (omega (arith, one_le_pow n))

four_le_pow : (n : ℕ) → 2 ≤ n → 4 ≤ 2 ^ n
four_le_pow zero h = omega arith
four_le_pow (suc zero) h = omega arith
four_le_pow (suc (suc n)) h = rw (pow-suc, pow-suc) (omega (arith, one_le_pow n))

-- The back-off is 6 hours after the first hit, 12 after the second, and 24 from the third on.
pub block_ttl_steps :
    (hits : ℕ)
    → block_ttl hits
      ≡ (if leb hits 1 then 6 * hour else if leb hits 2 then 12 * hour else 24 * hour)
unfolding block_ttl
block_ttl_steps zero = refl
block_ttl_steps (suc zero) = refl
block_ttl_steps (suc (suc zero)) = refl
block_ttl_steps (suc (suc (suc n))) =
    ground (arith, four_le_pow (min (suc (suc (suc n)) - 1) model_block_shift))

blocked_row : {F : Type 0} → ℕ → String → String → Entry F → ModelCooldown
blocked_row now model reason e =
    let hits = hits_of (lookup model e.model_cooldowns) + 1 in
    record { until = now + block_ttl hits; reset_at = 0; reason = reason; hits = hits }

-- A hit of 11102 bars the model for the back-off of the hits so far, and counts the hit. Every
-- other model is selectable on the account exactly when it was before, at every time.
pub block_entry-healthy :
    {F : Type 0} (now : ℕ) (model reason : String) (e : Entry F) (t : ℕ) (m : String)
    → m ≢ ""
    → let hits = hits_of (lookup model e.model_cooldowns) + 1 in
      (healthy_for_model (block_entry now model reason e) t m ≡ (
        if str_eq model m
        then healthy e t && not (ltb t (now + block_ttl hits))
        else healthy_for_model e t m))
      × (hits_of (lookup model (block_entry now model reason e).model_cooldowns) ≡ hits)
unfolding block_entry blocked_row healthy_for_model model_cooled healthy
block_entry-healthy now model reason e t m ne =
    let row = blocked_row now model reason e in
    (
      ground (arith, eq_iff m "", eq_iff model m, lookup-insert model m row e.model_cooldowns),
      ground (arith, eq_iff model model, lookup-insert model model row e.model_cooldowns),
    )

cleared : {F : Type 0} → String → Entry F → Entry F
cleared model e = if has_block model e then unblock_entry model e else e

cleared-lookup :
    {F : Type 0} (model m : String) (e : Entry F)
    → lookup m (cleared model e).model_cooldowns
      ≡ (if has_block model e && str_eq model m then none else lookup m e.model_cooldowns)
unfolding cleared
cleared-lookup model m e = ground (arith, lookup-delete model m e.model_cooldowns)

-- Clearing changes at most the one account, and there only the table of model cooldowns.
block_model_clear-account :
    {F : Type 0} (uid model : String) (p : Pool F) (j : String)
    → uid ≢ ""
    → model ≢ ""
    → lookup j (block_model_clear uid model p).by_uid
      ≡ (if str_eq uid j then Option.map (cleared model) (lookup j p.by_uid) else lookup j p.by_uid)
unfolding block_model_clear cleared
block_model_clear-account uid model p j nu nm = elim (Option-cases (lookup uid p.by_uid)) [
  | inl a ↦ ground (arith, eq_iff uid "", eq_iff model "", eq_iff uid j)
  | inr (x, a) ↦ ground (
    arith,
    eq_iff uid "",
    eq_iff model "",
    eq_iff uid j,
    lookup-insert uid j (unblock_entry model x) p.by_uid,
  )
]

-- Clearing the block of a model on an account takes away the model's entry there if it is an 11102
-- entry, and no other entry of any account. The names are not empty.
pub block_model_clear-lookup :
    {F : Type 0} (uid model : String) (p : Pool F) (j m : String) (e : Entry F)
    → uid ≢ ""
    → model ≢ ""
    → lookup j p.by_uid ≡ some e
    → (e' : Entry F) × (lookup j (block_model_clear uid model p).by_uid ≡ some e')
      × (lookup m e'.model_cooldowns ≡ (
          if str_eq uid j && (has_block model e && str_eq model m)
          then none
          else lookup m e.model_cooldowns))
block_model_clear-lookup uid model p j m e nu nm at = (
  if str_eq uid j then cleared model e else e,
  ground (arith, block_model_clear-account uid model p j),
  ground (arith, cleared-lookup model m e),
)
