-- ===== src/Pool/Cost.antt =====
-- internal/pool/state.go: the ledger of measured costs, and the credits that a request takes off.
pub mod Balance
use workbuddy2plus_plugin.Base.{
  ℕ, zero, suc, ◌+◌, ℤ, pos, negsuc, ◌-ℤ◌, ltb_ℤ, Bool, true, false, ◌||◌, String, str_eq, Option,
  none, some, if◌then◌else◌, lookup, insert,
}
use workbuddy2plus_plugin.Pool.Types.{ModelCostEntry, Entry, Pool, update_entry}
use workbuddy2plus_plugin.Pool.Floats.{Floats}
use workbuddy2plus_plugin.Pool.Health.{model_cost_of}

module _ {F : Type 0} where
  -- Takes `d` credits off the balance and off the part of it that expires.
  unfoldable pub deduct : ℤ → Entry F → Entry F
  deduct d e =
      let spent = if ltb_ℤ e.credits d then e.credits else d in
      let from_expiring = if ltb_ℤ e.credits_expiring spent then e.credits_expiring else spent in
      record e {
        credits = e.credits -ℤ spent;
        credits_expiring =
            if ltb_ℤ (pos 0) e.credits_expiring
            then e.credits_expiring -ℤ from_expiring
            else e.credits_expiring;
      }

abbrev pub not_positive : ℤ → Bool
not_positive (pos zero) = true
not_positive (pos (suc n)) = false
not_positive (negsuc n) = true

module _ {F : Type 0} (fl : Floats F) where
  open fl use {ratio, of_int, to_int, add, sub, mul, div, lt}

  unfoldable pub unit_price : F → ℤ → F
  unit_price credit tokens =
      let per1k = mul (div credit (of_int tokens)) (ratio 1000 1) in
      if lt per1k (ratio 0 1) then ratio 0 1 else per1k

  -- The new ledger row: the first observation, or the moving average with α = 0.3.
  abbrev pub observe : ℕ → F → Option (ModelCostEntry F) → ModelCostEntry F
  observe now per1k none = record { cost_per_1k = per1k; last_seen = now; samples = 1 }
  observe now per1k (some prev) = record {
    cost_per_1k = add (mul prev.cost_per_1k (ratio 7 10)) (mul per1k (ratio 3 10));
    last_seen = now;
    samples = prev.samples + 1;
  }

  -- `NoteModelCost` on the entry.
  unfoldable pub cost_entry : ℕ → String → F → ℤ → Entry F → Entry F
  unfolding unit_price
  cost_entry now model credit tokens e =
      let paid = if lt (ratio 0 1) credit then deduct (to_int (add credit (ratio 1 2))) e else e in
      record paid {
        model_cost =
            insert model (observe now (unit_price credit tokens) (lookup model paid.model_cost))
              paid.model_cost;
      }

  unfoldable pub note_model_cost : ℕ → String → String → F → ℤ → Pool F → Pool F
  unfolding update_entry cost_entry
  note_model_cost now uid model credit tokens p =
      if str_eq uid "" || (str_eq model "" || not_positive tokens)
      then p
      else update_entry uid (cost_entry now model credit tokens) p

module _ {F : Type 0} where
  -- `ModelCost`: the price and whether it was observed.
  unfoldable pub model_cost : ℕ → String → String → Pool F → Option F
  unfolding model_cost_of
  model_cost now uid model p = elim (lookup uid p.by_uid) [
    | none ↦ none
    | some e ↦ elim (model_cost_of e model now) [ none ↦ none | some mc ↦ some mc.cost_per_1k ]
  ]
