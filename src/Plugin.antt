-- ===== src/Plugin.antt =====
-- plugin/wb_pool.go: the choice among the candidates that the host offers.
pub mod Keys
pub mod Budget
pub mod Report
pub mod Active
pub mod Scheduler
pub mod Tests
use workbuddy2plus_plugin.Base.{
  ℕ, zero, suc, ◌+◌, String, Bool, not, ◌&&◌, none, some, List, [], ◌∷◌, ◌==◌, if◌then◌else◌,
  length, some_of,
}
use workbuddy2plus_plugin.Pool.Types.{Pool}
use workbuddy2plus_plugin.Pool.Floats.{Floats}
use workbuddy2plus_plugin.Pool.Pick.Fallback.{is_tried}
use workbuddy2plus_plugin.Pool.Pick.Weights.{Weighted}
use workbuddy2plus_plugin.Pool.Pick.{pick}

-- `allowed[id]`: offered by the host, and its cached balance is not exhausted.
abbrev pub is_allowed : List String → (String → Bool) → String → Bool
is_allowed offered exhausted id = is_tried offered id && not (exhausted id)

module _ {F : Type 0} (fl : Floats F) (shuffle : List (Weighted F) → List (Weighted F))
    (rnd : ℕ → ℕ) (clock : ℕ → ℕ) where
  -- The loop of draws with so much budget left; `clock n` is the time of the draw after `n` others.
  unfoldable pub draw : ℕ → List String → String → (String → Bool) → Pool F → Pool F × String
  draw zero tried model allowed p = (p, "")
  draw (suc budget) tried model allowed p =
      let r = pick fl shuffle rnd (clock (length tried)) tried model "" p in
      elim r.1 [
        | none ↦ (r.0, "")
        | some a ↦
            let more = draw budget (a.uid ∷ tried) model allowed r.0 in
            if allowed a.uid then (r.0, a.uid) else more
      ]

  -- `exhausted` answers from the cache of balances.
  unfoldable pub pick_from_pool : List String → (String → Bool) → String → Pool F → Pool F × String
  unfolding draw
  pick_from_pool offered exhausted model p =
      if length offered == 0
      then (p, "")
      else if not (some_of (λ id. not (exhausted id)) offered)
      then (p, "")
      else (let budget = length p.by_uid + length offered in
          draw (if budget == 0 then length offered else budget) [] model
            (is_allowed offered exhausted) p)
