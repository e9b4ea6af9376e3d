-- ===== src/Pool/Cost/Balance.antt =====
-- cooldown.go, state.go: the balance of an account and the part of it that expires soon.
use workbuddy2plus_plugin.Base.{ℕ, ◌-◌, ◌≡◌, refl, arith, ℤ, pos, negsuc, pos_part, ◌-ℤ◌, ◌≤ℤ◌}
use workbuddy2plus_plugin.Pool.Types.{Entry}
use workbuddy2plus_plugin.Pool.Cost.{deduct}
use workbuddy2plus_plugin.Pool.State.{credits_entry}

-- The expiring part lies between nothing and the whole balance.
pub record IsBalanced {F : Type 0} (e : Entry F) : Type 0 where
  pub part_nonneg : pos 0 ≤ℤ e.credits_expiring
  pub part_le : e.credits_expiring ≤ℤ e.credits

-- A balance reported with its expiring part is stored so that the part lies within the balance,
-- whatever part was reported, if the balance itself is not negative.
pub credits_entry-IsBalanced :
    {F : Type 0} (credits expiring : ℤ) (e : Entry F)
    → pos 0 ≤ℤ credits
    → IsBalanced (credits_entry credits expiring e)
      × ((credits_entry credits expiring e).credits ≡ credits)
unfolding credits_entry
credits_entry-IsBalanced credits expiring e h = (ground arith, refl)

-- A negative balance is stored with a negative expiring part.
pub credits_entry_negative :
    {F : Type 0} (n : ℕ) (expiring : ℤ) (e : Entry F)
    → (credits_entry (negsuc n) expiring e).credits_expiring ≡ negsuc n
unfolding credits_entry
credits_entry_negative n expiring e = ground arith

-- What a request costs is taken off the balance, down to nothing and never below, and first off the
-- expiring part; the part stays within the balance. The cost is not negative and the account was
-- balanced.
pub deduct-IsBalanced :
    {F : Type 0} (d : ℕ) (e : Entry F)
    → IsBalanced e
    → IsBalanced (deduct (pos d) e)
      × ((deduct (pos d) e).credits ≡ pos (pos_part e.credits - d))
      × ((deduct (pos d) e).credits_expiring ≡ pos (pos_part e.credits_expiring - d))
unfolding deduct ◌-ℤ◌
deduct-IsBalanced d e h = (ground arith, ground arith, ground arith)
