-- ===== src/Pool/Types/Update.antt =====
-- The effect of an update of one account on the map of accounts.
use mathlib.Core.Option
use workbuddy2plus_plugin.Base.{
  ◌≡◌, inl, inr, String, str_eq, arith, if◌then◌else◌, Option-cases, eq_iff, lookup, lookup-insert,
}
use workbuddy2plus_plugin.Pool.Types.{Entry, Pool, update_entry}

module _ {F : Type 0} where
  -- What an update leaves at every key.
  pub lookup-update_entry :
      (uid j : String) (f : Entry F → Entry F) (p : Pool F)
      → lookup j (update_entry uid f p).by_uid
        ≡ (if str_eq uid j then Option.map f (lookup j p.by_uid) else lookup j p.by_uid)
  unfolding update_entry
  lookup-update_entry uid j f p = elim (Option-cases (lookup uid p.by_uid)) [
    | inl e ↦ ground (arith, eq_iff uid j)
    | inr (x, e) ↦
        rw (e, update_entry) (ground (arith, eq_iff uid j, lookup-insert uid j (f x) p.by_uid))
  ]
