-- ===== src/Pool/Floats.antt =====
-- The operations on float64 that the pool uses, which the language does not define. They carry no
-- laws: what is proved of the selection holds whatever the weights come out to be.
use workbuddy2plus_plugin.Base.{ℕ, ℤ, Bool}

pub record Floats (F : Type 0) : Type 0 where
  -- The constant n / m.
  pub ratio : ℕ → ℕ → F
  pub of_int : ℤ → F
  -- The conversion to int64, towards zero.
  pub to_int : F → ℤ
  pub add : F → F → F
  pub sub : F → F → F
  pub mul : F → F → F
  pub div : F → F → F
  pub lt : F → F → Bool
  pub le : F → F → Bool
  pub eq : F → F → Bool
