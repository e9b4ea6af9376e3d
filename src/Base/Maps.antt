-- ===== src/Base/Maps.antt =====
-- A Go map with string keys as an association list; its order stands for the order of iteration.
use Prim.Native.String.{String}
use mathlib.Core.Path.{◌≡◌, refl}
use mathlib.Core.List.{List, [], ◌∷◌}
use mathlib.Core.Option.{Option, none, some}
use native.Mathlib.Omega.{arith}
use text.Mathlib.Text.{◌==◌ as str_eq}
use text.Mathlib.TextEquality.{eq_iff}
use workbuddy2plus_plugin.Base.Tests.{if◌then◌else◌}

abbrev pub Dict {ℓ} : Type ℓ → Type ℓ
Dict V = List (String × V)

module _ {ℓ} {V : Type ℓ} where
  unfoldable pub lookup : String → Dict V → Option V
  lookup key [] = none
  lookup key (kv ∷ rest) = if str_eq kv.0 key then some kv.1 else lookup key rest

  -- `m[k] = v`
  unfoldable pub insert : String → V → Dict V → Dict V
  insert key x [] = (key, x) ∷ []
  insert key x (kv ∷ rest) = if str_eq kv.0 key then (key, x) ∷ rest else kv ∷ insert key x rest

  -- `delete(m, k)`; a key stands once in a Go map, and every entry of the key goes.
  unfoldable pub delete : String → Dict V → Dict V
  delete key [] = []
  delete key (kv ∷ rest) = if str_eq kv.0 key then delete key rest else kv ∷ delete key rest

  pub lookup-insert :
      (key other : String) (x : V) (l : Dict V)
      → lookup other (insert key x l) ≡ (if str_eq key other then some x else lookup other l)
  unfolding lookup insert
  lookup-insert key other x [] = refl
  lookup-insert key other x (kv ∷ rest) =
      ground (
        arith,
        lookup-insert key other x rest,
        eq_iff kv.0 other,
        eq_iff kv.0 key,
        eq_iff key other,
      )

  pub lookup-delete :
      (key other : String) (l : Dict V)
      → lookup other (delete key l) ≡ (if str_eq key other then none else lookup other l)
  unfolding lookup delete
  lookup-delete key other [] = ground arith
  lookup-delete key other (kv ∷ rest) =
      ground
        (arith, lookup-delete key other rest, eq_iff kv.0 other, eq_iff kv.0 key, eq_iff key other)
