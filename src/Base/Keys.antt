-- ===== src/Base/Keys.antt =====
-- Association lists in which no key stands twice, as in a Go map.
use Prim.Native.String.{String}
use mathlib.Core.Path.{◌≡◌, refl, ap, ◌∙◌}
use mathlib.Core.Logic.{inl, inr}
use mathlib.Core.Bool.{Bool}
use mathlib.Core.List.{[], ◌∷◌, map, Memᴰ}
use mathlib.Core.Option.{Option, none, some}
use mathlib.Core.Option
use native.Mathlib.Omega.{arith}
use text.Mathlib.Text.{◌==◌ as str_eq}
use text.Mathlib.TextEquality.{eq_iff}
use workbuddy2plus_plugin.Base.Tests.{if◌then◌else◌, Bool-cases}
use workbuddy2plus_plugin.Base.Lists.{keep}
use workbuddy2plus_plugin.Base.Maps.{Dict, lookup, insert, lookup-insert}

abbrev pub HasUniqueKeys : {A : Type 0} → Dict A → Type 0
HasUniqueKeys [] = Unit
HasUniqueKeys ((k, v) ∷ rest) = (lookup k rest ≡ none) × HasUniqueKeys rest

module _ {A : Type 0} where
  pub HasUniqueKeys-insert :
      (k : String) (v : A) (l : Dict A) → HasUniqueKeys l → HasUniqueKeys (insert k v l)
  unfolding insert lookup
  HasUniqueKeys-insert k v [] u = (refl, tt)
  HasUniqueKeys-insert k v ((j, w) ∷ m) u = elim (Bool-cases (str_eq j k)) [
    | inl y ↦ rw (y, insert) (ground (arith, eq_iff j k), u.1)
    | inr n ↦
        rw (n, insert)
          (
            ground (arith, lookup-insert k j v m, eq_iff k j, eq_iff j k),
            HasUniqueKeys-insert k v m u.1,
          )
  ]

  -- A member is what its key finds.
  pub lookup-Mem :
      (k : String) (v : A) (l : Dict A) → HasUniqueKeys l → Memᴰ (k, v) l → lookup k l ≡ some v
  unfolding lookup
  lookup-Mem k v [] u m = elim m [ ]
  lookup-Mem k v ((j, w) ∷ l) u (Memᴰ.head q) =
      ground (arith, eq_iff j k, ap (λ x. x.0) q, ap (λ x. x.1) q)
  lookup-Mem k v ((j, w) ∷ l) u (Memᴰ.tail m) = ground (arith, eq_iff j k, lookup-Mem k v l u.1 m)

  pub lookup-map :
      {B : Type 0} (f : A → B) (k : String) (l : Dict A)
      → lookup k (map (λ kv. (kv.0, f kv.1)) l) ≡ Option.map f (lookup k l)
  unfolding lookup
  lookup-map f k [] = refl
  lookup-map f k ((j, w) ∷ l) = ground (arith, lookup-map f k l)

  pub HasUniqueKeys-map :
      {B : Type 0} (f : A → B) (l : Dict A)
      → HasUniqueKeys l
      → HasUniqueKeys (map (λ kv. (kv.0, f kv.1)) l)
  HasUniqueKeys-map f [] u = tt
  HasUniqueKeys-map f ((j, w) ∷ l) u =
      (lookup-map f j l ∙ ap (Option.map f) u.0, HasUniqueKeys-map f l u.1)

  -- A selection by the key finds what the whole map finds.
  pub lookup-keep :
      (P : String → Bool) (k : String) (l : Dict A)
      → lookup k (keep (λ kv. P kv.0) l) ≡ (if P k then lookup k l else none)
  unfolding lookup
  lookup-keep P k [] = ground arith
  lookup-keep P k ((j, w) ∷ l) = ground (arith, eq_iff j k, lookup-keep P k l)
