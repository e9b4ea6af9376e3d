-- ===== src/Base/Members.antt =====
-- Predicates on the members of lists through filters, sorts and permutations.
use Prim.Native.Nat.{suc}
use mathlib.Core.Path.{◌≡◌, refl, sym, ap, ◌∙◌, subst}
use mathlib.Core.Bool.{Bool, true}
use mathlib.Core.Logic.{inl, inr}
use mathlib.Core.List.{List, [], ◌∷◌, Permᴰ, Memᴰ}
use native.Mathlib.Omega.{arith}
use workbuddy2plus_plugin.Base.Tests.{Bool-cases}
use workbuddy2plus_plugin.Base.Lists.{keep, All, length, some_of, insert_sorted, sort_stable}

module _ {ℓ} {A : Type ℓ} where
  pub All-map_pred {κ ι} :
      {P : A → Type κ} {Q : A → Type ι} (xs : List A) → ((x : A) → P x → Q x) → All P xs → All Q xs
  All-map_pred [] f h = tt
  All-map_pred (x ∷ xs) f h = (f x h.0, All-map_pred xs f h.1)

  -- Every member of a list is one.
  pub All-Mem : (xs : List A) → All (λ x. Memᴰ x xs) xs
  All-Mem [] = tt
  All-Mem (x ∷ xs) = (Memᴰ.head refl, All-map_pred xs (λ y m. Memᴰ.tail m) (All-Mem xs))

  pub Mem-All {κ} : (P : A → Type κ) {x : A} {xs : List A} → Memᴰ x xs → All P xs → P x
  Mem-All P (Memᴰ.head e) h = subst P (sym e) h.0
  Mem-All P (Memᴰ.tail m) h = Mem-All P m h.1

  pub All-keep {κ} : (P : A → Type κ) (t : A → Bool) (xs : List A) → All P xs → All P (keep t xs)
  All-keep P t [] h = tt
  All-keep P t (x ∷ xs) h = elim (Bool-cases (t x)) [
    | inl y ↦ rw y (h.0, All-keep P t xs h.1)
    | inr n ↦ rw n (All-keep P t xs h.1)
  ]

  pub keep-passes : (t : A → Bool) (xs : List A) → All (λ x. t x ≡ true) (keep t xs)
  keep-passes t [] = tt
  keep-passes t (x ∷ xs) = elim (Bool-cases (t x)) [
    | inl y ↦ rw y (y, keep-passes t xs)
    | inr n ↦ rw n (keep-passes t xs)
  ]

  pub All-insert_sorted {κ} :
      (P : A → Type κ) (less : A → A → Bool) (x : A) (ys : List A)
      → P x
      → All P ys
      → All P (insert_sorted less x ys)
  All-insert_sorted P less x [] px h = (px, tt)
  All-insert_sorted P less x (y ∷ ys) px h = elim (Bool-cases (less y x)) [
    | inl l ↦ rw l (h.0, All-insert_sorted P less x ys px h.1)
    | inr n ↦ rw n (px, h)
  ]

  pub All-sort_stable {κ} :
      (P : A → Type κ) (less : A → A → Bool) (xs : List A) → All P xs → All P (sort_stable less xs)
  All-sort_stable P less [] h = tt
  All-sort_stable P less (x ∷ xs) h =
      All-insert_sorted P less x (sort_stable less xs) h.0 (All-sort_stable P less xs h.1)

  pub All-perm {κ} : (P : A → Type κ) {xs ys : List A} → Permᴰ xs ys → All P ys → All P xs
  All-perm P Permᴰ.nil h = tt
  All-perm P (Permᴰ.cons e r) h = (subst P (sym e) h.0, All-perm P r h.1)
  All-perm P (Permᴰ.swap {l = l} e f) h = (subst P (sym e) h.1.0, (subst P (sym f) h.0, h.1.1))
  All-perm P (Permᴰ.trans r s) h = All-perm P r (All-perm P s h)

  pub length-perm : {xs ys : List A} → Permᴰ xs ys → length xs ≡ length ys
  length-perm Permᴰ.nil = refl
  length-perm (Permᴰ.cons e r) = ap suc (length-perm r)
  length-perm (Permᴰ.swap e f) = refl
  length-perm (Permᴰ.trans r s) = length-perm r ∙ length-perm s

  pub length-insert_sorted :
      (less : A → A → Bool) (x : A) (ys : List A)
      → length (insert_sorted less x ys) ≡ suc (length ys)
  length-insert_sorted less x [] = refl
  length-insert_sorted less x (y ∷ ys) = ground (arith, length-insert_sorted less x ys)

  pub length-sort_stable :
      (less : A → A → Bool) (xs : List A) → length (sort_stable less xs) ≡ length xs
  length-sort_stable less [] = refl
  length-sort_stable less (x ∷ xs) =
      length-insert_sorted less x (sort_stable less xs) ∙ ap suc (length-sort_stable less xs)

  pub Mem-some_of :
      (t : A → Bool) {x : A} (xs : List A) → Memᴰ x xs → t x ≡ true → some_of t xs ≡ true
  Mem-some_of t [] m h = elim m [ ]
  Mem-some_of t (y ∷ ys) (Memᴰ.head q) h = rw (ap t (sym q) ∙ h) refl
  Mem-some_of t (y ∷ ys) (Memᴰ.tail m) h = elim (Bool-cases (t y)) [
    | inl e ↦ rw e refl
    | inr e ↦ rw e (Mem-some_of t ys m h)
  ]

  pub some_of-Mem :
      (t : A → Bool) (xs : List A) → some_of t xs ≡ true → (x : A) × Memᴰ x xs × (t x ≡ true)
  some_of-Mem t [] h = absurd (cc)
  some_of-Mem t (x ∷ xs) h = elim (Bool-cases (t x)) [
    | inl y ↦ (x, Memᴰ.head refl, y)
    | inr n ↦ let (z, m, tz) = some_of-Mem t xs (rw n at h) in (z, Memᴰ.tail m, tz)
  ]

  pub All-and {κ ι} :
      (P : A → Type κ) (Q : A → Type ι) (xs : List A)
      → All P xs
      → All Q xs
      → All (λ x. P x × Q x) xs
  All-and P Q [] h k = tt
  All-and P Q (x ∷ xs) h k = ((h.0, k.0), All-and P Q xs h.1 k.1)
