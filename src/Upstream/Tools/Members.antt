-- ===== src/Upstream/Tools/Members.antt =====
-- Membership in the lists of ids, as internal/upstream/tool_pairing.go tests it on its maps.
use workbuddy2plus_plugin.Base.{
  String, ◌≡◌, refl, sym, ap, ◌∙◌, Bool, true, false, not, List, [], ◌∷◌, ◌++◌, map, arith, str_eq,
  eq_iff, if◌then◌else◌, length, keep, some_of, Bool-cases, inl, inr, All, ◌==◌, ◌≤◌,
}
use mathlib.Core.Path.{subst}
use workbuddy2plus_plugin.Upstream.Tools.{is_in, gather}

pub is_in-append :
    (xs ys : List String) (id : String)
    → is_in (xs ++ ys) id ≡ (if is_in xs id then true else is_in ys id)
is_in-append [] ys id = refl
is_in-append (x ∷ xs) ys id = ground (arith, is_in-append xs ys id)

pub is_in-keep :
    (t : String → Bool) (xs : List String) (id : String)
    → is_in (keep t xs) id ≡ (if t id then is_in xs id else false)
is_in-keep t [] id = ground arith
is_in-keep t (x ∷ xs) id = elim (Bool-cases (str_eq x id)) [
  | inl y ↦
      subst (λ z. is_in (keep t (x ∷ xs)) z ≡ (if t z then is_in (x ∷ xs) z else false))
        ((eq_iff x id).0 y) (ground (arith, is_in-keep t xs x, eq_iff x x))
  | inr n ↦ ground (arith, is_in-keep t xs id, n)
]

module _ {ℓ} {A : Type ℓ} where
  pub length-keep_le : (t : A → Bool) (xs : List A) → length (keep t xs) ≤ length xs
  length-keep_le t [] = omega arith
  length-keep_le t (x ∷ xs) = ground (arith, length-keep_le t xs)

  -- A selection that drops nothing is the list.
  pub keep-all :
      (t : A → Bool) (xs : List A) → (length (keep t xs) == length xs) ≡ true → keep t xs ≡ xs
  keep-all t [] h = refl
  keep-all t (x ∷ xs) h = elim (Bool-cases (t x)) [
    | inl y ↦ rw y (ap (λ l. x ∷ l) (keep-all t xs (ground (arith, h, y))))
    | inr n ↦ absurd (ground (arith, h, n, length-keep_le t xs))
  ]

  pub keep-again : (t : A → Bool) (xs : List A) → keep t (keep t xs) ≡ keep t xs
  keep-again t [] = refl
  keep-again t (x ∷ xs) = elim (Bool-cases (t x)) [
    | inl y ↦ rw (y, y) (ap (λ l. x ∷ l) (keep-again t xs))
    | inr n ↦ rw n (keep-again t xs)
  ]

  pub keep-append : (t : A → Bool) (xs ys : List A) → keep t (xs ++ ys) ≡ keep t xs ++ keep t ys
  keep-append t [] ys = refl
  keep-append t (x ∷ xs) ys = elim (Bool-cases (t x)) [
    | inl y ↦ rw y (ap (λ l. x ∷ l) (keep-append t xs ys))
    | inr n ↦ rw n (keep-append t xs ys)
  ]

  pub keep-map :
      {B : Type 0} (f : A → B) (t : B → Bool) (xs : List A)
      → map f (keep (λ x. t (f x)) xs) ≡ keep t (map f xs)
  keep-map f t [] = refl
  keep-map f t (x ∷ xs) = elim (Bool-cases (t (f x))) [
    | inl y ↦ rw y (ap (λ l. f x ∷ l) (keep-map f t xs))
    | inr n ↦ rw n (keep-map f t xs)
  ]

  pub keep-none : (t : A → Bool) (xs : List A) → All (λ x. t x ≡ false) xs → keep t xs ≡ []
  keep-none t [] h = refl
  keep-none t (x ∷ xs) h = rw h.0 (keep-none t xs h.1)

module _ {A : Type 0} where
  pub gather-keep :
      {B : Type 0} (f g : A → List B) (t : A → Bool) (xs : List A)
      → ((x : A) → (if t x then g x else []) ≡ f x)
      → gather g (keep t xs) ≡ gather f xs
  gather-keep f g t [] h = refl
  gather-keep f g t (x ∷ xs) h = elim (Bool-cases (t x)) [
    | inl y ↦ rw y (
        ap (λ l. g x ++ l) (gather-keep f g t xs h)
        ∙ ap (λ l. l ++ gather f xs) (subst (λ b. (if b then g x else []) ≡ f x) y (h x)))
    | inr n ↦ rw n (
        gather-keep f g t xs h
        ∙ ap (λ l. l ++ gather f xs) (subst (λ b. (if b then g x else []) ≡ f x) n (h x)))
  ]

  pub gather-ext :
      {B : Type 0} (f g : A → List B) (xs : List A)
      → ((x : A) → f x ≡ g x)
      → gather f xs ≡ gather g xs
  gather-ext f g xs h = ap (λ k. gather k xs) (λ i x. h x i)

  pub keep-gather :
      {B : Type 0} (t : B → Bool) (f : A → List B) (xs : List A)
      → gather (λ x. keep t (f x)) xs ≡ keep t (gather f xs)
  keep-gather t f [] = refl
  keep-gather t f (x ∷ xs) =
      ap (λ l. keep t (f x) ++ l) (keep-gather t f xs) ∙ sym (keep-append t (f x) (gather f xs))

  pub gather-map :
      {C B : Type 0} (f : C → List B) (g : A → C) (xs : List A)
      → gather f (map g xs) ≡ gather (λ x. f (g x)) xs
  gather-map f g [] = refl
  gather-map f g (x ∷ xs) = ap (λ l. f (g x) ++ l) (gather-map f g xs)

  -- A list on which a change does nothing.
  pub map-same :
      (f : A → A) (t : A → Bool) (xs : List A)
      → ((x : A) → t x ≡ false → f x ≡ x)
      → some_of t xs ≡ false
      → map f xs ≡ xs
  map-same f t [] h n = refl
  map-same f t (x ∷ xs) h n = elim (Bool-cases (t x)) [
    | inl y ↦ absurd (cc (rw y at n))
    | inr o ↦ ap (λ l. f x ∷ l) (map-same f t xs h (rw o at n)) ∙ ap (λ z. z ∷ xs) (h x o)
  ]

  pub keep-same :
      (t : A → Bool) (xs : List A) → some_of t xs ≡ false → keep (λ x. not (t x)) xs ≡ xs
  keep-same t [] n = refl
  keep-same t (x ∷ xs) n = elim (Bool-cases (t x)) [
    | inl y ↦ absurd (cc (rw y at n))
    | inr o ↦ rw o (ap (λ l. x ∷ l) (keep-same t xs (rw o at n)))
  ]
