-- ===== src/Upstream/Tools/Repack/Order.antt =====
-- internal/upstream/tool_pairing.go: the order of the messages in `repackToolResultBlocks`, and its
-- fuel.
use workbuddy2plus_plugin.Base.{
  ℕ, zero, suc, String, ◌≡◌, refl, ap, ◌∙◌, Bool, true, false, not, none, some, List, [], ◌∷◌, ◌++◌,
  arith, length, keep, Bool-cases, inl, inr, ◌≤◌, ◌⊎◌, ltb, ◌||◌,
}
use workbuddy2plus_plugin.Upstream.Json.{Json, as_map}
use workbuddy2plus_plugin.Upstream.Tools.{role_is, calls_of}
use workbuddy2plus_plugin.Upstream.Tools.Members.{keep-append}
use workbuddy2plus_plugin.Upstream.Tools.Repack.{
  Group, turn, takes, passes, stops, Turn, collect, head_group, repack_all,
  repack_tool_result_blocks, wanted, follow,
}

pub Turn-cases : (t : Turn) → (t ≡ takes) ⊎ ((t ≡ passes) ⊎ (t ≡ stops))
Turn-cases takes = inl refl
Turn-cases passes = inr (inl refl)
Turn-cases stops = inr (inr refl)

module _ {F : Type 0} where
  -- A message with the role of a tool, and any other.
  unfoldable pub is_tool : Json F → Bool
  is_tool m = elim (as_map m) [ none ↦ false | some d ↦ role_is "tool" d ]

  unfoldable pub is_other : Json F → Bool
  unfolding is_tool
  is_other m = not (is_tool m)

  takes-is_tool :
      (want : List String) (any : Bool) (m : Json F)
      → turn want any m ≡ takes
      → (is_tool m ≡ true) × (is_other m ≡ false)
  unfolding turn is_tool is_other
  takes-is_tool want any m q = (ground (arith, q), ground (arith, q))

  passes-is_tool :
      (want : List String) (any : Bool) (m : Json F)
      → turn want any m ≡ passes
      → (is_tool m ≡ false) × (is_other m ≡ true)
  unfolding turn is_tool is_other
  passes-is_tool want any m q = (ground (arith, q), ground (arith, q))

  -- The group has the tool messages in one list and the others in the second.
  collect-kinds :
      (want : List String) (any saw : Bool) (ms : List (Json F))
      → let g = collect want any saw ms in
        (keep is_tool g.results ≡ g.results)
        × (keep is_tool g.between ≡ [])
        × (keep is_other g.results ≡ [])
        × (keep is_other g.between ≡ g.between)
  unfolding collect
  collect-kinds want any saw [] = (refl, refl, refl, refl)
  collect-kinds want any saw (m ∷ ms) = elim (Turn-cases (turn want any m)) [
    | inl q ↦
        let (a, b, c, d) = collect-kinds want true saw ms in
        let t = takes-is_tool want any m q in rw (q, t.0, t.1, collect) (ap (λ l. m ∷ l) a, b, c, d)
    | inr (inl q) ↦
        let (a, b, c, d) = collect-kinds want any true ms in
        let t = passes-is_tool want any m q in
        rw (q, t.0, t.1, collect) (a, b, c, ap (λ l. m ∷ l) d)
    | inr (inr q) ↦ rw (q, collect) (refl, refl, refl, refl)
  ]

  -- Each kind in its order: the group's first, then what is left.
  collect-order :
      (want : List String) (any saw : Bool) (ms : List (Json F))
      → let g = collect want any saw ms in
        (g.results ++ keep is_tool g.rest ≡ keep is_tool ms)
        × (g.between ++ keep is_other g.rest ≡ keep is_other ms)
  unfolding collect
  collect-order want any saw [] = (refl, refl)
  collect-order want any saw (m ∷ ms) = elim (Turn-cases (turn want any m)) [
    | inl q ↦
        let r = collect-order want true saw ms in
        let t = takes-is_tool want any m q in rw (q, t.0, t.1, collect) (ap (λ l. m ∷ l) r.0, r.1)
    | inr (inl q) ↦
        let r = collect-order want any true ms in
        let t = passes-is_tool want any m q in rw (q, t.0, t.1, collect) (r.0, ap (λ l. m ∷ l) r.1)
    | inr (inr q) ↦ rw (q, collect) (refl, refl)
  ]

  pub length-collect :
      (want : List String) (any saw : Bool) (ms : List (Json F))
      → length (collect want any saw ms).rest ≤ length ms
  unfolding collect
  length-collect want any saw [] = omega arith
  length-collect want any saw (m ∷ ms) = elim (Turn-cases (turn want any m)) [
    | inl q ↦ let r = length-collect want true saw ms in rw (q, collect) (omega (arith, r))
    | inr (inl q) ↦ let r = length-collect want any true ms in rw (q, collect) (omega (arith, r))
    | inr (inr q) ↦ rw (q, collect) (omega arith)
  ]

  -- How a group divides the messages.
  abbrev IsSplit : Group F → List (Json F) → Type 0
  IsSplit g ms =
      (keep is_tool g.results ≡ g.results)
      × (keep is_tool g.between ≡ [])
      × (keep is_other g.results ≡ [])
      × (keep is_other g.between ≡ g.between)
      × (g.results ++ keep is_tool g.rest ≡ keep is_tool ms)
      × (g.between ++ keep is_other g.rest ≡ keep is_other ms)
      × (length g.rest ≤ length ms)

  follow-IsSplit :
      (want : List String) (calls ms : List (Json F)) → IsSplit (follow want calls ms) ms
  unfolding follow
  follow-IsSplit want [] ms = (refl, refl, refl, refl, refl, refl, omega arith)
  follow-IsSplit want (call ∷ calls) ms =
      let (a, b, c, d) = collect-kinds want false false ms in
      let (e, f) = collect-order want false false ms in
      (a, b, c, d, e, f, length-collect want false false ms)

  pub head_group-IsSplit : (m : Json F) (ms : List (Json F)) → IsSplit (head_group m ms) ms
  unfolding head_group
  head_group-IsSplit m ms = follow-IsSplit (wanted m) (calls_of m) ms

  join-kinds :
      (t : Json F → Bool) (xs ys zs : List (Json F))
      → keep t (xs ++ (ys ++ zs)) ≡ keep t xs ++ (keep t ys ++ keep t zs)
  join-kinds t xs ys zs =
      keep-append t xs (ys ++ zs) ∙ ap (λ l. keep t xs ++ l) (keep-append t ys zs)

  keep-head :
      (t : Json F → Bool) (m : Json F) (xs ys : List (Json F))
      → keep t xs ≡ keep t ys
      → keep t (m ∷ xs) ≡ keep t (m ∷ ys)
  keep-head t m xs ys q = elim (Bool-cases (t m)) [
    | inl y ↦ rw y (ap (λ l. m ∷ l) q)
    | inr n ↦ rw n q
  ]

  pub repack_all-order :
      (n : ℕ) (ms : List (Json F))
      → length ms ≤ n
      → (keep is_tool (repack_all n ms).0 ≡ keep is_tool ms)
        × (keep is_other (repack_all n ms).0 ≡ keep is_other ms)
  unfolding repack_all
  repack_all-order zero [] h = (refl, refl)
  repack_all-order zero (m ∷ ms) h = absurd (omega (arith, h))
  repack_all-order (suc n) [] h = (refl, refl)
  repack_all-order (suc n) (m ∷ ms) h =
      let g = head_group m ms in
      let (a, b, c, d, e, f, l) = head_group-IsSplit m ms in
      let later = repack_all-order n g.rest (omega (arith, l, h)) in
      (
        keep-head is_tool m _ ms (
            join-kinds is_tool g.results g.between (repack_all n g.rest).0
            ∙ (λ i. a i ++ (b i ++ later.0 i))
            ∙ e),
        keep-head is_other m _ ms (
            join-kinds is_other g.results g.between (repack_all n g.rest).0
            ∙ (λ i. c i ++ (d i ++ later.1 i))
            ∙ f),
      )

  -- The repacking loses, invents and reorders no message within its kind: the tool messages are
  -- the same in the same order, and so are all others.
  pub repack_tool_result_blocks-order :
      (ms : List (Json F))
      → let out = (repack_tool_result_blocks ms).0 in
        (keep is_tool out ≡ keep is_tool ms) × (keep is_other out ≡ keep is_other ms)
  unfolding repack_tool_result_blocks
  repack_tool_result_blocks-order ms = elim (Bool-cases (ltb (length ms) 3)) [
    | inl y ↦ rw (y, repack_tool_result_blocks) (refl, refl)
    | inr n ↦ elim (Bool-cases (repack_all (length ms) ms).1) [
      | inl c ↦ rw (n, c) (repack_all-order (length ms) ms (omega arith))
      | inr o ↦ rw (n, o) (refl, refl)
    ]
  ]

  -- The loop over the messages ends: any two amounts of fuel that are at least the number of
  -- messages give the same outcome.
  pub repack_all-fuel :
      (n k : ℕ) (ms : List (Json F))
      → length ms ≤ n
      → length ms ≤ k
      → repack_all n ms ≡ repack_all k ms
  unfolding repack_all
  repack_all-fuel zero zero [] h l = refl
  repack_all-fuel zero (suc k) [] h l = refl
  repack_all-fuel (suc n) zero [] h l = refl
  repack_all-fuel (suc n) (suc k) [] h l = refl
  repack_all-fuel zero k (m ∷ ms) h l = absurd (omega (arith, h))
  repack_all-fuel (suc n) zero (m ∷ ms) h l = absurd (omega (arith, l))
  repack_all-fuel (suc n) (suc k) (m ∷ ms) h l =
      let g = head_group m ms in
      let s = (head_group-IsSplit m ms).6 in
      ap (λ later. (m ∷ (g.results ++ (g.between ++ later.0)), g.changed || later.1))
        (repack_all-fuel n k g.rest (omega (arith, s, h)) (omega (arith, s, l)))
