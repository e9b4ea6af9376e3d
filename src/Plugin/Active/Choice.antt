-- ===== src/Plugin/Active/Choice.antt =====
-- plugin/active_auth.go: the choice of `pickActiveAuth`, and beside it `ensureDefaultActiveAuth`.
use mathlib.Core.Option.{some-injective}
use mathlib.Core.List.{Memᴰ}
use mathlib.Core.Path.{subst}
use workbuddy2plus_plugin.Base.{
  String, ◌≡◌, refl, sym, ap, ◌∙◌, ◌⊎◌, inl, inr, Bool, true, false, not, none, some, List, [], ◌∷◌,
  arith, str_eq, eq_iff, Bool-cases, Option-cases, All, some_of, Dict, lookup, insert,
  lookup-insert, All-Mem, Mem-All,
}
use workbuddy2plus_plugin.Upstream.Texts.{trim}
use workbuddy2plus_plugin.Plugin.Active.{
  Candidate, usable, by_id, first_id, first_name, current, remember, any_candidate,
  pick_active_auth, ensure_default_active_auth,
}

-- No candidate has an empty id.
abbrev pub HasNames : List Candidate → Type 0
HasNames cs = All (λ c. str_eq c.id "" ≡ false) cs

first_id-first_name :
    (t : Candidate → Bool) (cs : List Candidate) → HasNames cs → first_id t cs ≡ first_name t cs
first_id-first_name t [] h = refl
first_id-first_name t (c ∷ cs) h = ground (arith, h.0, first_id-first_name t cs h.1)

module _ (P : Candidate → Type 0) where
  AllGood : Dict Candidate → Type 0
  AllGood m = (j : String) (k : Candidate) → lookup j m ≡ some k → P k × (k.id ≡ j)

  insert-AllGood :
      (c : Candidate) (m : Dict Candidate) → P c → AllGood m → AllGood (insert c.id c m)
  unfolding AllGood
  insert-AllGood c m p g j k q = elim (Bool-cases (str_eq c.id j)) [
    | inl y ↦
        let e = some-injective c k (sym (rw y at (lookup-insert c.id j c m)) ∙ q) in
        (subst P e p, ap (λ x. x.id) (sym e) ∙ (eq_iff c.id j).0 y)
    | inr n ↦ g j k (sym (rw n at (lookup-insert c.id j c m)) ∙ q)
  ]

  by_id-AllGood :
      (cs : List Candidate) (m : Dict Candidate) → All P cs → AllGood m → AllGood (by_id cs m)
  unfolding by_id
  by_id-AllGood [] m h g = g
  by_id-AllGood (c ∷ cs) m h g = by_id-AllGood cs (insert c.id c m) h.1 (insert-AllGood c m h.0 g)

  -- The candidate that is selected is one of the candidates, and has the selected id.
  pub current-All :
      (cur : String) (cs : List Candidate) (k : Candidate)
      → All P cs
      → current cur cs ≡ some k
      → P k × (k.id ≡ cur)
  unfolding current AllGood lookup
  current-All cur cs k h q = elim (Bool-cases (str_eq cur "")) [
    | inl y ↦ absurd (cc (rw (y, current) at q))
    | inr n ↦ by_id-AllGood cs [] h (λ j x e. absurd (cc (e))) cur k (rw (n, current) at q)
  ]

nothing_current : (cur : String) → current cur [] ≡ none
unfolding current by_id lookup
nothing_current cur = ground arith

-- Where none is disabled, the first that is not disabled is the first.
none_disabled :
    (cs : List Candidate)
    → HasNames cs
    → All (λ c. c.disabled ≡ false) cs
    → first_name (λ c. not c.disabled) cs ≡ first_id any_candidate cs
none_disabled [] h d = refl
none_disabled (c ∷ cs) h d = rw (d.0, h.0) refl

-- The choice of pickActiveAuth and that of ensureDefaultActiveAuth are the same account and leave
-- the same selection. No candidate has an empty id and none is disabled.
pub pick_active_auth-ensure_default_active_auth :
    (active : String) (cs : List Candidate)
    → HasNames cs
    → All (λ c. c.disabled ≡ false) cs
    → pick_active_auth active cs ≡ ensure_default_active_auth active cs
unfolding pick_active_auth ensure_default_active_auth remember
pick_active_auth-ensure_default_active_auth active [] h d =
    rw (nothing_current (trim active), ensure_default_active_auth) (ground arith)
pick_active_auth-ensure_default_active_auth active (c ∷ cs) h d =
    elim (Option-cases (current (trim active) (c ∷ cs))) [
      | inl q ↦
          rw
            (
              q,
              sym (first_id-first_name usable (c ∷ cs) h),
              none_disabled (c ∷ cs) h d,
              pick_active_auth,
              ensure_default_active_auth,
            )
            (ground (arith, h.0))
      | inr (k, q) ↦
          rw
            (
              q,
              sym (first_id-first_name usable (c ∷ cs) h),
              (current-All (λ x. x.disabled ≡ false) (trim active) (c ∷ cs) k d q).0,
              pick_active_auth,
              ensure_default_active_auth,
            )
            (ground (arith, h.0))
    ]

-- Where a candidate can be used, a usable one is picked.
first_id-usable :
    (cs : List Candidate)
    → HasNames cs
    → some_of usable cs ≡ true
    → (c : Candidate) × Memᴰ c cs × (usable c ≡ true) × (first_id usable cs ≡ c.id)
first_id-usable [] h s = absurd (cc (s))
first_id-usable (c ∷ cs) h s = elim (Bool-cases (usable c)) [
  | inl y ↦ (c, Memᴰ.head refl, y, rw y refl)
  | inr n ↦ let (k, m, u, e) = first_id-usable cs h.1 (rw n at s) in (k, Memᴰ.tail m, u, rw n e)
]

first_id-none : (cs : List Candidate) → some_of usable cs ≡ false → first_id usable cs ≡ ""
first_id-none [] f = refl
first_id-none (c ∷ cs) f = elim (Bool-cases (usable c)) [
  | inl y ↦ absurd (cc (rw y at f))
  | inr n ↦ rw n (first_id-none cs (rw n at f))
]

picked-remember : (next cur active : String) → (remember next cur active).0 ≡ next
unfolding remember
picked-remember next cur active = ground arith

-- The two ways to pick: the selection stays, or another is remembered.
pub picked-kept :
    (active : String) (c k : Candidate) (cs : List Candidate)
    → current (trim active) (c ∷ cs) ≡ some k
    → (usable k ≡ true) ⊎ (first_id usable (c ∷ cs) ≡ "")
    → pick_active_auth active (c ∷ cs) ≡ (trim active, active)
unfolding pick_active_auth
picked-kept active c k cs q (inl y) = rw (q, y, pick_active_auth) refl
picked-kept active c k cs q (inr e) = rw (q, e, pick_active_auth) (ground arith)

picked-first :
    (active : String) (c : Candidate) (cs : List Candidate)
    → current (trim active) (c ∷ cs) ≡ none
    → first_id usable (c ∷ cs) ≡ ""
    → (pick_active_auth active (c ∷ cs)).0 ≡ c.id
unfolding pick_active_auth
picked-first active c cs q e =
    rw (q, e, pick_active_auth) (picked-remember c.id (trim active) active)

picked-next :
    (active : String) (c : Candidate) (cs : List Candidate)
    → ((k : Candidate) → current (trim active) (c ∷ cs) ≡ some k → usable k ≡ false)
    → str_eq (first_id usable (c ∷ cs)) "" ≡ false
    → (pick_active_auth active (c ∷ cs)).0 ≡ first_id usable (c ∷ cs)
unfolding pick_active_auth
picked-next active c cs u e = elim (Option-cases (current (trim active) (c ∷ cs))) [
  | inl q ↦
      rw (q, e, pick_active_auth) (picked-remember (first_id usable (c ∷ cs)) (trim active) active)
  | inr (k, q) ↦ rw (q, u k q, e, pick_active_auth) (ground arith)
]

some_usable :
    (active : String) (c : Candidate) (cs : List Candidate)
    → HasNames (c ∷ cs)
    → some_of usable (c ∷ cs) ≡ true
    → (k : Candidate) × Memᴰ k (c ∷ cs)
      × ((pick_active_auth active (c ∷ cs)).0 ≡ k.id)
      × (some_of usable (c ∷ cs) ≡ true → usable k ≡ true)
some_usable active c cs h t =
    let (j, m, u, e) = first_id-usable (c ∷ cs) h t in
    let named = ap (λ x. str_eq x "") e ∙ Mem-All (λ x. str_eq x.id "" ≡ false) m h in
    elim (Option-cases (current (trim active) (c ∷ cs))) [
      | inl q ↦ (j, m, picked-next active c cs (λ k p. absurd (cc (q, p))) named ∙ e, λ s. u)
      | inr (k, q) ↦ elim (Bool-cases (usable k)) [
        | inl y ↦
            let g =
              current-All (λ x. Memᴰ x (c ∷ cs)) (trim active) (c ∷ cs) k (All-Mem (c ∷ cs)) q in
            (k, g.0, ap (λ r. r.0) (picked-kept active c k cs q (inl y)) ∙ sym g.1, λ s. y)
        | inr n ↦ (
          j,
          m,
          picked-next active c cs (λ i p. ap usable (some-injective i k (sym p ∙ q)) ∙ n) named ∙ e,
          λ s. u,
        )
      ]
    ]

-- What is picked is the id of a candidate, of a usable one if there is one.
pub pick_active_auth_lem :
    (active : String) (c : Candidate) (cs : List Candidate)
    → HasNames (c ∷ cs)
    → (k : Candidate) × Memᴰ k (c ∷ cs)
      × ((pick_active_auth active (c ∷ cs)).0 ≡ k.id)
      × (some_of usable (c ∷ cs) ≡ true → usable k ≡ true)
pick_active_auth_lem active c cs h = elim (Bool-cases (some_of usable (c ∷ cs))) [
  | inr f ↦ elim (Option-cases (current (trim active) (c ∷ cs))) [
    | inl q ↦ (
      c,
      Memᴰ.head refl,
      picked-first active c cs q (first_id-none (c ∷ cs) f),
      λ t. absurd (cc (f, t)),
    )
    | inr (k, q) ↦
        let g = current-All (λ x. Memᴰ x (c ∷ cs)) (trim active) (c ∷ cs) k (All-Mem (c ∷ cs)) q in
        (
          k,
          g.0,
          ap (λ r. r.0) (picked-kept active c k cs q (inr (first_id-none (c ∷ cs) f))) ∙ sym g.1,
          λ t. absurd (cc (f, t)),
        )
  ]
  | inl t ↦ some_usable active c cs h t
]
