-- ===== src/Pool/Pick/Fallback/Earliest.antt =====
-- pick.go: the fallback takes the account that becomes available first, and never one that is
-- disabled, stopped by hand, out of credits, full or tried already.
use mathlib.Core.List.{Memᴰ}
use mathlib.Core.Path.{subst}
use mathlib.Core.Option.{some-injective}
use workbuddy2plus_plugin.Base.{
  ℕ, ◌≤◌, ◌<◌, String, ◌≡◌, refl, sym, ◌↔◌, ◌⊎◌, inl, inr, true, false, Option, none, some, List,
  [], ◌∷◌, arith, ltb, Bool-cases, Option-cases, All, Dict,
}
use workbuddy2plus_plugin.Pool.Types.{cool_hard, Entry, Pool}
use workbuddy2plus_plugin.Pool.Health.Deadlines.{expiry_lem}
use workbuddy2plus_plugin.Pool.Health.{in_flight_full, expiry}
use workbuddy2plus_plugin.Pool.Pick.Fallback.{
  realm_ok, mark_used, pick_earliest_expiry, is_tried, earlier_of, earliest, can_fall_back,
}

module _ {F : Type 0} (p : Pool F) (tried : List String) (now : ℕ) (realm : String) where
  abbrev pub AllRefused : Dict (Entry F) → Type 0
  AllRefused l = All (λ kv. can_fall_back p tried now realm kv.0 kv.1 ≡ false) l

  abbrev pub NoneEarlier : ℕ → Dict (Entry F) → Type 0
  NoneEarlier t l =
      All (λ kv. can_fall_back p tried now realm kv.0 kv.1 ≡ true → t ≤ expiry kv.1 now) l

  -- The account with this key is the fallback's choice from the list.
  pub record IsEarliest (uid : String) (e : Entry F) (l : Dict (Entry F)) : Type 0 where
    pub member : Memᴰ (uid, e) l
    pub allowed : can_fall_back p tried now realm uid e ≡ true
    pub first : NoneEarlier (expiry e now) l

  -- Not later than the account found before, if there is one.
  abbrev LeBest : ℕ → Option (String × Entry F) → Type 0
  LeBest t none = Unit
  LeBest t (some (u, b)) = t ≤ expiry b now

  abbrev BestLe : Option (String × Entry F) → ℕ → Type 0
  BestLe none t = ⊥
  BestLe (some (u, b)) t = expiry b now ≤ t

  le_le : (t n : ℕ) (best : Option (String × Entry F)) → LeBest t best → BestLe best n → t ≤ n
  le_le t n none h k = absurd k
  le_le t n (some (u, b)) h k = omega arith

  le_LeBest : (t n : ℕ) (best : Option (String × Entry F)) → t ≤ n → LeBest n best → LeBest t best
  le_LeBest t n none h k = tt
  le_LeBest t n (some (u, b)) h k = omega arith

  abbrev Found : Option (String × Entry F) → Option (String × Entry F) → Dict (Entry F) → Type 0
  Found best none l = (best ≡ none) × AllRefused l
  Found best (some (uid, e)) l =
      ((best ≡ some (uid, e)) ⊎ (Memᴰ (uid, e) l × (can_fall_back p tried now realm uid e ≡ true)))
      × NoneEarlier (expiry e now) l
      × LeBest (expiry e now) best

  abbrev Taken : Option (String × Entry F) → String → Entry F → Type 0
  Taken best uid e =
      (earlier_of p tried now realm best uid e ≡ some (uid, e))
      × (can_fall_back p tried now realm uid e ≡ true)
      × LeBest (expiry e now) best

  abbrev Left : Option (String × Entry F) → String → Entry F → Type 0
  Left best uid e =
      (earlier_of p tried now realm best uid e ≡ best)
      × ((can_fall_back p tried now realm uid e ≡ false) ⊎ BestLe best (expiry e now))

  -- The two outcomes of one round.
  round :
      (best : Option (String × Entry F)) (uid : String) (e : Entry F)
      → Taken best uid e ⊎ Left best uid e
  unfolding earlier_of
  round none uid e = elim (Bool-cases (can_fall_back p tried now realm uid e)) [
    | inl y ↦ inl (rw y, y, tt)
    | inr n ↦ inr (rw n, inl n)
  ]
  round (some (v, c)) uid e = elim (Bool-cases (can_fall_back p tried now realm uid e)) [
    | inl y ↦ elim (Bool-cases (ltb (expiry e now) (expiry c now))) [
      | inl lt ↦ inl (rw (y, lt), y, ground arith)
      | inr ge ↦ inr (rw (y, ge), inr (ground arith))
    ]
    | inr n ↦ inr (rw n, inl n)
  ]

  taken_none :
      (best : Option (String × Entry F)) (uid : String) (e : Entry F) (rest : Dict (Entry F))
      → Found (some (uid, e)) none rest
      → ⊥
  taken_none best uid e rest h = cc (h.0)

  taken_some :
      (best : Option (String × Entry F)) (uid : String) (e : Entry F) (u : String) (b : Entry F)
      (rest : Dict (Entry F))
      → can_fall_back p tried now realm uid e ≡ true
      → LeBest (expiry e now) best
      → Found (some (uid, e)) (some (u, b)) rest
      → Found best (some (u, b)) ((uid, e) ∷ rest)
  taken_some best uid e u b rest y le (from, none_earlier, le_e) = (
    inr (elim from [
      | inl same ↦
          let q : (u, b) ≡ (uid, e) = sym (some-injective _ _ same) in
          (Memᴰ.head q, subst (λ kv. can_fall_back p tried now realm kv.0 kv.1 ≡ true) (sym q) y)
      | inr (m, ok) ↦ (Memᴰ.tail m, ok)
    ]),
    (λ _. le_e, none_earlier),
    le_LeBest (expiry b now) (expiry e now) best le_e le,
  )

  left_some :
      (best : Option (String × Entry F)) (uid : String) (e : Entry F) (u : String) (b : Entry F)
      (rest : Dict (Entry F))
      → (can_fall_back p tried now realm uid e ≡ false) ⊎ BestLe best (expiry e now)
      → Found best (some (u, b)) rest
      → Found best (some (u, b)) ((uid, e) ∷ rest)
  left_some best uid e u b rest why (from, none_earlier, le_best) = (
    elim from [ inl same ↦ inl same | inr (m, ok) ↦ inr (Memᴰ.tail m, ok) ],
    (λ y. elim why [ inl n ↦ absurd (cc) | inr le ↦ le_le _ _ best le_best le ], none_earlier),
    le_best,
  )

  left_none :
      (best : Option (String × Entry F)) (uid : String) (e : Entry F) (rest : Dict (Entry F))
      → (can_fall_back p tried now realm uid e ≡ false) ⊎ BestLe best (expiry e now)
      → Found best none rest
      → Found best none ((uid, e) ∷ rest)
  left_none none uid e rest (inl n) h = (h.0, (n, h.1))
  left_none none uid e rest (inr le) h = absurd le
  left_none (some (v, c)) uid e rest why h = absurd (cc (h.0))

  step_Found :
      (best r : Option (String × Entry F)) (uid : String) (e : Entry F) (rest : Dict (Entry F))
      → Found (earlier_of p tried now realm best uid e) r rest
      → Found best r ((uid, e) ∷ rest)
  step_Found best none uid e rest h = elim (round best uid e) [
    | inl (q, y, le) ↦ absurd (taken_none best uid e rest (subst (λ n. Found n none rest) q h))
    | inr (q, why) ↦ left_none best uid e rest why (subst (λ n. Found n none rest) q h)
  ]
  step_Found best (some (u, b)) uid e rest h = elim (round best uid e) [
    | inl (q, y, le) ↦
        taken_some best uid e u b rest y le (subst (λ n. Found n (some (u, b)) rest) q h)
    | inr (q, why) ↦ left_some best uid e u b rest why (subst (λ n. Found n (some (u, b)) rest) q h)
  ]

  earliest-Found :
      (best : Option (String × Entry F)) (l : Dict (Entry F))
      → Found best (earliest p tried now realm best l) l
  unfolding earliest
  earliest-Found none [] = (refl, tt)
  earliest-Found (some (u, b)) [] = (inl refl, tt, omega arith)
  earliest-Found best ((uid, e) ∷ rest) =
      step_Found best _ uid e rest (earliest-Found (earlier_of p tried now realm best uid e) rest)

  -- What the loop finds over the whole pool.
  abbrev Outcome : Option (String × Entry F) → Type 0
  Outcome none = AllRefused p.by_uid
  Outcome (some (uid, e)) = IsEarliest uid e p.by_uid

  outcome : (r : Option (String × Entry F)) → Found none r p.by_uid → Outcome r
  outcome none h = h.1
  outcome (some (uid, e)) (inl same, none_earlier, _) = absurd (cc)
  outcome (some (uid, e)) (inr (m, ok), none_earlier, _) = record {
    member = m;
    allowed = ok;
    first = none_earlier;
  }

  -- The fallback answers no account, and changes nothing, only if every account of the pool is
  -- refused; otherwise it answers one that is allowed and whose next deadline is the first among
  -- the allowed ones, and marks it as used.
  pub pick_earliest_expiry_lem :
      ((pick_earliest_expiry tried now realm p ≡ (p, none)) × AllRefused p.by_uid)
      ⊎ ((uid : String) × (e : Entry F) × IsEarliest uid e p.by_uid
          × (pick_earliest_expiry tried now realm p ≡ (mark_used now uid e p, some e.a)))
  unfolding pick_earliest_expiry
  pick_earliest_expiry_lem = elim (Option-cases (earliest p tried now realm none p.by_uid)) [
    | inl q ↦
        inl
          (rw (q, pick_earliest_expiry), subst Outcome q (outcome _ (earliest-Found none p.by_uid)))
    | inr ((uid, e), q) ↦ inr (
      uid,
      e,
      subst Outcome q (outcome _ (earliest-Found none p.by_uid)),
      rw (q, pick_earliest_expiry),
    )
  ]

-- What it takes to be allowed in the fallback.
pub record MayFallBack {F : Type 0} (p : Pool F) (tried : List String) (now : ℕ)
    (realm uid : String) (e : Entry F) : Type 0 where
  pub untried : is_tried tried uid ≡ false
  pub in_realm : realm_ok realm e ≡ true
  pub enabled : e.disabled ≡ false
  pub manually_enabled : e.manual_disabled ≡ false
  pub has_credits : e.cool_kind ≡ cool_hard → e.until ≤ now
  pub has_room : in_flight_full p e ≡ false
  pub barred : (now < e.until) ⊎ ((now < e.breaker_until) ⊎ (now < e.degrade_until))

-- The accounts allowed in the fallback are those that were not tried, are of the realm, enabled in
-- both ways, not out of credits, not full, and barred for now by one of their deadlines.
pub can_fall_back_iff :
    {F : Type 0} (p : Pool F) (tried : List String) (now : ℕ) (realm uid : String) (e : Entry F)
    → (can_fall_back p tried now realm uid e ≡ true) ↔ MayFallBack p tried now realm uid e
unfolding can_fall_back
can_fall_back_iff p tried now realm uid e =
    (λ h. ground (arith, expiry_lem e now), λ h. ground (arith, expiry_lem e now))
