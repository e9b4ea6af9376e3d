-- ===== src/Plugin/Scheduler/Answer.antt =====
-- plugin/scheduler.go: what the host is answered.
use mathlib.Core.List.{Memᴰ}
use mathlib.Core.Path.{subst}
use workbuddy2plus_plugin.Base.{
  ℕ, suc, String, ◌≢◌, ◌≡◌, refl, sym, ap, ◌∙◌, ◌⊎◌, inl, inr, Bool, true, false, not, ◌&&◌, Option,
  List, [], ◌∷◌, map, arith, str_eq, eq_iff, if◌then◌else◌, Bool-cases, All, Mem-All, some_of,
  some_of-Mem, Dict, keep, ◌==◌, length,
}
use workbuddy2plus_plugin.Pool.Floats.{Floats}
use workbuddy2plus_plugin.Pool.Pick.Weights.{Weighted}
use workbuddy2plus_plugin.Upstream.Texts.{trim}
use workbuddy2plus_plugin.Plugin.{pick_from_pool, is_allowed}
use workbuddy2plus_plugin.Plugin.Budget.{pick_from_pool-allowed}
use workbuddy2plus_plugin.Plugin.Active.{Candidate, usable, pick_active_auth}
use workbuddy2plus_plugin.Plugin.Active.Choice.{HasNames, pick_active_auth_lem}
use workbuddy2plus_plugin.Plugin.Scheduler.{
  Credits, is_exhausted, HostCandidate, Router, Response, ensure_pool_candidates, eligible,
  preferred, deferred, answer, pick_weighted_pool, route, handle_scheduler_pick,
}

-- An account of the list is answered, one that is not exhausted if there is one.
abbrev pub IsServed : Dict (Option Credits) → List String → Response → Type 0
IsServed cache ids res =
    (res.handled ≡ true)
    × Memᴰ res.auth_id ids
    × (some_of (λ id. not (is_exhausted cache id)) ids ≡ true
        → is_exhausted cache res.auth_id ≡ false)

abbrev pub AllNamed : List String → Type 0
AllNamed ids = All (λ id. str_eq id "" ≡ false) ids

pub answer-named :
    (id : String) → str_eq id "" ≡ false → answer id ≡ record { auth_id = id; handled = true }
unfolding answer
answer-named id n = rw (n, answer) refl

named_empty : {A : Type 0} (s : String) → str_eq s "" ≡ false → s ≡ "" → A
named_empty s n e = absurd (ground (arith, n, e, eq_iff s ""))

not-true : (b : Bool) → not b ≡ true → b ≡ false
not-true true h = sym h
not-true false h = refl

both_not : (a b : Bool) → a ≡ false → b ≡ false → (not a && not b) ≡ true
both_not a b n m = ground (arith, n, m)

none_selected : (a b : Bool) → a ≡ true → (not a && not b) ≡ false
none_selected a b y = ground (arith, y)

pub if_true : {A : Type 0} (t : Bool) (x y : A) → t ≡ true → (if t then x else y) ≡ x
if_true true x y h = refl
if_true false x y h = absurd (cc (h))

pub if_false : {A : Type 0} (t : Bool) (x y : A) → t ≡ false → (if t then x else y) ≡ y
if_false true x y h = absurd (cc (h))
if_false false x y h = refl

suc_not_zero : (n : ℕ) → (suc n == 0) ≡ false
suc_not_zero n = ground arith

pub preferred-HasNames :
    (cache : Dict (Option Credits)) (ids : List String)
    → AllNamed ids
    → HasNames (preferred cache ids)
preferred-HasNames cache [] h = tt
preferred-HasNames cache (id ∷ ids) h = (h.0, preferred-HasNames cache ids h.1)

pub preferred-Mem :
    (cache : Dict (Option Credits)) (ids : List String) (k : Candidate)
    → Memᴰ k (preferred cache ids)
    → Memᴰ k.id ids × (usable k ≡ not (is_exhausted cache k.id))
preferred-Mem cache [] k m = elim m [ ]
preferred-Mem cache (id ∷ ids) k (Memᴰ.head e) = (
  Memᴰ.head (ap (λ x. x.id) e),
  subst (λ x. usable x ≡ not (is_exhausted cache x.id)) (sym e) refl,
)
preferred-Mem cache (id ∷ ids) k (Memᴰ.tail m) =
    let r = preferred-Mem cache ids k m in (Memᴰ.tail r.0, r.1)

preferred-usable :
    (cache : Dict (Option Credits)) (ids : List String)
    → some_of usable (preferred cache ids) ≡ some_of (λ id. not (is_exhausted cache id)) ids
preferred-usable cache [] = refl
preferred-usable cache (id ∷ ids) =
    ap (λ t. if not (is_exhausted cache id) then true else t) (preferred-usable cache ids)

picked-IsServed :
    (cache : Dict (Option Credits)) (active id : String) (ids : List String)
    → AllNamed (id ∷ ids)
    → let picked = (pick_active_auth active (preferred cache (id ∷ ids))).0 in
      (str_eq picked "" ≡ false) × IsServed cache (id ∷ ids) (answer picked)
picked-IsServed cache active id ids h =
    let (k, m, e, u) =
      pick_active_auth_lem active
        (record { id = id; disabled = false; exhausted = is_exhausted cache id })
        (preferred cache ids) (preferred-HasNames cache (id ∷ ids) h) in
    let r = preferred-Mem cache (id ∷ ids) k m in
    let named = Mem-All (λ i. str_eq i "" ≡ false) r.0 h in
    subst (λ p. (str_eq p "" ≡ false) × IsServed cache (id ∷ ids) (answer p)) (sym e)
      (
        named,
        subst (λ a. IsServed cache (id ∷ ids) a) (sym (answer-named k.id named))
            (refl, r.0, λ s. not-true _ (sym r.1 ∙ u (preferred-usable cache (id ∷ ids) ∙ s))),
      )

allowed-IsServed :
    (cache : Dict (Option Credits)) (ids : List String) (id : String)
    → str_eq id "" ≡ false
    → is_allowed ids (is_exhausted cache) id ≡ true
    → IsServed cache ids (answer id)
allowed-IsServed cache ids id n a =
    let (t, m, e) = some_of-Mem (λ t. str_eq t id) ids (ground (arith, a)) in
    subst (λ r. IsServed cache ids r) (sym (answer-named id n))
      (refl, subst (λ x. Memᴰ x ids) ((eq_iff t id).0 e) m, λ s. not-true _ (ground (arith, a)))

module _ {F : Type 0} (fl : Floats F) (shuffle : List (Weighted F) → List (Weighted F))
    (rnd : ℕ → ℕ) (clock : ℕ → ℕ) where
  pick_weighted_pool-IsServed :
      (cache : Dict (Option Credits)) (id : String) (ids : List String) (model : String)
      (r : Router F)
      → AllNamed (id ∷ ids)
      → IsServed cache
          (id ∷ ids)
          (pick_weighted_pool fl shuffle rnd clock cache (id ∷ ids) model r).1
  unfolding pick_weighted_pool
  pick_weighted_pool-IsServed cache id ids model r h =
      let p = ensure_pool_candidates cache (id ∷ ids) r.pool in
      let drawn = pick_from_pool fl shuffle rnd clock (id ∷ ids) (is_exhausted cache) model p in
      elim (Bool-cases (str_eq drawn.1 "")) [
        | inl y ↦
            subst (IsServed cache (id ∷ ids))
              (sym (ap {A = Router F × Response} (λ o. o.1) (if_true (str_eq drawn.1 "") _ _ y)))
              (picked-IsServed cache r.active id ids h).1
        | inr n ↦
            elim (pick_from_pool-allowed fl shuffle rnd clock (id ∷ ids) (is_exhausted cache) model
              p) [
                | inl e ↦ named_empty drawn.1 n e
                | inr a ↦
                    subst (IsServed cache (id ∷ ids))
                      (sym (
                        ap {A = Router F × Response} (λ o. o.1)
                          (if_false (str_eq drawn.1 "") _ _ n)))
                      (allowed-IsServed cache (id ∷ ids) drawn.1 n a)
              ]
      ]

  -- What the route is, once the selection is empty or not.
  pub route-kept :
      (cache : Dict (Option Credits)) (id : String) (ids : List String) (model : String)
      (r : Router F)
      → str_eq (trim r.active) "" ≡ false
      → AllNamed (id ∷ ids)
      → let picked = pick_active_auth r.active (preferred cache (id ∷ ids)) in
        route fl shuffle rnd clock cache (id ∷ ids) model r
        ≡ (record r { active = picked.1 }, answer picked.0)
  unfolding route
  route-kept cache id ids model r n h =
      if_true _ _ _ (both_not _ _ n (picked-IsServed cache r.active id ids h).0)

  route-single :
      (cache : Dict (Option Credits)) (id model : String) (r : Router F)
      → str_eq (trim r.active) "" ≡ true
      → (route fl shuffle rnd clock cache (id ∷ []) model r).1
        ≡ record { auth_id = id; handled = true }
  unfolding route
  route-single cache id model r y =
      ap {A = Router F × Response} (λ o. o.1)
        (if_false _ _ _
          (none_selected _ (str_eq (pick_active_auth r.active (preferred cache (id ∷ []))).0 "") y))

  route-pool :
      (cache : Dict (Option Credits)) (id j : String) (ids : List String) (model : String)
      (r : Router F)
      → str_eq (trim r.active) "" ≡ true
      → route fl shuffle rnd clock cache (id ∷ j ∷ ids) model r
        ≡ pick_weighted_pool fl shuffle rnd clock cache (id ∷ j ∷ ids) model r
  unfolding route
  route-pool cache id j ids model r y =
      if_false _ _ _ (
        none_selected _ (str_eq (pick_active_auth r.active (preferred cache (id ∷ j ∷ ids))).0 "")
          y)
      ∙ if_false _ _ _ (suc_not_zero (length ids))

  unselected-IsServed :
      (cache : Dict (Option Credits)) (id : String) (ids : List String) (model : String)
      (r : Router F)
      → AllNamed (id ∷ ids)
      → str_eq (trim r.active) "" ≡ true
      → IsServed cache (id ∷ ids) (route fl shuffle rnd clock cache (id ∷ ids) model r).1
  unselected-IsServed cache id [] model r h y =
      subst (IsServed cache (id ∷ [])) (sym (route-single cache id model r y))
        (refl, Memᴰ.head refl, λ s. ground (arith, s))
  unselected-IsServed cache id (j ∷ ids) model r h y =
      subst (IsServed cache (id ∷ j ∷ ids))
        (sym (ap {A = Router F × Response} (λ o. o.1) (route-pool cache id j ids model r y)))
        (pick_weighted_pool-IsServed cache id (j ∷ ids) model r h)

  route-IsServed :
      (cache : Dict (Option Credits)) (id : String) (ids : List String) (model : String)
      (r : Router F)
      → AllNamed (id ∷ ids)
      → IsServed cache (id ∷ ids) (route fl shuffle rnd clock cache (id ∷ ids) model r).1
  route-IsServed cache id ids model r h = elim (Bool-cases (str_eq (trim r.active) "")) [
    | inl y ↦ unselected-IsServed cache id ids model r h y
    | inr n ↦
        subst (IsServed cache (id ∷ ids))
          (sym (ap {A = Router F × Response} (λ o. o.1) (route-kept cache id ids model r n h)))
          (picked-IsServed cache r.active id ids h).1
  ]

  route-cases :
      (cache : Dict (Option Credits)) (ids : List String) (model : String) (r : Router F)
      → AllNamed ids
      → ((ids ≡ []) × (route fl shuffle rnd clock cache ids model r ≡ (r, deferred)))
        ⊎ IsServed cache ids (route fl shuffle rnd clock cache ids model r).1
  unfolding route
  route-cases cache [] model r h = inl (refl, refl)
  route-cases cache (id ∷ ids) model r h = inr (route-IsServed cache id ids model r h)

  -- In the mode "credits" a request is answered with an account that was offered by the provider, is
  -- not disabled in any way and has its models ready, and with one whose balance is not known to be
  -- exhausted if there is one such; if no such account is offered, or in another mode, the request is
  -- left to the host and nothing changes. No account that is eligible has an empty id.
  pub handle_scheduler_pick_lem :
      {J : Type 0} (ready : String → Bool) (cache : Dict (Option Credits))
      (candidates : List (HostCandidate J)) (model : String) (r : Router F)
      → let ids = map (λ c. c.id) (keep (eligible ready r.pool) candidates) in
        let out = handle_scheduler_pick fl shuffle rnd clock ready cache candidates model r in
        AllNamed ids
        → ((r.mode ≢ "credits") ⊎ (ids ≡ [])) × (out ≡ (r, deferred))
          ⊎ (r.mode ≡ "credits") × IsServed cache ids out.1
  unfolding handle_scheduler_pick
  handle_scheduler_pick_lem ready cache candidates model r h =
      elim (Bool-cases (str_eq r.mode "credits")) [
        | inr n ↦ inl (
          inl (λ e. absurd (ground (arith, e, n, eq_iff r.mode "credits"))),
          if_true (not (str_eq r.mode "credits")) _ _ (ap not n),
        )
        | inl y ↦
            let q = if_false (not (str_eq r.mode "credits")) (r, deferred) _ (ap not y) in
            elim (route-cases cache (map (λ c. c.id) (keep (eligible ready r.pool) candidates))
              model r h) [
                | inl d ↦ inl (inr d.0, q ∙ d.1)
                | inr v ↦ inr (
                  (eq_iff r.mode "credits").0 y,
                  subst
                      (λ o.
                        IsServed cache (map (λ c. c.id) (keep (eligible ready r.pool) candidates))
                          o.1)
                      (sym q) v,
                )
              ]
      ]
