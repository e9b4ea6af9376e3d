-- ===== src/Plugin/Scheduler/Sticky.antt =====
-- plugin/scheduler.go: requests while the panel has an account selected.
use mathlib.Core.List.{Memᴰ}
use workbuddy2plus_plugin.Base.{
  ℕ, String, ◌≡◌, ap, ◌∙◌, inl, inr, Bool, true, false, not, Option, some, List, [], ◌∷◌, map,
  arith, str_eq, eq_iff, if◌then◌else◌, Bool-cases, All-Mem, Mem-All, Dict, keep, lookup, insert,
  lookup-insert,
}
use workbuddy2plus_plugin.Pool.Floats.{Floats}
use workbuddy2plus_plugin.Pool.Pick.Weights.{Weighted}
use workbuddy2plus_plugin.Upstream.Texts.{trim}
use workbuddy2plus_plugin.Plugin.Active.{Candidate, by_id, current}
use workbuddy2plus_plugin.Plugin.Active.Choice.{current-All, picked-kept}
use workbuddy2plus_plugin.Plugin.Scheduler.{
  Credits, is_exhausted, HostCandidate, Router, eligible, preferred, answer, route,
  handle_scheduler_pick,
}
use workbuddy2plus_plugin.Plugin.Scheduler.Answer.{
  AllNamed, answer-named, preferred-Mem, if_false, if_true, route-kept,
}

-- A key that is there stays, and the id of a candidate is there.
by_id-stays :
    (cs : List Candidate) (m : Dict Candidate) (j : String) (k : Candidate)
    → lookup j m ≡ some k
    → (x : Candidate) × (lookup j (by_id cs m) ≡ some x)
unfolding by_id
by_id-stays [] m j k q = (k, q)
by_id-stays (c ∷ cs) m j k q = elim (Bool-cases (str_eq c.id j)) [
  | inl y ↦ by_id-stays cs (insert c.id c m) j c (rw y at (lookup-insert c.id j c m))
  | inr n ↦ by_id-stays cs (insert c.id c m) j k ((rw n at (lookup-insert c.id j c m)) ∙ q)
]

-- An id that is a member stands for itself.
if_same : {A : Type 0} (i id : String) (x y : A) → id ≡ i → (if str_eq i id then x else y) ≡ x
if_same i id x y e = if_true (str_eq i id) _ _ (ground (arith, e, eq_iff i id))

preferred-found :
    (cache : Dict (Option Credits)) (ids : List String) (m : Dict Candidate) (id : String)
    → Memᴰ id ids
    → (x : Candidate) × (lookup id (by_id (preferred cache ids) m) ≡ some x)
unfolding by_id
preferred-found cache [] m id h = elim h [ ]
preferred-found cache (i ∷ ids) m id (Memᴰ.head e) =
    by_id-stays (preferred cache ids) _ id
      (record { id = i; disabled = false; exhausted = is_exhausted cache i })
      (lookup-insert i id _ m ∙ if_same i id _ _ e)
preferred-found cache (i ∷ ids) m id (Memᴰ.tail h) = preferred-found cache ids _ id h

current-found :
    (cache : Dict (Option Credits)) (ids : List String) (cur : String)
    → str_eq cur "" ≡ false
    → Memᴰ cur ids
    → (x : Candidate) × (current cur (preferred cache ids) ≡ some x)
unfolding current
current-found cache ids cur n h =
    let (x, q) = preferred-found cache ids [] cur h in (x, if_false (str_eq cur "") _ _ n ∙ q)

module _ {F : Type 0} (fl : Floats F) (shuffle : List (Weighted F) → List (Weighted F))
    (rnd : ℕ → ℕ) (clock : ℕ → ℕ) where
  route-sticky :
      (cache : Dict (Option Credits)) (ids : List String) (model : String) (r : Router F)
      → AllNamed ids
      → Memᴰ (trim r.active) ids
      → is_exhausted cache (trim r.active) ≡ false
      → route fl shuffle rnd clock cache ids model r
        ≡ (r, record { auth_id = trim r.active; handled = true })
  route-sticky cache [] model r h m e = elim m [ ]
  route-sticky cache (id ∷ ids) model r h m e =
      let named = Mem-All (λ i. str_eq i "" ≡ false) m h in
      let (k, q) = current-found cache (id ∷ ids) (trim r.active) named m in
      let g =
        current-All (λ x. Memᴰ x (preferred cache (id ∷ ids))) (trim r.active)
          (preferred cache (id ∷ ids)) k (All-Mem (preferred cache (id ∷ ids))) q in
      let u =
        (preferred-Mem cache (id ∷ ids) k g.0).1
        ∙ ap (λ i. not (is_exhausted cache i)) g.1
        ∙ ap not e in
      let p =
        picked-kept r.active
          (record { id = id; disabled = false; exhausted = is_exhausted cache id }) k
          (preferred cache ids) q (inl u) in
      route-kept fl shuffle rnd clock cache id ids model r named h
      ∙ (λ i. (record r { active = (p i).1 }, answer (p i).0))
      ∙ ap (λ a. (r, a)) (answer-named (trim r.active) named)

  -- In the mode "credits" the account that is selected is answered, and nothing changes, as long as
  -- it is eligible and its balance is not known to be exhausted. No account that is eligible has an
  -- empty id.
  pub handle_scheduler_pick-sticky :
      {J : Type 0} (ready : String → Bool) (cache : Dict (Option Credits))
      (candidates : List (HostCandidate J)) (model : String) (r : Router F)
      → let ids = map (λ c. c.id) (keep (eligible ready r.pool) candidates) in
        AllNamed ids
        → r.mode ≡ "credits"
        → Memᴰ (trim r.active) ids
        → is_exhausted cache (trim r.active) ≡ false
        → handle_scheduler_pick fl shuffle rnd clock ready cache candidates model r
          ≡ (r, record { auth_id = trim r.active; handled = true })
  unfolding handle_scheduler_pick
  handle_scheduler_pick-sticky ready cache candidates model r h c m e =
      if_false (not (str_eq r.mode "credits")) _ _ (ground (arith, c, eq_iff r.mode "credits"))
      ∙ route-sticky cache (map (λ c. c.id) (keep (eligible ready r.pool) candidates)) model r h m e
