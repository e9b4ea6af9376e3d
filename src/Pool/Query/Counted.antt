-- ===== src/Pool/Query/Counted.antt =====
-- state.go: the counts of the pool against the list of available accounts, and what a pool that is
-- not servable means for the selection.
use workbuddy2plus_plugin.Base.{
  ℕ, suc, ◌+◌, String, ◌≡◌, refl, ap, ◌∙◌, inl, inr, true, false, List, [], ◌∷◌, map, arith,
  if◌then◌else◌, Bool-cases, length, keep, some_of, Dict, length-sort_stable,
}
use workbuddy2plus_plugin.Pool.Types.{Entry, Pool}
use workbuddy2plus_plugin.Pool.Health.{healthy, healthy_for_model}
use workbuddy2plus_plugin.Pool.Pick.{candidates, selectable}
use workbuddy2plus_plugin.Pool.Query.{
  text_lt, Counts, no_counts, is_available, available_uids_locked, count_entry, count_all,
  counts_detailed_for_realm, is_servable, servable_locked,
}

module _ {F : Type 0} (p : Pool F) (realm : String) (now : ℕ) where
  abbrev available : Dict (Entry F) → ℕ
  available l = length (keep (is_available p realm (λ e. healthy e now)) l)

  -- The counts so far add up, with so many accounts found available.
  abbrev pub AddsUp : ℕ → Counts → Type 0
  AddsUp n c = (c.total ≡ c.healthy + c.cooling + c.disabled) × (c.healthy ≡ c.in_flight_full + n)

  count_entry-AddsUp :
      (uid : String) (e : Entry F) (c : Counts) (n : ℕ)
      → AddsUp n c
      → AddsUp
          (if is_available p realm (λ x. healthy x now) (uid, e) then n + 1 else n)
          (count_entry p realm now e c)
  unfolding count_entry healthy
  count_entry-AddsUp uid e c n h = ground arith

  available_cons :
      (n : ℕ) (uid : String) (e : Entry F) (l : Dict (Entry F))
      → (if is_available p realm (λ x. healthy x now) (uid, e) then n + 1 else n) + available l
        ≡ n + available ((uid, e) ∷ l)
  available_cons n uid e l =
      elim (Bool-cases (is_available p realm (λ x. healthy x now) (uid, e))) [
        | inl y ↦ rw (y, keep) (omega arith)
        | inr n0 ↦ rw (n0, keep) refl
      ]

  count_all-AddsUp :
      (l : Dict (Entry F)) (c : Counts) (n : ℕ)
      → AddsUp n c
      → AddsUp (n + available l) (count_all p realm now l c)
  unfolding count_all
  count_all-AddsUp [] c n h = (h.0, omega (arith, h.1))
  count_all-AddsUp ((uid, e) ∷ l) c n h =
      let rest = count_all-AddsUp l _ _ (count_entry-AddsUp uid e c n h) in
      (rest.0, omega (arith, rest.1, available_cons n uid e l))

  length-map_keys : (l : Dict (Entry F)) → length (map (λ kv. kv.0) l) ≡ length l
  length-map_keys [] = refl
  length-map_keys (kv ∷ l) = ap suc (length-map_keys l)

  length-available :
      length (available_uids_locked realm (λ e. healthy e now) p) ≡ available p.by_uid
  unfolding available_uids_locked
  length-available = length-sort_stable text_lt _ ∙ length-map_keys _

  -- The counts of a realm add up: each account is healthy, cooling or disabled, and the list of the
  -- available accounts has as many names as there are healthy accounts that are not full.
  pub counts_detailed_lem :
      let c = counts_detailed_for_realm now realm p in
      (c.total ≡ c.healthy + c.cooling + c.disabled)
      × (c.healthy ≡ c.in_flight_full + length (available_uids_locked realm (λ e. healthy e now) p))
  unfolding counts_detailed_for_realm
  counts_detailed_lem =
      let all = count_all-AddsUp p.by_uid no_counts 0 (refl, refl) in
      (all.0, omega (arith, all.1, length-available))

  selectable-is_servable :
      (tried : List String) (model uid : String) (e : Entry F)
      → selectable p tried now model realm (uid, e) ≡ true
      → is_servable p realm now (uid, e) ≡ true
  unfolding selectable healthy_for_model
  selectable-is_servable tried model uid e h = ground arith

  none_selectable :
      (tried : List String) (model : String) (l : Dict (Entry F))
      → some_of (is_servable p realm now) l ≡ false
      → keep (selectable p tried now model realm) l ≡ []
  none_selectable tried model [] h = refl
  none_selectable tried model ((uid, e) ∷ l) h =
      ground (arith, selectable-is_servable tried model uid e, none_selectable tried model l)

  -- If the pool says that it is not servable, then no account can be selected directly, for any
  -- model and whatever was tried.
  pub not_servable-candidates :
      servable_locked now realm p ≡ false
      → (tried : List String) (model : String) → candidates tried now model realm p ≡ []
  unfolding servable_locked candidates
  not_servable-candidates h tried model = none_selectable tried model p.by_uid h
