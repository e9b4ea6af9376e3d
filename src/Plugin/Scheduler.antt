-- ===== src/Plugin/Scheduler.antt =====
-- plugin/scheduler.go: the answer to the host's request to schedule, with the cached balances of
-- cache.go and billing.go and `ensurePoolCandidates` of wb_pool.go.
pub mod Answer
pub mod Sticky
use workbuddy2plus_plugin.Base.{
  ℕ, ◌+◌, String, Bool, true, false, not, ◌&&◌, ◌||◌, Option, none, some, List, [], ◌∷◌, map,
  str_eq, ltb, ltb_ℤ, ◌==◌, if◌then◌else◌, length, keep, Dict, lookup, ℤ, pos, negsuc,
}
use workbuddy2plus_plugin.Pool.Types.{Pool, Auth}
use workbuddy2plus_plugin.Pool.Floats.{Floats}
use workbuddy2plus_plugin.Pool.Pick.Weights.{Weighted}
use workbuddy2plus_plugin.Pool.State.{manual_disabled_state, set_credits}
use workbuddy2plus_plugin.Pool.Sync.{add}
use workbuddy2plus_plugin.Upstream.Json.{Json, text, flag, null, num, arr, obj, maps}
use workbuddy2plus_plugin.Upstream.Texts.{trim, lower_is, fold_is}
use workbuddy2plus_plugin.Plugin.{pick_from_pool}
use workbuddy2plus_plugin.Plugin.Active.{Candidate, pick_active_auth}

-- `creditsSummary`; `packages` is the number of packages.
pub record Credits : Type 0 where
  pub total_remain : ℤ
  pub total_used : ℤ
  pub total_size : ℤ
  pub packages : ℕ

unfoldable pub is_credits_exhausted : Credits → Bool
is_credits_exhausted cr =
    if ltb_ℤ (pos 0) cr.total_remain
    then false
    else if ltb_ℤ (pos 0) cr.total_used || ltb_ℤ (pos 0) cr.total_size
    then true
    else ltb 0 cr.packages

-- `accountCache`, of which the balance is read; an entry may have none.
unfoldable pub cached_credits_score : Dict (Option Credits) → String → ℤ × Bool
unfolding is_credits_exhausted
cached_credits_score cache id = elim (lookup id cache) [
  | none ↦ (negsuc 0, false)
  | some entry ↦ elim entry [
    | none ↦ (negsuc 0, false)
    | some cr ↦ (cr.total_remain, is_credits_exhausted cr)
  ]
]

abbrev pub is_exhausted : Dict (Option Credits) → String → Bool
is_exhausted cache id = (cached_credits_score cache id).1

-- `SchedulerAuthCandidate` of the host.
pub record HostCandidate (J : Type 0) : Type 0 where
  pub id : String
  pub provider : String
  pub status : String
  pub metadata : Dict (Json J)

-- What the plugin keeps: the mode, the selection and the pool.
pub record Router (F : Type 0) : Type 0 where
  pub mode : String
  pub active : String
  pub pool : Pool F

-- `disabled` in the metadata, as a flag or as a text.
unfoldable pub says_disabled : {J : Type 0} → Json J → Bool
says_disabled (flag b) = b
says_disabled (text s) = fold_is (trim s) "true"
says_disabled null = false
says_disabled (num x) = false
says_disabled (arr xs) = false
says_disabled (obj fs) = false
says_disabled (maps rs) = false

unfoldable pub candidate_disabled : {J : Type 0} → HostCandidate J → Bool
unfolding says_disabled
candidate_disabled c =
    if lower_is (trim c.status) "disabled"
    then true
    else elim (lookup "disabled" c.metadata) [ none ↦ false | some v ↦ says_disabled v ]

module _ {F : Type 0} where
  unfoldable pub manual_disabled_for_auth_uid : String → Pool F → Bool
  manual_disabled_for_auth_uid uid p =
      if str_eq (trim uid) ""
      then false
      else elim (manual_disabled_state (trim uid) p) [ none ↦ false | some s ↦ s.0 ]

  -- An account with no more than an id is of the realm "cn".
  unfoldable pub ensure_pool_candidates : Dict (Option Credits) → List String → Pool F → Pool F
  ensure_pool_candidates cache [] p = p
  ensure_pool_candidates cache (id ∷ ids) p =
      let score = cached_credits_score cache id in
      let added = add (record { uid = id; nickname = ""; realm = "cn" }) p in
      ensure_pool_candidates cache ids (
        if str_eq id ""
        then p
        else if not (ltb_ℤ score.0 (pos 0)) && not score.1
        then set_credits id score.0 added
        else added)

  -- `ready` tells of an account whether its state of models is executable.
  unfoldable pub eligible : {J : Type 0} → (String → Bool) → Pool F → HostCandidate J → Bool
  unfolding candidate_disabled manual_disabled_for_auth_uid
  eligible ready p c =
      str_eq c.provider "workbuddy"
      && (not (candidate_disabled c || manual_disabled_for_auth_uid c.id p) && ready c.id)

-- The candidates as `pickActiveAuth` sees them.
abbrev pub preferred : Dict (Option Credits) → List String → List Candidate
preferred cache ids =
    map (λ id. record { id = id; disabled = false; exhausted = is_exhausted cache id }) ids

-- `SchedulerPickResponse`
pub record Response : Type 0 where
  pub auth_id : String
  pub handled : Bool

abbrev pub deferred : Response
deferred = record { auth_id = ""; handled = false }

-- The answer with an account, if it has a name.
unfoldable pub answer : String → Response
answer id = if str_eq id "" then deferred else record { auth_id = id; handled = true }

module _ {F : Type 0} (fl : Floats F) (shuffle : List (Weighted F) → List (Weighted F))
    (rnd : ℕ → ℕ) (clock : ℕ → ℕ) where
  -- What the weighted pool answers, and else the selection.
  unfoldable pub pick_weighted_pool :
      Dict (Option Credits) → List String → String → Router F → Router F × Response
  unfolding ensure_pool_candidates pick_active_auth answer
  pick_weighted_pool cache ids model r =
      let drawn =
        pick_from_pool fl shuffle rnd clock ids (is_exhausted cache) model
          (ensure_pool_candidates cache ids r.pool) in
      let picked = pick_active_auth r.active (preferred cache ids) in
      if str_eq drawn.1 ""
      then (record r { pool = drawn.0; active = picked.1 }, answer picked.0)
      else (record r { pool = drawn.0 }, answer drawn.1)

  unfoldable pub route :
      Dict (Option Credits) → List String → String → Router F → Router F × Response
  unfolding pick_weighted_pool answer
  route cache [] model r = (r, deferred)
  route cache (id ∷ ids) model r =
      let picked = pick_active_auth r.active (preferred cache (id ∷ ids)) in
      if not (str_eq (trim r.active) "") && not (str_eq picked.0 "")
      then (record r { active = picked.1 }, answer picked.0)
      else if length ids == 0
      then (record r { active = trim id }, record { auth_id = id; handled = true })
      else pick_weighted_pool cache (id ∷ ids) model r

  unfoldable pub handle_scheduler_pick :
      {J : Type 0}
      → (String → Bool)
      → Dict (Option Credits)
      → List (HostCandidate J)
      → String
      → Router F
      → Router F × Response
  unfolding eligible route
  handle_scheduler_pick ready cache candidates model r =
      if not (str_eq r.mode "credits")
      then (r, deferred)
      else route cache (map (λ c. c.id) (keep (eligible ready r.pool) candidates)) model r
