-- ===== src/Pool/Pick/Fallback.antt =====
-- internal/pool/pick.go: the fallback when no account is healthy, and the mark of a selected one.
pub mod Earliest
use workbuddy2plus_plugin.Base.{
  ℕ, ◌+◌, String, Bool, false, not, ◌&&◌, ◌||◌, Option, none, some, List, [], ◌∷◌, str_eq, ltb,
  ◌==◌, if◌then◌else◌, some_of, Dict, insert,
}
use workbuddy2plus_plugin.Pool.Types.{Auth, Entry, Pool, is_hard}
use workbuddy2plus_plugin.Pool.Health.{pending, expiry, in_flight_full}

-- `tried[uid]`; a nil map has no key.
abbrev pub is_tried : List String → String → Bool
is_tried tried uid = some_of (λ t. str_eq t uid) tried

module _ {F : Type 0} where
  abbrev pub realm_ok : String → Entry F → Bool
  realm_ok realm e = str_eq realm "" || str_eq e.a.realm realm

  -- The account passes every `continue` of the fallback's loop.
  unfoldable pub can_fall_back : Pool F → List String → ℕ → String → String → Entry F → Bool
  can_fall_back p tried now realm uid e =
      if is_tried tried uid
      then false
      else if not (realm_ok realm e)
      then false
      else if e.disabled || e.manual_disabled
      then false
      else if is_hard e.cool_kind && pending now e.until
      then false
      else if in_flight_full p e
      then false
      else not (expiry e now == 0)

  -- One round of the loop: `best` is the account found so far.
  unfoldable pub earlier_of :
      Pool F
      → List String
      → ℕ
      → String
      → Option (String × Entry F)
      → String
      → Entry F
      → Option (String × Entry F)
  unfolding can_fall_back
  earlier_of p tried now realm none uid e =
      if can_fall_back p tried now realm uid e then some (uid, e) else none
  earlier_of p tried now realm (some (buid, b)) uid e =
      if can_fall_back p tried now realm uid e && ltb (expiry e now) (expiry b now)
      then some (uid, e)
      else some (buid, b)

  unfoldable pub earliest :
      Pool F
      → List String
      → ℕ
      → String
      → Option (String × Entry F)
      → Dict (Entry F)
      → Option (String × Entry F)
  unfolding earlier_of
  earliest p tried now realm best [] = best
  earliest p tried now realm best ((uid, e) ∷ rest) =
      earliest p tried now realm (earlier_of p tried now realm best uid e) rest

  -- `e.lastUsed = now; p.pickSeq++; e.usedSeq = p.pickSeq`
  unfoldable pub mark_used : ℕ → String → Entry F → Pool F → Pool F
  mark_used now uid e p = record p {
    by_uid = insert uid (record e { last_used = now; used_seq = p.pick_seq + 1 }) p.by_uid;
    pick_seq = p.pick_seq + 1;
  }

  unfoldable pub pick_earliest_expiry : List String → ℕ → String → Pool F → Pool F × Option Auth
  unfolding earliest mark_used
  pick_earliest_expiry tried now realm p = elim (earliest p tried now realm none p.by_uid) [
    | none ↦ (p, none)
    | some (uid, e) ↦ (mark_used now uid e p, some e.a)
  ]
