-- ===== src/Pool/Lease.antt =====
-- internal/pool/pool.go: the in-flight leases of an account, taken in sequence. The retries of the
-- compare-and-swap loops, which only concurrent callers see, are in Lease/Race.
pub mod Race
pub mod Laws
use workbuddy2plus_plugin.Base.{
  ℕ, ◌+◌, ◌-◌, Bool, true, false, String, Option, none, some, ltb, ◌==◌, if◌then◌else◌, lookup,
  insert,
}
use workbuddy2plus_plugin.Pool.Types.{Entry, Pool}
use workbuddy2plus_plugin.Pool.Health.{in_flight_limit}

module _ {F : Type 0} where
  -- A write of the atomic counter of an entry, which does not mark the pool dirty.
  abbrev pub put_in_flight : String → Entry F → ℕ → Pool F → Pool F
  put_in_flight uid e n p = record p { by_uid = insert uid (record e { in_flight = n }) p.by_uid }

  unfoldable pub acquire : String → Pool F → Pool F × Bool
  unfolding in_flight_limit
  acquire uid p = elim (lookup uid p.by_uid) [
    | none ↦ (p, false)
    | some e ↦
        let limit = in_flight_limit p e in
        if limit == 0
        then (put_in_flight uid e (e.in_flight + 1) p, true)
        else if ltb e.in_flight limit
        then (put_in_flight uid e (e.in_flight + 1) p, true)
        else (p, false)
  ]

  unfoldable pub release : String → Pool F → Pool F
  release uid p = elim (lookup uid p.by_uid) [
    | none ↦ p
    | some e ↦ if e.in_flight == 0 then p else put_in_flight uid e (e.in_flight - 1) p
  ]
