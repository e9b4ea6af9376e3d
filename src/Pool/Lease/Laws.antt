-- ===== src/Pool/Lease/Laws.antt =====
-- pool.go: leases taken and given back one after the other.
use workbuddy2plus_plugin.Base.{
  ◌+◌, ◌-◌, String, ◌≡◌, sym, ap, true, false, some, arith, eq_iff, if◌then◌else◌, lookup, insert,
  lookup-insert,
}
use mathlib.Core.Path.{subst}
use workbuddy2plus_plugin.Pool.Types.{Entry, Pool}
use workbuddy2plus_plugin.Pool.Health.{in_flight_full}
use workbuddy2plus_plugin.Pool.Lease.{acquire, release, put_in_flight}

module _ {F : Type 0} (uid : String) (p : Pool F) (e : Entry F)
    (at : lookup uid p.by_uid ≡ some e) where
  -- A lease is granted exactly when the account is not full; then it counts one more request in
  -- flight, and otherwise nothing changes.
  pub acquire_lem :
      acquire uid p
      ≡ (if in_flight_full p e then (p, false) else (put_in_flight uid e (e.in_flight + 1) p, true))
  unfolding acquire in_flight_full
  acquire_lem = ground arith

  release_granted :
      (j : String)
      → lookup j (release uid (put_in_flight uid e (e.in_flight + 1) p)).by_uid ≡ lookup j p.by_uid
  unfolding release
  release_granted j =
      let busy : Entry F = record e { in_flight = e.in_flight + 1 } in
      let freed : Entry F = record e { in_flight = e.in_flight + 1 - 1 } in
      ground (
        arith,
        eq_iff uid uid,
        eq_iff uid j,
        lookup-insert uid uid busy p.by_uid,
        lookup-insert uid j busy p.by_uid,
        lookup-insert uid j freed (insert uid busy p.by_uid),
      )

  -- On an account that is not full a lease is granted, and giving it back leaves every account as
  -- it was. On a full one none is granted and nothing changes.
  pub release-acquire :
      (in_flight_full p e ≡ false
        → ((acquire uid p).1 ≡ true)
          × ((j : String) → lookup j (release uid (acquire uid p).0).by_uid ≡ lookup j p.by_uid))
      × (in_flight_full p e ≡ true → acquire uid p ≡ (p, false))
  release-acquire = (
    λ h.
        let granted : acquire uid p ≡ (put_in_flight uid e (e.in_flight + 1) p, true) =
          ground (arith, acquire_lem) in
        (
          ap (λ r. r.1) granted,
          λ j.
              subst (λ r. lookup j (release uid r.0).by_uid ≡ lookup j p.by_uid) (sym granted)
                (release_granted j),
        ),
    λ h. ground (arith, acquire_lem),
  )
