-- ===== src/Pool/Sync/Aligned.antt =====
-- pool.go: the pool after an alignment, key by key.
use workbuddy2plus_plugin.Base.{
  String, ◌≡◌, refl, inl, inr, Bool, true, false, Option, none, some, List, [], ◌∷◌, arith, str_eq,
  eq_iff, if◌then◌else◌, Option-cases, Dict, lookup, lookup-insert, lookup-keep,
}
use workbuddy2plus_plugin.Pool.Types.{Auth, Entry, new_entry, Pool}
use workbuddy2plus_plugin.Pool.Sync.{seen, upsert, upsert_all, sync_to_dir}

-- The last credential of the scan with this uid.
abbrev pub last_of : List Auth → String → Option Auth
last_of [] uid = none
last_of (a ∷ auths) uid = elim (last_of auths uid) [
  | some b ↦ some b
  | none ↦ if str_eq a.uid uid then some a else none
]

abbrev is_there : Option Auth → Bool
is_there none = false
is_there (some a) = true

seen-last_of : (auths : List Auth) (uid : String) → seen auths uid ≡ is_there (last_of auths uid)
seen-last_of [] uid = refl
seen-last_of (a ∷ auths) uid = elim (Option-cases (last_of auths uid)) [
  | inl q ↦ ground (arith, seen-last_of auths uid)
  | inr (b, q) ↦ ground (arith, seen-last_of auths uid)
]

module _ {F : Type 0} where
  -- An account with this credential: the one that there was, or a new one.
  abbrev pub with_auth : Auth → Option (Entry F) → Entry F
  with_auth a none = new_entry a
  with_auth a (some e) = record e { a = a }

  abbrev pub aligned : Option Auth → Option (Entry F) → Option (Entry F)
  aligned none old = old
  aligned (some a) old = some (with_auth a old)

  lookup-upsert :
      (a : Auth) (uid : String) (l : Dict (Entry F))
      → lookup uid (upsert a l)
        ≡ (if str_eq a.uid uid then some (with_auth a (lookup uid l)) else lookup uid l)
  unfolding upsert
  lookup-upsert a uid l = elim (Option-cases (lookup a.uid l)) [
    | inl q ↦
        rw (q, upsert) (ground (arith, eq_iff a.uid uid, lookup-insert a.uid uid (new_entry a) l))
    | inr (e, q) ↦
        rw (q, upsert)
          (ground (arith, eq_iff a.uid uid, lookup-insert a.uid uid (record e { a = a }) l))
  ]

  with_auth_twice :
      (b a : Auth) (old : Option (Entry F)) → with_auth b (some (with_auth a old)) ≡ with_auth b old
  unfolding new_entry
  with_auth_twice b a none = refl
  with_auth_twice b a (some e) = refl

  lookup-upsert_all :
      (auths : List Auth) (uid : String) (l : Dict (Entry F))
      → lookup uid (upsert_all auths l) ≡ aligned (last_of auths uid) (lookup uid l)
  unfolding upsert_all
  lookup-upsert_all [] uid l = refl
  lookup-upsert_all (a ∷ auths) uid l =
      let others = lookup-upsert_all auths uid (upsert a l) in
      elim (Option-cases (last_of auths uid)) [
        | inl q ↦ ground (arith, others, lookup-upsert a uid l)
        | inr (b, q) ↦
            ground (arith, others, lookup-upsert a uid l, with_auth_twice b a (lookup uid l))
      ]

  -- After an alignment the pool has exactly the accounts of the scan. One that was there before
  -- keeps all of its state under the credential that the scan read last for it, and a new one
  -- starts from nothing.
  pub lookup-sync_to_dir :
      (auths : List Auth) (p : Pool F) (uid : String)
      → lookup uid (sync_to_dir auths p).0.by_uid ≡ elim (last_of auths uid) [
        | none ↦ none
        | some a ↦ some (with_auth a (lookup uid p.by_uid))
      ]
  unfolding sync_to_dir
  lookup-sync_to_dir auths p uid =
      let merged = upsert_all auths p.by_uid in
      elim (Option-cases (last_of auths uid)) [
        | inl q ↦ ground (arith, lookup-keep (seen auths) uid merged, seen-last_of auths uid)
        | inr (b, q) ↦ ground (
          arith,
          lookup-keep (seen auths) uid merged,
          seen-last_of auths uid,
          lookup-upsert_all auths uid p.by_uid,
        )
      ]
