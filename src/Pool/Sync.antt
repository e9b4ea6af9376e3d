-- ===== src/Pool/Sync.antt =====
-- internal/pool/pool.go: accounts added to the pool, and the alignment of the pool with a scan of
-- the credentials.
pub mod Aligned
use workbuddy2plus_plugin.Base.{
  Bool, not, String, str_eq, none, some, List, [], ◌∷◌, Dict, lookup, insert, keep, some_of,
}
use workbuddy2plus_plugin.Pool.Types.{Auth, Entry, new_entry, Pool}

-- `seen[uid]`
abbrev pub seen : List Auth → String → Bool
seen auths uid = some_of (λ a. str_eq a.uid uid) auths

module _ {F : Type 0} where
  unfoldable pub upsert : Auth → Dict (Entry F) → Dict (Entry F)
  upsert a by_uid = elim (lookup a.uid by_uid) [
    | none ↦ insert a.uid (new_entry a) by_uid
    | some e ↦ insert a.uid (record e { a = a }) by_uid
  ]

  unfoldable pub add : Auth → Pool F → Pool F
  unfolding upsert
  add a p = record p { by_uid = upsert a p.by_uid }

  unfoldable pub upsert_all : List Auth → Dict (Entry F) → Dict (Entry F)
  unfolding upsert
  upsert_all [] by_uid = by_uid
  upsert_all (a ∷ auths) by_uid = upsert_all auths (upsert a by_uid)

  -- The flag tells that an account was dropped, so that the pool is saved at once.
  unfoldable pub sync_to_dir : List Auth → Pool F → Pool F × Bool
  unfolding upsert_all
  sync_to_dir auths p =
      let merged = upsert_all auths p.by_uid in
      (
        record p { by_uid = keep (λ kv. seen auths kv.0) merged },
        some_of (λ kv. not (seen auths kv.0)) merged,
      )
