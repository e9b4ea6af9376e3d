-- ===== src/Session/Stable.antt =====
-- internal/session/ids.go: the keys stay the same while a request grows.
use workbuddy2plus_plugin.Base.{
  ℕ, ◌+◌, String, ◌≡◌, refl, ap, inl, inr, true, false, none, some, List, [], ◌∷◌, ◌++◌,
  if◌then◌else◌, str_eq, Bool-cases, All,
}
use workbuddy2plus_plugin.Session.{
  Message, IdContext, last_user, turn_key_of, turn_key, system_after, first_user, cache_id_of,
  cache_conversation_id, resolve_conversation_id,
}

-- A message that is not of a user.
abbrev pub IsNoUser : Message → Type 0
IsNoUser m = str_eq m.role "user" ≡ false

module _ {F : Type 0} (ctx : IdContext F) where
  -- A list that begins with another and whose first message of a user is in it.
  first_user-append :
      (system : String) (ms more : List Message)
      → str_eq (first_user ctx system ms).1 "" ≡ false
      → first_user ctx system (ms ++ more) ≡ first_user ctx system ms
  unfolding first_user
  first_user-append system [] more h = absurd (cc)
  first_user-append system (m ∷ ms) more h = elim (Bool-cases (str_eq m.role "user")) [
    | inl e ↦ rw (e, first_user) refl
    | inr e ↦
        rw (e, first_user)
          (first_user-append (system_after ctx system m) ms more (rw (e, first_user) at h))
  ]

  last_user-none : (i : ℕ) (more : List Message) → All IsNoUser more → last_user i more ≡ none
  unfolding last_user
  last_user-none i [] h = refl
  last_user-none i (m ∷ ms) h = rw (last_user-none (i + 1) ms h.1, last_user) (rw h.0 refl)

  last_user-append :
      (i : ℕ) (ms more : List Message)
      → All IsNoUser more
      → last_user i (ms ++ more) ≡ last_user i ms
  unfolding last_user
  last_user-append i [] more h = last_user-none i more h
  last_user-append i (m ∷ ms) more h =
      ap
        (λ o. elim o [
          | some found ↦ some found
          | none ↦ if str_eq m.role "user" then some (i, m) else none
        ])
        (last_user-append (i + 1) ms more h)

  -- Two requests that are not empty and decode to messages have the same key of the turn, if the second
  -- has the messages of the first and after them only messages that are not of a user.
  pub turn_key-append :
      (body body' : String) (ms more : List Message)
      → str_eq body "" ≡ false
      → str_eq body' "" ≡ false
      → ctx.decode_messages body ≡ some ms
      → ctx.decode_messages body' ≡ some (ms ++ more)
      → All IsNoUser more
      → turn_key ctx body' ≡ turn_key ctx body
  unfolding turn_key turn_key_of
  turn_key-append body body' ms more n n' d d' h =
      rw (n, n', turn_key) (rw (d, d') (rw (last_user-append 0 ms more h, turn_key_of) refl))

  -- A dialog that names no id of its own, and whose first message of a user can be signed, keeps the
  -- id for the cache when its request grows by any messages and still decodes.
  pub cache_conversation_id-append :
      (body body' : String) (ms more : List Message)
      → str_eq (resolve_conversation_id ctx body) "" ≡ true
      → str_eq (resolve_conversation_id ctx body') "" ≡ true
      → ctx.decode_messages body ≡ some ms
      → ctx.decode_messages body' ≡ some (ms ++ more)
      → str_eq (first_user ctx "" ms).1 "" ≡ false
      → cache_conversation_id ctx body' ≡ cache_conversation_id ctx body
  unfolding cache_conversation_id cache_id_of
  cache_conversation_id-append body body' ms more n n' d d' h =
      rw (n, n', cache_conversation_id)
        (rw (d, d') (rw (first_user-append "" ms more h, cache_id_of) refl))
