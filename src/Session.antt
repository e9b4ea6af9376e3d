-- ===== src/Session.antt =====
-- internal/session/ids.go: the keys by which the requests of a turn and of a dialog are told apart. What
-- encoding/json, the hash and the printing of a number do is a parameter.
pub mod Stable
mod Tests
use workbuddy2plus_plugin.Base.{
  ℕ, ◌+◌, String, Bool, true, false, ◌&&◌, ◌||◌, Option, none, some, List, [], ◌∷◌, if◌then◌else◌,
  str_eq, starts_with, Dict,
}
use mathlib.Core.Option
use workbuddy2plus_plugin.Upstream.Json.{Json, as_map, value_at, text_at}
use workbuddy2plus_plugin.Upstream.Texts.{trim}
use workbuddy2plus_plugin.Upstream.Markup.Scan.{◌<>◌}

-- A message of a request, whose content is the raw JSON of it.
pub record Message : Type 0 where
  pub role : String
  pub content : String

-- A part of a content in parts.
pub record Part : Type 0 where
  pub type_name : String
  pub text : String

-- What the code asks of its libraries. The two hashes are of the first 4 and 16 bytes, in hex.
pub record IdContext (F : Type 0) : Type 0 where
  pub decode_object : String → Option (Dict (Json F))
  pub decode_messages : String → Option (List Message)
  pub decode_text : String → Option String
  pub decode_parts : String → Option (List String)
  pub decode_part : String → Option Part
  pub decimal : ℕ → String
  pub hash_4 : String → String
  pub hash_16 : String → String

-- The first of two texts that is not empty.
unfoldable pub or_else : String → String → String
or_else a b = if str_eq a "" then b else a

-- The last message of a user, with its index, where `i` is the index of the first message.
unfoldable pub last_user : ℕ → List Message → Option (ℕ × Message)
last_user i [] = none
last_user i (m ∷ ms) = elim (last_user (i + 1) ms) [
  | some found ↦ some found
  | none ↦ if str_eq m.role "user" then some (i, m) else none
]

module _ {F : Type 0} (ctx : IdContext F) where
  unfoldable pub resolve_object : Dict (Json F) → String
  unfolding or_else
  resolve_object d =
      let outer = or_else (text_at "conversation_id" d) (text_at "conversationId" d) in
      elim (as_map (value_at "metadata" d)) [
        | none ↦ outer
        | some meta ↦
            or_else (text_at "conversation_id" meta) (or_else (text_at "conversationId" meta) outer)
      ]

  unfoldable pub resolve_conversation_id : String → String
  unfolding resolve_object
  resolve_conversation_id body =
      if str_eq body ""
      then ""
      else elim (ctx.decode_object body) [ none ↦ "" | some d ↦ resolve_object d ]

  -- The loop over the parts: what is written, and whether a part is no text.
  unfoldable pub sign_parts : List String → Option (String × Bool)
  sign_parts [] = some ("", false)
  sign_parts (raw ∷ raws) = elim (ctx.decode_part raw) [
    | none ↦ none
    | some p ↦
        Option.map
          (λ rest.
            if str_eq p.type_name "" || str_eq p.type_name "text"
            then (p.text <> rest.0, rest.1)
            else ("\n[" <> (p.type_name <> (":" <> (ctx.hash_4 raw <> ("]\n" <> rest.0)))), true))
          (sign_parts raws)
  ]

  unfoldable pub parts_signature : String → String
  unfolding sign_parts trim
  parts_signature raw = elim (ctx.decode_parts raw) [
    | none ↦ ""
    | some raws ↦ elim (sign_parts raws) [
      | none ↦ ""
      | some signed ↦ if signed.1 then trim signed.0 else signed.0
    ]
  ]

  unfoldable pub content_signature : String → String
  unfolding parts_signature trim
  content_signature raw =
      let s = trim raw in
      if str_eq s "" || str_eq s "null"
      then ""
      else if starts_with s "\""
      then (elim (ctx.decode_text raw) [ none ↦ "" | some t ↦ t ])
      else if starts_with s "["
      then parts_signature raw
      else ""

  unfoldable pub turn_key_of : List Message → String
  unfolding last_user content_signature
  turn_key_of ms = elim (last_user 0 ms) [
    | none ↦ ""
    | some (i, m) ↦
        if str_eq (content_signature m.content) ""
        then ""
        else "u" <> (ctx.decimal i <> (":" <> content_signature m.content))
  ]

  unfoldable pub turn_key : String → String
  unfolding turn_key_of
  turn_key body =
      if str_eq body ""
      then ""
      else elim (ctx.decode_messages body) [ none ↦ "" | some ms ↦ turn_key_of ms ]

  -- The system text that is kept after a message.
  unfoldable pub system_after : String → Message → String
  unfolding content_signature
  system_after system m =
      if (str_eq m.role "system" || str_eq m.role "developer") && str_eq system ""
      then content_signature m.content
      else system

  -- The signatures of the system and of the first user, up to the message of the user.
  unfoldable pub first_user : String → List Message → String × String
  unfolding system_after content_signature
  first_user system [] = (system, "")
  first_user system (m ∷ ms) =
      let rest = first_user (system_after system m) ms in
      if str_eq m.role "user" then (system_after system m, content_signature m.content) else rest

  unfoldable pub cache_id_of : List Message → String
  unfolding first_user
  cache_id_of ms =
      let signed = first_user "" ms in
      if str_eq signed.1 "" then "" else "cache-" <> ctx.hash_16 (signed.0 <> ("\0" <> signed.1))

  unfoldable pub cache_conversation_id : String → String
  unfolding resolve_conversation_id cache_id_of
  cache_conversation_id body =
      if str_eq (resolve_conversation_id body) ""
      then (elim (ctx.decode_messages body) [ none ↦ "" | some ms ↦ cache_id_of ms ])
      else resolve_conversation_id body

  -- `RequestIDForKey`, with the salt of the process and the id that `NewMessageID` would give.
  unfoldable pub request_id_for_key : String → String → String → String
  request_id_for_key salt new_id key =
      if str_eq key "" then new_id else ctx.hash_16 (salt <> ("|" <> key))

  unfoldable pub turn_request_id : String → String → String → String
  turn_request_id salt new_id key =
      if str_eq key "" then new_id else ctx.hash_16 (salt <> ("|" <> key))
