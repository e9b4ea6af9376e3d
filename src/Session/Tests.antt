-- ===== src/Session/Tests.antt =====
-- A dialog of a system text, a user, an answer and a result, and what the theorems say of it.
use workbuddy2plus_plugin.Base.{
  ℕ, String, ◌≡◌, refl, false, true, some, List, [], ◌∷◌, ◌++◌, if◌then◌else◌, str_eq, lookup, All,
  ◌==◌,
}
use workbuddy2plus_plugin.Upstream.Json.{value_at, text_at, as_map, as_text}
use workbuddy2plus_plugin.Session.{
  Message, IdContext, turn_key, cache_conversation_id, first_user, resolve_conversation_id,
  content_signature,
}
use workbuddy2plus_plugin.Session.Stable.{turn_key-append, cache_conversation_id-append, IsNoUser}

abbrev asked : List Message
asked =
    record { role = "system"; content = "\"be brief\"" }
    ∷ record { role = "user"; content = "[parts]" }
    ∷ []

abbrev replied : List Message
replied =
    record { role = "assistant"; content = "null" }
    ∷ record { role = "tool"; content = "\"ok\"" }
    ∷ []

-- Two requests without an id, and the parts of a text and a picture.
abbrev context : IdContext ℕ
context = record {
  decode_object = λ s. some [];
  decode_messages = λ s. if str_eq s "first" then some asked else some (asked ++ replied);
  decode_text = λ s. some s;
  decode_parts = λ s. some ("said" ∷ "shown" ∷ []);
  decode_part = λ s.
      if str_eq s "said"
      then some (record { type_name = "text"; text = "hi" })
      else some (record { type_name = "image_url"; text = "" });
  decimal = λ n. if n == 1 then "1" else "0";
  hash_4 = λ s. "00112233";
  hash_16 = λ s. s;
}

parts_are_signed : content_signature context "[parts]" ≡ "hi\n[image_url:00112233]"
unfolding content_signature
parts_are_signed = refl

turn_is_keyed : turn_key context "first" ≡ "u1:hi\n[image_url:00112233]"
unfolding turn_key
turn_is_keyed = refl

replied-IsNoUser : All IsNoUser replied
replied-IsNoUser = (refl, (refl, tt))

turn_key-append_example : turn_key context "second" ≡ turn_key context "first"
turn_key-append_example =
    turn_key-append context "first" "second" asked replied refl refl refl refl replied-IsNoUser

no_id :
    (body : String)
    → str_eq body "" ≡ false
    → str_eq (resolve_conversation_id context body) "" ≡ true
unfolding resolve_conversation_id value_at text_at as_map as_text lookup
no_id body h = rw (h, resolve_conversation_id) refl

user_is_signed : str_eq (first_user context "" asked).1 "" ≡ false
unfolding first_user
user_is_signed = refl

cache_conversation_id-append_example :
    cache_conversation_id context "second" ≡ cache_conversation_id context "first"
cache_conversation_id-append_example =
    cache_conversation_id-append context "first" "second" asked replied (no_id "first" refl)
      (no_id "second" refl) refl refl user_is_signed
