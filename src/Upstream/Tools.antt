-- ===== src/Upstream/Tools.antt =====
-- internal/upstream/tool_pairing.go: the tool calls that an assistant message declares and the
-- results that tool messages bring, as the three passes over the messages of a request read them.
pub mod Members
pub mod Repack
pub mod Merge
pub mod Cleanup
use workbuddy2plus_plugin.Base.{
  String, Bool, false, none, some, List, [], ◌∷◌, ◌++◌, str_eq, if◌then◌else◌, some_of, Dict,
}
use workbuddy2plus_plugin.Upstream.Json.{Json, as_map, text_at, list_at, as_text, value_at}
use workbuddy2plus_plugin.Upstream.Texts.{is_blank}

-- `ids[id]` of a map that is used as a set.
abbrev pub is_in : List String → String → Bool
is_in ids id = some_of (λ i. str_eq i id) ids

-- What each member of a list gives, one after the other.
abbrev pub gather {ℓ κ} : {A : Type ℓ} {B : Type κ} → (A → List B) → List A → List B
gather f [] = []
gather f (x ∷ xs) = f x ++ gather f xs

module _ {F : Type 0} where
  -- `v == s` of a value of any type and a text.
  abbrev pub is_text : String → Json F → Bool
  is_text s v = elim (as_text v) [ none ↦ false | some t ↦ str_eq t s ]

  unfoldable pub role_is : String → Dict (Json F) → Bool
  role_is role d = is_text role (value_at "role" d)

  -- What an object gives; anything else gives nothing.
  abbrev pub of_object {κ} : {B : Type κ} → (Dict (Json F) → List B) → Json F → List B
  of_object f m = elim (as_map m) [ none ↦ [] | some d ↦ f d ]

  -- The id of a tool call; one that is no object, or has no id of text, counts as "".
  unfoldable pub call_id : Json F → String
  call_id call = elim (as_map call) [ none ↦ "" | some c ↦ text_at "id" c ]

  -- The tool calls that a message declares; only an assistant declares any.
  unfoldable pub calls_of : Json F → List (Json F)
  calls_of m = of_object (λ d. if role_is "assistant" d then list_at "tool_calls" d else []) m

  -- The id that a tool message answers.
  unfoldable pub answers_of : Json F → List String
  answers_of m = of_object (λ d. if role_is "tool" d then text_at "tool_call_id" d ∷ [] else []) m

  -- `toolCallNameEmpty`
  unfoldable pub tool_call_name_empty : Dict (Json F) → Bool
  tool_call_name_empty call = elim (as_map (value_at "function" call)) [
    | none ↦ false
    | some fn ↦ elim (as_text (value_at "name" fn)) [ none ↦ false | some name ↦ is_blank name ]
  ]

  -- The id of a call with a blank name, as a list of one or none.
  unfoldable pub bad_name : Json F → List String
  bad_name call = of_object (λ c. if tool_call_name_empty c then text_at "id" c ∷ [] else []) call
