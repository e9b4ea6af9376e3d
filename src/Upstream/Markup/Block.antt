-- ===== src/Upstream/Markup/Block.antt =====
-- internal/upstream/dsml.go: `parseMarkupBlock`, `parseMarkupParams`, and the patterns of their heads.
-- The two patterns match in one way at each place, since what follows a run of spaces is no space.
use workbuddy2plus_plugin.Base.{
  ℕ, zero, suc, String, Bool, true, false, not, ◌&&◌, ◌||◌, Option, none, some, List, [], ◌∷◌, leb,
  ◌==◌, if◌then◌else◌, length, some_of, str_eq, Dict, insert,
}
use mathlib.Core.Option
use workbuddy2plus_plugin.Upstream.Json.{Json, text}
use workbuddy2plus_plugin.Upstream.Texts.{is_blank, trim}
use workbuddy2plus_plugin.Upstream.Markup.Scan.{
  cut, strip, spaces, skip_spaces, leftmost, code, count,
}

-- The encoding of JSON, of which nothing is assumed.
pub record Codec (F : Type 0) : Type 0 where
  pub unmarshal : String → Option (Json F)
  pub marshal : Dict (Json F) → Option String

pub record MarkupCall : Type 0 where
  pub name : String
  pub arguments : String

abbrev pub markup_pipe : String
markup_pipe = "｜｜"

abbrev pub markup_tag_prefix : String
markup_tag_prefix = "<｜｜DSML｜｜"

abbrev pub markup_invoke_close : String
markup_invoke_close = "</｜｜DSML｜｜ invoke>"

abbrev pub markup_param_close : String
markup_param_close = "</｜｜DSML｜｜ parameter>"

-- One part of a pattern after another, each of which gives the rest of the text.
unfoldable pub follows :
    {A : Type 0} → (String → Option String) → (String → Option A) → String → Option A
follows f g s = elim (f s) [ none ↦ none | some t ↦ g t ]

-- The common part of the heads: the name, and what follows its quote.
unfoldable pub named_head : String → String → Option (String × String)
unfolding strip spaces cut follows
named_head kind =
    follows (strip markup_tag_prefix) (
      follows spaces (follows (strip kind) (follows spaces (follows (strip "name=\"") (cut "\"")))))

unfoldable pub tag_end : String → Option String
unfolding strip skip_spaces
tag_end s = strip ">" (skip_spaces s)

-- `markupInvokeRe` at one place.
unfoldable pub invoke_head : String → Option (String × String)
unfolding named_head tag_end
invoke_head s = elim (named_head "invoke" s) [
  | none ↦ none
  | some h ↦ Option.map (λ rest. (h.0, rest)) (tag_end h.1)
]

unfoldable pub string_value : String → Option (Bool × String)
unfolding strip
string_value s = elim (strip "true\"" s) [
  | some rest ↦ some (true, rest)
  | none ↦ Option.map (λ rest. (false, rest)) (strip "false\"" s)
]

unfoldable pub string_attribute : String → Option (Bool × String)
unfolding strip spaces string_value follows
string_attribute = follows spaces (follows (strip "string=\"") string_value)

unfoldable pub is_string_of : String → Bool × String
unfolding string_attribute
is_string_of s = elim (string_attribute s) [ none ↦ (false, s) | some p ↦ p ]

-- `markupParamRe` at one place: the name, whether the value is a string, and the rest.
unfoldable pub param_head : String → Option (String × Bool × String)
unfolding named_head tag_end is_string_of
param_head s = elim (named_head "parameter" s) [
  | none ↦ none
  | some h ↦ Option.map (λ rest. (h.0, (is_string_of h.1).0, rest)) (tag_end (is_string_of h.1).1)
]

-- What the loops answer: a value, the refusal of the block, or that the fuel ran out.
pub data Parsed (A : Type 0) : Type 0 where
  parsed : A → Parsed A
  refused : Parsed A
  starved : Parsed A

-- What a turn of a loop finds: the end of the text, something that does not belong there, or an
-- element with the rest of the text.
pub data Next (A : Type 0) : Type 0 where
  finish : Next A
  reject : Next A
  found : A → String → Next A

unfoldable pub is_word_char : ℕ → Bool
is_word_char c =
    (leb b'A' c && leb c b'Z')
    || ((leb b'a' c && leb c b'z') || ((leb b'0' c && leb c b'9') || c == b'_'))

unfoldable pub all_name_chars : String → Bool
unfolding is_word_char
all_name_chars String.[] = true
all_name_chars (String.◌∷◌ c s) =
    (is_word_char (code c) || (code c == b'.' || (code c == b':' || code c == b'-')))
    && all_name_chars s

-- `markupToolNameRe`
unfoldable pub is_tool_name : String → Bool
unfolding all_name_chars
is_tool_name String.[] = false
is_tool_name (String.◌∷◌ c s) = is_word_char (code c) && (all_name_chars s && leb (count s) 63)

unfoldable pub permitted : List String → String → Bool
unfolding is_tool_name
permitted allowed name =
    if length allowed == 0 then is_tool_name name else some_of (λ a. str_eq a name) allowed

unfoldable pub with_call : MarkupCall → Parsed (List MarkupCall) → Parsed (List MarkupCall)
with_call call (parsed cs) = parsed (call ∷ cs)
with_call call refused = refused
with_call call starved = starved

module _ {F : Type 0} (codec : Codec F) where
  unfoldable pub param_value : Bool → String → Json F
  unfolding trim
  param_value is_string raw =
      if is_string
      then text raw
      else elim (codec.unmarshal (trim raw)) [ none ↦ text raw | some v ↦ v ]

  -- A turn of the loop of `parseMarkupParams` over the rest of the body.
  unfoldable pub next_param : String → Next (String × Json F)
  unfolding leftmost param_head param_value cut is_blank
  next_param s = elim (leftmost param_head s) [
    | none ↦ if is_blank s then finish else reject
    | some (skipped, h) ↦
        if not (is_blank skipped) then reject else elim (cut markup_param_close h.2) [
          | none ↦ reject
          | some (raw, rest) ↦ found (h.0, param_value h.1 raw) rest
        ]
  ]

  unfoldable pub params_loop : ℕ → Dict (Json F) → String → Parsed (Dict (Json F))
  unfolding next_param insert
  params_loop zero args s = starved
  params_loop (suc fuel) args s = elim (next_param s) [
    | finish ↦ parsed args
    | reject ↦ refused
    | found kv rest ↦ params_loop fuel (insert kv.0 kv.1 args) rest
  ]

  unfoldable pub parse_params : String → Option String
  unfolding params_loop
  parse_params body = elim (params_loop (suc (count body)) [] body) [
    | parsed args ↦ codec.marshal args
    | refused ↦ none
    | starved ↦ none
  ]

  -- A turn of the loop of `parseMarkupBlock` over the rest of the block.
  unfoldable pub next_call : List String → String → Next MarkupCall
  unfolding leftmost invoke_head cut is_blank parse_params permitted
  next_call allowed s = elim (leftmost invoke_head s) [
    | none ↦ if is_blank s then finish else reject
    | some (skipped, h) ↦
        if not (is_blank skipped) then reject else elim (cut markup_invoke_close h.1) [
          | none ↦ reject
          | some (body, rest) ↦ elim (parse_params body) [
            | none ↦ reject
            | some args ↦
                if permitted allowed h.0
                then found (record { name = h.0; arguments = args }) rest
                else reject
          ]
        ]
  ]

  unfoldable pub calls_loop : ℕ → List String → String → Parsed (List MarkupCall)
  unfolding next_call with_call
  calls_loop zero allowed s = starved
  calls_loop (suc fuel) allowed s = elim (next_call allowed s) [
    | finish ↦ parsed []
    | reject ↦ refused
    | found call rest ↦ with_call call (calls_loop fuel allowed rest)
  ]

  unfoldable pub parse_block : String → List String → Option (List MarkupCall)
  unfolding calls_loop
  parse_block inner allowed = elim (calls_loop (suc (count inner)) allowed inner) [
    | parsed cs ↦ if length cs == 0 then none else some cs
    | refused ↦ none
    | starved ↦ none
  ]
