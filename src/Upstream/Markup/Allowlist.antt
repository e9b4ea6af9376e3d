-- ===== src/Upstream/Markup/Allowlist.antt =====
-- internal/upstream/dsml.go: `ToolNameAllowlist`. A request is what `encoding/json` decodes it to, or
-- none; the map of names is a list of its keys.
use workbuddy2plus_plugin.Base.{String, Option, none, some, List, [], ◌∷◌, str_eq, if◌then◌else◌}

pub record ToolSpec : Type 0 where
  pub name : String
  pub function : Option String

pub record MessageSpec : Type 0 where
  pub tool_calls : List (Option String)
  pub function_call : Option String

pub record RequestSpec : Type 0 where
  pub tools : List ToolSpec
  pub functions : List String
  pub messages : List MessageSpec

unfoldable pub named : String → List String → List String
named s names = if str_eq s "" then names else s ∷ names

-- The name in an optional `function`, if there is one.
unfoldable pub named_in : Option String → List String → List String
unfolding named
named_in none names = names
named_in (some s) names = named s names

unfoldable pub tool_names : List ToolSpec → List String → List String
unfolding named named_in
tool_names [] names = names
tool_names (t ∷ ts) names = elim (named_in t.function []) [
  | [] ↦ tool_names ts (named t.name names)
  | s ∷ ss ↦ tool_names ts (s ∷ names)
]

unfoldable pub function_names : List String → List String → List String
unfolding named
function_names [] names = names
function_names (s ∷ ss) names = function_names ss (named s names)

unfoldable pub call_names : List (Option String) → List String → List String
unfolding named_in
call_names [] names = names
call_names (c ∷ cs) names = call_names cs (named_in c names)

unfoldable pub message_names : List MessageSpec → List String → List String
unfolding call_names named_in
message_names [] names = names
message_names (m ∷ ms) names =
    message_names ms (named_in m.function_call (call_names m.tool_calls names))

unfoldable pub tool_name_allowlist : Option RequestSpec → List String
unfolding tool_names function_names message_names
tool_name_allowlist none = []
tool_name_allowlist (some req) =
    message_names req.messages (function_names req.functions (tool_names req.tools []))
