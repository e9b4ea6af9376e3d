-- ===== src/Upstream/Tools/Repack.antt =====
-- internal/upstream/tool_pairing.go: `repackToolResultBlocks`. Its outer loop recurs on fuel; a pass
-- takes at least one message, so as much fuel as there are messages is enough, and with less of it
-- messages would be lost.
pub mod Order
pub mod Again
use workbuddy2plus_plugin.Base.{
  ℕ, zero, suc, String, Bool, true, false, not, ◌&&◌, ◌||◌, none, some, List, [], ◌∷◌, ◌++◌, map,
  str_eq, ltb, if◌then◌else◌, length, keep,
}
use workbuddy2plus_plugin.Upstream.Json.{Json, as_map, text_at, list_at}
use workbuddy2plus_plugin.Upstream.Tools.{is_in, role_is, call_id, calls_of}

-- What the inner loop takes from behind a message that declares calls: the results, the messages
-- between them, what is left, and whether a result stood behind a message between.
pub record Group (F : Type 0) : Type 0 where
  results : List (Json F)
  between : List (Json F)
  rest : List (Json F)
  changed : Bool

-- What the inner loop does with a message, once a result was taken or not.
pub data Turn : Type 0 where
  takes : Turn
  passes : Turn
  stops : Turn

module _ {F : Type 0} where
  abbrev pub stop : List (Json F) → Group F
  stop ms = record { results = []; between = []; rest = ms; changed = false }

  abbrev pub add_result : Json F → Bool → Group F → Group F
  add_result m saw g = record g { results = m ∷ g.results; changed = saw || g.changed }

  abbrev pub add_between : Json F → Group F → Group F
  add_between m g = record g { between = m ∷ g.between }

  -- The ids that the calls of a message want results for.
  unfoldable pub wanted : Json F → List String
  wanted m = keep (λ id. not (str_eq id "")) (map call_id (calls_of m))

  unfoldable pub turn : List String → Bool → Json F → Turn
  turn want any m = elim (as_map m) [
    | none ↦ stops
    | some d ↦
        if role_is "tool" d
        then if is_in want (text_at "tool_call_id" d) then takes else stops
        else if not any
        then stops
        else if role_is "assistant" d && ltb 0 (length (list_at "tool_calls" d))
        then stops
        else passes
  ]

  -- The inner loop; `any` is `len(results) > 0` and `saw` is `sawNonTool`.
  unfoldable pub collect : List String → Bool → Bool → List (Json F) → Group F
  unfolding turn
  collect want any saw [] = stop []
  collect want any saw (m ∷ ms) = elim (turn want any m) [
    | takes ↦ add_result m saw (collect want true saw ms)
    | passes ↦ add_between m (collect want any true ms)
    | stops ↦ stop (m ∷ ms)
  ]

  -- What follows a message with these calls: all of it is left, if there are none.
  unfoldable pub follow : List String → List (Json F) → List (Json F) → Group F
  unfolding collect
  follow want [] ms = stop ms
  follow want (call ∷ calls) ms = collect want false false ms

  unfoldable pub head_group : Json F → List (Json F) → Group F
  unfolding follow wanted
  head_group m ms = follow (wanted m) (calls_of m) ms

  unfoldable pub repack_all : ℕ → List (Json F) → List (Json F) × Bool
  unfolding head_group
  repack_all zero ms = ([], false)
  repack_all (suc n) [] = ([], false)
  repack_all (suc n) (m ∷ ms) =
      let g = head_group m ms in
      let later = repack_all n g.rest in
      (m ∷ (g.results ++ (g.between ++ later.0)), g.changed || later.1)

  unfoldable pub repack_tool_result_blocks : List (Json F) → List (Json F) × Bool
  unfolding repack_all
  repack_tool_result_blocks ms =
      let out = repack_all (length ms) ms in
      if ltb (length ms) 3 then (ms, false) else if out.1 then (out.0, true) else (ms, false)
