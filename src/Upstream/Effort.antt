-- ===== src/Upstream/Effort.antt =====
-- internal/upstream/payload.go: `normalizeReasoningEffort`, without its log lines.
pub mod Chosen
pub mod Written
use workbuddy2plus_plugin.Base.{
  ℕ, String, Bool, ◌&&◌, Option, none, some, List, [], ◌∷◌, str_eq, ltb, leb, if◌then◌else◌, Dict,
  lookup, insert,
}
use workbuddy2plus_plugin.Upstream.Json.{Json, text, as_text, value_at, text_at}
use workbuddy2plus_plugin.Upstream.Texts.{trim, lower_is, fold_is}

-- The entry that a text has in a table of words, in lower case and trimmed.
abbrev pub rank_in : Dict ℕ → String → Option ℕ
rank_in [] s = none
rank_in ((w, n) ∷ rest) s = if lower_is (trim s) w then some n else rank_in rest s

-- `effortRank`
abbrev pub effort_rank : Dict ℕ
effort_rank =
    ("off", 0)
    ∷ ("minimal", 1)
    ∷ ("low", 2)
    ∷ ("medium", 3)
    ∷ ("high", 4)
    ∷ ("xhigh", 5)
    ∷ ("max", 6)
    ∷ []

unfoldable pub rank : String → Option ℕ
rank s = rank_in effort_rank s

-- The word of a rank: what is left of a text of that rank, in lower case and trimmed.
abbrev pub word_in : Dict ℕ → ℕ → String
word_in [] n = ""
word_in ((w, k) ∷ rest) n = if leb n k then w else word_in rest n

-- A level of the model, with its rank.
abbrev pub Level : Type 0
Level = String × ℕ

-- `idx > bestIdx` and `idx < lowestIdx`, where no level was met yet or one was.
abbrev pub above : ℕ → Option Level → Bool
above idx none = Bool.true
above idx (some l) = ltb l.1 idx

abbrev pub below : ℕ → Option Level → Bool
below idx none = Bool.true
below idx (some l) = ltb idx l.1

-- One round of a loop over the levels of a model, from the level met so far and the rank of the next.
unfoldable pub level_step :
    (ℕ → Bool) → (ℕ → Option Level → Bool) → Option Level → String → Option ℕ → Option Level
level_step may better found s none = found
level_step may better found s (some idx) =
    if may idx && better idx found then some (s, idx) else found

unfoldable pub level_from :
    (ℕ → Bool) → (ℕ → Option Level → Bool) → Option Level → List String → Option Level
unfolding level_step rank
level_from may better found [] = found
level_from may better found (s ∷ rest) =
    level_from may better (level_step may better found s (rank s)) rest

-- The highest level up to `req`, and the lowest of all.
abbrev pub up_to : ℕ → ℕ → Bool
up_to req idx = leb idx req

abbrev pub any_rank : ℕ → Bool
any_rank idx = Bool.true

unfoldable pub best_of : ℕ → List String → Option Level
unfolding level_from
best_of req levels = level_from (up_to req) above none levels

unfoldable pub lowest_of : List String → Option Level
unfolding level_from
lowest_of levels = level_from any_rank below none levels

-- The level to write in the place of one of rank `req`, if any.
unfoldable pub level_for : ℕ → List String → Option String
unfolding best_of lowest_of
level_for req supported = elim (best_of req supported) [
  | some best ↦ if fold_is best.0 (word_in effort_rank req) then none else some best.0
  | none ↦ elim (lowest_of supported) [ none ↦ none | some lowest ↦ some lowest.0 ]
]

module _ {F : Type 0} where
  -- The key under which the request has its effort.
  unfoldable pub effort_key : Dict (Json F) → Option String
  effort_key d = elim (lookup "reasoning_effort" d) [
    | some v ↦ some "reasoning_effort"
    | none ↦ elim (lookup "reasoningEffort" d) [ none ↦ none | some v ↦ some "reasoningEffort" ]
  ]

  -- The key and the rank of what the request asks for, if both are known.
  unfoldable pub requested : Dict (Json F) → Option (String × ℕ)
  unfolding effort_key rank
  requested d = elim (effort_key d) [
    | none ↦ none
    | some key ↦ elim (as_text (value_at key d)) [
      | none ↦ none
      | some s ↦ elim (rank s) [ none ↦ none | some req ↦ some (key, req) ]
    ]
  ]

  -- The levels of the model that the request names, none where nothing is known of it.
  unfoldable pub supported_of : Dict (List String) → Dict (Json F) → List String
  supported_of efforts d =
      if str_eq (text_at "model" d) ""
      then []
      else elim (lookup (text_at "model" d) efforts) [ none ↦ [] | some levels ↦ levels ]

  unfoldable pub normalize_reasoning_effort : Dict (List String) → Dict (Json F) → Dict (Json F)
  unfolding requested supported_of level_for
  normalize_reasoning_effort efforts d = elim (requested d) [
    | none ↦ d
    | some r ↦ elim (level_for r.1 (supported_of efforts d)) [
      | none ↦ d
      | some level ↦ insert r.0 (text level) d
    ]
  ]
