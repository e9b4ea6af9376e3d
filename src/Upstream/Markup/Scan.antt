-- ===== src/Upstream/Markup/Scan.antt =====
-- What internal/upstream/dsml.go uses of `strings` and `regexp`: cutting a text at a word, and the
-- parts of its two patterns.
use Prim.Native.String.{String, len, slice, ◌++◌}
use workbuddy2plus_plugin.Base.{ℕ, Bool, ◌||◌, Option, none, some, if◌then◌else◌, ◌==◌}
use mathlib.Core.Option
pub use Prim.Native.Char.{code}
pub use Prim.Native.String.{count}

-- `s + t`
infixr 65 ◌<>◌
abbrev pub ◌<>◌ : String → String → String
s <> t = s ++ t

-- `s[len(word):]`
unfoldable pub after : String → String → String
after word s = slice s (len word) (len s)

-- The rest of a text that begins with the word.
unfoldable pub strip : String → String → Option String
strip String.[] s = some s
strip (String.◌∷◌ w ws) String.[] = none
strip (String.◌∷◌ w ws) (String.◌∷◌ c s) = if code w == code c then strip ws s else none

-- `strings.Index(s, word)`, given as the texts before and after the first place of the word, which
-- is not empty.
unfoldable pub cut : String → String → Option (String × String)
unfolding strip
cut word String.[] = none
cut word (String.◌∷◌ c s) = elim (strip word (String.◌∷◌ c s)) [
  | some rest ↦ some ("", rest)
  | none ↦ Option.map (λ p. (String.◌∷◌ c p.0, p.1)) (cut word s)
]

-- `\s` of package regexp.
abbrev pub is_pattern_space : ℕ → Bool
is_pattern_space c = c == 9 || (c == 10 || (c == 12 || (c == 13 || c == 32)))

-- `\s*`
unfoldable pub skip_spaces : String → String
skip_spaces String.[] = ""
skip_spaces (String.◌∷◌ c s) = if is_pattern_space (code c) then skip_spaces s else String.◌∷◌ c s

-- `\s+`
unfoldable pub spaces : String → Option String
unfolding skip_spaces
spaces String.[] = none
spaces (String.◌∷◌ c s) = if is_pattern_space (code c) then some (skip_spaces s) else none

-- The leftmost match of a pattern, which matches at a place or does not: what stands before it, and
-- what it matched with the rest.
unfoldable pub leftmost : {A : Type 0} → (String → Option A) → String → Option (String × A)
leftmost head String.[] = none
leftmost head (String.◌∷◌ c s) = elim (head (String.◌∷◌ c s)) [
  | some m ↦ some ("", m)
  | none ↦ Option.map (λ p. (String.◌∷◌ c p.0, p.1)) (leftmost head s)
]
