-- ===== src/Upstream/Texts.antt =====
-- What the code uses of the package `strings`.
use Prim.Native.String.{String}
use Prim.Native.Char.{code}
use workbuddy2plus_plugin.Base.{
  ℕ, ◌+◌, String, Bool, true, false, ◌&&◌, ◌||◌, str_eq, if◌then◌else◌, starts_with, leb, ◌==◌,
}

-- `unicode.IsSpace`, on the code point.
abbrev pub is_space : ℕ → Bool
is_space c =
    (leb 9 c && leb c 13)
    || (c == 32
        || (c == 133
            || (c == 160
                || (c == 5760
                    || ((leb 8192 c && leb c 8202)
                        || (c == 8232
                            || (c == 8233 || (c == 8239 || (c == 8287 || c == 12288)))))))))

-- `strings.TrimSpace(s) == ""`
unfoldable pub is_blank : String → Bool
is_blank String.[] = true
is_blank (String.◌∷◌ c s) = is_space (code c) && is_blank s

-- `strings.Contains(s, t)` asks whether some rest of `s` begins with `t`.
unfoldable pub contains : String → String → Bool
contains String.[] t = starts_with "" t
contains (String.◌∷◌ c s) t = starts_with (String.◌∷◌ c s) t || contains s t

-- `strings.TrimSpace`
unfoldable pub trim_left : String → String
trim_left String.[] = ""
trim_left (String.◌∷◌ c s) = if is_space (code c) then trim_left s else String.◌∷◌ c s

unfoldable pub trim_right : String → String
trim_right String.[] = ""
trim_right (String.◌∷◌ c s) =
    let rest = trim_right s in if is_space (code c) && str_eq rest "" then "" else String.◌∷◌ c rest

unfoldable pub trim : String → String
unfolding trim_left trim_right
trim s = trim_left (trim_right s)

-- The lower case of a code point, where it is an ASCII letter; U+0130 and the Kelvin sign U+212A are
-- the only other letters with one.
abbrev pub lower : ℕ → ℕ
lower c =
    if leb 65 c && leb c 90 then c + 32 else if c == 304 then 105 else if c == 8490 then 107 else c

-- `strings.ToLower(s) == word`, of a word in ASCII.
unfoldable pub lower_is : String → String → Bool
lower_is String.[] String.[] = true
lower_is String.[] (String.◌∷◌ d t) = false
lower_is (String.◌∷◌ c s) String.[] = false
lower_is (String.◌∷◌ c s) (String.◌∷◌ d t) = (lower (code c) == code d) && lower_is s t

-- `strings.HasPrefix(strings.ToLower(s), word)`, of a word in ASCII.
unfoldable pub lower_starts : String → String → Bool
lower_starts s String.[] = true
lower_starts String.[] (String.◌∷◌ d t) = false
lower_starts (String.◌∷◌ c s) (String.◌∷◌ d t) = (lower (code c) == code d) && lower_starts s t

-- The simple folding of a code point to a lower-case ASCII letter, as `strings.EqualFold` has it:
-- besides the capitals, the Kelvin sign is a k and U+017F is an s.
abbrev pub fold : ℕ → ℕ
fold c =
    if leb 65 c && leb c 90 then c + 32 else if c == 383 then 115 else if c == 8490 then 107 else c

-- `strings.EqualFold(s, word)`, of a word in lower-case ASCII.
unfoldable pub fold_is : String → String → Bool
fold_is String.[] String.[] = true
fold_is String.[] (String.◌∷◌ d t) = false
fold_is (String.◌∷◌ c s) String.[] = false
fold_is (String.◌∷◌ c s) (String.◌∷◌ d t) = (fold (code c) == code d) && fold_is s t
