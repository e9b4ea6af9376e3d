-- ===== src/Upstream/Markup/Consumed.antt =====
-- internal/upstream/dsml.go: the heads of the two patterns take text away and never add any, so that
-- the loops over a block end.
use Prim.Native.String.{String}
use text.Mathlib.TextLemmas.{length-append, length-cons}
use workbuddy2plus_plugin.Base.{
  ℕ, ◌<◌, ◌≤◌, ◌≡◌, ap, Bool, true, false, Option, none, some, Bool-cases, Option-cases, inl, inr,
  arith,
}
use workbuddy2plus_plugin.Upstream.Markup.Scan.{
  ◌<>◌, strip, cut, leftmost, count, code, skip_spaces, spaces, is_pattern_space,
}
use workbuddy2plus_plugin.Upstream.Markup.Scanned.{
  strip_lem, cut_lem, leftmost_lem, map-some_inv, some_inj,
}
use workbuddy2plus_plugin.Upstream.Markup.Block.{
  follows, is_string_of, named_head, tag_end, invoke_head, string_value, string_attribute,
  param_head,
}

-- What a function leaves of a text is no longer than the text.
abbrev Shrinks : {A : Type 0} → (A → ℕ) → (String → Option A) → Type 0
Shrinks {A} size f = (s : String) (a : A) → f s ≡ some a → size a ≤ count s

strip-Shrinks : (w : String) → Shrinks count (strip w)
strip-Shrinks w s t h = omega (arith, ap count (strip_lem w s t h), length-append w t)

skip_spaces-le : (s : String) → count (skip_spaces s) ≤ count s
unfolding skip_spaces
skip_spaces-le String.[] = omega arith
skip_spaces-le (String.◌∷◌ c s) = elim (Bool-cases (is_pattern_space (code c))) [
  | inl y ↦ rw (y, skip_spaces) (omega (arith, skip_spaces-le s, length-cons c s))
  | inr n ↦ rw (n, skip_spaces) (omega arith)
]

spaces-Shrinks : Shrinks count spaces
unfolding spaces
spaces-Shrinks String.[] t h = cc
spaces-Shrinks (String.◌∷◌ c s) t h = elim (Bool-cases (is_pattern_space (code c))) [
  | inl y ↦
      let k : some (skip_spaces s) ≡ some t = (rw (y, spaces) at h) in
      omega (arith, ap count (some_inj k), skip_spaces-le s, length-cons c s)
  | inr n ↦ let k : none ≡ some t = (rw (n, spaces) at h) in cc
]

cut-Shrinks : (w : String) → Shrinks (λ p. count p.1) (cut w)
cut-Shrinks w s p h =
    omega
      (arith, ap count (cut_lem w s p.0 p.1 h), length-append p.0 (w <> p.1), length-append w p.1)

follows-Shrinks :
    {A : Type 0} (size : A → ℕ) (f : String → Option String) (g : String → Option A)
    → Shrinks count f
    → Shrinks size g
    → Shrinks size (follows f g)
unfolding follows
follows-Shrinks size f g hf hg s a h = elim (Option-cases (f s)) [
  | inl e ↦ let k : none ≡ some a = (rw (e, follows) at h) in cc
  | inr (t, e) ↦ omega (arith, hf s t e, hg t a (rw (e, follows) at h))
]

named_head-Shrinks : (kind : String) → Shrinks (λ p. count p.1) (named_head kind)
unfolding named_head
named_head-Shrinks kind =
    search (follows-Shrinks, strip-Shrinks, spaces-Shrinks, cut-Shrinks) depth 12

tag_end-Shrinks : Shrinks count tag_end
unfolding tag_end
tag_end-Shrinks s t h = omega (arith, strip-Shrinks ">" (skip_spaces s) t h, skip_spaces-le s)

string_value-Shrinks : Shrinks (λ p. count p.1) string_value
unfolding string_value
string_value-Shrinks s p h = elim (Option-cases (strip "true\"" s)) [
  | inr (t, e) ↦
      let k : some (true, t) ≡ some p = (rw (e, string_value) at h) in
      omega (arith, strip-Shrinks "true\"" s t e, ap count (ap (λ q. q.1) (some_inj k)))
  | inl e ↦
      let k =
        map-some_inv (λ rest. (false, rest)) (strip "false\"" s) (rw (e, string_value) at h) in
      omega (arith, strip-Shrinks "false\"" s k.0 k.1, ap count (ap (λ q. q.1) k.2))
]

string_attribute-Shrinks : Shrinks (λ p. count p.1) string_attribute
unfolding string_attribute
string_attribute-Shrinks =
    search (follows-Shrinks, strip-Shrinks, spaces-Shrinks, string_value-Shrinks) depth 12

is_string_of-le : (s : String) → count (is_string_of s).1 ≤ count s
unfolding is_string_of
is_string_of-le s = elim (Option-cases (string_attribute s)) [
  | inl e ↦ rw (e, is_string_of) (omega arith)
  | inr (p, e) ↦ rw (e, is_string_of) (string_attribute-Shrinks s p e)
]

invoke_head-Shrinks : Shrinks (λ p. count p.1) invoke_head
unfolding invoke_head
invoke_head-Shrinks s p h = elim (Option-cases (named_head "invoke" s)) [
  | inl e ↦ let k : none ≡ some p = (rw (e, invoke_head) at h) in cc
  | inr (q, e) ↦
      let k = map-some_inv (λ rest. (q.0, rest)) (tag_end q.1) (rw (e, invoke_head) at h) in
      omega (
        arith,
        named_head-Shrinks "invoke" s q e,
        tag_end-Shrinks q.1 k.0 k.1,
        ap count (ap (λ u. u.1) k.2),
      )
]

param_head-Shrinks : Shrinks (λ p. count p.2) param_head
unfolding param_head
param_head-Shrinks s p h = elim (Option-cases (named_head "parameter" s)) [
  | inl e ↦ let k : none ≡ some p = (rw (e, param_head) at h) in cc
  | inr (q, e) ↦
      let after_kind = is_string_of q.1 in
      let k =
        map-some_inv (λ rest. (q.0, after_kind.0, rest)) (tag_end after_kind.1)
          (rw (e, param_head) at h) in
      omega (
        arith,
        named_head-Shrinks "parameter" s q e,
        is_string_of-le q.1,
        tag_end-Shrinks after_kind.1 k.0 k.1,
        ap count (ap (λ u. u.2) k.2),
      )
]

leftmost-Shrinks :
    {A : Type 0} (size : A → ℕ) (head : String → Option A)
    → Shrinks size head
    → Shrinks (λ p. size p.1) (leftmost head)
leftmost-Shrinks size head shrinks s p h =
    let x = leftmost_lem head s p.0 p.1 h in
    omega (arith, shrinks x.0 p.1 x.2, ap count x.1, length-append p.0 x.0)

-- What a turn of the loop leaves is shorter, by the closing tag at least.
pub param_tail-lt :
    (s word skipped : String) (h : String × Bool × String) {p : String × String}
    → leftmost param_head s ≡ some (skipped, h)
    → cut word h.2 ≡ some p
    → 0 < count word
    → count p.1 < count s
param_tail-lt s word skipped h {p} e k w = omega (
  arith,
  leftmost-Shrinks (λ m. count m.2) param_head param_head-Shrinks s (skipped, h) e,
  ap count (cut_lem word h.2 p.0 p.1 k),
  length-append p.0 (word <> p.1),
  length-append word p.1,
)

pub invoke_tail-lt :
    (s word skipped : String) (h : String × String) {p : String × String}
    → leftmost invoke_head s ≡ some (skipped, h)
    → cut word h.1 ≡ some p
    → 0 < count word
    → count p.1 < count s
invoke_tail-lt s word skipped h {p} e k w = omega (
  arith,
  leftmost-Shrinks (λ m. count m.1) invoke_head invoke_head-Shrinks s (skipped, h) e,
  ap count (cut_lem word h.1 p.0 p.1 k),
  length-append p.0 (word <> p.1),
  length-append word p.1,
)
