-- ===== src/Upstream/Markup/Scanned.antt =====
-- What the cuts of a text give back of it.
use Prim.Native.String.{String}
use mathlib.Core.Option
use text.Mathlib.TextLemmas.{nil-append, cons-append}
use text.Mathlib.TextPositions.{slice-append_right, len-append}
use text.Mathlib.TextEquality.{starts_with_iff}
use text.Mathlib.TextEquality.{Char-path}
use workbuddy2plus_plugin.Base.{
  ◌≡◌, refl, sym, ap, ◌∙◌, true, Option, none, some, ◌==◌, ==_iff, Bool-cases, Option-cases, inl,
  inr, starts_with,
}
use workbuddy2plus_plugin.Upstream.Markup.Scan.{◌<>◌, after, strip, cut, leftmost, code}

pub nil-<> : (s : String) → ("" <> s) ≡ s
nil-<> s = nil-append s

pub after-append : (word s : String) → after word (word <> s) ≡ s
unfolding after
after-append word s = rw (len-append word s) (slice-append_right word s)

pub some_inj : {A : Type 0} {x y : A} → some x ≡ some y → x ≡ y
some_inj h = cc

pub after_lem : (word s : String) → starts_with s word ≡ true → s ≡ word <> after word s
after_lem word s h =
    let p = (starts_with_iff s word).0 h in
    rw (← p.1) (ap (λ t. word <> t) (sym (after-append word p.0)))

pub strip_lem : (word s rest : String) → strip word s ≡ some rest → s ≡ word <> rest
unfolding strip
strip_lem String.[] s rest h = cc h ∙ sym (nil-append rest)
strip_lem (String.◌∷◌ w ws) String.[] rest h = cc
strip_lem (String.◌∷◌ w ws) (String.◌∷◌ c s) rest h = elim (Bool-cases (code w == code c)) [
  | inl y ↦
      let e : w ≡ c = Char-path w c ((==_iff (code w) (code c)).0 y) in
      rw e
        (ap (λ t. String.◌∷◌ c t) (strip_lem ws s rest (rw y at h)) ∙ sym (cons-append c ws rest))
  | inr n ↦ let k : none ≡ some rest = (rw n at h) in cc
]

pub map-some_inv :
    {A B : Type 0} (f : A → B) (o : Option A) {b : B}
    → Option.map f o ≡ some b
    → (a : A) × (o ≡ some a) × (f a ≡ b)
map-some_inv f none h = cc
map-some_inv f (some a) h = (a, refl, cc)

pub cut_lem : (word s a b : String) → cut word s ≡ some (a, b) → s ≡ a <> (word <> b)
unfolding cut
cut_lem word String.[] a b h = cc
cut_lem word (String.◌∷◌ c s) a b h = elim (Option-cases (strip word (String.◌∷◌ c s))) [
  | inr (rest, e) ↦
      let k : some ("", rest) ≡ some (a, b) = (rw (e, cut) at h) in
      rw (← ap (λ p. p.0) (some_inj k), ← ap (λ p. p.1) (some_inj k))
        (strip_lem word _ rest e ∙ sym (nil-append _))
  | inl e ↦
      let k = map-some_inv _ (cut word s) (rw (e, cut) at h) in
      rw (← ap (λ p. p.0) k.2, ← ap (λ p. p.1) k.2)
        (ap (λ t. String.◌∷◌ c t) (cut_lem word s k.0.0 k.0.1 k.1)
          ∙ sym (cons-append c k.0.0 (word <> k.0.1)))
]

-- What a search for a match gives back: the text before the match, and the match.
pub leftmost_lem :
    {A : Type 0} (head : String → Option A) (s a : String) (m : A)
    → leftmost head s ≡ some (a, m)
    → (from : String) × (s ≡ a <> from) × (head from ≡ some m)
unfolding leftmost
leftmost_lem head String.[] a m h = cc
leftmost_lem head (String.◌∷◌ c s) a m h = elim (Option-cases (head (String.◌∷◌ c s))) [
  | inr (m', e) ↦
      let k : some ("", m') ≡ some (a, m) = (rw (e, leftmost) at h) in
      (
        String.◌∷◌ c s,
        rw (← ap (λ p. p.0) (some_inj k)) (sym (nil-append _)),
        e ∙ ap some (ap (λ p. p.1) (some_inj k)),
      )
  | inl e ↦
      let k = map-some_inv _ (leftmost head s) (rw (e, leftmost) at h) in
      let r = leftmost_lem head s k.0.0 k.0.1 k.1 in
      (
        r.0,
        rw (← ap (λ p. p.0) k.2) (ap (λ t. String.◌∷◌ c t) r.1 ∙ sym (cons-append c k.0.0 r.0)),
        r.2 ∙ ap some (ap (λ p. p.1) k.2),
      )
]
