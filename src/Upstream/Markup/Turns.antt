-- ===== src/Upstream/Markup/Turns.antt =====
-- internal/upstream/dsml.go: what one turn of the loop of `Feed` does with the text.
use Prim.Native.String.{String, len}
use mathlib.Core.Path.{subst}
use text.Mathlib.TextLemmas.{nil-append, append-nil, cons-append, append_assoc, length-append}
use workbuddy2plus_plugin.Base.{
  ◌<◌, ◌≡◌, refl, sym, ap, ◌∙◌, Bool, true, false, ◌&&◌, some, if◌then◌else◌, ◌==◌, Bool-cases,
  Option-cases, inl, inr, arith, List, [], ◌∷◌, ◌++◌, ltb,
}
use workbuddy2plus_plugin.Upstream.Markup.Scan.{◌<>◌, after, cut, count, code}
use workbuddy2plus_plugin.Upstream.Markup.Scanned.{cut_lem, after_lem, map-some_inv, some_inj}
use workbuddy2plus_plugin.Upstream.Markup.Block.{MarkupCall, Codec, parse_block}
use workbuddy2plus_plugin.Upstream.Markup.{
  Repair, FeedTurn, stop, again, markup_open, markup_close, max_block_bytes, may_start,
  start_candidate, turn_outside, turn_inside, close_block, feed_turn,
}

-- A part of a response: text, or the inside of a block with the calls in it.
pub data Piece : Type 0 where
  plain : String → Piece
  block : String → List MarkupCall → Piece

abbrev pub raw : Piece → String
raw (plain t) = t
raw (block inner cs) = markup_open <> (inner <> markup_close)

abbrev pub visible : Piece → String
visible (plain t) = t
visible (block inner cs) = ""

abbrev pub called : Piece → List MarkupCall
called (plain t) = []
called (block inner cs) = cs

abbrev pub join_pieces : (Piece → String) → List Piece → String
join_pieces f [] = ""
join_pieces f (p ∷ ps) = f p <> join_pieces f ps

abbrev pub join_calls : List Piece → List MarkupCall
join_calls [] = []
join_calls (p ∷ ps) = called p ++ join_calls ps

abbrev pub concat : List String → String
concat [] = ""
concat (t ∷ ts) = t <> concat ts

-- What `Flush` would give back.
abbrev pub withheld : Repair → String
withheld r = if r.in_block then markup_open <> r.hold else r.hold

-- The text that a turn of the loop works on, with the tag that it has taken off.
abbrev pub lead : Repair → String → String
lead r s = if r.in_block then markup_open <> s else s

abbrev pub SameTools : Repair → Repair → Type 0
SameTools r r' = (r'.allowed ≡ r.allowed) × (r'.allow_unknown ≡ r.allow_unknown)

both_right : (a b : Bool) → (a && b) ≡ true → b ≡ true
both_right true b h = h
both_right false b h = cc

pub candidate_lem :
    (s a rest : String)
    → start_candidate s ≡ some (a, rest)
    → (s ≡ a <> rest) × (may_start rest ≡ true)
unfolding start_candidate
candidate_lem String.[] a rest h = cc
candidate_lem (String.◌∷◌ c s) a rest h =
    elim (Bool-cases ((code c == b'<') && may_start (String.◌∷◌ c s))) [
      | inl y ↦
          let k : some ("", String.◌∷◌ c s) ≡ some (a, rest) = (rw (y, start_candidate) at h) in
          let q = ap (λ p. p.0) (some_inj k) in
          let q' = ap (λ p. p.1) (some_inj k) in
          (rw (← q) (q' ∙ sym (nil-append rest)), rw (← q') (both_right _ _ y))
      | inr n ↦
          let k = map-some_inv _ (start_candidate s) (rw (n, start_candidate) at h) in
          let q = ap (λ p. p.0) k.2 in
          let q' = ap (λ p. p.1) k.2 in
          let ih = candidate_lem s k.0.0 k.0.1 k.1 in
          (
            rw (← q) (rw (← q') (ap (λ t. String.◌∷◌ c t) ih.0 ∙ sym (cons-append c k.0.0 k.0.1))),
            rw (← q') ih.1,
          )
    ]

open_of :
    (rest : String)
    → may_start rest ≡ true
    → ltb (len rest) (len markup_open) ≡ false
    → rest ≡ markup_open <> after markup_open rest
unfolding may_start
open_of rest h k = after_lem markup_open rest (ground arith)

shorter : (a w b s : String) → s ≡ a <> (w <> b) → 0 < count w → count b < count s
shorter a w b s e h = omega (arith, ap count e, length-append a (w <> b), length-append w b)

wrapped : (o i c r : String) → (o <> (i <> (c <> r))) ≡ ((o <> (i <> c)) <> r)
wrapped o i c r = simp append_assoc

module _ {F : Type 0} (codec : Codec F) where
  abbrev pub IsRead : List String → Piece → Type 0
  IsRead allowed (plain t) = Unit
  IsRead allowed (block inner cs) = parse_block codec inner allowed ≡ some cs

  abbrev pub Turned : Repair → String → FeedTurn → Type 0
  Turned r s (stop r' out) = (lead r s ≡ out <> withheld r') × SameTools r r'
  Turned r s (again r' rest out cs) =
      (p : Piece) × (lead r s ≡ raw p <> lead r' rest)
      × (out ≡ visible p)
      × (cs ≡ called p)
      × IsRead r.allowed p
      × SameTools r r'
      × (r'.hold ≡ "")
      × (count rest < count s)

  outside-Turned :
      (r : Repair) (s : String) → r.hold ≡ "" → r.in_block ≡ false → Turned r s (turn_outside r s)
  unfolding turn_outside
  outside-Turned r s h o = elim (Option-cases (start_candidate s)) [
    | inl e ↦ rw (e, turn_outside) (rw (o, h) (sym (append-nil s)), (refl, refl))
    | inr ((a, rest), e) ↦
        let p = candidate_lem s a rest e in
        elim (Bool-cases (ltb (len rest) (len markup_open))) [
          | inl y ↦ rw (e, turn_outside) (rw y (rw o p.0, (refl, refl)))
          | inr n ↦
              let t = after markup_open rest in
              let q = p.0 ∙ ap (λ u. a <> u) (open_of rest p.1 n) in
              rw (e, turn_outside)
                (rw n (
                  plain a,
                  rw o q,
                  refl,
                  refl,
                  tt,
                  (refl, refl),
                  h,
                  shorter a markup_open t s q (omega arith),
                ))
        ]
  ]

  close-Turned :
      (r : Repair) (s inner rest : String)
      → r.hold ≡ ""
      → r.in_block ≡ true
      → s ≡ inner <> (markup_close <> rest)
      → Turned r s (close_block codec r inner rest)
  unfolding close_block
  close-Turned r s inner rest h i q =
      let q' = ap (λ u. markup_open <> u) q ∙ wrapped markup_open inner markup_close rest in
      let less = shorter inner markup_close rest s q (omega arith) in
      elim (Option-cases (parse_block codec inner r.allowed)) [
        | inl e ↦
            rw (e, close_block)
              (
                plain (markup_open <> (inner <> markup_close)),
                rw i q',
                refl,
                refl,
                tt,
                (refl, refl),
                h,
                less,
              )
        | inr (got, e) ↦
            rw (e, close_block) (block inner got, rw i q', refl, refl, e, (refl, refl), h, less)
      ]

  inside-Turned :
      (r : Repair) (s : String)
      → r.hold ≡ ""
      → r.in_block ≡ true
      → Turned r s (turn_inside codec r s)
  unfolding turn_inside
  inside-Turned r s h i = elim (Option-cases (cut markup_close s)) [
    | inl e ↦ elim (Bool-cases (ltb max_block_bytes (len s))) [
      | inl y ↦
          rw (e, turn_inside) (rw y (rw (i, h) (sym (append-nil (markup_open <> s))), (refl, refl)))
      | inr n ↦
          rw (e, turn_inside) (rw n (rw i (sym (nil-append (markup_open <> s))), (refl, refl)))
    ]
    | inr ((inner, rest), e) ↦
        rw (e, turn_inside) (close-Turned r s inner rest h i (cut_lem markup_close s inner rest e))
  ]

  abbrev chosen : Repair → String → Bool → FeedTurn
  chosen r s b = if b then turn_inside codec r s else turn_outside r s

  pub feed_turn-Turned : (r : Repair) (s : String) → r.hold ≡ "" → Turned r s (feed_turn codec r s)
  unfolding feed_turn
  feed_turn-Turned r s h = elim (Bool-cases r.in_block) [
    | inl i ↦ subst (λ t. Turned r s t) (sym (ap (chosen r s) i)) (inside-Turned r s h i)
    | inr o ↦ subst (λ t. Turned r s t) (sym (ap (chosen r s) o)) (outside-Turned r s h o)
  ]
