-- ===== src/Upstream/Markup/Lossless.antt =====
-- internal/upstream/dsml.go: `Feed` and `Flush` give back every byte that they were given, but for
-- the blocks that became calls; and the loop of `Feed` ends.
use Prim.Native.String.{String}
use mathlib.Core.Option
use mathlib.Core.Path.{subst}
use text.Mathlib.TextLemmas.{nil-append, append-nil}
use workbuddy2plus_plugin.Base.{
  suc, ◌≡◌, refl, sym, ap, ◌∙◌, Bool, true, false, some, if◌then◌else◌, Bool-cases, inl, inr, List,
  [], ◌∷◌, All, All-append,
}
use workbuddy2plus_plugin.Upstream.Markup.Scan.{◌<>◌, count}
use workbuddy2plus_plugin.Upstream.Markup.Block.{Codec}
use workbuddy2plus_plugin.Upstream.Markup.Scanned.{some_inj}
use workbuddy2plus_plugin.Upstream.Markup.Permitted.{IsPermitted, parse_block-IsPermitted}
use workbuddy2plus_plugin.Upstream.Markup.Turns.{
  Piece, plain, block, raw, visible, called, join_pieces, join_calls, concat, withheld, IsRead,
}
use workbuddy2plus_plugin.Upstream.Markup.{
  Repair, Fed, put_before, feed_loop, feed_all, enabled, flush, new_repair,
}
use workbuddy2plus_plugin.Upstream.Markup.Explained.{
  feed_all-Explained, feed_all-step, enabled-same,
}

whole : (a : String) → a ≡ ((a <> "") <> "")
whole a = sym (append-nil (a <> "") ∙ append-nil a)

module _ {F : Type 0} (codec : Codec F) where
  -- A repair that is not enabled passes the text on.
  feed_all-off :
      (r : Repair) (ts : List String)
      → enabled r ≡ false
      → feed_all codec r ts ≡ some (record { repair = r; emit = concat ts; calls = [] })
  unfolding feed_all
  feed_all-off r [] e = refl
  feed_all-off r (t ∷ ts) e =
      feed_all-step codec r t ts (
        ap
          (λ b.
            if b
            then feed_loop codec (suc (count (r.hold <> t))) (record r { hold = "" }) (r.hold <> t)
            else some (record { repair = r; emit = t; calls = [] }))
          e)
      ∙ ap (Option.map (put_before t [])) (feed_all-off r ts e)

  pub flush-withheld : (r : Repair) → enabled r ≡ true → (flush r).0 ≡ withheld r
  unfolding flush
  flush-withheld r e = rw (e, flush) refl

  flush-off : (r : Repair) → enabled r ≡ false → (flush r).0 ≡ ""
  unfolding flush
  flush-off r e = rw (e, flush) refl

  -- Whatever pieces a response arrives in, it is accounted for: the text of the response is that of a
  -- list of pieces followed by what `Flush` gives back, the text put out is that of the plain pieces,
  -- and the calls put out are those of the others, each of which is a closed block that was read. The
  -- loop of `Feed` always ends.
  pub feed_all-lossless :
      (allowed : List String) (allow_unknown : Bool) (ts : List String)
      → (o : Fed) × (feed_all codec (new_repair allowed allow_unknown) ts ≡ some o)
        × ((ps : List Piece) × (concat ts ≡ join_pieces raw ps <> (flush o.repair).0)
            × (o.emit ≡ join_pieces visible ps)
            × (o.calls ≡ join_calls ps)
            × All (IsRead codec allowed) ps)
  unfolding new_repair
  feed_all-lossless allowed unknown ts =
      let r = new_repair allowed unknown in
      elim (Bool-cases (enabled r)) [
        | inl e ↦
            let (o, found, same, (ps, (text, emit, calls, reads))) =
              feed_all-Explained codec r ts e in
            let out = flush-withheld o.repair (enabled-same codec r o.repair same e) in
            (
              o,
              found,
              (
                ps,
                sym (nil-append (concat ts)) ∙ text ∙ ap (λ u. join_pieces raw ps <> u) (sym out),
                emit,
                calls,
                reads,
              ),
            )
        | inr e ↦ (
          record { repair = r; emit = concat ts; calls = [] },
          feed_all-off r ts e,
          (
            plain (concat ts) ∷ [],
            whole (concat ts) ∙ ap (λ u. (concat ts <> "") <> u) (sym (flush-off r e)),
            sym (append-nil (concat ts)),
            refl,
            (tt, tt),
          ),
        )
      ]

  called-IsPermitted :
      (allowed : List String) (p : Piece)
      → IsRead codec allowed p
      → All (IsPermitted allowed) (called p)
  called-IsPermitted allowed (plain t) h = tt
  called-IsPermitted allowed (block inner cs) h = parse_block-IsPermitted codec inner allowed cs h

  calls-IsPermitted :
      (allowed : List String) (ps : List Piece)
      → All (IsRead codec allowed) ps
      → All (IsPermitted allowed) (join_calls ps)
  calls-IsPermitted allowed [] h = tt
  calls-IsPermitted allowed (p ∷ ps) h =
      All-append (IsPermitted allowed) (called p) (join_calls ps) (called-IsPermitted allowed p h.0)
        (calls-IsPermitted allowed ps h.1)

  -- Whatever pieces a response arrives in, every call that is made of its text has a name that the
  -- client declared or, if it declared none, that has the form of the name of a tool. If the repair
  -- is off, no call is made.
  pub feed_all-IsPermitted :
      (allowed : List String) (allow_unknown : Bool) (ts : List String) (o : Fed)
      → feed_all codec (new_repair allowed allow_unknown) ts ≡ some o
      → All (IsPermitted allowed) o.calls
        × (enabled (new_repair allowed allow_unknown) ≡ false → o.calls ≡ [])
  feed_all-IsPermitted allowed unknown ts o h =
      let (o', found, (ps, text, emit, calls, reads)) = feed_all-lossless allowed unknown ts in
      let same = some_inj (sym found ∙ h) in
      (
        subst (λ u. All (IsPermitted allowed) u.calls) same
            (subst (All (IsPermitted allowed)) (sym calls) (calls-IsPermitted allowed ps reads)),
        λ off.
            ap (λ u. u.calls) (some_inj (sym h ∙ feed_all-off (new_repair allowed unknown) ts off)),
      )
