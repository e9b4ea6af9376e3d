-- ===== src/Upstream/Markup/Explained.antt =====
-- internal/upstream/dsml.go: what one `Feed`, and one after the other, do with the text, and that the
-- loop of `Feed` ends.
use Prim.Native.String.{String}
use mathlib.Core.Option
use mathlib.Core.List.{append_assoc as list_assoc}
use mathlib.Core.Path.{subst}
use text.Mathlib.TextLemmas.{nil-append, append-nil, append_assoc}
use workbuddy2plus_plugin.Base.{
  ℕ, suc, zero, ◌<◌, ◌≡◌, refl, sym, ap, ◌∙◌, true, Option, none, some, if◌then◌else◌, Bool-cases,
  inl, inr, arith, List, [], ◌∷◌, ◌++◌, All, All-append,
}
use workbuddy2plus_plugin.Upstream.Markup.Scan.{◌<>◌, count}
use workbuddy2plus_plugin.Upstream.Markup.Block.{MarkupCall, Codec}
use workbuddy2plus_plugin.Upstream.Markup.Turns.{
  Piece, plain, raw, visible, called, join_pieces, join_calls, concat, withheld, lead, SameTools,
  IsRead, Turned, feed_turn-Turned,
}
use workbuddy2plus_plugin.Upstream.Markup.{
  Repair, FeedTurn, stop, again, Fed, put_before, follow_turn, feed_loop, feed, feed_all, enabled,
  markup_open, feed_turn,
}

join_pieces-append :
    (f : Piece → String) (ps qs : List Piece)
    → join_pieces f (ps ++ qs) ≡ join_pieces f ps <> join_pieces f qs
join_pieces-append f [] qs = sym (nil-append (join_pieces f qs))
join_pieces-append f (p ∷ ps) qs =
    ap (λ t. f p <> t) (join_pieces-append f ps qs)
    ∙ sym (append_assoc (f p) (join_pieces f ps) (join_pieces f qs))

join_calls-append : (ps qs : List Piece) → join_calls (ps ++ qs) ≡ join_calls ps ++ join_calls qs
join_calls-append [] qs = refl
join_calls-append (p ∷ ps) qs =
    ap (λ cs. called p ++ cs) (join_calls-append ps qs)
    ∙ sym (list_assoc (called p) (join_calls ps) (join_calls qs))

-- What two parts of a text come to.
spliced :
    (a t c j p k q : String)
    → (a <> t) ≡ (j <> p)
    → (p <> c) ≡ (k <> q)
    → (a <> (t <> c)) ≡ ((j <> k) <> q)
spliced a t c j p k q h h' =
    sym (append_assoc a t c)
    ∙ ap (λ u. u <> c) h
    ∙ append_assoc j p c
    ∙ ap (λ u. j <> u) h'
    ∙ sym (append_assoc j k q)

both : (a b c d : String) → a ≡ c → b ≡ d → (a <> b) ≡ (c <> d)
both a b c d h h' = rw (h, h') refl

both_calls : {a b c d : List MarkupCall} → a ≡ c → b ≡ d → (a ++ b) ≡ (c ++ d)
both_calls h h' = cc

module _ {F : Type 0} (codec : Codec F) where
  -- The pieces account for the text that went in, up to what is held back, and for what came out.
  abbrev pub Accounts : List String → String → Fed → List Piece → Type 0
  Accounts allowed s o ps =
      (s ≡ join_pieces raw ps <> withheld o.repair)
      × (o.emit ≡ join_pieces visible ps)
      × (o.calls ≡ join_calls ps)
      × All (IsRead codec allowed) ps

  abbrev pub Explained : Repair → String → Option Fed → Type 0
  Explained r s result =
      (o : Fed) × (result ≡ some o)
      × SameTools r o.repair
      × ((ps : List Piece) × Accounts r.allowed s o ps)

  follow_turn-Explained :
      (r : Repair) (s : String) (t : FeedTurn) (more : Repair → String → Option Fed)
      → Turned codec r s t
      → ((r' : Repair) (s' : String)
          → r'.hold ≡ ""
          → count s' < count s
          → Explained r' (lead r' s') (more r' s'))
      → Explained r (lead r s) (follow_turn more t)
  unfolding follow_turn
  follow_turn-Explained r s (stop r' out) more h ih = (
    record { repair = r'; emit = out; calls = [] },
    refl,
    h.1,
    (
      plain out ∷ [],
      (
        h.0 ∙ ap (λ u. u <> withheld r') (sym (append-nil out)),
        sym (append-nil out),
        refl,
        (tt, tt),
      ),
    ),
  )
  follow_turn-Explained r s (again r' rest out cs) more (p, q, e, c, k, same, hold, less) ih =
      let (o, found, same', (ps, (text, emit, calls, reads))) = ih r' rest hold less in
      (
        put_before out cs o,
        ap (Option.map (put_before out cs)) found,
        (same'.0 ∙ same.0, same'.1 ∙ same.1),
        (
          p ∷ ps,
          (
            q
                ∙ ap (λ u. raw p <> u) text
                ∙ sym (append_assoc (raw p) (join_pieces raw ps) (withheld o.repair)),
            cc,
            cc,
            (k, subst (λ a. All (IsRead codec a) ps) same.0 reads),
          ),
        ),
      )

  feed_loop-Explained :
      (fuel : ℕ) (r : Repair) (s : String)
      → r.hold ≡ ""
      → count s < fuel
      → Explained r (lead r s) (feed_loop codec fuel r s)
  unfolding feed_loop
  feed_loop-Explained zero r s h k = absurd (omega arith)
  feed_loop-Explained (suc fuel) r s h k =
      follow_turn-Explained r s (feed_turn codec r s) (feed_loop codec fuel)
        (feed_turn-Turned codec r s h)
        (λ r' s' h' less. feed_loop-Explained fuel r' s' h' (omega arith))

  -- A repair that is enabled runs the loop, on what it held back and the text.
  feed_on :
      (r : Repair) (t : String)
      → enabled r ≡ true
      → feed codec r t
        ≡ feed_loop codec (suc (count (r.hold <> t))) (record r { hold = "" }) (r.hold <> t)
  unfolding feed
  feed_on r t e =
      ap
        (λ b.
          if b
          then feed_loop codec (suc (count (r.hold <> t))) (record r { hold = "" }) (r.hold <> t)
          else some (record { repair = r; emit = t; calls = [] }))
        e

  lead-held :
      (r : Repair) (t : String) → lead (record r { hold = "" }) (r.hold <> t) ≡ withheld r <> t
  lead-held r t = elim (Bool-cases r.in_block) [
    | inl i ↦ rw i (sym (append_assoc markup_open r.hold t))
    | inr o ↦ rw o refl
  ]

  pub feed-Explained :
      (r : Repair) (t : String) → enabled r ≡ true → Explained r (withheld r <> t) (feed codec r t)
  feed-Explained r t e =
      let x =
        feed_loop-Explained (suc (count (r.hold <> t))) (record r { hold = "" }) (r.hold <> t) refl
          (omega arith) in
      (
        x.0,
        feed_on r t e ∙ x.1,
        x.2,
        (x.3.0, (sym (lead-held r t) ∙ x.3.1.0, x.3.1.1, x.3.1.2, x.3.1.3)),
      )

  pub feed_all-step :
      (r : Repair) (t : String) (ts : List String) {o : Fed}
      → feed codec r t ≡ some o
      → feed_all codec r (t ∷ ts)
        ≡ Option.map (put_before o.emit o.calls) (feed_all codec o.repair ts)
  unfolding feed_all
  feed_all-step r t ts h =
      ap
        (λ x. elim x [
          | none ↦ none
          | some o ↦ Option.map (put_before o.emit o.calls) (feed_all codec o.repair ts)
        ])
        h

  pub enabled-same : (r r' : Repair) → SameTools r r' → enabled r ≡ true → enabled r' ≡ true
  unfolding enabled
  enabled-same r r' same e = rw (same.0, same.1) e

  pub feed_all-Explained :
      (r : Repair) (ts : List String)
      → enabled r ≡ true
      → Explained r (withheld r <> concat ts) (feed_all codec r ts)
  unfolding feed_all
  feed_all-Explained r [] e = (
    record { repair = r; emit = ""; calls = [] },
    refl,
    (refl, refl),
    ([], (append-nil (withheld r) ∙ sym (nil-append (withheld r)), refl, refl, tt)),
  )
  feed_all-Explained r (t ∷ ts) e =
      let (o, found, same, (ps, (text, emit, calls, reads))) = feed-Explained r t e in
      let (o', found', same', (qs, (text', emit', calls', reads'))) =
        feed_all-Explained o.repair ts (enabled-same r o.repair same e) in
      (
        put_before o.emit o.calls o',
        feed_all-step r t ts found ∙ ap (Option.map (put_before o.emit o.calls)) found',
        (same'.0 ∙ same.0, same'.1 ∙ same.1),
        (
          ps ++ qs,
          (
            spliced (withheld r) t (concat ts) _ _ _ _ text text'
                ∙ ap (λ u. u <> withheld o'.repair) (sym (join_pieces-append raw ps qs)),
            both _ _ _ _ emit emit' ∙ sym (join_pieces-append visible ps qs),
            both_calls calls calls' ∙ sym (join_calls-append ps qs),
            All-append (IsRead codec r.allowed) ps qs reads
                (subst (λ a. All (IsRead codec a) qs) same.0 reads'),
          ),
        ),
      )
