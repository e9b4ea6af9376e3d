-- ===== src/Upstream/Markup/Response/Kept.antt =====
-- internal/upstream/dsml.go: what `RepairAggregatedResponse` does with each choice.
use Prim.Native.String.{String}
use text.Mathlib.TextLemmas.{nil-append}
use workbuddy2plus_plugin.Base.{
  ◌≡◌, ◌≢◌, refl, sym, ap, ◌∙◌, ◌⊎◌, inl, inr, Bool, true, false, some, List, [], ◌∷◌, Bool-cases,
  Option-cases, str_eq, length, ◌==◌, All, Dict, arith, ltb, lt→ltb, eq_iff,
}
use mathlib.Core.Path.{subst}
use workbuddy2plus_plugin.Upstream.Json.{
  list_at-some, list_at-insert, Json, text_at, as_map, as_list, value_at, list_at, value_at-insert,
}
use workbuddy2plus_plugin.Upstream.Markup.Scan.{◌<>◌}
use workbuddy2plus_plugin.Upstream.Markup.Block.{Codec}
use workbuddy2plus_plugin.Upstream.Markup.{Repair, Fed, enabled, flush, new_repair}
use workbuddy2plus_plugin.Upstream.Markup.Turns.{
  Piece, raw, visible, join_pieces, join_calls, withheld, IsRead,
}
use workbuddy2plus_plugin.Upstream.Markup.Explained.{feed-Explained, enabled-same}
use workbuddy2plus_plugin.Upstream.Markup.Lossless.{flush-withheld}
use workbuddy2plus_plugin.Upstream.Markup.Response.{
  Wire, repairable, with_calls, repair_choice, repair_choices, repair_aggregated_response,
}

-- A repair for these tools that is on and holds nothing back.
pub record IsIdle (allowed : List String) (r : Repair) : Type 0 where
  pub tools : r.allowed ≡ allowed
  pub on : enabled r ≡ true
  pub empty : r.hold ≡ ""
  pub outside : r.in_block ≡ false

flush-IsIdle :
    (allowed : List String) (r : Repair)
    → r.allowed ≡ allowed
    → enabled r ≡ true
    → IsIdle allowed (flush r).1
unfolding flush
flush-IsIdle allowed r t e =
    rw (e, flush) (record { tools = t; on = e; empty = refl; outside = refl })

idle-withheld : {allowed : List String} (r : Repair) → IsIdle allowed r → withheld r ≡ ""
idle-withheld r i = ground (arith, i.empty, i.outside)

length-zero : {A : Type 0} (xs : List A) → (length xs == 0) ≡ false → xs ≢ []
length-zero [] h = cc
length-zero (x ∷ xs) h = λ e. cc

no_members : {A : Type 0} (xs : List A) → ltb 0 (length xs) ≡ false → xs ≡ []
no_members [] h = refl
no_members (x ∷ xs) h = cc (h, lt→ltb 0 (length (x ∷ xs)) (omega arith))

-- What it takes to be repaired.
repairable_lem :
    {F : Type 0} (c msg : Dict (Json F)) (t : String)
    → repairable c msg ≡ some t
    → (list_at "tool_calls" msg ≡ [])
      × (text_at "finish_reason" c ≡ "stop")
      × (text_at "content" msg ≡ t)
unfolding repairable
repairable_lem c msg t h = elim (Bool-cases (ltb 0 (length (list_at "tool_calls" msg)))) [
  | inl y ↦ absurd (cc (rw (y, repairable) at h))
  | inr n ↦ (
    no_members (list_at "tool_calls" msg) n,
    ground (arith, rw (n, repairable) at h, eq_iff (text_at "finish_reason" c) "stop"),
    ground (arith, rw (n, repairable) at h),
  )
]

module _ {F : Type 0} (wire : Wire F) (codec : Codec F) (allowed : List String) where
  -- What the repair makes of a choice: nothing, or the choice with its text in pieces.
  abbrev pub Repaired : Json F → Json F → Type 0
  Repaired ci ci' =
      (ci' ≡ ci)
      ⊎ ((c : Dict (Json F)) × (msg : Dict (Json F)) × (t : String) × (o : Fed) × (tail : String)
          × (ps : List Piece) × (as_map ci ≡ some c)
          × (as_map (value_at "message" c) ≡ some msg)
          × (repairable c msg ≡ some t)
          × (list_at "tool_calls" msg ≡ [])
          × (text_at "finish_reason" c ≡ "stop")
          × (text_at "content" msg ≡ t)
          × (ci' ≡ with_calls wire c msg o tail)
          × (o.calls ≢ [])
          × (t ≡ join_pieces raw ps <> tail)
          × (o.emit ≡ join_pieces visible ps)
          × (o.calls ≡ join_calls ps)
          × All (IsRead codec allowed) ps)

  abbrev pub AllRepaired : List (Json F) → List (Json F) → Type 0
  AllRepaired [] [] = Unit
  AllRepaired [] (y ∷ ys) = ⊥
  AllRepaired (x ∷ xs) [] = ⊥
  AllRepaired (x ∷ xs) (y ∷ ys) = Repaired x y × AllRepaired xs ys

  abbrev Chosen : Json F → Repair × Json F → Type 0
  Chosen ci out = IsIdle allowed out.0 × Repaired ci out.1

  repair_choice-Chosen :
      (r : Repair) (ci : Json F) → IsIdle allowed r → Chosen ci (repair_choice wire codec r ci)
  unfolding repair_choice
  repair_choice-Chosen r ci i = elim (Option-cases (as_map ci)) [
    | inl e ↦ rw (e, repair_choice) (i, inl refl)
    | inr (c, e) ↦ elim (Option-cases (as_map (value_at "message" c))) [
      | inl m ↦ rw (e, repair_choice) (rw m (i, inl refl))
      | inr (msg, m) ↦ elim (Option-cases (repairable c msg)) [
        | inl q ↦ rw (e, repair_choice) (rw m (rw q (i, inl refl)))
        | inr (t, q) ↦
            let (o, found, same, (ps, (text, emit, calls, reads))) =
              feed-Explained codec r t i.on in
            let out = flush o.repair in
            let can = repairable_lem c msg t q in
            let idle =
              flush-IsIdle allowed o.repair (same.0 ∙ i.tools)
                (enabled-same codec r o.repair same i.on) in
            let whole =
              sym (ap (λ u. u <> t) (idle-withheld r i) ∙ nil-append t)
              ∙ text
              ∙ ap (λ u. join_pieces raw ps <> u)
                  (sym (flush-withheld codec o.repair (enabled-same codec r o.repair same i.on))) in
            let reads' = subst (λ a. All (IsRead codec a) ps) i.tools reads in
            rw (e, repair_choice)
              (rw m (
                rw q (
                  rw found (
                    idle,
                    elim (Bool-cases (length o.calls == 0)) [
                      | inl z ↦ rw z (inl refl)
                      | inr n ↦ rw n (
                          inr (
                            c,
                            msg,
                            t,
                            o,
                            out.0,
                            ps,
                            refl,
                            m,
                            q,
                            can.0,
                            can.1,
                            can.2,
                            refl,
                            length-zero o.calls n,
                            whole,
                            emit,
                            calls,
                            reads',
                          ))
                    ],
                  ))))
      ]
    ]
  ]

  repair_choices-Repaired :
      (r : Repair) (cs : List (Json F))
      → IsIdle allowed r
      → AllRepaired cs (repair_choices wire codec r cs).1
  unfolding repair_choices
  repair_choices-Repaired r [] i = tt
  repair_choices-Repaired r (ci ∷ cs) i =
      let one = repair_choice-Chosen r ci i in
      (one.1, repair_choices-Repaired (repair_choice wire codec r ci).0 cs one.0)

new_repair-IsIdle :
    (allowed : List String) (unknown : Bool)
    → enabled (new_repair allowed unknown) ≡ true
    → IsIdle allowed (new_repair allowed unknown)
unfolding new_repair
new_repair-IsIdle allowed unknown e = record { tools = refl; on = e; empty = refl; outside = refl }

module _ {F : Type 0} (wire : Wire F) (codec : Codec F) (resp : Dict (Json F))
    (allowed : List String) (unknown : Bool) where
  AllRepaired-same : (cs : List (Json F)) → AllRepaired wire codec allowed cs cs
  AllRepaired-same [] = tt
  AllRepaired-same (c ∷ cs) = (inl refl, AllRepaired-same cs)

  AllRepaired-eq :
      {xs xs' ys ys' : List (Json F)}
      → xs ≡ xs'
      → ys ≡ ys'
      → AllRepaired wire codec allowed xs' ys'
      → AllRepaired wire codec allowed xs ys
  AllRepaired-eq p q h = rw (p, q) h

  abbrev KeptBut : Dict (Json F) → Type 0
  KeptBut out =
      AllRepaired wire codec allowed (list_at "choices" resp) (list_at "choices" out)
      × ((key : String) → str_eq "choices" key ≡ false → value_at key out ≡ value_at key resp)

  -- The response keeps all its values but the choices, of which there are as many. A choice stays as
  -- it is, or it had a text that ended by itself and no member in an `[]any` of calls; then it has the
  -- calls in the blocks of that text, at least one, which were read, and its text is the rest of that
  -- text, with nothing lost.
  pub repair_aggregated_response_lem :
      KeptBut (repair_aggregated_response wire codec resp allowed unknown).0
  unfolding repair_aggregated_response
  repair_aggregated_response_lem = elim (Bool-cases (enabled (new_repair allowed unknown))) [
    | inr off ↦
        rw (off, repair_aggregated_response)
          (AllRepaired-same (list_at "choices" resp), λ key other. refl)
    | inl on ↦ elim (Option-cases (as_list (value_at "choices" resp))) [
      | inl e ↦
          rw (on, repair_aggregated_response)
            (rw e (AllRepaired-same (list_at "choices" resp), λ key other. refl))
      | inr (cs, e) ↦
          rw (on, repair_aggregated_response)
            (rw e (
              AllRepaired-eq (list_at-some "choices" resp e) (list_at-insert "choices" _ resp) (
                  repair_choices-Repaired wire codec allowed (new_repair allowed unknown) cs
                    (new_repair-IsIdle allowed unknown on)),
              λ key other. value_at-insert "choices" key _ resp ∙ rw other refl,
            ))
    ]
  ]
