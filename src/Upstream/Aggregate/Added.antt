-- ===== src/Upstream/Aggregate/Added.antt =====
-- internal/upstream/sse.go: what an event, a choice and a delta add to the text of `Aggregate`.
use Prim.Native.String.{String}
use text.Mathlib.TextLemmas.{append-nil, append_assoc}
use text.Mathlib.TextEquality.{eq_iff}
use workbuddy2plus_plugin.Base.{
  ℕ, ◌+◌, ◌≡◌, refl, sym, ap, ◌∙◌, inl, inr, not, Option, none, some, List, [], ◌∷◌, if◌then◌else◌,
  str_eq, Dict, Bool-cases, Option-cases, All, arith,
}
use workbuddy2plus_plugin.Pool.Floats.{Floats}
use workbuddy2plus_plugin.Upstream.Json.{Json, as_map, value_at, text_at, list_at}
use workbuddy2plus_plugin.Upstream.Markup.Scan.{◌<>◌}
use workbuddy2plus_plugin.Upstream.Aggregate.Calls.{Answer}
use workbuddy2plus_plugin.Upstream.Aggregate.{
  append_content, merge_message_fields, merge_delta, merge_message, with_finish, merge_choice,
  merge_choices, merge_head, merge_event,
}
use workbuddy2plus_plugin.Upstream.Aggregate.Total.{calls-total}

module _ {F : Type 0} where
  abbrev pub delta_text : Dict (Json F) → String
  delta_text c = elim (as_map (value_at "delta" c)) [ none ↦ "" | some d ↦ text_at "content" d ]

  abbrev pub choice_text : Json F → String
  choice_text ci = elim (as_map ci) [ none ↦ "" | some c ↦ delta_text c ]

  abbrev pub choices_text : List (Json F) → String
  choices_text [] = ""
  choices_text (ci ∷ cs) = choice_text ci <> choices_text cs

  abbrev pub chunks_text : List (Dict (Json F)) → String
  chunks_text [] = ""
  chunks_text (chunk ∷ chunks) = choices_text (list_at "choices" chunk) <> chunks_text chunks

  -- A choice that carries no whole message.
  abbrev pub HasNoMessage : Json F → Type 0
  HasNoMessage ci = (c : Dict (Json F)) → as_map ci ≡ some c → as_map (value_at "message" c) ≡ none

module _ {F : Type 0} (fl : Floats F) where
  -- So much text is added.
  abbrev Adds : String → Answer F → Option (Answer F) → Type 0
  Adds t a result =
      (b : Answer F) × (result ≡ some b)
      × (b.valid_events ≡ a.valid_events)
      × (b.content ≡ a.content <> t)

  append_content-Adds :
      (t : String) (a : Answer F)
      → ((append_content fl t a).valid_events ≡ a.valid_events)
        × ((append_content fl t a).content ≡ a.content <> t)
  unfolding append_content
  append_content-Adds t a = elim (Bool-cases (str_eq t "")) [
    | inl y ↦
        rw (y, append_content)
          (refl, sym (ap (λ u. a.content <> u) ((eq_iff t "").0 y) ∙ append-nil a.content))
    | inr n ↦ rw (n, append_content) (refl, refl)
  ]

  fields-Adds :
      (msg : Dict (Json F)) (a : Answer F)
      → Adds (text_at "content" msg) a (merge_message_fields fl msg a)
  unfolding merge_message_fields
  fields-Adds msg a =
      let role = text_at "role" msg in
      let b : Answer F = if str_eq role "" then a else record a { role = role } in
      let c = append_content fl (text_at "content" msg) b in
      let d : Answer F = record c { reasoning = c.reasoning <> text_at "reasoning_content" msg } in
      let x = calls-total fl (list_at "tool_calls" msg) d in
      let y = append_content-Adds (text_at "content" msg) b in
      let z : (b.valid_events ≡ a.valid_events) × (b.content ≡ a.content) =
        elim (Bool-cases (str_eq role "")) [
          | inl e ↦ rw e (refl, refl)
          | inr e ↦ rw e (refl, refl)
        ] in
      (x.0, x.1, x.2.0 ∙ y.0 ∙ z.0, x.2.1 ∙ y.1 ∙ ap (λ u. u <> text_at "content" msg) z.1)

  delta-Adds : (c : Dict (Json F)) (a : Answer F) → Adds (delta_text c) a (merge_delta fl c a)
  unfolding merge_delta
  delta-Adds c a = elim (Option-cases (as_map (value_at "delta" c))) [
    | inl e ↦ rw (e, merge_delta) (a, refl, refl, rw (e, delta_text) (sym (append-nil a.content)))
    | inr (d, e) ↦
        let x = fields-Adds d a in (x.0, rw (e, merge_delta) x.1, x.2, rw (e, delta_text) x.3)
  ]

  -- So much text is added if no whole message comes.
  abbrev pub AddsIf : Type 0 → String → ℕ → Answer F → Option (Answer F) → Type 0
  AddsIf P t n a result =
      (b : Answer F) × (result ≡ some b)
      × (b.valid_events ≡ a.valid_events + n)
      × (P → b.content ≡ a.content <> t)

  message-Adds :
      (c : Dict (Json F)) (a : Answer F)
      → AddsIf (as_map (value_at "message" c) ≡ none) "" 0 a (merge_message fl c a)
  unfolding merge_message
  message-Adds c a = elim (Option-cases (as_map (value_at "message" c))) [
    | inl e ↦ (a, rw (e, merge_message) refl, omega arith, λ h. sym (append-nil a.content))
    | inr (msg, e) ↦ elim (Bool-cases a.got_any_content) [
      | inl y ↦ (
        a,
        rw (e, merge_message) (ap (λ g. if not g then merge_message_fields fl msg a else some a) y),
        omega arith,
        λ h. sym (append-nil a.content),
      )
      | inr n ↦
          let x = fields-Adds msg a in
          (
            x.0,
            rw (e, merge_message)
                (ap (λ g. if not g then merge_message_fields fl msg a else some a) n ∙ x.1),
            omega (arith, x.2),
            λ h. let z : none ≡ some msg = sym h ∙ e in cc,
          )
    ]
  ]

  with_finish-same :
      (c : Dict (Json F)) (a : Answer F)
      → ((with_finish fl c a).valid_events ≡ a.valid_events)
        × ((with_finish fl c a).content ≡ a.content)
  unfolding with_finish
  with_finish-same c a = elim (Bool-cases (str_eq (text_at "finish_reason" c) "")) [
    | inl e ↦ rw (e, with_finish) (refl, refl)
    | inr e ↦ rw (e, with_finish) (refl, refl)
  ]

  choice-Adds :
      (ci : Json F) (a : Answer F)
      → AddsIf (HasNoMessage ci) (choice_text ci) 0 a (merge_choice fl ci a)
  unfolding merge_choice
  choice-Adds ci a = elim (Option-cases (as_map ci)) [
    | inl e ↦ (
      a,
      rw (e, merge_choice) refl,
      omega arith,
      λ h. rw (e, choice_text) (sym (append-nil a.content)),
    )
    | inr (c, e) ↦
        let w = with_finish-same c a in
        let x = delta-Adds c (with_finish fl c a) in
        let y = message-Adds c x.0 in
        (
          y.0,
          rw (e, merge_choice)
              (ap (λ o. elim o [ none ↦ none | some b ↦ merge_message fl c b ]) x.1 ∙ y.1),
          omega (arith, y.2, x.2, w.0),
          λ h.
              y.3 (h c e)
              ∙ append-nil x.0.content
              ∙ x.3
              ∙ ap (λ u. u <> delta_text c) w.1
              ∙ rw (e, choice_text) refl,
        )
  ]

  choices-Adds :
      (cs : List (Json F)) (a : Answer F)
      → AddsIf (All HasNoMessage cs) (choices_text cs) 0 a (merge_choices fl cs a)
  unfolding merge_choices
  choices-Adds [] a = (a, refl, omega arith, λ h. sym (append-nil a.content))
  choices-Adds (ci ∷ cs) a =
      let x = choice-Adds ci a in
      let y = choices-Adds cs x.0 in
      (
        y.0,
        ap (λ o. elim o [ none ↦ none | some b ↦ merge_choices fl cs b ]) x.1 ∙ y.1,
        omega (arith, y.2, x.2),
        λ h.
            y.3 h.1
            ∙ ap (λ u. u <> choices_text cs) (x.3 h.0)
            ∙ append_assoc a.content (choice_text ci) (choices_text cs),
      )

  merge_head-same :
      (chunk : Dict (Json F)) (a : Answer F)
      → ((merge_head fl chunk a).valid_events ≡ a.valid_events + 1)
        × ((merge_head fl chunk a).content ≡ a.content)
  unfolding merge_head
  merge_head-same chunk a = (refl, refl)

  abbrev pub ChunkHasNoMessage : Dict (Json F) → Type 0
  ChunkHasNoMessage chunk = All HasNoMessage (list_at "choices" chunk)

  pub event-Adds :
      (chunk : Dict (Json F)) (a : Answer F)
      → AddsIf
          (ChunkHasNoMessage chunk)
          (choices_text (list_at "choices" chunk))
          1
          a
          (merge_event fl chunk a)
  unfolding merge_event
  event-Adds chunk a =
      let h = merge_head-same chunk a in
      let x = choices-Adds (list_at "choices" chunk) (merge_head fl chunk a) in
      (
        x.0,
        x.1,
        omega (arith, x.2, h.0),
        λ k. x.3 k ∙ ap (λ u. u <> choices_text (list_at "choices" chunk)) h.1,
      )
