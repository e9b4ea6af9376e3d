-- ===== src/Upstream/Markup/Permitted.antt =====
-- internal/upstream/dsml.go: the loops of `parseMarkupBlock` and `parseMarkupParams` end with the fuel
-- that they have, and no call is read whose name may not be called.
use Prim.Native.String.{String}
use workbuddy2plus_plugin.Base.{
  ℕ, zero, suc, ◌<◌, ◌≡◌, ◌≢◌, Bool, true, false, not, none, some, List, [], if◌then◌else◌,
  Bool-cases, Option-cases, inl, inr, arith, All, length, ◌==◌, Dict, insert,
}
use mathlib.Core.Path.{subst}
use workbuddy2plus_plugin.Upstream.Json.{Json}
use workbuddy2plus_plugin.Upstream.Texts.{is_blank}
use workbuddy2plus_plugin.Upstream.Markup.Scan.{cut, leftmost, count}
use workbuddy2plus_plugin.Upstream.Markup.Scanned.{some_inj}
use workbuddy2plus_plugin.Upstream.Markup.Consumed.{param_tail-lt, invoke_tail-lt}
use workbuddy2plus_plugin.Upstream.Markup.Block.{
  Codec, MarkupCall, Parsed, parsed, refused, starved, Next, finish, reject, found, next_param,
  next_call, params_loop, calls_loop, with_call, parse_params, parse_block, permitted, param_head,
  invoke_head, markup_param_close, markup_invoke_close,
}

-- What is known of what a turn found in `s`.
abbrev Leaves : {A : Type 0} → (A → Type 0) → String → Next A → Type 0
Leaves P s finish = Unit
Leaves P s reject = Unit
Leaves P s (found a rest) = (count rest < count s) × P a

at_end :
    {A : Type 0} (P : A → Type 0) (s : String) (b : Bool)
    → Leaves P s (if b then finish else reject)
at_end P s true = tt
at_end P s false = tt

guarded :
    {A : Type 0} (P : A → Type 0) (s : String) (b : Bool) (n : Next A)
    → Leaves P s n
    → Leaves P s (if not b then reject else n)
guarded P s true n h = h
guarded P s false n h = tt

unless_inj : {A : Type 0} (b : Bool) {x y : A} → (if b then none else some x) ≡ some y → x ≡ y
unless_inj true h = cc
unless_inj false h = some_inj h

abbrev pub IsPermitted : List String → MarkupCall → Type 0
IsPermitted allowed call = permitted allowed call.name ≡ true

abbrev Answers : {A : Type 0} → (A → Type 0) → Parsed A → Type 0
Answers P (parsed a) = P a
Answers P refused = Unit
Answers P starved = ⊥

module _ {F : Type 0} (codec : Codec F) where
  next_param-Leaves : (s : String) → Leaves (λ kv. Unit {0}) s (next_param codec s)
  unfolding next_param
  next_param-Leaves s = elim (Option-cases (leftmost param_head s)) [
    | inl e ↦ rw (e, next_param) (at_end _ s (is_blank s))
    | inr ((skipped, h), e) ↦
        rw (e, next_param)
          (guarded _ s (is_blank skipped) _ (elim (Option-cases (cut markup_param_close h.2)) [
            | inl k ↦ rw k tt
            | inr (p, k) ↦ rw k (param_tail-lt s markup_param_close skipped h e k (omega arith), tt)
          ]))
  ]

  next_call-Leaves :
      (allowed : List String) (s : String)
      → Leaves (IsPermitted allowed) s (next_call codec allowed s)
  unfolding next_call
  next_call-Leaves allowed s = elim (Option-cases (leftmost invoke_head s)) [
    | inl e ↦ rw (e, next_call) (at_end _ s (is_blank s))
    | inr ((skipped, h), e) ↦
        rw (e, next_call)
          (guarded _ s (is_blank skipped) _ (elim (Option-cases (cut markup_invoke_close h.1)) [
            | inl k ↦ rw k tt
            | inr (p, k) ↦ elim (Option-cases (parse_params codec p.0)) [
              | inl m ↦ rw k (rw m tt)
              | inr (args, m) ↦ elim (Bool-cases (permitted allowed h.0)) [
                | inl y ↦ rw k (
                    rw m
                      (rw y (invoke_tail-lt s markup_invoke_close skipped h e k (omega arith), y)))
                | inr n ↦ rw k (rw m (rw n tt))
              ]
            ]
          ]))
  ]

  param_round :
      (fuel : ℕ) (args : Dict (Json F)) (s : String) (n : Next (String × Json F))
      → Leaves (λ kv. Unit {0}) s n
      → ((args' : Dict (Json F)) (rest : String)
          → count rest < count s
          → params_loop codec fuel args' rest ≢ starved)
      → elim n [
        | finish ↦ parsed args
        | reject ↦ refused
        | found kv rest ↦ params_loop codec fuel (insert kv.0 kv.1 args) rest
      ]
        ≢ starved
  param_round fuel args s finish l ih = λ e. cc
  param_round fuel args s reject l ih = λ e. cc
  param_round fuel args s (found kv rest) l ih = ih (insert kv.0 kv.1 args) rest l.0

  params_loop-ends :
      (fuel : ℕ) (args : Dict (Json F)) (s : String)
      → count s < fuel
      → params_loop codec fuel args s ≢ starved
  unfolding params_loop
  params_loop-ends zero args s h = absurd (omega arith)
  params_loop-ends (suc fuel) args s h =
      param_round fuel args s (next_param codec s) (next_param-Leaves s)
        (λ args' rest less. params_loop-ends fuel args' rest (omega arith))

  with_call-Answers :
      (allowed : List String) (call : MarkupCall) (result : Parsed (List MarkupCall))
      → IsPermitted allowed call
      → Answers (All (IsPermitted allowed)) result
      → Answers (All (IsPermitted allowed)) (with_call call result)
  unfolding with_call
  with_call-Answers allowed call (parsed cs) p h = (p, h)
  with_call-Answers allowed call refused p h = tt
  with_call-Answers allowed call starved p h = h

  call_round :
      (fuel : ℕ) (allowed : List String) (s : String) (n : Next MarkupCall)
      → Leaves (IsPermitted allowed) s n
      → ((rest : String)
          → count rest < count s
          → Answers (All (IsPermitted allowed)) (calls_loop codec fuel allowed rest))
      → Answers (All (IsPermitted allowed)) (elim n [
        | finish ↦ parsed []
        | reject ↦ refused
        | found call rest ↦ with_call call (calls_loop codec fuel allowed rest)
      ])
  call_round fuel allowed s finish l ih = tt
  call_round fuel allowed s reject l ih = tt
  call_round fuel allowed s (found call rest) l ih =
      with_call-Answers allowed call (calls_loop codec fuel allowed rest) l.1 (ih rest l.0)

  -- The fuel suffices, and every call that is answered may be called.
  calls_loop-Answers :
      (fuel : ℕ) (allowed : List String) (s : String)
      → count s < fuel
      → Answers (All (IsPermitted allowed)) (calls_loop codec fuel allowed s)
  unfolding calls_loop
  calls_loop-Answers zero allowed s h = absurd (omega arith)
  calls_loop-Answers (suc fuel) allowed s h =
      call_round fuel allowed s (next_call codec allowed s) (next_call-Leaves allowed s)
        (λ rest less. calls_loop-Answers fuel allowed rest (omega arith))

  answered_calls :
      (allowed : List String) (result : Parsed (List MarkupCall)) (cs : List MarkupCall)
      → Answers (All (IsPermitted allowed)) result
      → elim result [
        | parsed ds ↦ if length ds == 0 then none else some ds
        | refused ↦ none
        | starved ↦ none
      ]
        ≡ some cs
      → All (IsPermitted allowed) cs
  answered_calls allowed (parsed ds) cs a h =
      subst (All (IsPermitted allowed)) (unless_inj (length ds == 0) h) a
  answered_calls allowed refused cs a h = cc
  answered_calls allowed starved cs a h = absurd a

  pub parse_block-IsPermitted :
      (inner : String) (allowed : List String) (cs : List MarkupCall)
      → parse_block codec inner allowed ≡ some cs
      → All (IsPermitted allowed) cs
  unfolding parse_block
  parse_block-IsPermitted inner allowed cs h =
      answered_calls allowed (calls_loop codec (suc (count inner)) allowed inner) cs
        (calls_loop-Answers (suc (count inner)) allowed inner (omega arith)) h

  -- The loops that read a block end: on any text, with the fuel that they are given for it, neither
  -- the loop over the calls nor the loop over the parameters runs out of it.
  pub parse_block-ends :
      (inner : String) (allowed : List String)
      → (calls_loop codec (suc (count inner)) allowed inner ≢ starved)
        × (params_loop codec (suc (count inner)) [] inner ≢ starved)
  parse_block-ends inner allowed = (
    λ e.
        subst (Answers (All (IsPermitted allowed))) e
          (calls_loop-Answers (suc (count inner)) allowed inner (omega arith)),
    params_loop-ends (suc (count inner)) [] inner (omega arith),
  )
