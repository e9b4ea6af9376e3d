-- ===== src/Upstream/Tools/Cleanup/Pairing.antt =====
-- internal/upstream/tool_pairing.go: what `cleanupOrphanToolCalls` leaves of a request.
use workbuddy2plus_plugin.Base.{
  String, ◌≡◌, ◌≢◌, refl, sym, ap, ◌∙◌, Bool, true, false, not, List, [], ◌∷◌, map, arith, str_eq,
  eq_iff, if◌then◌else◌, keep, some_of, Bool-cases, inl, inr,
}
use workbuddy2plus_plugin.Upstream.Json.{Json}
use workbuddy2plus_plugin.Upstream.Tools.{is_in, gather, call_id, calls_of, answers_of, bad_name}
use workbuddy2plus_plugin.Upstream.Tools.Members.{
  is_in-append, is_in-keep, keep-map, gather-keep, keep-gather, gather-map, gather-ext, map-same,
  keep-same,
}
use workbuddy2plus_plugin.Upstream.Tools.Cleanup.{
  is_empty, declared, answered, bad_names, keep_call, has_traffic, kept_calls, is_cut,
  clean_message, is_orphan, cleanup_orphan_tool_calls,
}
use workbuddy2plus_plugin.Upstream.Tools.Cleanup.Message.{
  calls_of-clean_message, answers_of-clean_message, orphan-calls_of, orphan-answers_of,
  clean_message-whole, is_cut-clean_message,
}

-- A list of no id but the empty one.
only_empty :
    (ids : List String) (id : String)
    → id ≢ ""
    → some_of (λ i. not (is_empty i)) ids ≡ false
    → is_in ids id ≡ false
only_empty [] id e n = refl
only_empty (i ∷ ids) id e n = ground (arith, only_empty ids id e, eq_iff i id, eq_iff i "", n)

module _ {F : Type 0} where
  -- What the two loops over the messages leave.
  abbrev pub swept : (String → Bool) → List (Json F) → List (Json F)
  swept kept ms = keep (λ m. not (is_orphan kept m)) (map (clean_message kept) ms)

  gather-calls_of-swept :
      (kept : String → Bool) (ms : List (Json F))
      → gather calls_of (swept kept ms) ≡ kept_calls kept (gather calls_of ms)
  unfolding kept_calls
  gather-calls_of-swept kept ms =
      gather-keep calls_of calls_of (λ m. not (is_orphan kept m)) (map (clean_message kept) ms)
        (orphan-calls_of kept)
      ∙ gather-map calls_of (clean_message kept) ms
      ∙ gather-ext _ _ ms (calls_of-clean_message kept)
      ∙ keep-gather (λ call. kept (call_id call)) calls_of ms

  declared-swept :
      (kept : String → Bool) (ms : List (Json F))
      → declared (swept kept ms) ≡ keep kept (declared ms)
  unfolding declared kept_calls
  declared-swept kept ms =
      ap (map call_id) (gather-calls_of-swept kept ms) ∙ keep-map call_id kept (gather calls_of ms)

  answered-swept :
      (kept : String → Bool) (ms : List (Json F))
      → answered (swept kept ms) ≡ keep kept (answered ms)
  unfolding answered
  answered-swept kept ms =
      gather-keep (λ m. keep kept (answers_of m)) answers_of (λ m. not (is_orphan kept m))
        (map (clean_message kept) ms) (orphan-answers_of kept)
      ∙ gather-map _ (clean_message kept) ms
      ∙ gather-ext _ _ ms (λ m. ap (keep kept) (answers_of-clean_message kept m))
      ∙ keep-gather kept answers_of ms

  -- A blank name is dropped with its call.
  bad_name-kept :
      (kept : String → Bool) (call : Json F)
      → (if kept (call_id call) then bad_name call else []) ≡ keep kept (bad_name call)
  unfolding bad_name call_id
  bad_name-kept kept call = ground arith

  bad_names-swept :
      (kept : String → Bool) (ms : List (Json F))
      → bad_names (swept kept ms) ≡ keep kept (bad_names ms)
  unfolding bad_names kept_calls
  bad_names-swept kept ms =
      ap (gather bad_name) (gather-calls_of-swept kept ms)
      ∙ gather-keep (λ c. keep kept (bad_name c)) bad_name (λ c. kept (call_id c))
          (gather calls_of ms) (bad_name-kept kept)
      ∙ keep-gather kept bad_name (gather calls_of ms)

  swept-same :
      (kept : String → Bool) (ms : List (Json F))
      → some_of (is_cut kept) ms ≡ false
      → some_of (is_orphan kept) ms ≡ false
      → swept kept ms ≡ ms
  swept-same kept ms n o =
      ap (keep (λ m. not (is_orphan kept m)))
        (map-same (clean_message kept) (is_cut kept) ms (clean_message-whole kept) n)
      ∙ keep-same (is_orphan kept) ms o

  pub cleanup-swept :
      (ms : List (Json F))
      → has_traffic ms ≡ true
      → (cleanup_orphan_tool_calls ms).0 ≡ swept (keep_call ms) ms
  unfolding cleanup_orphan_tool_calls
  cleanup-swept ms t = elim (Bool-cases (some_of (is_cut (keep_call ms)) ms)) [
    | inl y ↦ rw (t, y) refl
    | inr n ↦ elim (Bool-cases (some_of (is_orphan (keep_call ms)) ms)) [
      | inl y ↦ rw (t, n, y) refl
      | inr o ↦ rw (t, n, o) (sym (swept-same (keep_call ms) ms n o))
    ]
  ]

  -- Without tool traffic no id stands anywhere.
  pub no_traffic :
      (ms : List (Json F)) (id : String)
      → id ≢ ""
      → has_traffic ms ≡ false
      → (is_in (declared ms) id ≡ false) × (is_in (answered ms) id ≡ false)
  unfolding has_traffic
  no_traffic ms id e t = (
    only_empty (declared ms) id e (ground (arith, t)),
    only_empty (answered ms) id e (ground (arith, t)),
  )

  cleanup-no_traffic :
      (ms : List (Json F)) → has_traffic ms ≡ false → cleanup_orphan_tool_calls ms ≡ (ms, false)
  unfolding cleanup_orphan_tool_calls
  cleanup-no_traffic ms n = rw n refl

  cleanup-quiet :
      (ms : List (Json F)) → has_traffic ms ≡ false → (cleanup_orphan_tool_calls ms).0 ≡ ms
  unfolding cleanup_orphan_tool_calls
  cleanup-quiet ms n = rw n refl

  -- A blank name stands in a call that is declared.
  bad_names-declared :
      (calls : List (Json F)) (id : String)
      → is_in (map call_id calls) id ≡ false
      → is_in (gather bad_name calls) id ≡ false
  unfolding bad_name call_id
  bad_names-declared [] id n = refl
  bad_names-declared (c ∷ cs) id n =
      is_in-append (bad_name c) (gather bad_name cs) id
      ∙ ground (arith, n, bad_names-declared cs id)

  pub cleanup_orphan_tool_calls_lem :
      (ms : List (Json F)) (id : String)
      → id ≢ ""
      → (is_in (declared (cleanup_orphan_tool_calls ms).0) id ≡ keep_call ms id)
        × (is_in (answered (cleanup_orphan_tool_calls ms).0) id ≡ keep_call ms id)
        × (is_in (bad_names (cleanup_orphan_tool_calls ms).0) id ≡ false)
  unfolding keep_call declared bad_names
  cleanup_orphan_tool_calls_lem ms id e = elim (Bool-cases (has_traffic ms)) [
    | inl y ↦
        rw
          (
            cleanup-swept ms y,
            declared-swept (keep_call ms) ms,
            answered-swept (keep_call ms) ms,
            bad_names-swept (keep_call ms) ms,
            is_in-keep (keep_call ms) (declared ms) id,
            is_in-keep (keep_call ms) (answered ms) id,
            is_in-keep (keep_call ms) (bad_names ms) id,
          )
          (ground arith, ground arith, ground arith)
    | inr n ↦
        let q = no_traffic ms id e n in
        rw (cleanup-quiet ms n, q.0, q.1)
          (ground arith, ground arith, bad_names-declared (gather calls_of ms) id q.0)
  ]

  -- A second pass finds the same calls to keep.
  keep_call-again :
      (ms : List (Json F)) (id : String)
      → keep_call (cleanup_orphan_tool_calls ms).0 id ≡ keep_call ms id
  unfolding keep_call
  keep_call-again ms id = elim (Bool-cases (str_eq id "")) [
    | inl y ↦ rw y refl
    | inr n ↦
        let q =
          cleanup_orphan_tool_calls_lem ms id (λ e. absurd (ground (arith, e, n, eq_iff id ""))) in
        rw (n, q.0, q.1, q.2) (ground (arith, n))
  ]

  swept-settled :
      (kept : String → Bool) (ms : List (Json F))
      → (some_of (is_cut kept) (swept kept ms) ≡ false)
        × (some_of (is_orphan kept) (swept kept ms) ≡ false)
  swept-settled kept [] = (refl, refl)
  swept-settled kept (m ∷ ms) = elim (Bool-cases (is_orphan kept (clean_message kept m))) [
    | inl y ↦ rw y (swept-settled kept ms)
    | inr n ↦ rw (n, is_cut-clean_message kept m, n) (swept-settled kept ms)
  ]

  cleanup-settled :
      (ms : List (Json F))
      → some_of (is_cut (keep_call ms)) ms ≡ false
      → some_of (is_orphan (keep_call ms)) ms ≡ false
      → cleanup_orphan_tool_calls ms ≡ (ms, false)
  unfolding cleanup_orphan_tool_calls
  cleanup-settled ms n o = rw (n, o) (ground arith)

  -- The cleanup reaches its end in one pass: on its own outcome it changes nothing and says so.
  pub cleanup_orphan_tool_calls-again :
      (ms : List (Json F))
      → cleanup_orphan_tool_calls (cleanup_orphan_tool_calls ms).0
        ≡ ((cleanup_orphan_tool_calls ms).0, false)
  cleanup_orphan_tool_calls-again ms = elim (Bool-cases (has_traffic ms)) [
    | inr n ↦ rw (cleanup-quiet ms n) (cleanup-no_traffic ms n)
    | inl y ↦
        let s = swept-settled (keep_call ms) ms in
        cleanup-settled (cleanup_orphan_tool_calls ms).0
          ((λ i. some_of (is_cut (λ id. keep_call-again ms id i)) (cleanup-swept ms y i)) ∙ s.0)
          ((λ i. some_of (is_orphan (λ id. keep_call-again ms id i)) (cleanup-swept ms y i)) ∙ s.1)
  ]
