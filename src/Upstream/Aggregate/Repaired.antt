-- ===== src/Upstream/Aggregate/Repaired.antt =====
-- internal/upstream/sse.go and dsml.go, as plugin/wb_upstream.go calls them: the message of `Aggregate`
-- before `RepairAggregatedResponse`. Its calls are a `[]map[string]any`, which the repair does not
-- take for calls.
use workbuddy2plus_plugin.Base.{
  String, ◌≡◌, refl, ap, ◌∙◌, Bool, true, false, none, some, inl, inr, Bool-cases, [], ◌∷◌, length,
  ◌==◌, Dict, insert, lookup, str_eq, if◌then◌else◌,
}
use workbuddy2plus_plugin.Upstream.Json.{
  Json, text, as_list, as_text, value_at, text_at, text_of, list_at-none, value_at-insert,
  as_list-of_maps,
}
use workbuddy2plus_plugin.Upstream.Texts.{contains}
use workbuddy2plus_plugin.Upstream.Markup.Block.{markup_pipe}
use workbuddy2plus_plugin.Upstream.Markup.Response.{repairable}
use workbuddy2plus_plugin.Upstream.Aggregate.Calls.{Answer}
use workbuddy2plus_plugin.Upstream.Aggregate.Finish.{final_calls, message_of}

module _ {F : Type 0} (parses : String → Bool) (saw_done : Bool) (a : Answer F) where
  -- The message without its calls.
  abbrev spoken : Dict (Json F)
  spoken = ("role", text a.role) ∷ ("content", text a.content) ∷ []

  abbrev reasoned : Dict (Json F)
  reasoned =
      if str_eq a.reasoning "" then spoken else insert "reasoning_content" (text a.reasoning) spoken

  value_at-reasoned :
      (key : String)
      → str_eq "reasoning_content" key ≡ false
      → value_at key reasoned ≡ value_at key spoken
  value_at-reasoned key n = elim (Bool-cases (str_eq a.reasoning "")) [
    | inl e ↦ rw e refl
    | inr e ↦ rw e (value_at-insert "reasoning_content" key (text a.reasoning) spoken ∙ rw n refl)
  ]

  as_list-spoken : as_list (value_at "tool_calls" spoken) ≡ none
  unfolding value_at lookup as_list
  as_list-spoken = refl

  text-spoken : text_of (value_at "content" spoken) ≡ a.content
  unfolding value_at lookup as_text
  text-spoken = refl

  as_list-message_of : as_list (value_at "tool_calls" (message_of parses saw_done a)) ≡ none
  unfolding message_of
  as_list-message_of = elim (Bool-cases (length (final_calls parses saw_done a) == 0)) [
    | inl z ↦ rw (z, message_of) (ap as_list (value_at-reasoned "tool_calls" refl) ∙ as_list-spoken)
    | inr z ↦
        rw (z, message_of)
          (ap as_list (value_at-insert "tool_calls" "tool_calls" _ reasoned) ∙ as_list-of_maps _)
  ]

  text_at-message_of : text_at "content" (message_of parses saw_done a) ≡ a.content
  unfolding message_of text_at
  text_at-message_of = elim (Bool-cases (length (final_calls parses saw_done a) == 0)) [
    | inl z ↦ rw (z, message_of) (ap text_of (value_at-reasoned "content" refl) ∙ text-spoken)
    | inr z ↦
        rw (z, message_of)
          (ap text_of
              (value_at-insert "tool_calls" "content" _ reasoned ∙ value_at-reasoned "content" refl)
            ∙ text-spoken)
  ]

  -- Whatever calls the message has, its text is repaired if it ended by itself and has the mark of a
  -- block, so that the calls made of the text replace the others.
  repairable-message_of :
      (c : Dict (Json F))
      → text_at "finish_reason" c ≡ "stop"
      → str_eq a.content "" ≡ false
      → contains a.content markup_pipe ≡ true
      → repairable c (message_of parses saw_done a) ≡ some a.content
  unfolding repairable
  repairable-message_of c s e m =
      rw
        (
          list_at-none "tool_calls" (message_of parses saw_done a) as_list-message_of,
          s,
          text_at-message_of,
          repairable,
        )
        (rw (e, m) refl)
