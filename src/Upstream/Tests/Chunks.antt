-- ===== src/Upstream/Tests/Chunks.antt =====
-- A stream whose chunk says a whole block of a call, and what the theorems say of its frames.
use workbuddy2plus_plugin.Base.{
  ℕ, pos, String, ◌≡◌, ◌⊎◌, refl, false, ◌||◌, some, none, List, [], ◌∷◌, Dict, length, str_eq, ltb,
  if◌then◌else◌, lookup, insert,
}
use workbuddy2plus_plugin.Upstream.Json.{
  Json, text, obj, arr, item, no_items, field, no_fields, value_at, list_at, text_at, as_map,
  as_list, as_text, of_list, of_map,
}
use workbuddy2plus_plugin.Upstream.Markup.Block.{MarkupCall}
use workbuddy2plus_plugin.Upstream.Markup.Response.{markup_tool_calls}
use workbuddy2plus_plugin.Upstream.Frames.{FrameCodec, failed, nil_map, decoded}
use workbuddy2plus_plugin.Upstream.Chunks.Build.{ChunkContext, chunk_frames}
use workbuddy2plus_plugin.Upstream.Chunks.Says.{Say, ending_after}
use workbuddy2plus_plugin.Upstream.Chunks.Repaired.{chunk_frames_lem}
use workbuddy2plus_plugin.Upstream.Chunks.{
  MarkupChunkNormalizer, Sent, sent, panicked, new_markup_chunk_normalizer, normalize_frames,
}
use workbuddy2plus_plugin.Upstream.Chunks.Total.{Answered, Decodes, IsNilMap, normalize_frames_lem}
use workbuddy2plus_plugin.Upstream.Aggregate.Added.{chunks_text}
use workbuddy2plus_plugin.Upstream.Tests.Streams.{plain_codec, numbered}

abbrev spoken_delta : Dict (Json ℕ)
spoken_delta =
    (
      "content",
      text "hm <｜｜DSML｜｜ calls><｜｜DSML｜｜ invoke name=\"ls\"></｜｜DSML｜｜ invoke></｜｜DSML｜｜ calls>",
    )
    ∷ []

abbrev chunk : Dict (Json ℕ)
chunk =
    ("id", text "r1")
    ∷ (
      "choices",
      arr (
          item
            (obj (
              field "delta"
                (obj (
                  field "content"
                    (text
                      "hm <｜｜DSML｜｜ calls><｜｜DSML｜｜ invoke name=\"ls\"></｜｜DSML｜｜ invoke></｜｜DSML｜｜ calls>")
                    no_fields))
                (field "finish_reason" (text "stop") no_fields)))
            no_items),
    )
    ∷ []

-- It knows the chunk and the null, and writes every frame in the same way.
abbrev frame_codec : FrameCodec ℕ
frame_codec = record {
  decode =
      λ s. if str_eq s "{}" then decoded chunk else if str_eq s "null" then nil_map else failed;
  encode = λ d. some "{}";
}

abbrev context : ChunkContext ℕ
context = record { frames = frame_codec; blocks = plain_codec; wire = numbered; to_int = pos }

some_text : {a b : String} → some a ≡ some b → a ≡ b
some_text h = cc

codec-Decodes : Decodes frame_codec
codec-Decodes d raw e = (chunk, rw⁻¹ (some_text e) refl)

abbrev started : MarkupChunkNormalizer ℕ
started = record {
  normalizer = record { tool_call_seen = []; first_id = "r1" };
  repair = none;
  last = [];
  next_index = 0;
  finished = false;
}

abbrev fresh : MarkupChunkNormalizer ℕ
fresh = new_markup_chunk_normalizer none

normalize_frames_lem_example :
    (Answered (normalize_frames context fresh "{}")
      × ¬ (IsNilMap frame_codec "{}" × (str_eq fresh.normalizer.first_id "" ≡ false)))
    ⊎ ((normalize_frames context fresh "{}" ≡ panicked)
        × IsNilMap frame_codec "{}"
        × (str_eq fresh.normalizer.first_id "" ≡ false))
normalize_frames_lem_example = normalize_frames_lem context codec-Decodes fresh "{}"

null_panics : normalize_frames context started "null" ≡ panicked
unfolding normalize_frames
null_panics = refl

-- The text, the call and the ending go out as three frames.
abbrev frames_of : Sent ℕ → List String
frames_of (sent n out valid done) = out
frames_of panicked = []
frames_of Sent.stuck = []

chunk_is_sent : frames_of (normalize_frames context fresh "{}") ≡ "{}" ∷ "{}" ∷ "{}" ∷ []
unfolding normalize_frames new_markup_chunk_normalizer lookup list_at as_list value_at as_map
    text_at as_text
chunk_is_sent = refl

abbrev ls : MarkupCall
ls = record { name = "ls"; arguments = "{}" }

abbrev choice : Dict (Json ℕ)
choice =
    ("delta", obj (field "content" (text "hm <") no_fields)) ∷ ("finish_reason", text "stop") ∷ []

abbrev said : Dict (Json ℕ)
said = ("content", text "hm <") ∷ []

choice-delta : as_map (value_at "delta" choice) ≡ some said
unfolding as_map value_at lookup
choice-delta = refl

said-calls : list_at "tool_calls" said ≡ []
unfolding list_at value_at lookup as_list
said-calls = refl

chunk_frames_lem_example :
    Say
      (chunk_frames context chunk choice 1 "hm " (ls ∷ []) (text_at "finish_reason" choice))
      "hm "
      (markup_tool_calls numbered (ls ∷ []) 1)
      (ending_after (ltb 0 (length (ls ∷ [])) || ltb 0 1) (text_at "finish_reason" choice))
chunk_frames_lem_example =
    chunk_frames_lem context chunk choice said 1 "hm " (ls ∷ []) choice-delta said-calls

-- What `Flush` gave back is in no frame, if the last chunk has no delta.
held_is_lost :
    chunks_text (chunk_frames context chunk (("finish_reason", text "stop") ∷ []) 0 "<" [] "stop")
    ≡ ""
unfolding chunk_frames lookup list_at as_list value_at as_map text_at as_text insert of_list of_map
held_is_lost = refl
