-- ===== src/Upstream/Chunks.antt =====
-- internal/upstream/markup_chunks.go: `MarkupChunkNormalizer`, the frames of a stream with the calls
-- in its text repaired, over `Feed` of dsml.go and `Normalize` of sse.go. A nil map is an empty one
-- where it is only read; a repair that is none is the nil pointer.
use mathlib.Core.Option
use workbuddy2plus_plugin.Base.{
  ℕ, ℤ, ◌+◌, String, Bool, true, false, not, ◌&&◌, ◌||◌, Option, none, some, List, [], ◌∷◌, ◌++◌,
  ltb, if◌then◌else◌, length, str_eq, Dict, lookup, insert, delete, ◌==◌, some_of,
}
use workbuddy2plus_plugin.Upstream.Json.{
  Json, num, text, as_map, value_at, text_at, list_at, of_list, of_map,
}
use workbuddy2plus_plugin.Upstream.Markup.Scan.{◌<>◌}
use workbuddy2plus_plugin.Upstream.Markup.Block.{MarkupCall, Codec}
use workbuddy2plus_plugin.Upstream.Markup.Allowlist.{RequestSpec, tool_name_allowlist}
use workbuddy2plus_plugin.Upstream.Markup.{Repair, Fed, new_repair, enabled, feed, flush}
use workbuddy2plus_plugin.Upstream.Markup.Response.{Wire, markup_tool_calls}
use workbuddy2plus_plugin.Upstream.Frames.{
  FrameCodec, failed, nil_map, decoded, Normalizer, new_normalizer, Reply, reply, panics, normalize,
  copy_value,
}
pub mod Build
pub mod Total
pub mod Says
pub mod Repaired
use workbuddy2plus_plugin.Upstream.Chunks.Build.{
  ChunkContext, put_content, with_choice, frame_with, finish_choice, call_delta, call_choice,
  markup_call_frame, finish_only_frame, tail_frame, call_frames, end_frames, chunk_frames,
}

pub record MarkupChunkNormalizer (F : Type 0) : Type 0 where
  pub normalizer : Normalizer
  pub repair : Option Repair
  pub last : Dict (Json F)
  pub next_index : ℕ
  pub finished : Bool

-- The answer of `NormalizeFrames` with the state after it: the frames, `valid` and `done`. A write to
-- a nil map is a panic, and `stuck` is that the loop of `Feed` runs out of fuel.
pub data Sent (F : Type 0) : Type 0 where
  sent : MarkupChunkNormalizer F → List String → Bool → Bool → Sent F
  panicked : Sent F
  stuck : Sent F

unfoldable pub repair_enabled : Option Repair → Bool
unfolding enabled
repair_enabled none = false
repair_enabled (some r) = enabled r

unfoldable pub new_markup_chunk_normalizer :
    {F : Type 0} → Option RequestSpec → MarkupChunkNormalizer F
unfolding tool_name_allowlist new_repair
new_markup_chunk_normalizer req =
    let allowed = tool_name_allowlist req in
    record {
      normalizer = new_normalizer;
      repair = some (new_repair allowed (length allowed == 0));
      last = [];
      next_index = 0;
      finished = false;
    }

module _ {F : Type 0} where
  -- `m, _ := d[k].(map[string]any)`
  unfoldable pub map_at : String → Dict (Json F) → Dict (Json F)
  map_at key d = elim (as_map (value_at key d)) [ none ↦ [] | some m ↦ m ]

  unfoldable pub carries_calls : Json F → Bool
  unfolding map_at
  carries_calls ci = elim (as_map ci) [
    | none ↦ false
    | some c ↦ ltb 0 (length (list_at "tool_calls" (map_at "delta" c)))
  ]

module _ {F : Type 0} (ctx : ChunkContext F) where
  -- One round of `encode`: the normalizer after it, and its frames. None is a panic.
  unfoldable pub encode_object : Normalizer → Dict (Json F) → Option (Normalizer × List String)
  unfolding normalize
  encode_object nz d = elim (ctx.frames.encode d) [
    | none ↦ some (nz, [])
    | some raw ↦
        let x = normalize ctx.frames ctx.to_int nz raw in
        elim x.1 [
          | reply out valid done ↦ some (x.0, (if str_eq out "" then [] else out ∷ []))
          | panics ↦ none
        ]
  ]

  unfoldable pub encode : Normalizer → List (Dict (Json F)) → Option (Normalizer × List String)
  unfolding encode_object
  encode nz [] = some (nz, [])
  encode nz (d ∷ ds) = elim (encode_object nz d) [
    | none ↦ none
    | some (n1, out) ↦ Option.map (λ r. (r.0, out ++ r.1)) (encode n1 ds)
  ]

  -- `n.encode(objects)`, and what is done with its frames.
  unfoldable pub after_encode :
      MarkupChunkNormalizer F
      → List (Dict (Json F))
      → (MarkupChunkNormalizer F → List String → Sent F)
      → Sent F
  unfolding encode
  after_encode n ds next = elim (encode n.normalizer ds) [
    | none ↦ panicked
    | some (nz, out) ↦ next (record n { normalizer = nz }) out
  ]

  -- The frames of `FlushFrames`, with the state that it leaves.
  unfoldable pub flush_objects :
      MarkupChunkNormalizer F → Repair → MarkupChunkNormalizer F × List (Dict (Json F))
  unfolding flush tail_frame finish_only_frame
  flush_objects n r =
      let tail = flush r in
      let said = if str_eq tail.0 "" then [] else tail_frame ctx n.last tail.0 ∷ [] in
      if ltb 0 n.next_index && not n.finished
      then (
        record n { repair = some tail.1; finished = true },
        said ++ (finish_only_frame ctx n.last "tool_calls" ∷ []),
      )
      else (record n { repair = some tail.1 }, said)

  -- `FlushFrames`, and what is done with its frames.
  unfoldable pub after_flush :
      MarkupChunkNormalizer F → (MarkupChunkNormalizer F → List String → Sent F) → Sent F
  unfolding flush_objects after_encode enabled
  after_flush n next = elim n.repair [
    | none ↦ next n []
    | some r ↦
        if enabled r
        then after_encode (flush_objects n r).0 (flush_objects n r).1 next
        else next n []
  ]

  unfoldable pub flush_frames : MarkupChunkNormalizer F → Sent F
  unfolding after_flush
  flush_frames n = after_flush n (λ n1 out. sent n1 out false true)

  -- The frames before, and then the payload as `Normalize` alone puts it out.
  unfoldable pub pass : MarkupChunkNormalizer F → List String → String → Sent F
  unfolding normalize
  pass n before payload =
      let x = normalize ctx.frames ctx.to_int n.normalizer payload in
      elim x.1 [
        | reply out valid done ↦
            sent (record n { normalizer = x.0 }) (before ++ (out ∷ [])) valid done
        | panics ↦ panicked
      ]

  unfoldable pub fall_back : MarkupChunkNormalizer F → String → Sent F
  unfolding after_flush pass
  fall_back n payload = after_flush n (λ n1 out. pass (record n1 { repair = none }) out payload)

  unfoldable pub plain_frame : MarkupChunkNormalizer F → Dict (Json F) → Sent F
  unfolding after_encode
  plain_frame n d = after_encode n (d ∷ []) (λ n1 out. sent n1 out true false)

  -- What `Feed` gave of a chunk, with the rest that `Flush` gives if the chunk ends the stream.
  unfoldable pub repaired_frame :
      MarkupChunkNormalizer F → Dict (Json F) → Dict (Json F) → Fed → Sent F
  unfolding flush chunk_frames after_encode
  repaired_frame n d c o =
      let finish = text_at "finish_reason" c in
      let ends = not (str_eq finish "") in
      let tail = if ends then flush o.repair else ("", o.repair) in
      after_encode
        (record n {
          repair = some tail.1;
          next_index = n.next_index + length o.calls;
          finished = n.finished || ends;
        })
        (chunk_frames ctx d c n.next_index (o.emit <> tail.0) o.calls finish)
        (λ n1 out. sent n1 out true false)

  unfoldable pub repair_frame :
      MarkupChunkNormalizer F → Dict (Json F) → Repair → List (Json F) → Sent F
  unfolding plain_frame feed repaired_frame map_at
  repair_frame n d r [] = plain_frame n d
  repair_frame n d r (ci ∷ []) = elim (as_map ci) [
    | none ↦ plain_frame n d
    | some c ↦ elim (feed ctx.blocks r (text_at "content" (map_at "delta" c))) [
      | none ↦ stuck
      | some o ↦ repaired_frame n d c o
    ]
  ]
  repair_frame n d r (ci ∷ cj ∷ cs) = plain_frame n d

  unfoldable pub single_frame : MarkupChunkNormalizer F → Dict (Json F) → Sent F
  unfolding plain_frame repair_frame enabled
  single_frame n d = elim n.repair [
    | none ↦ plain_frame n d
    | some r ↦ if enabled r then repair_frame n d r (list_at "choices" d) else plain_frame n d
  ]

  unfoldable pub decoded_frame : MarkupChunkNormalizer F → String → Dict (Json F) → Sent F
  unfolding after_flush fall_back single_frame carries_calls
  decoded_frame n payload d = elim (lookup "error" d) [
    | some e ↦ after_flush n (λ n1 out. sent n1 (out ++ (payload ∷ [])) true false)
    | none ↦
        if ltb 1 (length (list_at "choices" d)) || some_of carries_calls (list_at "choices" d)
        then fall_back n payload
        else single_frame n d
  ]

  unfoldable pub normalize_frames : MarkupChunkNormalizer F → String → Sent F
  unfolding flush_frames pass decoded_frame
  normalize_frames n payload =
      if str_eq payload "[DONE]" then flush_frames n else elim (ctx.frames.decode payload) [
        | failed ↦ pass n [] payload
        | nil_map ↦ pass n [] payload
        | decoded d ↦ decoded_frame (record n { last = d }) payload d
      ]
