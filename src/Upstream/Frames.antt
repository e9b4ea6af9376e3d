-- ===== src/Upstream/Frames.antt =====
-- internal/upstream/sse.go: the frames of a stream, one by one, as `ChunkNormalizer` puts them out.
-- `stripToolCallNames` writes to the decoded frame in place, which is the frame's new value.
pub mod Names
pub mod Stream
use workbuddy2plus_plugin.Base.{
  ℕ, ℤ, pos, negsuc, String, Bool, true, false, not, ◌&&◌, ◌||◌, Option, none, some, List, [], ◌∷◌,
  ltb, if◌then◌else◌, length, str_eq, Dict, lookup, insert, delete, ◌==◌, some_of,
}
use workbuddy2plus_plugin.Upstream.Json.{
  Json, null, flag, num, text, arr, obj, maps, as_map, as_list, as_text, as_num, value_at, text_at,
  list_at, of_list, of_map, items, fields,
}

abbrev pub same_index : ℤ → ℤ → Bool
same_index (pos a) (pos b) = a == b
same_index (pos a) (negsuc b) = false
same_index (negsuc a) (pos b) = false
same_index (negsuc a) (negsuc b) = a == b

-- `seen[idx]`
abbrev pub is_seen : List ℤ → ℤ → Bool
is_seen seen idx = some_of (λ i. same_index i idx) seen

module _ {F : Type 0} where
  unfoldable pub without_name : Dict (Json F) → Dict (Json F)
  without_name tc = elim (as_map (value_at "function" tc)) [
    | none ↦ tc
    | some fn ↦ insert "function" (of_map (delete "name" fn)) tc
  ]

module _ {F : Type 0} (to_int : F → ℤ) where
  -- `int(tc["index"].(float64))`, or 0.
  unfoldable pub index_of : Dict (Json F) → ℤ
  index_of tc = elim (as_num (value_at "index" tc)) [ none ↦ pos 0 | some v ↦ to_int v ]

  unfoldable pub strip_call : List ℤ → Json F → Json F × List ℤ
  unfolding index_of without_name
  strip_call seen tci = elim (as_map tci) [
    | none ↦ (tci, seen)
    | some tc ↦
        if is_seen seen (index_of tc)
        then (of_map (without_name tc), seen)
        else (tci, index_of tc ∷ seen)
  ]

  -- The loop over the calls of one delta.
  unfoldable pub strip_calls : List ℤ → List (Json F) → List (Json F) × List ℤ
  unfolding strip_call
  strip_calls seen [] = ([], seen)
  strip_calls seen (tci ∷ tcs) =
      let one = strip_call seen tci in let rest = strip_calls one.1 tcs in (one.0 ∷ rest.0, rest.1)

  unfoldable pub strip_choice : List ℤ → Json F → Json F × List ℤ
  unfolding strip_calls
  strip_choice seen ci = elim (as_map ci) [
    | none ↦ (ci, seen)
    | some c ↦ elim (as_map (value_at "delta" c)) [
      | none ↦ (ci, seen)
      | some delta ↦ elim (as_list (value_at "tool_calls" delta)) [
        | none ↦ (ci, seen)
        | some tcs ↦
            let done = strip_calls seen tcs in
            (
              of_map (insert "delta" (of_map (insert "tool_calls" (of_list done.0) delta)) c),
              done.1,
            )
      ]
    ]
  ]

  unfoldable pub strip_choices : List ℤ → List (Json F) → List (Json F) × List ℤ
  unfolding strip_choice
  strip_choices seen [] = ([], seen)
  strip_choices seen (ci ∷ cs) =
      let one = strip_choice seen ci in
      let rest = strip_choices one.1 cs in (one.0 ∷ rest.0, rest.1)

  unfoldable pub strip_tool_call_names : Dict (Json F) → List ℤ → Dict (Json F) × List ℤ
  unfolding strip_choices
  strip_tool_call_names frame seen = elim (as_list (value_at "choices" frame)) [
    | none ↦ (frame, seen)
    | some cs ↦
        let done = strip_choices seen cs in (insert "choices" (of_list done.0) frame, done.1)
  ]

module _ {F : Type 0} where
  abbrev pub is_null : Json F → Bool
  is_null null = true
  is_null (flag b) = false
  is_null (num x) = false
  is_null (text s) = false
  is_null (arr xs) = false
  is_null (obj fs) = false
  is_null (maps rs) = false

  -- `if v, ok := d[k].(string); ok && v != "" { out[k] = v }`
  unfoldable pub copy_text : String → Dict (Json F) → Dict (Json F) → Dict (Json F)
  copy_text key d out =
      if str_eq (text_at key d) "" then out else insert key (text (text_at key d)) out

  -- `if v, ok := obj[k]; ok && v != nil { out[k] = v }`
  unfoldable pub copy_value : String → Dict (Json F) → Dict (Json F) → Dict (Json F)
  copy_value key d out = if is_null (value_at key d) then out else insert key (value_at key d) out

  -- Whether a `function_call` says something.
  unfoldable pub keeps_function_call : Json F → Bool
  keeps_function_call fc = elim (as_map fc) [
    | none ↦ not (is_null fc)
    | some m ↦ not (str_eq (text_at "name" m) "") || not (str_eq (text_at "arguments" m) "")
  ]

  unfoldable pub normalize_delta : Dict (Json F) → Dict (Json F)
  unfolding copy_text keeps_function_call
  normalize_delta d =
      let texts =
        copy_text "refusal" d
          (copy_text "reasoning_content" d (copy_text "content" d (copy_text "role" d []))) in
      let calls =
        if ltb 0 (length (list_at "tool_calls" d))
        then insert "tool_calls" (value_at "tool_calls" d) texts
        else texts in
      if keeps_function_call (value_at "function_call" d)
      then insert "function_call" (value_at "function_call" d) calls
      else calls

  unfoldable pub delta_of : Dict (Json F) → Dict (Json F)
  unfolding normalize_delta
  delta_of c = elim (as_map (value_at "delta" c)) [ none ↦ [] | some d ↦ normalize_delta d ]

  unfoldable pub finish_of : Dict (Json F) → Json F
  finish_of c =
      if str_eq (text_at "finish_reason" c) "" then null else text (text_at "finish_reason" c)

  unfoldable pub normalize_choice : Dict (Json F) → Dict (Json F)
  unfolding delta_of finish_of
  normalize_choice c = insert "finish_reason" (finish_of c) (
      insert "delta" (of_map (delta_of c))
        (elim (lookup "index" c) [ none ↦ [] | some idx ↦ insert "index" idx [] ]))

  unfoldable pub normalize_choices : List (Json F) → List (Json F)
  unfolding normalize_choice
  normalize_choices [] = []
  normalize_choices (ci ∷ cs) = elim (as_map ci) [
    | none ↦ normalize_choices cs
    | some c ↦ of_map (normalize_choice c) ∷ normalize_choices cs
  ]

  abbrev pub or_default : String → String → Dict (Json F) → Dict (Json F)
  or_default key s out = elim (lookup key out) [ none ↦ insert key (text s) out | some v ↦ out ]

  unfoldable pub normalize_head : Dict (Json F) → Dict (Json F)
  unfolding copy_value
  normalize_head d = or_default "id" "chatcmpl-wb2api" (
      or_default "object" "chat.completion.chunk" (
        copy_value "service_tier" d (
          copy_value "system_fingerprint" d (
            copy_value "model" d
              (copy_value "created" d (copy_value "object" d (copy_value "id" d [])))))))

  unfoldable pub with_choices : Dict (Json F) → Dict (Json F) → Dict (Json F)
  unfolding normalize_choices
  with_choices d out = elim (as_list (value_at "choices" d)) [
    | none ↦ out
    | some cs ↦ insert "choices" (of_list (normalize_choices cs)) out
  ]

  unfoldable pub normalize_frame : Dict (Json F) → Dict (Json F)
  unfolding normalize_head with_choices
  normalize_frame d = insert "usage" (value_at "usage" d) (with_choices d (normalize_head d))

-- What `json.Unmarshal` into a `map[string]any` leaves: an error, the map, or the nil map of a null.
pub data Decoded (F : Type 0) : Type 0 where
  failed : Decoded F
  nil_map : Decoded F
  decoded : Dict (Json F) → Decoded F

-- The package encoding/json, for a frame.
pub record FrameCodec (F : Type 0) : Type 0 where
  pub decode : String → Decoded F
  pub encode : Dict (Json F) → Option String

pub record Normalizer : Type 0 where
  pub tool_call_seen : List ℤ
  pub first_id : String

abbrev pub new_normalizer : Normalizer
new_normalizer = record { tool_call_seen = []; first_id = "" }

-- The answer of `Normalize`; a write to the nil map is a panic.
pub data Reply : Type 0 where
  reply : String → Bool → Bool → Reply
  panics : Reply

module _ {F : Type 0} where
  -- The id of the stream: the first one that is not empty; a frame without one gets it.
  unfoldable pub carry_id : String → Dict (Json F) → String × Dict (Json F)
  carry_id first d =
      if str_eq first ""
      then (text_at "id" d, d)
      else if str_eq (text_at "id" d) ""
      then (first, insert "id" (text first) d)
      else (first, d)

  unfoldable pub encoded : FrameCodec F → String → Dict (Json F) → Reply
  unfolding normalize_frame
  encoded codec payload d = elim (codec.encode (normalize_frame d)) [
    | some raw ↦ reply raw true false
    | none ↦ reply payload true false
  ]

  unfoldable pub normalize : FrameCodec F → (F → ℤ) → Normalizer → String → Normalizer × Reply
  unfolding strip_tool_call_names carry_id encoded
  normalize codec to_int n payload =
      if str_eq payload "[DONE]" then (n, reply "" false true) else elim (codec.decode payload) [
        | failed ↦ (n, reply payload false false)
        | nil_map ↦ if str_eq n.first_id "" then (n, encoded codec payload []) else (n, panics)
        | decoded d ↦ elim (lookup "error" d) [
          | some e ↦ (n, reply payload true false)
          | none ↦
              let stripped = strip_tool_call_names to_int d n.tool_call_seen in
              let carried = carry_id n.first_id stripped.0 in
              (
                record { tool_call_seen = stripped.1; first_id = carried.0 },
                encoded codec payload carried.1,
              )
        ]
      ]
