-- ===== src/Upstream/Tests/Streams.antt =====
-- A response with a call in it, in pieces and whole, and a stream of frames, and what the theorems say
-- of them.
use workbuddy2plus_plugin.Base.{
  ℕ, ℤ, pos, String, ◌≡◌, ◌≢◌, refl, ap, sym, lookup, Bool, false, true, ◌≤◌, ◌+◌, suc, none, some,
  List, [], ◌∷◌, Dict, All, length, str_eq, if◌then◌else◌, ◌==◌,
}
use workbuddy2plus_plugin.Pool.Tests.{whole}
use workbuddy2plus_plugin.Upstream.Json.{
  Json, Items, num, text, arr, obj, no_items, item, no_fields, field, value_at, list_at, as_list,
  as_map, as_text, as_num, text_at,
}
use workbuddy2plus_plugin.Upstream.Tools.{gather}
use workbuddy2plus_plugin.Upstream.Markup.Scan.{◌<>◌, after, count}
use workbuddy2plus_plugin.Upstream.Markup.Block.{
  Codec, parse_block, calls_loop, params_loop, starved,
}
use workbuddy2plus_plugin.Upstream.Markup.Permitted.{IsPermitted, parse_block-ends}
use workbuddy2plus_plugin.Upstream.Markup.Turns.{
  Piece, raw, visible, join_pieces, join_calls, concat, IsRead,
}
use workbuddy2plus_plugin.Upstream.Markup.{new_repair, enabled, feed_all, flush, Fed}
use workbuddy2plus_plugin.Upstream.Markup.Lossless.{feed_all-lossless, feed_all-IsPermitted}
use workbuddy2plus_plugin.Upstream.Markup.Response.{Wire, repair_aggregated_response}
use workbuddy2plus_plugin.Upstream.Markup.Response.Kept.{
  AllRepaired, repair_aggregated_response_lem,
}
use workbuddy2plus_plugin.Upstream.Frames.{failed, decoded}
use workbuddy2plus_plugin.Upstream.Frames.Names.{Once, AllSame, fragments}
use workbuddy2plus_plugin.Upstream.Frames.Stream.{strip_frames, strip_frames_lem}
use workbuddy2plus_plugin.Upstream.Aggregate.Calls.{
  Answer, call_at, next_tool_index, merge_tool_calls_chunk,
}
use workbuddy2plus_plugin.Upstream.Aggregate.{empty_answer}
use workbuddy2plus_plugin.Upstream.Aggregate.Merge.{next_tool_index_lem}
use workbuddy2plus_plugin.Upstream.Aggregate.Arguments.{
  arguments_at, fragments_for, HasIndex, merge_tool_calls_chunk-arguments,
}
use workbuddy2plus_plugin.Upstream.Aggregate.Added.{chunks_text, ChunkHasNoMessage}
use workbuddy2plus_plugin.Upstream.Aggregate.Text.{events, aggregate_lem}
use workbuddy2plus_plugin.Upstream.Aggregate.Finish.{
  Surroundings, empty_stream, response, response_of, aggregate,
}

-- An encoding that knows no value but texts, and writes whether there are arguments.
abbrev pub plain_codec : Codec ℕ
plain_codec = record {
  unmarshal = λ s. none;
  marshal = λ d. some (elim d [ [] ↦ "{}" | _ ↦ "{...}" ]);
}

abbrev block_text : String
block_text =
    " \n<｜｜DSML｜｜ invoke name=\"ls\">\n<｜｜DSML｜｜ parameter name=\"cmd\" string=\"true\">ls -la</｜｜DSML｜｜ parameter> </｜｜DSML｜｜ invoke>\n"

block_is_read :
    parse_block plain_codec block_text [] ≡ some (record { name = "ls"; arguments = "{...}" } ∷ [])
unfolding parse_block
block_is_read = refl

-- The opening and the closing tag are cut by the ends of the pieces.
abbrev pieces : List String
pieces =
    "see <｜｜DS" ∷ "ML｜｜ calls>\n<｜｜DSML｜｜ invoke name=\"ls\"></｜｜DSML｜｜ invoke></｜｜DSML｜｜ ca"
    ∷ "lls> done <" ∷ []

abbrev fed : Fed
fed = record {
  repair = record {
    allowed = [];
    allow_unknown = true;
    hold = "<";
    in_block = false;
    seen = 1;
    rejected = 0;
    converted = 1;
  };
  emit = "see  done ";
  calls = record { name = "ls"; arguments = "{}" } ∷ [];
}

pieces_are_fed : feed_all plain_codec (new_repair [] true) pieces ≡ some fed
unfolding feed_all new_repair
pieces_are_fed = refl

feed_all-lossless_example :
    (o : Fed) × (feed_all plain_codec (new_repair [] true) pieces ≡ some o)
    × ((ps : List Piece) × (concat pieces ≡ join_pieces raw ps <> (flush o.repair).0)
        × (o.emit ≡ join_pieces visible ps)
        × (o.calls ≡ join_calls ps)
        × All (IsRead plain_codec []) ps)
feed_all-lossless_example = feed_all-lossless plain_codec [] true pieces

feed_all-IsPermitted_example :
    All (IsPermitted []) fed.calls × (enabled (new_repair [] true) ≡ false → fed.calls ≡ [])
feed_all-IsPermitted_example = feed_all-IsPermitted plain_codec [] true pieces fed pieces_are_fed

parse_block-ends_example :
    (calls_loop plain_codec (suc (count block_text)) [] block_text ≢ starved)
    × (params_loop plain_codec (suc (count block_text)) [] block_text ≢ starved)
parse_block-ends_example = parse_block-ends plain_codec block_text []

abbrev pub numbered : Wire ℕ
numbered = record { number = λ n. n; call_id = λ n. "call_1" }

-- A response whose one choice says a block and has ended.
abbrev spoken : Dict (Json ℕ)
spoken =
    ("id", text "r1")
    ∷ (
      "choices",
      arr (
          item
            (obj (
              field "message"
                (obj (
                  field "content"
                    (text
                      "<｜｜DSML｜｜ calls><｜｜DSML｜｜ invoke name=\"ls\"></｜｜DSML｜｜ invoke></｜｜DSML｜｜ calls>")
                    no_fields))
                (field "finish_reason" (text "stop") no_fields)))
            no_items),
    )
    ∷ []

repair_aggregated_response_lem_example :
    AllRepaired numbered plain_codec []
      (list_at "choices" spoken)
      (list_at "choices" (repair_aggregated_response numbered plain_codec spoken [] true).0)
    × ((key : String)
        → str_eq "choices" key ≡ false
        → value_at key (repair_aggregated_response numbered plain_codec spoken [] true).0
          ≡ value_at key spoken)
repair_aggregated_response_lem_example =
    repair_aggregated_response_lem numbered plain_codec spoken [] true

-- A fragment of the call with an index, with a name and a part of its arguments.
abbrev fragment : ℕ → String → Json ℕ
fragment i part = obj (
    field "index" (num i) (
      field "function" (obj (field "name" (text "ls") (field "arguments" (text part) no_fields)))
        no_fields))

abbrev delta_frame : Items ℕ → Dict (Json ℕ)
delta_frame calls =
    (
      "choices",
      arr (
          item
            (obj (
              field "delta"
                (obj (field "content" (text "hm ") (field "tool_calls" (arr calls) no_fields)))
                no_fields))
            no_items),
    )
    ∷ []

abbrev frames : List (Dict (Json ℕ))
frames =
    delta_frame (item (fragment 0 "{") (item (fragment 1 "[") no_items))
    ∷ delta_frame (item (fragment 0 "}") no_items)
    ∷ []

strip_frames_lem_example :
    Once pos [] (gather fragments (strip_frames pos [] frames).0)
    × AllSame (gather fragments frames) (gather fragments (strip_frames pos [] frames).0)
strip_frames_lem_example = strip_frames_lem pos frames

abbrev two_calls : List (ℤ × String)
two_calls = (pos 0, "a") ∷ (pos 2, "b") ∷ []

next_tool_index_lem_example :
    (i : ℕ) × (next_tool_index (suc (length two_calls)) two_calls 0 ≡ some (i, i + 1))
    × (0 ≤ i)
    × (call_at (pos i) two_calls ≡ none)
next_tool_index_lem_example = next_tool_index_lem two_calls 0

abbrev parts : List (Json ℕ)
parts = fragment 0 "{" ∷ fragment 1 "[" ∷ fragment 0 "}" ∷ []

fragment-HasIndex : (i : ℕ) (part : String) → HasIndex (fragment i part)
unfolding as_map as_num value_at lookup
fragment-HasIndex i part call e =
    (i, ap (λ o. elim o [ none ↦ none | some c ↦ as_num (value_at "index" c) ]) (sym e))

parts-HasIndex : All HasIndex parts
parts-HasIndex = (fragment-HasIndex 0 "{", (fragment-HasIndex 1 "[", (fragment-HasIndex 0 "}", tt)))

merge_tool_calls_chunk-arguments_example :
    (b : Answer ℕ) × (merge_tool_calls_chunk whole parts (empty_answer whole) ≡ some b)
    × (arguments_at (pos 0) b
        ≡ arguments_at (pos 0) (empty_answer whole) <> fragments_for whole (pos 0) parts)
merge_tool_calls_chunk-arguments_example =
    merge_tool_calls_chunk-arguments whole (pos 0) parts (empty_answer whole) parts-HasIndex

-- Every data line but the end mark is the first frame.
abbrev surroundings : Surroundings ℕ
surroundings = record {
  decode = λ s. if str_eq s "{}" then decoded (delta_frame no_items) else failed;
  parses = λ s. true;
  fresh_id = "chatcmpl-1";
  now = 7;
}

abbrev lines : List String
lines = "data: {}" ∷ "" ∷ ": ping" ∷ "data: {}" ∷ "data: [DONE]" ∷ "data: {}" ∷ []

aggregate_lem_example :
    (a : Answer ℕ) × (done : Bool) × (aggregate whole surroundings lines
      ≡ some (
          if length (events surroundings.decode lines) == 0
          then empty_stream
          else response (response_of whole surroundings a done)))
    × (a.valid_events ≡ length (events surroundings.decode lines))
    × (All (ChunkHasNoMessage whole) (events surroundings.decode lines)
        → a.content ≡ chunks_text (events surroundings.decode lines))
aggregate_lem_example = aggregate_lem whole surroundings lines

two_events : chunks_text (events surroundings.decode lines) ≡ "hm hm "
unfolding after list_at value_at text_at as_list as_map as_text lookup
two_events = refl
