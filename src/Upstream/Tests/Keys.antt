-- ===== src/Upstream/Tests/Keys.antt =====
-- A request without a key for the cache, and what the theorem says of it.
use workbuddy2plus_plugin.Base.{
  ℕ, String, ◌≡◌, refl, false, some, [], ◌∷◌, if◌then◌else◌, str_eq, Dict, lookup, insert,
}
use workbuddy2plus_plugin.Session.{or_else}
use workbuddy2plus_plugin.Upstream.Json.{Json, text, value_at, text_at, as_text}
use workbuddy2plus_plugin.Upstream.Frames.{FrameCodec, failed, decoded}
use workbuddy2plus_plugin.Upstream.CacheKey.{
  head_of, KeepsValues, with_cache_key, build_cache_key, key_source, inject_prompt_cache_key,
  inject_prompt_cache_key_lem,
}

abbrev spoken_in : Dict (Json ℕ)
spoken_in = ("model", text "m") ∷ ("conversation_id", text " c1 ") ∷ []

abbrev hash : String → String
hash s = s

abbrev keyed : Dict (Json ℕ)
keyed =
    ("model", text "m")
    ∷ ("conversation_id", text " c1 ")
    ∷ ("prompt_cache_key", text "wb2a-12345678-1234567890|c1")
    ∷ []

-- It knows the request without the key, and with it.
abbrev key_codec : FrameCodec ℕ
key_codec = record {
  decode = λ s.
      if str_eq s "{}"
      then decoded spoken_in
      else if str_eq s "{...}"
      then decoded keyed
      else failed;
  encode = λ d. some "{...}";
}

key_is_made : with_cache_key hash "1234567890" "" spoken_in ≡ keyed
unfolding with_cache_key text_at value_at lookup as_text insert
key_is_made = refl

codec-KeepsValues : KeepsValues key_codec hash (with_cache_key hash "1234567890" "" spoken_in)
codec-KeepsValues = ("{...}", keyed, refl, refl, λ key. rw key_is_made refl)

inject_prompt_cache_key_lem_example :
    (out : String) × (d : Dict (Json ℕ)) × (inject_prompt_cache_key key_codec hash "1234567890" ""
        "{}"
      ≡ some out)
    × (key_codec.decode out ≡ decoded d)
    × (text_at "prompt_cache_key" d
        ≡ or_else
            (text_at "prompt_cache_key" spoken_in)
            (build_cache_key hash "1234567890" (key_source "" spoken_in)))
    × ((key : String)
        → str_eq "prompt_cache_key" key ≡ false
        → value_at key d ≡ value_at key spoken_in)
inject_prompt_cache_key_lem_example =
    inject_prompt_cache_key_lem key_codec hash "1234567890" "" "{}" spoken_in codec-KeepsValues refl
      refl

-- The ninth byte is inside of the third code point.
cut_inside : head_of 8 "账号键" ≡ "账号��"
unfolding head_of
cut_inside = refl
