-- ===== src/Upstream/CacheKey.antt =====
-- internal/upstream/cache_key.go: the key of the cache that a request is sent with. The hash is a
-- parameter; `len` counts bytes.
use Prim.Native.String.{len}
use workbuddy2plus_plugin.Base.{
  ℕ, zero, suc, ◌-◌, leb, String, ◌≡◌, refl, ap, ◌∙◌, inl, inr, false, Option, none, some,
  if◌then◌else◌, str_eq, Dict, insert, ltb, Bool-cases,
}
use workbuddy2plus_plugin.Session.{or_else}
use workbuddy2plus_plugin.Upstream.Json.{
  Json, text, value_at, text_at, text_of, as_text, value_at-insert,
}
use workbuddy2plus_plugin.Upstream.Texts.{trim}
use workbuddy2plus_plugin.Upstream.Markup.Scan.{◌<>◌}
use workbuddy2plus_plugin.Upstream.Frames.{FrameCodec, failed, nil_map, decoded}

-- The character that encoding/json writes for a byte that is part of no code point.
abbrev replacements : ℕ → String
replacements zero = ""
replacements (suc n) = "�" <> replacements n

-- `s[:n]`, as it is encoded: a code point that the cut splits leaves n bytes or fewer, each of which
-- is replaced.
unfoldable pub head_of : ℕ → String → String
head_of n String.[] = ""
head_of n (String.◌∷◌ c s) =
    let width = len (String.◌∷◌ c "") in
    let rest = head_of (n - width) s in if leb width n then String.◌∷◌ c rest else replacements n

module _ (hash_16 : String → String) where
  unfoldable pub build_cache_key : String → String → String
  unfolding head_of or_else
  build_cache_key uid conversation =
      let uid8 = or_else (if ltb 8 (len uid) then head_of 8 uid else uid) "-" in
      "wb2a-" <> (uid8 <> ("-" <> hash_16 (uid <> ("|" <> conversation))))

module _ {F : Type 0} where
  unfoldable pub str_field : Dict (Json F) → String → String
  unfolding trim
  str_field d key = trim (text_at key d)

  -- The conversation that the key is made of: that of the body, or else the one given.
  unfoldable pub key_source : String → Dict (Json F) → String
  unfolding str_field or_else
  key_source conversation d =
      or_else (str_field d "conversation_id") (or_else (str_field d "conversationId") conversation)

  -- The request with the key of the account and the conversation.
  unfoldable pub with_cache_key :
      (String → String) → String → String → Dict (Json F) → Dict (Json F)
  unfolding build_cache_key key_source
  with_cache_key hash_16 uid conversation d =
      insert "prompt_cache_key" (text (build_cache_key hash_16 uid (key_source conversation d))) d

module _ {F : Type 0} (codec : FrameCodec F) (hash_16 : String → String) where
  -- None is a panic: a body `null` decodes to a nil map, which is then written to.
  unfoldable pub inject_prompt_cache_key : String → String → String → Option String
  unfolding with_cache_key
  inject_prompt_cache_key uid conversation body =
      if str_eq body "" then some body else elim (codec.decode body) [
        | failed ↦ some body
        | nil_map ↦ none
        | decoded d ↦
            if str_eq (text_at "prompt_cache_key" d) ""
            then (elim (codec.encode (with_cache_key hash_16 uid conversation d)) [
              | none ↦ some body
              | some out ↦ some out
            ])
            else some body
      ]

  -- A map that is encoded, and decodes to one with the same values, as encoding/json does for values
  -- that it has decoded.
  abbrev pub KeepsValues : Dict (Json F) → Type 0
  KeepsValues d =
      (raw : String) × (d' : Dict (Json F)) × (codec.encode d ≡ some raw)
      × (codec.decode raw ≡ decoded d')
      × ((key : String) → value_at key d' ≡ value_at key d)

  -- If encoding keeps the values, a request that decodes to a map goes out with the key that it has or,
  -- if it has none, with the key of the account and the conversation; all its other values are as they
  -- were.
  pub inject_prompt_cache_key_lem :
      (uid conversation body : String) (d : Dict (Json F))
      → KeepsValues (with_cache_key hash_16 uid conversation d)
      → str_eq body "" ≡ false
      → codec.decode body ≡ decoded d
      → (out : String) × (d' : Dict (Json F)) × (inject_prompt_cache_key uid conversation body
          ≡ some out)
        × (codec.decode out ≡ decoded d')
        × (text_at "prompt_cache_key" d'
            ≡ or_else
                (text_at "prompt_cache_key" d)
                (build_cache_key hash_16 uid (key_source conversation d)))
        × ((key : String)
            → str_eq "prompt_cache_key" key ≡ false
            → value_at key d' ≡ value_at key d)
  unfolding inject_prompt_cache_key with_cache_key text_at as_text or_else
  inject_prompt_cache_key_lem uid conversation body d keeps n m =
      elim (Bool-cases (str_eq (text_at "prompt_cache_key" d) "")) [
        | inl e ↦
            let key = build_cache_key hash_16 uid (key_source conversation d) in
            let (raw, d', p, q, same) = keeps in
            (
              raw,
              d',
              rw (n, inject_prompt_cache_key) (rw m (rw e (rw p refl))),
              q,
              ap text_of (
                    same "prompt_cache_key"
                    ∙ value_at-insert "prompt_cache_key" "prompt_cache_key" (text key) d)
                  ∙ rw (e, or_else) refl,
              λ k h. same k ∙ value_at-insert "prompt_cache_key" k (text key) d ∙ rw h refl,
            )
        | inr e ↦ (
          body,
          d,
          rw (n, inject_prompt_cache_key) (rw m (rw e refl)),
          m,
          rw (e, or_else) refl,
          λ k h. refl,
        )
      ]
