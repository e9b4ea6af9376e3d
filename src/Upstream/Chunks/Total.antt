-- ===== src/Upstream/Chunks/Total.antt =====
-- internal/upstream/markup_chunks.go: when `NormalizeFrames` answers and when it panics.
use workbuddy2plus_plugin.Base.{
  ◌≡◌, refl, ◌⊎◌, inl, inr, ◌||◌, String, Bool, true, false, Option, none, some, List, [], ◌∷◌,
  ◌++◌, Bool-cases, Option-cases, str_eq, Dict, lookup, ltb, length, some_of,
}
use workbuddy2plus_plugin.Upstream.Json.{Json, as_map, list_at, text_at}
use workbuddy2plus_plugin.Upstream.Markup.{Repair, Fed, enabled}
use workbuddy2plus_plugin.Upstream.Markup.Explained.{feed-Explained}
use workbuddy2plus_plugin.Upstream.Frames.{
  FrameCodec, Decoded, failed, nil_map, decoded, Normalizer, Reply, reply, panics, encoded,
  normalize, normalize_frame,
}
use workbuddy2plus_plugin.Upstream.Chunks.Build.{ChunkContext}
use workbuddy2plus_plugin.Upstream.Chunks.{
  MarkupChunkNormalizer, Sent, sent, panicked, encode_object, encode, after_encode, after_flush,
  pass, fall_back, plain_frame, repaired_frame, repair_frame, single_frame, decoded_frame,
  flush_frames, normalize_frames, map_at, carries_calls,
}

abbrev Replied : Reply → Type 0
Replied r = (out : String) × (valid : Bool) × (done : Bool) × (r ≡ reply out valid done)

module _ {F : Type 0} where
  Decoded-cases :
      (x : Decoded F) → (x ≡ failed) ⊎ ((x ≡ nil_map) ⊎ ((d : Dict (Json F)) × (x ≡ decoded d)))
  Decoded-cases failed = inl refl
  Decoded-cases nil_map = inr (inl refl)
  Decoded-cases (decoded d) = inr (inr (d, refl))

  -- What is encoded decodes to a map again, as encoding/json does for a map with values.
  abbrev pub Decodes : FrameCodec F → Type 0
  Decodes codec =
      (d : Dict (Json F)) (raw : String)
      → codec.encode d ≡ some raw
      → (d' : Dict (Json F)) × (codec.decode raw ≡ decoded d')

  abbrev pub Answered : Sent F → Type 0
  Answered s =
      (n : MarkupChunkNormalizer F) × (out : List String) × (valid : Bool) × (done : Bool) × (s
        ≡ sent n out valid done)

  -- The payload decodes to a nil map, and is not the mark of the end.
  abbrev pub IsNilMap : FrameCodec F → String → Type 0
  IsNilMap codec payload = (str_eq payload "[DONE]" ≡ false) × (codec.decode payload ≡ nil_map)

module _ {F : Type 0} (ctx : ChunkContext F) where
  encoded-Replied : (payload : String) (d : Dict (Json F)) → Replied (encoded ctx.frames payload d)
  unfolding encoded
  encoded-Replied payload d = elim (Option-cases (ctx.frames.encode (normalize_frame d))) [
    | inl e ↦ rw (e, encoded) (payload, true, false, refl)
    | inr (raw, e) ↦ rw (e, encoded) (raw, true, false, refl)
  ]

  normalize-Replied :
      (nz : Normalizer) (payload : String)
      → (IsNilMap ctx.frames payload → str_eq nz.first_id "" ≡ true)
      → Replied (normalize ctx.frames ctx.to_int nz payload).1
  unfolding normalize
  normalize-Replied nz payload h = elim (Bool-cases (str_eq payload "[DONE]")) [
    | inl e ↦ rw (e, normalize) ("", false, true, refl)
    | inr e ↦ elim (Decoded-cases (ctx.frames.decode payload)) [
      | inl f ↦ rw (e, normalize) (rw f (payload, false, false, refl))
      | inr (inl f) ↦ rw (e, normalize) (rw f (rw (h (e, f)) (encoded-Replied payload [])))
      | inr (inr (d, f)) ↦ elim (Option-cases (lookup "error" d)) [
        | inl k ↦ rw (e, normalize) (rw f (rw k (encoded-Replied payload _)))
        | inr (v, k) ↦ rw (e, normalize) (rw f (rw k (payload, true, false, refl)))
      ]
    ]
  ]

  nil_map-panics :
      (nz : Normalizer) (payload : String)
      → IsNilMap ctx.frames payload
      → str_eq nz.first_id "" ≡ false
      → (normalize ctx.frames ctx.to_int nz payload).1 ≡ panics
  unfolding normalize
  nil_map-panics nz payload h k = rw (h.0, normalize) (rw h.1 (rw k refl))

  pass-Answered :
      (n : MarkupChunkNormalizer F) (out : List String) (payload : String)
      → (IsNilMap ctx.frames payload → str_eq n.normalizer.first_id "" ≡ true)
      → Answered (pass ctx n out payload)
  unfolding pass
  pass-Answered n out payload h =
      let x = normalize-Replied n.normalizer payload h in rw (x.3, pass) (_, _, _, _, refl)

  module _ (decodes : Decodes ctx.frames) where
    -- An encoding that does not panic.
    abbrev Encoded : Option (Normalizer × List String) → Type 0
    Encoded r = (x : Normalizer × List String) × (r ≡ some x)

    encode_object-Encoded : (nz : Normalizer) (d : Dict (Json F)) → Encoded (encode_object ctx nz d)
    unfolding encode_object
    encode_object-Encoded nz d = elim (Option-cases (ctx.frames.encode d)) [
      | inl e ↦ rw (e, encode_object) (_, refl)
      | inr (raw, e) ↦
          let m = decodes d raw e in
          let x = normalize-Replied nz raw (λ h. absurd (cc)) in
          rw (e, encode_object) (rw x.3 (_, refl))
    ]

    encode-Encoded : (nz : Normalizer) (ds : List (Dict (Json F))) → Encoded (encode ctx nz ds)
    unfolding encode
    encode-Encoded nz [] = (_, refl)
    encode-Encoded nz (d ∷ ds) =
        let x = encode_object-Encoded nz d in
        let y = encode-Encoded x.0.0 ds in rw (x.1, encode) (rw y.1 (_, refl))

    after_encode-Answered :
        (n : MarkupChunkNormalizer F) (ds : List (Dict (Json F)))
        (next : MarkupChunkNormalizer F → List String → Sent F)
        → ((n1 : MarkupChunkNormalizer F) (out : List String) → Answered (next n1 out))
        → Answered (after_encode ctx n ds next)
    unfolding after_encode
    after_encode-Answered n ds next h =
        let x = encode-Encoded n.normalizer ds in
        rw (x.1, after_encode) (h (record n { normalizer = x.0.0 }) x.0.1)

    after_flush-Answered :
        (n : MarkupChunkNormalizer F) (next : MarkupChunkNormalizer F → List String → Sent F)
        → ((n1 : MarkupChunkNormalizer F) (out : List String) → Answered (next n1 out))
        → Answered (after_flush ctx n next)
    unfolding after_flush
    after_flush-Answered n next h = elim (Option-cases n.repair) [
      | inl e ↦ rw (e, after_flush) (h n [])
      | inr (r, e) ↦ elim (Bool-cases (enabled r)) [
        | inl k ↦ rw (e, after_flush) (rw k (after_encode-Answered _ _ next h))
        | inr k ↦ rw (e, after_flush) (rw k (h n []))
      ]
    ]

    plain_frame-Answered :
        (n : MarkupChunkNormalizer F) (d : Dict (Json F)) → Answered (plain_frame ctx n d)
    unfolding plain_frame
    plain_frame-Answered n d =
        after_encode-Answered n (d ∷ []) _ (λ n1 out. (n1, out, true, false, refl))

    repaired_frame-Answered :
        (n : MarkupChunkNormalizer F) (d c : Dict (Json F)) (o : Fed)
        → Answered (repaired_frame ctx n d c o)
    unfolding repaired_frame
    repaired_frame-Answered n d c o =
        after_encode-Answered _ _ _ (λ n1 out. (n1, out, true, false, refl))

    repair_frame-Answered :
        (n : MarkupChunkNormalizer F) (d : Dict (Json F)) (r : Repair) (cs : List (Json F))
        → enabled r ≡ true
        → Answered (repair_frame ctx n d r cs)
    unfolding repair_frame
    repair_frame-Answered n d r [] k = plain_frame-Answered n d
    repair_frame-Answered n d r (ci ∷ []) k = elim (Option-cases (as_map ci)) [
      | inl e ↦ rw (e, repair_frame) (plain_frame-Answered n d)
      | inr (c, e) ↦
          let x = feed-Explained ctx.blocks r (text_at "content" (map_at "delta" c)) k in
          rw (e, repair_frame) (rw x.1 (repaired_frame-Answered n d c x.0))
    ]
    repair_frame-Answered n d r (ci ∷ cj ∷ cs) k = plain_frame-Answered n d

    single_frame-Answered :
        (n : MarkupChunkNormalizer F) (d : Dict (Json F)) → Answered (single_frame ctx n d)
    unfolding single_frame
    single_frame-Answered n d = elim (Option-cases n.repair) [
      | inl e ↦ rw (e, single_frame) (plain_frame-Answered n d)
      | inr (r, e) ↦ elim (Bool-cases (enabled r)) [
        | inl k ↦ rw (e, single_frame) (rw k (repair_frame-Answered n d r (list_at "choices" d) k))
        | inr k ↦ rw (e, single_frame) (rw k (plain_frame-Answered n d))
      ]
    ]

    fall_back-Answered :
        (n : MarkupChunkNormalizer F) (payload : String) (d : Dict (Json F))
        → ctx.frames.decode payload ≡ decoded d
        → Answered (fall_back ctx n payload)
    unfolding fall_back
    fall_back-Answered n payload d m =
        after_flush-Answered n _
          (λ n1 out. pass-Answered (record n1 { repair = none }) out payload (λ h. absurd (cc)))

    decoded_frame-Answered :
        (n : MarkupChunkNormalizer F) (payload : String) (d : Dict (Json F))
        → ctx.frames.decode payload ≡ decoded d
        → Answered (decoded_frame ctx n payload d)
    unfolding decoded_frame
    decoded_frame-Answered n payload d m = elim (Option-cases (lookup "error" d)) [
      | inr (v, k) ↦
          rw (k, decoded_frame)
            (after_flush-Answered n _ (λ n1 out. (n1, out ++ (payload ∷ []), true, false, refl)))
      | inl k ↦
          elim (Bool-cases
            (ltb 1 (length (list_at "choices" d)) || some_of carries_calls (list_at "choices" d))) [
              | inl b ↦ rw (k, decoded_frame) (rw b (fall_back-Answered n payload d m))
              | inr b ↦ rw (k, decoded_frame) (rw b (single_frame-Answered n d))
            ]
    ]

    -- If what is encoded decodes to a map again, every payload of a stream is answered with frames, and
    -- the loop of `Feed` ends, unless the payload decodes to a nil map after a frame that had an id:
    -- then, and only then, it is a panic.
    pub normalize_frames_lem :
        (n : MarkupChunkNormalizer F) (payload : String)
        → (Answered (normalize_frames ctx n payload)
            × ¬ (IsNilMap ctx.frames payload × (str_eq n.normalizer.first_id "" ≡ false)))
          ⊎ ((normalize_frames ctx n payload ≡ panicked)
              × IsNilMap ctx.frames payload
              × (str_eq n.normalizer.first_id "" ≡ false))
    unfolding normalize_frames flush_frames pass
    normalize_frames_lem n payload = elim (Bool-cases (str_eq payload "[DONE]")) [
      | inl e ↦ inl (
        rw (e, normalize_frames)
            (after_flush-Answered n _ (λ n1 out. (n1, out, false, true, refl))),
        λ h. absurd (cc),
      )
      | inr e ↦ elim (Decoded-cases (ctx.frames.decode payload)) [
        | inl f ↦ inl (
          rw (e, normalize_frames) (rw f (pass-Answered n [] payload (λ h. absurd (cc)))),
          λ h. absurd (cc),
        )
        | inr (inl f) ↦ elim (Bool-cases (str_eq n.normalizer.first_id "")) [
          | inl k ↦ inl (
            rw (e, normalize_frames) (rw f (pass-Answered n [] payload (λ h. k))),
            λ h. absurd (cc),
          )
          | inr k ↦ inr (
            rw (e, normalize_frames)
                (rw f (rw (nil_map-panics n.normalizer payload (e, f) k, pass) refl)),
            (e, f),
            k,
          )
        ]
        | inr (inr (d, f)) ↦ inl (
          rw (e, normalize_frames)
              (rw f (decoded_frame-Answered (record n { last = d }) payload d f)),
          λ h. absurd (cc),
        )
      ]
    ]
