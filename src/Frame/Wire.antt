-- ===== src/Frame/Wire.antt =====
-- src/webrtc/frameCodec.ts: the frames of a split body pass through the wire format unchanged.
use kubus_node.Base.{
  ℕ, ◌+◌, ◌^◌, ◌≤◌, ◌<◌, ◌≡◌, ap, ◌∙◌, subst, Option, some, List, [], ◌∷◌, map, arith, le→ltb,
  length, All, All-append,
}
use native.Mathlib.Nat.{mod-eq_of_lt}
use mathlib.Core.Option.{some-injective}
use kubus_node.Json.{Json, Fields, obj}
use kubus_node.Frame.{
  FrameType, KubusFrame, or_empty, encode_frame, decode_frame, ok, frame_bytes, max_payload_length,
  max_metadata_length, metadata_bytes,
}
use kubus_node.Frame.RoundTrip.{
  nonempty-cons, or_empty-nonempty, wire, IsReadable, decode_frame-encode_frame,
}
use kubus_node.Frame.Crc.{crc_add}
use kubus_node.Frame.Stream.{
  Splitter, chunk_frame, final_metadata, final_frame, splitter_start, split_from, split_into_frames,
}
use kubus_node.Frame.Split.{split_from-IsSplit, split_from_short}

module _ (stringify : Fields → List ℕ) (parse : List ℕ → Option Json) where
  abbrev pub Survives : KubusFrame → Type 0
  Survives f =
      (bytes : List ℕ) × (encode_frame stringify f ≡ ok bytes) × (decode_frame parse bytes ≡ ok f)

  -- `JSON.parse` reads back the text of final metadata, which is not empty and within the limit.
  abbrev pub ReadsFinal : Type 0
  ReadsFinal =
      (total crc : ℕ)
      → let m = final_metadata total crc in
        (parse (stringify m) ≡ some (obj m))
        × (0 < length (stringify m))
        × (length (stringify m) ≤ max_metadata_length)

  Survives_lem :
      (f : KubusFrame)
      → length (metadata_bytes stringify f.metadata) ≤ max_metadata_length
      → length (or_empty f.payload) ≤ max_payload_length
      → IsReadable stringify parse f
      → wire f ≡ f
      → Survives f
  unfolding encode_frame
  Survives_lem f mh ph readable same =
      let bytes =
        frame_bytes f.type f.flags f.request_id (metadata_bytes stringify f.metadata)
          (or_empty f.payload) in
      let e : encode_frame stringify f ≡ ok bytes = rw (
        le→ltb max_metadata_length (length (metadata_bytes stringify f.metadata)) mh,
        le→ltb max_payload_length (length (or_empty f.payload)) ph,
      ) in
      (bytes, e, decode_frame-encode_frame stringify parse f bytes readable e ∙ ap ok same)

  module _ (id : ℕ) (type : FrameType) (small : id < 2 ^ 32) where
    chunk-Survives :
        (p : List ℕ)
        → 0 < length p
        → length p ≤ max_payload_length
        → Survives (chunk_frame id type p)
    unfolding wire
    chunk-Survives [] pos h = elim pos [ ]
    chunk-Survives (b ∷ bs) pos h =
        Survives_lem (chunk_frame id type (b ∷ bs)) (omega arith) h (λ m e. cc)
          (rw (mod-eq_of_lt small, nonempty-cons b bs))

    final-Survives :
        (s : Splitter)
        → ReadsFinal
        → length s.pending ≤ max_payload_length
        → Survives (final_frame id type s)
    unfolding wire
    final-Survives s reads h =
        let read = reads (s.total + length s.pending) (crc_add s.crc s.pending) in
        Survives_lem (final_frame id type s) read.2
          (omega (arith, ap length (or_empty-nonempty s.pending)))
          (λ m e.
            subst (λ m. (parse (stringify m) ≡ some (obj m)) × (0 < length (stringify m)))
              (some-injective _ _ e) (read.0, read.1))
          (rw (mod-eq_of_lt small, or_empty-nonempty s.pending))

    chunks-Survive :
        (chunk_size : ℕ) (chunks : List (List ℕ))
        → 0 < chunk_size
        → chunk_size ≤ max_payload_length
        → All (λ chunk. length chunk ≡ chunk_size) chunks
        → All Survives (map (chunk_frame id type) chunks)
    chunks-Survive chunk_size [] pos h full = tt
    chunks-Survive chunk_size (p ∷ chunks) pos h full = (
      chunk-Survives p (omega arith) (omega arith),
      chunks-Survive chunk_size chunks pos h full.1,
    )

-- For a chunk size from 1 to the payload limit and a request id of 32 bits, `encodeFrame` accepts
-- every frame that `splitIntoFrames` yields, and `decodeFrame` gives the frame back unchanged, where
-- `JSON.parse` reads back the text of the final frame's metadata.
pub split_into_frames-Survives :
    (stringify : Fields → List ℕ) (parse : List ℕ → Option Json) (id : ℕ) (type : FrameType)
    (chunk_size : ℕ) (source : List (List ℕ))
    → 0 < chunk_size
    → chunk_size ≤ max_payload_length
    → id < 2 ^ 32
    → ReadsFinal stringify parse
    → All (Survives stringify parse) (split_into_frames id type chunk_size source)
unfolding split_into_frames
split_into_frames-Survives stringify parse id type chunk_size source pos h small reads =
    let done = split_from id type chunk_size splitter_start source in
    let split = split_from-IsSplit id type chunk_size splitter_start source in
    let short = split_from_short id type chunk_size splitter_start source pos pos in
    rw split.frames (
      All-append (Survives stringify parse) (map (chunk_frame id type) split.chunks) _
        (chunks-Survive stringify parse id type small chunk_size split.chunks pos h split.full)
        (final-Survives stringify parse id type small done.1 reads (omega arith), tt))
