-- ===== src/Frame/RoundTrip.antt =====
-- src/webrtc/frameCodec.ts: what `decodeFrame` makes of the bytes of `encodeFrame`.
use kubus_node.Base.{
  ℕ, ◌+◌, ◌%◌, ◌^◌, ◌≤◌, ◌<◌, ◌≡◌, refl, List, [], ◌∷◌, Option, none, some, arith, length,
  length-append, take-append, drop-append, drop-drop, ◌==◌, true, le→ltb, ==_iff, if◌then◌else◌,
}
use kubus_node.Json.{Json, Fields, obj}
use kubus_node.Frame.{
  FrameType, KubusFrame, Result, ok, ◌>>=◌, max_metadata_length, max_payload_length, frame_bytes,
  write_u32, frame_header_length, encode_frame, decode_frame, decode_body, optional_metadata,
  metadata_bytes, decode_metadata, or_empty,
}
use kubus_node.Frame.Header.{u32_bytes, type_of_code-type_code}

-- An absent payload and an empty one are the same bytes.
abbrev pub nonempty : List ℕ → Option (List ℕ)
nonempty p = if length p == 0 then none else some p

pub nonempty-cons : (b : ℕ) (bs : List ℕ) → nonempty (b ∷ bs) ≡ some (b ∷ bs)
nonempty-cons b bs = ground arith

pub or_empty-nonempty : (p : List ℕ) → or_empty (nonempty p) ≡ p
or_empty-nonempty [] = refl
or_empty-nonempty (b ∷ bs) = ground arith

abbrev parsed : (List ℕ → Option Json) → FrameType → ℕ → ℕ → List ℕ → List ℕ → Result KubusFrame
parsed parse type flags id m p = optional_metadata parse (length m) m >>= λ metadata. ok (record {
  type = type;
  request_id = id % 2 ^ 32;
  flags = flags % 256;
  metadata = metadata;
  payload = nonempty p;
})

module _ (parse : List ℕ → Option Json) (type : FrameType) (flags id : ℕ) (m p : List ℕ)
    (mh : length m ≤ max_metadata_length) (ph : length p ≤ max_payload_length) where
  decode_body-frame_bytes :
      decode_body parse type (frame_bytes type flags id m p) ≡ parsed parse type flags id m p
  unfolding decode_body write_u32
  decode_body-frame_bytes =
      rw
        (
          u32_bytes (length m) (omega arith),
          u32_bytes (length p) (omega arith),
          u32_bytes (id % 2 ^ 32) (omega arith),
          le→ltb max_metadata_length (length m) mh,
          le→ltb max_payload_length (length p) ph,
          same_length,
          take-append m p,
          drop-drop 16 (length m) (frame_bytes type flags id m p),
          drop-append m p,
        )
        refl
    where
      same_length :
          (length (frame_bytes type flags id m p) == frame_header_length + length m + length p)
          ≡ true
      same_length = (==_iff _ _).1 (omega (arith, length-append m p))

  decode_frame-frame_bytes :
      decode_frame parse (frame_bytes type flags id m p) ≡ parsed parse type flags id m p
  unfolding decode_frame write_u32
  decode_frame-frame_bytes =
      rw
        (
          le→ltb (length (frame_bytes type flags id m p)) frame_header_length long,
          type_of_code-type_code type,
        )
        decode_body-frame_bytes
    where
      long : frame_header_length ≤ length (frame_bytes type flags id m p)
      long = omega arith

-- What the wire keeps of a frame: a byte of flags, 32 bits of request id, no empty payload.
unfoldable pub wire : KubusFrame → KubusFrame
wire f = record f {
  flags = f.flags % 256;
  request_id = f.request_id % 2 ^ 32;
  payload = nonempty (or_empty f.payload);
}

-- `JSON.parse` gives back the frame's own metadata from its text, which has a first byte.
abbrev pub IsReadable : (Fields → List ℕ) → (List ℕ → Option Json) → KubusFrame → Type 0
IsReadable stringify parse f =
    (m : Fields)
    → f.metadata ≡ some m
    → (parse (stringify m) ≡ some (obj m)) × (0 < length (stringify m))

optional_metadata_lem :
    (stringify : Fields → List ℕ) (parse : List ℕ → Option Json) (metadata : Option Fields)
    → ((m : Fields)
        → metadata ≡ some m
        → (parse (stringify m) ≡ some (obj m)) × (0 < length (stringify m)))
    → (let bytes = metadata_bytes stringify metadata in
        optional_metadata parse (length bytes) bytes)
      ≡ ok metadata
unfolding decode_metadata
optional_metadata_lem stringify parse none h = refl
optional_metadata_lem stringify parse (some m) h = ground (arith, h m refl)

-- Whatever `encodeFrame` accepts, `decodeFrame` reads back, up to what the wire keeps, where
-- `JSON.parse` reads back the metadata that the frame carries.
pub decode_frame-encode_frame :
    (stringify : Fields → List ℕ) (parse : List ℕ → Option Json) (f : KubusFrame) (bytes : List ℕ)
    → IsReadable stringify parse f
    → encode_frame stringify f ≡ ok bytes
    → decode_frame parse bytes ≡ ok (wire f)
unfolding encode_frame wire
decode_frame-encode_frame stringify parse f bytes readable e =
    let m = metadata_bytes stringify f.metadata in
    let p = or_empty f.payload in
    let mh : length m ≤ max_metadata_length = ground arith in
    let ph : length p ≤ max_payload_length = ground arith in
    let same : frame_bytes f.type f.flags f.request_id m p ≡ bytes = ground arith in
    rw (← same) (
      rw
        (
          decode_frame-frame_bytes parse f.type f.flags f.request_id m p mh ph,
          optional_metadata_lem stringify parse f.metadata readable,
        )
        refl)
