-- ===== src/Frame/Sound.antt =====
-- src/webrtc/frameCodec.ts: what holds of every frame that `decodeFrame` accepts.
use kubus_node.Base.{
  ℕ, zero, suc, ◌+◌, ◌*◌, ◌/◌, ◌%◌, ◌^◌, ◌≤◌, ◌<◌, ◌≡◌, refl, sym, ap, ap₂, ◌∙◌, inl, inr, Option,
  none, some, List, [], ◌∷◌, ◌++◌, arith, ◌==◌, if◌then◌else◌, Option-cases, length, get_or, take,
  drop, All, length-take, length-drop, take-append-drop, drop-drop,
}
use kubus_node.Json.{Json}
use kubus_node.Frame.{
  FrameType, KubusFrame, ok, max_metadata_length, max_payload_length, type_code, type_of_code,
  frame_bytes, frame_header_length, frame_magic, frame_protocol_version, write_u32, read_u32,
  decode_frame, decode_body, optional_metadata,
}
use kubus_node.Frame.Header.{type_code-type_of_code}
use kubus_node.Frame.RoundTrip.{nonempty}

abbrev pub IsByte : ℕ → Type 0
IsByte b = b < 256

-- The bytes are the documented layout of the frame: header, metadata and payload, and no more.
pub record IsWire (parse : List ℕ → Option Json) (bytes : List ℕ) (f : KubusFrame) : Type 0 where
  pub metadata : List ℕ
  pub payload : List ℕ
  pub layout : bytes ≡ frame_bytes f.type f.flags f.request_id metadata payload
  pub metadata_bound : length metadata ≤ max_metadata_length
  pub payload_bound : length payload ≤ max_payload_length
  pub payload_read : f.payload ≡ nonempty payload
  pub metadata_read : optional_metadata parse (length metadata) metadata ≡ ok f.metadata

-- The `k` items from place `i` on, by index.
items : ℕ → ℕ → List ℕ → List ℕ
items zero i xs = []
items (suc k) i xs = get_or xs i 0 ∷ items k (suc i) xs

items-cons : (k i x : ℕ) (xs : List ℕ) → items k (suc i) (x ∷ xs) ≡ items k i xs
unfolding items
items-cons zero i x xs = refl
items-cons (suc k) i x xs = ap (◌∷◌ (get_or xs i 0)) (items-cons k (suc i) x xs)

items-drop : (k : ℕ) (xs : List ℕ) → k ≤ length xs → xs ≡ items k 0 xs ++ drop k xs
unfolding items
items-drop zero xs h = refl
items-drop (suc k) [] h = elim h [ ]
items-drop (suc k) (x ∷ xs) h =
    rw (items-cons k 0 x xs) (ap (◌∷◌ x) (items-drop k xs (omega arith)))

get_or-IsByte : (xs : List ℕ) (i : ℕ) → All IsByte xs → get_or xs i 0 < 256
get_or-IsByte [] i h = omega arith
get_or-IsByte (x ∷ xs) zero h = h.0
get_or-IsByte (x ∷ xs) (suc i) h = get_or-IsByte xs i h.1

write_u32-digits :
    (a b c d : ℕ) (rest : List ℕ)
    → a < 256
    → b < 256
    → c < 256
    → d < 256
    → write_u32 (a * 0x1000000 + b * 0x10000 + c * 0x100 + d) rest ≡ a ∷ b ∷ c ∷ d ∷ rest
unfolding write_u32
write_u32-digits a b c d rest ha hb hc hd = cc (q1, q2, q3, q4)
  where
    n : ℕ
    n = a * 0x1000000 + b * 0x10000 + c * 0x100 + d

    q1 : n / 0x1000000 % 256 ≡ a
    q1 = omega arith

    q2 : n / 0x10000 % 256 ≡ b
    q2 = omega arith

    q3 : n / 0x100 % 256 ≡ c
    q3 = omega arith

    q4 : n % 256 ≡ d
    q4 = omega arith

module _ (parse : List ℕ → Option Json) (bytes : List ℕ) where
  decode_frame-Headed :
      (f : KubusFrame)
      → decode_frame parse bytes ≡ ok f
      → (frame_header_length ≤ length bytes)
        × (get_or bytes 0 0 ≡ frame_magic)
        × (get_or bytes 1 0 ≡ frame_protocol_version)
        × (type : FrameType) × (type_of_code (get_or bytes 2 0) ≡ some type)
        × (decode_body parse type bytes ≡ ok f)
  unfolding decode_frame
  decode_frame-Headed f h = elim (Option-cases (type_of_code (get_or bytes 2 0))) [
    | inl e ↦ absurd (ground arith)
    | inr (type, e) ↦ (ground arith, ground arith, ground arith, type, e, ground arith)
  ]

  decode_body-fields :
      (type : FrameType) (f : KubusFrame)
      → decode_body parse type bytes ≡ ok f
      → (read_u32 bytes 8 ≤ max_metadata_length)
        × (read_u32 bytes 12 ≤ max_payload_length)
        × (length bytes ≡ frame_header_length + read_u32 bytes 8 + read_u32 bytes 12)
        × (optional_metadata parse
              (read_u32 bytes 8)
              (take (read_u32 bytes 8) (drop frame_header_length bytes))
            ≡ ok f.metadata)
        × (f.type ≡ type)
        × (f.request_id ≡ read_u32 bytes 4)
        × (f.flags ≡ get_or bytes 3 0)
        × (f.payload ≡ (
            if read_u32 bytes 12 == 0
            then none
            else some (drop (frame_header_length + read_u32 bytes 8) bytes)))
  unfolding decode_body
  decode_body-fields type f h = ground arith

-- A frame with its fields read off sixteen bytes and what follows is those bytes again.
layout_lem :
    (b : ℕ → ℕ) (type : FrameType) (m p : List ℕ)
    → ((i : ℕ) → b i < 256)
    → b 0 ≡ frame_magic
    → b 1 ≡ frame_protocol_version
    → type_code type ≡ b 2
    → length m ≡ b 8 * 0x1000000 + b 9 * 0x10000 + b 10 * 0x100 + b 11
    → length p ≡ b 12 * 0x1000000 + b 13 * 0x10000 + b 14 * 0x100 + b 15
    → b 0
        ∷ b 1
        ∷ b 2
        ∷ b 3
        ∷ b 4
        ∷ b 5
        ∷ b 6
        ∷ b 7
        ∷ b 8
        ∷ b 9
        ∷ b 10
        ∷ b 11
        ∷ b 12
        ∷ b 13
        ∷ b 14
        ∷ b 15
        ∷ (m ++ p)
      ≡ frame_bytes type (b 3) (b 4 * 0x1000000 + b 5 * 0x10000 + b 6 * 0x100 + b 7) m p
layout_lem b type m p h magic version code ml pl =
    rw
      (
        ml,
        pl,
        code,
        wrapped,
        write_u32-digits (b 12) (b 13) (b 14) (b 15) (m ++ p) (h 12) (h 13) (h 14) (h 15),
        write_u32-digits (b 8) (b 9) (b 10) (b 11) _ (h 8) (h 9) (h 10) (h 11),
        write_u32-digits (b 4) (b 5) (b 6) (b 7) _ (h 4) (h 5) (h 6) (h 7),
        small,
      )
      (cc (magic, version))
  where
    wrapped :
        (b 4 * 0x1000000 + b 5 * 0x10000 + b 6 * 0x100 + b 7) % 2 ^ 32
        ≡ b 4 * 0x1000000 + b 5 * 0x10000 + b 6 * 0x100 + b 7
    wrapped = omega (arith, h 4, h 5, h 6, h 7)

    small : b 3 % 256 ≡ b 3
    small = omega (arith, h 3)

-- Bytes that `decodeFrame` accepts are laid out as documented, nothing before or after: magic,
-- version, type, flags, request id, both lengths, then metadata and payload of those lengths, within
-- the limits. The frame's payload and metadata are read from just those bytes.
pub decode_frame-IsWire :
    (parse : List ℕ → Option Json) (bytes : List ℕ) (f : KubusFrame)
    → All IsByte bytes
    → decode_frame parse bytes ≡ ok f
    → IsWire parse bytes f
unfolding items
decode_frame-IsWire parse bytes f h e =
    let (long, magic, version, type, known, body) = decode_frame-Headed parse bytes f e in
    let (mb, pb, size, read, same_type, same_id, same_flags, same_payload) =
      decode_body-fields parse bytes type f body in
    let rest : List ℕ = drop 16 bytes in
    let m : List ℕ = take (read_u32 bytes 8) rest in
    let p : List ℕ = drop (read_u32 bytes 8) rest in
    let ml : length m ≡ read_u32 bytes 8 =
      omega (arith, length-take (read_u32 bytes 8) rest, length-drop 16 bytes, size) in
    let pl : length p ≡ read_u32 bytes 12 =
      omega (arith, length-drop (read_u32 bytes 8) rest, length-drop 16 bytes, size) in
    record {
      metadata = m;
      payload = p;
      layout =
          items-drop 16 bytes long
          ∙ ap (◌++◌ (items 16 0 bytes)) (sym (take-append-drop (read_u32 bytes 8) rest))
          ∙ layout_lem (λ i. get_or bytes i 0) f.type m p (λ i. get_or-IsByte bytes i h) magic
              version
              (ap type_code same_type ∙ type_code-type_of_code (get_or bytes 2 0) type known) ml pl
          ∙ ap₂ (λ flags id. frame_bytes f.type flags id m p) (sym same_flags) (sym same_id);
      metadata_bound = rw ml mb;
      payload_bound = rw pl pb;
      payload_read = rw (pl, ← drop-drop 16 (read_u32 bytes 8) bytes) same_payload;
      metadata_read = rw ml read;
    }
