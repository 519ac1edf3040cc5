-- ===== src/Frame.antt =====
-- src/webrtc/frameCodec.ts, `encodeFrame` and `decodeFrame`: the wire format of one frame.
-- Bytes are numbers below 256. JSON text is V8's and enters as two functions.
pub mod Header
pub mod RoundTrip
pub mod Sound
pub mod Crc
pub mod Stream
pub mod Split
pub mod Receive
pub mod Transport
pub mod Wire
pub mod Tests
use kubus_node.Base.{
  ℕ, ◌+◌, ◌*◌, ◌/◌, ◌%◌, ◌^◌, Bool, true, false, ◌||◌, not, List, [], ◌∷◌, ◌++◌, Option, none, some,
  length, get_or, take, drop, ltb, ◌==◌, if◌then◌else◌,
}
use kubus_node.Json.{Json, Fields, null, bool, num, str, arr, obj}

pub data FrameType : Type 0 where
  request_head request_chunk response_head response_chunk cancel window_update error : FrameType

pub record KubusFrame : Type 0 where
  pub type : FrameType
  pub request_id : ℕ
  pub flags : ℕ
  pub metadata : Option Fields
  pub payload : Option (List ℕ)

-- `frame_version` carries the version that the peer speaks.
pub data FrameError : Type 0 where
  metadata_too_long payload_too_long : FrameError
  short_frame not_kubus_frame : FrameError
  frame_version unknown_type : ℕ → FrameError
  length_over_limit length_mismatch metadata_not_json metadata_not_object : FrameError

pub data Result {ℓ} (A : Type ℓ) : Type ℓ where
  ok : A → Result A
  err : FrameError → Result A

infixl 5 ◌>>=◌
abbrev pub ◌>>=◌ {ℓ κ} : {A : Type ℓ} {B : Type κ} → Result A → (A → Result B) → Result B
ok a >>= f = f a
err e >>= f = err e

abbrev pub frame_magic : ℕ
frame_magic = 0x6b

abbrev pub frame_protocol_version : ℕ
frame_protocol_version = 1

abbrev pub frame_header_length : ℕ
frame_header_length = 16

abbrev pub max_payload_length : ℕ
max_payload_length = 64 * 1024

abbrev pub max_metadata_length : ℕ
max_metadata_length = 16 * 1024

abbrev pub flag_final : ℕ
flag_final = 1

abbrev pub type_code : FrameType → ℕ
type_code request_head = 1
type_code request_chunk = 2
type_code response_head = 3
type_code response_chunk = 4
type_code cancel = 5
type_code window_update = 6
type_code error = 7

-- Membership in `FRAME_TYPES`, with the enum's value.
unfoldable pub type_of_code : ℕ → Option FrameType
type_of_code n =
    if n == 1
    then some request_head
    else if n == 2
    then some request_chunk
    else if n == 3
    then some response_head
    else if n == 4
    then some response_chunk
    else if n == 5
    then some cancel
    else if n == 6
    then some window_update
    else if n == 7
    then some error
    else none

-- `writeUInt32BE`, before the bytes that follow, and `readUInt32BE`.
unfoldable pub write_u32 : ℕ → List ℕ → List ℕ
write_u32 n rest =
    (n / 0x1000000 % 256) ∷ (n / 0x10000 % 256) ∷ (n / 0x100 % 256) ∷ (n % 256) ∷ rest

abbrev pub read_u32 : List ℕ → ℕ → ℕ
read_u32 bytes i =
    get_or bytes i 0 * 0x1000000
    + get_or bytes (i + 1) 0 * 0x10000
    + get_or bytes (i + 2) 0 * 0x100
    + get_or bytes (i + 3) 0

abbrev pub or_empty : Option (List ℕ) → List ℕ
or_empty none = []
or_empty (some bytes) = bytes

abbrev pub metadata_bytes : (Fields → List ℕ) → Option Fields → List ℕ
metadata_bytes stringify none = []
metadata_bytes stringify (some m) = stringify m

abbrev pub frame_bytes : FrameType → ℕ → ℕ → List ℕ → List ℕ → List ℕ
frame_bytes type flags request_id metadata payload =
    frame_magic
    ∷ frame_protocol_version
    ∷ type_code type
    ∷ (flags % 256)
    ∷ write_u32 (request_id % 2 ^ 32)
        (write_u32 (length metadata) (write_u32 (length payload) (metadata ++ payload)))

-- `stringify` is `JSON.stringify` followed by its UTF-8 bytes.
unfoldable pub encode_frame : (Fields → List ℕ) → KubusFrame → Result (List ℕ)
encode_frame stringify frame =
    let metadata = metadata_bytes stringify frame.metadata in
    let payload = or_empty frame.payload in
    if ltb max_metadata_length (length metadata)
    then err metadata_too_long
    else if ltb max_payload_length (length payload)
    then err payload_too_long
    else ok (frame_bytes frame.type frame.flags frame.request_id metadata payload)

abbrev pub as_object : Json → Result Fields
as_object (obj fs) = ok fs
as_object null = err metadata_not_object
as_object (bool b) = err metadata_not_object
as_object (num n) = err metadata_not_object
as_object (str s) = err metadata_not_object
as_object (arr xs) = err metadata_not_object

-- `parse` is `JSON.parse` of UTF-8 bytes, `none` where it throws.
unfoldable pub decode_metadata : (List ℕ → Option Json) → List ℕ → Result Fields
decode_metadata parse bytes = elim (parse bytes) [
  | none ↦ err metadata_not_json
  | some v ↦ as_object v
]

abbrev pub optional_metadata : (List ℕ → Option Json) → ℕ → List ℕ → Result (Option Fields)
optional_metadata parse n bytes =
    if n == 0 then ok none else decode_metadata parse bytes >>= λ m. ok (some m)

-- What `decodeFrame` does once the header's type is known.
unfoldable pub decode_body : (List ℕ → Option Json) → FrameType → List ℕ → Result KubusFrame
decode_body parse type bytes =
    let metadata_length = read_u32 bytes 8 in
    let payload_length = read_u32 bytes 12 in
    if ltb max_metadata_length metadata_length || ltb max_payload_length payload_length
    then err length_over_limit
    else if not (length bytes == frame_header_length + metadata_length + payload_length)
    then err length_mismatch
    else (optional_metadata parse metadata_length
          (take metadata_length (drop frame_header_length bytes))
        >>= λ metadata. ok (record {
          type = type;
          request_id = read_u32 bytes 4;
          flags = get_or bytes 3 0;
          metadata = metadata;
          payload =
              if payload_length == 0
              then none
              else some (drop (frame_header_length + metadata_length) bytes);
        }))

unfoldable pub decode_frame : (List ℕ → Option Json) → List ℕ → Result KubusFrame
decode_frame parse bytes =
    if ltb (length bytes) frame_header_length
    then err short_frame
    else if not (get_or bytes 0 0 == frame_magic)
    then err not_kubus_frame
    else if not (get_or bytes 1 0 == frame_protocol_version)
    then err (frame_version (get_or bytes 1 0))
    else elim (type_of_code (get_or bytes 2 0)) [
      | none ↦ err (unknown_type (get_or bytes 2 0))
      | some type ↦ decode_body parse type bytes
    ]
