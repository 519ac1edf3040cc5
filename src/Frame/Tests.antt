-- ===== src/Frame/Tests.antt =====
-- src/webrtc/frameCodec.ts: runs of the codec, and the theorems at concrete frames.
use kubus_node.Base.{
  ℕ, ◌<◌, ◌≡◌, refl, subst, Option, none, some, List, [], ◌∷◌, ◌++◌, map, arith, length, drop, All,
}
use mathlib.Core.Option.{some-injective}
use kubus_node.Json.{Json, Fields, end, field, num, obj, member, as_number}
use kubus_node.Frame.{
  KubusFrame, response_chunk, ok, err, short_frame, frame_version, unknown_type, length_mismatch,
  encode_frame, decode_frame, decode_body, decode_metadata, write_u32, type_of_code,
}
use kubus_node.Frame.RoundTrip.{wire, decode_frame-encode_frame}
use kubus_node.Frame.Sound.{IsWire, decode_frame-IsWire}
use kubus_node.Frame.Stream.{split_into_frames, new_reassembler}
use kubus_node.Frame.Receive.{delivered, receive_all}
use kubus_node.Frame.Transport.{receive_all-split_into_frames}
use kubus_node.Frame.Wire.{Survives, split_into_frames-Survives}

codec : Unit {0}
unfolding encode_frame decode_frame decode_body decode_metadata write_u32 type_of_code
codec = tt

-- A text for the metadata of a final frame: the two numbers in their order.
abbrev number_or_zero : Option Json → ℕ
number_or_zero v = elim (as_number v) [ none ↦ 0 | some n ↦ n ]

stringify : Fields → List ℕ
unfolding member
stringify m = number_or_zero (member "length" m) ∷ number_or_zero (member "crc32" m) ∷ []

parse : List ℕ → Option Json
parse (n ∷ c ∷ []) = some (obj (field "length" (num n) (field "crc32" (num c) end)))
parse _ = none

abbrev sample : KubusFrame
sample = record {
  type = response_chunk;
  request_id = 0x01020304;
  flags = 1;
  metadata = some (field "length" (num 2) (field "crc32" (num 9) end));
  payload = some (7 ∷ 8 ∷ []);
}

abbrev sample_bytes : List ℕ
sample_bytes = 0x6b ∷ 1 ∷ 4 ∷ 1 ∷ 1 ∷ 2 ∷ 3 ∷ 4 ∷ 0 ∷ 0 ∷ 0 ∷ 2 ∷ 0 ∷ 0 ∷ 0 ∷ 2 ∷ 2 ∷ 9 ∷ 7 ∷ 8 ∷ []

encode_sample : encode_frame stringify sample ≡ ok sample_bytes
unfolding codec stringify
encode_sample = refl

decode_sample : decode_frame parse sample_bytes ≡ ok sample
unfolding codec parse
decode_sample = refl

decode_errors :
    (decode_frame parse (0x6b ∷ []) ≡ err short_frame)
    × (decode_frame parse (0x6b ∷ 2 ∷ drop 2 sample_bytes) ≡ err (frame_version 2))
    × (decode_frame parse (0x6b ∷ 1 ∷ 9 ∷ drop 3 sample_bytes) ≡ err (unknown_type 9))
    × (decode_frame parse (sample_bytes ++ 0 ∷ []) ≡ err length_mismatch)
unfolding codec
decode_errors = (refl, refl, refl, refl)

decode_frame-encode_frame_example : decode_frame parse sample_bytes ≡ ok (wire sample)
unfolding stringify parse
decode_frame-encode_frame_example =
    decode_frame-encode_frame stringify parse sample sample_bytes
      (λ m e.
        subst (λ m. (parse (stringify m) ≡ some (obj m)) × (0 < length (stringify m)))
          (some-injective _ _ e) (refl, omega arith))
      encode_sample

decode_frame-IsWire_example : IsWire parse sample_bytes sample
decode_frame-IsWire_example =
    decode_frame-IsWire parse sample_bytes sample (omega arith) decode_sample

abbrev source : List (List ℕ)
source = (1 ∷ 2 ∷ 3 ∷ []) ∷ [] ∷ (4 ∷ 5 ∷ []) ∷ []

split_source :
    map (λ f. f.payload) (split_into_frames 7 response_chunk 2 source)
    ≡ some (1 ∷ 2 ∷ []) ∷ some (3 ∷ 4 ∷ []) ∷ some (5 ∷ []) ∷ []
unfolding split_into_frames
split_source = refl

receive_all-split_into_frames_example :
    receive_all (new_reassembler 5) (split_into_frames 7 response_chunk 2 source)
    ≡ delivered (1 ∷ 2 ∷ 3 ∷ 4 ∷ 5 ∷ [])
receive_all-split_into_frames_example =
    receive_all-split_into_frames 7 response_chunk 2 5 source (omega arith) (omega arith)

split_into_frames-Survives_example :
    All (Survives stringify parse) (split_into_frames 7 response_chunk 2 source)
unfolding stringify parse
split_into_frames-Survives_example =
    split_into_frames-Survives stringify parse 7 response_chunk 2 source (omega arith) (omega arith)
      (omega arith) (λ total crc. (refl, omega arith, omega arith))
