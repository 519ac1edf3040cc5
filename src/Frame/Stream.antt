-- ===== src/Frame/Stream.antt =====
-- src/webrtc/frameCodec.ts, `splitIntoFrames` and `ChunkReassembler`: a body as a row of frames.
-- A source is the list of buffers that the iterator yields.
use kubus_node.Base.{
  ℕ, zero, suc, ◌+◌, Bool, true, List, [], ◌∷◌, ◌++◌, Option, none, some, length, take, drop,
  concat, ltb, leb, ◌==◌, if◌then◌else◌,
}
use kubus_node.Json.{Fields, end, field, num, member, as_number}
use kubus_node.Frame.{FrameType, KubusFrame, flag_final}
use kubus_node.Frame.Crc.{crc_start, crc_add, crc_value}

-- The local variables of `splitIntoFrames`.
pub record Splitter : Type 0 where
  pub crc : ℕ
  pub total : ℕ
  pub pending : List ℕ

abbrev pub splitter_start : Splitter
splitter_start = record { crc = crc_start; total = 0; pending = [] }

abbrev pub receive : Splitter → List ℕ → Splitter
receive s bytes = record s { pending = s.pending ++ bytes }

abbrev pub after_chunk : ℕ → Splitter → Splitter
after_chunk chunk_size s = record {
  crc = crc_add s.crc (take chunk_size s.pending);
  total = s.total + length (take chunk_size s.pending);
  pending = drop chunk_size s.pending;
}

abbrev pub final_metadata : ℕ → ℕ → Fields
final_metadata total crc = field "length" (num total) (field "crc32" (num (crc_value crc)) end)

module _ (request_id : ℕ) (type : FrameType) where
  abbrev pub chunk_frame : List ℕ → KubusFrame
  chunk_frame chunk = record {
    type = type;
    request_id = request_id;
    flags = 0;
    metadata = none;
    payload = some chunk;
  }

  abbrev pub final_frame : Splitter → KubusFrame
  final_frame s = record {
    type = type;
    request_id = request_id;
    flags = flag_final;
    metadata = some (final_metadata (s.total + length s.pending) (crc_add s.crc s.pending));
    payload = if length s.pending == 0 then none else some s.pending;
  }

module _ (request_id : ℕ) (type : FrameType) (chunk_size : ℕ) where
  -- The `while` loop; the fuel bounds its rounds.
  unfoldable pub drain : ℕ → Splitter → List KubusFrame × Splitter
  drain zero s = ([], s)
  drain (suc fuel) s =
      let rest = drain fuel (after_chunk chunk_size s) in
      if leb chunk_size (length s.pending)
      then (chunk_frame request_id type (take chunk_size s.pending) ∷ rest.0, rest.1)
      else ([], s)

  -- The `for await` loop. Every round of the inner loop takes a byte at least.
  unfoldable pub split_from : Splitter → List (List ℕ) → List KubusFrame × Splitter
  unfolding drain
  split_from s [] = ([], s)
  split_from s (bytes ∷ source) =
      let drained = drain (suc (length (s.pending ++ bytes))) (receive s bytes) in
      let rest = split_from drained.1 source in (drained.0 ++ rest.0, rest.1)

  unfoldable pub split_into_frames : List (List ℕ) → List KubusFrame
  unfolding split_from
  split_into_frames source =
      let done = split_from splitter_start source in
      done.0 ++ final_frame request_id type done.1 ∷ []

pub data StreamError : Type 0 where
  body_too_large length_mismatch checksum_mismatch : StreamError

-- `chunks` is kept oldest first.
pub record Reassembler : Type 0 where
  pub max_bytes : ℕ
  pub chunks : List (List ℕ)
  pub crc : ℕ
  pub received : ℕ

abbrev pub new_reassembler : ℕ → Reassembler
new_reassembler max_bytes = record {
  max_bytes = max_bytes;
  chunks = [];
  crc = crc_start;
  received = 0;
}

-- The object after the call, with the error that the call throws. A refused payload is counted.
unfoldable pub append : Reassembler → Option (List ℕ) → Reassembler × Option StreamError
append r none = (r, none)
append r (some []) = (r, none)
append r (some (b ∷ bs)) =
    let received = r.received + length (b ∷ bs) in
    if ltb r.max_bytes received then (record r { received = received }, some body_too_large) else (
      record r {
        received = received;
        crc = crc_add r.crc (b ∷ bs);
        chunks = r.chunks ++ (b ∷ bs) ∷ [];
      },
      none,
    )

-- A declared number must be the actual one; anything else is passed over.
abbrev pub agrees : Option ℕ → ℕ → Bool
agrees none n = true
agrees (some declared) n = declared == n

unfoldable pub verify : Reassembler → Option Fields → Option StreamError
verify r none = none
verify r (some m) =
    if agrees (as_number (member "length" m)) r.received
    then (if agrees (as_number (member "crc32" m)) (crc_value r.crc)
        then none
        else some checksum_mismatch)
    else some length_mismatch

unfoldable pub byte_length : Reassembler → ℕ
byte_length r = r.received

-- `Buffer.concat(list, totalLength)` cuts off what stands past the length; nothing does here.
unfoldable pub take_body : Reassembler → List ℕ
take_body r = take r.received (concat r.chunks)
