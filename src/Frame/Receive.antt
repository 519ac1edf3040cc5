-- ===== src/Frame/Receive.antt =====
-- src/webrtc/frameCodec.ts and channelServer.ts: a body that is split into frames and collected again.
use kubus_node.Base.{ℕ, bit_and, Bool, not, Option, none, some, List, [], ◌∷◌, ◌==◌, if◌then◌else◌}
use kubus_node.Frame.{KubusFrame, flag_final}
use kubus_node.Frame.Stream.{StreamError, Reassembler, append, verify, take_body}

unfoldable pub is_final_frame : KubusFrame → Bool
is_final_frame f = not (bit_and f.flags flag_final == 0)

-- The body promise of one request: open, resolved or rejected.
pub data Delivery : Type 0 where
  waiting : Reassembler → Delivery
  delivered : List ℕ → Delivery
  refused : StreamError → Delivery

-- The promise after the final chunk, by what `verify` throws.
abbrev pub settle : List ℕ → Option StreamError → Delivery
settle body none = delivered body
settle body (some e) = refused e

-- `onRequestChunk`, for the request of the frame.
unfoldable pub receive_chunk : Reassembler → KubusFrame → Delivery
unfolding is_final_frame
receive_chunk r f = elim (append r f.payload).1 [
  | some e ↦ refused e
  | none ↦
      if is_final_frame f
      then settle (take_body (append r f.payload).0) (verify (append r f.payload).0 f.metadata)
      else waiting (append r f.payload).0
]

-- A promise that is settled stays as it is.
unfoldable pub receive_all : Reassembler → List KubusFrame → Delivery
unfolding receive_chunk
receive_all r [] = waiting r
receive_all r (f ∷ fs) = elim (receive_chunk r f) [
  | waiting r' ↦ receive_all r' fs
  | delivered body ↦ delivered body
  | refused e ↦ refused e
]
