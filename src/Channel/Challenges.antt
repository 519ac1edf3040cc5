-- ===== src/Channel/Challenges.antt =====
-- src/webrtc/channelServer.ts: which heads of requests leave the handshake as it was.
use kubus_node.Base.{
  ℕ, String, str_eq, ◌≡◌, refl, ap, inl, inr, Bool, true, false, not, ◌&&◌, arith, leb, if-both,
  Bool-cases, is_some, length, text_key, number_key, string_key, has,
}
use kubus_node.Json.{member}
use kubus_node.Frame.{
  KubusFrame, FrameType, ok, err, Result, decode_frame, request_head, request_chunk, response_head,
  response_chunk, cancel, window_update, error,
}
use kubus_node.Frame.Receive.{is_final_frame}
use kubus_node.Identity.{NodeIdentity}
use kubus_node.Channel.{Platform, ChannelServer, identity_challenge_path}
use kubus_node.Channel.Replies.{send_error, error_frame}
use kubus_node.Channel.Bodies.{text_or}
use kubus_node.Channel.Handlers.{challenge_error, on_request_head, admit, run_request, or_no_fields}
use kubus_node.Channel.Sent.{SentOnly, send-SentOnly, answer_identity_challenge-SentOnly}
use kubus_node.Channel.Steps.{close, Event, message, ends, times_out, closes, loses_transport}

-- The frame is a challenge that is not refused: a nonce of 32 bytes and the protocol's version.
abbrev pub is_challenge : Platform → KubusFrame → Bool
is_challenge p frame =
    str_eq (text_or p "" (member "path" (or_no_fields frame.metadata))) identity_challenge_path
    && not (is_some (challenge_error p (or_no_fields frame.metadata)))

abbrev pub is_head : FrameType → Bool
is_head request_head = true
is_head request_chunk = false
is_head response_head = false
is_head response_chunk = false
is_head cancel = false
is_head window_update = false
is_head error = false

abbrev pub decodes_to_challenge : Platform → Result KubusFrame → Bool
decodes_to_challenge p (ok frame) = is_head frame.type && is_challenge p frame
decodes_to_challenge p (err e) = false

abbrev pub challenges : Platform → Event → Bool
challenges p (message bytes) = decodes_to_challenge p (decode_frame p.parse bytes)
challenges p (ends serial outcome) = false
challenges p times_out = false
challenges p closes = false
challenges p loses_transport = false

abbrev pub SameHandshake : ChannelServer → ChannelServer → Type 0
SameHandshake s t = t.identity_handshake_complete ≡ s.identity_handshake_complete

pub SentOnly-SameHandshake : (s t : ChannelServer) → SentOnly s t → SameHandshake s t
SentOnly-SameHandshake s t (frames, e) =
    ap {A = ChannelServer} (λ v. v.identity_handshake_complete) e

pub close-SameHandshake : (s : ChannelServer) → SameHandshake s (close s)
unfolding close
close-SameHandshake s = if-both (SameHandshake s) s.closed refl refl

admit-SameHandshake :
    (p : Platform) (frame : KubusFrame) (s : ChannelServer) → SameHandshake s (admit p frame s)
unfolding admit run_request
admit-SameHandshake p frame s = elim (Bool-cases (is_final_frame frame)) [
  | inl final ↦ rw (final, admit) refl
  | inr more ↦ rw (more, admit) refl
]

pub send_error-SameHandshake :
    (p : Platform) (request_id : ℕ) (text : String) (s : ChannelServer)
    → SameHandshake s (send_error p request_id text s)
send_error-SameHandshake p request_id text s =
    SentOnly-SameHandshake s _ (send-SentOnly p (error_frame request_id text) s)

pub on_request_head-SameHandshake :
    (p : Platform) (identity : NodeIdentity) (frame : KubusFrame) (s : ChannelServer)
    → is_challenge p frame ≡ false
    → SameHandshake s (on_request_head p identity frame s)
unfolding on_request_head
on_request_head-SameHandshake p identity frame s plain =
    if-both (SameHandshake s) (has s.in_flight frame.request_id)
      (send_error-SameHandshake p frame.request_id "request_id_in_use" s)
      (elim (Bool-cases on_path) [
        | inl path ↦
            rw path
              (elim (answer_identity_challenge-SentOnly p identity frame.request_id
                (or_no_fields frame.metadata) s) [
                  | inl sent ↦ SentOnly-SameHandshake s _ sent
                  | inr (fine, sent) ↦ absurd (ground (arith))
                ])
        | inr other ↦ rw other (
            if-both (SameHandshake s) (leb s.max_concurrent_requests (length s.in_flight))
              (send_error-SameHandshake p frame.request_id "too_many_concurrent_requests" s)
              (admit-SameHandshake p frame s))
      ])
  where
    on_path : Bool
    on_path =
        str_eq (text_or p "" (member "path" (or_no_fields frame.metadata))) identity_challenge_path
