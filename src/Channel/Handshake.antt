-- ===== src/Channel/Handshake.antt =====
-- src/webrtc/channelServer.ts: a channel is past its handshake only after a well-formed challenge.
use kubus_node.Base.{
  ℕ, String, ◌≡◌, refl, ◌∙◌, inl, inr, true, false, not, ◌&&◌, List, [], ◌∷◌, arith, if-both,
  Bool-cases, Option-cases, any, text_key, number_key, string_key, get,
}
use kubus_node.Frame.{
  KubusFrame, FrameType, frame_version, ok, err, Result, decode_frame, request_head, request_chunk,
  response_head, response_chunk, cancel, window_update, error,
}
use kubus_node.Frame.Receive.{is_final_frame}
use kubus_node.Frame.Stream.{append, verify}
use kubus_node.Identity.{NodeIdentity}
use kubus_node.Channel.{Platform, ChannelServer, InFlight, Outcome, new_server}
use kubus_node.Channel.Replies.{send_error}
use kubus_node.Channel.Sent.{reply-SentOnly}
use kubus_node.Channel.Steps.{
  lookup_entry, receive_body, on_request_chunk, on_cancel, on_frame, on_bad_frame, on_message,
  handle_message, end_request, proof_timed_out, Event, message, ends, times_out, closes,
  loses_transport, step, run,
}
use kubus_node.Channel.Challenges.{
  is_challenge, is_head, decodes_to_challenge, challenges, SameHandshake, SentOnly-SameHandshake,
  close-SameHandshake, send_error-SameHandshake, on_request_head-SameHandshake,
}

receive_body-SameHandshake :
    (p : Platform) (frame : KubusFrame) (serial : ℕ) (entry : InFlight) (s : ChannelServer)
    → SameHandshake s (receive_body p frame serial entry s)
unfolding receive_body
receive_body-SameHandshake p frame serial entry s =
    elim (Option-cases (append entry.reassembler frame.payload).1) [
      | inr (e, bad) ↦
          rw (bad, receive_body) (send_error-SameHandshake p _ "request_body_invalid" _)
      | inl fine ↦ elim (Bool-cases (is_final_frame frame)) [
        | inr more ↦ rw (fine, more, receive_body) refl
        | inl final ↦
            elim (Option-cases (verify (append entry.reassembler frame.payload).0 frame.metadata)) [
              | inr (e, bad) ↦
                  rw (fine, final, bad, receive_body)
                    (send_error-SameHandshake p _ "request_body_invalid" _)
              | inl whole ↦ rw (fine, final, whole, receive_body) refl
            ]
      ]
    ]

on_request_chunk-SameHandshake :
    (p : Platform) (frame : KubusFrame) (s : ChannelServer)
    → SameHandshake s (on_request_chunk p frame s)
unfolding on_request_chunk
on_request_chunk-SameHandshake p frame s = elim (Option-cases (lookup_entry s frame.request_id)) [
  | inl missing ↦ rw (missing, on_request_chunk) refl
  | inr (found, e) ↦
      rw (e, on_request_chunk)
        (if-both (SameHandshake s) found.1.cancelled refl
          (receive_body-SameHandshake p frame found.0 found.1 s))
]

on_cancel-SameHandshake :
    (request_id : ℕ) (s : ChannelServer) → SameHandshake s (on_cancel request_id s)
unfolding on_cancel
on_cancel-SameHandshake request_id s = elim (Option-cases (lookup_entry s request_id)) [
  | inl missing ↦ rw (missing, on_cancel) refl
  | inr (found, e) ↦ rw (e, on_cancel) refl
]

end_request-SameHandshake :
    (p : Platform) (serial : ℕ) (outcome : Outcome) (s : ChannelServer)
    → SameHandshake s (end_request p serial outcome s)
unfolding end_request
end_request-SameHandshake p serial outcome s = elim (Option-cases (get s.running serial)) [
  | inl missing ↦ rw (missing, end_request) refl
  | inr (request, here) ↦ elim (Option-cases (get s.entries serial)) [
    | inl missing ↦ rw (here, missing, end_request) refl
    | inr (entry, found) ↦
        rw (here, found, end_request)
          (if-both (SameHandshake s) entry.cancelled refl
            (SentOnly-SameHandshake s _ (reply-SentOnly p entry.id outcome s)))
  ]
]

on_message-SameHandshake :
    (p : Platform) (identity : NodeIdentity) (decoded : Result KubusFrame) (s : ChannelServer)
    → decodes_to_challenge p decoded ≡ false
    → SameHandshake s (on_message p identity decoded s)
unfolding on_message on_bad_frame
on_message-SameHandshake p identity (err (frame_version v)) s plain =
    close-SameHandshake (send_error p 0 "protocol_version_unsupported" s)
    ∙ send_error-SameHandshake p 0 "protocol_version_unsupported" s
on_message-SameHandshake p identity (err _) s plain = refl
on_message-SameHandshake p identity (ok frame) s plain = by_type frame.type plain
  where
    by_type :
        (type : FrameType)
        → (is_head type && is_challenge p frame) ≡ false
        → SameHandshake s (on_frame p identity frame type s)
    by_type request_head plain = on_request_head-SameHandshake p identity frame s plain
    by_type request_chunk plain = on_request_chunk-SameHandshake p frame s
    by_type cancel plain = on_cancel-SameHandshake frame.request_id s
    by_type window_update plain = refl
    by_type response_head plain = refl
    by_type response_chunk plain = refl
    by_type error plain = refl

step-SameHandshake :
    (p : Platform) (identity : NodeIdentity) (event : Event) (s : ChannelServer)
    → challenges p event ≡ false
    → SameHandshake s (step p identity s event)
unfolding handle_message proof_timed_out
step-SameHandshake p identity (message bytes) s plain =
    if-both (SameHandshake s) s.closed refl
      (on_message-SameHandshake p identity (decode_frame p.parse bytes) s plain)
step-SameHandshake p identity (ends serial outcome) s plain =
    end_request-SameHandshake p serial outcome s
step-SameHandshake p identity times_out s plain =
    if-both (SameHandshake s) (not s.proof_timer) refl (
      if-both (SameHandshake s) s.identity_handshake_complete refl
        (close-SameHandshake (record s { proof_timer = false })))
step-SameHandshake p identity closes s plain = close-SameHandshake s
step-SameHandshake p identity loses_transport s plain = refl

run-SameHandshake :
    (p : Platform) (identity : NodeIdentity) (events : List Event) (s : ChannelServer)
    → any (challenges p) events ≡ false
    → SameHandshake s (run p identity s events)
unfolding run
run-SameHandshake p identity [] s plain = refl
run-SameHandshake p identity (event ∷ events) s plain =
    run-SameHandshake p identity events (step p identity s event) (ground arith)
    ∙ step-SameHandshake p identity event s (ground arith)

-- A channel counts as past its identity handshake only if one of its messages was the head of a
-- request for the challenge path with a nonce of 32 bytes and the protocol's version.
pub run-challenges :
    (p : Platform) (identity : NodeIdentity) (session_id : String) (max_requests max_bytes : ℕ)
    (events : List Event)
    → (run p identity
        (new_server session_id max_requests max_bytes)
        events).identity_handshake_complete
      ≡ true
    → any (challenges p) events ≡ true
run-challenges p identity session_id max_requests max_bytes events done =
    elim (Bool-cases (any (challenges p) events)) [
      | inl some_one ↦ some_one
      | inr none_one ↦ absurd (
          ground (
            arith,
            run-SameHandshake p identity events (new_server session_id max_requests max_bytes)
                none_one,
          ))
    ]
