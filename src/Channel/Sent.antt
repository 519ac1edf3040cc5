-- ===== src/Channel/Sent.antt =====
-- src/webrtc/channelServer.ts: what sending frames leaves alone.
use kubus_node.Base.{
  ℕ, ◌≡◌, refl, ap, ◌∙◌, ◌⊎◌, inl, inr, Bool, true, false, not, none, List, [], ◌∷◌, ◌++◌,
  if◌then◌else◌, if-both, Option-cases, text_key, number_key, string_key,
}
use kubus_node.Json.{Json, Fields, obj, field, str, end}
use kubus_node.Frame.{
  KubusFrame, FrameError, ok, err, encode_frame, response_chunk, Result, max_payload_length,
}
use kubus_node.Request.{json, bytes, stream}
use kubus_node.Identity.{NodeIdentity, create_identity_proof, identity_proof_protocol_version}
use kubus_node.Channel.{Platform, ChannelServer, Outcome, answered, typed_error, other_error}
use kubus_node.Frame.Stream.{split_into_frames}
use kubus_node.Channel.Replies.{
  frame_text, send_frame, json_frames, success, body_head, or_local_error, error_frame, send,
  send_all, send_json, send_response, reply,
}
use kubus_node.Channel.Handlers.{
  challenge_error, challenge_nonce, give_proof, complete_handshake, proof_value,
  answer_identity_challenge,
}

-- The second server is the first with other frames sent.
abbrev pub SentOnly : ChannelServer → ChannelServer → Type 0
SentOnly before after = (frames : List KubusFrame) × (after ≡ record before { sent = frames })

Result-cases {ℓ} :
    {A : Type ℓ} (r : Result A) → ((a : A) × (r ≡ ok a)) ⊎ ((e : FrameError) × (r ≡ err e))
Result-cases (ok a) = inl (a, refl)
Result-cases (err e) = inr (e, refl)

send_frame-SentOnly :
    (p : Platform) (frame : KubusFrame) (server : ChannelServer)
    → SentOnly server (send_frame p frame server)
unfolding send_frame
send_frame-SentOnly p frame server = elim (Result-cases (encode_frame (frame_text p) frame)) [
  | inl (encoded, e) ↦ (server.sent ++ frame ∷ [], rw (e, send_frame) refl)
  | inr (why, e) ↦ (server.sent, rw (e, send_frame) refl)
]

pub send-SentOnly :
    (p : Platform) (frame : KubusFrame) (server : ChannelServer)
    → SentOnly server (send p frame server)
unfolding send
send-SentOnly p frame server =
    if-both (SentOnly server) (not server.transport_open) (server.sent, refl)
      (send_frame-SentOnly p frame server)

pub send_all-SentOnly :
    (p : Platform) (frames : List KubusFrame) (server : ChannelServer)
    → SentOnly server (send_all p frames server)
unfolding send_all
send_all-SentOnly p [] server = (server.sent, refl)
send_all-SentOnly p (frame ∷ frames) server =
    let first = send-SentOnly p frame server in
    let rest = send_all-SentOnly p frames (send p frame server) in
    (rest.0, rest.1 ∙ ap {A = ChannelServer} (λ s. record s { sent = rest.0 }) first.1)

pub send_json-SentOnly :
    (p : Platform) (request_id status : ℕ) (value : Json) (envelope : Bool) (server : ChannelServer)
    → SentOnly server (send_json p request_id status value envelope server)
unfolding send_json
send_json-SentOnly p request_id status value envelope server =
    send_all-SentOnly p
      (json_frames request_id status (p.stringify (if envelope then success value else value)))
      server

pub reply-SentOnly :
    (p : Platform) (request_id : ℕ) (outcome : Outcome) (server : ChannelServer)
    → SentOnly server (reply p request_id outcome server)
unfolding reply send_response
reply-SentOnly p request_id (answered (json status value)) server =
    send_json-SentOnly p request_id status (success value) false server
reply-SentOnly p request_id (answered (bytes status type body sha)) server =
    send_all-SentOnly p
      (body_head request_id status type none sha
        ∷ split_into_frames request_id response_chunk max_payload_length (body ∷ []))
      server
reply-SentOnly p request_id (answered (stream status type body n sha)) server =
    send_all-SentOnly p
      (body_head request_id status type n sha
        ∷ split_into_frames request_id response_chunk max_payload_length body)
      server
reply-SentOnly p request_id (typed_error status code) server =
    send_json-SentOnly p request_id status (obj (field "error" (str (or_local_error code)) end))
      false server
reply-SentOnly p request_id other_error server =
    send-SentOnly p (error_frame request_id "internal_error") server

-- A challenge changes what was sent, and the handshake if it is well formed.
pub answer_identity_challenge-SentOnly :
    (p : Platform) (identity : NodeIdentity) (request_id : ℕ) (metadata : Fields)
    (server : ChannelServer)
    → SentOnly server (answer_identity_challenge p identity request_id metadata server)
      ⊎ ((challenge_error p metadata ≡ none)
          × SentOnly
              (complete_handshake server)
              (answer_identity_challenge p identity request_id metadata server))
unfolding answer_identity_challenge give_proof
answer_identity_challenge-SentOnly p identity request_id metadata server =
    elim (Option-cases (challenge_error p metadata)) [
      | inr (code, e) ↦
          inl (
            rw (e, answer_identity_challenge)
              (send-SentOnly p (error_frame request_id code) server))
      | inl fine ↦
          elim (Option-cases (
            create_identity_proof identity (p.utf8 identity_proof_protocol_version)
              (p.utf8 server.session_id) (challenge_nonce p metadata) (p.utf8 "client"))) [
                | inl e ↦
                    inl (server.sent, rw (fine, e, answer_identity_challenge, give_proof) refl)
                | inr (proof, e) ↦ inr (
                  fine,
                  rw (fine, e, answer_identity_challenge, give_proof)
                      (send_json-SentOnly p request_id 200 (proof_value p server.session_id proof)
                        true (complete_handshake server)),
                )
              ]
    ]
