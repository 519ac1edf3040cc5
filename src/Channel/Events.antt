-- ===== src/Channel/Events.antt =====
-- src/webrtc/channelServer.ts: every event on a channel is a move of the table of requests.
use kubus_node.Base.{
  ℕ, ◌+◌, ◌<◌, String, str_eq, ◌≡◌, refl, sym, ap, ◌∙◌, subst, inl, inr, true, false, not, none,
  some, arith, leb, if◌then◌else◌, if-both, Bool-cases, Option-cases, length, text_key, number_key,
  string_key, get, put, remove, has, get-put_self, get-put_ne,
}
use kubus_node.Json.{Fields, member}
use kubus_node.Frame.{
  KubusFrame, FrameType, FrameError, frame_version, ok, err, Result, decode_frame, request_head,
  request_chunk, response_head, response_chunk, cancel, window_update, error,
}
use kubus_node.Frame.Receive.{is_final_frame}
use kubus_node.Identity.{NodeIdentity}
use kubus_node.Channel.{Platform, ChannelServer, InFlight, Outcome, identity_challenge_path}
use kubus_node.Channel.Replies.{send_error, error_frame, reply}
use kubus_node.Channel.Bodies.{text_or}
use kubus_node.Channel.Handlers.{
  answer_identity_challenge, on_request_head, admit, run_request, new_entry, mark_final,
  or_no_fields,
}
use kubus_node.Channel.Sent.{
  SentOnly, send-SentOnly, reply-SentOnly, answer_identity_challenge-SentOnly,
}
use kubus_node.Channel.Steps.{
  drop_id, close, on_frame, on_bad_frame, handle_message, on_message, end_request, proof_timed_out,
  Event, message, ends, times_out, closes, loses_transport, step,
}
use kubus_node.Channel.Moves.{
  entry_id, Move, keeps, admits, finishes, same, SentOnly-keeps, close-Move, on_request_chunk-Move,
  on_cancel-Move,
}

-- A new entry, written under the next serial.
abbrev insert_entry : ℕ → InFlight → ChannelServer → ChannelServer
insert_entry request_id entry s = record s {
  entries = put s.entries s.next_serial entry;
  next_serial = s.next_serial + 1;
  in_flight = put s.in_flight request_id s.next_serial;
}

abbrev unstarted : InFlight → InFlight
unstarted entry = record entry { started = false }

run_request-Move :
    (p : Platform) (entry : InFlight) (s : ChannelServer)
    → get s.in_flight entry.id ≡ none
    → length s.in_flight < s.max_concurrent_requests
    → Move s
        (run_request p s.next_serial (unstarted entry) (insert_entry entry.id (unstarted entry) s))
unfolding run_request
run_request-Move p entry s free room =
    admits entry.id _ free room refl refl refl refl
      (ap entry_id (
        get-put_self (put s.entries s.next_serial (unstarted entry)) s.next_serial
          (record entry { started = true })))
      (λ serial apart. ap entry_id (
        get-put_ne (put s.entries s.next_serial (unstarted entry)) s.next_serial
          (record entry { started = true }) apart
        ∙ get-put_ne s.entries s.next_serial (unstarted entry) apart))

admit-Move :
    (p : Platform) (frame : KubusFrame) (s : ChannelServer)
    → get s.in_flight frame.request_id ≡ none
    → length s.in_flight < s.max_concurrent_requests
    → Move s (admit p frame s)
unfolding admit
admit-Move p frame s free room = elim (Bool-cases (is_final_frame frame)) [
  | inl final ↦
      rw (final, admit) (run_request-Move p (mark_final true (new_entry p frame s)) s free room)
  | inr more ↦ rw (more, admit) (run_request-Move p (new_entry p frame s) s free room)
]

answer_identity_challenge-Move :
    (p : Platform) (identity : NodeIdentity) (request_id : ℕ) (metadata : Fields)
    (s : ChannelServer)
    → Move s (answer_identity_challenge p identity request_id metadata s)
answer_identity_challenge-Move p identity request_id metadata s =
    elim (answer_identity_challenge-SentOnly p identity request_id metadata s) [
      | inl same ↦ SentOnly-keeps s _ same
      | inr (fine, (frames, e)) ↦ rw e (keeps (same s) refl)
    ]

pub on_request_head-Move :
    (p : Platform) (identity : NodeIdentity) (frame : KubusFrame) (s : ChannelServer)
    → Move s (on_request_head p identity frame s)
unfolding on_request_head has
on_request_head-Move p identity frame s = elim (Option-cases (get s.in_flight frame.request_id)) [
  | inr (serial, used) ↦ rw (used, on_request_head) (refuse "request_id_in_use")
  | inl free ↦
      rw (free, on_request_head)
        (if-both (Move s)
          (str_eq (text_or p "" (member "path" (or_no_fields frame.metadata)))
            identity_challenge_path)
          (answer_identity_challenge-Move p identity frame.request_id (or_no_fields frame.metadata)
            s)
          (counted free))
]
  where
    refuse : (text : String) → Move s (send_error p frame.request_id text s)
    refuse text = SentOnly-keeps s _ (send-SentOnly p (error_frame frame.request_id text) s)

    counted :
        get s.in_flight frame.request_id ≡ none
        → Move s (
            if leb s.max_concurrent_requests (length s.in_flight)
            then send_error p frame.request_id "too_many_concurrent_requests" s
            else admit p frame s)
    counted free = elim (Bool-cases (leb s.max_concurrent_requests (length s.in_flight))) [
      | inl full ↦ rw full (refuse "too_many_concurrent_requests")
      | inr room ↦ rw room (admit-Move p frame s free (ground arith))
    ]

end_request-Move :
    (p : Platform) (serial : ℕ) (outcome : Outcome) (s : ChannelServer)
    → Move s (end_request p serial outcome s)
unfolding end_request
end_request-Move p serial outcome s = elim (Option-cases (get s.running serial)) [
  | inl missing ↦ rw (missing, end_request) (keeps (same s) refl)
  | inr (request, here) ↦ elim (Option-cases (get s.entries serial)) [
    | inl missing ↦ rw (here, missing, end_request) (keeps (same s) refl)
    | inr (entry, found) ↦
        rw (here, found, end_request) (ended entry found _ (silent_or_sent entry))
  ]
]
  where
    silent_or_sent :
        (entry : InFlight) → SentOnly s (if entry.cancelled then s else reply p entry.id outcome s)
    silent_or_sent entry =
        if-both (SentOnly s) entry.cancelled (s.sent, refl) (reply-SentOnly p entry.id outcome s)

    ended :
        (entry : InFlight)
        → get s.entries serial ≡ some entry
        → (t : ChannelServer) → SentOnly s t
        → Move s (drop_id entry.id (record t { running = remove s.running serial }))
    ended entry found t (frames, e) =
        rw e (finishes serial entry.id (ap entry_id found) refl refl refl refl (λ serial. refl))

on_frame-Move :
    (p : Platform) (identity : NodeIdentity) (frame : KubusFrame) (type : FrameType)
    (s : ChannelServer)
    → Move s (on_frame p identity frame type s)
unfolding on_frame
on_frame-Move p identity frame request_head s = on_request_head-Move p identity frame s
on_frame-Move p identity frame request_chunk s = on_request_chunk-Move p frame s
on_frame-Move p identity frame cancel s = on_cancel-Move frame.request_id s
on_frame-Move p identity frame window_update s = keeps (same s) refl
on_frame-Move p identity frame response_head s = keeps (same s) refl
on_frame-Move p identity frame response_chunk s = keeps (same s) refl
on_frame-Move p identity frame error s = keeps (same s) refl

on_bad_frame-Move :
    (p : Platform) (e : FrameError) (s : ChannelServer) → Move s (on_bad_frame p e s)
unfolding on_bad_frame
on_bad_frame-Move p (frame_version v) s =
    let (frames, e) = send-SentOnly p (error_frame 0 "protocol_version_unsupported") s in
    subst {A = ChannelServer} (λ v. Move s (close v)) (sym e)
      (close-Move s (record s { sent = frames }) (same s) refl)
on_bad_frame-Move p _ s = keeps (same s) refl

on_message-Move :
    (p : Platform) (identity : NodeIdentity) (decoded : Result KubusFrame) (s : ChannelServer)
    → Move s (on_message p identity decoded s)
unfolding on_message
on_message-Move p identity (ok frame) s = on_frame-Move p identity frame frame.type s
on_message-Move p identity (err e) s = on_bad_frame-Move p e s

-- Every event moves the table in one of the five ways.
pub step-Move :
    (p : Platform) (identity : NodeIdentity) (s : ChannelServer) (event : Event)
    → Move s (step p identity s event)
unfolding proof_timed_out handle_message
step-Move p identity s (message bytes) =
    if-both (Move s) s.closed (keeps (same s) refl)
      (on_message-Move p identity (decode_frame p.parse bytes) s)
step-Move p identity s (ends serial outcome) = end_request-Move p serial outcome s
step-Move p identity s times_out = if-both (Move s) (not s.proof_timer) (keeps (same s) refl) (
    if-both (Move s) s.identity_handshake_complete (keeps (same s) refl)
      (close-Move s (record s { proof_timer = false }) (same s) refl))
step-Move p identity s closes = close-Move s s (same s) refl
step-Move p identity s loses_transport = keeps (same s) refl
