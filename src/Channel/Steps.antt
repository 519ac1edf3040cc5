-- ===== src/Channel/Steps.antt =====
-- src/webrtc/channelServer.ts: bodies, cancellation, the end of a request, and the channel's events.
use kubus_node.Base.{
  ℕ, true, false, not, Option, none, some, List, [], ◌∷◌, if◌then◌else◌, text_key, number_key,
  string_key, Dict, get, put, remove,
}
use kubus_node.Frame.{
  FrameType, KubusFrame, FrameError, request_head, request_chunk, response_head, response_chunk,
  cancel, window_update, error, frame_version, ok, err, Result, decode_frame,
}
use kubus_node.Frame.Stream.{StreamError, append, verify, take_body}
use kubus_node.Frame.Receive.{is_final_frame}
use kubus_node.Identity.{NodeIdentity}
use kubus_node.Channel.{
  Platform, InFlight, ChannelServer, BodyFailure, stream_failed, cancelled_by_peer, channel_closed,
  resolve_body, reject_body, Outcome,
}
use kubus_node.Channel.Replies.{send_error, reply}
use kubus_node.Channel.Handlers.{on_request_head}

-- The entry that the table has for a request id.
unfoldable pub lookup_entry : ChannelServer → ℕ → Option (ℕ × InFlight)
lookup_entry server request_id = elim (get server.in_flight request_id) [
  | none ↦ none
  | some serial ↦ elim (get server.entries serial) [
    | none ↦ none
    | some entry ↦ some (serial, entry)
  ]
]

abbrev pub update_entry : ℕ → InFlight → ChannelServer → ChannelServer
update_entry serial entry server = record server { entries = put server.entries serial entry }

abbrev pub drop_id : ℕ → ChannelServer → ChannelServer
drop_id request_id server = record server { in_flight = remove server.in_flight request_id }

-- The `catch` of `onRequestChunk`.
abbrev pub break_body : Platform → ℕ → ℕ → InFlight → StreamError → ChannelServer → ChannelServer
break_body p request_id serial entry e server = drop_id request_id (
    send_error p request_id "request_body_invalid" (
      update_entry serial
        (record entry { body_promise = reject_body (stream_failed e) entry.body_promise }) server))

abbrev pub complete_body : InFlight → InFlight
complete_body entry = record entry {
  body_complete = true;
  body_promise = resolve_body (take_body entry.reassembler) entry.body_promise;
}

unfoldable pub receive_body : Platform → KubusFrame → ℕ → InFlight → ChannelServer → ChannelServer
unfolding is_final_frame
receive_body p frame serial entry server =
    let appended = append entry.reassembler frame.payload in
    let current = record entry { reassembler = appended.0 } in
    elim appended.1 [
      | some e ↦ break_body p frame.request_id serial current e server
      | none ↦
          if not (is_final_frame frame)
          then update_entry serial current server
          else elim (verify appended.0 frame.metadata) [
            | some e ↦ break_body p frame.request_id serial current e server
            | none ↦ update_entry serial (complete_body current) server
          ]
    ]

unfoldable pub on_request_chunk : Platform → KubusFrame → ChannelServer → ChannelServer
unfolding receive_body
on_request_chunk p frame server = elim (lookup_entry server frame.request_id) [
  | none ↦ server
  | some (serial, entry) ↦
      if entry.cancelled then server else receive_body p frame serial entry server
]

abbrev pub cancel_entry : BodyFailure → InFlight → InFlight
cancel_entry why entry = record entry {
  cancelled = true;
  body_promise = reject_body why entry.body_promise;
}

unfoldable pub on_cancel : ℕ → ChannelServer → ChannelServer
on_cancel request_id server = elim (lookup_entry server request_id) [
  | none ↦ server
  | some (serial, entry) ↦
      drop_id request_id (update_entry serial (cancel_entry cancelled_by_peer entry) server)
]

-- The loop of `close` over the table.
unfoldable pub cancel_all : Dict ℕ ℕ → Dict ℕ InFlight → Dict ℕ InFlight
cancel_all [] entries = entries
cancel_all ((id, serial) ∷ table) entries = elim (get entries serial) [
  | none ↦ cancel_all table entries
  | some entry ↦ cancel_all table (put entries serial (cancel_entry channel_closed entry))
]

unfoldable pub close : ChannelServer → ChannelServer
unfolding cancel_all
close server = if server.closed then server else record server {
  closed = true;
  proof_timer = false;
  entries = cancel_all server.in_flight server.entries;
  in_flight = [];
  transport_open = false;
}

unfoldable pub on_frame :
    Platform → NodeIdentity → KubusFrame → FrameType → ChannelServer → ChannelServer
unfolding on_request_head on_request_chunk on_cancel
on_frame p identity frame request_head server = on_request_head p identity frame server
on_frame p identity frame request_chunk server = on_request_chunk p frame server
on_frame p identity frame cancel server = on_cancel frame.request_id server
on_frame p identity frame window_update server = server
on_frame p identity frame response_head server = server
on_frame p identity frame response_chunk server = server
on_frame p identity frame error server = server

unfoldable pub on_bad_frame : Platform → FrameError → ChannelServer → ChannelServer
unfolding close
on_bad_frame p (frame_version v) server =
    close (send_error p 0 "protocol_version_unsupported" server)
on_bad_frame p _ server = server

unfoldable pub on_message :
    Platform → NodeIdentity → Result KubusFrame → ChannelServer → ChannelServer
unfolding on_frame on_bad_frame
on_message p identity (ok frame) server = on_frame p identity frame frame.type server
on_message p identity (err e) server = on_bad_frame p e server

unfoldable pub handle_message : Platform → NodeIdentity → List ℕ → ChannelServer → ChannelServer
unfolding on_message decode_frame
handle_message p identity bytes server =
    if server.closed then server else on_message p identity (decode_frame p.parse bytes) server

-- The end of `runRequest`: no answer to a cancelled request, and the `finally`.
unfoldable pub end_request : Platform → ℕ → Outcome → ChannelServer → ChannelServer
unfolding reply
end_request p serial outcome server = elim (get server.running serial) [
  | none ↦ server
  | some request ↦ elim (get server.entries serial) [
    | none ↦ server
    | some entry ↦
        drop_id entry.id
          (record (if entry.cancelled then server else reply p entry.id outcome server) {
            running = remove server.running serial;
          })
  ]
]

-- The timer of the constructor.
unfoldable pub proof_timed_out : ChannelServer → ChannelServer
unfolding close
proof_timed_out server =
    if not server.proof_timer
    then server
    else if server.identity_handshake_complete
    then record server { proof_timer = false }
    else close (record server { proof_timer = false })

-- What happens to a channel, in any order.
pub data Event : Type 0 where
  message : List ℕ → Event
  ends : (serial : ℕ) → Outcome → Event
  times_out closes loses_transport : Event

module _ (p : Platform) (identity : NodeIdentity) where
  abbrev pub step : ChannelServer → Event → ChannelServer
  step server (message bytes) = handle_message p identity bytes server
  step server (ends serial outcome) = end_request p serial outcome server
  step server times_out = proof_timed_out server
  step server closes = close server
  step server loses_transport = record server { transport_open = false }

  unfoldable pub run : ChannelServer → List Event → ChannelServer
  unfolding handle_message end_request proof_timed_out close
  run server [] = server
  run server (event ∷ events) = run (step server event) events
