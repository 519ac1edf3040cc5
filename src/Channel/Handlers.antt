-- ===== src/Channel/Handlers.antt =====
-- src/webrtc/channelServer.ts: what the server does with each message, and when a request ends.
use kubus_node.Base.{
  ℕ, ◌+◌, String, str_eq, Bool, true, false, not, Option, none, some, List, [], leb, ◌==◌,
  if◌then◌else◌, length, Text, text_key, number_key, string_key, put, has,
}
use kubus_node.Json.{Json, Fields, end, field, str, obj, member}
use kubus_node.Frame.{KubusFrame}
use kubus_node.Frame.Stream.{new_reassembler}
use kubus_node.Frame.Receive.{is_final_frame}
use kubus_node.Request.{LocalPeer, LocalRequest, webrtc}
use kubus_node.Identity.{
  NodeIdentity, IdentityProof, identity_proof_protocol_version, nonce_length, create_identity_proof,
}
use kubus_node.Channel.{
  Platform, InFlight, ChannelServer, pending, resolve_body, identity_challenge_path,
}
use kubus_node.Channel.Replies.{send_error, send_json}
use kubus_node.Channel.Bodies.{as_string, text_or, to_query, read_credential}

abbrev pub or_no_fields : Option Fields → Fields
or_no_fields none = end
or_no_fields (some fields) = fields

abbrev pub or_empty_text : Option String → String
or_empty_text none = ""
or_empty_text (some text) = text

abbrev pub peer : ChannelServer → LocalPeer
peer server = record {
  kind = webrtc;
  address = none;
  identity_handshake_complete = server.identity_handshake_complete;
  session_id = some server.session_id;
}

abbrev pub code_units_of : Platform → Option String → Option Text
code_units_of p none = none
code_units_of p (some text) = some (p.code_units text)

-- The request that `runRequest` hands to the dispatcher.
unfoldable pub local_request : Platform → InFlight → ChannelServer → LocalRequest
local_request p entry server = record {
  method = entry.method;
  path = entry.path;
  query = to_query (member "query" entry.metadata);
  credential = read_credential p entry.metadata;
  idempotency_key = code_units_of p (as_string (member "idempotencyKey" entry.metadata));
  content_type = as_string (member "contentType" entry.metadata);
  peer = peer server;
}

-- `runRequest` up to the call of the dispatcher.
unfoldable pub run_request : Platform → ℕ → InFlight → ChannelServer → ChannelServer
unfolding local_request
run_request p serial entry server = if entry.started then server else record server {
  entries = put server.entries serial (record entry { started = true });
  running = put server.running serial (local_request p entry server);
}

abbrev pub mark_final : Bool → InFlight → InFlight
mark_final final entry =
    if final
    then record entry { body_complete = true; body_promise = resolve_body [] entry.body_promise }
    else entry

abbrev pub new_entry : Platform → KubusFrame → ChannelServer → InFlight
new_entry p frame server = record {
  id = frame.request_id;
  method = p.upper (text_or p "GET" (member "method" (or_no_fields frame.metadata)));
  path = text_or p "" (member "path" (or_no_fields frame.metadata));
  reassembler = new_reassembler server.max_request_body_bytes;
  metadata = or_no_fields frame.metadata;
  cancelled = false;
  body_complete = false;
  body_promise = pending;
  started = false;
}

-- The head of a request that is let in.
unfoldable pub admit : Platform → KubusFrame → ChannelServer → ChannelServer
unfolding run_request is_final_frame
admit p frame server =
    let entry = mark_final (is_final_frame frame) (new_entry p frame server) in
    run_request p server.next_serial entry (record server {
      entries = put server.entries server.next_serial entry;
      next_serial = server.next_serial + 1;
      in_flight = put server.in_flight frame.request_id server.next_serial;
    })

abbrev pub proof_value : Platform → String → IdentityProof → Json
proof_value p session_id proof = obj (
    field "protocolVersion" (str identity_proof_protocol_version) (
      field "sessionId" (str session_id) (
        field "publicKey" (str (p.to_base64url proof.public_key_raw)) (
          field "fingerprint" (str proof.fingerprint)
            (field "signature" (str (p.to_base64 proof.signature)) end)))))

-- The challenge is answered: the channel is past its handshake.
abbrev pub complete_handshake : ChannelServer → ChannelServer
complete_handshake server = record server {
  identity_handshake_complete = true;
  proof_timer = false;
}

abbrev pub version_of : Option String → String
version_of none = identity_proof_protocol_version
version_of (some version) = version

abbrev pub challenge_nonce : Platform → Fields → List ℕ
challenge_nonce p metadata = p.from_base64 (or_empty_text (as_string (member "nonce" metadata)))

-- The code that a challenge is refused with.
unfoldable pub challenge_error : Platform → Fields → Option String
challenge_error p metadata =
    if not (length (challenge_nonce p metadata) == nonce_length)
    then some "identity_challenge_invalid"
    else if not (
        str_eq (version_of (as_string (member "protocolVersion" metadata)))
          identity_proof_protocol_version)
    then some "identity_protocol_version_unsupported"
    else none

-- `create_identity_proof` throws for no key of the right length.
unfoldable pub give_proof : Platform → NodeIdentity → ℕ → Fields → ChannelServer → ChannelServer
give_proof p identity request_id metadata server =
    elim (create_identity_proof identity (p.utf8 identity_proof_protocol_version)
      (p.utf8 server.session_id) (challenge_nonce p metadata) (p.utf8 "client")) [
        | none ↦ server
        | some proof ↦
            send_json p request_id 200 (proof_value p server.session_id proof) true
              (complete_handshake server)
      ]

unfoldable pub answer_identity_challenge :
    Platform → NodeIdentity → ℕ → Fields → ChannelServer → ChannelServer
unfolding challenge_error give_proof
answer_identity_challenge p identity request_id metadata server =
    elim (challenge_error p metadata) [
      | some message ↦ send_error p request_id message server
      | none ↦ give_proof p identity request_id metadata server
    ]

unfoldable pub on_request_head :
    Platform → NodeIdentity → KubusFrame → ChannelServer → ChannelServer
unfolding answer_identity_challenge admit
on_request_head p identity frame server =
    let metadata = or_no_fields frame.metadata in
    if has server.in_flight frame.request_id
    then send_error p frame.request_id "request_id_in_use" server
    else if str_eq (text_or p "" (member "path" metadata)) identity_challenge_path
    then answer_identity_challenge p identity frame.request_id metadata server
    else if leb server.max_concurrent_requests (length server.in_flight)
    then send_error p frame.request_id "too_many_concurrent_requests" server
    else admit p frame server
