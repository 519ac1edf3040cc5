-- ===== src/Channel/Tests.antt =====
-- src/webrtc/channelServer.ts: runs of a channel, and the theorems at concrete inputs.
use kubus_node.Base.{
  ℕ, zero, suc, ◌≤◌, str_eq, ◌≡◌, refl, true, false, Option, none, some, List, [], ◌∷◌, ◌++◌, arith,
  ◌==◌, if◌then◌else◌, length, concat, any, All, units, text_key, number_key, string_key, get, put,
  remove, has,
}
use kubus_node.Json.{Json, Fields, end, field, str, obj, member}
use kubus_node.Frame.{
  KubusFrame, request_head, request_chunk, cancel, frame_bytes, decode_frame, decode_body,
  decode_metadata, encode_frame, write_u32, type_of_code, max_payload_length,
}
use kubus_node.Frame.Receive.{is_final_frame}
use kubus_node.Frame.Stream.{append, verify, new_reassembler}
use kubus_node.Identity.{NodeIdentity, build_identity_proof_message, create_identity_proof}
use kubus_node.Channel.{Platform, ChannelServer, InFlight, resolved, other_error, new_server}
use kubus_node.Channel.Replies.{send, send_frame, send_all, send_json, send_response, reply}
use kubus_node.Channel.Bodies.{
  got, to_query, bearer, authorization, read_credential, body_binary, sized_body, body_stream,
}
use kubus_node.Channel.Handlers.{
  local_request, run_request, admit, challenge_error, give_proof, answer_identity_challenge,
  on_request_head,
}
use kubus_node.Channel.Steps.{
  lookup_entry, receive_body, on_request_chunk, on_cancel, cancel_all, close, on_frame,
  on_bad_frame, on_message, handle_message, end_request, proof_timed_out, Event, message, ends, run,
}
use kubus_node.Channel.Slots.{Held}
use kubus_node.Channel.Bounds.{run-Held, run-Slots, new_server-Slots}
use kubus_node.Channel.Cancelled.{IsStranded, cancel_and_reuse, cancel_and_reuse-IsStranded}
use kubus_node.Channel.Flood.{flood, flood_runs}
use kubus_node.Channel.Challenges.{challenges}
use kubus_node.Channel.Handshake.{run-challenges}
use kubus_node.Channel.Streams.{IsPiece, body_stream-body_binary}

channel : Unit {0}
unfolding decode_frame decode_body decode_metadata encode_frame write_u32 type_of_code
    is_final_frame append verify member get put remove has build_identity_proof_message
    create_identity_proof send send_frame send_all send_json send_response reply to_query bearer
    authorization read_credential local_request run_request admit challenge_error give_proof
    answer_identity_challenge on_request_head lookup_entry receive_body on_request_chunk on_cancel
    cancel_all close on_frame on_bad_frame on_message handle_message end_request proof_timed_out run
channel = tt

abbrev row_of : ℕ → List ℕ
row_of zero = []
row_of (suc n) = 7 ∷ row_of n

abbrev info_fields : Fields
info_fields = field "path" (str "/local/v1/info") end

abbrev challenge_fields : Fields
challenge_fields = field "path" (str "/local/v1/identity/challenge") (field "nonce" (str "n") end)

abbrev parse : List ℕ → Option Json
parse [] = none
parse (b ∷ bytes) = if b == 1 then some (obj info_fields) else some (obj challenge_fields)

abbrev platform : Platform
platform = record {
  parse = parse;
  stringify = λ value. [];
  text_of = λ value. "";
  upper = λ text. text;
  lower = λ text. text;
  code_units = units;
  utf8 = units;
  from_base64 = λ text. if str_eq text "n" then row_of 32 else [];
  to_base64 = λ bytes. "";
  to_base64url = λ bytes. "";
}

abbrev node : NodeIdentity
node = record { public_key_raw = row_of 32; fingerprint = "f"; sign = λ bytes. [] }

abbrev open_info : Event
open_info = message (frame_bytes request_head 0 1 (1 ∷ []) [])

abbrev open_challenge : Event
open_challenge = message (frame_bytes request_head 1 2 (2 ∷ []) [])

abbrev cancel_one : Event
cancel_one = message (frame_bytes cancel 0 1 [] [])

abbrev chunk_one : Event
chunk_one = message (frame_bytes request_chunk 1 1 [] (5 ∷ []))

abbrev events : List Event
events = open_challenge ∷ open_info ∷ cancel_one ∷ open_info ∷ ends 0 other_error ∷ chunk_one ∷ []

abbrev new_channel : ChannelServer
new_channel = new_server "s" 1 10

handled :
    ((run platform node new_channel events).in_flight ≡ [])
    × (length (run platform node new_channel events).running ≡ 1)
    × (length (run platform node new_channel events).sent ≡ 1)
unfolding channel
handled = (refl, refl, refl)

run-Held_example :
    (length (run platform node new_channel events).in_flight ≤ 1)
    × Held (run platform node new_channel events)
run-Held_example = run-Held platform node "s" 1 10 events

all_ended : (run platform node new_channel (events ++ ends 1 other_error ∷ [])).running ≡ []
unfolding channel
all_ended = refl

challenged : (run platform node new_channel events).identity_handshake_complete ≡ true
unfolding channel
challenged = refl

run-challenges_example : any (challenges platform) events ≡ true
run-challenges_example = run-challenges platform node "s" 1 10 events challenged

-- A channel with one request that waits for its body.
abbrev waiting_server : ChannelServer
waiting_server = run platform node new_channel (open_info ∷ [])

abbrev head : KubusFrame
head = record {
  type = request_head;
  request_id = 1;
  flags = 0;
  metadata = some info_fields;
  payload = none;
}

first_entry : (entry : InFlight) × (get waiting_server.entries 0 ≡ some entry)
unfolding channel
first_entry = (_, refl)

cancel_and_reuse-IsStranded_example :
    IsStranded 1 waiting_server.next_serial
      (cancel_and_reuse platform node head other_error waiting_server 0 first_entry.0)
    × (on_request_chunk platform head
          (cancel_and_reuse platform node head other_error waiting_server 0 first_entry.0)
        ≡ cancel_and_reuse platform node head other_error waiting_server 0 first_entry.0)
unfolding channel
cancel_and_reuse-IsStranded_example =
    cancel_and_reuse-IsStranded platform node head head other_error waiting_server 0 first_entry.0
      (run-Slots platform node (open_info ∷ []) new_channel (new_server-Slots "s" 1 10)) refl
      first_entry.1 (refl, refl)

flood_runs_example :
    (length (flood platform node head 40 new_channel).running ≡ 40)
    × ((flood platform node head 40 new_channel).in_flight ≡ [])
unfolding channel
flood_runs_example =
    flood_runs platform node head 40 new_channel (refl, refl) (new_server-Slots "s" 1 10) refl
      (omega arith)

abbrev read_entry : InFlight
read_entry = record {
  id = 1;
  method = "PUT";
  path = "/local/v1/info";
  reassembler = new_reassembler 10;
  metadata = end;
  cancelled = false;
  body_complete = true;
  body_promise = resolved (row_of 3);
  started = true;
}

body_stream-body_binary_example :
    (pieces : List (List ℕ)) × (body_stream read_entry ≡ got pieces)
    × (concat pieces ≡ row_of 3)
    × All (IsPiece max_payload_length) pieces
unfolding body_binary sized_body
body_stream-body_binary_example = body_stream-body_binary 10 read_entry (row_of 3) refl
