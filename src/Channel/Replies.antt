-- ===== src/Channel/Replies.antt =====
-- src/webrtc/channelServer.ts: the frames of an answer.
use kubus_node.Base.{
  ℕ, String, str_eq, Bool, true, false, not, Option, none, some, List, [], ◌∷◌, ◌++◌, leb,
  if◌then◌else◌, length, text_key, number_key, string_key,
}
use kubus_node.Json.{Json, Fields, end, field, bool, num, str, obj}
use kubus_node.Frame.{
  KubusFrame, response_head, response_chunk, error, flag_final, max_payload_length, ok, err,
  encode_frame,
}
use kubus_node.Frame.Stream.{split_into_frames}
use kubus_node.Request.{LocalResponse, json, bytes, stream}
use kubus_node.Channel.{Platform, ChannelServer, Outcome, answered, typed_error, other_error}

abbrev pub frame_text : Platform → Fields → List ℕ
frame_text p fields = p.stringify (obj fields)

-- The fields that a frame may set.
unfoldable pub send_frame : Platform → KubusFrame → ChannelServer → ChannelServer
unfolding encode_frame
send_frame p frame server = elim (encode_frame (frame_text p) frame) [
  | ok encoded ↦ record server { sent = server.sent ++ frame ∷ [] }
  | err e ↦ server
]

-- `send`. A frame that cannot be encoded is logged and dropped.
unfoldable pub send : Platform → KubusFrame → ChannelServer → ChannelServer
unfolding send_frame
send p frame server = if not server.transport_open then server else send_frame p frame server

unfoldable pub send_all : Platform → List KubusFrame → ChannelServer → ChannelServer
unfolding send
send_all p [] server = server
send_all p (frame ∷ frames) server = send_all p frames (send p frame server)

abbrev pub error_frame : ℕ → String → KubusFrame
error_frame request_id message = record {
  type = error;
  request_id = request_id;
  flags = flag_final;
  metadata = some (field "message" (str message) end);
  payload = none;
}

abbrev pub send_error : Platform → ℕ → String → ChannelServer → ChannelServer
send_error p request_id message server = send p (error_frame request_id message) server

abbrev pub json_content_type : String
json_content_type = "application/json; charset=utf-8"

abbrev pub json_head : ℕ → ℕ → ℕ → Option (List ℕ) → KubusFrame
json_head request_id status flags payload = record {
  type = response_head;
  request_id = request_id;
  flags = flags;
  metadata = some (field "status" (num status) (field "contentType" (str json_content_type) end));
  payload = payload;
}

abbrev pub success : Json → Json
success value = obj (field "success" (bool true) (field "data" value end))

abbrev pub json_frames : ℕ → ℕ → List ℕ → List KubusFrame
json_frames request_id status payload =
    if leb (length payload) max_payload_length
    then json_head request_id status flag_final (some payload) ∷ []
    else json_head request_id status 0 none
      ∷ split_into_frames request_id response_chunk max_payload_length (payload ∷ [])

-- `sendJson`, with the chunks of a long document sent at once.
unfoldable pub send_json : Platform → ℕ → ℕ → Json → Bool → ChannelServer → ChannelServer
unfolding send_all
send_json p request_id status value envelope server =
    send_all p
      (json_frames request_id status (p.stringify (if envelope then success value else value)))
      server

abbrev pub optional_field : String → Option Json → Fields → Fields
optional_field key none fields = fields
optional_field key (some value) fields = field key value fields

abbrev pub as_number_field : Option ℕ → Option Json
as_number_field none = none
as_number_field (some n) = some (num n)

-- An empty text is falsy.
abbrev pub as_text_field : Option String → Option Json
as_text_field none = none
as_text_field (some s) = if str_eq s "" then none else some (str s)

abbrev pub body_head : ℕ → ℕ → String → Option ℕ → Option String → KubusFrame
body_head request_id status content_type content_length content_sha256 = record {
  type = response_head;
  request_id = request_id;
  flags = 0;
  metadata = some (
      field "status" (num status) (
        field "contentType" (str content_type) (
          optional_field "contentLength" (as_number_field content_length)
            (optional_field "contentSha256" (as_text_field content_sha256) end))));
  payload = none;
}

-- `sendResponse`, with the chunks of a body sent at once.
unfoldable pub send_response : Platform → ℕ → LocalResponse → ChannelServer → ChannelServer
unfolding send_json send_all
send_response p request_id (json status value) server =
    send_json p request_id status (success value) false server
send_response p request_id (bytes status content_type body content_sha256) server =
    send_all p
      (body_head request_id status content_type none content_sha256
        ∷ split_into_frames request_id response_chunk max_payload_length (body ∷ []))
      server
send_response p request_id (stream status content_type body content_length content_sha256) server =
    send_all p
      (body_head request_id status content_type content_length content_sha256
        ∷ split_into_frames request_id response_chunk max_payload_length body)
      server

abbrev pub or_local_error : Option String → String
or_local_error none = "local_error"
or_local_error (some code) = code

-- The end of a request that was not cancelled.
unfoldable pub reply : Platform → ℕ → Outcome → ChannelServer → ChannelServer
unfolding send_response send_json
reply p request_id (answered response) server = send_response p request_id response server
reply p request_id (typed_error status_code code) server =
    send_json p request_id status_code (obj (field "error" (str (or_local_error code)) end)) false
      server
reply p request_id other_error server = send_error p request_id "internal_error" server
