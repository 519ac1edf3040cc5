-- ===== src/Channel.antt =====
-- src/webrtc/channelServer.ts: one data channel that serves the node's operations.
-- Entries are objects, so each has a serial, and the table holds serials.
pub mod Replies
pub mod Bodies
pub mod Handlers
pub mod Steps
pub mod Sent
pub mod Moves
pub mod Events
pub mod Slots
pub mod Bounds
pub mod Streams
pub mod Heads
pub mod Cancelled
pub mod Flood
pub mod Challenges
pub mod Handshake
pub mod Tests
use kubus_node.Base.{
  ℕ, zero, suc, ◌+◌, ◌-◌, ◌*◌, ◌/◌, ◌%◌, ◌^◌, ◌≤◌, ◌<◌, min, max, bit_and, bit_or, bit_xor, String,
  str_eq, starts_with, eq_iff, eq_refl, ◌≡◌, refl, sym, ap, ap₂, ◌∙◌, subst, ◌≡⟨◌⟩◌, ◌∎, ◌≢◌, ◌↔◌,
  ◌⊎◌, inl, inr, Bool, true, false, not, ◌&&◌, ◌||◌, Option, none, some, List, [], ◌∷◌, ◌++◌, map,
  map-append, append-nil, append_assoc, arith, ltb, leb, ◌==◌, if◌then◌else◌, ltb→lt, lt→ltb,
  le→ltb, leb→le, ==_iff, Bool-cases, Option-cases, is_some, length, get_or, take, drop, concat,
  every, any, All, length-append, length-take, length-drop, take-append-drop, take-append,
  drop-append, All-append, drop-drop, concat-append, Text, units, same_text, same_text_iff,
  begins_with, is_space, holds_unit, cut_unique, text_key, number_key, string_key, Dict, Key, get,
  put, remove, has, get-put, get-put_self, get-put_ne, get-remove, get-remove_self, get-remove_ne,
  length-put, length-remove, Values, Values-put, Values-remove, Values-get,
}
use kubus_node.Json.{Json, Fields}
use kubus_node.Frame.{KubusFrame}
use kubus_node.Frame.Stream.{StreamError, Reassembler}
use kubus_node.Request.{LocalRequest, LocalResponse}
use kubus_node.Identity.{NodeIdentity}

abbrev pub default_max_concurrent_requests : ℕ
default_max_concurrent_requests = 16

abbrev pub default_max_request_body_bytes : ℕ
default_max_request_body_bytes = 192 * 1024 * 1024

abbrev pub identity_challenge_path : String
identity_challenge_path = "/local/v1/identity/challenge"

-- What the server uses of V8 and of `Buffer`: `JSON.parse` of UTF-8 bytes (`none` where it throws),
-- `JSON.stringify` as UTF-8 bytes, `String(value)`, the two case conversions, a string's UTF-16 code
-- units and UTF-8 bytes, and base64 both ways.
pub record Platform : Type 0 where
  pub parse : List ℕ → Option Json
  pub stringify : Json → List ℕ
  pub text_of : Json → String
  pub upper : String → String
  pub lower : String → String
  pub code_units : String → Text
  pub utf8 : String → List ℕ
  pub from_base64 : String → List ℕ
  pub to_base64 : List ℕ → String
  pub to_base64url : List ℕ → String

pub data BodyFailure : Type 0 where
  stream_failed : StreamError → BodyFailure
  cancelled_by_peer channel_closed : BodyFailure

-- `bodyPromise`.
pub data BodyPromise : Type 0 where
  pending : BodyPromise
  resolved : List ℕ → BodyPromise
  rejected : BodyFailure → BodyPromise

-- `resolveBody` and `rejectBody`: a promise settles once.
abbrev pub resolve_body : List ℕ → BodyPromise → BodyPromise
resolve_body body pending = resolved body
resolve_body body (resolved old) = resolved old
resolve_body body (rejected why) = rejected why

abbrev pub reject_body : BodyFailure → BodyPromise → BodyPromise
reject_body why pending = rejected why
reject_body why (resolved old) = resolved old
reject_body why (rejected first) = rejected first

pub record InFlight : Type 0 where
  pub id : ℕ
  pub method : String
  pub path : String
  pub reassembler : Reassembler
  pub metadata : Fields
  pub cancelled : Bool
  pub body_complete : Bool
  pub body_promise : BodyPromise
  pub started : Bool

-- `running` holds the request of each `runRequest` that has not ended, `sent` the frames that went
-- to the transport.
pub record ChannelServer : Type 0 where
  pub session_id : String
  pub max_concurrent_requests : ℕ
  pub max_request_body_bytes : ℕ
  pub entries : Dict ℕ InFlight
  pub next_serial : ℕ
  pub in_flight : Dict ℕ ℕ
  pub running : Dict ℕ LocalRequest
  pub identity_handshake_complete : Bool
  pub proof_timer : Bool
  pub closed : Bool
  pub transport_open : Bool
  pub sent : List KubusFrame

-- The constructor.
abbrev pub new_server : String → ℕ → ℕ → ChannelServer
new_server session_id max_concurrent_requests max_request_body_bytes = record {
  session_id = session_id;
  max_concurrent_requests = max_concurrent_requests;
  max_request_body_bytes = max_request_body_bytes;
  entries = [];
  next_serial = 0;
  in_flight = [];
  running = [];
  identity_handshake_complete = false;
  proof_timer = true;
  closed = false;
  transport_open = true;
  sent = [];
}

-- How `dispatchLocalRequest` ends: a response, an error with a status and perhaps a code, or
-- another error.
pub data Outcome : Type 0 where
  answered : LocalResponse → Outcome
  typed_error : (status_code : ℕ) (code : Option String) → Outcome
  other_error : Outcome
