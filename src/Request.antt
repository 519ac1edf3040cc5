-- ===== src/Request.antt =====
-- src/localApi/localRequest.ts: a request and its answer, as every transport carries them.
use kubus_node.Base.{ℕ, String, Bool, Option, List, Text, text_key, number_key, string_key, Dict}
use kubus_node.Json.{Json}

pub data PeerKind : Type 0 where
  loopback lan trusted_proxy webrtc : PeerKind

pub record LocalPeer : Type 0 where
  pub kind : PeerKind
  pub address : Option Text
  pub identity_handshake_complete : Bool
  pub session_id : Option String

-- The body is read through the transport and is no part of the record.
pub record LocalRequest : Type 0 where
  pub method : String
  pub path : String
  pub query : Dict String String
  pub credential : Option Text
  pub idempotency_key : Option Text
  pub content_type : Option String
  pub peer : LocalPeer

pub data LocalResponse : Type 0 where
  json : (status : ℕ) (value : Json) → LocalResponse
  bytes :
      (status : ℕ) (content_type : String) (body : List ℕ) (content_sha256 : Option String)
      → LocalResponse
  stream :
      (status : ℕ) (content_type : String) (body : List (List ℕ)) (content_length : Option ℕ)
      (content_sha256 : Option String)
      → LocalResponse

-- `localError(statusCode, code)`.
pub record LocalError : Type 0 where
  pub status_code : ℕ
  pub code : String
