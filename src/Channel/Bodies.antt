-- ===== src/Channel/Bodies.antt =====
-- src/webrtc/channelServer.ts: what a request reads out of its head frame, and its body.
use kubus_node.Base.{
  ℕ, zero, suc, String, str_eq, not, Option, none, some, List, [], ◌∷◌, ltb, ◌==◌, if◌then◌else◌,
  length, take, drop, Text, units, begins_with, is_space, text_key, number_key, string_key, Dict,
  put,
}
use kubus_node.Json.{Json, Fields, end, field, null, bool, num, str, arr, obj, member}
use kubus_node.Frame.{max_payload_length}
use kubus_node.Request.{LocalError}
use kubus_node.Channel.{Platform, InFlight, BodyFailure, pending, resolved, rejected}

-- `value && typeof value === 'object' && !Array.isArray(value)`.
abbrev pub as_plain_object : Option Json → Option Fields
as_plain_object (some (obj fields)) = some fields
as_plain_object (some null) = none
as_plain_object (some (bool b)) = none
as_plain_object (some (num n)) = none
as_plain_object (some (str s)) = none
as_plain_object (some (arr items)) = none
as_plain_object none = none

abbrev pub as_string : Option Json → Option String
as_string (some (str s)) = some s
as_string (some null) = none
as_string (some (bool b)) = none
as_string (some (num n)) = none
as_string (some (arr items)) = none
as_string (some (obj fields)) = none
as_string none = none

-- `String(metadata.key ?? fallback)`.
abbrev pub text_or : Platform → String → Option Json → String
text_or p fallback none = fallback
text_or p fallback (some null) = fallback
text_or p fallback (some (bool b)) = p.text_of (bool b)
text_or p fallback (some (num n)) = p.text_of (num n)
text_or p fallback (some (str s)) = s
text_or p fallback (some (arr items)) = p.text_of (arr items)
text_or p fallback (some (obj fields)) = p.text_of (obj fields)

abbrev pub query_from : Fields → Dict String String → Dict String String
query_from end params = params
query_from (field key (str value) fields) params = query_from fields (put params key value)
query_from (field key null fields) params = query_from fields params
query_from (field key (bool b) fields) params = query_from fields params
query_from (field key (num n) fields) params = query_from fields params
query_from (field key (arr items) fields) params = query_from fields params
query_from (field key (obj inner) fields) params = query_from fields params

unfoldable pub to_query : Option Json → Dict String String
to_query value = elim (as_plain_object value) [ none ↦ [] | some fields ↦ query_from fields [] ]

abbrev trim_start : Text → Text
trim_start [] = []
trim_start (c ∷ text) = let rest = trim_start text in if is_space c then rest else c ∷ text

-- A space goes when only spaces follow it.
abbrev trim_end : Text → Text
trim_end [] = []
trim_end (c ∷ text) = elim (trim_end text) [
  | [] ↦ if is_space c then [] else c ∷ []
  | d ∷ rest ↦ c ∷ d ∷ rest
]

-- `value.startsWith('Bearer ') ? value.slice(7).trim() : undefined`.
unfoldable pub bearer : Text → Option Text
bearer value =
    if begins_with value (units "Bearer ")
    then some (trim_end (trim_start (drop 7 value)))
    else none

unfoldable pub authorization : Platform → Fields → Option Text
unfolding bearer
authorization p end = none
authorization p (field key value fields) =
    let rest = authorization p fields in
    if not (str_eq (p.lower key) "authorization")
    then rest
    else elim (as_string (some value)) [ none ↦ rest | some text ↦ bearer (p.code_units text) ]

unfoldable pub read_credential : Platform → Fields → Option Text
unfolding authorization
read_credential p metadata = elim (as_plain_object (member "headers" metadata)) [
  | none ↦ none
  | some headers ↦ authorization p headers
]

-- A read of the body: `waiting` while the promise is open, and the error that it throws.
pub data Read {ℓ} (A : Type ℓ) : Type ℓ where
  waiting : Read A
  got : A → Read A
  broken : BodyFailure → Read A
  refused : LocalError → Read A

unfoldable pub json_of_bytes : Platform → List ℕ → Read Json
json_of_bytes p [] = got (obj end)
json_of_bytes p (b ∷ bytes) = elim (p.parse (b ∷ bytes)) [
  | none ↦ refused (record { status_code = 400; code = "json_invalid" })
  | some value ↦ got value
]

-- The first read of a body; a second one throws.
unfoldable pub body_json : Platform → InFlight → Read Json
unfolding json_of_bytes
body_json p entry = elim (as_plain_object (member "json" entry.metadata)) [
  | some inline ↦ got (obj inline)
  | none ↦ elim entry.body_promise [
    | pending ↦ waiting
    | resolved bytes ↦ json_of_bytes p bytes
    | rejected why ↦ broken why
  ]
]

unfoldable pub sized_body : ℕ → List ℕ → Read (List ℕ)
sized_body max_bytes bytes =
    if ltb max_bytes (length bytes)
    then refused (record { status_code = 413; code = "request_too_large" })
    else if length bytes == 0
    then refused (record { status_code = 400; code = "capture_file_empty" })
    else got bytes

unfoldable pub body_binary : ℕ → InFlight → Read (List ℕ)
unfolding sized_body
body_binary max_bytes entry = elim entry.body_promise [
  | pending ↦ waiting
  | resolved bytes ↦ sized_body max_bytes bytes
  | rejected why ↦ broken why
]

-- The `for` loop of the stream; the fuel bounds its rounds, each of which takes a byte.
unfoldable pub subarrays : ℕ → ℕ → List ℕ → List (List ℕ)
subarrays size zero bytes = []
subarrays size (suc fuel) [] = []
subarrays size (suc fuel) (b ∷ bytes) =
    take size (b ∷ bytes) ∷ subarrays size fuel (drop size (b ∷ bytes))

unfoldable pub body_stream : InFlight → Read (List (List ℕ))
unfolding subarrays
body_stream entry = elim entry.body_promise [
  | pending ↦ waiting
  | resolved bytes ↦ got (subarrays max_payload_length (length bytes) bytes)
  | rejected why ↦ broken why
]
