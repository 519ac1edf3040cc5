-- ===== src/Dispatch.antt =====
-- src/localApi/dispatch.ts: the routes of the local API, and the gates before them.
-- A path is given by its parts between slashes.
pub mod Routes
pub mod Private
pub mod Gates
pub mod Admission
pub mod Exchange
pub mod Uniform
pub mod Policy
pub mod Guards
pub mod Retry
pub mod Admitted
pub mod Tests
use kubus_node.Base.{
  ℕ, zero, suc, ◌+◌, ◌-◌, ◌*◌, ◌/◌, ◌%◌, ◌^◌, ◌≤◌, ◌<◌, min, max, bit_and, bit_or, bit_xor, String,
  str_eq, starts_with, eq_iff, eq_refl, ◌≡◌, refl, sym, ap, ap₂, ◌∙◌, subst, ◌≡⟨◌⟩◌, ◌∎, ◌≢◌, ◌↔◌,
  ◌⊎◌, inl, inr, Bool, true, false, not, ◌&&◌, ◌||◌, Option, none, some, List, [], ◌∷◌, ◌++◌, map,
  map-append, append-nil, append_assoc, arith, ltb, leb, ◌==◌, if◌then◌else◌, if-both, ltb→lt,
  lt→ltb, le→ltb, leb→le, ==_iff, Bool-cases, Option-cases, is_some, length, get_or, take, drop,
  concat, every, any, All, length-append, length-take, length-drop, take-append-drop, take-append,
  drop-append, All-append, drop-drop, concat-append, Text, units, same_text, same_text_iff,
  begins_with, is_space, holds_unit, cut_unique, text_key, number_key, string_key, Dict, Key, get,
  put, remove, has, get-put, get-put_self, get-put_ne, get-remove, get-remove_self, get-remove_ne,
  length-put, length-remove, Values, Values-put, Values-remove, Values-get,
}
use kubus_node.Json.{Json, Fields, end, field, null, bool, num, str, arr, obj, member}
use kubus_node.Request.{LocalError}
use kubus_node.Pairing.{LocalScope, content_read, captures_read, jobs_read, spatial_read}

-- `BODY_LIMITS`.
abbrev pub json_limit : ℕ
json_limit = 1024 * 1024

abbrev pub capture_draft_metadata_limit : ℕ
capture_draft_metadata_limit = 64 * 1024

abbrev pub capture_package_limit : ℕ
capture_package_limit = 256 * 1024 * 1024

abbrev pub capture_draft_file_limit : ℕ
capture_draft_file_limit = 128 * 1024 * 1024

-- A call of another part of the node, with its arguments.
pub data Call : Type 0 where
  read_info read_status read_participation read_capabilities read_network read_storage : Call
  read_content : (cid : String) → Call
  create_capture begin_draft : (payload : Json) → Call
  write_draft_file : (id path : String) (mime_type : Option String) (max_bytes : ℕ) → Call
  get_draft discard_draft commit_draft get_capture delete_capture : (id : String) → Call
  create_job : (type : String) (input : Json) → Call
  list_jobs cleanup_jobs : Call
  cancel_job get_job : (id : String) → Call
  find_candidates : (authorization type : String) (minimum_vram_bytes input_bytes : ℕ) → Call
  cleanup_provider compute_settings : Call
  update_compute_settings : (settings : Json) → Call
  begin_permission_update refresh_permission_update : Call
  request_remote_job :
      (authorization capture_id : String) (provider requirements : Json) (type : Option String)
      → Call
  get_requester_job retrieve_requester_output cancel_requester_job :
      (id authorization : String) → Call
  acknowledge_requester_output :
      (id authorization : String) (accepted : Bool) (reason : Option String) → Call
  publish_spatial : (id authorization : String) (artwork_id marker_id : Option Json) → Call
  get_spatial : (id : String) → Call

-- What a route does: it asks for a scope, reads the body, looks a spatial record up, and ends in a
-- call or an error.
pub data Plan : Type 0 where
  needs : LocalScope → Plan → Plan
  reads_json : (max_bytes : ℕ) → (Json → Plan) → Plan
  finds_spatial : (id : String) → Plan → Plan
  calls : Call → Plan
  fails : LocalError → Plan

abbrev pub failure : ℕ → String → Plan
failure number code = fails (record { status_code = number; code = code })

-- What the routes use of V8 and of utils/cid.ts: `String(value)`, `Number(value)`,
-- `decodeURIComponent`, `isValidCidLike` and `normalizeCid`.
pub record Coercions : Type 0 where
  pub text_of : Json → String
  pub number_of : Json → ℕ
  pub decode_uri : String → String
  pub is_cid : String → Bool
  pub normalize_cid : String → String

-- `body[key]`; a body that is no object has no members.
abbrev pub body_member : String → Json → Option Json
body_member key (obj fields) = member key fields
body_member key null = none
body_member key (bool b) = none
body_member key (num n) = none
body_member key (str s) = none
body_member key (arr items) = none

-- `String(value || '')`.
abbrev pub text_or_empty : Coercions → Option Json → String
text_or_empty v none = ""
text_or_empty v (some null) = ""
text_or_empty v (some (bool b)) = if b then v.text_of (bool b) else ""
text_or_empty v (some (num n)) = if n == 0 then "" else v.text_of (num n)
text_or_empty v (some (str s)) = s
text_or_empty v (some (arr items)) = v.text_of (arr items)
text_or_empty v (some (obj fields)) = v.text_of (obj fields)

-- `Number(value || 0)`.
abbrev pub number_or_zero : Coercions → Option Json → ℕ
number_or_zero v none = 0
number_or_zero v (some null) = 0
number_or_zero v (some (bool b)) = if b then v.number_of (bool b) else 0
number_or_zero v (some (num n)) = n
number_or_zero v (some (str s)) = if str_eq s "" then 0 else v.number_of (str s)
number_or_zero v (some (arr items)) = v.number_of (arr items)
number_or_zero v (some (obj fields)) = v.number_of (obj fields)

-- `value && typeof value === 'object' ? value : {}`.
abbrev pub object_or_empty : Option Json → Json
object_or_empty (some (obj fields)) = obj fields
object_or_empty (some (arr items)) = arr items
object_or_empty (some null) = obj end
object_or_empty (some (bool b)) = obj end
object_or_empty (some (num n)) = obj end
object_or_empty (some (str s)) = obj end
object_or_empty none = obj end

-- `typeof value === 'string' ? value : undefined`.
abbrev pub string_or_none : Option Json → Option String
string_or_none (some (str s)) = some s
string_or_none (some null) = none
string_or_none (some (bool b)) = none
string_or_none (some (num n)) = none
string_or_none (some (arr items)) = none
string_or_none (some (obj fields)) = none
string_or_none none = none

abbrev pub string_or : String → Option Json → String
string_or fallback value = elim (string_or_none value) [ none ↦ fallback | some text ↦ text ]

-- `value === true`.
abbrev pub is_true : Option Json → Bool
is_true (some (bool b)) = b
is_true (some null) = false
is_true (some (num n)) = false
is_true (some (str s)) = false
is_true (some (arr items)) = false
is_true (some (obj fields)) = false
is_true none = false

-- The path is the given one.
unfoldable pub is_path : List String → List String → Bool
is_path [] [] = true
is_path [] (part ∷ parts) = false
is_path (name ∷ names) [] = false
is_path (name ∷ names) (part ∷ parts) = str_eq part name && is_path names parts

-- `([^/]+)` and the rest of a path's pattern.
abbrev pub capture_part : List String → List String → Option String
capture_part suffix [] = none
capture_part suffix (part ∷ parts) =
    if not (str_eq part "") && is_path suffix parts then some part else none

-- What stands between the two ends of a path's pattern.
unfoldable pub captured : List String → List String → List String → Option String
unfolding is_path
captured [] suffix parts = capture_part suffix parts
captured (name ∷ names) suffix [] = none
captured (name ∷ names) suffix (part ∷ parts) =
    let rest = captured names suffix parts in if str_eq part name then rest else none

unfoldable pub begins_path : List String → List String → Bool
begins_path [] parts = true
begins_path (name ∷ names) [] = false
begins_path (name ∷ names) (part ∷ parts) = str_eq part name && begins_path names parts

abbrev pub local_v1 : List String → List String
local_v1 names = "" ∷ "local" ∷ "v1" ∷ names

-- `SCOPE_BY_ROUTE`. The first pattern ends in a slash, so it wants one part more.
unfoldable pub route_scope : List String → LocalScope
unfolding begins_path
route_scope parts =
    if begins_path (local_v1 ("content" ∷ [])) parts && ltb 4 (length parts)
    then content_read
    else if begins_path (local_v1 ("captures" ∷ [])) parts
    then captures_read
    else if begins_path (local_v1 ("jobs" ∷ [])) parts
    then jobs_read
    else if begins_path (local_v1 ("spatial" ∷ [])) parts
    then spatial_read
    else if begins_path (local_v1 ("compute" ∷ [])) parts
    then jobs_read
    else content_read
