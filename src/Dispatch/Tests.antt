-- ===== src/Dispatch/Tests.antt =====
-- src/localApi/dispatch.ts: runs of the dispatcher, and the theorems at concrete requests.
use kubus_node.Base.{
  ℕ, ◌+◌, ◌≤◌, String, str_eq, ◌≡◌, refl, inr, true, false, none, some, List, [], ◌∷◌, arith,
  if◌then◌else◌, Text, units, text_key, number_key, string_key, get, put, remove, has,
}
use kubus_node.Json.{null, obj, end}
use kubus_node.Request.{LocalRequest, loopback, json}
use kubus_node.Pairing.{
  LocalScope, captures_read, Credential, authorize, find_credential, is_local_token, check_exchange,
  commit_exchange, local_scopes,
}
use kubus_node.Pairing.Limiter.{new_limiter, assert_allowed, failed}
use kubus_node.Idempotency.{
  new_store, begin, begin_keyed, evict_expired, enforce_capacity, normalize_idempotency_key, settle,
  default_retention_ms, default_max_entries,
}
use kubus_node.Dispatch.{
  Plan, get_capture, delete_capture, create_job, calls, Coercions, is_path, captured, begins_path,
  route_scope,
}
use kubus_node.Dispatch.Routes.{
  route, first_match, route_reads, route_captures, route_jobs, route_compute, route_requester,
  route_spatial,
}
use kubus_node.Dispatch.Private.{
  Answer, responded, refuse, Services, Node, Host, Clock, Body, run_plan, settle_answer, run_claim,
  run_mutation,
}
use kubus_node.Dispatch.Gates.{
  PublicRoute, public_route, run_route, dispatch_private, dispatch_local_request,
}
use kubus_node.Dispatch.Guards.{IsAllowed, dispatch_local_request-IsAllowed}
use kubus_node.Idempotency.Traffic
use kubus_node.Idempotency.Traffic.{begins, run}
use kubus_node.Dispatch.Retry.{run_mutation-replayed}
use kubus_node.Dispatch.Admission.{
  AdmissionLimiter, new_admission_limiter, assert_admitted, admit_client, room_for,
}
use kubus_node.Dispatch.Admitted.{admissions, admissions_of, admissions_bound, admissions_of_bound}
use kubus_node.Dispatch.Exchange.{ExchangeState, exchange, conclude, exchange_pairing}
use kubus_node.Dispatch.Uniform.{exchange_failed}

dispatcher : Unit {0}
unfolding run authorize find_credential is_local_token check_exchange commit_exchange assert_allowed
    failed begin begin_keyed evict_expired enforce_capacity normalize_idempotency_key settle get put
    remove has is_path captured begins_path route_scope first_match route route_reads route_captures
    route_jobs route_compute route_requester route_spatial run_plan settle_answer run_claim
    run_mutation public_route run_route dispatch_private dispatch_local_request assert_admitted
    admit_client room_for exchange conclude exchange_pairing
dispatcher = tt

abbrev split_sample : String → List String
split_sample path =
    if str_eq path "/local/v1/captures/c1"
    then "" ∷ "local" ∷ "v1" ∷ "captures" ∷ "c1" ∷ []
    else if str_eq path "/local/v1/jobs"
    then "" ∷ "local" ∷ "v1" ∷ "jobs" ∷ []
    else "" ∷ "other" ∷ []

abbrev coercions : Coercions
coercions = record {
  text_of = λ value. "";
  number_of = λ value. 0;
  decode_uri = λ text. text;
  is_cid = λ text. true;
  normalize_cid = λ text. text;
}

-- The state of the other parts counts the calls.
abbrev counting : Services ℕ
counting = record {
  perform = λ call n. (n + 1, responded (json 200 null));
  has_spatial = λ id n. true;
}

abbrev host : Host ℕ
host = record {
  enabled = true;
  permission_update = false;
  upper = λ text. text;
  split = split_sample;
  coercions = coercions;
  from_hex = λ text. text;
  digest = λ text. text;
  hash = λ text. text;
  encoded_length = λ value. 4;
  services = counting;
}

abbrev clock : Clock
clock = record { authorized_at = 1; checked_at = 2; evict_at = 3; claim_at = 4; settled_at = 5 }

abbrev token : Text
token = units "kubus_local_t"

abbrev credential_of : List LocalScope → Credential
credential_of scopes = record {
  token_hash = token;
  label = none;
  scopes = scopes;
  created_at = 0;
  revoked_at = none;
  last_used_at = none;
}

abbrev node_with : List LocalScope → Node ℕ
node_with scopes = record {
  pairing = record { sessions = []; credentials = (units "d", credential_of scopes) ∷ [] };
  idempotency = new_store default_retention_ms default_max_entries;
  rest = 0;
  made = [];
}

abbrev request : String → String → LocalRequest
request method path = record {
  method = method;
  path = path;
  query = [];
  credential = some token;
  idempotency_key = some (units "key-12345");
  content_type = none;
  peer = record {
    kind = loopback;
    address = none;
    identity_handshake_complete = true;
    session_id = none;
  };
}

abbrev body : Body
body max_bytes = inr (obj end)

abbrev public : PublicRoute → LocalRequest → Body → Node ℕ → Node ℕ × Answer
public at r b node = (node, responded (json 201 null))

abbrev send : List LocalScope → LocalRequest → Node ℕ × Answer
send scopes r = dispatch_local_request host clock public r body (node_with scopes)

deleted :
    (send local_scopes (request "DELETE" "/local/v1/captures/c1")).0.made ≡ delete_capture "c1" ∷ []
unfolding dispatcher
deleted = refl

-- A credential that reads captures reads one and deletes none.
read_only :
    ((send (captures_read ∷ []) (request "GET" "/local/v1/captures/c1")).0.made
      ≡ get_capture "c1" ∷ [])
    × ((send (captures_read ∷ []) (request "DELETE" "/local/v1/captures/c1")).1
        ≡ refuse 403 "scope_required")
    × ((send (captures_read ∷ []) (request "GET" "/local/v1/jobs")).1
        ≡ refuse 401 "local_credential_required")
    × ((send local_scopes (request "GET" "/other")).1 ≡ refuse 404 "local_route_not_found")
unfolding dispatcher
read_only = (refl, refl, refl, refl)

dispatch_local_request-IsAllowed_example :
    IsAllowed host clock
      (request "DELETE" "/local/v1/captures/c1")
      (node_with local_scopes)
      (send local_scopes (request "DELETE" "/local/v1/captures/c1")).0.made
unfolding dispatcher
dispatch_local_request-IsAllowed_example =
    dispatch_local_request-IsAllowed host clock public (request "DELETE" "/local/v1/captures/c1")
      body (node_with local_scopes) refl

abbrev job_plan : Plan
job_plan = calls (create_job "spatial.reconstruct" (obj end))

abbrev first : Node ℕ × Answer
first =
    run_mutation host clock (some token) body (some (units "key-12345")) "POST /local/v1/jobs"
      job_plan (node_with local_scopes)

-- Another key is claimed between the two requests.
abbrev traffic : List Traffic.Call
traffic = begins (units "other:key-67890") "PUT" 1 1 ∷ []

abbrev second : Node ℕ × Answer
second =
    run_mutation host clock (some token) body (some (units "key-12345")) "POST /local/v1/jobs"
      job_plan
      (record first.0 { idempotency = run host.encoded_length first.0.idempotency traffic })

run_mutation-replayed_example :
    (second.1 ≡ responded (json 200 null)) × (second.0.rest ≡ 1) × (second.0.made ≡ first.0.made)
unfolding dispatcher
run_mutation-replayed_example =
    run_mutation-replayed host (some token) clock clock body body (some (units "key-12345"))
      (units "key-12345") "POST /local/v1/jobs" job_plan job_plan (node_with local_scopes)
      (record first.0 { idempotency = run host.encoded_length first.0.idempotency traffic }) 200
      null traffic refl refl refl (omega arith) (omega arith, tt) (omega arith) refl (omega arith)

abbrev asks : List (Text × ℕ)
asks = (units "a", 1) ∷ (units "a", 2) ∷ (units "b", 3) ∷ (units "a", 4) ∷ []

-- The limiter once the client "a" has been let in at 0.
abbrev opened : AdmissionLimiter
opened = (assert_admitted (units "a") 0 (new_admission_limiter 2 100 8 9)).0

-- Two of the four are let in; with little room in the table, a client that was pushed out comes back.
asked :
    (admissions asks opened ≡ 2)
    × (admissions_of (units "a") asks opened ≡ 1)
    × (admissions_of (units "a") asks (new_admission_limiter 2 100 1 9) ≡ 3)
unfolding dispatcher
asked = (refl, refl, refl)

admissions_bound_example : admissions asks opened + 1 ≤ 9
unfolding dispatcher
admissions_bound_example =
    admissions_bound asks 0 opened refl
      (omega arith, (omega arith, (omega arith, (omega arith, tt)))) (omega arith)

admissions_of_bound_example : admissions_of (units "a") asks opened + 1 ≤ 2
unfolding dispatcher
admissions_of_bound_example =
    admissions_of_bound (units "a") asks 0 1 opened refl
      (omega arith, (omega arith, (omega arith, (omega arith, tt)))) (omega arith) (omega arith)

abbrev before : ExchangeState
before = record { attempts = new_limiter; pairing = record { sessions = []; credentials = [] } }

guessed :
    (exchange_pairing
      (λ t. t)
      (λ t. t)
      (units "c")
      (units "s")
      (units "x")
      (units "d")
      (units "t")
      none
      1
      2
      3
      4
      before).1
    ≡ exchange_failed
unfolding dispatcher
guessed = refl
