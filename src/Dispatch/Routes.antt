-- ===== src/Dispatch/Routes.antt =====
-- src/localApi/dispatch.ts, `route`: what each method and path does, in the order of the source.
use kubus_node.Base.{
  String, str_eq, starts_with, Bool, not, ◌&&◌, Option, none, some, List, [], ◌∷◌, ◌++◌,
  if◌then◌else◌, text_key, number_key, string_key,
}
use kubus_node.Json.{Json}
use kubus_node.Pairing.{captures_create, jobs_create, compute_manage, spatial_publish_request}
use kubus_node.Dispatch.{
  Call, json_limit, capture_draft_metadata_limit, capture_package_limit, capture_draft_file_limit,
  Plan, needs, reads_json, finds_spatial, calls, failure, Coercions, body_member, text_or_empty,
  number_or_zero, object_or_empty, string_or_none, string_or, is_true, is_path, captured, local_v1,
  read_info, read_status, read_participation, read_capabilities, read_network, read_storage,
  read_content, create_capture, begin_draft, write_draft_file, get_draft, discard_draft,
  commit_draft, get_capture, delete_capture, create_job, list_jobs, cleanup_jobs, cancel_job,
  get_job, find_candidates, cleanup_provider, compute_settings, update_compute_settings,
  begin_permission_update, refresh_permission_update, request_remote_job, get_requester_job,
  retrieve_requester_output, cancel_requester_job, acknowledge_requester_output, publish_spatial,
  get_spatial,
}

-- One test of `route` with what it does: a whole path, or a pattern with an id in it.
pub data Row : Type 0 where
  exact : (verb : String) (names : List String) → Plan → Row
  with_id : (verb : String) (names suffix : List String) → (String → Plan) → Row

abbrev pub match_row : String → List String → Row → Option Plan
match_row method parts (exact verb names plan) =
    if str_eq method verb && is_path (local_v1 names) parts then some plan else none
match_row method parts (with_id verb names suffix plan) =
    if not (str_eq method verb)
    then none
    else elim (captured (local_v1 names) suffix parts) [ none ↦ none | some id ↦ some (plan id) ]

-- The tests stand one after the other.
unfoldable pub first_match : String → List String → List Row → Plan
first_match method parts [] = failure 404 "local_route_not_found"
first_match method parts (row ∷ rows) = elim (match_row method parts row) [
  | some plan ↦ plan
  | none ↦ first_match method parts rows
]

-- The empty path is falsy; the general type counts as none.
abbrev pub draft_file_plan : Option String → Option String → String → Plan
draft_file_plan none mime_type id = failure 400 "capture_file_path_invalid"
draft_file_plan (some path) mime_type id =
    if str_eq path ""
    then failure 400 "capture_file_path_invalid"
    else calls (write_draft_file id path (specific mime_type) capture_draft_file_limit)
  where
    specific : Option String → Option String
    specific none = none
    specific (some type) = if str_eq type "application/octet-stream" then none else some type

module _ (v : Coercions) where
  unfoldable pub route_reads : List Row
  route_reads =
      exact "GET" ("info" ∷ []) (calls read_info)
      ∷ exact "GET" ("status" ∷ []) (calls read_status)
      ∷ exact "GET" ("participation" ∷ []) (calls read_participation)
      ∷ exact "GET" ("capabilities" ∷ []) (calls read_capabilities)
      ∷ exact "GET" ("network" ∷ []) (calls read_network)
      ∷ exact "GET" ("storage" ∷ []) (calls read_storage)
      ∷ []

  abbrev pub content_plan : String → Plan
  content_plan part =
      let cid = v.decode_uri part in
      if not (v.is_cid cid)
      then failure 400 "cid_invalid"
      else calls (read_content (v.normalize_cid cid))

  -- `query_path` is the query's `path`, `content_type` the type of the body.
  unfoldable pub route_captures : Option String → Option String → List Row
  route_captures query_path content_type =
      with_id "GET" ("content" ∷ []) [] content_plan
      ∷ exact "POST" ("captures" ∷ []) (
          needs captures_create
            (reads_json capture_package_limit λ body. calls (create_capture body)))
      ∷ exact "POST" ("captures" ∷ "drafts" ∷ []) (
          needs captures_create
            (reads_json capture_draft_metadata_limit λ body. calls (begin_draft body)))
      ∷ with_id "PUT" ("captures" ∷ "drafts" ∷ []) ("files" ∷ [])
          (λ id. needs captures_create (draft_file_plan query_path content_type id))
      ∷ with_id "GET" ("captures" ∷ "drafts" ∷ []) [] (λ id. calls (get_draft id))
      ∷ with_id "DELETE" ("captures" ∷ "drafts" ∷ []) []
          (λ id. needs captures_create (calls (discard_draft id)))
      ∷ with_id "POST" ("captures" ∷ "drafts" ∷ []) ("commit" ∷ [])
          (λ id. needs captures_create (calls (commit_draft id)))
      ∷ with_id "GET" ("captures" ∷ []) [] (λ id. calls (get_capture id))
      ∷ with_id "DELETE" ("captures" ∷ []) []
          (λ id. needs captures_create (calls (delete_capture id)))
      ∷ []

  unfoldable pub route_jobs : List Row
  route_jobs =
      exact "POST" ("jobs" ∷ []) (
        needs jobs_create (
          reads_json json_limit λ body. calls (
            create_job (text_or_empty v (body_member "type" body))
              (object_or_empty (body_member "input" body)))))
      ∷ exact "GET" ("jobs" ∷ []) (calls list_jobs)
      ∷ exact "POST" ("jobs" ∷ "cleanup" ∷ []) (needs jobs_create (calls cleanup_jobs))
      ∷ with_id "POST" ("jobs" ∷ []) ("cancel" ∷ [])
          (λ id. needs jobs_create (calls (cancel_job id)))
      ∷ with_id "GET" ("jobs" ∷ []) [] (λ id. calls (get_job id))
      ∷ []

  abbrev backend_authorization : Json → String
  backend_authorization body = text_or_empty v (body_member "backendAuthorization" body)

  abbrev candidates_plan : Plan
  candidates_plan = reads_json json_limit λ body. calls (
      find_candidates (backend_authorization body)
        (string_or "spatial.reconstruct" (body_member "type" body))
        (number_or_zero v (body_member "minimumVramBytes" body))
        (number_or_zero v (body_member "inputBytes" body)))

  -- `available` tells whether the node has a service for permission updates.
  abbrev pub permission_plan : Bool → Call → Plan
  permission_plan available call =
      if not available
      then failure 503 "permission_update_unavailable"
      else needs compute_manage (calls call)

  abbrev remote_job_plan : Plan
  remote_job_plan = needs jobs_create (
      reads_json json_limit λ body. calls (
        request_remote_job (backend_authorization body)
          (text_or_empty v (body_member "captureId" body))
          (object_or_empty (body_member "provider" body))
          (object_or_empty (body_member "requirements" body))
          (string_or_none (body_member "type" body))))

  unfoldable pub route_compute : Bool → List Row
  route_compute available =
      exact "POST" ("compute" ∷ "candidates" ∷ []) candidates_plan
      ∷ exact "POST" ("compute" ∷ "cleanup" ∷ []) (needs compute_manage (calls cleanup_provider))
      ∷ exact "GET" ("compute" ∷ "settings" ∷ []) (calls compute_settings)
      ∷ exact "PUT" ("compute" ∷ "settings" ∷ []) (
          needs compute_manage (reads_json json_limit λ body. calls (update_compute_settings body)))
      ∷ exact "POST" ("compute" ∷ "permission-update" ∷ [])
          (permission_plan available begin_permission_update)
      ∷ exact "GET" ("compute" ∷ "permission-update" ∷ [])
          (permission_plan available refresh_permission_update)
      ∷ exact "POST" ("compute" ∷ "jobs" ∷ []) remote_job_plan
      ∷ []

  unfoldable pub route_requester : List Row
  route_requester =
      with_id "POST" ("compute" ∷ "jobs" ∷ []) ("status" ∷ []) (λ id.
        reads_json json_limit λ body. calls (get_requester_job id (backend_authorization body)))
      ∷ with_id "POST" ("compute" ∷ "jobs" ∷ []) ("retrieve" ∷ []) (λ id.
        reads_json json_limit
          λ body. calls (retrieve_requester_output id (backend_authorization body)))
      ∷ with_id "POST" ("compute" ∷ "jobs" ∷ []) ("acknowledge" ∷ []) (λ id.
        reads_json json_limit λ body. calls (
          acknowledge_requester_output id (backend_authorization body)
            (is_true (body_member "accepted" body)) (string_or_none (body_member "reason" body))))
      ∷ with_id "POST" ("compute" ∷ "jobs" ∷ []) ("cancel" ∷ []) (λ id.
        reads_json json_limit λ body. calls (cancel_requester_job id (backend_authorization body)))
      ∷ []

  abbrev pub publish_plan : String → Plan
  publish_plan id = needs spatial_publish_request (
      finds_spatial id (
        reads_json json_limit λ body.
          let authorization = string_or "" (body_member "backendAuthorization" body) in
          if not (starts_with authorization "Bearer ")
          then failure 400 "backend_authorization_required"
          else calls (
              publish_spatial id authorization (body_member "artworkId" body)
                (body_member "markerId" body))))

  unfoldable pub route_spatial : List Row
  route_spatial =
      with_id "POST" ("spatial" ∷ []) ("publish" ∷ []) publish_plan
      ∷ with_id "GET" ("spatial" ∷ []) [] (λ id. finds_spatial id (calls (get_spatial id)))
      ∷ []

  unfoldable pub route : Option String → Option String → Bool → String → List String → Plan
  unfolding first_match
  route query_path content_type available method parts = first_match method parts (
      route_reads
      ++ route_captures query_path content_type
      ++ route_jobs
      ++ route_compute available
      ++ route_requester
      ++ route_spatial)
