-- ===== src/Dispatch/Policy.antt =====
-- src/localApi/dispatch.ts: the scope that each call wants, and that no route makes it without.
use kubus_node.Base.{
  String, str_eq, starts_with, ◌≡◌, refl, inl, inr, Bool, not, ◌&&◌, Option, none, some, List, [],
  ◌∷◌, if-both, Bool-cases, Option-cases, All, All-append, text_key, number_key, string_key,
}
use kubus_node.Json.{Json}
use kubus_node.Pairing.{
  LocalScope, captures_create, jobs_create, compute_manage, spatial_publish_request,
}
use kubus_node.Dispatch.{
  Call, Plan, needs, reads_json, finds_spatial, calls, fails, Coercions, create_capture,
  begin_draft, write_draft_file, discard_draft, commit_draft, delete_capture, create_job,
  cleanup_jobs, cancel_job, cleanup_provider, update_compute_settings, begin_permission_update,
  refresh_permission_update, request_remote_job, publish_spatial, string_or, body_member, is_path,
  captured, local_v1,
}
use kubus_node.Dispatch.Routes.{
  Row, exact, with_id, match_row, first_match, draft_file_plan, content_plan, permission_plan,
  publish_plan, route_reads, route_captures, route_jobs, route_compute, route_requester,
  route_spatial, route,
}

-- The scopes beyond that of the path: a capture, a job, a change to the node's part in compute and a
-- publication each want their own.
abbrev pub required_scope : Call → Option LocalScope
required_scope (create_capture payload) = some captures_create
required_scope (begin_draft payload) = some captures_create
required_scope (write_draft_file id path mime_type max_bytes) = some captures_create
required_scope (discard_draft id) = some captures_create
required_scope (commit_draft id) = some captures_create
required_scope (delete_capture id) = some captures_create
required_scope (create_job type input) = some jobs_create
required_scope cleanup_jobs = some jobs_create
required_scope (cancel_job id) = some jobs_create
required_scope (request_remote_job authorization capture_id provider requirements type) =
    some jobs_create
required_scope cleanup_provider = some compute_manage
required_scope (update_compute_settings settings) = some compute_manage
required_scope begin_permission_update = some compute_manage
required_scope refresh_permission_update = some compute_manage
required_scope (publish_spatial id authorization artwork_id marker_id) =
    some spatial_publish_request
required_scope _ = none

abbrev pub Covers : Option LocalScope → Option LocalScope → Type 0
Covers given none = Unit
Covers given (some scope) = given ≡ some scope

-- The plan asks for one scope at most, and makes a call only after it asked for the call's scope.
abbrev pub Respects : Option LocalScope → Plan → Type 0
Respects given (needs scope plan) = (given ≡ none) × Respects (some scope) plan
Respects given (reads_json max_bytes plan) = (value : Json) → Respects given (plan value)
Respects given (finds_spatial id plan) = Respects given plan
Respects given (calls call) = Covers given (required_scope call)
Respects given (fails e) = Unit

abbrev RowRespects : Row → Type 0
RowRespects (exact verb names plan) = Respects none plan
RowRespects (with_id verb names suffix plan) = (id : String) → Respects none (plan id)

first_match-Respects :
    (method : String) (parts : List String) (rows : List Row)
    → All RowRespects rows
    → Respects none (first_match method parts rows)
unfolding first_match
first_match-Respects method parts [] h = tt
first_match-Respects method parts (exact verb names plan ∷ rows) h =
    elim (Bool-cases (str_eq method verb && is_path (local_v1 names) parts)) [
      | inl hit ↦ rw (hit, first_match, match_row) h.0
      | inr miss ↦ rw (miss, first_match, match_row) (first_match-Respects method parts rows h.1)
    ]
first_match-Respects method parts (with_id verb names suffix plan ∷ rows) h =
    elim (Bool-cases (str_eq method verb)) [
      | inr other ↦ rw (other, first_match, match_row) (first_match-Respects method parts rows h.1)
      | inl here ↦ elim (Option-cases (captured (local_v1 names) suffix parts)) [
        | inl missing ↦
            rw (here, missing, first_match, match_row) (first_match-Respects method parts rows h.1)
        | inr (id, found) ↦ rw (here, found, first_match, match_row) (h.0 id)
      ]
    ]

draft_file_plan-Respects :
    (path mime_type : Option String) (id : String)
    → Respects (some captures_create) (draft_file_plan path mime_type id)
draft_file_plan-Respects none mime_type id = tt
draft_file_plan-Respects (some path) mime_type id =
    if-both (Respects (some captures_create)) (str_eq path "") tt refl

module _ (v : Coercions) where
  content_plan-Respects : (part : String) → Respects none (content_plan v part)
  content_plan-Respects part = if-both (Respects none) (not (v.is_cid (v.decode_uri part))) tt tt

  permission_plan-Respects :
      (available : Bool) (call : Call)
      → Covers (some compute_manage) (required_scope call)
      → Respects none (permission_plan v available call)
  permission_plan-Respects available call h = if-both (Respects none) (not available) tt (refl, h)

  publish_plan-Respects : (id : String) → Respects none (publish_plan v id)
  publish_plan-Respects id = (
    refl,
    λ body.
        if-both (Respects (some spatial_publish_request))
          (not (starts_with (string_or "" (body_member "backendAuthorization" body)) "Bearer ")) tt
          refl,
  )

  captures_Respects :
      (query_path content_type : Option String)
      → All RowRespects (route_captures v query_path content_type)
  unfolding route_captures
  captures_Respects query_path content_type = (
    content_plan-Respects,
    (
      (refl, λ body. refl),
      (
        (refl, λ body. refl),
        (
          (λ id. (refl, draft_file_plan-Respects query_path content_type id)),
          (
            (λ id. tt),
            (
              (λ id. (refl, refl)),
              ((λ id. (refl, refl)), ((λ id. tt), ((λ id. (refl, refl)), tt))),
            ),
          ),
        ),
      ),
    ),
  )

  jobs_Respects : All RowRespects (route_jobs v)
  unfolding route_jobs
  jobs_Respects =
      ((refl, λ body. refl), (tt, ((refl, refl), ((λ id. (refl, refl)), ((λ id. tt), tt)))))

  compute_Respects : (available : Bool) → All RowRespects (route_compute v available)
  unfolding route_compute
  compute_Respects available = (
    (λ body. tt),
    (
      (refl, refl),
      (
        tt,
        (
          (refl, λ body. refl),
          (
            permission_plan-Respects available begin_permission_update refl,
            (
              permission_plan-Respects available refresh_permission_update refl,
              ((refl, λ body. refl), tt),
            ),
          ),
        ),
      ),
    ),
  )

  rest_Respects :
      All RowRespects (route_reads v)
      × All RowRespects (route_requester v)
      × All RowRespects (route_spatial v)
  unfolding route_reads route_requester route_spatial
  rest_Respects = (
    (tt, (tt, (tt, (tt, (tt, (tt, tt)))))),
    ((λ id. λ body. tt), ((λ id. λ body. tt), ((λ id. λ body. tt), ((λ id. λ body. tt), tt)))),
    (publish_plan-Respects, ((λ id. tt), tt)),
  )

-- Whatever the method, the path and the request, a route asks for one scope at most, and makes no
-- call before it asked for the scope that the call wants.
pub route-Respects :
    (v : Coercions) (query_path content_type : Option String) (available : Bool) (method : String)
    (parts : List String)
    → Respects none (route v query_path content_type available method parts)
unfolding route
route-Respects v query_path content_type available method parts =
    first_match-Respects method parts _ (
      All-append RowRespects _ (route_spatial v)
        (All-append RowRespects _ (route_requester v)
          (All-append RowRespects _ (route_compute v available)
            (All-append RowRespects _ (route_jobs v)
              (All-append RowRespects (route_reads v) (route_captures v query_path content_type)
                (rest_Respects v).0 (captures_Respects v query_path content_type))
              (jobs_Respects v))
            (compute_Respects v available))
          (rest_Respects v).1)
        (rest_Respects v).2)
