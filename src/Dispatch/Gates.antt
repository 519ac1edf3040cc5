-- ===== src/Dispatch/Gates.antt =====
-- src/localApi/dispatch.ts, `dispatchLocalRequest`: what stands before every route.
use kubus_node.Base.{
  String, str_eq, not, ◌&&◌, Option, none, some, List, [], ◌∷◌, ltb, if◌then◌else◌, length,
  text_key, number_key, string_key, get,
}
use Prim.Native.String.{◌++◌ as join}
use kubus_node.Request.{LocalRequest}
use kubus_node.Pairing.{authorize}
use kubus_node.Dispatch.{Plan, local_v1, is_path, begins_path, route_scope}
use kubus_node.Dispatch.Routes.{route}
use kubus_node.Dispatch.Private.{
  Answer, refuse, Node, Host, Clock, Body, is_mutating, run_plan, run_mutation,
}

-- The routes that come before the credential.
pub data PublicRoute : Type 0 where
  pairing_session pairing_exchange remote_attach identity_proof : PublicRoute

unfoldable pub public_route : String → List String → Option PublicRoute
public_route method parts =
    if not (str_eq method "POST")
    then none
    else if is_path (local_v1 ("pairing" ∷ "session" ∷ [])) parts
    then some pairing_session
    else if is_path (local_v1 ("pairing" ∷ "exchange" ∷ [])) parts
    then some pairing_exchange
    else if is_path (local_v1 ("pairing" ∷ "remote-attach" ∷ [])) parts
    then some remote_attach
    else if is_path (local_v1 ("identity" ∷ "proof" ∷ [])) parts
    then some identity_proof
    else none

-- `${method} ${path}`.
abbrev pub operation_name : String → String → String
operation_name method path = join method (join " " path)

module _ {ℓ} {S : Type ℓ} (host : Host S) (clock : Clock) where
  abbrev pub plan_of : String → LocalRequest → Plan
  plan_of method request =
      route host.coercions (get request.query "path") request.content_type host.permission_update
        method (host.split request.path)

  -- A private route that is let through.
  unfoldable pub run_route : String → LocalRequest → Body → Node S → Node S × Answer
  unfolding run_mutation
  run_route method request body node =
      if is_mutating method
      then run_mutation host clock request.credential body request.idempotency_key
          (operation_name method request.path) (plan_of method request) node
      else run_plan host clock request.credential body (plan_of method request) node

  unfoldable pub dispatch_private : String → LocalRequest → Body → Node S → Node S × Answer
  unfolding run_route
  dispatch_private method request body node =
      let allowed =
        authorize host.from_hex host.digest request.credential
          (route_scope (host.split request.path)) clock.authorized_at node.pairing in
      let known = record node { pairing = allowed.0 } in
      if not allowed.1
      then (known, refuse 401 "local_credential_required")
      else if not request.peer.identity_handshake_complete
      then (known, refuse 403 "node_identity_proof_required")
      else run_route method request body known

  -- `serve_public` answers the routes before the credential.
  unfoldable pub dispatch_local_request :
      (PublicRoute → LocalRequest → Body → Node S → Node S × Answer)
      → LocalRequest
      → Body
      → Node S
      → Node S × Answer
  unfolding dispatch_private public_route
  dispatch_local_request serve_public request body node =
      if not host.enabled
      then (node, refuse 503 "local_api_disabled")
      else if not (
          begins_path (local_v1 []) (host.split request.path)
          && ltb 3 (length (host.split request.path)))
      then (node, refuse 404 "local_route_not_found")
      else elim (public_route (host.upper request.method) (host.split request.path)) [
        | some public ↦ serve_public public request body node
        | none ↦ dispatch_private (host.upper request.method) request body node
      ]
