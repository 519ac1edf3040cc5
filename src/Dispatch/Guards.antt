-- ===== src/Dispatch/Guards.antt =====
-- src/localApi/dispatch.ts: which credential a call of another part has passed.
use kubus_node.Base.{
  String, ◌≡◌, refl, sym, subst, ◌⊎◌, inl, inr, Bool, true, not, ◌&&◌, Option, none, some, List, [],
  ◌∷◌, ◌++◌, arith, ltb, if-both, Bool-cases, length, Text, text_key, number_key, string_key, get,
}
use mathlib.Core.Option.{some-injective}
use kubus_node.Json.{Json}
use kubus_node.Request.{LocalRequest, LocalError}
use kubus_node.Pairing.{LocalScope, PairingState, authorize}
use kubus_node.Idempotency.{
  Outcome, unkeyed, replay, claimed, reused_for_different_operation, key_in_flight, begin,
}
use kubus_node.Dispatch.{
  Call, Plan, needs, reads_json, finds_spatial, calls, fails, local_v1, begins_path, route_scope,
}
use kubus_node.Dispatch.Private.{
  Answer, responded, refused, Node, Host, Clock, Body, is_mutating, authorized, run_plan,
  settle_answer, run_claim, run_mutation,
}
use kubus_node.Dispatch.Gates.{
  PublicRoute, public_route, plan_of, operation_name, run_route, dispatch_private,
  dispatch_local_request,
}
use kubus_node.Dispatch.Policy.{required_scope, Covers, Respects, route-Respects}

-- The second `authorize` of a request, for a scope of the route.
abbrev pub has_scope {ℓ} :
    {S : Type ℓ} → Host S → Clock → Option Text → PairingState → LocalScope → Bool
has_scope host clock credential pairing scope =
    (authorize host.from_hex host.digest credential scope clock.checked_at pairing).1

-- The scope is none, or one that the credential has.
abbrev pub IsCovered {ℓ} :
    {S : Type ℓ} → Host S → Clock → Option Text → PairingState → Option LocalScope → Type 0
IsCovered host clock credential pairing none = Unit
IsCovered host clock credential pairing (some scope) =
    has_scope host clock credential pairing scope ≡ true

module _ {ℓ} {S : Type ℓ} (host : Host S) (clock : Clock) (credential : Option Text) (body : Body)
    (pairing : PairingState) where
  -- No call was made, or one whose scope is covered.
  abbrev pub MadeCovered : List Call → List Call → Type 0
  MadeCovered before after =
      (after ≡ before)
      ⊎ ((call : Call) × (after ≡ before ++ call ∷ [])
          × IsCovered host clock credential pairing (required_scope call))

  -- Where a plan stands: before its scope check, or after one that was passed.
  abbrev Checked : Option LocalScope → Node S → Type 0
  Checked none node = node.pairing ≡ pairing
  Checked (some scope) node = has_scope host clock credential pairing scope ≡ true

  covered :
      (given : Option LocalScope) (scope : Option LocalScope) (node : Node S)
      → Covers given scope
      → Checked given node
      → IsCovered host clock credential pairing scope
  covered given none node h c = tt
  covered none (some scope) node h c = absurd (ground arith)
  covered (some mine) (some scope) node h c =
      let same : mine ≡ scope = some-injective _ _ h in
      subst {A = LocalScope} (λ v. has_scope host clock credential pairing v ≡ true) same c

  run_plan-MadeCovered :
      (given : Option LocalScope) (plan : Plan) (node : Node S)
      → Respects given plan
      → Checked given node
      → MadeCovered node.made (run_plan host clock credential body plan node).0.made
  unfolding run_plan
  run_plan-MadeCovered given (calls call) node h c =
      inr (call, refl, covered given (required_scope call) node h c)
  run_plan-MadeCovered given (fails e) node h c = inl refl
  run_plan-MadeCovered given (reads_json max_bytes plan) node h c =
      elim (Either-cases (body max_bytes)) [
        | inl (e, broke) ↦ rw (broke, run_plan) (inl refl)
        | inr (value, read) ↦
            rw (read, run_plan) (run_plan-MadeCovered given (plan value) node (h value) c)
      ]
    where
      Either-cases :
          (x : LocalError ⊎ Json) → ((e : LocalError) × (x ≡ inl e)) ⊎ ((v : Json) × (x ≡ inr v))
      Either-cases (inl e) = inl (e, refl)
      Either-cases (inr v) = inr (v, refl)
  run_plan-MadeCovered given (finds_spatial id plan) node h c =
      if-both (λ (done : Node S × Answer). MadeCovered node.made done.0.made)
        (not (host.services.has_spatial id node.rest)) (inl refl)
        (run_plan-MadeCovered given plan node h c)
  run_plan-MadeCovered given (needs scope plan) node h c =
      elim (Bool-cases (authorized host clock credential body scope node.pairing).1) [
        | inr denied ↦ rw (denied, run_plan) (inl refl)
        | inl passed ↦
            rw (passed, run_plan)
              (run_plan-MadeCovered (some scope) plan
                (record node {
                  pairing = (authorized host clock credential body scope node.pairing).0;
                })
                h.1 (at_start given h.0 c passed))
      ]
    where
      at_start :
          (given : Option LocalScope)
          → given ≡ none
          → Checked given node
          → (authorized host clock credential body scope node.pairing).1 ≡ true
          → has_scope host clock credential pairing scope ≡ true
      at_start none e c passed =
          subst {A = PairingState} (λ v. has_scope host clock credential v scope ≡ true) c passed
      at_start (some mine) e c passed = absurd (ground arith)

  settle_answer-made :
      (map_key : Text) (operation : String) (done : Node S × Answer)
      → (settle_answer host clock credential body map_key operation done).0.made ≡ done.0.made
  unfolding settle_answer
  settle_answer-made map_key operation (node, responded response) = refl
  settle_answer-made map_key operation (node, refused e) = refl

  run_claim-MadeCovered :
      (operation : String) (plan : Plan) (node : Node S) (outcome : Outcome)
      → Respects none plan
      → node.pairing ≡ pairing
      → MadeCovered node.made
          (run_claim host clock credential body operation plan node outcome).0.made
  unfolding run_claim
  run_claim-MadeCovered operation plan node unkeyed h c = run_plan-MadeCovered none plan node h c
  run_claim-MadeCovered operation plan node (claimed map_key) h c =
      subst {A = List Call} (MadeCovered node.made)
        (sym (settle_answer-made map_key operation (run_plan host clock credential body plan node)))
        (run_plan-MadeCovered none plan node h c)
  run_claim-MadeCovered operation plan node (replay status value) h c = inl refl
  run_claim-MadeCovered operation plan node reused_for_different_operation h c = inl refl
  run_claim-MadeCovered operation plan node key_in_flight h c = inl refl

-- No call was made; or one was, with a credential that has the scope of the path, over a transport
-- past its handshake, and the call's own scope was covered.
abbrev pub IsAllowed {ℓ} :
    {S : Type ℓ} → Host S → Clock → LocalRequest → Node S → List Call → Type 0
IsAllowed host clock request node after =
    let first =
      authorize host.from_hex host.digest request.credential (route_scope (host.split request.path))
        clock.authorized_at node.pairing in
    (after ≡ node.made)
    ⊎ ((call : Call) × (after ≡ node.made ++ call ∷ [])
        × (first.1 ≡ true)
        × (request.peer.identity_handshake_complete ≡ true)
        × IsCovered host clock request.credential first.0 (required_scope call))

module _ {ℓ} {S : Type ℓ} (host : Host S) (clock : Clock) (request : LocalRequest)
    (body : Body) where
  run_route-MadeCovered :
      (method : String) (node : Node S)
      → MadeCovered host clock request.credential body node.pairing node.made
          (run_route host clock method request body node).0.made
  unfolding run_route run_mutation
  run_route-MadeCovered method node =
      let plan = plan_of host clock method request in
      let begun =
        begin host.hash request.idempotency_key request.credential
          (operation_name method request.path) clock.evict_at clock.claim_at node.idempotency in
      let fine : Respects none plan =
        route-Respects host.coercions (get request.query "path") request.content_type
          host.permission_update method (host.split request.path) in
      if-both
        (λ (done : Node S × Answer).
          MadeCovered host clock request.credential body node.pairing node.made done.0.made)
        (is_mutating method)
        (run_claim-MadeCovered host clock request.credential body node.pairing
          (operation_name method request.path) plan (record node { idempotency = begun.0 }) begun.1
          fine refl)
        (run_plan-MadeCovered host clock request.credential body node.pairing none plan node fine
          refl)

  dispatch_private-IsAllowed :
      (method : String) (node : Node S)
      → IsAllowed host clock request node
          (dispatch_private host clock method request body node).0.made
  unfolding dispatch_private
  dispatch_private-IsAllowed method node = elim (Bool-cases first.1) [
    | inr denied ↦ rw (denied, dispatch_private) (inl refl)
    | inl passed ↦ elim (Bool-cases request.peer.identity_handshake_complete) [
      | inr early ↦ rw (passed, early, dispatch_private) (inl refl)
      | inl done ↦
          rw (passed, done, dispatch_private)
            (elim (run_route-MadeCovered method (record node { pairing = first.0 })) [
              | inl same ↦ inl same
              | inr (call, made, scope) ↦ inr (call, made, refl, refl, scope)
            ])
    ]
  ]
    where
      first : PairingState × Bool
      first =
          authorize host.from_hex host.digest request.credential
            (route_scope (host.split request.path)) clock.authorized_at node.pairing

-- A request for a route that is not one of the four public ones makes one call of another part at
-- most, and only with a credential that has the scope of the path, over a transport that is past its
-- identity handshake, and, where the call wants a scope of its own, with that scope as well.
pub dispatch_local_request-IsAllowed {ℓ} :
    {S : Type ℓ} (host : Host S) (clock : Clock)
    (serve_public : PublicRoute → LocalRequest → Body → Node S → Node S × Answer)
    (request : LocalRequest) (body : Body) (node : Node S)
    → public_route (host.upper request.method) (host.split request.path) ≡ none
    → IsAllowed host clock request node
        (dispatch_local_request host clock serve_public request body node).0.made
unfolding dispatch_local_request
dispatch_local_request-IsAllowed {S = S} host clock serve_public request body node private =
    if-both (λ (done : Node S × Answer). IsAllowed host clock request node done.0.made)
      (not host.enabled) (inl refl)
      (if-both (λ (done : Node S × Answer). IsAllowed host clock request node done.0.made)
        (not (
          begins_path (local_v1 []) (host.split request.path)
          && ltb 3 (length (host.split request.path))))
        (inl refl)
        (rw private
          (dispatch_private-IsAllowed host clock request body (host.upper request.method) node)))
