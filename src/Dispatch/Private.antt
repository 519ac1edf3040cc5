-- ===== src/Dispatch/Private.antt =====
-- src/localApi/dispatch.ts: how a plan runs, and a private route with its idempotency key.
use kubus_node.Base.{
  ℕ, String, str_eq, ◌⊎◌, inl, inr, Bool, true, false, not, ◌||◌, Option, none, some, List, [], ◌∷◌,
  ◌++◌, if◌then◌else◌, Text, text_key, number_key, string_key,
}
use kubus_node.Json.{Json}
use kubus_node.Request.{LocalResponse, json, bytes, stream, LocalError}
use kubus_node.Pairing.{LocalScope, PairingState, authorize}
use kubus_node.Idempotency
use kubus_node.Idempotency.{
  IdempotencyStore, Outcome, unkeyed, replay, claimed, reused_for_different_operation,
  key_in_flight, begin,
}
use kubus_node.Dispatch.{Call, Plan, needs, reads_json, finds_spatial, calls, fails, Coercions}

pub data Answer : Type 0 where
  responded : LocalResponse → Answer
  refused : LocalError → Answer

abbrev pub refuse : ℕ → String → Answer
refuse number code = refused (record { status_code = number; code = code })

-- The parts of the node that the routes call, over a state of theirs.
pub record Services {ℓ} (S : Type ℓ) : Type ℓ where
  pub perform : Call → S → S × Answer
  pub has_spatial : String → S → Bool

-- The dispatcher's state, with that of the other parts and the calls made of them.
pub record Node {ℓ} (S : Type ℓ) : Type ℓ where
  pub pairing : PairingState
  pub idempotency : IdempotencyStore
  pub rest : S
  pub made : List Call

-- The configuration, the functions of V8 and of the crypto library, and the services.
-- `split` is `path.split('/')`.
pub record Host {ℓ} (S : Type ℓ) : Type ℓ where
  pub enabled : Bool
  pub permission_update : Bool
  pub upper : String → String
  pub split : String → List String
  pub coercions : Coercions
  pub from_hex : Text → List ℕ
  pub digest : Text → Text
  pub hash : Text → Text
  pub encoded_length : Json → ℕ
  pub services : Services S

-- The reads of the clock during one request.
pub record Clock : Type 0 where
  pub authorized_at : ℕ
  pub checked_at : ℕ
  pub evict_at : ℕ
  pub claim_at : ℕ
  pub settled_at : ℕ

-- `body.json(maxBytes)`, by what it throws or gives.
abbrev pub Body : Type 0
Body = ℕ → LocalError ⊎ Json

abbrev pub is_mutating : String → Bool
is_mutating method =
    str_eq method "POST" || str_eq method "PUT" || str_eq method "PATCH" || str_eq method "DELETE"

-- A response as the idempotency store looks at it.
abbrev pub outline : LocalResponse → Idempotency.LocalResponse
outline (json status value) = Idempotency.LocalResponse.json status value
outline (bytes status type body sha) = Idempotency.LocalResponse.bytes status
outline (stream status type body n sha) = Idempotency.LocalResponse.stream status

module _ {ℓ} {S : Type ℓ} (host : Host S) (clock : Clock) (credential : Option Text)
    (body : Body) where
  abbrev pub authorized : LocalScope → PairingState → PairingState × Bool
  authorized scope = authorize host.from_hex host.digest credential scope clock.checked_at

  unfoldable pub run_plan : Plan → Node S → Node S × Answer
  run_plan (needs scope plan) node =
      let checked = record node { pairing = (authorized scope node.pairing).0 } in
      let rest = run_plan plan checked in
      if not (authorized scope node.pairing).1 then (checked, refuse 403 "scope_required") else rest
  run_plan (reads_json max_bytes plan) node = elim (body max_bytes) [
    | inl e ↦ (node, refused e)
    | inr value ↦ run_plan (plan value) node
  ]
  run_plan (finds_spatial id plan) node =
      let rest = run_plan plan node in
      if not (host.services.has_spatial id node.rest)
      then (node, refuse 404 "spatial_not_found")
      else rest
  run_plan (calls call) node =
      let done = host.services.perform call node.rest in
      (record node { rest = done.0; made = node.made ++ call ∷ [] }, done.1)
  run_plan (fails e) node = (node, refused e)

  -- The `settle` of a claim, after the route.
  unfoldable pub settle_answer : Text → String → Node S × Answer → Node S × Answer
  settle_answer map_key operation (node, responded response) = (
    record node {
      idempotency =
          Idempotency.settle host.encoded_length map_key operation (some (outline response)) false
            clock.settled_at node.idempotency;
    },
    responded response,
  )
  settle_answer map_key operation (node, refused e) = (
    record node {
      idempotency =
          Idempotency.settle host.encoded_length map_key operation none true clock.settled_at
            node.idempotency;
    },
    refused e,
  )

  -- A mutation, by the answer of `begin`.
  unfoldable pub run_claim : String → Plan → Node S → Outcome → Node S × Answer
  unfolding run_plan settle_answer
  run_claim operation plan node unkeyed = run_plan plan node
  run_claim operation plan node (claimed map_key) =
      settle_answer map_key operation (run_plan plan node)
  run_claim operation plan node (replay status value) = (node, responded (json status value))
  run_claim operation plan node reused_for_different_operation =
      (node, refuse 409 "idempotency_key_reused_for_different_operation")
  run_claim operation plan node key_in_flight = (node, refuse 409 "idempotency_key_in_flight")

  unfoldable pub run_mutation : Option Text → String → Plan → Node S → Node S × Answer
  unfolding run_claim
  run_mutation key operation plan node =
      let begun =
        begin host.hash key credential operation clock.evict_at clock.claim_at node.idempotency in
      run_claim operation plan (record node { idempotency = begun.0 }) begun.1
