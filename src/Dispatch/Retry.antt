-- ===== src/Dispatch/Retry.antt =====
-- src/localApi/dispatch.ts and idempotencyStore.ts: a mutation that is sent again.
use kubus_node.Base.{
  ℕ, ◌+◌, ◌≤◌, ◌<◌, String, eq_refl, ◌≡◌, refl, sym, ap, ◌∙◌, subst, ◌⊎◌, inl, inr, false, not,
  Option, some, List, arith, if-both, Option-cases, length, All, Text, text_key, number_key,
  string_key, get, put, get-put_self,
}
use kubus_node.Json.{Json}
use kubus_node.Request.{LocalResponse, json, LocalError}
use kubus_node.Idempotency
use kubus_node.Idempotency.{
  IdempotencyStore, Outcome, Entry, completed, in_flight, stored_at, unkeyed, replay, claimed,
  reused_for_different_operation, key_in_flight, begin, begin_keyed, normalize_idempotency_key,
  scoped_key, max_replayable_bytes, evict_expired, answer, settle,
}
use kubus_node.Idempotency.Effects.{begin_keyed-known, settle-success}
use kubus_node.Idempotency.Traffic.{Call, Spares, run, run-get}
use kubus_node.Dispatch.{Plan, needs, reads_json, finds_spatial, calls, fails}
use kubus_node.Dispatch.Private.{
  Answer, responded, refused, Node, Host, Clock, Body, outline, authorized, run_plan, settle_answer,
  run_claim, run_mutation,
}

module _ {ℓ} {S : Type ℓ} (host : Host S) (credential : Option Text) where
  run_plan-idempotency :
      (clock : Clock) (body : Body) (plan : Plan) (node : Node S)
      → (run_plan host clock credential body plan node).0.idempotency ≡ node.idempotency
  unfolding run_plan
  run_plan-idempotency clock body (calls call) node = refl
  run_plan-idempotency clock body (fails e) node = refl
  run_plan-idempotency clock body (reads_json max_bytes plan) node =
      elim (Either-cases (body max_bytes)) [
        | inl (e, broke) ↦ rw (broke, run_plan) refl
        | inr (value, read) ↦
            rw (read, run_plan) (run_plan-idempotency clock body (plan value) node)
      ]
    where
      Either-cases :
          (x : LocalError ⊎ Json) → ((e : LocalError) × (x ≡ inl e)) ⊎ ((v : Json) × (x ≡ inr v))
      Either-cases (inl e) = inl (e, refl)
      Either-cases (inr v) = inr (v, refl)
  run_plan-idempotency clock body (finds_spatial id plan) node =
      if-both (λ (done : Node S × Answer). done.0.idempotency ≡ node.idempotency)
        (not (host.services.has_spatial id node.rest)) refl
        (run_plan-idempotency clock body plan node)
  run_plan-idempotency clock body (needs scope plan) node =
      if-both (λ (done : Node S × Answer). done.0.idempotency ≡ node.idempotency)
        (not (authorized host clock credential body scope node.pairing).1) refl
        (run_plan-idempotency clock body plan
          (record node { pairing = (authorized host clock credential body scope node.pairing).0 }))

  settle_answer-responded :
      (clock : Clock) (body : Body) (map_key : Text) (operation : String) (done : Node S × Answer)
      (status : ℕ) (value : Json)
      → (settle_answer host clock credential body map_key operation done).1
        ≡ responded (json status value)
      → (settle_answer host clock credential body map_key operation done).0.idempotency
        ≡ settle host.encoded_length map_key operation
            (some (Idempotency.LocalResponse.json status value))
            false
            clock.settled_at
            done.0.idempotency
  unfolding settle_answer
  settle_answer-responded clock body map_key operation (node, responded response) status value h =
      ap
        (λ r.
          settle host.encoded_length map_key operation (some (outline r)) false clock.settled_at
            node.idempotency)
        (response_of response h)
    where
      response_of :
          (response : LocalResponse)
          → responded response ≡ responded (json status value)
          → response ≡ json status value
      response_of response e = ground arith
  settle_answer-responded clock body map_key operation (node, refused e) status value h =
      absurd (ground arith)

  -- `begin` with a usable key.
  begin-usable :
      (key : Option Text) (usable : Text) (operation : String) (evict_at claim_at : ℕ)
      (store : IdempotencyStore)
      → normalize_idempotency_key key ≡ some usable
      → begin host.hash key credential operation evict_at claim_at store
        ≡ begin_keyed (scoped_key host.hash usable credential) operation evict_at claim_at store
  unfolding begin
  begin-usable key usable operation evict_at claim_at store e = rw (e, begin) refl

  begin_keyed-retention :
      (map_key : Text) (operation : String) (evict_at claim_at : ℕ) (store : IdempotencyStore)
      → (begin_keyed map_key operation evict_at claim_at store).0.retention_ms ≡ store.retention_ms
  unfolding begin_keyed
  begin_keyed-retention map_key operation evict_at claim_at store =
      elim (Option-cases (get (evict_expired store.retention_ms evict_at store.entries) map_key)) [
        | inl missing ↦ rw (missing, begin_keyed) refl
        | inr (entry, found) ↦ rw (found, begin_keyed) refl
      ]

  module _ (clock : Clock) (body : Body) (key : Option Text) (usable : Text) (operation : String)
      (plan : Plan) (node : Node S) (status : ℕ) (value : Json) where
    abbrev map_key : Text
    map_key = scoped_key host.hash usable credential

    abbrev begun : IdempotencyStore × Outcome
    begun = begin host.hash key credential operation clock.evict_at clock.claim_at node.idempotency

    abbrev ran : Node S × Answer
    ran = run_plan host clock credential body plan (record node { idempotency = begun.0 })

    -- The store with the settled success.
    abbrev pub filled : IdempotencyStore
    filled = record begun.0 {
      entries = put begun.0.entries map_key (completed status value clock.settled_at operation);
    }

    run_mutation-filled :
        begun.1 ≡ claimed map_key
        → (run_mutation host clock credential body key operation plan node).1
          ≡ responded (json status value)
        → host.encoded_length value ≤ max_replayable_bytes
        → (run_mutation host clock credential body key operation plan node).0.idempotency ≡ filled
    unfolding run_mutation run_claim
    run_mutation-filled fresh done small =
        let taken : run_mutation host clock credential body key operation plan node
            ≡ settle_answer host clock credential body map_key operation ran =
          ap
            (run_claim host clock credential body operation plan
              (record node { idempotency = begun.0 }))
            fresh in
        ap {A = Node S × Answer} (λ d. d.0.idempotency) taken
        ∙ settle_answer-responded clock body map_key operation ran status value
            (sym (ap {A = Node S × Answer} (λ d. d.1) taken) ∙ done)
        ∙ ap
            (settle host.encoded_length map_key operation
              (some (Idempotency.LocalResponse.json status value)) false clock.settled_at)
            (run_plan-idempotency clock body plan (record node { idempotency = begun.0 }))
        ∙ settle-success host.encoded_length map_key operation status value clock.settled_at begun.0
            small

    -- The settled success is still in the store when the request comes again.
    begin-kept :
        (evict_at claim_at : ℕ) (store : IdempotencyStore)
        → normalize_idempotency_key key ≡ some usable
        → get store.entries map_key ≡ some (completed status value clock.settled_at operation)
        → store.retention_ms ≡ node.idempotency.retention_ms
        → evict_at < clock.settled_at + node.idempotency.retention_ms
        → (begin host.hash key credential operation evict_at claim_at store).1 ≡ replay status value
    begin-kept evict_at claim_at store use_key stored same early =
        ap {A = IdempotencyStore × Outcome} (λ b. b.1)
          (begin-usable key usable operation evict_at claim_at store use_key)
        ∙ begin_keyed-known map_key operation evict_at claim_at store stored (omega (arith, same))
        ∙ rw (eq_refl operation) refl

    filled-retention :
        normalize_idempotency_key key ≡ some usable
        → begun.0.retention_ms ≡ node.idempotency.retention_ms
    filled-retention use_key =
        ap {A = IdempotencyStore × Outcome} (λ b. b.0.retention_ms)
          (begin-usable key usable operation clock.evict_at clock.claim_at node.idempotency use_key)
        ∙ begin_keyed-retention map_key operation clock.evict_at clock.claim_at node.idempotency

    -- The store after traffic that leaves the entry of the key alone.
    filled-run :
        (traffic : List Call)
        → normalize_idempotency_key key ≡ some usable
        → All
            (Spares host.encoded_length map_key (clock.settled_at + node.idempotency.retention_ms))
            traffic
        → length filled.entries + length traffic ≤ filled.max_entries
        → (get (run host.encoded_length filled traffic).entries map_key
            ≡ some (completed status value clock.settled_at operation))
          × ((run host.encoded_length filled traffic).retention_ms ≡ node.idempotency.retention_ms)
    filled-run traffic use_key spares room =
        let same = filled-retention use_key in
        let (still, kept) =
          run-get host.encoded_length map_key traffic filled
            (get-put_self begun.0.entries map_key
              (completed status value clock.settled_at operation))
            (rw same spares) room in
        (still, kept ∙ same)

-- A mutation that answered with a JSON value of at most 64 KiB under a key of its own is not carried
-- out again: sent again with the same key and credential before the retention is over, it gets the
-- same status and value, and no other part of the node is called or changed. In between there may be
-- traffic of other keys and of this one, which settles only other keys and begins only before the
-- retention is over, as long as the ceiling of the store leaves room for what is in it and one more
-- entry for each call.
pub run_mutation-replayed {ℓ} :
    {S : Type ℓ} (host : Host S) (credential : Option Text) (clock again : Clock)
    (body body' : Body) (key : Option Text) (usable : Text) (operation : String) (plan plan' : Plan)
    (node node' : Node S) (status : ℕ) (value : Json) (traffic : List Call)
    → normalize_idempotency_key key ≡ some usable
    → (begin host.hash key credential operation clock.evict_at clock.claim_at node.idempotency).1
      ≡ claimed (scoped_key host.hash usable credential)
    → (run_mutation host clock credential body key operation plan node).1
      ≡ responded (json status value)
    → host.encoded_length value ≤ max_replayable_bytes
    → All
        (Spares host.encoded_length
          (scoped_key host.hash usable credential)
          (clock.settled_at + node.idempotency.retention_ms))
        traffic
    → length (run_mutation host clock credential body key operation plan node).0.idempotency.entries
        + length traffic
      ≤ (run_mutation host clock credential body key operation plan node).0.idempotency.max_entries
    → node'.idempotency
      ≡ run host.encoded_length
          (run_mutation host clock credential body key operation plan node).0.idempotency
          traffic
    → again.evict_at < clock.settled_at + node.idempotency.retention_ms
    → ((run_mutation host again credential body' key operation plan' node').1
        ≡ responded (json status value))
      × ((run_mutation host again credential body' key operation plan' node').0.rest ≡ node'.rest)
      × ((run_mutation host again credential body' key operation plan' node').0.made ≡ node'.made)
unfolding run_mutation run_claim
run_mutation-replayed {S = S} host credential clock again body body' key usable operation plan plan'
      node node' status value traffic use_key fresh done small spares room same early =
    let settled =
      run_mutation-filled host credential clock body key usable operation plan node status value
        fresh done small in
    let store = same ∙ ap {A = IdempotencyStore} (λ v. run host.encoded_length v traffic) settled in
    let (still, kept) =
      filled-run host credential clock body key usable operation plan node status value traffic
        use_key spares
        (subst {A = IdempotencyStore} (λ v. length v.entries + length traffic ≤ v.max_entries)
          settled room) in
    let known : (begin host.hash key credential operation again.evict_at again.claim_at
          node'.idempotency).1
        ≡ replay status value =
      ap {A = IdempotencyStore}
        (λ v. (begin host.hash key credential operation again.evict_at again.claim_at v).1) store
      ∙ begin-kept host credential clock body key usable operation plan node status value
          again.evict_at again.claim_at _ use_key still kept early in
    let result : Outcome → Node S × Answer =
      run_claim host again credential body' operation plan' (record node' {
        idempotency =
            (begin host.hash key credential operation again.evict_at again.claim_at
              node'.idempotency).0;
      }) in
    (
      ap (λ o. (result o).1) known,
      ap (λ o. (result o).0.rest) known,
      ap (λ o. (result o).0.made) known,
    )
