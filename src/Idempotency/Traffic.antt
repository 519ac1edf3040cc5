-- ===== src/Idempotency/Traffic.antt =====
-- src/localApi/idempotencyStore.ts: a key's entry under traffic on other keys.
use kubus_node.Base.{
  ℕ, ◌+◌, ◌≤◌, ◌<◌, String, str_eq, ◌≡◌, refl, ap, ◌∙◌, ◌≢◌, inl, inr, Bool, false, Option, none,
  some, List, [], ◌∷◌, arith, if◌then◌else◌, Option-cases, length, All, Text, text_key, number_key,
  string_key, Dict, get, put, get-put_self, get-put_ne, get-remove_ne, length-put, length-remove,
}
use kubus_node.Json.{Json}
use kubus_node.Idempotency.{
  Entry, completed, in_flight, stored_at, IdempotencyStore, evict_expired, LocalResponse, json,
  bytes, stream, replay, claimed, reused_for_different_operation, key_in_flight, begin_keyed,
  settle, max_replayable_bytes,
}
use kubus_node.Idempotency.Effects.{
  get-evict_expired, length-evict_expired, enforce_capacity-eq, begin_keyed-known,
  begin_keyed-claims, settle-success,
}

-- The calls that reach the store, each with its reads of the clock.
pub data Call : Type 0 where
  begins : (map_key : Text) (operation : String) (evict_at claim_at : ℕ) → Call
  settles :
      (map_key : Text) (operation : String) (response : Option LocalResponse) (failed : Bool)
      (now : ℕ)
      → Call

module _ (encoded_length : Json → ℕ) where
  pub step : IdempotencyStore → Call → IdempotencyStore
  step store (begins map_key operation evict_at claim_at) =
      (begin_keyed map_key operation evict_at claim_at store).0
  step store (settles map_key operation response failed now) =
      settle encoded_length map_key operation response failed now store

  unfoldable pub run : IdempotencyStore → List Call → IdempotencyStore
  run store [] = store
  run store (call ∷ calls) = run (step store call) calls

  -- A call that leaves the entry of `key` alone: a `begin` before the entry expires, or a `settle`
  -- of another key.
  abbrev pub Spares : Text → ℕ → Call → Type 0
  Spares key expires (begins map_key operation evict_at claim_at) = evict_at < expires
  Spares key expires (settles map_key operation response failed now) = map_key ≢ key

  step-config :
      (store : IdempotencyStore) (call : Call)
      → ((step store call).retention_ms ≡ store.retention_ms)
        × ((step store call).max_entries ≡ store.max_entries)
  unfolding step begin_keyed settle
  step-config store (begins map_key operation evict_at claim_at) = ground arith
  step-config store (settles map_key operation none failed now) = (refl, refl)
  step-config store (settles map_key operation (some (bytes status)) failed now) = (refl, refl)
  step-config store (settles map_key operation (some (stream status)) failed now) = (refl, refl)
  step-config store (settles map_key operation (some (json status value)) failed now) = ground arith

  settle-get :
      (key map_key : Text) (operation : String) (response : Option LocalResponse) (failed : Bool)
      (now : ℕ) (store : IdempotencyStore)
      → map_key ≢ key
      → get (settle encoded_length map_key operation response failed now store).entries key
        ≡ get store.entries key
  unfolding settle
  settle-get key map_key operation none failed now store apart =
      get-remove_ne store.entries map_key apart
  settle-get key map_key operation (some (bytes status)) failed now store apart =
      get-remove_ne store.entries map_key apart
  settle-get key map_key operation (some (stream status)) failed now store apart =
      get-remove_ne store.entries map_key apart
  settle-get key map_key operation (some (json status value)) failed now store apart = ground (
    arith,
    get-remove_ne store.entries map_key apart,
    get-put_ne store.entries map_key (completed status value now operation) apart,
  )

  settle-length :
      (map_key : Text) (operation : String) (response : Option LocalResponse) (failed : Bool)
      (now : ℕ) (store : IdempotencyStore)
      → length (settle encoded_length map_key operation response failed now store).entries
        ≤ length store.entries + 1
  unfolding settle
  settle-length map_key operation none failed now store =
      omega (arith, length-remove store.entries map_key)
  settle-length map_key operation (some (bytes status)) failed now store =
      omega (arith, length-remove store.entries map_key)
  settle-length map_key operation (some (stream status)) failed now store =
      omega (arith, length-remove store.entries map_key)
  settle-length map_key operation (some (json status value)) failed now store = ground (
    arith,
    length-remove store.entries map_key,
    length-put store.entries map_key (completed status value now operation),
  )

  begin_keyed-get :
      (key map_key : Text) (operation : String) (evict_at claim_at : ℕ) (store : IdempotencyStore)
      {entry : Entry}
      → get store.entries key ≡ some entry
      → evict_at < stored_at entry + store.retention_ms
      → length store.entries < store.max_entries
      → (get (begin_keyed map_key operation evict_at claim_at store).0.entries key ≡ some entry)
        × (length (begin_keyed map_key operation evict_at claim_at store).0.entries
            ≤ length store.entries + 1)
  unfolding begin_keyed
  begin_keyed-get key map_key operation evict_at claim_at store {entry} found fresh room =
      let kept : Dict Text Entry = evict_expired store.retention_ms evict_at store.entries in
      let still = get-evict_expired store.retention_ms evict_at store.entries key found fresh in
      let fewer = length-evict_expired store.retention_ms evict_at store.entries in
      elim (Option-cases (get kept map_key)) [
        | inl missing ↦
            let apart : map_key ≢ key = λ e. cc in
            let size = length-put kept map_key (in_flight claim_at operation) in
            rw
              (
                missing,
                begin_keyed,
                enforce_capacity-eq store.max_entries
                    (put kept map_key (in_flight claim_at operation)) (ground (arith, size)),
              )
              (
                get-put_ne kept map_key (in_flight claim_at operation) apart ∙ still,
                ground (arith, size),
              )
        | inr (existing, known) ↦ rw (known, begin_keyed) (still, omega (arith, fewer))
      ]

  step-get :
      (key : Text) (call : Call) (store : IdempotencyStore) {entry : Entry}
      → get store.entries key ≡ some entry
      → Spares key (stored_at entry + store.retention_ms) call
      → length store.entries < store.max_entries
      → (get (step store call).entries key ≡ some entry)
        × (length (step store call).entries ≤ length store.entries + 1)
  unfolding step
  step-get key (begins map_key operation evict_at claim_at) store found spares room =
      begin_keyed-get key map_key operation evict_at claim_at store found spares room
  step-get key (settles map_key operation response failed now) store found spares room = (
    settle-get key map_key operation response failed now store spares ∙ found,
    settle-length map_key operation response failed now store,
  )

  -- Whatever calls come for other keys, and whatever is begun before the entry expires, the entry of
  -- a key stays as it is, if the ceiling leaves room for as many entries as there are calls.
  pub run-get :
      (key : Text) (calls : List Call) (store : IdempotencyStore) {entry : Entry}
      → get store.entries key ≡ some entry
      → All (Spares key (stored_at entry + store.retention_ms)) calls
      → length store.entries + length calls ≤ store.max_entries
      → (get (run store calls).entries key ≡ some entry)
        × ((run store calls).retention_ms ≡ store.retention_ms)
  unfolding run
  run-get key [] store found spares room = (found, refl)
  run-get key (call ∷ calls) store {entry} found spares room =
      let (still, size) = step-get key call store found spares.0 (omega arith) in
      let (same_retention, same_max) = step-config store call in
      let (last, same) =
        run-get key calls (step store call) still (rw same_retention spares.1)
          (omega (arith, same_max)) in
      (last, same ∙ same_retention)

-- One effect per key: once `begin` has claimed a key, every later `begin` of that key that comes
-- before the claim expires is refused, with whatever traffic of other keys between them (and other
-- `begin`s of this one), as long as the claim is not settled and the ceiling leaves room.
pub claimed_once :
    (encoded_length : Json → ℕ) (key : Text) (operation : String) (evict_at claim_at : ℕ)
    (store : IdempotencyStore) (calls : List Call) (again : String) (later later' : ℕ)
    → let claim = begin_keyed key operation evict_at claim_at store in
      let now = run encoded_length claim.0 calls in
      0 < store.max_entries
      → claim.1 ≡ claimed key
      → length claim.0.entries + length calls ≤ claim.0.max_entries
      → All (Spares encoded_length key (claim_at + claim.0.retention_ms)) calls
      → later < claim_at + claim.0.retention_ms
      → (begin_keyed key again later later' now).1
        ≡ (if str_eq operation again then key_in_flight else reused_for_different_operation)
claimed_once encoded_length key operation evict_at claim_at store calls again later later' pos c
      room spares early =
    let claim = begin_keyed key operation evict_at claim_at store in
    let held = begin_keyed-claims key operation evict_at claim_at store pos c in
    let (still, same) = run-get encoded_length key calls claim.0 held spares room in
    begin_keyed-known key again later later' _ still (omega (arith, same))

-- A settled success is replayed to every `begin` of the key and operation before it expires, with
-- its status and value, with whatever traffic of other keys in between, as long as the ceiling leaves
-- room for the entries that are there and one more for each call; for another operation it is
-- refused.
pub replayed :
    (encoded_length : Json → ℕ) (key : Text) (operation : String) (status : ℕ) (value : Json)
    (settled_at : ℕ) (store : IdempotencyStore) (calls : List Call) (again : String)
    (later later' : ℕ)
    → let done =
        settle encoded_length key operation (some (json status value)) false settled_at store in
      let now = run encoded_length done calls in
      encoded_length value ≤ max_replayable_bytes
      → length done.entries + length calls ≤ store.max_entries
      → All (Spares encoded_length key (settled_at + store.retention_ms)) calls
      → later < settled_at + store.retention_ms
      → (begin_keyed key again later later' now).1
        ≡ (if str_eq operation again then replay status value else reused_for_different_operation)
replayed encoded_length key operation status value settled_at store calls again later later' small
      room spares early =
    let done : IdempotencyStore = record store {
      entries = put store.entries key (completed status value settled_at operation);
    } in
    let stored = settle-success encoded_length key operation status value settled_at store small in
    let (still, same) =
      run-get encoded_length key calls done
        (get-put_self store.entries key (completed status value settled_at operation)) spares
        (omega (arith, ap (λ s. length s.entries) stored)) in
    rw stored (begin_keyed-known key again later later' _ still (omega (arith, same)))
