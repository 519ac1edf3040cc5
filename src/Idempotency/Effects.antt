-- ===== src/Idempotency/Effects.antt =====
-- src/localApi/idempotencyStore.ts: what one call does to the entry of a key.
use kubus_node.Base.{
  ℕ, ◌+◌, ◌≤◌, ◌<◌, String, ◌≡◌, refl, ap, ◌≢◌, ◌⊎◌, inl, inr, Bool, true, false, Option, none,
  some, [], ◌∷◌, arith, le→ltb, Bool-cases, Option-cases, length, Text, same_text, same_text_iff,
  text_key, number_key, string_key, Dict, get, put, has, get-put_self, get-remove_self, length-put,
}
use mathlib.Core.Option.{some-injective}
use kubus_node.Json.{Json}
use kubus_node.Idempotency.{
  Entry, completed, in_flight, stored_at, IdempotencyStore, evict_expired, enforce_capacity,
  LocalResponse, json, bytes, stream, Outcome, claimed, answer, begin_keyed, forget, settle,
  max_replayable_bytes,
}

-- An entry that has not expired stays where it is.
pub get-evict_expired :
    (retention now : ℕ) (entries : Dict Text Entry) (key : Text) {entry : Entry}
    → get entries key ≡ some entry
    → now < stored_at entry + retention
    → get (evict_expired retention now entries) key ≡ some entry
unfolding get evict_expired
get-evict_expired retention now [] key h fresh = absurd (ground arith)
get-evict_expired retention now ((at, e) ∷ entries) key {entry} h fresh =
    elim (Bool-cases (same_text at key)) [
      | inl hit ↦
          let same : e ≡ entry = some-injective _ _ (ground arith) in
          ground (arith, ap stored_at same)
      | inr miss ↦ ground (arith, get-evict_expired retention now entries key {entry = entry})
    ]

pub get-evict_expired-none :
    (retention now : ℕ) (entries : Dict Text Entry) (key : Text)
    → get entries key ≡ none
    → get (evict_expired retention now entries) key ≡ none
unfolding get evict_expired
get-evict_expired-none retention now [] key h = refl
get-evict_expired-none retention now ((at, e) ∷ entries) key h =
    ground (arith, get-evict_expired-none retention now entries key)

pub length-evict_expired :
    (retention now : ℕ) (entries : Dict Text Entry)
    → length (evict_expired retention now entries) ≤ length entries
unfolding evict_expired
length-evict_expired retention now [] = omega arith
length-evict_expired retention now (e ∷ entries) =
    ground (arith, length-evict_expired retention now entries)

pub length-enforce_capacity :
    (max_entries : ℕ) (entries : Dict Text Entry)
    → length (enforce_capacity max_entries entries) ≤ max_entries
unfolding enforce_capacity
length-enforce_capacity max_entries [] = omega arith
length-enforce_capacity max_entries (e ∷ entries) =
    ground (arith, length-enforce_capacity max_entries entries)

pub enforce_capacity-eq :
    (max_entries : ℕ) (entries : Dict Text Entry)
    → length entries ≤ max_entries
    → enforce_capacity max_entries entries ≡ entries
unfolding enforce_capacity
enforce_capacity-eq max_entries [] h = refl
enforce_capacity-eq max_entries (e ∷ entries) h = ground arith

-- The entry made last is the last to be forgotten.
get-enforce_capacity-put :
    (max_entries : ℕ) (entries : Dict Text Entry) (key : Text) (entry : Entry)
    → 0 < max_entries
    → get entries key ≡ none
    → get (enforce_capacity max_entries (put entries key entry)) key ≡ some entry
unfolding get put enforce_capacity
get-enforce_capacity-put max_entries [] key entry pos h = ground (arith, same_text_iff key key)
get-enforce_capacity-put max_entries ((at, e) ∷ entries) key entry pos h = ground (
  arith,
  same_text_iff at key,
  get-enforce_capacity-put max_entries entries key entry pos,
  get-put_self entries key entry,
)

module _ (map_key : Text) (operation : String) (evict_at claim_at : ℕ)
    (store : IdempotencyStore) where
  abbrev begun : IdempotencyStore × Outcome
  begun = begin_keyed map_key operation evict_at claim_at store

  -- A fresh entry decides the answer, and stays.
  pub begin_keyed-known :
      {entry : Entry}
      → get store.entries map_key ≡ some entry
      → evict_at < stored_at entry + store.retention_ms
      → begun.1 ≡ answer entry operation
  unfolding begin_keyed
  begin_keyed-known found fresh =
      rw (
        get-evict_expired store.retention_ms evict_at store.entries map_key found fresh,
        begin_keyed,
      )

  pub begin_keyed-new : get store.entries map_key ≡ none → begun.1 ≡ claimed map_key
  unfolding begin_keyed
  begin_keyed-new missing = rw (
    get-evict_expired-none store.retention_ms evict_at store.entries map_key missing,
    begin_keyed,
  )

  pub begin_keyed-claims :
      0 < store.max_entries
      → begun.1 ≡ claimed map_key
      → get begun.0.entries map_key ≡ some (in_flight claim_at operation)
  unfolding begin_keyed
  begin_keyed-claims pos claim = elim (Option-cases (get kept map_key)) [
    | inl missing ↦
        rw (missing, begin_keyed)
          (get-enforce_capacity-put store.max_entries kept map_key (in_flight claim_at operation)
            pos missing)
    | inr (existing, known) ↦ absurd (answer-ne-claimed existing (rw (known, begin_keyed) at claim))
  ]
    where
      kept : Dict Text Entry
      kept = evict_expired store.retention_ms evict_at store.entries

      answer-ne-claimed : (existing : Entry) → answer existing operation ≢ claimed map_key
      answer-ne-claimed (completed status value at made_by) = ground arith
      answer-ne-claimed (in_flight at made_by) = ground arith

pub settle-success :
    (encoded_length : Json → ℕ) (map_key : Text) (operation : String) (status : ℕ) (value : Json)
    (now : ℕ) (store : IdempotencyStore)
    → encoded_length value ≤ max_replayable_bytes
    → settle encoded_length map_key operation (some (json status value)) false now store
      ≡ record store { entries = put store.entries map_key (completed status value now operation) }
unfolding settle
settle-success encoded_length map_key operation status value now store small =
    rw (le→ltb max_replayable_bytes (encoded_length value) small)

-- After a failure, or a response that is no JSON text of at most 64 KiB, the key is free again: the
-- next `begin` of it claims it, whatever its operation.
pub released :
    (encoded_length : Json → ℕ) (map_key : Text) (operation again : String)
    (response : Option LocalResponse) (failed : Bool) (now later later' : ℕ)
    (store : IdempotencyStore)
    → ((failed ≡ true)
        ⊎ ((status : ℕ) (value : Json)
            → response ≡ some (json status value)
            → max_replayable_bytes < encoded_length value))
    → (begin_keyed map_key again later later'
        (settle encoded_length map_key operation response failed now store)).1
      ≡ claimed map_key
unfolding settle
released encoded_length map_key operation again response failed now later later' store h =
    begin_keyed-new map_key again later later' _
      (rw (forgets response h) (get-remove_self store.entries map_key))
  where
    forgets :
        (response : Option LocalResponse)
        → ((failed ≡ true)
            ⊎ ((status : ℕ) (value : Json)
                → response ≡ some (json status value)
                → max_replayable_bytes < encoded_length value))
        → settle encoded_length map_key operation response failed now store ≡ forget map_key store
    forgets none h = refl
    forgets (some (bytes status)) h = refl
    forgets (some (stream status)) h = refl
    forgets (some (json status value)) (inl e) = rw e
    forgets (some (json status value)) (inr large) = ground (arith, large status value refl)

-- The ceiling is kept by `begin` when it claims a key, and not by `settle`: at a full map, a success
-- that is settled after its claim was forgotten makes one entry more than the ceiling.
pub settle_exceeds :
    (encoded_length : Json → ℕ) (map_key : Text) (operation : String) (status : ℕ) (value : Json)
    (now : ℕ) (store : IdempotencyStore)
    → encoded_length value ≤ max_replayable_bytes
    → length store.entries ≡ store.max_entries
    → get store.entries map_key ≡ none
    → length
        (settle encoded_length map_key operation (some (json status value)) false now store).entries
      ≡ store.max_entries + 1
unfolding has
settle_exceeds encoded_length map_key operation status value now store small full missing =
    rw
      (
        settle-success encoded_length map_key operation status value now store small,
        length-put store.entries map_key (completed status value now operation),
        missing,
      )
      (omega arith)
