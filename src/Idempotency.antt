-- ===== src/Idempotency.antt =====
-- src/localApi/idempotencyStore.ts: the memory of recent effects, keyed by the client.
-- Each read of the clock is an argument.
pub mod Keys
pub mod Effects
pub mod Traffic
pub mod Tests
use kubus_node.Base.{
  ℕ, zero, suc, ◌+◌, ◌-◌, ◌*◌, ◌/◌, ◌%◌, ◌^◌, ◌≤◌, ◌<◌, min, max, bit_and, bit_or, bit_xor, String,
  str_eq, starts_with, eq_iff, eq_refl, ◌≡◌, refl, sym, ap, ap₂, ◌∙◌, subst, ◌≡⟨◌⟩◌, ◌∎, ◌≢◌, ◌↔◌,
  ◌⊎◌, inl, inr, Bool, true, false, not, ◌&&◌, ◌||◌, Option, none, some, List, [], ◌∷◌, ◌++◌, map,
  map-append, append-nil, append_assoc, arith, ltb, leb, ◌==◌, if◌then◌else◌, ltb→lt, lt→ltb,
  le→ltb, leb→le, ==_iff, Bool-cases, Option-cases, is_some, length, get_or, take, drop, concat,
  every, any, All, length-append, length-take, length-drop, take-append-drop, take-append,
  drop-append, All-append, drop-drop, concat-append, Text, units, same_text, same_text_iff,
  begins_with, is_space, holds_unit, cut_unique, text_key, number_key, string_key, Dict, Key, get,
  put, remove, has, get-put, get-put_self, get-put_ne, get-remove, get-remove_self, get-remove_ne,
  length-put, length-remove, Values, Values-put, Values-remove, Values-get,
}
use kubus_node.Json.{Json}

abbrev pub default_retention_ms : ℕ
default_retention_ms = 24 * 60 * 60 * 1000

abbrev pub default_max_entries : ℕ
default_max_entries = 2048

abbrev pub max_replayable_bytes : ℕ
max_replayable_bytes = 64 * 1024

abbrev pub max_key_length : ℕ
max_key_length = 128

abbrev pub min_key_length : ℕ
min_key_length = 8

pub data Entry : Type 0 where
  completed : (status : ℕ) (value : Json) (stored_at : ℕ) (operation : String) → Entry
  in_flight : (stored_at : ℕ) (operation : String) → Entry

abbrev pub stored_at : Entry → ℕ
stored_at (completed status value at operation) = at
stored_at (in_flight at operation) = at

abbrev pub operation_of : Entry → String
operation_of (completed status value at operation) = operation
operation_of (in_flight at operation) = operation

-- The class of `KEY_PATTERN`: letters, digits and `- . _ ~ :`.
abbrev pub key_unit : ℕ → Bool
key_unit c =
    leb b'A' c && leb c b'Z'
    || leb b'a' c && leb c b'z'
    || leb b'0' c && leb c b'9'
    || c == b'-'
    || c == b'.'
    || c == b'_'
    || c == b'~'
    || c == b':'

abbrev starts_with_space : Text → Bool
starts_with_space [] = false
starts_with_space (c ∷ text) = is_space c

abbrev ends_with_space : Text → Bool
ends_with_space [] = false
ends_with_space (c ∷ []) = is_space c
ends_with_space (c ∷ d ∷ text) = ends_with_space (d ∷ text)

-- `none` where the raw key is no string, and for a key that is treated as absent.
unfoldable pub normalize_idempotency_key : Option Text → Option Text
normalize_idempotency_key none = none
normalize_idempotency_key (some raw) =
    if starts_with_space raw || ends_with_space raw
    then none
    else if ltb (length raw) min_key_length || ltb max_key_length (length raw)
    then none
    else if not (every key_unit raw)
    then none
    else some raw

pub record IdempotencyStore : Type 0 where
  pub entries : Dict Text Entry
  pub retention_ms : ℕ
  pub max_entries : ℕ

abbrev pub new_store : ℕ → ℕ → IdempotencyStore
new_store retention_ms max_entries = record {
  entries = [];
  retention_ms = retention_ms;
  max_entries = max_entries;
}

-- `entry.storedAt <= now - retentionMs`.
abbrev pub is_expired : ℕ → ℕ → Entry → Bool
is_expired retention_ms now entry = leb (stored_at entry + retention_ms) now

unfoldable pub evict_expired : ℕ → ℕ → Dict Text Entry → Dict Text Entry
evict_expired retention_ms now [] = []
evict_expired retention_ms now ((key, entry) ∷ entries) =
    let rest = evict_expired retention_ms now entries in
    if is_expired retention_ms now entry then rest else (key, entry) ∷ rest

-- The `while` loop; each round forgets the entry that was made first.
unfoldable pub enforce_capacity : ℕ → Dict Text Entry → Dict Text Entry
enforce_capacity max_entries [] = []
enforce_capacity max_entries (oldest ∷ entries) =
    let rest = enforce_capacity max_entries entries in
    if ltb max_entries (length (oldest ∷ entries)) then rest else oldest ∷ entries

-- The three shapes of a response.
pub data LocalResponse : Type 0 where
  json : (status : ℕ) (value : Json) → LocalResponse
  bytes stream : (status : ℕ) → LocalResponse

-- What `begin` answers; a claim carries the key that its `settle` closes over.
pub data Outcome : Type 0 where
  unkeyed : Outcome
  replay : (status : ℕ) (value : Json) → Outcome
  claimed : (map_key : Text) → Outcome
  reused_for_different_operation key_in_flight : Outcome

-- `hash` is the prefix of 32 hexadecimal digits of the credential's SHA-256.
module _ (hash : Text → Text) where
  abbrev pub subject : Option Text → Text
  subject none = units "anonymous"
  subject (some []) = units "anonymous"
  subject (some (c ∷ credential)) = hash (c ∷ credential)

  abbrev pub scoped_key : Text → Option Text → Text
  scoped_key key credential = subject credential ++ b':' ∷ key

abbrev pub answer : Entry → String → Outcome
answer (completed status value at made_by) operation =
    if str_eq made_by operation then replay status value else reused_for_different_operation
answer (in_flight at made_by) operation =
    if str_eq made_by operation then key_in_flight else reused_for_different_operation

-- `begin` for a key that is usable: `evict_at` and `claim_at` are its two reads of the clock.
unfoldable pub begin_keyed : Text → String → ℕ → ℕ → IdempotencyStore → IdempotencyStore × Outcome
begin_keyed map_key operation evict_at claim_at store =
    let entries = evict_expired store.retention_ms evict_at store.entries in
    elim (get entries map_key) [
      | some existing ↦ (record store { entries = entries }, answer existing operation)
      | none ↦ (
        record store {
          entries =
              enforce_capacity store.max_entries
                (put entries map_key (in_flight claim_at operation));
        },
        claimed map_key,
      )
    ]

unfoldable pub begin :
    (Text → Text)
    → Option Text
    → Option Text
    → String
    → ℕ
    → ℕ
    → IdempotencyStore
    → IdempotencyStore × Outcome
begin hash key credential operation evict_at claim_at store = elim (normalize_idempotency_key key) [
  | none ↦ (store, unkeyed)
  | some usable ↦ begin_keyed (scoped_key hash usable credential) operation evict_at claim_at store
]

abbrev pub forget : Text → IdempotencyStore → IdempotencyStore
forget map_key store = record store { entries = remove store.entries map_key }

-- The `settle` of a claim. `encoded_length` is the size of a value's JSON text in bytes.
unfoldable pub settle :
    (Json → ℕ)
    → Text
    → String
    → Option LocalResponse
    → Bool
    → ℕ
    → IdempotencyStore
    → IdempotencyStore
settle encoded_length map_key operation none failed now store = forget map_key store
settle encoded_length map_key operation (some (bytes status)) failed now store =
    forget map_key store
settle encoded_length map_key operation (some (stream status)) failed now store =
    forget map_key store
settle encoded_length map_key operation (some (json status value)) failed now store =
    if failed
    then forget map_key store
    else if ltb max_replayable_bytes (encoded_length value)
    then forget map_key store
    else record store { entries = put store.entries map_key (completed status value now operation) }

unfoldable pub size : ℕ → IdempotencyStore → IdempotencyStore × ℕ
size now store =
    let entries = evict_expired store.retention_ms now store.entries in
    (record store { entries = entries }, length entries)
