-- ===== src/Idempotency/Tests.antt =====
-- src/localApi/idempotencyStore.ts: runs of the store, and the theorems at concrete calls.
use kubus_node.Base.{
  ℕ, ◌+◌, ◌≡◌, refl, ap₂, ◌≢◌, true, false, none, some, List, [], ◌∷◌, arith, length, Text, units,
  text_key, number_key, string_key, get, put, remove,
}
use kubus_node.Json.{Json, null, num}
use kubus_node.Idempotency.{
  normalize_idempotency_key, IdempotencyStore, new_store, json, replay, claimed, key_in_flight,
  begin_keyed, begin, settle, evict_expired, enforce_capacity,
}
use kubus_node.Idempotency.Keys.{NoColon, bearer, scoped_key_injective}
use kubus_node.Idempotency.Effects.{settle_exceeds}
use kubus_node.Idempotency.Traffic.{Call, begins, settles, run, claimed_once, replayed}

abbrev capture : Text
capture = units "capture:12345678"

abbrev draft : Text
draft = units "draft:12345678"

abbrev four_bytes : Json → ℕ
four_bytes value = 4

abbrev fresh : IdempotencyStore
fresh = new_store 1000 4

store : Unit {0}
unfolding begin_keyed settle evict_expired enforce_capacity get put remove
store = tt

refused_keys :
    (normalize_idempotency_key (some (units "short")) ≡ none)
    × (normalize_idempotency_key (some (units " capture:12345678")) ≡ none)
    × (normalize_idempotency_key (some (units "capture/12345678")) ≡ none)
    × (normalize_idempotency_key (some capture) ≡ some capture)
unfolding normalize_idempotency_key
refused_keys = (refl, refl, refl, refl)

begin_claims :
    (begin (λ c. c) (some capture) none "commit" 0 0 fresh).1
    ≡ claimed (units "anonymous:capture:12345678")
unfolding begin store normalize_idempotency_key
begin_claims = refl

abbrev calls : List Call
calls =
    begins draft "commit" 5 5 ∷ settles draft "commit" none true 6 ∷ begins capture "jobs" 7 7 ∷ []

-- A hash for the tests: a mark, and every unit moved beyond the colon.
abbrev shift : Text → Text
shift [] = []
shift (c ∷ text) = (c + 59) ∷ shift text

abbrev test_hash : Text → Text
test_hash credential = 1 ∷ shift credential

shift-NoColon : (text : Text) → NoColon (shift text)
shift-NoColon [] = tt
shift-NoColon (c ∷ text) = ((λ e. omega (arith, e)), shift-NoColon text)

shift_injective : (s t : Text) → shift s ≡ shift t → s ≡ t
shift_injective [] [] e = refl
shift_injective [] (d ∷ t) e = absurd (ground (arith, e))
shift_injective (c ∷ s) [] e = absurd (ground (arith, e))
shift_injective (c ∷ s) (d ∷ t) e =
    ap₂ ◌∷◌ (ground (arith, e)) (shift_injective s t (ground (arith, e)))

scoped_key_injective_example :
    (bearer (some (units "x")) ≡ bearer (some (units "x"))) × (capture ≡ capture)
scoped_key_injective_example =
    scoped_key_injective test_hash (λ c. ((λ e. omega (arith, e)), shift-NoColon c))
      (λ c e. ground (arith, e)) capture capture (some (units "x")) (some (units "x"))
      (λ c d first second e. shift_injective c d (ground (arith, e))) refl

abbrev full : IdempotencyStore
full = new_store 1000 0

settle_exceeds_example :
    length (settle four_bytes capture "commit" (some (json 200 null)) false 8 full).entries ≡ 1
unfolding get
settle_exceeds_example =
    settle_exceeds four_bytes capture "commit" 200 null 8 full (omega arith) refl refl

claimed_once_example :
    (begin_keyed capture "commit" 20 20
      (run four_bytes (begin_keyed capture "commit" 0 0 fresh).0 calls)).1
    ≡ key_in_flight
unfolding store
claimed_once_example =
    claimed_once four_bytes capture "commit" 0 0 fresh calls "commit" 20 20 (omega arith) refl
      (omega arith) (omega arith, (draft_not_capture, (omega arith, tt))) (omega arith)
  where
    draft_not_capture : draft ≢ capture
    draft_not_capture = ground arith

replayed_example :
    (begin_keyed capture "commit" 20 20 (
      run four_bytes
        (settle four_bytes capture "commit" (some (json 201 (num 7))) false 3 fresh)
        calls)).1
    ≡ replay 201 (num 7)
unfolding store
replayed_example =
    replayed four_bytes capture "commit" 201 (num 7) 3 fresh calls "commit" 20 20 (omega arith)
      (omega arith) (omega arith, (draft_not_capture, (omega arith, tt))) (omega arith)
  where
    draft_not_capture : draft ≢ capture
    draft_not_capture = ground arith
