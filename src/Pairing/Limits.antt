-- ===== src/Pairing/Limits.antt =====
-- src/localApi/pairingService.ts, `PairingAttemptLimiter`: what its windows bound.
use kubus_node.Base.{
  ℕ, ◌+◌, ◌≤◌, ◌<◌, ◌≡◌, refl, sym, subst, ◌≢◌, inl, inr, Bool, some, List, [], ◌∷◌, arith, leb,
  if◌then◌else◌, leb→le, Bool-cases, is_some, length, All, Text, same_text_iff, text_key,
  number_key, string_key, Dict, get, put, remove, has, length-put, length-remove,
}
use kubus_node.Pairing.Limiter.{
  Attempts, PairingAttemptLimiter, drop_oldest, next_attempts, assert_allowed, failed,
}

-- How many of the calls, each of a client at a time, are let in.
abbrev pub admitted : List (Text × ℕ) → PairingAttemptLimiter → ℕ
admitted [] limiter = 0
admitted ((client, now) ∷ calls) limiter =
    (if (assert_allowed client now limiter).1 then 1 else 0)
    + admitted calls (assert_allowed client now limiter).0

-- One call inside the global window.
record IsCounted (start : ℕ) (before after : PairingAttemptLimiter) (allowed : Bool) : Type 0 where
  pub same_window : after.global_window_started_at ≡ some start
  pub same_length : after.window_ms ≡ before.window_ms
  pub same_limit : after.max_global_attempts ≡ before.max_global_attempts
  pub counted : (if allowed then 1 else 0) + before.global_count ≤ after.global_count
  pub bounded :
      before.global_count ≤ before.max_global_attempts
      → after.global_count ≤ before.max_global_attempts

assert_allowed-IsCounted :
    (client : Text) (now start : ℕ) (limiter : PairingAttemptLimiter)
    → limiter.global_window_started_at ≡ some start
    → now < start + limiter.window_ms
    → IsCounted start limiter
        (assert_allowed client now limiter).0
        (assert_allowed client now limiter).1
unfolding assert_allowed
assert_allowed-IsCounted client now start limiter window inside = record {
  same_window = ground arith;
  same_length = ground arith;
  same_limit = ground arith;
  counted = ground arith;
  bounded = λ h. ground arith;
}

-- Within one global window at most `maxGlobalAttempts` attempts are let in, whatever clients make
-- them, those counted before included.
admitted_bound :
    (calls : List (Text × ℕ)) (start : ℕ) (limiter : PairingAttemptLimiter)
    → limiter.global_window_started_at ≡ some start
    → All (λ call. call.1 < start + limiter.window_ms) calls
    → limiter.global_count ≤ limiter.max_global_attempts
    → admitted calls limiter + limiter.global_count ≤ limiter.max_global_attempts
admitted_bound [] start limiter window inside room = omega arith
admitted_bound ((client, now) ∷ calls) start limiter window (first, inside) room =
    let next = (assert_allowed client now limiter).0 in
    let c = assert_allowed-IsCounted client now start limiter window first in
    let within : All (λ call. call.1 < start + next.window_ms) calls =
      subst (λ w. All (λ call. call.1 < start + w) calls) (sym c.same_length) inside in
    let rest =
      admitted_bound calls start next c.same_window within
        (ground (arith, c.same_limit, c.bounded room)) in
    ground (arith, rest, c.same_limit, c.counted)

-- No key is empty, and there are at most `maxTrackedKeys`.
record IsTracked (limiter : PairingAttemptLimiter) : Type 0 where
  pub named : All (λ e. e.0 ≢ []) limiter.attempts
  pub few : length limiter.attempts ≤ limiter.max_tracked_keys

module _ {V : Type 0} where
  Named-put :
      (entries : Dict Text V) (key : Text) (value : V)
      → key ≢ []
      → All (λ e. e.0 ≢ []) entries
      → All (λ e. e.0 ≢ []) (put entries key value)
  unfolding put
  Named-put [] key value apart h = (apart, tt)
  Named-put ((at, old) ∷ entries) key value apart h =
      ground (arith, Named-put entries key value apart h.1)

  Named-remove :
      (entries : Dict Text V) (key : Text)
      → All (λ e. e.0 ≢ []) entries
      → All (λ e. e.0 ≢ []) (remove entries key)
  unfolding remove
  Named-remove [] key h = tt
  Named-remove ((at, old) ∷ entries) key h = ground (arith, Named-remove entries key h.1)

drop_oldest-room :
    (attempts : Dict Text Attempts)
    → All (λ e. e.0 ≢ []) attempts
    → 1 ≤ length attempts
    → (length (drop_oldest attempts) + 1 ≤ length attempts)
      × All (λ e. e.0 ≢ []) (drop_oldest attempts)
unfolding remove
drop_oldest-room [] h some_entry = absurd (omega arith)
drop_oldest-room (([], first) ∷ attempts) h some_entry = absurd (h.0 refl)
drop_oldest-room ((c ∷ oldest, first) ∷ attempts) h some_entry =
    let own = (same_text_iff (c ∷ oldest) (c ∷ oldest)).1 refl in
    (
      ground (arith, own, length-remove attempts (c ∷ oldest)),
      ground (arith, own, Named-remove attempts (c ∷ oldest) h.1),
    )

-- The table of a limiter that can hold a key never outgrows `maxTrackedKeys`: a failure, whoever
-- makes it, keeps it within, for keys that are not empty.
failed-IsTracked :
    (client : Text) (now : ℕ) (limiter : PairingAttemptLimiter)
    → client ≢ []
    → 1 ≤ limiter.max_tracked_keys
    → IsTracked limiter
    → IsTracked (failed client now limiter)
unfolding failed has
failed-IsTracked client now limiter apart positive t =
    elim (Bool-cases (is_some (get limiter.attempts client))) [
      | inl known ↦ record {
        named = ground (
          arith,
          Named-put limiter.attempts client
              (next_attempts limiter.window_ms now (get limiter.attempts client)) apart t.named,
        );
        few = ground (
          arith,
          length-put limiter.attempts client
              (next_attempts limiter.window_ms now (get limiter.attempts client)),
          t.few,
        );
      }
      | inr new ↦ elim (Bool-cases (leb limiter.max_tracked_keys (length limiter.attempts))) [
        | inl full ↦
            let (smaller, named) =
              drop_oldest-room limiter.attempts t.named (ground (arith, leb→le _ _ full)) in
            record {
              named = ground (
                arith,
                Named-put (drop_oldest limiter.attempts) client
                    (next_attempts limiter.window_ms now (get limiter.attempts client)) apart named,
              );
              few = ground (
                arith,
                length-put (drop_oldest limiter.attempts) client
                    (next_attempts limiter.window_ms now (get limiter.attempts client)),
                t.few,
              );
            }
        | inr room ↦ record {
          named = ground (
            arith,
            Named-put limiter.attempts client
                (next_attempts limiter.window_ms now (get limiter.attempts client)) apart t.named,
          );
          few = ground (
            arith,
            length-put limiter.attempts client
                (next_attempts limiter.window_ms now (get limiter.attempts client)),
            t.few,
          );
        }
      ]
    ]
