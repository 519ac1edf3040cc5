-- ===== src/Pairing/Attempts.antt =====
-- src/localApi/dispatch.ts, `exchangePairing`: its use of the limiter of attempts, and what that leaves
-- of the entry of a client.
use kubus_node.Base.{
  ℕ, ◌+◌, ◌≤◌, ◌<◌, ◌≡◌, refl, sym, ap, ◌∙◌, subst, ◌≢◌, Bool, true, false, some, arith,
  if◌then◌else◌, lt→ltb, length, Text, text_key, number_key, string_key, Dict, get, put,
  get-put_self, get-put_ne, get-remove_ne, length-put, length-remove,
}
use kubus_node.Pairing.Limiter.{
  Attempts, PairingAttemptLimiter, next_attempts, assert_allowed, failed, succeeded,
}

-- How an exchange that was let in ends: a wrong guess, an issued credential or another error.
pub data End : Type 0 where
  wrong issued broken : End

abbrev pub is_wrong : End → Bool
is_wrong wrong = true
is_wrong issued = false
is_wrong broken = false

pub record Exchange : Type 0 where
  pub client : Text
  pub asked_at : ℕ
  pub failed_at : ℕ
  pub end : End

-- What `exchangePairing` makes of the limiter after it has let a client in.
abbrev pub concluded : Text → ℕ → End → PairingAttemptLimiter → PairingAttemptLimiter
concluded client failed_at wrong limiter = failed client failed_at limiter
concluded client failed_at issued limiter = succeeded client limiter
concluded client failed_at broken limiter = limiter

-- The use of the limiter in `exchangePairing`.
unfoldable pub attempt : Exchange → PairingAttemptLimiter → PairingAttemptLimiter
attempt call limiter =
    let asked = assert_allowed call.client call.asked_at limiter in
    if asked.1 then concluded call.client call.failed_at call.end asked.0 else asked.0

-- A failure where the table has room: nothing is pushed out.
failed-roomy :
    (client : Text) (now : ℕ) (limiter : PairingAttemptLimiter)
    → length limiter.attempts < limiter.max_tracked_keys
    → failed client now limiter ≡ record limiter {
      attempts =
          put limiter.attempts client
            (next_attempts limiter.window_ms now (get limiter.attempts client));
    }
unfolding failed
failed-roomy client now limiter room =
    ap {A = Dict Text Attempts}
      (λ entries. record limiter {
        attempts =
            put entries client (next_attempts limiter.window_ms now (get limiter.attempts client));
      })
      (ground (arith, room))

-- The entry of a client beside the limits, and room for one more key.
pub record IsHeld (own : Text) (start count : ℕ) (before after : PairingAttemptLimiter)
    : Type 0 where
  pub held : get after.attempts own ≡ some (record { window_started_at = start; count = count })
  pub same_length : after.window_ms ≡ before.window_ms
  pub same_limit : after.max_attempts ≡ before.max_attempts
  pub same_room : after.max_tracked_keys ≡ before.max_tracked_keys

module _ (own : Text) (start count : ℕ) (limiter : PairingAttemptLimiter)
    (found : get limiter.attempts own
      ≡ some (record { window_started_at = start; count = count })) where
  pub assert_allowed-own :
      (now : ℕ)
      → now < start + limiter.window_ms
      → IsHeld own start count limiter (assert_allowed own now limiter).0
        × (length (assert_allowed own now limiter).0.attempts ≤ length limiter.attempts)
        × ((assert_allowed own now limiter).1 ≡ true → count < limiter.max_attempts)
  unfolding assert_allowed
  assert_allowed-own now inside = (
    record {
      held = ground (arith, found);
      same_length = ground (arith, found);
      same_limit = ground (arith, found);
      same_room = ground (arith, found);
    },
    ground (arith, found),
    λ h. ground (arith, found, h),
  )

  pub assert_allowed-other :
      (client : Text) (now : ℕ)
      → client ≢ own
      → IsHeld own start count limiter (assert_allowed client now limiter).0
        × (length (assert_allowed client now limiter).0.attempts ≤ length limiter.attempts)
  unfolding assert_allowed
  assert_allowed-other client now apart = (
    record {
      held = ground (arith, found, get-remove_ne limiter.attempts client apart);
      same_length = ground arith;
      same_limit = ground arith;
      same_room = ground arith;
    },
    ground (arith, length-remove limiter.attempts client),
  )

  pub failed-own :
      (now : ℕ)
      → now < start + limiter.window_ms
      → length limiter.attempts < limiter.max_tracked_keys
      → IsHeld own start (1 + count) limiter (failed own now limiter)
        × (length (failed own now limiter).attempts ≤ length limiter.attempts + 1)
  failed-own now inside room =
      let next = next_attempts limiter.window_ms now (get limiter.attempts own) in
      let counted : next ≡ record { window_started_at = start; count = 1 + count } =
        rw (found, lt→ltb now (start + limiter.window_ms) inside)
          (ap {A = ℕ} (λ n. record { window_started_at = start; count = n }) (omega arith)) in
      subst {A = PairingAttemptLimiter}
        (λ l.
          IsHeld own start (1 + count) limiter l
          × (length l.attempts ≤ length limiter.attempts + 1))
        (sym (failed-roomy own now limiter room))
        (
          record {
            held = get-put_self limiter.attempts own next ∙ ap some counted;
            same_length = refl;
            same_limit = refl;
            same_room = refl;
          },
          ground (arith, length-put limiter.attempts own next),
        )

  failed-other :
      (client : Text) (now : ℕ)
      → client ≢ own
      → length limiter.attempts < limiter.max_tracked_keys
      → IsHeld own start count limiter (failed client now limiter)
        × (length (failed client now limiter).attempts ≤ length limiter.attempts + 1)
  failed-other client now apart room =
      let next = next_attempts limiter.window_ms now (get limiter.attempts client) in
      subst {A = PairingAttemptLimiter}
        (λ l. IsHeld own start count limiter l × (length l.attempts ≤ length limiter.attempts + 1))
        (sym (failed-roomy client now limiter room))
        (
          record {
            held = get-put_ne limiter.attempts client next apart ∙ found;
            same_length = refl;
            same_limit = refl;
            same_room = refl;
          },
          ground (arith, length-put limiter.attempts client next),
        )

  pub concluded-other :
      (client : Text) (now : ℕ) (end_of : End)
      → client ≢ own
      → length limiter.attempts < limiter.max_tracked_keys
      → IsHeld own start count limiter (concluded client now end_of limiter)
        × (length (concluded client now end_of limiter).attempts ≤ length limiter.attempts + 1)
  concluded-other client now wrong apart room = failed-other client now apart room
  concluded-other client now issued apart room = (
    record {
      held = get-remove_ne limiter.attempts client apart ∙ found;
      same_length = refl;
      same_limit = refl;
      same_room = refl;
    },
    omega (arith, length-remove limiter.attempts client),
  )
  concluded-other client now broken apart room = (
    record { held = found; same_length = refl; same_limit = refl; same_room = refl },
    omega arith,
  )

pub IsHeld-trans :
    (own : Text) (start count more : ℕ) (before middle after : PairingAttemptLimiter)
    → IsHeld own start count before middle
    → IsHeld own start more middle after
    → IsHeld own start more before after
IsHeld-trans own start count more before middle after first second = record {
  held = second.held;
  same_length = second.same_length ∙ first.same_length;
  same_limit = second.same_limit ∙ first.same_limit;
  same_room = second.same_room ∙ first.same_room;
}
