-- ===== src/Pairing/Guesses.antt =====
-- src/localApi/pairingService.ts, `PairingAttemptLimiter`, as `exchangePairing` of
-- src/localApi/dispatch.ts uses it: how many wrong guesses of a client are tested.
use kubus_node.Base.{
  ℕ, ◌+◌, ◌≤◌, Bool, ◌&&◌, List, [], ◌∷◌, if◌then◌else◌, length, Text, same_text, text_key,
  number_key, string_key,
}
use kubus_node.Pairing.Limiter.{PairingAttemptLimiter, assert_allowed}
use kubus_node.Pairing.Attempts.{is_wrong, Exchange, attempt, IsHeld}

-- How many guesses of one client are tested.
abbrev pub guesses_of : Text → List Exchange → PairingAttemptLimiter → ℕ
guesses_of own [] limiter = 0
guesses_of own (call ∷ calls) limiter =
    (if same_text call.client own
        && ((assert_allowed call.client call.asked_at limiter).1 && is_wrong call.end)
      then 1
      else 0)
    + guesses_of own calls (attempt call limiter)

-- One exchange beside an entry that stays: whether it is one more guess of the client.
record IsTallied (own : Text) (start count : ℕ) (before after : PairingAttemptLimiter)
    (guess : Bool) : Type 0 where
  pub kept : IsHeld own start ((if guess then 1 else 0) + count) before after
  pub grown : length after.attempts ≤ length before.attempts + 1
  pub bounded : count ≤ before.max_attempts → (if guess then 1 else 0) + count ≤ before.max_attempts
