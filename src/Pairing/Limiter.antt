-- ===== src/Pairing/Limiter.antt =====
-- src/localApi/pairingService.ts, `PairingAttemptLimiter`. Each read of the clock is an argument.
use kubus_node.Base.{
  ℕ, ◌+◌, Bool, true, false, not, ◌&&◌, Option, none, some, [], ◌∷◌, ltb, leb, if◌then◌else◌,
  length, Text, text_key, number_key, string_key, Dict, get, put, remove, has,
}

pub record Attempts : Type 0 where
  pub window_started_at : ℕ
  pub count : ℕ

pub record PairingAttemptLimiter : Type 0 where
  pub attempts : Dict Text Attempts
  pub global_window_started_at : Option ℕ
  pub global_count : ℕ
  pub max_attempts : ℕ
  pub window_ms : ℕ
  pub max_tracked_keys : ℕ
  pub max_global_attempts : ℕ

abbrev pub new_limiter : PairingAttemptLimiter
new_limiter = record {
  attempts = [];
  global_window_started_at = none;
  global_count = 0;
  max_attempts = 5;
  window_ms = 60000;
  max_tracked_keys = 4096;
  max_global_attempts = 120;
}

-- `now - startedAt < windowMs`.
abbrev pub in_window : ℕ → ℕ → ℕ → Bool
in_window window_ms started_at now = ltb now (started_at + window_ms)

abbrev pub global_is_over : ℕ → ℕ → Option ℕ → Bool
global_is_over window_ms now none = true
global_is_over window_ms now (some started_at) = not (in_window window_ms started_at now)

abbrev restart_global : ℕ → PairingAttemptLimiter → PairingAttemptLimiter
restart_global now limiter =
    if global_is_over limiter.window_ms now limiter.global_window_started_at
    then record limiter { global_window_started_at = some now; global_count = 0 }
    else limiter

abbrev check_client : Text → ℕ → PairingAttemptLimiter → PairingAttemptLimiter × Bool
check_client client now limiter = elim (get limiter.attempts client) [
  | none ↦ (limiter, true)
  | some attempts ↦
      if not (in_window limiter.window_ms attempts.window_started_at now)
      then (record limiter { attempts = remove limiter.attempts client }, true)
      else (limiter, ltb attempts.count limiter.max_attempts)
]

-- `assertAllowed`; the answer is `false` where it throws `pairing_rate_limited`.
unfoldable pub assert_allowed : Text → ℕ → PairingAttemptLimiter → PairingAttemptLimiter × Bool
assert_allowed client now limiter =
    let restarted = restart_global now limiter in
    if leb restarted.max_global_attempts restarted.global_count
    then (restarted, false)
    else check_client client now (record restarted { global_count = restarted.global_count + 1 })

abbrev pub next_attempts : ℕ → ℕ → Option Attempts → Attempts
next_attempts window_ms now none = record { window_started_at = now; count = 1 }
next_attempts window_ms now (some previous) =
    if in_window window_ms previous.window_started_at now
    then record previous { count = previous.count + 1 }
    else record { window_started_at = now; count = 1 }

-- The oldest key goes; the empty key is falsy and stays.
abbrev pub drop_oldest : Dict Text Attempts → Dict Text Attempts
drop_oldest [] = []
drop_oldest (([], first) ∷ attempts) = ([], first) ∷ attempts
drop_oldest ((c ∷ oldest, first) ∷ attempts) = remove ((c ∷ oldest, first) ∷ attempts) (c ∷ oldest)

unfoldable pub failed : Text → ℕ → PairingAttemptLimiter → PairingAttemptLimiter
failed client now limiter =
    let next = next_attempts limiter.window_ms now (get limiter.attempts client) in
    let room =
      if not (has limiter.attempts client) && leb limiter.max_tracked_keys (length limiter.attempts)
      then drop_oldest limiter.attempts
      else limiter.attempts in
    record limiter { attempts = put room client next }

abbrev pub succeeded : Text → PairingAttemptLimiter → PairingAttemptLimiter
succeeded client limiter = record limiter { attempts = remove limiter.attempts client }
