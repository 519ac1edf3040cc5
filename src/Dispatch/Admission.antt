-- ===== src/Dispatch/Admission.antt =====
-- src/localApi/dispatch.ts, `AdmissionLimiter`. Each read of the clock is an argument.
use kubus_node.Base.{
  ℕ, ◌+◌, Bool, true, false, not, ◌&&◌, Option, none, some, [], leb, if◌then◌else◌, length, Text,
  text_key, number_key, string_key, Dict, get, put, has,
}
use kubus_node.Pairing.Limiter.{Attempts, in_window, global_is_over, drop_oldest}

-- `clients` holds the window and the count of each.
pub record AdmissionLimiter : Type 0 where
  pub clients : Dict Text Attempts
  pub global_window_started_at : Option ℕ
  pub global_count : ℕ
  pub max_per_client : ℕ
  pub window_ms : ℕ
  pub max_tracked_keys : ℕ
  pub max_global : ℕ

abbrev pub new_admission_limiter : ℕ → ℕ → ℕ → ℕ → AdmissionLimiter
new_admission_limiter max_per_client window_ms max_tracked_keys max_global = record {
  clients = [];
  global_window_started_at = none;
  global_count = 0;
  max_per_client = max_per_client;
  window_ms = window_ms;
  max_tracked_keys = max_tracked_keys;
  max_global = max_global;
}

-- `identityProofAttempts`.
abbrev pub identity_proof_attempts : AdmissionLimiter
identity_proof_attempts = new_admission_limiter 600 60000 4096 3000

abbrev pub restart_window : ℕ → AdmissionLimiter → AdmissionLimiter
restart_window now limiter =
    if global_is_over limiter.window_ms now limiter.global_window_started_at
    then record limiter { global_window_started_at = some now; global_count = 0 }
    else limiter

abbrev pub bucket_of : ℕ → ℕ → Option Attempts → Attempts
bucket_of window_ms now none = record { window_started_at = now; count = 0 }
bucket_of window_ms now (some existing) =
    if in_window window_ms existing.window_started_at now
    then existing
    else record { window_started_at = now; count = 0 }

-- The key of a new client pushes the oldest one out of a full table.
unfoldable pub room_for : Text → AdmissionLimiter → Dict Text Attempts
room_for client limiter =
    if not (has limiter.clients client) && leb limiter.max_tracked_keys (length limiter.clients)
    then drop_oldest limiter.clients
    else limiter.clients

-- What is left of `assertAllowed` when the window is set.
unfoldable pub admit_client : Text → ℕ → AdmissionLimiter → AdmissionLimiter × Bool
unfolding room_for
admit_client client now limiter =
    let bucket = bucket_of limiter.window_ms now (get limiter.clients client) in
    if leb limiter.max_per_client bucket.count
    then (limiter, false)
    else if leb limiter.max_global limiter.global_count
    then (limiter, false)
    else (
      record limiter {
        clients = put (room_for client limiter) client (record bucket { count = bucket.count + 1 });
        global_count = limiter.global_count + 1;
      },
      true,
    )

-- `assertAllowed`; the answer is `false` where it throws `identity_proof_rate_limited`.
unfoldable pub assert_admitted : Text → ℕ → AdmissionLimiter → AdmissionLimiter × Bool
unfolding admit_client
assert_admitted client now limiter = admit_client client now (restart_window now limiter)
