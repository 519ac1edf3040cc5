-- ===== src/Dispatch/Exchange.antt =====
-- src/localApi/dispatch.ts, `exchangePairing`: the attempts, the exchange and what a caller learns.
use kubus_node.Base.{
  ℕ, Bool, true, false, not, Option, none, some, List, if◌then◌else◌, Text, text_key, number_key,
  string_key,
}
use kubus_node.Pairing.{
  PairingState, PairingError, pairing_endpoint_unavailable, invalid_pairing_session,
  pairing_session_replayed, pairing_session_expired, invalid_pairing_secret, remote_attach_replayed,
  device_not_found, check_exchange, commit_exchange,
}
use kubus_node.Pairing.Limiter.{PairingAttemptLimiter, assert_allowed, failed, succeeded}
use kubus_node.Request.{LocalError}

-- The errors that count as failed attempts and are told apart by no caller.
abbrev pub is_guess : PairingError → Bool
is_guess invalid_pairing_session = true
is_guess pairing_session_replayed = true
is_guess pairing_session_expired = true
is_guess invalid_pairing_secret = true
is_guess pairing_endpoint_unavailable = false
is_guess remote_attach_replayed = false
is_guess device_not_found = false

pub data ExchangeAnswer : Type 0 where
  issued : (credential_id : Text) → ExchangeAnswer
  turned_away : LocalError → ExchangeAnswer
  failed_with : PairingError → ExchangeAnswer

pub record ExchangeState : Type 0 where
  pub attempts : PairingAttemptLimiter
  pub pairing : PairingState

-- `exchange`: the checks on a snapshot, then the update.
module _ (from_hex : Text → List ℕ) (digest : Text → Text) where
  unfoldable pub exchange :
      Text
      → Text
      → Text
      → Text
      → Option Text
      → ℕ
      → ℕ
      → PairingState
      → PairingState × Option PairingError
  exchange session_id secret credential_id token label checked_at issued_at state =
      elim (check_exchange from_hex digest session_id secret checked_at state) [
        | some e ↦ (state, some e)
        | none ↦
            commit_exchange from_hex digest session_id credential_id token label issued_at state
      ]

-- The end of `exchangePairing`, by what `exchange` gave.
unfoldable pub conclude :
    Text
    → Text
    → ℕ
    → PairingAttemptLimiter
    → PairingState × Option PairingError
    → ExchangeState × ExchangeAnswer
conclude client credential_id failed_at attempts (pairing, none) =
    (record { attempts = succeeded client attempts; pairing = pairing }, issued credential_id)
conclude client credential_id failed_at attempts (pairing, some e) =
    if is_guess e
    then (
      record { attempts = failed client failed_at attempts; pairing = pairing },
      turned_away (record { status_code = 401; code = "pairing_exchange_failed" }),
    )
    else (record { attempts = attempts; pairing = pairing }, failed_with e)

module _ (from_hex : Text → List ℕ) (digest : Text → Text) where
  -- `asked_at`, `checked_at`, `issued_at` and `failed_at` are the reads of the clock.
  unfoldable pub exchange_pairing :
      (client session_id secret credential_id token : Text) (label : Option Text)
      (asked_at checked_at issued_at failed_at : ℕ)
      → ExchangeState
      → ExchangeState × ExchangeAnswer
  unfolding exchange conclude
  exchange_pairing client session_id secret credential_id token label asked_at checked_at issued_at
        failed_at state =
      let asked = assert_allowed client asked_at state.attempts in
      if not asked.1
      then (
        record state { attempts = asked.0 },
        turned_away (record { status_code = 429; code = "pairing_rate_limited" }),
      )
      else conclude client credential_id failed_at asked.0 (
          exchange from_hex digest session_id secret credential_id token label checked_at issued_at
            state.pairing)
