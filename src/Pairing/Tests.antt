-- ===== src/Pairing/Tests.antt =====
-- src/localApi/pairingService.ts: runs of the limiter and of the service, and the theorems at
-- concrete calls.
use kubus_node.Base.{
  ℕ, ◌+◌, ◌<◌, ◌≡◌, refl, ◌≢◌, inl, true, false, none, some, List, [], ◌∷◌, Text, units, same_text,
  text_key, number_key, string_key, get, put, remove, has,
}
use kubus_node.Pairing.{
  is_local_token, jobs_create, PairingState, local_scopes, create_session, check_exchange,
  commit_exchange, issue_credential, revoke, authorize, pairing_session_replayed,
  invalid_pairing_secret, find_credential, sweep_sessions,
}
use kubus_node.Pairing.Limiter.{PairingAttemptLimiter, new_limiter, assert_allowed, failed}
use kubus_node.Pairing.Attempts.{wrong, issued, Exchange, attempt}
use kubus_node.Pairing.Guesses.{guesses_of}
use kubus_node.Pairing.Credentials.{commit_exchange-commit_exchange, run, revokes, authorizes}
use kubus_node.Pairing.Tokens.{revoke-authorize}

abbrev ann : Text
ann = units "10.0.0.7"

abbrev bob : Text
bob = units "10.0.0.8"

limiter : Unit {0}
unfolding attempt assert_allowed failed get put remove has
limiter = tt

-- Ann guesses at 1, 2, ... while Bob is paired.
abbrev guess_at : Text → ℕ → Exchange
guess_at client at = record { client = client; asked_at = at; failed_at = at; end = wrong }

abbrev started : PairingAttemptLimiter
started = attempt (guess_at ann 1) new_limiter

abbrev guesses : List Exchange
guesses =
    guess_at ann 2
    ∷ record (guess_at bob 3) { end = issued }
    ∷ guess_at ann 4
    ∷ guess_at ann 5
    ∷ guess_at ann 6
    ∷ guess_at ann 7
    ∷ []

-- Five are tested, with the first.
tested : guesses_of ann guesses started ≡ 4
unfolding limiter
tested = refl

abbrev FitsAnn : Exchange → Type 0
FitsAnn call =
    same_text call.client ann ≡ true
    → (call.asked_at < 1 + started.window_ms)
      × (call.failed_at < 1 + started.window_ms)
      × (call.end ≢ issued)

abbrev bytes_of : Text → List ℕ
bytes_of hex = hex

abbrev digest_of : Text → Text
digest_of text = b'h' ∷ text

abbrev session_id : Text
session_id = units "s1"

abbrev device : Text
device = units "d1"

abbrev token : Text
token = units "kubus_local_t"

abbrev offered : PairingState
offered = record {
  sessions =
      (
        session_id,
        record { secret_hash = units "hk"; created_at = 0; expires_at = 9; used_at = none },
      )
      ∷ [];
  credentials = [];
}

abbrev paired : PairingState
paired = record {
  sessions = [];
  credentials =
      (
        device,
        record {
          token_hash = digest_of token;
          label = none;
          scopes = local_scopes;
          created_at = 0;
          revoked_at = none;
          last_used_at = none;
        },
      )
      ∷ [];
}

pairing : Unit {0}
unfolding is_local_token create_session check_exchange commit_exchange issue_credential revoke
    authorize find_credential sweep_sessions get put has
pairing = tt

checks :
    (check_exchange bytes_of digest_of session_id (units "k") 5 offered ≡ none)
    × (check_exchange bytes_of digest_of session_id (units "q") 5 offered
        ≡ some invalid_pairing_secret)
unfolding pairing
checks = (refl, refl)

commit_exchange-commit_exchange_example :
    (commit_exchange bytes_of digest_of session_id (units "d2") token none 7 (
      run bytes_of digest_of
        (commit_exchange bytes_of digest_of session_id device token none 5 offered).0
        (revokes device 6 ∷ []))).1
    ≡ some pairing_session_replayed
unfolding pairing
commit_exchange-commit_exchange_example =
    commit_exchange-commit_exchange bytes_of digest_of session_id device (units "d2") token token
      none none 5 7 offered (revokes device 6 ∷ []) ((λ e. refl), tt) refl (tt, tt)

revoke-authorize_example :
    (authorize bytes_of digest_of (some token) jobs_create 8 (
      run bytes_of digest_of
        (revoke bytes_of digest_of device 6 paired).0
        (authorizes (some token) jobs_create 7 ∷ []))).1
    ≡ false
unfolding pairing
revoke-authorize_example =
    revoke-authorize bytes_of digest_of device token jobs_create 6 8 paired
      (authorizes (some token) jobs_create 7 ∷ []) ((λ e. refl), tt) (inl refl, tt) refl (tt, tt)
