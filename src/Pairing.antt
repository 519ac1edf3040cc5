-- ===== src/Pairing.antt =====
-- src/localApi/pairingService.ts: the limit on pairing attempts, and the pairing sessions with the
-- credentials they turn into. An ISO time is its number of milliseconds.
pub mod Limiter
pub mod Limits
pub mod Attempts
pub mod Guesses
pub mod Credentials
pub mod Tokens
pub mod Tests
use kubus_node.Base.{
  ℕ, zero, suc, ◌+◌, ◌-◌, ◌*◌, ◌/◌, ◌%◌, ◌^◌, ◌≤◌, ◌<◌, min, max, bit_and, bit_or, bit_xor, String,
  str_eq, starts_with, eq_iff, eq_refl, ◌≡◌, refl, sym, ap, ap₂, ◌∙◌, subst, ◌≡⟨◌⟩◌, ◌∎, ◌≢◌, ◌↔◌,
  ◌⊎◌, inl, inr, Bool, true, false, not, ◌&&◌, ◌||◌, Option, none, some, List, [], ◌∷◌, ◌++◌, map,
  map-append, append-nil, append_assoc, arith, ltb, leb, ◌==◌, if◌then◌else◌, ltb→lt, lt→ltb,
  le→ltb, leb→le, ==_iff, Bool-cases, Option-cases, is_some, length, get_or, take, drop, concat,
  every, any, All, length-append, length-take, length-drop, take-append-drop, take-append,
  drop-append, All-append, drop-drop, concat-append, Text, units, same_text, same_text_iff,
  begins_with, is_space, holds_unit, cut_unique, text_key, number_key, string_key, Dict, Key, get,
  put, remove, has, get-put, get-put_self, get-put_ne, get-remove, get-remove_self, get-remove_ne,
  length-put, length-remove, Values, Values-put, Values-remove, Values-get,
}

pub data LocalScope : Type 0 where
  content_read captures_create captures_read jobs_create : LocalScope
  jobs_read spatial_read spatial_publish_request compute_manage : LocalScope

abbrev scope_number : LocalScope → ℕ
scope_number content_read = 0
scope_number captures_create = 1
scope_number captures_read = 2
scope_number jobs_create = 3
scope_number jobs_read = 4
scope_number spatial_read = 5
scope_number spatial_publish_request = 6
scope_number compute_manage = 7

abbrev pub same_scope : LocalScope → LocalScope → Bool
same_scope a b = scope_number a == scope_number b

-- `LOCAL_SCOPES`.
abbrev pub local_scopes : List LocalScope
local_scopes =
    content_read ∷ captures_create ∷ captures_read ∷ jobs_create ∷ jobs_read ∷ spatial_read
    ∷ spatial_publish_request ∷ compute_manage ∷ []

pub record PairingSession : Type 0 where
  pub secret_hash : Text
  pub created_at : ℕ
  pub expires_at : ℕ
  pub used_at : Option ℕ

pub record Credential : Type 0 where
  pub token_hash : Text
  pub label : Option Text
  pub scopes : List LocalScope
  pub created_at : ℕ
  pub revoked_at : Option ℕ
  pub last_used_at : Option ℕ

-- `pairingSessions` and `localCredentials` of the local state.
pub record PairingState : Type 0 where
  pub sessions : Dict Text PairingSession
  pub credentials : Dict Text Credential

pub data PairingError : Type 0 where
  pairing_endpoint_unavailable invalid_pairing_session : PairingError
  pairing_session_replayed pairing_session_expired invalid_pairing_secret : PairingError
  remote_attach_replayed device_not_found : PairingError

-- `Date.parse(session.expiresAt) <= now || session.usedAt`.
abbrev pub is_spent : ℕ → PairingSession → Bool
is_spent now session = leb session.expires_at now || is_some session.used_at

unfoldable pub sweep_sessions : ℕ → Dict Text PairingSession → Dict Text PairingSession
sweep_sessions now [] = []
sweep_sessions now ((id, session) ∷ sessions) =
    let rest = sweep_sessions now sessions in
    if is_spent now session then rest else (id, session) ∷ rest

-- `endpoints`: the LAN URL where it is allowed, then the remote URL, without the empty ones.
abbrev pub usable_url : Option Text → List Text
usable_url none = []
usable_url (some []) = []
usable_url (some (c ∷ url)) = (c ∷ url) ∷ []

unfoldable pub pairing_endpoints : Bool → Option Text → Option Text → List Text
pairing_endpoints allow_lan lan_url remote_url =
    (if allow_lan then usable_url lan_url else []) ++ usable_url remote_url

-- `from_hex` is `Buffer.from(…, 'hex')` and `digest` the SHA-256 in hexadecimal digits.
module _ (from_hex : Text → List ℕ) (digest : Text → Text) where
  abbrev pub safe_equal : Text → Text → Bool
  safe_equal left right = same_text (from_hex left) (from_hex right)

  -- `createSession`. The session is stored before the endpoints are looked at.
  unfoldable pub create_session :
      Text → Text → ℕ → ℕ → List Text → PairingState → PairingState × Option PairingError
  create_session id secret now ttl_ms endpoints state = (
    record state {
      sessions = put (sweep_sessions now state.sessions) id (record {
        secret_hash = digest secret;
        created_at = now;
        expires_at = now + ttl_ms;
        used_at = none;
      });
    },
    elim endpoints [ [] ↦ some pairing_endpoint_unavailable | endpoint ∷ alternates ↦ none ],
  )

  -- The checks of `exchange` on a snapshot of the state.
  unfoldable pub check_exchange : Text → Text → ℕ → PairingState → Option PairingError
  check_exchange session_id secret now state = elim (get state.sessions session_id) [
    | none ↦ some invalid_pairing_session
    | some session ↦
        if is_some session.used_at
        then some pairing_session_replayed
        else if leb session.expires_at now
        then some pairing_session_expired
        else if length secret == 0 || not (safe_equal session.secret_hash (digest secret))
        then some invalid_pairing_secret
        else none
  ]

  abbrev new_credential : Text → Option Text → ℕ → Credential
  new_credential token label now = record {
    token_hash = digest token;
    label = elim label [ none ↦ none | some text ↦ some (take 80 text) ];
    scopes = local_scopes;
    created_at = now;
    revoked_at = none;
    last_used_at = none;
  }

  -- `issueCredential` after `authorize` let it pass; `token` is the fresh token.
  unfoldable pub issue_credential : Text → Text → Option Text → ℕ → PairingState → PairingState
  issue_credential credential_id token label now state = record state {
    credentials = put state.credentials credential_id (new_credential token label now);
  }

  -- The update of `exchange`: the session is looked up again in the state as it is by then.
  unfoldable pub commit_exchange :
      Text → Text → Text → Option Text → ℕ → PairingState → PairingState × Option PairingError
  commit_exchange session_id credential_id token label now state =
      elim (get state.sessions session_id) [
        | none ↦ (state, some pairing_session_replayed)
        | some current ↦
            if is_some current.used_at then (state, some pairing_session_replayed) else (
              issue_credential credential_id token label now (record state {
                sessions = put state.sessions session_id (record current { used_at = some now });
              }),
              none,
            )
      ]

  unfoldable pub issue_remote_credential :
      Text → Text → ℕ → PairingState → PairingState × Option PairingError
  issue_remote_credential authorization_id token now state =
      if has state.credentials authorization_id then (state, some remote_attach_replayed) else (
        issue_credential authorization_id token (some (units "art.kubus remote device")) now state,
        none,
      )

  -- `revoke`: the check on the snapshot and the update of the state.
  unfoldable pub revoke : Text → ℕ → PairingState → PairingState × Option PairingError
  revoke credential_id now state = elim (get state.credentials credential_id) [
    | none ↦ (state, some device_not_found)
    | some credential ↦ if is_some credential.revoked_at then (state, some device_not_found) else (
      record state {
        credentials =
            put state.credentials credential_id (record credential { revoked_at = some now });
      },
      none,
    )
  ]

  abbrev pub accepts_token : Text → Credential → Bool
  accepts_token token credential =
      not (is_some credential.revoked_at) && safe_equal credential.token_hash (digest token)

  -- `Object.entries(…).find(…)`.
  unfoldable pub find_credential : Text → Dict Text Credential → Option (Text × Credential)
  find_credential token [] = none
  find_credential token ((id, credential) ∷ credentials) =
      let rest = find_credential token credentials in
      if accepts_token token credential then some (id, credential) else rest

  -- `token?.startsWith('kubus_local_')`.
  unfoldable pub is_local_token : Text → Bool
  is_local_token token = begins_with token (units "kubus_local_")

  unfoldable pub authorize : Option Text → LocalScope → ℕ → PairingState → PairingState × Bool
  authorize none scope now state = (state, false)
  authorize (some token) scope now state =
      if not (is_local_token token)
      then (state, false)
      else elim (find_credential token state.credentials) [
        | none ↦ (state, false)
        | some (id, credential) ↦
            if not (any (same_scope scope) credential.scopes) then (state, false) else (
              record state {
                credentials =
                    put state.credentials id (record credential { last_used_at = some now });
              },
              true,
            )
      ]
