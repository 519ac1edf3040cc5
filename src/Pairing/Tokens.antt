-- ===== src/Pairing/Tokens.antt =====
-- src/localApi/pairingService.ts, `PairingService`: which tokens `authorize` accepts.
use kubus_node.Base.{
  ℕ, ◌≡◌, refl, ap, subst, ◌⊎◌, inl, inr, true, false, Option, none, some, List, [], ◌∷◌, arith,
  Bool-cases, Option-cases, is_some, any, All, Text, units, same_text, same_text_iff, text_key,
  number_key, string_key, Dict, get, put, Values, Values-put,
}
use mathlib.Core.Option.{some-injective}
use kubus_node.Base.{has}
use kubus_node.Pairing.{
  is_local_token, LocalScope, content_read, captures_create, captures_read, jobs_create, jobs_read,
  spatial_read, spatial_publish_request, compute_manage, same_scope, local_scopes, Credential,
  PairingState, safe_equal, create_session, issue_credential, commit_exchange,
  issue_remote_credential, revoke, accepts_token, find_credential, authorize, new_credential,
}
use kubus_node.Pairing.Credentials.{
  Once, All-put_once, Call, opens, exchanges, attaches, revokes, authorizes, step, run,
}

in-local_scopes : (scope : LocalScope) → any (same_scope scope) local_scopes ≡ true
in-local_scopes content_read = refl
in-local_scopes captures_create = refl
in-local_scopes captures_read = refl
in-local_scopes jobs_create = refl
in-local_scopes jobs_read = refl
in-local_scopes spatial_read = refl
in-local_scopes spatial_publish_request = refl
in-local_scopes compute_manage = refl

module _ (from_hex : Text → List ℕ) (digest : Text → Text) where
  -- No credential accepts the token.
  abbrev pub Rejected : Text → PairingState → Type 0
  Rejected token state =
      Values (λ c. accepts_token from_hex digest token c ≡ false) state.credentials

  find_credential-Rejected :
      (token : Text) (credentials : Dict Text Credential)
      → Values (λ c. accepts_token from_hex digest token c ≡ false) credentials
      → find_credential from_hex digest token credentials ≡ none
  unfolding find_credential
  find_credential-Rejected token [] h = refl
  find_credential-Rejected token ((id, c) ∷ credentials) (r, rs) =
      rw r (find_credential-Rejected token credentials rs)

  find_credential-put :
      (token id : Text) (c : Credential) (credentials : Dict Text Credential)
      → Values (λ c. accepts_token from_hex digest token c ≡ false) credentials
      → accepts_token from_hex digest token c ≡ true
      → (at : Text) × (find_credential from_hex digest token (put credentials id c) ≡ some (at, c))
  unfolding find_credential put
  find_credential-put token id c [] h accepted = (id, rw accepted refl)
  find_credential-put token id c ((at, old) ∷ credentials) (r, rs) accepted =
      elim (Bool-cases (same_text at id)) [
        | inl hit ↦ (at, rw (hit, accepted) refl)
        | inr miss ↦
            let (place, found) = find_credential-put token id c credentials rs accepted in
            (place, rw (miss, r) found)
      ]

  -- What the search finds has every property that all the credentials have.
  find_credential-Values {μ} :
      (P : Credential → Type μ) (token : Text) (credentials : Dict Text Credential) (id : Text)
      (c : Credential)
      → Values P credentials
      → find_credential from_hex digest token credentials ≡ some (id, c)
      → P c
  unfolding find_credential
  find_credential-Values P token [] id c h found = absurd (ground arith)
  find_credential-Values P token ((at, v) ∷ credentials) id c h found =
      elim (Bool-cases (accepts_token from_hex digest token v)) [
        | inl hit ↦
            subst P
              (ap {A = Text × Credential} (λ e. e.1)
                (some-injective (at, v) (id, c) (ground arith)))
              h.0
        | inr miss ↦ find_credential-Values P token credentials id c h.1 (ground arith)
      ]

  -- The token that an exchange hands out, of the local form and accepted by no credential before,
  -- is good at once for every local scope.
  pub authorize-commit_exchange :
      (session_id credential_id token : Text) (label : Option Text) (scope : LocalScope)
      (now later : ℕ) (state : PairingState)
      → is_local_token from_hex digest token ≡ true
      → Rejected token state
      → (commit_exchange from_hex digest session_id credential_id token label now state).1 ≡ none
      → (authorize from_hex digest
          (some token)
          scope
          later
          (commit_exchange from_hex digest session_id credential_id token label now state).0).1
        ≡ true
  unfolding commit_exchange issue_credential authorize
  authorize-commit_exchange session_id credential_id token label scope now later state prefix fresh
        went =
      elim (Option-cases (get state.sessions session_id)) [
        | inl missing ↦ absurd (ground arith)
        | inr (session, known) ↦ elim (Bool-cases (is_some session.used_at)) [
          | inl used ↦ absurd (ground arith)
          | inr unused ↦ ground (arith, known, unused, prefix, found, in-local_scopes scope)
        ]
      ]
    where
      c : Credential
      c = new_credential from_hex digest token label now

      accepted : accepts_token from_hex digest token c ≡ true
      accepted = (same_text_iff (from_hex (digest token)) (from_hex (digest token))).1 refl

      found :
          find_credential from_hex digest token (put state.credentials credential_id c)
          ≡ some ((find_credential-put token credential_id c state.credentials fresh accepted).0, c)
      found = (find_credential-put token credential_id c state.credentials fresh accepted).1

  -- A call hands out no credential for the token.
  abbrev pub IssuesOther : Text → Call → Type 0
  IssuesOther token (opens id secret now ttl_ms endpoints) = Unit
  IssuesOther token (exchanges id credential_id other label now) =
      safe_equal from_hex digest (digest other) (digest token) ≡ false
  IssuesOther token (attaches id other now) =
      safe_equal from_hex digest (digest other) (digest token) ≡ false
  IssuesOther token (revokes id now) = Unit
  IssuesOther token (authorizes other scope now) = Unit

  Rejected-step :
      (token : Text) (state : PairingState) (call : Call)
      → IssuesOther token call
      → Rejected token state
      → Rejected token (step from_hex digest state call)
  unfolding create_session commit_exchange issue_credential issue_remote_credential revoke authorize
  Rejected-step token state (opens id secret now ttl_ms endpoints) _ h = h
  Rejected-step token state (exchanges id credential_id other label now) apart h =
      elim (Option-cases (get state.sessions id)) [
        | inl missing ↦ rw (missing, step) h
        | inr (session, found) ↦ elim (Bool-cases (is_some session.used_at)) [
          | inl used ↦ rw (found, step, used) h
          | inr fresh ↦
              rw (found, step, fresh)
                (Values-put (λ c. accepts_token from_hex digest token c ≡ false) state.credentials
                  credential_id {value = new_credential from_hex digest other label now} apart h)
        ]
      ]
  Rejected-step token state (attaches id other now) apart h =
      elim (Bool-cases (has state.credentials id)) [
        | inl known ↦ rw (known, step) h
        | inr new ↦
            rw (new, step)
              (Values-put (λ c. accepts_token from_hex digest token c ≡ false) state.credentials id
                {value = new_credential from_hex digest other
                  (some (units "art.kubus remote device")) now}
                apart h)
      ]
  Rejected-step token state (revokes id now) _ h = elim (Option-cases (get state.credentials id)) [
    | inl missing ↦ rw (missing, step) h
    | inr (c, found) ↦ elim (Bool-cases (is_some c.revoked_at)) [
      | inl was ↦ rw (found, step, was) h
      | inr live ↦
          rw (found, step, live)
            (Values-put (λ c. accepts_token from_hex digest token c ≡ false) state.credentials id
              {value = record c { revoked_at = some now }} refl h)
    ]
  ]
  Rejected-step token state (authorizes none scope now) _ h = h
  Rejected-step token state (authorizes (some other) scope now) _ h =
      elim (Bool-cases (is_local_token from_hex digest other)) [
        | inr foreign ↦ rw (step, foreign) h
        | inl local ↦
            elim (Option-cases (find_credential from_hex digest other state.credentials)) [
              | inl missing ↦ rw (step, local, missing) h
              | inr ((id, c), found) ↦ elim (Bool-cases (any (same_scope scope) c.scopes)) [
                | inr outside ↦ rw (step, local, found, outside) h
                | inl granted ↦
                    rw (step, local, found, granted)
                      (Values-put (λ c. accepts_token from_hex digest token c ≡ false)
                        state.credentials id {value = record c { last_used_at = some now }}
                        (find_credential-Values (λ c. accepts_token from_hex digest token c ≡ false)
                          other state.credentials id c h found)
                        h)
              ]
            ]
      ]

  Rejected-run :
      (token : Text) (state : PairingState) (calls : List Call)
      → All (IssuesOther token) calls
      → Rejected token state
      → Rejected token (run from_hex digest state calls)
  Rejected-run token state [] _ h = h
  Rejected-run token state (call ∷ calls) (o, os) h =
      Rejected-run token (step from_hex digest state call) calls os
        (Rejected-step token state call o h)

  authorize-Rejected :
      (token : Text) (scope : LocalScope) (now : ℕ) (state : PairingState)
      → Rejected token state
      → (authorize from_hex digest (some token) scope now state).1 ≡ false
  unfolding authorize
  authorize-Rejected token scope now state h =
      ground (arith, find_credential-Rejected token state.credentials h)

  -- Revocation is final: once the only credential that accepts a token, held once under its id, is
  -- revoked, the token is refused for every scope after any later calls that issue no credential
  -- with its digest.
  pub revoke-authorize :
      (id token : Text) (scope : LocalScope) (now later : ℕ) (state : PairingState)
      (calls : List Call)
      → Once id state.credentials
      → All (λ e. (e.0 ≡ id) ⊎ (accepts_token from_hex digest token e.1 ≡ false)) state.credentials
      → (revoke from_hex digest id now state).1 ≡ none
      → All (IssuesOther token) calls
      → (authorize from_hex digest
          (some token)
          scope
          later
          (run from_hex digest (revoke from_hex digest id now state).0 calls)).1
        ≡ false
  unfolding revoke
  revoke-authorize id token scope now later state calls once only went others =
      authorize-Rejected token scope later _ (Rejected-run token _ calls others revoked)
    where
      revoked : Rejected token (revoke from_hex digest id now state).0
      revoked = elim (Option-cases (get state.credentials id)) [
        | inl missing ↦ absurd (ground arith)
        | inr (c, found) ↦ elim (Bool-cases (is_some c.revoked_at)) [
          | inl was ↦ absurd (ground arith)
          | inr live ↦
              rw (found, live, revoke)
                (All-put_once (λ e. accepts_token from_hex digest token e.1 ≡ false) id
                  (record c { revoked_at = some now }) state.credentials once only refl)
        ]
      ]
