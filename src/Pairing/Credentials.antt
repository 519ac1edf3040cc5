-- ===== src/Pairing/Credentials.antt =====
-- src/localApi/pairingService.ts, `PairingService`: what the sessions and credentials guarantee
-- under any traffic.
use kubus_node.Base.{
  ℕ, ◌≡◌, refl, sym, ◌∙◌, subst, ◌≢◌, ◌⊎◌, inl, inr, true, false, Option, none, some, List, [], ◌∷◌,
  arith, Bool-cases, Option-cases, is_some, All, Text, same_text, same_text_iff, text_key,
  number_key, string_key, Dict, get, put,
}
use mathlib.Core.Option.{some-injective}
use kubus_node.Pairing.{
  LocalScope, PairingSession, PairingState, pairing_session_replayed, is_spent, sweep_sessions,
  create_session, issue_credential, commit_exchange, issue_remote_credential, revoke, authorize,
}

-- The key stands in the entries once at most, as in a JavaScript object.
abbrev pub Once {κ} : {V : Type κ} → Text → Dict Text V → Type κ
Once key [] = Unit
Once key ((at, value) ∷ entries) = (at ≡ key → get entries key ≡ none) × Once key entries

module _ {κ} {V : Type κ} where
  All-absent {μ} :
      (P : Text × V → Type μ) (key : Text) (entries : Dict Text V)
      → get entries key ≡ none
      → All (λ e. (e.0 ≡ key) ⊎ P e) entries
      → All P entries
  unfolding get
  All-absent P key [] missing h = tt
  All-absent P key ((at, value) ∷ entries) missing (inl e, h) =
      absurd (ground (arith, (same_text_iff at key).1 e))
  All-absent P key ((at, value) ∷ entries) missing (inr p, h) =
      (p, All-absent P key entries (ground arith) h)

  pub All-put_once {μ} :
      (P : Text × V → Type μ) (key : Text) (value : V) (entries : Dict Text V)
      → Once key entries
      → All (λ e. (e.0 ≡ key) ⊎ P e) entries
      → P (key, value)
      → All P (put entries key value)
  unfolding put
  All-put_once P key value [] once h p = (p, tt)
  All-put_once P key value ((at, old) ∷ entries) once h p = elim (Bool-cases (same_text at key)) [
    | inl hit ↦
        let e = (same_text_iff at key).0 hit in
        rw hit (subst (λ k. P (k, value)) (sym e) p, All-absent P key entries (once.0 e) h.1)
    | inr miss ↦
        rw miss
          (other (same_text_iff at key).1 miss h.0, All-put_once P key value entries once.1 h.1 p)
  ]
    where
      other :
          ((at ≡ key) → same_text at key ≡ true)
          → same_text at key ≡ false
          → ((at ≡ key) ⊎ P (at, old))
          → P (at, old)
      other hits miss (inl e) = absurd (ground (arith, hits e))
      other hits miss (inr q) = q

-- Every session of the id is used.
abbrev pub Spent : Text → PairingState → Type 0
Spent id state = All (λ e. e.0 ≡ id → is_some e.1.used_at ≡ true) state.sessions

Spent-get :
    (id : Text) (sessions : Dict Text PairingSession) (session : PairingSession)
    → All (λ e. e.0 ≡ id → is_some e.1.used_at ≡ true) sessions
    → get sessions id ≡ some session
    → is_some session.used_at ≡ true
unfolding get
Spent-get id [] session h found = absurd (ground arith)
Spent-get id ((at, s) ∷ sessions) session h found = elim (Bool-cases (same_text at id)) [
  | inl hit ↦
      let same : s ≡ session = some-injective _ _ (ground arith) in
      subst {A = PairingSession} (λ v. is_some v.used_at ≡ true) same
        (h.0 ((same_text_iff at id).0 hit))
  | inr miss ↦ Spent-get id sessions session h.1 (ground arith)
]

Spent-sweep :
    (id : Text) (now : ℕ) (sessions : Dict Text PairingSession)
    → All (λ e. e.0 ≡ id → is_some e.1.used_at ≡ true) sessions
    → All (λ e. e.0 ≡ id → is_some e.1.used_at ≡ true) (sweep_sessions now sessions)
unfolding sweep_sessions
Spent-sweep id now [] h = tt
Spent-sweep id now ((at, s) ∷ sessions) h = elim (Bool-cases (is_spent now s)) [
  | inl spent ↦ rw spent (Spent-sweep id now sessions h.1)
  | inr live ↦ rw live (h.0, Spent-sweep id now sessions h.1)
]

Spent-put :
    (id key : Text) (value : PairingSession) (sessions : Dict Text PairingSession)
    → (key ≡ id → is_some value.used_at ≡ true)
    → All (λ e. e.0 ≡ id → is_some e.1.used_at ≡ true) sessions
    → All (λ e. e.0 ≡ id → is_some e.1.used_at ≡ true) (put sessions key value)
unfolding put
Spent-put id key value [] p h = (p, tt)
Spent-put id key value ((at, old) ∷ sessions) p h = elim (Bool-cases (same_text at key)) [
  | inl hit ↦ rw hit ((λ e. p (sym ((same_text_iff at key).0 hit) ∙ e)), h.1)
  | inr miss ↦ rw miss (h.0, Spent-put id key value sessions p h.1)
]

-- One call that reaches the local state.
pub data Call : Type 0 where
  opens : (id secret : Text) (now ttl_ms : ℕ) (endpoints : List Text) → Call
  exchanges : (id credential_id token : Text) (label : Option Text) (now : ℕ) → Call
  attaches : (authorization_id token : Text) (now : ℕ) → Call
  revokes : (credential_id : Text) (now : ℕ) → Call
  authorizes : (token : Option Text) (scope : LocalScope) (now : ℕ) → Call

module _ (from_hex : Text → List ℕ) (digest : Text → Text) where
  abbrev pub step : PairingState → Call → PairingState
  step state (opens id secret now ttl_ms endpoints) =
      (create_session from_hex digest id secret now ttl_ms endpoints state).0
  step state (exchanges id credential_id token label now) =
      (commit_exchange from_hex digest id credential_id token label now state).0
  step state (attaches id token now) =
      (issue_remote_credential from_hex digest id token now state).0
  step state (revokes id now) = (revoke from_hex digest id now state).0
  step state (authorizes token scope now) = (authorize from_hex digest token scope now state).0

  abbrev pub run : PairingState → List Call → PairingState
  run state [] = state
  run state (call ∷ calls) = run (step state call) calls

  -- A new session has another id: it is a fresh random one.
  abbrev pub OpensOther : Text → Call → Type 0
  OpensOther id (opens other secret now ttl_ms endpoints) = other ≢ id
  OpensOther id (exchanges other credential_id token label now) = Unit
  OpensOther id (attaches other token now) = Unit
  OpensOther id (revokes other now) = Unit
  OpensOther id (authorizes token scope now) = Unit

  Spent-step :
      (id : Text) (state : PairingState) (call : Call)
      → OpensOther id call
      → Spent id state
      → Spent id (step state call)
  unfolding create_session commit_exchange issue_credential issue_remote_credential revoke authorize
  Spent-step id state (opens other secret now ttl_ms endpoints) apart h =
      Spent-put id other _ _ (λ e. absurd (apart e)) (Spent-sweep id now state.sessions h)
  Spent-step id state (exchanges other credential_id token label now) _ h =
      elim (Option-cases (get state.sessions other)) [
        | inl missing ↦ rw (missing, step) h
        | inr (session, found) ↦ elim (Bool-cases (is_some session.used_at)) [
          | inl used ↦ rw (found, step, used) h
          | inr fresh ↦
              rw (found, step, fresh)
                (Spent-put id other (record session { used_at = some now }) state.sessions
                  (λ e. refl) h)
        ]
      ]
  Spent-step id state (attaches other token now) _ h = ground arith
  Spent-step id state (revokes other now) _ h = ground arith
  Spent-step id state (authorizes none scope now) _ h = h
  Spent-step id state (authorizes (some token) scope now) _ h = ground arith

  Spent-run :
      (id : Text) (state : PairingState) (calls : List Call)
      → All (OpensOther id) calls
      → Spent id state
      → Spent id (run state calls)
  Spent-run id state [] _ h = h
  Spent-run id state (call ∷ calls) (o, os) h =
      Spent-run id (step state call) calls os (Spent-step id state call o h)

  -- A pairing session turns into one credential: in a state that holds its id once, after an
  -- exchange of it went through, every later one is answered as a replay, whatever calls came
  -- between, if none of them opened a session of the same id, and even if it had passed its check
  -- on an older snapshot.
  pub commit_exchange-commit_exchange :
      (id first again token token' : Text) (label label' : Option Text) (now later : ℕ)
      (state : PairingState) (calls : List Call)
      → Once id state.sessions
      → (commit_exchange from_hex digest id first token label now state).1 ≡ none
      → All (OpensOther id) calls
      → (commit_exchange from_hex digest id again token' label' later
          (run (commit_exchange from_hex digest id first token label now state).0 calls)).1
        ≡ some pairing_session_replayed
  unfolding commit_exchange issue_credential
  commit_exchange-commit_exchange id first again token token' label label' now later state calls
        once went others =
      elim (Option-cases (get after.sessions id)) [
        | inl missing ↦ rw (missing, commit_exchange) refl
        | inr (session, found) ↦
            rw (found, commit_exchange, Spent-get id after.sessions session spent found) refl
      ]
    where
      used : Spent id (commit_exchange from_hex digest id first token label now state).0
      used = elim (Option-cases (get state.sessions id)) [
        | inl missing ↦ absurd (ground arith)
        | inr (session, found) ↦ elim (Bool-cases (is_some session.used_at)) [
          | inl was ↦ absurd (ground arith)
          | inr fresh ↦
              rw (found, fresh, commit_exchange)
                (All-put_once (λ e. e.0 ≡ id → is_some e.1.used_at ≡ true) id
                  (record session { used_at = some now }) state.sessions once (each state.sessions)
                  (λ e. refl))
        ]
      ]
        where
          each :
              (sessions : Dict Text PairingSession)
              → All (λ e. (e.0 ≡ id) ⊎ (e.0 ≡ id → is_some e.1.used_at ≡ true)) sessions
          each [] = tt
          each ((at, s) ∷ sessions) = (
            elim (Bool-cases (same_text at id)) [
              | inl hit ↦ inl ((same_text_iff at id).0 hit)
              | inr miss ↦ inr (λ e. absurd (ground (arith, (same_text_iff at id).1 e)))
            ],
            each sessions,
          )

      after : PairingState
      after = run (commit_exchange from_hex digest id first token label now state).0 calls

      spent : Spent id after
      spent = Spent-run id _ calls others used
