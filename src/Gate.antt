-- ===== src/Gate.antt =====
-- src/participation/networkParticipationGate.ts: may this node do useful work for others. A time is
-- its number of milliseconds; a policy number is `none` where it is missing.
pub mod Lease
pub mod Tests
use kubus_node.Base.{
  ℕ, zero, suc, ◌+◌, ◌-◌, ◌*◌, ◌/◌, ◌%◌, ◌^◌, ◌≤◌, ◌<◌, min, max, bit_and, bit_or, bit_xor, String,
  str_eq, starts_with, eq_iff, eq_refl, ◌≡◌, refl, sym, ap, ap₂, ◌∙◌, subst, ◌≡⟨◌⟩◌, ◌∎, ◌≢◌, ◌↔◌,
  ◌⊎◌, inl, inr, Bool, true, false, not, ◌&&◌, ◌||◌, Option, none, some, List, [], ◌∷◌, ◌++◌, map,
  map-append, append-nil, append_assoc, arith, ltb, leb, ◌==◌, if◌then◌else◌, ltb→lt, lt→ltb,
  le→ltb, leb→le, ==_iff, Bool-cases, Option-cases, is_some, length, get_or, take, drop, concat,
  every, any, All, length-append, length-take, length-drop, take-append-drop, take-append,
  drop-append, All-append, drop-drop, concat-append, Text, units, same_text, same_text_iff,
  begins_with, is_space, holds_unit, cut_unique, text_key, number_key, string_key, Dict, Key, get,
  put, remove, has, get-put, get-put_self, get-put_ne, get-remove, get-remove_self, get-remove_ne,
  length-put, length-remove, Values, Values-put, Values-remove, Values-get,
}

pub data ParticipationState : Type 0 where
  unconfigured joining contributing degraded locked : ParticipationState

-- The requirements, in the order of the source.
pub record Requirements : Type 0 where
  pub operator_identity : Bool
  pub registered : Bool
  pub backend_policy : Bool
  pub kubo_healthy : Bool
  pub public_pinning_enabled : Bool
  pub contribution_capacity : Bool
  pub canonical_pin_set_synchronized : Bool
  pub pin_reconciliation_healthy : Bool
  pub actual_contribution_state_verified : Bool
  pub scheduler_active : Bool
  pub heartbeat_accepted : Bool
  pub production_pinning_safe : Bool

abbrev pub named : Requirements → Dict String Bool
named r =
    ("operatorIdentity", r.operator_identity)
    ∷ ("registered", r.registered)
    ∷ ("backendPolicy", r.backend_policy)
    ∷ ("kuboHealthy", r.kubo_healthy)
    ∷ ("publicPinningEnabled", r.public_pinning_enabled)
    ∷ ("contributionCapacity", r.contribution_capacity)
    ∷ ("canonicalPinSetSynchronized", r.canonical_pin_set_synchronized)
    ∷ ("pinReconciliationHealthy", r.pin_reconciliation_healthy)
    ∷ ("actualContributionStateVerified", r.actual_contribution_state_verified)
    ∷ ("schedulerActive", r.scheduler_active)
    ∷ ("heartbeatAccepted", r.heartbeat_accepted)
    ∷ ("productionPinningSafe", r.production_pinning_safe)
    ∷ []

unfoldable pub missing_of : Dict String Bool → List String
missing_of [] = []
missing_of ((name, ok) ∷ requirements) =
    let rest = missing_of requirements in if ok then rest else name ∷ rest

pub record Policy : Type 0 where
  pub version : Option String
  pub minimum_contribution_capacity_bytes : Option ℕ
  pub cid_sync_interval_ms : Option ℕ
  pub participation_lease_seconds : Option ℕ
  pub participation_grace_seconds : Option ℕ

-- `state.participation`.
pub record Evidence : Type 0 where
  pub lease_expires_at : Option ℕ
  pub grace_expires_at : Option ℕ
  pub last_verified_at : Option ℕ
  pub verification_generation : Option ℕ

-- The parts of the local state that the gate reads.
pub record LocalState : Type 0 where
  pub node_id : Option String
  pub node_status : Option String
  pub policy : Option Policy
  pub latest_public_pin_set_sync_at : Option ℕ
  pub latest_pin_reconcile_at : Option ℕ
  pub latest_heartbeat_at : Option ℕ
  pub public_pin_set_complete : Bool
  pub failed_cids : Dict String String
  pub desired_cids : List String
  pub pinned_cids : List String
  pub participation : Option Evidence

pub record AppConfig : Type 0 where
  pub operator_wallet : Option String
  pub operator_token : Option String
  pub skip_pinning : Bool
  pub max_pinned_bytes : ℕ
  pub is_production : Bool
  pub participation_grace_ms : ℕ

pub record ParticipationSnapshot : Type 0 where
  pub state : ParticipationState
  pub reason : List String
  pub lease_eligible : Bool
  pub requirements : Requirements

-- `Boolean(text)`.
abbrev pub is_given : Option String → Bool
is_given none = false
is_given (some text) = not (str_eq text "")

-- `Number(value || byDefault)`.
abbrev pub number_or : Option ℕ → ℕ → ℕ
number_or none by_default = by_default
number_or (some zero) by_default = by_default
number_or (some (suc n)) by_default = suc n

abbrev pub policy_number : (Policy → Option ℕ) → Option Policy → Option ℕ
policy_number field none = none
policy_number field (some policy) = field policy

abbrev pub freshness_ms : Option Policy → ℕ
freshness_ms policy =
    max (number_or (policy_number (λ p. p.cid_sync_interval_ms) policy) 300000 * 3) (5 * 60 * 1000)

-- `fresh(value)`.
abbrev pub is_fresh : ℕ → ℕ → Option ℕ → Bool
is_fresh freshness now none = false
is_fresh freshness now (some value) = leb now (value + freshness)

abbrev pub is_empty {ℓ} : {A : Type ℓ} → List A → Bool
is_empty [] = true
is_empty (x ∷ xs) = false

abbrev pub all_pinned : LocalState → Bool
all_pinned state =
    state.public_pin_set_complete
    && every (λ cid. any (str_eq cid) state.pinned_cids) state.desired_cids

abbrev has_version : Option Policy → Bool
has_version none = false
has_version (some policy) = is_given policy.version

abbrev is_registered : Option String → Bool
is_registered none = false
is_registered (some status) = str_eq status "active" || str_eq status "registered"

-- The requirements that `refresh` works out; `kubo_healthy` is whether `kubo.id()` answered.
abbrev pub requirements_of : AppConfig → Bool → Bool → ℕ → LocalState → Requirements
requirements_of config scheduler_active kubo_healthy now state =
    let fresh = is_fresh (freshness_ms state.policy) now in
    record {
      operator_identity = is_given config.operator_wallet && is_given config.operator_token;
      registered = is_given state.node_id && is_registered state.node_status;
      backend_policy = has_version state.policy;
      kubo_healthy = kubo_healthy;
      public_pinning_enabled = not config.skip_pinning;
      contribution_capacity =
          leb
            (max
              (number_or (policy_number (λ p. p.minimum_contribution_capacity_bytes) state.policy)
                0)
              1)
            config.max_pinned_bytes;
      canonical_pin_set_synchronized = fresh state.latest_public_pin_set_sync_at;
      pin_reconciliation_healthy =
          fresh state.latest_pin_reconcile_at && (is_empty state.failed_cids && all_pinned state);
      actual_contribution_state_verified = all_pinned state;
      scheduler_active = scheduler_active;
      heartbeat_accepted = fresh state.latest_heartbeat_at;
      production_pinning_safe = not (config.is_production && config.skip_pinning);
    }

abbrev pub generation : Option Evidence → ℕ
generation none = 0
generation (some evidence) = number_or evidence.verification_generation 0

abbrev pub previously_verified : Option Evidence → Bool
previously_verified none = false
previously_verified (some evidence) =
    is_some evidence.last_verified_at && ltb 0 (generation (some evidence))

-- `expiresMs > now`, where a missing time is 0.
abbrev pub still_runs : Option ℕ → ℕ → Bool
still_runs none now = false
still_runs (some expires) now = ltb now expires

abbrev pub lease_of : Option Evidence → Option ℕ
lease_of none = none
lease_of (some evidence) = evidence.lease_expires_at

abbrev pub grace_of : Option Evidence → Option ℕ
grace_of none = none
grace_of (some evidence) = evidence.grace_expires_at

-- `missing[0] || …` and `missing.join(',') || …`, the names joined.
abbrev or_reason : List String → String → List String
or_reason [] reason = reason ∷ []
or_reason (name ∷ missing) reason = name ∷ missing

abbrev first_reason : List String → String → List String
first_reason [] reason = reason ∷ []
first_reason (name ∷ missing) reason = name ∷ []

abbrev snapshot_of : ParticipationState → List String → Bool → Requirements → ParticipationSnapshot
snapshot_of state reason eligible requirements = record {
  state = state;
  reason = reason;
  lease_eligible = eligible;
  requirements = requirements;
}

unfoldable pub decide : Requirements → Option Evidence → ℕ → ParticipationSnapshot
decide r persisted now =
    let missing = missing_of (named r) in
    if not r.operator_identity || not r.backend_policy
    then snapshot_of unconfigured (first_reason missing "unconfigured") false r
    else if is_empty missing
        && (previously_verified persisted && still_runs (lease_of persisted) now)
    then snapshot_of contributing ("verified_archive_participation" ∷ []) true r
    else if previously_verified persisted && still_runs (grace_of persisted) now
    then snapshot_of degraded (or_reason missing "verified_lease_renewal_pending") true r
    else if previously_verified persisted
    then snapshot_of locked (or_reason missing "verified_lease_expired") false r
    else snapshot_of joining (or_reason missing "verified_heartbeat_pending") false r
