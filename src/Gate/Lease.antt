-- ===== src/Gate/Lease.antt =====
-- src/participation/networkParticipationGate.ts: `refresh`, `recordHeartbeatAccepted` and
-- `assertUsefulOperation`, and how long an accepted heartbeat lasts.
use kubus_node.Base.{
  ℕ, zero, suc, ◌+◌, ◌*◌, ◌<◌, max, String, ◌≡◌, refl, ◌∙◌, ◌↔◌, ◌⊎◌, inl, inr, Bool, true, false,
  ◌&&◌, some, List, [], ◌∷◌, arith, if◌then◌else◌, text_key, number_key, string_key,
}
use kubus_node.Gate.{
  ParticipationState, unconfigured, joining, contributing, degraded, locked, Requirements, named,
  missing_of, Evidence, LocalState, AppConfig, ParticipationSnapshot, number_or, policy_number,
  is_empty, requirements_of, generation, previously_verified, still_runs, lease_of, grace_of,
  decide,
}

-- `refresh` writes back the state and the reason, and the times of the evidence as it read them.
unfoldable pub refresh : AppConfig → Bool → Bool → ℕ → LocalState → ParticipationSnapshot
refresh config scheduler_active kubo_healthy now state =
    decide (requirements_of config scheduler_active kubo_healthy now state) state.participation now

abbrev pub lease_ms : LocalState → ℕ
lease_ms state =
    max (number_or (policy_number (λ p. p.participation_lease_seconds) state.policy) 180) 30 * 1000

-- The grace time of the policy, and without one that of the configuration.
abbrev grace_or : ℕ → ℕ → ℕ
grace_or zero configured_ms = max configured_ms 60000
grace_or (suc seconds) configured_ms = max (suc seconds) 60 * 1000

abbrev pub grace_ms : AppConfig → LocalState → ℕ
grace_ms config state =
    grace_or (number_or (policy_number (λ p. p.participation_grace_seconds) state.policy) 0)
      config.participation_grace_ms

abbrev pub verified : AppConfig → ℕ → LocalState → Evidence
verified config now state = record {
  lease_expires_at = some (now + lease_ms state);
  grace_expires_at = some (now + (lease_ms state + grace_ms config state));
  last_verified_at = some now;
  verification_generation = some (generation state.participation + 1);
}

-- `recordHeartbeatAccepted`: the state it leaves.
unfoldable pub record_heartbeat_accepted : AppConfig → Bool → Bool → ℕ → LocalState → LocalState
record_heartbeat_accepted config scheduler_active kubo_healthy now state =
    if is_empty
      (missing_of (named (refresh config scheduler_active kubo_healthy now state).requirements))
    then record state { participation = some (verified config now state) }
    else state

abbrev pub is_working : ParticipationState → Bool
is_working contributing = true
is_working degraded = true
is_working unconfigured = false
is_working joining = false
is_working locked = false

-- `assertUsefulOperation`; `false` where it throws.
unfoldable pub assert_useful_operation : AppConfig → Bool → Bool → ℕ → LocalState → Bool
assert_useful_operation config scheduler_active kubo_healthy now state =
    let snapshot = refresh config scheduler_active kubo_healthy now state in
    snapshot.lease_eligible && is_working snapshot.state

-- Useful work is allowed exactly for a node that has its operator's identity and a policy, has been
-- verified before, and is within its grace time, or within its lease and meets every requirement.
pub assert_useful_operation_iff :
    (config : AppConfig) (scheduler_active kubo_healthy : Bool) (now : ℕ) (state : LocalState)
    → (assert_useful_operation config scheduler_active kubo_healthy now state ≡ true) ↔ (
        ((requirements_of config scheduler_active kubo_healthy now state).operator_identity ≡ true)
        × ((requirements_of config scheduler_active kubo_healthy now state).backend_policy ≡ true)
        × (previously_verified state.participation ≡ true)
        × ((still_runs (grace_of state.participation) now ≡ true)
            ⊎ ((still_runs (lease_of state.participation) now ≡ true)
                × (missing_of
                      (named (requirements_of config scheduler_active kubo_healthy now state))
                    ≡ []))))
unfolding assert_useful_operation refresh decide
assert_useful_operation_iff config scheduler_active kubo_healthy now state =
    go (requirements_of config scheduler_active kubo_healthy now state)
  where
    empty : (xs : List String) → is_empty xs ≡ true → xs ≡ []
    empty [] h = refl
    empty (x ∷ xs) h = absurd (ground arith)

    go :
        (r : Requirements)
        → (((decide r state.participation now).lease_eligible
              && is_working (decide r state.participation now).state)
            ≡ true)
          ↔ ((r.operator_identity ≡ true)
              × (r.backend_policy ≡ true)
              × (previously_verified state.participation ≡ true)
              × ((still_runs (grace_of state.participation) now ≡ true)
                  ⊎ ((still_runs (lease_of state.participation) now ≡ true)
                      × (missing_of (named r) ≡ []))))
    go r = ground (arith, empty (missing_of (named r)))

-- A heartbeat that is accepted while every requirement is met is worth exactly the lease and the
-- grace time: while its evidence stands, with the operator's identity and a policy, useful work is
-- allowed at a time exactly until both have run out, whatever else fails.
pub heartbeat_lasts :
    (config : AppConfig) (state later_state : LocalState) (scheduler kubo : Bool) (now later : ℕ)
    (scheduler' kubo' : Bool)
    → missing_of (named (requirements_of config scheduler kubo now state)) ≡ []
    → later_state.participation
      ≡ (record_heartbeat_accepted config scheduler kubo now state).participation
    → (requirements_of config scheduler' kubo' later later_state).operator_identity ≡ true
    → (requirements_of config scheduler' kubo' later later_state).backend_policy ≡ true
    → (assert_useful_operation config scheduler' kubo' later later_state ≡ true)
      ↔ (later < now + (lease_ms state + grace_ms config state))
unfolding record_heartbeat_accepted refresh decide
heartbeat_lasts config state later_state scheduler kubo now later scheduler' kubo' met kept identity
      policy =
    (
      λ h. until ((assert_useful_operation_iff config scheduler' kubo' later later_state).0 h),
      λ h.
          (assert_useful_operation_iff config scheduler' kubo' later later_state).1
            (identity, policy, rw evidence (ground arith), inl (rw evidence (ground arith))),
    )
  where
    all_met :
        is_empty (missing_of (named (refresh config scheduler kubo now state).requirements)) ≡ true
    all_met = ground (arith, met)

    evidence : later_state.participation ≡ some (verified config now state)
    evidence = kept ∙ rw (all_met, record_heartbeat_accepted) refl

    until :
        ((requirements_of config scheduler' kubo' later later_state).operator_identity ≡ true)
          × ((requirements_of config scheduler' kubo' later later_state).backend_policy ≡ true)
          × (previously_verified later_state.participation ≡ true)
          × ((still_runs (grace_of later_state.participation) later ≡ true)
              ⊎ ((still_runs (lease_of later_state.participation) later ≡ true)
                  × (missing_of (named (requirements_of config scheduler' kubo' later later_state))
                      ≡ [])))
        → later < now + (lease_ms state + grace_ms config state)
    until (_, _, _, inl grace) = ground (arith, evidence, grace)
    until (_, _, _, inr (lease, _)) = ground (arith, evidence, lease)
