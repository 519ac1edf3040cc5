-- ===== src/Gate/Tests.antt =====
-- src/participation/networkParticipationGate.ts: the gate at concrete states.
use kubus_node.Base.{
  ◌+◌, ◌<◌, ◌≡◌, refl, ◌↔◌, true, false, none, some, [], ◌∷◌, text_key, number_key, string_key,
}
use kubus_node.Gate.{
  joining, contributing, degraded, locked, missing_of, Policy, LocalState, AppConfig,
  previously_verified, decide,
}
use kubus_node.Gate.Lease.{
  refresh, verified, record_heartbeat_accepted, assert_useful_operation,
  assert_useful_operation_iff, heartbeat_lasts,
}

abbrev config : AppConfig
config = record {
  operator_wallet = some "w";
  operator_token = some "t";
  skip_pinning = false;
  max_pinned_bytes = 10;
  is_production = true;
  participation_grace_ms = 90000;
}

abbrev policy : Policy
policy = record {
  version = some "1";
  minimum_contribution_capacity_bytes = some 5;
  cid_sync_interval_ms = none;
  participation_lease_seconds = none;
  participation_grace_seconds = none;
}

abbrev healthy : LocalState
healthy = record {
  node_id = some "n";
  node_status = some "active";
  policy = some policy;
  latest_public_pin_set_sync_at = some 100;
  latest_pin_reconcile_at = some 100;
  latest_heartbeat_at = some 100;
  public_pin_set_complete = true;
  failed_cids = [];
  desired_cids = "x" ∷ [];
  pinned_cids = "x" ∷ "y" ∷ [];
  participation = none;
}

abbrev accepted : LocalState
accepted = record healthy { participation = some (verified config 1000 healthy) }

gate : Unit {0}
unfolding decide refresh record_heartbeat_accepted assert_useful_operation missing_of
gate = tt

-- Before the heartbeat, within the lease, within the grace time without Kubo, and after it.
states :
    ((refresh config true true 1000 healthy).state ≡ joining)
    × (record_heartbeat_accepted config true true 1000 healthy ≡ accepted)
    × ((refresh config true true 180999 accepted).state ≡ contributing)
    × ((refresh config true false 270999 accepted).state ≡ degraded)
    × ((refresh config true false 271000 accepted).state ≡ locked)
unfolding gate
states = (refl, refl, refl, refl, refl)

assert_useful_operation_iff_example : previously_verified accepted.participation ≡ true
unfolding gate
assert_useful_operation_iff_example =
    ((assert_useful_operation_iff config true false 270999 accepted).0 refl).2

heartbeat_lasts_example :
    (assert_useful_operation config true false 270999 accepted ≡ true)
    ↔ (270999 < 1000 + (180000 + 90000))
unfolding gate
heartbeat_lasts_example =
    heartbeat_lasts config healthy accepted true true 1000 270999 true false refl refl refl refl
