-- ===== src/RuntimeLease/Truth.antt =====
-- src/runtime/runtimeLease.ts, `provenStopped`: an owner that it finds stopped is not alive.
use kubus_node.Base.{
  ℕ, String, str_eq, ◌≡◌, refl, ◌≢◌, inl, inr, Bool, true, false, Option, arith, Bool-cases,
  text_key, number_key, string_key,
}
use kubus_node.RuntimeLease.{
  System, Owner, stopped, proven_stopped, Probe, signalled, no_such_process, not_permitted,
  are_apart,
}

-- What the system says of a process that is alive, to one on the same host: it has the same boot, and
-- in the same namespace its pid is found, with its own start where that is known.
abbrev pub IsTruthful : System → Type 0
IsTruthful system =
    (alive : ℕ → Bool) (p q : ℕ)
    → alive q ≡ true
    → str_eq (system.owner q).host (system.owner p).host ≡ true
    → (are_apart (system.owner q).boot (system.owner p).boot ≡ false)
      × (str_eq (system.owner q).namespace (system.owner p).namespace ≡ true
          → (system.probe alive (system.owner q).pid ≢ no_such_process)
            × (are_apart (system.owner q).process_start
                  (system.live_start alive (system.owner q).pid)
                ≡ false))

proven_stopped-live :
    (probe : Probe) (live_start : Option String) (owner current : Owner)
    → (str_eq owner.host current.host ≡ true
        → (are_apart owner.boot current.boot ≡ false)
          × (str_eq owner.namespace current.namespace ≡ true
              → (probe ≢ no_such_process) × (are_apart owner.process_start live_start ≡ false)))
    → proven_stopped probe live_start owner current ≡ false
unfolding proven_stopped
proven_stopped-live probe live_start owner current told =
    elim (Bool-cases (str_eq owner.host current.host)) [
      | inr other ↦ rw other refl
      | inl same ↦
          let seen = told same in
          elim (Bool-cases (str_eq owner.namespace current.namespace)) [
            | inr elsewhere ↦ rw (same, seen.0, elsewhere) refl
            | inl here ↦ rw (same, seen.0, here) (by_probe probe (seen.1 here).0 (seen.1 here).1)
          ]
    ]
  where
    by_probe :
        (probe : Probe)
        → probe ≢ no_such_process
        → are_apart owner.process_start live_start ≡ false
        → elim probe [
          | no_such_process ↦ true
          | not_permitted ↦ false
          | signalled ↦ are_apart owner.process_start live_start
        ]
          ≡ false
    by_probe signalled h k = k
    by_probe no_such_process h k = absurd (h refl)
    by_probe not_permitted h k = refl

pub stopped_sound :
    (system : System) (alive : ℕ → Bool) (p q : ℕ)
    → IsTruthful system
    → stopped system alive p q ≡ true
    → alive q ≡ false
unfolding stopped
stopped_sound system alive p q truthful gone = elim (Bool-cases (alive q)) [
  | inr dead ↦ dead
  | inl lives ↦
      let pid = (system.owner q).pid in
      let going =
        proven_stopped-live (system.probe alive pid) (system.live_start alive pid) (system.owner q)
          (system.owner p) (truthful alive p q lives) in
      ground (arith, going)
]
