-- ===== src/Cleanup/Verified.antt =====
-- src/jobs/jobCleanup.ts and src/compute/providerCleanup.ts: what a finished cleanup has verified.
use kubus_node.Base.{
  ℕ, String, ◌≡◌, inl, inr, Bool, true, false, none, some, arith, Bool-cases, Option-cases,
  text_key, number_key, string_key, get, get-put_self,
}
use kubus_node.Cleanup.{
  is_complete, JobCleanupRecord, Journal, Receipt, is_receipt_for, Findings, worker_failure,
  set_blocked, revise, release,
}

-- The record of a job after its release says that the cleanup is complete.
abbrev pub is_done : String → Journal → Bool
is_done job_id journal = elim (get journal job_id) [
  | none ↦ false
  | some current ↦ is_complete current.state
]

-- What stands behind a completed cleanup.
pub record IsVerified (job_id : String) (found : Findings) (current : JobCleanupRecord)
    : Type 0 where
  pub idle : found.job_active ≡ false
  pub gone : found.removed_directory ≡ true
  pub stopped :
      current.worker_attempted ≡ true
      → (instance_id : String) × (receipt : Receipt) × (current.worker_instance_id
          ≡ some instance_id)
        × (found.receipt ≡ some receipt)
        × (is_receipt_for job_id instance_id receipt ≡ true)

worker_failure-none :
    (job_id : String) (found : Findings) (current : JobCleanupRecord)
    → worker_failure job_id found current ≡ none
    → current.worker_attempted ≡ true
    → (instance_id : String) × (receipt : Receipt) × (current.worker_instance_id ≡ some instance_id)
      × (found.receipt ≡ some receipt)
      × (is_receipt_for job_id instance_id receipt ≡ true)
worker_failure-none job_id found current fine tried =
    elim (Option-cases current.worker_instance_id) [
      | inl missing ↦ absurd (ground arith)
      | inr (instance_id, known) ↦ elim (Option-cases found.receipt) [
        | inl silent ↦ absurd (ground arith)
        | inr (receipt, given) ↦ (instance_id, receipt, known, given, ground arith)
      ]
    ]

blocked_lem :
    (job_id : String) (now : ℕ) (later : Journal)
    → is_done job_id (revise job_id (set_blocked now) later) ≡ false
unfolding revise
blocked_lem job_id now later = elim (Option-cases (get later job_id)) [
  | inl missing ↦ ground (arith, missing)
  | inr (current, known) ↦
      ground (arith, known, get-put_self later job_id (set_blocked now current))
]

-- A cleanup that was open becomes complete only when its job neither waits nor runs, its directory
-- was removed, and, if a worker had been handed the job, that very worker has confirmed that it is
-- quiescent; whatever the journal has become by the time of the final update.
pub release-IsVerified :
    (job_id : String) (found : Findings) (now : ℕ) (journal later : Journal)
    (current : JobCleanupRecord)
    → get journal job_id ≡ some current
    → is_complete current.state ≡ false
    → is_done job_id (release job_id found now journal later).0 ≡ true
    → IsVerified job_id found current
unfolding release
release-IsVerified job_id found now journal later current known unfinished done =
    elim (Bool-cases found.job_active) [
      | inl active ↦ absurd (ground (arith, known))
      | inr idle ↦ elim (Option-cases (worker_failure job_id found current)) [
        | inr (e, failure) ↦ absurd (ground (arith, known, blocked_lem job_id now later))
        | inl fine ↦ elim (Bool-cases found.removed_directory) [
          | inr left ↦ absurd (ground (arith, known, blocked_lem job_id now later))
          | inl gone ↦ record {
            idle = idle;
            gone = gone;
            stopped = worker_failure-none job_id found current fine;
          }
        ]
      ]
    ]
