-- ===== src/Cleanup.antt =====
-- src/jobs/jobCleanup.ts and src/compute/providerCleanup.ts: journals of what has to be deleted, so
-- that a deletion that did not happen is tried again. Times are milliseconds; what the worker, the
-- file system and Kubo answer is an argument.
pub mod Provider
pub mod Deletion
pub mod Verified
pub mod Cancelled
pub mod Final
pub mod Tests
use kubus_node.Base.{
  ℕ, zero, suc, ◌+◌, ◌-◌, ◌*◌, ◌/◌, ◌%◌, ◌^◌, ◌≤◌, ◌<◌, min, max, bit_and, bit_or, bit_xor, String,
  str_eq, starts_with, eq_iff, eq_refl, ◌≡◌, refl, sym, ap, ap₂, ◌∙◌, subst, ◌≡⟨◌⟩◌, ◌∎, ◌≢◌, ◌↔◌,
  ◌⊎◌, inl, inr, Bool, true, false, not, ◌&&◌, ◌||◌, Option, none, some, List, [], ◌∷◌, ◌++◌, map,
  map-append, append-nil, append_assoc, arith, ltb, leb, ◌==◌, if◌then◌else◌, ltb→lt, lt→ltb,
  le→ltb, leb→le, ==_iff, Bool-cases, Option-cases, is_some, length, get_or, take, drop, concat,
  every, any, All, length-append, length-take, length-drop, take-append-drop, take-append,
  drop-append, All-append, drop-drop, concat-append, Text, units, same_text, same_text_iff,
  begins_with, is_space, holds_unit, cut_unique, text_key, number_key, string_key, Dict, Key, get,
  put, remove, has, get-put, get-put_self, get-put_ne, get-remove, get-remove_self, get-remove_ne,
  length-put, length-remove, Values, Values-put, Values-remove, Values-get,
}

pub data CleanupState : Type 0 where
  pending blocked complete : CleanupState

abbrev pub is_complete : CleanupState → Bool
is_complete complete = true
is_complete pending = false
is_complete blocked = false

pub record JobCleanupRecord : Type 0 where
  pub job_id : String
  pub type : String
  pub state : CleanupState
  pub worker_instance_id : Option String
  pub worker_attempted : Bool
  pub updated_at : ℕ
  pub reason : Option String

abbrev pub Journal : Type 0
Journal = Dict String JobCleanupRecord

pub data CleanupError : Type 0 where
  cleanup_job_id_invalid cleanup_job_already_owned : CleanupError
  worker_cleanup_protocol_required cleanup_not_owned : CleanupError
  worker_identity_unavailable worker_quiescence_unverified directory_not_removed : CleanupError

-- The worker's receipt for a cancelled job.
pub record Receipt : Type 0 where
  pub ok : Bool
  pub job_id : String
  pub cleanup_protocol : ℕ
  pub quiescent : Bool
  pub worker_instance_id : String

abbrev pub is_receipt_for : String → String → Receipt → Bool
is_receipt_for job_id instance_id receipt =
    receipt.ok
    && (str_eq receipt.job_id job_id
        && (receipt.cleanup_protocol == 1
            && (receipt.quiescent && str_eq receipt.worker_instance_id instance_id)))

-- `jobIdPattern.test`.
module _ (is_job_id : String → Bool) where
  unfoldable pub own : String → String → ℕ → Journal → Journal × Option CleanupError
  own job_id type now journal =
      if not (is_job_id job_id)
      then (journal, some cleanup_job_id_invalid)
      else if has journal job_id
      then (journal, some cleanup_job_already_owned)
      else (
        put journal job_id (record {
          job_id = job_id;
          type = type;
          state = pending;
          worker_instance_id = none;
          worker_attempted = false;
          updated_at = now;
          reason = none;
        }),
        none,
      )

  abbrev pub attempted : String → ℕ → JobCleanupRecord → JobCleanupRecord
  attempted instance_id now current = record current {
    worker_instance_id = some instance_id;
    worker_attempted = true;
    updated_at = now;
  }

  unfoldable pub mark_worker_attempt : String → String → ℕ → Journal → Journal × Option CleanupError
  mark_worker_attempt job_id instance_id now journal =
      if not (is_job_id instance_id)
      then (journal, some worker_cleanup_protocol_required)
      else elim (get journal job_id) [
        | none ↦ (journal, some cleanup_not_owned)
        | some current ↦
            if is_complete current.state
            then (journal, some cleanup_not_owned)
            else (put journal job_id (attempted instance_id now current), none)
      ]

-- What the release of a job's directory finds: is the job still queued or running, is a worker
-- configured, its receipt where it gave one, and was the directory removed.
pub record Findings : Type 0 where
  pub job_active : Bool
  pub has_worker : Bool
  pub receipt : Option Receipt
  pub removed_directory : Bool

abbrev pub has_receipt : String → String → Option Receipt → Bool
has_receipt job_id instance_id none = false
has_receipt job_id instance_id (some receipt) = is_receipt_for job_id instance_id receipt

-- The first failure of the `try`.
abbrev pub worker_failure : String → Findings → JobCleanupRecord → Option CleanupError
worker_failure job_id found current =
    if not current.worker_attempted then none else elim current.worker_instance_id [
      | none ↦ some worker_identity_unavailable
      | some instance_id ↦
          if not found.has_worker
          then some worker_identity_unavailable
          else if not (has_receipt job_id instance_id found.receipt)
          then some worker_quiescence_unverified
          else none
    ]

abbrev pub set_complete : ℕ → JobCleanupRecord → JobCleanupRecord
set_complete now current = record current { state = complete; reason = none; updated_at = now }

abbrev pub set_blocked : ℕ → JobCleanupRecord → JobCleanupRecord
set_blocked now current = record current {
  state = blocked;
  reason = some "cleanup_retry_required";
  updated_at = now;
}

-- The update of a record that the journal still holds.
unfoldable pub revise : String → (JobCleanupRecord → JobCleanupRecord) → Journal → Journal
revise job_id mutate journal = elim (get journal job_id) [
  | none ↦ journal
  | some current ↦ put journal job_id (mutate current)
]

-- `release`; `journal` is what its check reads, `later` what the final update finds.
unfoldable pub release : String → Findings → ℕ → Journal → Journal → Journal × Option CleanupError
unfolding revise
release job_id found now journal later = elim (get journal job_id) [
  | none ↦ (journal, none)
  | some current ↦
      if is_complete current.state || found.job_active
      then (journal, none)
      else elim (worker_failure job_id found current) [
        | some e ↦ (revise job_id (set_blocked now) later, some e)
        | none ↦
            if found.removed_directory
            then (revise job_id (set_complete now) later, none)
            else (revise job_id (set_blocked now) later, some directory_not_removed)
      ]
]
