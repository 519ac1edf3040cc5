-- ===== src/Jobs/Active.antt =====
-- src/jobs/jobRuntime.ts: one active reconstruction for a capture, at most.
use kubus_node.Base.{
  ℕ, ◌+◌, ◌≤◌, String, str_eq, eq_iff, ◌≡◌, refl, subst, ◌⊎◌, inl, inr, Bool, true, false, Option,
  none, some, [], ◌∷◌, arith, Bool-cases, Option-cases, text_key, number_key, string_key, get, put,
}
use kubus_node.Jobs.{
  JobType, JobInput, LocalJob, Jobs, is_active, reconstructs_capture, active_reconstruction,
  new_job,
}
use mathlib.Core.Option.{some-injective}
use kubus_node.Jobs.Create.{insert}
use kubus_node.Jobs.Patches.{
  cancel, cancel_job, Patch, begins, starts, trains, imports, readies, finishes, fails, apply,
  Targets, Runtime, new_runtime, Step, inserted, cancelled_by, dispatched, patched, returned,
  restarted, Reach, here, next, start,
}
use kubus_node.Jobs.Runs.{IsOpen, patched-IsPatch, Reach-IsOpen, new_runtime-IsOpen}

abbrev pub counts : Bool → ℕ
counts true = 1
counts false = 0

-- How many jobs reconstruct a capture right now.
pub active_count : String → Jobs → ℕ
active_count capture_id [] = 0
active_count capture_id ((key, job) ∷ jobs) =
    counts (reconstructs_capture capture_id job) + active_count capture_id jobs

abbrev pub OneActive : Jobs → Type 0
OneActive jobs = (capture_id : String) → active_count capture_id jobs ≤ 1

active_count-none :
    (capture_id : String) (jobs : Jobs)
    → active_reconstruction jobs capture_id ≡ none
    → active_count capture_id jobs ≡ 0
unfolding active_count active_reconstruction
active_count-none capture_id [] h = refl
active_count-none capture_id ((key, job) ∷ jobs) h =
    ground (arith, active_count-none capture_id jobs)

active_count-put_new :
    (capture_id : String) (jobs : Jobs) (id : String) (job : LocalJob)
    → get jobs id ≡ none
    → active_count capture_id (put jobs id job)
      ≡ counts (reconstructs_capture capture_id job) + active_count capture_id jobs
unfolding active_count get put
active_count-put_new capture_id [] id job h = refl
active_count-put_new capture_id ((key, old) ∷ jobs) id job h =
    ground (arith, active_count-put_new capture_id jobs id job)

active_count-put :
    (capture_id : String) (jobs : Jobs) (id : String) (job old : LocalJob)
    → get jobs id ≡ some old
    → active_count capture_id (put jobs id job) + counts (reconstructs_capture capture_id old)
      ≡ counts (reconstructs_capture capture_id job) + active_count capture_id jobs
unfolding active_count get put
active_count-put capture_id [] id job old h = absurd (ground arith)
active_count-put capture_id ((key, first) ∷ jobs) id job old h = elim (Bool-cases (str_eq key id)) [
  | inl hit ↦
      let same : first ≡ old = some-injective _ _ (ground arith) in rw (hit, same) (omega arith)
  | inr miss ↦ rw miss (omega (arith, active_count-put capture_id jobs id job old (ground arith)))
]

-- No patch makes a job active, or changes what it reconstructs.
apply-counts :
    (patch : Patch) (job : LocalJob) (capture_id : String)
    → is_active job.state ≡ true
    → counts (reconstructs_capture capture_id (apply patch job))
      ≤ counts (reconstructs_capture capture_id job)
unfolding apply
apply-counts (begins now) job capture_id active = ground arith
apply-counts (starts now) job capture_id active = ground arith
apply-counts (trains now) job capture_id active = ground arith
apply-counts (imports now) job capture_id active = ground arith
apply-counts (readies message now) job capture_id active = ground arith
apply-counts (finishes spatial now) job capture_id active = ground arith
apply-counts (fails aborted error now) job capture_id active = ground arith

put-OneActive :
    (jobs : Jobs) (id : String) (job old : LocalJob)
    → get jobs id ≡ some old
    → ((capture_id : String)
        → counts (reconstructs_capture capture_id job)
          ≤ counts (reconstructs_capture capture_id old))
    → OneActive jobs
    → OneActive (put jobs id job)
put-OneActive jobs id job old found fewer one capture_id =
    omega
      (arith, active_count-put capture_id jobs id job old found, fewer capture_id, one capture_id)

new_job-OneActive :
    (jobs : Jobs) (id : String) (type : JobType) (input : JobInput) (now : ℕ)
    → get jobs id ≡ none
    → ((capture_id : String)
        → (reconstructs_capture capture_id (new_job id type input now) ≡ false)
          ⊎ (active_count capture_id jobs ≡ 0))
    → OneActive jobs
    → OneActive (put jobs id (new_job id type input now))
new_job-OneActive jobs id type input now fresh room one capture_id = ground (
  arith,
  active_count-put_new capture_id jobs id (new_job id type input now) fresh,
  room capture_id,
  one capture_id,
)

insert-OneActive :
    (jobs : Jobs) (id : String) (type : JobType) (input : JobInput) (reconstructs : Option String)
    (now : ℕ)
    → get jobs id ≡ none
    → Targets type input reconstructs
    → OneActive jobs
    → OneActive (insert id type input reconstructs now jobs).0
unfolding insert
insert-OneActive jobs id type input none now fresh target one =
    new_job-OneActive jobs id type input now fresh (λ capture_id. inl (rw target)) one
insert-OneActive jobs id type input (some c) now fresh target one =
    elim (Option-cases (active_reconstruction jobs c)) [
      | inl idle ↦
          rw (idle, insert)
            (new_job-OneActive jobs id type input now fresh
              (λ capture_id. elim (Bool-cases (str_eq c capture_id)) [
                | inl same ↦ inr (
                    subst (λ z. active_count z jobs ≡ 0) ((eq_iff c capture_id).0 same)
                      (active_count-none c jobs idle))
                | inr other ↦ inl (rw (target, other) (ground arith))
              ])
              one)
      | inr (job, busy) ↦ rw (busy, insert) one
    ]

cancel-OneActive :
    (jobs : Jobs) (id : String) (now : ℕ) → OneActive jobs → OneActive (cancel id now jobs)
unfolding cancel
cancel-OneActive jobs id now one = elim (Option-cases (get jobs id)) [
  | inl missing ↦ rw (missing, cancel) one
  | inr (job, found) ↦ elim (Bool-cases (is_active job.state)) [
    | inl active ↦
        rw (found, cancel, active)
          (put-OneActive jobs id (cancel_job now job) job found (λ c. ground arith) one)
    | inr ended ↦ rw (found, cancel, ended) one
  ]
]

active_count-start :
    (capture_id : String) (journaled : String → Bool) (now : ℕ) (jobs : Jobs)
    → active_count capture_id (start journaled now jobs) ≤ active_count capture_id jobs
unfolding active_count start
active_count-start capture_id journaled now [] = omega arith
active_count-start capture_id journaled now ((key, job) ∷ jobs) =
    ground (arith, active_count-start capture_id journaled now jobs)

-- No transaction gives a capture a second active reconstruction.
Step-OneActive :
    {runtime after : Runtime}
    → Step runtime after
    → IsOpen runtime
    → OneActive runtime.jobs
    → OneActive after.jobs
Step-OneActive {runtime} (inserted id type input reconstructs now fresh target) holds one =
    insert-OneActive runtime.jobs id type input reconstructs now fresh target one
Step-OneActive {runtime} (cancelled_by id now) holds one = cancel-OneActive runtime.jobs id now one
Step-OneActive {runtime} (dispatched id job known waits idle) holds one = one
Step-OneActive {runtime} (patched {after} id patch running result) holds one =
    let p = patched-IsPatch runtime id patch after holds running result in
    subst OneActive p.written (
      put-OneActive runtime.jobs id (apply patch p.job) p.job p.known
        (λ c. apply-counts patch p.job c p.active) one)
Step-OneActive {runtime} (returned id) holds one = one
Step-OneActive {runtime} (restarted journaled now) holds one =
    λ c. omega (arith, active_count-start c journaled now runtime.jobs, one c)

-- From the empty queue, whatever jobs are inserted, cancelled, dispatched, patched by their runs
-- (those of a job that was cancelled meanwhile too) and recovered after a restart, in any order, no
-- capture ever has two active reconstructions. (An inserted job has a fresh id and names the capture
-- that it is inserted for, and a run is started only for a queued job that has none.)
pub Reach-OneActive : {runtime : Runtime} → Reach new_runtime runtime → OneActive runtime.jobs
unfolding active_count
Reach-OneActive here = λ c. omega arith
Reach-OneActive (next before step) =
    Step-OneActive step (Reach-IsOpen before new_runtime-IsOpen) (Reach-OneActive before)
