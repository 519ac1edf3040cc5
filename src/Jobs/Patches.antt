-- ===== src/Jobs/Patches.antt =====
-- src/jobs/jobRuntime.ts: the transactions that change a job, and the patches of `run`.
use kubus_node.Base.{
  ℕ, String, ◌≡◌, Bool, true, false, ◌&&◌, ◌||◌, Option, none, some, [], ◌∷◌, if◌then◌else◌,
  text_key, number_key, string_key, Dict, get, put, remove,
}
use kubus_node.Json.{Json}
use kubus_node.Jobs.Create.{insert}
use kubus_node.Jobs.{
  JobType, running, completed, failed, cancelled, preparing_dataset, starting_worker, training,
  importing, done, broken, stopped, Level, info, warn, JobError, JobInput, LocalJob, Jobs,
  is_reconstruct, is_active, is_queued, is_running, is_cancelled, log,
}

abbrev pub cancel_job : ℕ → LocalJob → LocalJob
cancel_job now job = record job {
  state = cancelled;
  stage = stopped;
  completed_at = some now;
  updated_at = now;
  logs = log job now warn "Job cancelled";
}

-- The transaction of `cancel`: a job that has ended stays as it is.
unfoldable pub cancel : String → ℕ → Jobs → Jobs
cancel id now jobs = elim (get jobs id) [
  | none ↦ jobs
  | some job ↦ if is_active job.state then put jobs id (cancel_job now job) else jobs
]

-- `patchJob`: `none` where it throws, for a missing or a cancelled job.
unfoldable pub patch_job : String → (LocalJob → LocalJob) → Jobs → Option Jobs
patch_job id mutate jobs = elim (get jobs id) [
  | none ↦ none
  | some job ↦ if is_cancelled job.state then none else some (put jobs id (mutate job))
]

-- The patches of `run`, in their order.
abbrev pub begin_run : ℕ → LocalJob → LocalJob
begin_run now job = record job {
  state = running;
  stage = preparing_dataset;
  progress = some 5;
  started_at = some now;
  updated_at = now;
  logs = log job now info "Preparing dataset from capture";
}

abbrev pub dataset_ready : String → ℕ → LocalJob → LocalJob
dataset_ready message now job = record job { logs = log job now info message }

abbrev pub start_worker : ℕ → LocalJob → LocalJob
start_worker now job = record job {
  stage = starting_worker;
  progress = some 15;
  updated_at = now;
  logs = log job now info "Starting spatial worker";
}

abbrev pub train : ℕ → LocalJob → LocalJob
train now job = record job {
  stage = training;
  progress = none;
  updated_at = now;
  logs =
      log job now info
        "Training (this can take a while; progress is not reported mid-run by this worker version)";
}

abbrev pub import_output : ℕ → LocalJob → LocalJob
import_output now job = record job {
  stage = importing;
  progress = some 90;
  updated_at = now;
  logs = log job now info "Importing spatial output into local Kubo";
}

abbrev pub finish : Json → ℕ → LocalJob → LocalJob
finish spatial now job = record job {
  state = completed;
  stage = done;
  progress = some 100;
  output = some spatial;
  completed_at = some now;
  updated_at = now;
  logs = log job now info "Spatial outputs imported into local Kubo";
}

-- The patch of the `catch` block.
abbrev pub fail : Bool → JobError → ℕ → LocalJob → LocalJob
fail aborted error now job = record job {
  state = if aborted then cancelled else failed;
  stage = if aborted then stopped else broken;
  error = some error;
  completed_at = some now;
  updated_at = now;
  logs = log job now (if aborted then warn else Level.error) error.message;
}

abbrev pub interrupt : ℕ → LocalJob → LocalJob
interrupt now job = record job {
  state = failed;
  stage = broken;
  error = some (record {
    code = "interrupted_requires_retry";
    message = "Processing interrupted; verify cleanup before starting a new attempt";
  });
  completed_at = some now;
  updated_at = now;
  logs = log job now warn "Interrupted attempt retained for cleanup review";
}

-- The transaction of `start`; `journaled` tells which jobs have a cleanup record.
unfoldable pub start : (String → Bool) → ℕ → Jobs → Jobs
start journaled now [] = []
start journaled now ((key, job) ∷ jobs) =
    (
      key,
      if is_running job.state || is_queued job.state && journaled job.id
          then interrupt now job
          else job,
    )
    ∷ start journaled now jobs

-- The patches, as data.
pub data Patch : Type 0 where
  begins starts trains imports : (now : ℕ) → Patch
  readies : (message : String) (now : ℕ) → Patch
  finishes : (spatial : Json) (now : ℕ) → Patch
  fails : (aborted : Bool) (error : JobError) (now : ℕ) → Patch

unfoldable pub apply : Patch → LocalJob → LocalJob
apply (begins now) = begin_run now
apply (starts now) = start_worker now
apply (trains now) = train now
apply (imports now) = import_output now
apply (readies message now) = dataset_ready message now
apply (finishes spatial now) = finish spatial now
apply (fails aborted error now) = fail aborted error now

-- What the reconstructed capture of an inserted job is: none for the other types.
abbrev pub Targets : JobType → JobInput → Option String → Type 0
Targets type input none = is_reconstruct type ≡ false
Targets type input (some capture_id) = input.capture_id ≡ some capture_id

-- `finish` and `fail` are the last patch of a run.
abbrev pub is_last : Patch → Bool
is_last (finishes spatial now) = true
is_last (fails aborted error now) = true
is_last (begins now) = false
is_last (starts now) = false
is_last (trains now) = false
is_last (imports now) = false
is_last (readies message now) = false

-- The durable jobs, and the runs of this process that may still patch theirs, by id.
pub record Runtime : Type 0 where
  pub jobs : Jobs
  pub running_ids : Dict String (Unit {0})

abbrev pub new_runtime : Runtime
new_runtime = record { jobs = []; running_ids = [] }

-- The runs after a patch of one of them.
abbrev pub after_patch : Patch → String → Dict String (Unit {0}) → Dict String (Unit {0})
after_patch patch id running_ids = if is_last patch then remove running_ids id else running_ids

-- One transaction of the runtime. An inserted id is fresh. `dispatch` starts a run for a queued job
-- that has none; the run patches its job through `patchJob`, whatever has become of it, and ends after
-- its last patch or by a `return`. A restart forgets the runs.
pub data Step (runtime : Runtime) : Runtime → Type 0 where
  inserted :
      (id : String) (type : JobType) (input : JobInput) (reconstructs : Option String) (now : ℕ)
      → get runtime.jobs id ≡ none
      → Targets type input reconstructs
      → Step runtime
          (record runtime { jobs = (insert id type input reconstructs now runtime.jobs).0 })
  cancelled_by :
      (id : String) (now : ℕ) → Step runtime (record runtime { jobs = cancel id now runtime.jobs })
  dispatched :
      (id : String) (job : LocalJob)
      → get runtime.jobs id ≡ some job
      → is_queued job.state ≡ true
      → get runtime.running_ids id ≡ none
      → Step runtime (record runtime { running_ids = put runtime.running_ids id tt })
  patched :
      {after : Jobs} (id : String) (patch : Patch)
      → get runtime.running_ids id ≡ some tt
      → patch_job id (apply patch) runtime.jobs ≡ some after
      → Step runtime
          (record { jobs = after; running_ids = after_patch patch id runtime.running_ids })
  returned :
      (id : String) → Step runtime (record runtime { running_ids = remove runtime.running_ids id })
  restarted :
      (journaled : String → Bool) (now : ℕ)
      → Step runtime (record { jobs = start journaled now runtime.jobs; running_ids = [] })

pub data Reach (runtime : Runtime) : Runtime → Type 0 where
  here : Reach runtime runtime
  next : {before after : Runtime} → Reach runtime before → Step before after → Reach runtime after
