-- ===== src/Jobs/Create.antt =====
-- src/jobs/jobRuntime.ts, `create` and `insert`: how a job enters the queue.
use kubus_node.Base.{
  ℕ, String, str_eq, Bool, not, ◌&&◌, Option, none, some, if◌then◌else◌, is_some, text_key,
  number_key, string_key, put,
}
use kubus_node.Jobs.{
  JobType, JobInput, LocalJob, Jobs, is_reconstruct, active_reconstruction, new_job,
}

-- `insert`, whose test and write are one transaction of the store.
unfoldable pub insert : String → JobType → JobInput → Option String → ℕ → Jobs → Jobs × LocalJob
insert id type input none now jobs =
    (put jobs id (new_job id type input now), new_job id type input now)
insert id type input (some capture_id) now jobs = elim (active_reconstruction jobs capture_id) [
  | some existing ↦ (jobs, existing)
  | none ↦ (put jobs id (new_job id type input now), new_job id type input now)
]

pub data CreateError : Type 0 where
  worker_cleanup_pending participation_required job_capture_required capture_not_found : CreateError
  capture_unusable : (code : String) → CreateError

pub data Created : Type 0 where
  granted : Jobs → LocalJob → Created
  refused : CreateError → Created

-- What `create` asks of others: whether a cleanup is blocked, whether the gate admits a remote
-- assignment, whether the capture is stored, and the code of a failed inspection.
pub record Answers : Type 0 where
  pub cleanup_blocked : Bool
  pub participates : Bool
  pub capture_stored : String → Bool
  pub inspection : String → Option String

abbrev pub insert_job : String → JobType → JobInput → Option String → ℕ → Jobs → Created
insert_job id type input reconstructs now jobs =
    granted (insert id type input reconstructs now jobs).0
      (insert id type input reconstructs now jobs).1

unfoldable pub create_reconstruction :
    Answers → String → JobType → JobInput → String → ℕ → Jobs → Created
create_reconstruction answers id type input capture_id now jobs =
    elim (active_reconstruction jobs capture_id) [
      | some active ↦ granted jobs active
      | none ↦ elim (answers.inspection capture_id) [
        | some code ↦ refused (capture_unusable code)
        | none ↦ insert_job id type input (some capture_id) now jobs
      ]
    ]

unfoldable pub create_for :
    Answers → String → JobType → JobInput → Option String → ℕ → Jobs → Created
create_for answers id type input none now jobs = refused job_capture_required
create_for answers id type input (some capture_id) now jobs =
    if str_eq capture_id ""
    then refused job_capture_required
    else if not (answers.capture_stored capture_id)
    then refused capture_not_found
    else if not (is_reconstruct type)
    then insert_job id type input none now jobs
    else create_reconstruction answers id type input capture_id now jobs

-- `create`, for one of the supported types; `id` is the fresh identifier.
unfoldable pub create : Answers → String → JobType → JobInput → ℕ → Jobs → Created
create answers id type input now jobs =
    if answers.cleanup_blocked
    then refused worker_cleanup_pending
    else if is_some input.remote_compute_job_id && not answers.participates
    then refused participation_required
    else create_for answers id type input input.capture_id now jobs
