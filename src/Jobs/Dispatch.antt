-- ===== src/Jobs/Dispatch.antt =====
-- src/jobs/jobRuntime.ts, `dispatch`: which queued job is started next, and how often.
use kubus_node.Base.{
  ℕ, zero, suc, ◌<◌, String, eq_iff, ◌≡◌, refl, Option, none, some, List, [], ◌∷◌, ◌++◌, arith, ltb,
  leb, if◌then◌else◌, lt→ltb, length, text_key, number_key, string_key, Dict, put,
}
use mathlib.Core.List.{reverse}
use kubus_node.Jobs.{LocalJob, Jobs, is_queued}

-- `list`: newest first; the sort is stable.
place : LocalJob → List LocalJob → List LocalJob
place job [] = job ∷ []
place job (first ∷ jobs) =
    let rest = place job jobs in
    if leb first.created_at job.created_at then job ∷ first ∷ jobs else first ∷ rest

unfoldable pub list_jobs : Jobs → List LocalJob
unfolding place
list_jobs [] = []
list_jobs ((key, job) ∷ jobs) = place job (list_jobs jobs)

abbrev first_queued : List LocalJob → Option LocalJob
first_queued [] = none
first_queued (job ∷ jobs) = if is_queued job.state then some job else first_queued jobs

unfoldable pub next_job : Jobs → Option LocalJob
unfolding list_jobs
next_job jobs = first_queued (reverse (list_jobs jobs))

-- What `dispatch` changes: the map of running jobs, and the runs it has started.
pub record Dispatched : Type 0 where
  pub running_ids : Dict String (Unit {0})
  pub started : List String

-- The `while` loop, `none` where the fuel runs out. A started run changes the records only after
-- its first wait, so every round reads the same jobs.
unfoldable pub dispatch : ℕ → ℕ → Jobs → Dispatched → Option Dispatched
dispatch zero concurrency jobs d = none
dispatch (suc fuel) concurrency jobs d =
    if ltb (length d.running_ids) concurrency
    then elim (next_job jobs) [
      | none ↦ some d
      | some job ↦
          dispatch fuel concurrency jobs (record {
            running_ids = put d.running_ids job.id tt;
            started = d.started ++ job.id ∷ [];
          })
    ]
    else some d

abbrev pub idle : Dispatched
idle = record { running_ids = []; started = [] }

-- With one slot the loop ends after a round: it starts the job that has waited longest, if any.
dispatch_one :
    (fuel : ℕ) (jobs : Jobs)
    → dispatch (suc (suc fuel)) 1 jobs idle ≡ elim (next_job jobs) [
      | none ↦ some idle
      | some job ↦ some (record { running_ids = (job.id, tt) ∷ []; started = job.id ∷ [] })
    ]
unfolding dispatch put
dispatch_one fuel jobs = ground arith

-- The started job stays queued, and takes one entry of the map however often it is started.
dispatch_stuck :
    (fuel concurrency : ℕ) (jobs : Jobs) (job : LocalJob) (started : List String)
    → 1 < concurrency
    → next_job jobs ≡ some job
    → dispatch fuel concurrency jobs (record { running_ids = (job.id, tt) ∷ []; started = started })
      ≡ none
unfolding dispatch put
dispatch_stuck zero concurrency jobs job started more queue = refl
dispatch_stuck (suc fuel) concurrency jobs job started more queue =
    rw (lt→ltb 1 concurrency more, queue, dispatch, (eq_iff job.id job.id).1 refl)
      (dispatch_stuck fuel concurrency jobs job (started ++ job.id ∷ []) more queue)

-- With more than one slot the loop does not end once a job is queued: from an idle runtime every
-- number of rounds is used up.
pub dispatch_diverges :
    (fuel concurrency : ℕ) (jobs : Jobs) (job : LocalJob)
    → 1 < concurrency
    → next_job jobs ≡ some job
    → dispatch fuel concurrency jobs idle ≡ none
unfolding dispatch put
dispatch_diverges zero concurrency jobs job more queue = refl
dispatch_diverges (suc fuel) concurrency jobs job more queue =
    rw (lt→ltb 0 concurrency (omega arith), queue, dispatch)
      (dispatch_stuck fuel concurrency jobs job (job.id ∷ []) more queue)
