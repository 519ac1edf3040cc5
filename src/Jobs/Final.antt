-- ===== src/Jobs/Final.antt =====
-- src/jobs/jobRuntime.ts: a job that has ended stays as it is.
use kubus_node.Base.{
  ℕ, String, str_eq, ◌≡◌, refl, sym, ap, ◌∙◌, subst, ◌≢◌, ◌⊎◌, inl, inr, Bool, true, false, ◌&&◌,
  ◌||◌, Option, none, some, [], ◌∷◌, arith, if◌then◌else◌, Bool-cases, Option-cases, text_key,
  number_key, string_key, get, put, get-put_ne,
}
use kubus_node.Jobs.{
  JobType, JobInput, LocalJob, Jobs, failed, is_active, is_queued, is_running,
  active_reconstruction, new_job,
}
use mathlib.Core.Option.{some-injective}
use kubus_node.Jobs.Create.{insert}
use kubus_node.Jobs.Patches.{
  cancel, cancel_job, start, interrupt, apply, Runtime, new_runtime, Step, inserted, cancelled_by,
  dispatched, patched, returned, restarted, Reach, here, next,
}
use kubus_node.Jobs.Runs.{IsOpen, patched-IsPatch, Reach-IsOpen, new_runtime-IsOpen}

module _ {ended : LocalJob} (over : is_active ended.state ≡ false) where
  insert-get :
      (jobs : Jobs) (key id : String) (type : JobType) (input : JobInput)
      (reconstructs : Option String) (now : ℕ)
      → get jobs id ≡ none
      → get jobs key ≡ some ended
      → get (insert id type input reconstructs now jobs).0 key ≡ some ended
  unfolding insert
  insert-get jobs key id type input none now fresh found =
      get-put_ne jobs id (new_job id type input now) (λ e. cc) ∙ found
  insert-get jobs key id type input (some c) now fresh found =
      elim (Option-cases (active_reconstruction jobs c)) [
        | inl idle ↦
            rw (idle, insert)
              (get-put_ne jobs id (new_job id type input now) {other = key} (λ e. cc) ∙ found)
        | inr (job, busy) ↦ rw (busy, insert) found
      ]

  -- A write to a job that is still active leaves an ended one alone.
  put-get :
      (jobs : Jobs) (key id : String) (job old : LocalJob)
      → get jobs id ≡ some old
      → is_active old.state ≡ true
      → get jobs key ≡ some ended
      → get (put jobs id job) key ≡ some ended
  put-get jobs key id job old found active known =
      get-put_ne jobs id job {other = key}
        (λ e. apart (some-injective _ _ (sym found ∙ ap (get jobs) e ∙ known)))
      ∙ known
    where
      apart : old ≢ ended
      apart e = cc (ap (λ (j : LocalJob). is_active j.state) e)

  cancel-get :
      (jobs : Jobs) (key id : String) (now : ℕ)
      → get jobs key ≡ some ended
      → get (cancel id now jobs) key ≡ some ended
  unfolding cancel
  cancel-get jobs key id now known = elim (Option-cases (get jobs id)) [
    | inl missing ↦ rw (missing, cancel) known
    | inr (job, found) ↦ elim (Bool-cases (is_active job.state)) [
      | inl active ↦
          rw (found, cancel, active)
            (put-get jobs key id (cancel_job now job) job found active known)
      | inr over' ↦ rw (found, cancel, over') known
    ]
  ]

  start-get :
      (jobs : Jobs) (key : String) (journaled : String → Bool) (now : ℕ)
      → get jobs key ≡ some ended
      → get (start journaled now jobs) key ≡ some ended
  unfolding start get
  start-get [] key journaled now known = known
  start-get ((at, job) ∷ jobs) key journaled now known = elim (Bool-cases (str_eq at key)) [
    | inl hit ↦
        let same : job ≡ ended = some-injective _ _ (ground arith) in rw (hit, same) (ground arith)
    | inr miss ↦ rw miss (start-get jobs key journaled now (ground arith))
  ]

  Step-get :
      {runtime after : Runtime} (key : String)
      → Step runtime after
      → IsOpen runtime
      → get runtime.jobs key ≡ some ended
      → get after.jobs key ≡ some ended
  Step-get {runtime} key (inserted id type input reconstructs now fresh target) holds known =
      insert-get runtime.jobs key id type input reconstructs now fresh known
  Step-get {runtime} key (cancelled_by id now) holds known =
      cancel-get runtime.jobs key id now known
  Step-get {runtime} key (dispatched id job waiting waits idle) holds known = known
  Step-get {runtime} key (patched {after} id patch running result) holds known =
      let p = patched-IsPatch runtime id patch after holds running result in
      subst (λ z. get z key ≡ some ended) p.written
        (put-get runtime.jobs key id (apply patch p.job) p.job p.known p.active known)
  Step-get {runtime} key (returned id) holds known = known
  Step-get {runtime} key (restarted journaled now) holds known =
      start-get runtime.jobs key journaled now known

  Reach-kept :
      {runtime after : Runtime} (key : String)
      → IsOpen runtime
      → Reach runtime after
      → get runtime.jobs key ≡ some ended
      → get after.jobs key ≡ some ended
  Reach-kept key holds here known = known
  Reach-kept key holds (next before step) known =
      Step-get key step (Reach-IsOpen before holds) (Reach-kept key holds before known)

-- A job of the runtime that is completed, failed or cancelled keeps its whole record, whatever is
-- inserted, cancelled, dispatched, patched by the runs (its own late ones too) or recovered after a
-- restart from then on. (As for the active jobs, an inserted job has a fresh id, and a run is started
-- only for a queued job that has none.)
pub Reach-get :
    {runtime after : Runtime} (key : String) (ended : LocalJob)
    → Reach new_runtime runtime
    → Reach runtime after
    → is_active ended.state ≡ false
    → get runtime.jobs key ≡ some ended
    → get after.jobs key ≡ some ended
Reach-get key ended before later over known =
    Reach-kept over key (Reach-IsOpen before new_runtime-IsOpen) later known

-- What the recovery makes of a job: one that is running, or queued with a cleanup record, is failed,
-- with an error and an end; any other stays as it was.
pub record IsRecovered (journaled : String → Bool) (now : ℕ) (job after : LocalJob) : Type 0 where
  pub lost :
      (is_running job.state ≡ true) ⊎ ((is_queued job.state ≡ true) × (journaled job.id ≡ true))
      → (after.state ≡ failed)
        × (after.completed_at ≡ some now)
        × (after.error ≢ none)
        × (after.input ≡ job.input)
  pub kept :
      is_running job.state ≡ false
      → (is_queued job.state ≡ false) ⊎ (journaled job.id ≡ false)
      → after ≡ job

-- The job after the recovery.
abbrev recover : (String → Bool) → ℕ → LocalJob → LocalJob
recover journaled now job =
    if is_running job.state || is_queued job.state && journaled job.id
    then interrupt now job
    else job

recover-IsRecovered :
    (journaled : String → Bool) (now : ℕ) (job : LocalJob)
    → (is_running (recover journaled now job).state ≡ false)
      × IsRecovered journaled now job (recover journaled now job)
recover-IsRecovered journaled now job =
    elim (Bool-cases (is_running job.state || is_queued job.state && journaled job.id)) [
      | inl stops ↦ rw stops (
        refl,
        record {
          lost = λ h. (refl, refl, (λ e. ground (e, arith)), refl);
          kept = λ h k. absurd (ground arith);
        },
      )
      | inr stays ↦
          rw stays (ground arith, record { lost = λ h. absurd (ground arith); kept = λ h k. refl })
    ]

get-start :
    (journaled : String → Bool) (now : ℕ) (jobs : Jobs) (key : String) (job : LocalJob)
    → get jobs key ≡ some job
    → get (start journaled now jobs) key ≡ some (recover journaled now job)
unfolding start get
get-start journaled now [] key job known = absurd (ground arith)
get-start journaled now ((at, first) ∷ jobs) key job known = elim (Bool-cases (str_eq at key)) [
  | inl hit ↦ let same : first ≡ job = some-injective _ _ (ground arith) in rw (hit, same) refl
  | inr miss ↦ rw miss (get-start journaled now jobs key job (ground arith))
]

-- The recovery of a restart fails every job that was running or had a cleanup record while it waited,
-- and keeps every other job as it was: none is lost, and none is running afterwards.
pub start-recovers :
    (journaled : String → Bool) (now : ℕ) (jobs : Jobs) (key : String) (job : LocalJob)
    → get jobs key ≡ some job
    → (after : LocalJob) × (get (start journaled now jobs) key ≡ some after)
      × (is_running after.state ≡ false)
      × IsRecovered journaled now job after
start-recovers journaled now jobs key job known =
    let (still, recovered) = recover-IsRecovered journaled now job in
    (recover journaled now job, get-start journaled now jobs key job known, still, recovered)
