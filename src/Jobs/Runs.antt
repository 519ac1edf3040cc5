-- ===== src/Jobs/Runs.antt =====
-- src/jobs/jobRuntime.ts: the job of a run that may still patch it is queued, running or cancelled.
use kubus_node.Base.{
  ℕ, String, str_eq, eq_iff, ◌≡◌, refl, ◌∙◌, subst, inl, inr, Bool, true, false, ◌||◌, Option, none,
  some, [], arith, if◌then◌else◌, Bool-cases, Option-cases, text_key, number_key, string_key, get,
  put, remove, get-put, get-put_ne, get-remove,
}
use kubus_node.Jobs.{
  JobType, JobInput, LocalJob, Jobs, is_active, is_cancelled, active_reconstruction, new_job,
}
use kubus_node.Jobs.Create.{insert}
use kubus_node.Jobs.Patches.{
  cancel, cancel_job, patch_job, Patch, begins, starts, trains, imports, readies, finishes, fails,
  apply, is_last, Runtime, new_runtime, after_patch, Step, inserted, cancelled_by, dispatched,
  patched, returned, restarted, Reach, here, next,
}

-- A job that its run has not ended.
abbrev pub may_end : LocalJob → Bool
may_end job = is_active job.state || is_cancelled job.state

abbrev pub IsPending : Jobs → String → Type 0
IsPending jobs id = (job : LocalJob) × (get jobs id ≡ some job) × (may_end job ≡ true)

abbrev pub IsOpen : Runtime → Type 0
IsOpen runtime = (id : String) → get runtime.running_ids id ≡ some tt → IsPending runtime.jobs id

put_new-IsPending :
    (jobs : Jobs) (id other : String) (job : LocalJob)
    → get jobs id ≡ none
    → IsPending jobs other
    → IsPending (put jobs id job) other
put_new-IsPending jobs id other job fresh (old, known, pending) =
    (old, get-put_ne jobs id job {other = other} (λ e. cc) ∙ known, pending)

insert-IsPending :
    (jobs : Jobs) (id other : String) (type : JobType) (input : JobInput)
    (reconstructs : Option String) (now : ℕ)
    → get jobs id ≡ none
    → IsPending jobs other
    → IsPending (insert id type input reconstructs now jobs).0 other
unfolding insert
insert-IsPending jobs id other type input none now fresh p =
    put_new-IsPending jobs id other (new_job id type input now) fresh p
insert-IsPending jobs id other type input (some c) now fresh p =
    elim (Option-cases (active_reconstruction jobs c)) [
      | inl idle ↦
          rw (idle, insert) (put_new-IsPending jobs id other (new_job id type input now) fresh p)
      | inr (job, busy) ↦ rw (busy, insert) p
    ]

put-IsPending :
    (jobs : Jobs) (id other : String) (job : LocalJob)
    → (str_eq id other ≡ true → may_end job ≡ true)
    → IsPending jobs other
    → IsPending (put jobs id job) other
put-IsPending jobs id other job still (old, known, pending) = elim (Bool-cases (str_eq id other)) [
  | inl same ↦ (job, get-put jobs id job other ∙ rw same refl, still same)
  | inr apart ↦ (old, get-put jobs id job other ∙ rw apart known, pending)
]

cancel-IsPending :
    (jobs : Jobs) (id other : String) (now : ℕ)
    → IsPending jobs other
    → IsPending (cancel id now jobs) other
unfolding cancel
cancel-IsPending jobs id other now p = elim (Option-cases (get jobs id)) [
  | inl missing ↦ rw (missing, cancel) p
  | inr (job, found) ↦ elim (Bool-cases (is_active job.state)) [
    | inl active ↦
        rw (found, cancel, active) (put-IsPending jobs id other (cancel_job now job) (λ e. refl) p)
    | inr ended ↦ rw (found, cancel, ended) p
  ]
]

-- A patch that is not the last of its run leaves an active job active.
apply-may_end :
    (patch : Patch) (job : LocalJob)
    → is_last patch ≡ false
    → is_active job.state ≡ true
    → may_end (apply patch job) ≡ true
unfolding apply
apply-may_end (begins now) job going active = refl
apply-may_end (starts now) job going active = ground arith
apply-may_end (trains now) job going active = ground arith
apply-may_end (imports now) job going active = ground arith
apply-may_end (readies message now) job going active = ground arith
apply-may_end (finishes spatial now) job going active = absurd (ground arith)
apply-may_end (fails aborted error now) job going active = absurd (ground arith)

-- What a patch of an open run has found: `patchJob` lets it write only to an active job.
pub record IsPatch (runtime : Runtime) (id : String) (patch : Patch) (after : Jobs) : Type 0 where
  pub job : LocalJob
  pub known : get runtime.jobs id ≡ some job
  pub active : is_active job.state ≡ true
  pub written : put runtime.jobs id (apply patch job) ≡ after

pub patched-IsPatch :
    (runtime : Runtime) (id : String) (patch : Patch) (after : Jobs)
    → IsOpen runtime
    → get runtime.running_ids id ≡ some tt
    → patch_job id (apply patch) runtime.jobs ≡ some after
    → IsPatch runtime id patch after
unfolding patch_job
patched-IsPatch runtime id patch after holds running result =
    let p = holds id running in
    record {
      job = p.0;
      known = p.1;
      active = ground (arith, p.1, p.2);
      written = ground (arith, p.1, p.2);
    }

patched-IsOpen :
    (runtime : Runtime) (id : String) (patch : Patch) (after : Jobs)
    → IsOpen runtime
    → IsPatch runtime id patch after
    → IsOpen (record { jobs = after; running_ids = after_patch patch id runtime.running_ids })
patched-IsOpen runtime id patch after holds p other running = elim (Bool-cases (is_last patch)) [
  | inl last ↦
      let still : get (remove runtime.running_ids id) other ≡ some tt =
        subst
          (λ b.
            get (if b then remove runtime.running_ids id else runtime.running_ids) other ≡ some tt)
          last running in
      let apart : str_eq id other ≡ false =
        ground (arith, get-remove runtime.running_ids id other) in
      let open_run : get runtime.running_ids other ≡ some tt =
        ground (arith, get-remove runtime.running_ids id other) in
      subst (λ jobs. IsPending jobs other) p.written
        (put-IsPending runtime.jobs id other (apply patch p.job) (λ e. ground (arith, apart))
          (holds other open_run))
  | inr going ↦
      let open_run : get runtime.running_ids other ≡ some tt =
        subst
          (λ b.
            get (if b then remove runtime.running_ids id else runtime.running_ids) other ≡ some tt)
          going running in
      subst (λ jobs. IsPending jobs other) p.written
        (put-IsPending runtime.jobs id other (apply patch p.job)
          (λ e. apply-may_end patch p.job going p.active) (holds other open_run))
]

no_run : (id : String) → get {K = String} {V = Unit {0}} [] id ≡ none
unfolding get
no_run id = refl

Step-IsOpen : {runtime after : Runtime} → Step runtime after → IsOpen runtime → IsOpen after
Step-IsOpen {runtime} (inserted id type input reconstructs now fresh target) holds =
    λ other running.
      insert-IsPending runtime.jobs id other type input reconstructs now fresh (holds other running)
Step-IsOpen {runtime} (cancelled_by id now) holds =
    λ other running. cancel-IsPending runtime.jobs id other now (holds other running)
Step-IsOpen {runtime} (dispatched id job known waits idle) holds = λ other running.
    elim (Bool-cases (str_eq id other)) [
      | inl same ↦ (
        job,
        subst (λ v. get runtime.jobs v ≡ some job) ((eq_iff id other).0 same) known,
        ground arith,
      )
      | inr apart ↦ holds other (ground (arith, get-put runtime.running_ids id tt other))
    ]
Step-IsOpen {runtime} (patched {after} id patch running result) holds =
    patched-IsOpen runtime id patch after holds
      (patched-IsPatch runtime id patch after holds running result)
Step-IsOpen {runtime} (returned id) holds =
    λ other running. holds other (ground (arith, get-remove runtime.running_ids id other))
Step-IsOpen {runtime} (restarted journaled now) holds =
    λ other running. absurd (ground (arith, no_run other))

pub Reach-IsOpen : {runtime after : Runtime} → Reach runtime after → IsOpen runtime → IsOpen after
Reach-IsOpen here holds = holds
Reach-IsOpen (next before step) holds = Step-IsOpen step (Reach-IsOpen before holds)

pub new_runtime-IsOpen : IsOpen new_runtime
new_runtime-IsOpen id running = absurd (ground (arith, no_run id))
