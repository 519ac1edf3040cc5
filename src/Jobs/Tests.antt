-- ===== src/Jobs/Tests.antt =====
-- src/jobs/jobRuntime.ts: runs of the queue, and the theorems at concrete jobs.
use kubus_node.Base.{
  String, ◌≡◌, refl, true, false, none, some, [], ◌∷◌, arith, text_key, number_key, string_key, get,
  put,
}
use kubus_node.Jobs.{
  reconstruct, optimize, JobInput, LocalJob, Jobs, is_running, active_reconstruction, new_job,
}
use kubus_node.Jobs.Create.{
  insert, granted, refused, worker_cleanup_pending, job_capture_required, Answers, create,
  create_for, create_reconstruction,
}
use kubus_node.Jobs.Patches.{
  cancel, patch_job, begins, apply, start, new_runtime, Reach, here, next, inserted, cancelled_by,
  dispatched, patched, starts, cancel_job,
}
use kubus_node.Jobs.Active.{OneActive, Reach-OneActive}
use kubus_node.Jobs.Final.{IsRecovered, Reach-get, start-recovers}
use kubus_node.Jobs.Dispatch.{next_job, dispatch, dispatch_diverges, idle}

queue : Unit {0}
unfolding insert create create_for create_reconstruction active_reconstruction cancel patch_job
    apply start get put
queue = tt

abbrev scan : JobInput
scan = record { capture_id = some "c1"; remote_compute_job_id = none }

abbrev waiting_job : LocalJob
waiting_job = new_job "j1" reconstruct scan 10

abbrev waiting : Jobs
waiting = ("j1", waiting_job) ∷ []

abbrev willing : Answers
willing = record {
  cleanup_blocked = false;
  participates = false;
  capture_stored = λ capture_id. true;
  inspection = λ capture_id. none;
}

created : create willing "j1" reconstruct scan 10 [] ≡ granted waiting waiting_job
unfolding queue
created = refl

refusals :
    (create (record willing { cleanup_blocked = true }) "j1" reconstruct scan 10 []
      ≡ refused worker_cleanup_pending)
    × (create willing "j1" optimize (record scan { capture_id = none }) 10 []
        ≡ refused job_capture_required)
unfolding queue
refusals = (refl, refl)

abbrev later_job : LocalJob
later_job = new_job "j2" reconstruct scan 30

-- A run begins, its job is cancelled, and another one for the same capture is queued; the first run
-- is still open.
cancelled_then_asked : Reach new_runtime (record {
  jobs = ("j1", cancel_job 20 (apply (begins 12) waiting_job)) ∷ ("j2", later_job) ∷ [];
  running_ids = ("j1", tt) ∷ [];
})
unfolding queue
cancelled_then_asked =
    next
      (next
        (next
          (next (next here (inserted "j1" reconstruct scan (some "c1") 10 refl refl))
            (dispatched "j1" waiting_job refl refl refl))
          (patched "j1" (begins 12) refl refl))
        (cancelled_by "j1" 20))
      (inserted "j2" reconstruct scan (some "c1") 30 refl refl)

-- Its next patch is refused.
late_patch :
    patch_job "j1"
      (apply (starts 40))
      (("j1", cancel_job 20 (apply (begins 12) waiting_job)) ∷ ("j2", later_job) ∷ [])
    ≡ none
unfolding queue
late_patch = refl

Reach-OneActive_example :
    OneActive (("j1", cancel_job 20 (apply (begins 12) waiting_job)) ∷ ("j2", later_job) ∷ [])
Reach-OneActive_example = Reach-OneActive cancelled_then_asked

abbrev ended_job : LocalJob
ended_job = cancel_job 20 (apply (begins 12) waiting_job)

Reach-get_example :
    get (cancel "j1" 50 (("j1", ended_job) ∷ ("j2", later_job) ∷ [])) "j1" ≡ some ended_job
Reach-get_example =
    Reach-get "j1" ended_job cancelled_then_asked (next here (cancelled_by "j1" 50)) refl found
  where
    found : get {K = String} (("j1", ended_job) ∷ ("j2", later_job) ∷ []) "j1" ≡ some ended_job
    found = unfold get in refl

start-recovers_example :
    (after : LocalJob) × (get (start (λ id. true) 30 waiting) "j1" ≡ some after)
    × (is_running after.state ≡ false)
    × IsRecovered (λ id. true) 30 waiting_job after
start-recovers_example = start-recovers (λ id. true) 30 waiting "j1" waiting_job found
  where
    found : get waiting "j1" ≡ some waiting_job
    found = unfold get in refl

first_of_two :
    next_job (("b", record waiting_job { id = "b"; created_at = 20 }) ∷ waiting) ≡ some waiting_job
unfolding next_job
first_of_two = refl

dispatch_diverges_example : dispatch 50 2 waiting idle ≡ none
unfolding next_job
dispatch_diverges_example = dispatch_diverges 50 2 waiting waiting_job (omega arith) refl
