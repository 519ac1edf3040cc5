-- ===== src/Jobs/Once.antt =====
-- src/jobs/jobRuntime.ts, `create`: asking twice for one reconstruction.
use kubus_node.Base.{
  ℕ, String, eq_iff, ◌≡◌, ◌∙◌, true, none, some, [], ◌∷◌, arith, text_key, number_key, string_key,
  get, put,
}
use kubus_node.Jobs.{
  reconstruct, JobInput, LocalJob, Jobs, reconstructs_capture, active_reconstruction, new_job,
}
use kubus_node.Jobs.Create.{insert, granted, Answers, create, create_for, create_reconstruction}

active_reconstruction-put :
    (jobs : Jobs) (id capture_id : String) (job : LocalJob)
    → get jobs id ≡ none
    → active_reconstruction jobs capture_id ≡ none
    → reconstructs_capture capture_id job ≡ true
    → active_reconstruction (put jobs id job) capture_id ≡ some job
unfolding active_reconstruction get put
active_reconstruction-put [] id capture_id job fresh idle active = rw active
active_reconstruction-put ((key, first) ∷ jobs) id capture_id job fresh idle active =
    ground (arith, active_reconstruction-put jobs id capture_id job)

module _ (answers : Answers) (input : JobInput) (capture_id : String)
    (target : input.capture_id ≡ some capture_id) where
  create_reconstruction-active :
      (id : String) (now : ℕ) (jobs after : Jobs) (job : LocalJob)
      → get jobs id ≡ none
      → create_reconstruction answers id reconstruct input capture_id now jobs ≡ granted after job
      → active_reconstruction after capture_id ≡ some job
  unfolding create_reconstruction insert
  create_reconstruction-active id now jobs after job fresh h = ground (
    arith,
    target,
    eq_iff capture_id capture_id,
    active_reconstruction-put jobs id capture_id (new_job id reconstruct input now) fresh,
  )

  create-passes :
      (id again : String) (now later : ℕ) (jobs after others : Jobs) (job : LocalJob)
      → create answers id reconstruct input now jobs ≡ granted after job
      → (create_reconstruction answers id reconstruct input capture_id now jobs ≡ granted after job)
        × (create answers again reconstruct input later others
            ≡ create_reconstruction answers again reconstruct input capture_id later others)
  unfolding create create_for
  create-passes id again now later jobs after others job h = ground arith

-- While an attempt is active, asking again to reconstruct the same capture gives the same job and
-- queues nothing.
create_again :
    (answers : Answers) (input : JobInput) (capture_id id again : String) (now later : ℕ)
    (jobs after : Jobs) (job : LocalJob)
    → input.capture_id ≡ some capture_id
    → get jobs id ≡ none
    → create answers id reconstruct input now jobs ≡ granted after job
    → create answers again reconstruct input later after ≡ granted after job
unfolding create_reconstruction
create_again answers input capture_id id again now later jobs after job target fresh h =
    let (first, second) =
      create-passes answers input capture_id target id again now later jobs after after job h in
    let active =
      create_reconstruction-active answers input capture_id target id now jobs after job fresh
        first in
    second ∙ rw (active, create_reconstruction)
