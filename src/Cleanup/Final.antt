-- ===== src/Cleanup/Final.antt =====
-- src/compute/providerCleanup.ts: a request for the cleanup is final.
use kubus_node.Base.{
  ℕ, String, ◌≡◌, inl, inr, Bool, true, false, none, some, List, [], ◌∷◌, arith, Bool-cases,
  Option-cases, is_some, text_key, number_key, string_key, get, get-put_self,
}
use kubus_node.Cleanup.Provider.{
  ProviderState, RemoteComputeJob, own, may_prepare, request, is_provider,
}
use kubus_node.Cleanup.Deletion.{Findings, release}
use kubus_node.Cleanup.Cancelled.{is_requested, Keeps, Keeps-own, Keeps-request, Keeps-release}

-- One call that reaches the local state.
pub data Call : Type 0 where
  owns : (job : RemoteComputeJob) (now : ℕ) → Call
  requests : (id : String) (now : ℕ) → Call
  releases : (id : String) (found : Findings) (now : ℕ) → Call

may_prepare-is_requested :
    (id : String) (now : ℕ) (state : ProviderState)
    → is_requested (get state.remote_jobs id) ≡ true
    → may_prepare id now state ≡ false
unfolding may_prepare
may_prepare-is_requested id now state h = elim (Option-cases (get state.remote_jobs id)) [
  | inl missing ↦ absurd (ground arith)
  | inr (current, known) ↦ elim (Option-cases current.cleanup) [
    | inl legacy ↦ absurd (ground arith)
    | inr (cleanup, journaled) ↦ ground (arith, known, journaled)
  ]
]

request-is_requested :
    (id : String) (now : ℕ) (state : ProviderState)
    → (request id now state).1 ≡ none
    → is_requested (get (request id now state).0.remote_jobs id) ≡ true
unfolding request
request-is_requested id now state went = elim (Option-cases (get state.remote_jobs id)) [
  | inl missing ↦ absurd (ground arith)
  | inr (current, known) ↦ elim (Option-cases current.cleanup) [
    | inl legacy ↦ absurd (ground arith)
    | inr (cleanup, journaled) ↦ elim (Bool-cases (is_provider current.role)) [
      | inr other ↦ absurd (ground arith)
      | inl ours ↦ ground (
        arith,
        known,
        journaled,
        ours,
        get-put_self state.remote_jobs id (record current {
          updated_at = now;
          cleanup = some (record cleanup { requested = true });
        }),
      )
    ]
  ]
]

module _ (is_job_id : String → Bool)
    (remote_capture input_owner capture_directory : String → String) where
  own-is_requested :
      (job : RemoteComputeJob) (now : ℕ) (state : ProviderState)
      → is_requested (get state.remote_jobs job.id) ≡ true
      → is_some (own is_job_id remote_capture input_owner job now state).1 ≡ true
  unfolding own
  own-is_requested job now state h = elim (Option-cases (get state.remote_jobs job.id)) [
    | inl missing ↦ absurd (ground arith)
    | inr (current, known) ↦ elim (Option-cases current.cleanup) [
      | inl legacy ↦ absurd (ground arith)
      | inr (cleanup, journaled) ↦ ground (arith, known, journaled)
    ]
  ]

  abbrev pub step : ProviderState → Call → ProviderState
  step state (owns job now) = (own is_job_id remote_capture input_owner job now state).0
  step state (requests id now) = (request id now state).0
  step state (releases id found now) =
      (release is_job_id remote_capture capture_directory id found now state).0

  abbrev pub run : ProviderState → List Call → ProviderState
  run state [] = state
  run state (call ∷ calls) = run (step state call) calls

  Keeps-step :
      (state : ProviderState) (call : Call) → Keeps state.remote_jobs (step state call).remote_jobs
  Keeps-step state (owns job now) = Keeps-own is_job_id remote_capture input_owner job now state
  Keeps-step state (requests id now) = Keeps-request id now state
  Keeps-step state (releases id found now) =
      Keeps-release is_job_id remote_capture capture_directory id found now state

  Keeps-run :
      (state : ProviderState) (calls : List Call)
      → Keeps state.remote_jobs (run state calls).remote_jobs
  Keeps-run state [] id h = h
  Keeps-run state (call ∷ calls) id h =
      Keeps-run (step state call) calls id (Keeps-step state call id h)

  -- A request for the cleanup of a job is final: after it went through, and whatever calls follow,
  -- the preparation of the job may not go on and the provider does not take the job again.
  pub request-own :
      (job : RemoteComputeJob) (asked now later : ℕ) (state : ProviderState) (calls : List Call)
      → (request job.id asked state).1 ≡ none
      → (may_prepare job.id now (run (request job.id asked state).0 calls) ≡ false)
        × (is_some
              (own is_job_id remote_capture input_owner job later
                (run (request job.id asked state).0 calls)).1
            ≡ true)
  request-own job asked now later state calls went =
      let after = run (request job.id asked state).0 calls in
      let kept =
        Keeps-run (request job.id asked state).0 calls job.id
          (request-is_requested job.id asked state went) in
      (may_prepare-is_requested job.id now after kept, own-is_requested job later after kept)
