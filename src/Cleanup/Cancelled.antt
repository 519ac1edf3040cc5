-- ===== src/Cleanup/Cancelled.antt =====
-- src/compute/providerCleanup.ts: what a request for the cleanup settles.
use kubus_node.Base.{
  ℕ, String, str_eq, eq_iff, ◌≡◌, refl, sym, subst, inl, inr, Bool, true, false, ◌&&◌, Option, none,
  some, arith, Bool-cases, Option-cases, text_key, number_key, string_key, Dict, get, put, get-put,
  get-put_self,
}
use kubus_node.Cleanup.{complete, is_complete}
use kubus_node.Cleanup.Provider.{
  ProviderCleanupState, RemoteRuntimeRecord, ProviderState, RemoteComputeJob, own, request,
  is_provider, fresh,
}
use kubus_node.Cleanup.Deletion.{
  Findings, obstacle, is_released, release_pin, release, release_plaintext,
}

-- The cleanup of the job is asked for.
abbrev pub is_requested : Option RemoteRuntimeRecord → Bool
is_requested none = false
is_requested (some current) = elim current.cleanup [
  | none ↦ false
  | some cleanup ↦ cleanup.requested
]

-- What is asked for in the jobs stays so in the others.
abbrev pub Keeps : Dict String RemoteRuntimeRecord → Dict String RemoteRuntimeRecord → Type 0
Keeps jobs others =
    (id : String) → is_requested (get jobs id) ≡ true → is_requested (get others id) ≡ true

Keeps-put :
    (jobs : Dict String RemoteRuntimeRecord) (key : String) (value : RemoteRuntimeRecord)
    → (is_requested (get jobs key) ≡ true → is_requested (some value) ≡ true)
    → Keeps jobs (put jobs key value)
Keeps-put jobs key value asked id h = elim (Bool-cases (str_eq key id)) [
  | inl hit ↦
      rw (get-put, hit)
        (asked (subst (λ k. is_requested (get jobs k) ≡ true) (sym ((eq_iff key id).0 hit)) h))
  | inr miss ↦ rw (get-put, miss) h
]

-- A new record for a key that has one, if the new one is asked for where the old one was.
Keeps-known :
    (jobs : Dict String RemoteRuntimeRecord) (key : String) (current value : RemoteRuntimeRecord)
    → get jobs key ≡ some current
    → (is_requested (some current) ≡ true → is_requested (some value) ≡ true)
    → Keeps jobs (put jobs key value)
Keeps-known jobs key current value known asked =
    Keeps-put jobs key value (λ h. asked (subst (λ found. is_requested found ≡ true) known h))

Keeps-release_pin :
    (id : String) (found : Findings) (current : RemoteRuntimeRecord)
    (cleanup : ProviderCleanupState) (state : ProviderState)
    → get state.remote_jobs id ≡ some current
    → cleanup.requested ≡ true
    → Keeps state.remote_jobs (release_pin id found current cleanup state).0.remote_jobs
Keeps-release_pin id found current cleanup state known asked =
    elim (Option-cases (is_released found.pin_released cleanup)) [
      | inl unasked ↦ rw (unasked, release_pin) (λ k h. h)
      | inr (true, done) ↦
          rw (done, release_pin) (Keeps-known state.remote_jobs id current _ known (λ h. asked))
      | inr (false, failed) ↦
          rw (failed, release_pin) (Keeps-known state.remote_jobs id current _ known (λ h. asked))
    ]

Keeps-release_plaintext :
    (id capture_id expected : String) (found : Findings) (now : ℕ) (current : RemoteRuntimeRecord)
    (cleanup : ProviderCleanupState) (state : ProviderState)
    → get state.remote_jobs id ≡ some current
    → cleanup.requested ≡ true
    → Keeps state.remote_jobs
        (release_plaintext id capture_id expected found now current cleanup state).0.remote_jobs
Keeps-release_plaintext id capture_id expected found now current cleanup state known asked =
    elim (Option-cases (obstacle found capture_id expected current state)) [
      | inr (e, hindered) ↦
          rw (hindered, release_plaintext)
            (Keeps-known state.remote_jobs id current _ known (λ h. asked))
      | inl clear ↦
          rw (clear, release_plaintext)
            (λ k h.
              Keeps-release_pin id found
                (record current {
                  updated_at = now;
                  cleanup = some (record cleanup { plaintext = complete; reason = none });
                })
                (record cleanup { plaintext = complete; reason = none }) _
                (get-put_self state.remote_jobs id _) asked k
                (Keeps-known state.remote_jobs id current _ known (λ h. asked) k h))
    ]

pub Keeps-request :
    (id : String) (now : ℕ) (state : ProviderState)
    → Keeps state.remote_jobs (request id now state).0.remote_jobs
unfolding request
Keeps-request id now state = elim (Option-cases (get state.remote_jobs id)) [
  | inl missing ↦ rw (missing, request) (λ k h. h)
  | inr (current, known) ↦ go current known current.cleanup refl
]
  where
    go :
        (current : RemoteRuntimeRecord)
        → get state.remote_jobs id ≡ some current
        → (cleanup : Option ProviderCleanupState) → current.cleanup ≡ cleanup
        → Keeps state.remote_jobs (request id now state).0.remote_jobs
    go current known none legacy = λ k h. ground (arith, known, legacy)
    go current known (some cleanup) journaled = elim (Bool-cases (is_provider current.role)) [
      | inl ours ↦ λ k h. ground (
        arith,
        known,
        journaled,
        ours,
        Keeps-known state.remote_jobs id current
            (record current {
              updated_at = now;
              cleanup = some (record cleanup { requested = true });
            })
            known (λ h. refl) k h,
      )
      | inr other ↦ λ k h. ground (arith, known, journaled, other)
    ]

module _ (is_job_id : String → Bool) (remote_capture input_owner : String → String) where
  pub Keeps-own :
      (job : RemoteComputeJob) (now : ℕ) (state : ProviderState)
      → Keeps state.remote_jobs
          (own is_job_id remote_capture input_owner job now state).0.remote_jobs
  unfolding own
  Keeps-own job now state = elim (Option-cases job.expires_at) [
    | inl undated ↦ λ k h. ground (arith, undated)
    | inr (expires_at, dated) ↦ elim (Option-cases (get state.remote_jobs job.id)) [
      | inl new ↦ λ k h. ground (
        arith,
        dated,
        new,
        Keeps-put state.remote_jobs job.id
            (fresh is_job_id remote_capture input_owner job expires_at now)
            (λ asked. absurd (ground arith)) k h,
      )
      | inr (previous, known) ↦ λ k h. ground (
        arith,
        dated,
        known,
        Keeps-known state.remote_jobs job.id previous previous known (λ asked. asked) k h,
      )
    ]
  ]

module _ (is_job_id : String → Bool) (remote_capture capture_directory : String → String) where
  pub Keeps-release :
      (id : String) (found : Findings) (now : ℕ) (state : ProviderState)
      → Keeps state.remote_jobs
          (release is_job_id remote_capture capture_directory id found now state).0.remote_jobs
  unfolding release
  Keeps-release id found now state = elim (Option-cases (get state.remote_jobs id)) [
    | inl missing ↦ rw (missing, release) (λ k h. h)
    | inr (current, known) ↦ go current known current.cleanup refl
  ]
    where
      go :
          (current : RemoteRuntimeRecord)
          → get state.remote_jobs id ≡ some current
          → (cleanup : Option ProviderCleanupState) → current.cleanup ≡ cleanup
          → Keeps state.remote_jobs
              (release is_job_id remote_capture capture_directory id found now state).0.remote_jobs
      go current known none legacy = λ k h. ground (arith, known, legacy)
      go current known (some cleanup) journaled =
          elim (Bool-cases (is_provider current.role && (cleanup.requested && is_job_id id))) [
            | inr unowned ↦ λ k h. ground (arith, known, journaled)
            | inl owned ↦ elim (Bool-cases (is_complete cleanup.plaintext)) [
              | inl gone ↦ λ k h. ground (
                arith,
                known,
                journaled,
                Keeps-release_pin id found current cleanup state known (ground arith) k h,
              )
              | inr there ↦ λ k h. ground (
                arith,
                known,
                journaled,
                Keeps-release_plaintext id (remote_capture id) (capture_directory id) found now
                    current cleanup state known (ground arith) k h,
              )
            ]
          ]
