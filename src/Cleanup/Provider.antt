-- ===== src/Cleanup/Provider.antt =====
-- src/compute/providerCleanup.ts: what a provider holds for another node's job.
use kubus_node.Base.{
  ℕ, String, str_eq, Bool, true, false, not, ◌&&◌, ◌||◌, Option, none, some, ltb, if◌then◌else◌,
  text_key, number_key, string_key, Dict, get, put,
}
use kubus_node.Cleanup.{CleanupState, pending, is_complete}

pub record ProviderCleanupState : Type 0 where
  pub input_cid : String
  pub expires_at : ℕ
  pub requested : Bool
  pub plaintext : CleanupState
  pub input_pin_release_pending : Bool
  pub pin_owner : Option String
  pub reason : Option String

pub data Role : Type 0 where
  requester provider : Role

abbrev pub is_provider : Role → Bool
is_provider provider = true
is_provider requester = false

pub record RemoteRuntimeRecord : Type 0 where
  pub backend_job_id : String
  pub local_job_id : Option String
  pub capture_id : Option String
  pub role : Role
  pub updated_at : ℕ
  pub cleanup : Option ProviderCleanupState

-- `remoteJobs`, and the directories of `captures`, of the local state.
pub record ProviderState : Type 0 where
  pub remote_jobs : Dict String RemoteRuntimeRecord
  pub captures : Dict String String

pub data ProviderError : Type 0 where
  provider_job_identity_invalid legacy_provider_ownership_requires_review : ProviderError
  provider_job_not_reusable provider_cleanup_ownership_unverified : ProviderError
  provider_capture_owner_mismatch job_not_quiescent provider_capture_path_mismatch : ProviderError
  directory_not_removed pin_not_released : ProviderError

pub record RemoteComputeJob : Type 0 where
  pub id : String
  pub input_cid : String
  -- `none` where it is no date.
  pub expires_at : Option ℕ

-- The id pattern, and the names that are made of an id: `remote-…` and `provider-input:…`.
module _ (is_job_id : String → Bool) (remote_capture input_owner : String → String) where
  abbrev pub fresh : RemoteComputeJob → ℕ → ℕ → RemoteRuntimeRecord
  fresh job expires_at now = record {
    backend_job_id = job.id;
    local_job_id = none;
    capture_id = some (remote_capture job.id);
    role = provider;
    updated_at = now;
    cleanup = some (record {
      input_cid = job.input_cid;
      expires_at = expires_at;
      requested = false;
      plaintext = pending;
      input_pin_release_pending = true;
      pin_owner = some (input_owner job.id);
      reason = none;
    });
  }

  -- Whether a cleanup still belongs to the job as it is asked for.
  abbrev pub reusable : RemoteComputeJob → ProviderCleanupState → Bool
  reusable job cleanup =
      str_eq cleanup.input_cid job.input_cid
      && (not cleanup.requested && not (is_complete cleanup.plaintext))

  abbrev pub own_previous :
      RemoteComputeJob → RemoteRuntimeRecord → ProviderState → ProviderState × Option ProviderError
  own_previous job previous state = elim previous.cleanup [
    | none ↦ (state, some legacy_provider_ownership_requires_review)
    | some cleanup ↦
        if not (is_provider previous.role)
        then (state, some legacy_provider_ownership_requires_review)
        else if not (reusable job cleanup)
        then (state, some provider_job_not_reusable)
        else (record state { remote_jobs = put state.remote_jobs job.id previous }, none)
  ]

  abbrev pub own_at :
      RemoteComputeJob → ℕ → ℕ → ProviderState → ProviderState × Option ProviderError
  own_at job expires_at now state =
      if not (is_job_id job.id) || str_eq job.input_cid ""
      then (state, some provider_job_identity_invalid)
      else elim (get state.remote_jobs job.id) [
        | some previous ↦ own_previous job previous state
        | none ↦ (
          record state { remote_jobs = put state.remote_jobs job.id (fresh job expires_at now) },
          none,
        )
      ]

  unfoldable pub own : RemoteComputeJob → ℕ → ProviderState → ProviderState × Option ProviderError
  own job now state = elim job.expires_at [
    | none ↦ (state, some provider_job_identity_invalid)
    | some expires_at ↦ own_at job expires_at now state
  ]

-- `assertPreparing`; `false` where it throws.
unfoldable pub may_prepare : String → ℕ → ProviderState → Bool
may_prepare id now state = elim (get state.remote_jobs id) [
  | none ↦ false
  | some current ↦ elim current.cleanup [
    | none ↦ false
    | some cleanup ↦
        not cleanup.requested && (not (is_complete cleanup.plaintext) && ltb now cleanup.expires_at)
  ]
]

-- The update of `request`; the reconciliation follows it.
unfoldable pub request : String → ℕ → ProviderState → ProviderState × Option ProviderError
request id now state = elim (get state.remote_jobs id) [
  | none ↦ (state, some provider_cleanup_ownership_unverified)
  | some current ↦ elim current.cleanup [
    | none ↦ (state, some provider_cleanup_ownership_unverified)
    | some cleanup ↦
        if not (is_provider current.role)
        then (state, some provider_cleanup_ownership_unverified)
        else (
          record state {
            remote_jobs = put state.remote_jobs id (record current {
              updated_at = now;
              cleanup = some (record cleanup { requested = true });
            });
          },
          none,
        )
  ]
]
