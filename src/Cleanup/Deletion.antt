-- ===== src/Cleanup/Deletion.antt =====
-- src/compute/providerCleanup.ts, `release` and `releasePin`: the deletion of what a provider holds.
use kubus_node.Base.{
  ℕ, String, str_eq, Bool, true, false, not, ◌&&◌, ◌||◌, Option, none, some, List, [], ◌∷◌, ◌++◌,
  if◌then◌else◌, is_some, every, text_key, number_key, string_key, get, put, remove,
}
use kubus_node.Cleanup.{blocked, complete, is_complete}
use kubus_node.Cleanup.Provider.{
  ProviderCleanupState, RemoteRuntimeRecord, ProviderState, ProviderError, is_provider,
  provider_cleanup_ownership_unverified, provider_capture_owner_mismatch, job_not_quiescent,
  provider_capture_path_mismatch, directory_not_removed, pin_not_released,
}

-- What a release finds: the local jobs of the remote one, is each quiescent, was the directory
-- removed, and did Kubo release the pin; `none` where the provider releases no pins.
pub record Findings : Type 0 where
  pub local_jobs : List String
  pub is_quiescent : String → Bool
  pub removed_directory : Bool
  pub pin_released : Option Bool

abbrev local_ids : Findings → RemoteRuntimeRecord → List String
local_ids found current =
    found.local_jobs ++ (elim current.local_job_id [ none ↦ [] | some id ↦ id ∷ [] ])

abbrev names_capture : Option String → String → Bool
names_capture none id = false
names_capture (some capture_id) id = str_eq capture_id id

abbrev right_directory : Option String → String → Bool
right_directory none expected = true
right_directory (some directory) expected = str_eq directory expected

-- The checks of the `try`, in their order.
abbrev pub obstacle :
    Findings → String → String → RemoteRuntimeRecord → ProviderState → Option ProviderError
obstacle found capture_id expected current state =
    if not (names_capture current.capture_id capture_id)
    then some provider_capture_owner_mismatch
    else if not (every found.is_quiescent (local_ids found current))
    then some job_not_quiescent
    else if not (right_directory (get state.captures capture_id) expected)
    then some provider_capture_path_mismatch
    else if not found.removed_directory
    then some directory_not_removed
    else none

abbrev pub with_cleanup :
    String → RemoteRuntimeRecord → ProviderCleanupState → ProviderState → ProviderState
with_cleanup id current cleanup state = record state {
  remote_jobs = put state.remote_jobs id (record current { cleanup = some cleanup });
}

abbrev pub is_released : Option Bool → ProviderCleanupState → Option Bool
is_released pin_released cleanup =
    if cleanup.input_pin_release_pending && is_some cleanup.pin_owner then pin_released else none

-- `releasePin`.
abbrev pub release_pin :
    String
    → Findings
    → RemoteRuntimeRecord
    → ProviderCleanupState
    → ProviderState
    → ProviderState × Option ProviderError
release_pin id found current cleanup state = elim (is_released found.pin_released cleanup) [
  | none ↦ (state, none)
  | some ok ↦
      if ok
      then (
        with_cleanup id current
            (record cleanup { input_pin_release_pending = false; reason = none }) state,
        none,
      )
      else (
        with_cleanup id current
            (record cleanup { reason = some "provider_pin_release_retry_required" }) state,
        some pin_not_released,
      )
]

abbrev pub release_plaintext :
    String
    → String
    → String
    → Findings
    → ℕ
    → RemoteRuntimeRecord
    → ProviderCleanupState
    → ProviderState
    → ProviderState × Option ProviderError
release_plaintext id capture_id expected found now current cleanup state =
    elim (obstacle found capture_id expected current state) [
      | some e ↦ (
        with_cleanup id (record current { updated_at = now })
            (record cleanup {
              plaintext = blocked;
              reason = some "provider_cleanup_retry_required";
            })
            state,
        some e,
      )
      | none ↦
          let done = record cleanup { plaintext = complete; reason = none } in
          release_pin id found (record current { updated_at = now }) done
            (with_cleanup id (record current { updated_at = now }) done
              (record state { captures = remove state.captures capture_id }))
    ]

-- `release`, with the name of the capture and its expected directory.
module _ (is_job_id : String → Bool) (remote_capture capture_directory : String → String) where
  unfoldable pub release :
      String → Findings → ℕ → ProviderState → ProviderState × Option ProviderError
  release id found now state = elim (get state.remote_jobs id) [
    | none ↦ (state, some provider_cleanup_ownership_unverified)
    | some current ↦ elim current.cleanup [
      | none ↦ (state, some provider_cleanup_ownership_unverified)
      | some cleanup ↦
          if not (is_provider current.role) || not cleanup.requested || not (is_job_id id)
          then (state, some provider_cleanup_ownership_unverified)
          else if is_complete cleanup.plaintext
          then release_pin id found current cleanup state
          else release_plaintext id (remote_capture id) (capture_directory id) found now current
              cleanup state
    ]
  ]
