-- ===== src/Cleanup/Tests.antt =====
-- src/jobs/jobCleanup.ts and src/compute/providerCleanup.ts: the journals at concrete calls.
use kubus_node.Base.{
  String, ◌≡◌, refl, true, false, none, some, [], ◌∷◌, text_key, number_key, string_key, get, put,
}
use kubus_node.Cleanup.{pending, JobCleanupRecord, Journal, Findings, revise, release}
use kubus_node.Cleanup.Verified.{IsVerified, release-IsVerified}
use kubus_node.Cleanup.Provider.{ProviderState, RemoteComputeJob, own, may_prepare, request}
use kubus_node.Cleanup.Final.{request-own, owns, run}

abbrev tried : JobCleanupRecord
tried = record {
  job_id = "j";
  type = "spatial.reconstruct";
  state = pending;
  worker_instance_id = some "w";
  worker_attempted = true;
  updated_at = 0;
  reason = none;
}

abbrev journal : Journal
journal = ("j", tried) ∷ []

abbrev quiet : Findings
quiet = record {
  job_active = false;
  has_worker = true;
  receipt = some (record {
    ok = true;
    job_id = "j";
    cleanup_protocol = 1;
    quiescent = true;
    worker_instance_id = "w";
  });
  removed_directory = true;
}

release-IsVerified_example : IsVerified "j" quiet tried
unfolding release revise get put
release-IsVerified_example = release-IsVerified "j" quiet 5 journal journal tried refl refl refl

abbrev job : RemoteComputeJob
job = record { id = "r"; input_cid = "c"; expires_at = some 100 }

abbrev prefix : String → String
prefix id = "remote"

abbrev owned : ProviderState
owned = (own (λ id. true) prefix prefix job 1 (record { remote_jobs = []; captures = [] })).0

preparing : may_prepare "r" 50 owned ≡ true
unfolding own may_prepare get put
preparing = refl

request-own_example :
    may_prepare "r" 50
      (run (λ id. true) prefix prefix prefix (request "r" 2 owned).0 (owns job 3 ∷ []))
    ≡ false
unfolding own request get put
request-own_example =
    (request-own (λ id. true) prefix prefix prefix job 2 50 4 owned (owns job 3 ∷ []) refl).0
