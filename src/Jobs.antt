-- ===== src/Jobs.antt =====
-- src/jobs/jobRuntime.ts: the queue of processing jobs, as the durable records of the local store.
-- Progress is in hundredths. The participation gate, the capture store's answers and each read of the
-- clock are arguments.
pub mod Create
pub mod Patches
pub mod Runs
pub mod Active
pub mod Final
pub mod Once
pub mod Dispatch
pub mod Tests
use kubus_node.Base.{
  ℕ, zero, suc, ◌+◌, ◌-◌, ◌*◌, ◌/◌, ◌%◌, ◌^◌, ◌≤◌, ◌<◌, min, max, bit_and, bit_or, bit_xor, String,
  str_eq, starts_with, eq_iff, eq_refl, ◌≡◌, refl, sym, ap, ap₂, ◌∙◌, subst, ◌≡⟨◌⟩◌, ◌∎, ◌≢◌, ◌↔◌,
  ◌⊎◌, inl, inr, Bool, true, false, not, ◌&&◌, ◌||◌, Option, none, some, List, [], ◌∷◌, ◌++◌, map,
  map-append, append-nil, append_assoc, arith, ltb, leb, ◌==◌, if◌then◌else◌, ltb→lt, lt→ltb,
  le→ltb, leb→le, ==_iff, Bool-cases, Option-cases, is_some, length, get_or, take, drop, concat,
  every, any, All, length-append, length-take, length-drop, take-append-drop, take-append,
  drop-append, All-append, drop-drop, concat-append, Text, units, same_text, same_text_iff,
  begins_with, is_space, holds_unit, cut_unique, text_key, number_key, string_key, Dict, Key, get,
  put, remove, has, get-put, get-put_self, get-put_ne, get-remove, get-remove_self, get-remove_ne,
  length-put, length-remove, Values, Values-put, Values-remove, Values-get,
}
use kubus_node.Json.{Json}

pub data JobType : Type 0 where
  reconstruct optimize generate_preview : JobType

pub data JobState : Type 0 where
  queued running completed failed cancelled : JobState

pub data JobStage : Type 0 where
  in_queue preparing_dataset starting_worker training importing done broken stopped : JobStage

pub data Level : Type 0 where
  info warn error : Level

pub record Log : Type 0 where
  pub at : ℕ
  pub level : Level
  pub message : String

pub record JobError : Type 0 where
  pub code : String
  pub message : String

pub record JobInput : Type 0 where
  pub capture_id : Option String
  pub remote_compute_job_id : Option String

pub record LocalJob : Type 0 where
  pub id : String
  pub type : JobType
  pub capability : String
  pub state : JobState
  pub stage : JobStage
  pub progress : Option ℕ
  pub input : JobInput
  pub output : Option Json
  pub error : Option JobError
  pub created_at : ℕ
  pub updated_at : ℕ
  pub started_at : Option ℕ
  pub completed_at : Option ℕ
  pub logs : List Log

abbrev pub Jobs : Type 0
Jobs = Dict String LocalJob

abbrev pub capability_for : JobType → String
capability_for reconstruct = "spatial.reconstruction"
capability_for optimize = "spatial.optimization"
capability_for generate_preview = "spatial.optimization"

abbrev pub is_reconstruct : JobType → Bool
is_reconstruct reconstruct = true
is_reconstruct optimize = false
is_reconstruct generate_preview = false

-- `['queued', 'running'].includes(state)`.
abbrev pub is_active : JobState → Bool
is_active queued = true
is_active running = true
is_active completed = false
is_active failed = false
is_active cancelled = false

abbrev pub is_queued : JobState → Bool
is_queued queued = true
is_queued running = false
is_queued completed = false
is_queued failed = false
is_queued cancelled = false

abbrev pub is_running : JobState → Bool
is_running running = true
is_running queued = false
is_running completed = false
is_running failed = false
is_running cancelled = false

abbrev pub is_cancelled : JobState → Bool
is_cancelled cancelled = true
is_cancelled queued = false
is_cancelled running = false
is_cancelled completed = false
is_cancelled failed = false

abbrev pub names : Option String → String → Bool
names none id = false
names (some s) id = str_eq s id

abbrev pub log : LocalJob → ℕ → Level → String → List Log
log job at level message = job.logs ++ record { at = at; level = level; message = message } ∷ []

-- The test of `activeReconstruction`.
abbrev pub reconstructs_capture : String → LocalJob → Bool
reconstructs_capture capture_id job =
    is_reconstruct job.type && (names job.input.capture_id capture_id && is_active job.state)

unfoldable pub active_reconstruction : Jobs → String → Option LocalJob
active_reconstruction [] capture_id = none
active_reconstruction ((key, job) ∷ jobs) capture_id =
    if reconstructs_capture capture_id job then some job else active_reconstruction jobs capture_id

abbrev pub new_job : String → JobType → JobInput → ℕ → LocalJob
new_job id type input now = record {
  id = id;
  type = type;
  capability = capability_for type;
  state = queued;
  stage = in_queue;
  progress = some 0;
  input = input;
  output = none;
  error = none;
  created_at = now;
  updated_at = now;
  started_at = none;
  completed_at = none;
  logs = record { at = now; level = info; message = "Job queued" } ∷ [];
}
