-- ===== src/Captures/Store.antt =====
-- src/captures/captureStore.ts: commit, discard and sweep. What the file system holds during a call
-- is an argument; the directories that the call deletes are part of its answer.
use kubus_node.Base.{
  ℕ, ◌*◌, ◌⊎◌, inl, inr, Bool, false, not, ◌||◌, Option, none, some, List, [], ◌∷◌, map, ltb, ◌==◌,
  if◌then◌else◌, is_some, length, any, Text, same_text, text_key, number_key, string_key, Dict, get,
  put, remove, has,
}
use kubus_node.Captures.{
  CaptureError, capture_draft_not_found, capture_package_empty, capture_package_refused,
  capture_in_use, capture_draft_committed, capture_not_found, DraftEntry, reconcile,
}
use kubus_node.Captures.Package.{FramesFile, inspect_capture_package}

pub record CaptureRecord : Type 0 where
  pub id : Text
  pub local_capture_id : Option Text
  pub directory : Text
  pub size_bytes : ℕ
  pub file_count : ℕ

-- The drafts in memory, the packages still being written, and the captures of the local state.
pub record CaptureStore : Type 0 where
  pub drafts : Dict Text DraftEntry
  pub creating : List Text
  pub captures : Dict Text CaptureRecord

-- What a commit finds: is a stored replica sound, the draft's directory, and is a job reading the
-- old replica, at the check and at the swap.
pub record Findings : Type 0 where
  pub replica_ok : CaptureRecord → Bool
  pub has_content : Text → Bool
  pub frames_file : FramesFile
  pub in_use : Text → Bool
  pub in_use_at_swap : Text → Bool

abbrev pub is_replica : Text → CaptureRecord → Bool
is_replica local_id capture = elim capture.local_capture_id [
  | none ↦ false
  | some id ↦ same_text id local_id
]

unfoldable pub find_replica : Text → Dict Text CaptureRecord → Option CaptureRecord
find_replica local_id [] = none
find_replica local_id ((id, capture) ∷ captures) =
    let rest = find_replica local_id captures in
    if is_replica local_id capture then some capture else rest

abbrev pub existing_of : Option Text → Dict Text CaptureRecord → Option CaptureRecord
existing_of none captures = none
existing_of (some local_id) captures = find_replica local_id captures

abbrev pub keys_of {ℓ} : {V : Type ℓ} → Dict Text V → List Text
keys_of = map λ e. e.0

abbrev pub record_of : DraftEntry → CaptureRecord
record_of entry = record {
  id = entry.id;
  local_capture_id = entry.local_capture_id;
  directory = entry.directory;
  size_bytes = entry.size_bytes;
  file_count = length entry.files;
}

-- The state write: the replaced record goes where it still is the one that was read.
abbrev pub retire : CaptureRecord → Dict Text CaptureRecord → Dict Text CaptureRecord
retire replaces captures = elim (get captures replaces.id) [
  | none ↦ captures
  | some current ↦
      if same_text current.directory replaces.directory
      then remove captures replaces.id
      else captures
]

-- The store after a commit, the directories that it deletes, and its answer.
pub record Committed : Type 0 where
  pub store : CaptureStore
  pub deleted : List Text
  pub answer : CaptureError ⊎ CaptureRecord

abbrev pub refuse : CaptureStore → CaptureError → Committed
refuse store e = record { store = store; deleted = []; answer = inl e }

abbrev other_directory : Text → Text → List Text
other_directory directory kept = if same_text directory kept then [] else directory ∷ []

abbrev pub install : DraftEntry → Option CaptureRecord → CaptureStore → Committed
install entry none store = record {
  store = record store {
    drafts = remove store.drafts entry.id;
    captures = put store.captures entry.id (record_of entry);
  };
  deleted = [];
  answer = inr (record_of entry);
}
install entry (some replaces) store = record {
  store = record store {
    drafts = remove store.drafts entry.id;
    captures = put (retire replaces store.captures) entry.id (record_of entry);
  };
  deleted = other_directory replaces.directory entry.directory;
  answer = inr (record_of entry);
}

module _ (is_absolute : Text → Bool) where
  abbrev pub package_ok : Findings → DraftEntry → Bool
  package_ok found entry = not (
      is_some
        (inspect_capture_package is_absolute found.has_content (keys_of entry.files)
          entry.expected_frame_count found.frames_file).problem)

  abbrev pub busy : (Text → Bool) → Option CaptureRecord → Bool
  busy in_use none = false
  busy in_use (some replaces) = in_use replaces.id

  abbrev commit_package : Findings → DraftEntry → Option CaptureRecord → CaptureStore → Committed
  commit_package found entry replaces store =
      if not (package_ok found entry)
      then refuse
          (record store { drafts = put store.drafts entry.id (reconcile found.has_content entry) })
          capture_package_refused
      else if busy found.in_use replaces
      then refuse store capture_in_use
      else if busy found.in_use_at_swap replaces
      then refuse store capture_in_use
      else install entry replaces store

  abbrev commit_existing : Findings → DraftEntry → Option CaptureRecord → CaptureStore → Committed
  commit_existing found entry none store = commit_package found entry none store
  commit_existing found entry (some existing) store =
      if found.replica_ok existing
      then record {
        store = record store { drafts = remove store.drafts entry.id };
        deleted = other_directory entry.directory existing.directory;
        answer = inr existing;
      }
      else commit_package found entry (some existing) store

  -- `commitDraft`; commits run one after the other. The draft's id is its key.
  unfoldable pub commit_draft : Text → Findings → CaptureStore → Committed
  commit_draft id found store = elim (get store.drafts id) [
    | none ↦ refuse store capture_draft_not_found
    | some entry ↦
        if length entry.files == 0
        then refuse store capture_package_empty
        else commit_existing found entry (existing_of entry.local_capture_id store.captures) store
  ]

-- `discardDraft`; `after` is the store once the writes in flight are done.
unfoldable pub discard_draft : Text → CaptureStore → CaptureStore → Option CaptureError × List Text
discard_draft id store after = elim (get store.drafts id) [
  | none ↦ (some capture_draft_not_found, [])
  | some entry ↦
      if has after.captures id
      then (some capture_draft_committed, [])
      else (none, entry.directory ∷ [])
]

-- `ownsDirectory`.
abbrev pub owns_directory : Text → CaptureStore → Bool
owns_directory name store =
    has store.drafts name || (any (same_text name) store.creating || has store.captures name)

abbrev pub draft_idle_grace_ms : ℕ
draft_idle_grace_ms = 30 * 60 * 1000

-- The age of a directory's marker; `none` where it has none.
abbrev pub is_live_marker : Option ℕ → Bool
is_live_marker none = false
is_live_marker (some age) = ltb age draft_idle_grace_ms

-- One entry of the root as `sweepOnce` sees it: the store at the two questions.
pub record Entry : Type 0 where
  pub name : Text
  pub is_directory : Bool
  pub marker_age : Option ℕ
  pub before : CaptureStore
  pub after : CaptureStore

unfoldable pub sweep_once : List Entry → List Text
sweep_once [] = []
sweep_once (e ∷ entries) =
    let rest = sweep_once entries in
    if owns_directory e.name e.before
      || not e.is_directory
      || is_live_marker e.marker_age
      || owns_directory e.name e.after
    then rest
    else e.name ∷ rest

-- `delete` of a stored capture.
unfoldable pub delete_capture : Text → (Text → Bool) → CaptureStore → Committed
delete_capture id in_use store = elim (get store.captures id) [
  | none ↦ refuse store capture_not_found
  | some capture ↦ if in_use id then refuse store capture_in_use else record {
    store = record store { captures = remove store.captures id };
    deleted = capture.directory ∷ [];
    answer = inr capture;
  }
]
