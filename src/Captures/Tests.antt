-- ===== src/Captures/Tests.antt =====
-- src/captures/: uploads and captures at concrete calls.
use kubus_node.Base.{
  ◌≡◌, refl, sym, ◌∙◌, ◌≢◌, inr, Bool, true, false, none, some, [], ◌∷◌, ◌++◌, arith, Text, units,
  same_text, begins_with, text_key, number_key, string_key, Dict, get, put, remove, has,
}
use kubus_node.Json.{str, arr, obj, nil, cons, end, field, member}
use kubus_node.Captures.{
  DraftEntry, safe_relative_path, write_draft_file, receive_chunks, reconcile, drop_lost,
}
use kubus_node.Captures.Paths.{IsRelative, safe_relative_path-IsRelative}
use kubus_node.Captures.Accounts.{IsAccounted, write_draft_file-IsAccounted}
use kubus_node.Captures.Package.{
  FramesFile, parsed, check_declared, check_frames, inspect_capture_package,
}
use kubus_node.Captures.Complete.{IsComplete, inspect_capture_package-IsComplete}
use kubus_node.Captures.Store.{
  CaptureRecord, CaptureStore, Findings, find_replica, record_of, commit_draft, keys_of, busy,
  existing_of,
}
use kubus_node.Captures.Replicas.{IsStored}
use kubus_node.Captures.Commits.{commit_draft-IsStored, commit_draft-IsComplete}

abbrev posix : Text → Bool
posix path = begins_with path (units "/")

abbrev under : Text → Text → Text
under directory path = directory ++ b'/' ∷ path

abbrev empty : DraftEntry
empty = record {
  id = units "d";
  directory = units "/c/d";
  local_capture_id = some (units "k");
  expected_frame_count = some 1;
  files = [];
  file_count = 0;
  size_bytes = 0;
}

abbrev one_file : DraftEntry
one_file = record empty { files = (units "a.jpg", 7) ∷ []; file_count = 1; size_bytes = 7 }

uploads : Unit {0}
unfolding safe_relative_path write_draft_file receive_chunks reconcile drop_lost get put remove has
uploads = tt

paths :
    (safe_relative_path posix (units "//a/b") ≡ some (units "a/b"))
    × (safe_relative_path posix (units "a/../b") ≡ none)
    × (write_draft_file posix under (units "/a.jpg") (3 ∷ 4 ∷ []) 100 true empty ≡ inr one_file)
unfolding uploads
paths = (refl, refl, refl)

safe_relative_path-IsRelative_example :
    IsRelative (units "a/b") × (safe_relative_path posix (units "a/b") ≡ some (units "a/b"))
safe_relative_path-IsRelative_example =
    safe_relative_path-IsRelative posix (units "//a/b") (units "a/b") paths.0

empty-IsAccounted : IsAccounted empty
empty-IsAccounted = record {
  size_is_total = refl;
  count_is_length = refl;
  not_empty = tt;
  size_bound = omega arith;
  count_bound = omega arith;
}

write_draft_file-IsAccounted_example : IsAccounted one_file
write_draft_file-IsAccounted_example =
    write_draft_file-IsAccounted posix under (units "/a.jpg") (3 ∷ 4 ∷ []) 100 true empty one_file
      empty-IsAccounted paths.2

abbrev frames : FramesFile
frames = parsed (
    obj (
      field "schema" (str "kubus.capture.frames/1")
        (field "frames" (arr (cons (obj (field "rgbPath" (str "a.jpg") end)) nil)) end)))

packages : Unit {0}
unfolding inspect_capture_package check_declared check_frames safe_relative_path member
packages = tt

inspect_capture_package-IsComplete_example :
    IsComplete posix (same_text (units "a.jpg")) (units "a.jpg" ∷ []) (some 1) frames
unfolding packages
inspect_capture_package-IsComplete_example =
    inspect_capture_package-IsComplete posix (same_text (units "a.jpg")) (units "a.jpg" ∷ [])
      (some 1) frames refl

abbrev damaged : CaptureRecord
damaged = record {
  id = units "c";
  local_capture_id = some (units "k");
  directory = units "/c/c";
  size_bytes = 7;
  file_count = 1;
}

abbrev store : CaptureStore
store = record {
  drafts = (units "d", one_file) ∷ [];
  creating = [];
  captures = (units "c", damaged) ∷ [];
}

abbrev found : Findings
found = record {
  replica_ok = λ capture. false;
  has_content = same_text (units "a.jpg");
  frames_file = frames;
  in_use = λ id. false;
  in_use_at_swap = λ id. false;
}

commits : Unit {0}
unfolding packages commit_draft find_replica get put remove has
commits = tt

abbrev one : Dict Text CaptureRecord
one = (units "d", record_of one_file) ∷ []

abbrev two : Dict Text CaptureRecord
two = (units "c", damaged) ∷ []

unfoldable replaces :
    (commit_draft posix (units "d") found store).store.captures
    ≡ (units "d", record_of one_file) ∷ []
unfolding commits
replaces = refl

commit_draft-IsStored_example : IsStored (commit_draft posix (units "d") found store).store.captures
unfolding get
commit_draft-IsStored_example =
    commit_draft-IsStored posix (units "d") found store
      (record { distinct = (refl, tt); keyed = (refl, tt); single = λ local_id. ground arith })

commit_draft-IsComplete_example :
    (entry : DraftEntry) × (get store.drafts (units "d") ≡ some entry)
    × IsComplete posix found.has_content (keys_of entry.files) entry.expected_frame_count frames
    × (busy posix found.in_use_at_swap (existing_of entry.local_capture_id store.captures) ≡ false)
unfolding commits
commit_draft-IsComplete_example =
    commit_draft-IsComplete posix (units "d") found store (λ same. changed (sym replaces ∙ same))
  where
    changed : one ≢ two
    changed e = ground arith
