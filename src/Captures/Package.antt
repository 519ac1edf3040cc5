-- ===== src/Captures/Package.antt =====
-- src/captures/capturePackage.ts: is a directory a complete capture. `has_content` is what the file
-- system says of a path in it. A text of the document is walked by its code points: the checks of a
-- path look at ASCII characters only.
use kubus_node.Base.{
  ℕ, zero, suc, str_eq, Bool, true, false, Option, none, some, List, [], ◌∷◌, ◌++◌, ltb, ◌==◌,
  if◌then◌else◌, length, take, Text, units, text_key, number_key, string_key,
}
use kubus_node.Json.{Json, null, bool, num, str, arr, obj, Items, nil, cons, member}
use kubus_node.Captures.{safe_relative_path}

pub data CapturePackageProblem : Type 0 where
  capture_package_incomplete capture_frames_missing : CapturePackageProblem
  capture_frames_invalid capture_frame_file_missing : CapturePackageProblem

pub record CapturePackageReport : Type 0 where
  pub problem : Option CapturePackageProblem
  pub missing_paths : List Text
  pub missing_count : ℕ
  pub frame_count : ℕ

abbrev pub report : CapturePackageProblem → List Text → ℕ → CapturePackageReport
report code missing frame_count = record {
  problem = some code;
  missing_paths = take 50 missing;
  missing_count = length missing;
  frame_count = frame_count;
}

abbrev pub complete : ℕ → CapturePackageReport
complete frame_count = record {
  problem = none;
  missing_paths = [];
  missing_count = 0;
  frame_count = frame_count;
}

-- What reading `frames.json` and `JSON.parse` give.
pub data FramesFile : Type 0 where
  unreadable malformed : FramesFile
  parsed : Json → FramesFile

abbrev pub items_length : Items → ℕ
items_length nil = 0
items_length (cons frame frames) = suc (items_length frames)

-- A path that the package names: not usable, or the files of it that are missing.
abbrev found_or_missing : (Text → Bool) → Option Text → Option (List Text)
found_or_missing has_content none = none
found_or_missing has_content (some path) = some (if has_content path then [] else path ∷ [])

-- Two findings, in the order of the source; the first unusable path ends the inspection.
abbrev pub both : Option (List Text) → Option (List Text) → Option (List Text)
both none rest = none
both (some missing) none = none
both (some missing) (some more) = some (missing ++ more)

module _ (is_absolute : Text → Bool) (has_content : Text → Bool) where
  abbrev pub check_raw : Text → Option (List Text)
  check_raw raw = found_or_missing has_content (safe_relative_path is_absolute raw)

  unfoldable pub check_declared : List Text → Option (List Text)
  check_declared [] = some []
  check_declared (relative ∷ declared) = both (check_raw relative) (check_declared declared)

  abbrev pub check_required : Option Json → Option (List Text)
  check_required none = none
  check_required (some null) = none
  check_required (some (bool b)) = none
  check_required (some (num n)) = none
  check_required (some (str raw)) = check_raw (units raw)
  check_required (some (arr items)) = none
  check_required (some (obj fields)) = none

  abbrev pub check_optional : Option Json → Option (List Text)
  check_optional none = some []
  check_optional (some null) = some []
  check_optional (some (bool b)) = none
  check_optional (some (num n)) = none
  check_optional (some (str raw)) = check_raw (units raw)
  check_optional (some (arr items)) = none
  check_optional (some (obj fields)) = none

  abbrev pub check_frame : Json → Option (List Text)
  check_frame null = none
  check_frame (bool b) = none
  check_frame (num n) = none
  check_frame (str s) = none
  check_frame (arr items) = none
  check_frame (obj fields) = both (check_required (member "rgbPath" fields)) (
      both (check_optional (member "depthPath" fields))
        (check_optional (member "depthConfidencePath" fields)))

  unfoldable pub check_frames : Items → Option (List Text)
  check_frames nil = some []
  check_frames (cons frame frames) = both (check_frame frame) (check_frames frames)

  -- A count is asserted only where the client stated a positive one.
  abbrev pub count_agrees : Option ℕ → ℕ → Bool
  count_agrees none count = true
  count_agrees (some zero) count = true
  count_agrees (some (suc n)) count = suc n == count

  abbrev pub report_frames : Option ℕ → ℕ → Option (List Text) → CapturePackageReport
  report_frames expected count none = report capture_frames_invalid [] count
  report_frames expected count (some (path ∷ missing)) =
      report capture_frame_file_missing (path ∷ missing) count
  report_frames expected count (some []) =
      if count_agrees expected count then complete count else report capture_frames_invalid [] count

  abbrev pub inspect_frames : Option ℕ → Option Json → CapturePackageReport
  inspect_frames expected none = report capture_frames_invalid [] 0
  inspect_frames expected (some null) = report capture_frames_invalid [] 0
  inspect_frames expected (some (bool b)) = report capture_frames_invalid [] 0
  inspect_frames expected (some (num n)) = report capture_frames_invalid [] 0
  inspect_frames expected (some (str s)) = report capture_frames_invalid [] 0
  inspect_frames expected (some (obj fields)) = report capture_frames_invalid [] 0
  inspect_frames expected (some (arr nil)) = report capture_frames_invalid [] 0
  inspect_frames expected (some (arr (cons frame frames))) =
      if ltb 5000 (items_length (cons frame frames))
      then report capture_frames_invalid [] 0
      else report_frames expected (items_length (cons frame frames))
          (check_frames (cons frame frames))

  abbrev pub has_schema : Option Json → Bool
  has_schema none = false
  has_schema (some null) = false
  has_schema (some (bool b)) = false
  has_schema (some (num n)) = false
  has_schema (some (str s)) = str_eq s "kubus.capture.frames/1"
  has_schema (some (arr items)) = false
  has_schema (some (obj fields)) = false

  abbrev pub inspect_document : Option ℕ → FramesFile → CapturePackageReport
  inspect_document expected unreadable = report capture_frames_missing (units "frames.json" ∷ []) 0
  inspect_document expected malformed = report capture_frames_invalid [] 0
  inspect_document expected (parsed null) = report capture_frames_invalid [] 0
  inspect_document expected (parsed (bool b)) = report capture_frames_invalid [] 0
  inspect_document expected (parsed (num n)) = report capture_frames_invalid [] 0
  inspect_document expected (parsed (str s)) = report capture_frames_invalid [] 0
  inspect_document expected (parsed (arr items)) = report capture_frames_invalid [] 0
  inspect_document expected (parsed (obj fields)) =
      if has_schema (member "schema" fields)
      then inspect_frames expected (member "frames" fields)
      else report capture_frames_invalid [] 0

  unfoldable pub inspect_capture_package : List Text → Option ℕ → FramesFile → CapturePackageReport
  inspect_capture_package declared expected file = elim (check_declared declared) [
    | none ↦ report capture_frames_invalid [] 0
    | some [] ↦ inspect_document expected file
    | some (path ∷ missing) ↦ report capture_package_incomplete (path ∷ missing) 0
  ]
