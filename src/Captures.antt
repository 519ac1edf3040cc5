-- ===== src/Captures.antt =====
-- src/captures/captureStore.ts and src/captures/capturePackage.ts: uploads of a capture, and the
-- captures they turn into. What the file system answers is an argument of the call.
pub mod Paths
pub mod Accounts
pub mod Package
pub mod Complete
pub mod Store
pub mod Replicas
pub mod Commits
pub mod Tests
use kubus_node.Base.{
  ℕ, zero, suc, ◌+◌, ◌-◌, ◌*◌, ◌/◌, ◌%◌, ◌^◌, ◌≤◌, ◌<◌, min, max, bit_and, bit_or, bit_xor, String,
  str_eq, starts_with, eq_iff, eq_refl, ◌≡◌, refl, sym, ap, ap₂, ◌∙◌, subst, ◌≡⟨◌⟩◌, ◌∎, ◌≢◌, ◌↔◌,
  ◌⊎◌, inl, inr, Bool, true, false, not, ◌&&◌, ◌||◌, Option, none, some, List, [], ◌∷◌, ◌++◌, map,
  map-append, append-nil, append_assoc, arith, ltb, leb, ◌==◌, if◌then◌else◌, ltb→lt, lt→ltb,
  le→ltb, leb→le, ==_iff, Bool-cases, Option-cases, is_some, length, get_or, take, drop, concat,
  every, any, All, length-append, length-take, length-drop, take-append-drop, take-append,
  drop-append, All-append, drop-drop, concat-append, Text, units, same_text, same_text_iff,
  begins_with, is_space, holds_unit, cut_unique, text_key, number_key, string_key, Dict, Key, get,
  put, remove, has, get-put, get-put_self, get-put_ne, get-remove, get-remove_self, get-remove_ne,
  length-put, length-remove, Values, Values-put, Values-remove, Values-get,
}

pub data CaptureError : Type 0 where
  capture_file_path_invalid capture_draft_not_found capture_file_count_exceeded : CaptureError
  request_too_large capture_size_exceeded capture_file_empty write_failed : CaptureError
  capture_package_empty capture_package_refused capture_in_use : CaptureError
  capture_draft_committed capture_not_found : CaptureError

abbrev pub max_capture_bytes : ℕ
max_capture_bytes = 5 * 1024 * 1024 * 1024

abbrev pub max_capture_files : ℕ
max_capture_files = 5000

-- `raw.replaceAll('\\', '/')`.
abbrev pub slashes : Text → Text
slashes [] = []
slashes (c ∷ text) = (if c == 92 then b'/' else c) ∷ slashes text

-- `replace(/^\/+/, '')`.
abbrev pub strip_slashes : Text → Text
strip_slashes [] = []
strip_slashes (c ∷ text) = let rest = strip_slashes text in if c == b'/' then rest else c ∷ text

-- `normalized.includes('..')`.
abbrev pub holds_dots : Text → Bool
holds_dots [] = false
holds_dots (c ∷ text) = begins_with (c ∷ text) (units "..") || holds_dots text

abbrev pub is_blank : Text → Bool
is_blank [] = true
is_blank (c ∷ text) = false

-- `path.isAbsolute` and `path.join` of the platform.
module _ (is_absolute : Text → Bool) where
  -- `captureRelativePath` of a string, and `safeRelativePath`, which throws where this is `none`.
  unfoldable pub safe_relative_path : Text → Option Text
  safe_relative_path raw =
      let normalized = strip_slashes (slashes raw) in
      if is_blank normalized || holds_dots normalized || is_absolute normalized
      then none
      else some normalized

pub record DraftEntry : Type 0 where
  pub id : Text
  pub directory : Text
  pub local_capture_id : Option Text
  pub expected_frame_count : Option ℕ
  -- The bytes of each file.
  pub files : Dict Text ℕ
  pub file_count : ℕ
  pub size_bytes : ℕ

abbrev pub bytes_or_zero : Option ℕ → ℕ
bytes_or_zero none = 0
bytes_or_zero (some bytes) = bytes

-- The loop over the chunks, each by its size: `others` is the draft's size without the file that is
-- replaced. The answer is the number of bytes written.
unfoldable pub receive_chunks : ℕ → ℕ → ℕ → List ℕ → CaptureError ⊎ ℕ
receive_chunks others max_bytes written [] = inr written
receive_chunks others max_bytes written (chunk ∷ chunks) =
    let rest = receive_chunks others max_bytes (written + chunk) chunks in
    if ltb max_bytes (written + chunk)
    then inl request_too_large
    else if ltb max_capture_bytes (others + (written + chunk))
    then inl capture_size_exceeded
    else rest

abbrev pub account : Text → ℕ → DraftEntry → DraftEntry
account relative written entry = record entry {
  files = put entry.files relative written;
  size_bytes = entry.size_bytes - bytes_or_zero (get entry.files relative) + written;
  file_count = length (put entry.files relative written);
}

-- After the chunks have come in; `renamed` is whether the file system took the file.
abbrev pub promote : Text → Bool → DraftEntry → CaptureError ⊎ ℕ → CaptureError ⊎ DraftEntry
promote relative renamed entry (inl e) = inl e
promote relative renamed entry (inr zero) = inl capture_file_empty
promote relative renamed entry (inr (suc n)) =
    if renamed then inr (account relative (suc n) entry) else inl write_failed

module _ (is_absolute : Text → Bool) (join : Text → Text → Text) where
  -- `writeDraftFileStreamExclusive`; on an error the entry stays as it is.
  unfoldable pub write_draft_file :
      Text → List ℕ → ℕ → Bool → DraftEntry → CaptureError ⊎ DraftEntry
  write_draft_file raw_path chunks max_bytes renamed entry =
      elim (safe_relative_path is_absolute raw_path) [
        | none ↦ inl capture_file_path_invalid
        | some relative ↦
            if not (begins_with (join entry.directory relative) (entry.directory ++ b'/' ∷ []))
            then inl capture_file_path_invalid
            else if not (has entry.files relative) && leb max_capture_files (length entry.files)
            then inl capture_file_count_exceeded
            else promote relative renamed entry (
                receive_chunks (entry.size_bytes - bytes_or_zero (get entry.files relative))
                  max_bytes 0 chunks)
      ]

-- `reconcile`: the loop over the files, in a copy made at its start; `present` is what the file
-- system says of each.
unfoldable pub drop_lost : (Text → Bool) → Dict Text ℕ → Dict Text ℕ → ℕ → Dict Text ℕ × ℕ
drop_lost present [] files size = (files, size)
drop_lost present ((relative, bytes) ∷ listed) files size =
    let kept = drop_lost present listed files size in
    let dropped = drop_lost present listed (remove files relative) (size - bytes) in
    if present relative then kept else dropped

-- The count is set again only when a file is lost.
unfoldable pub reconcile : (Text → Bool) → DraftEntry → DraftEntry
reconcile present entry =
    let after = drop_lost present entry.files entry.files entry.size_bytes in
    if any (λ e. not (present e.0)) entry.files
    then record entry { files = after.0; size_bytes = after.1; file_count = length after.0 }
    else entry
