-- ===== src/Captures/Accounts.antt =====
-- src/captures/captureStore.ts: the accounting of an upload.
use kubus_node.Base.{
  ℕ, zero, suc, ◌+◌, ◌-◌, ◌≤◌, ◌<◌, ◌≡◌, refl, ap, subst, ◌⊎◌, inl, inr, Bool, true, false, not,
  ◌&&◌, ◌||◌, none, some, List, [], ◌∷◌, arith, ltb, if◌then◌else◌, Bool-cases, Option-cases,
  length, any, Text, same_text, same_text_iff, text_key, number_key, string_key, Dict, get, put,
  remove, has, get-remove, length-put, Values, Values-put,
}
use kubus_node.Captures.{
  drop_lost, reconcile, CaptureError, max_capture_bytes, max_capture_files, safe_relative_path,
  DraftEntry, bytes_or_zero, receive_chunks, account, write_draft_file,
}

abbrev pub total : Dict Text ℕ → ℕ
total [] = 0
total ((relative, bytes) ∷ files) = bytes + total files

-- The counts are those of the files, no file is empty, and both ceilings are kept.
pub record IsAccounted (entry : DraftEntry) : Type 0 where
  pub size_is_total : entry.size_bytes ≡ total entry.files
  pub count_is_length : entry.file_count ≡ length entry.files
  pub not_empty : Values (λ bytes. 1 ≤ bytes) entry.files
  pub size_bound : entry.size_bytes ≤ max_capture_bytes
  pub count_bound : entry.file_count ≤ max_capture_files

total-put :
    (files : Dict Text ℕ) (relative : Text) (bytes : ℕ)
    → total (put files relative bytes) + bytes_or_zero (get files relative) ≡ total files + bytes
unfolding put get
total-put [] relative bytes = omega arith
total-put ((at, old) ∷ files) relative bytes = ground (arith, total-put files relative bytes)

get-total :
    (files : Dict Text ℕ) (relative : Text) → bytes_or_zero (get files relative) ≤ total files
unfolding get
get-total [] relative = omega arith
get-total ((at, old) ∷ files) relative = ground (arith, get-total files relative)

receive_chunks-bound :
    (others max_bytes written : ℕ) (chunks : List ℕ) (received : ℕ)
    → others + written ≤ max_capture_bytes
    → receive_chunks others max_bytes written chunks ≡ inr received
    → others + received ≤ max_capture_bytes
unfolding receive_chunks
receive_chunks-bound others max_bytes written [] received room h = ground arith
receive_chunks-bound others max_bytes written (chunk ∷ chunks) received room h =
    elim (Bool-cases
      (ltb max_bytes (written + chunk) || ltb max_capture_bytes (others + (written + chunk)))) [
        | inl over ↦ absurd (ground arith)
        | inr fits ↦
            receive_chunks-bound others max_bytes (written + chunk) chunks received (ground arith)
              (ground arith)
      ]

account-IsAccounted :
    (relative : Text) (n : ℕ) (entry : DraftEntry)
    → (has entry.files relative ≡ true) ⊎ (length entry.files < max_capture_files)
    → entry.size_bytes - bytes_or_zero (get entry.files relative) + suc n ≤ max_capture_bytes
    → IsAccounted entry
    → IsAccounted (account relative (suc n) entry)
account-IsAccounted relative n entry known fits a = record {
  size_is_total = omega (
    arith,
    total-put entry.files relative (suc n),
    get-total entry.files relative,
    a.size_is_total,
  );
  count_is_length = refl;
  not_empty = Values-put (λ bytes. 1 ≤ bytes) entry.files relative (omega arith) a.not_empty;
  size_bound = fits;
  count_bound =
      ground
        (arith, length-put entry.files relative (suc n), known, a.count_is_length, a.count_bound);
}

-- A write that goes through leaves an accounted draft accounted: its size is the sum of its files,
-- the file that the write replaces not counted twice, its count is theirs, and neither ceiling is
-- passed, whatever the chunks are.
pub write_draft_file-IsAccounted :
    (is_absolute : Text → Bool) (join : Text → Text → Text) (raw_path : Text) (chunks : List ℕ)
    (max_bytes : ℕ) (renamed : Bool) (entry after : DraftEntry)
    → IsAccounted entry
    → write_draft_file is_absolute join raw_path chunks max_bytes renamed entry ≡ inr after
    → IsAccounted after
unfolding write_draft_file
write_draft_file-IsAccounted is_absolute join raw_path chunks max_bytes renamed entry after a went =
    elim (Option-cases (safe_relative_path is_absolute raw_path)) [
      | inl bad ↦ absurd (ground arith)
      | inr (relative, form) ↦
          go relative form
            (receive_chunks (entry.size_bytes - bytes_or_zero (get entry.files relative)) max_bytes
              0 chunks)
            refl
    ]
  where
    go :
        (relative : Text)
        → safe_relative_path is_absolute raw_path ≡ some relative
        → (received : CaptureError ⊎ ℕ)
        → receive_chunks
            (entry.size_bytes - bytes_or_zero (get entry.files relative))
            max_bytes
            0
            chunks
          ≡ received
        → IsAccounted after
    go relative form (inl e) r = absurd (ground arith)
    go relative form (inr zero) r = absurd (ground arith)
    go relative form (inr (suc n)) r =
        let same : account relative (suc n) entry ≡ after = ground arith in
        subst IsAccounted same (
          account-IsAccounted relative n entry (ground arith)
            (receive_chunks-bound _ max_bytes 0 chunks (suc n) (ground (arith, a.size_bound)) r) a)

get-drop_lost :
    (present : Text → Bool) (listed files : Dict Text ℕ) (size : ℕ) (relative : Text)
    → get (drop_lost present listed files size).0 relative
      ≡ (if has listed relative && not (present relative) then none else get files relative)
unfolding drop_lost has get
get-drop_lost present [] files size relative = refl
get-drop_lost present ((at, bytes) ∷ listed) files size relative =
    elim (Bool-cases (same_text at relative)) [
      | inl hit ↦
          let same = (same_text_iff at relative).0 hit in
          ground (
            arith,
            ap present same,
            get-drop_lost present listed files size relative,
            get-drop_lost present listed (remove files at) (size - bytes) relative,
            get-remove files at relative,
          )
      | inr miss ↦ ground (
        arith,
        get-drop_lost present listed files size relative,
        get-drop_lost present listed (remove files at) (size - bytes) relative,
        get-remove files at relative,
      )
    ]

all_present :
    (present : Text → Bool) (files : Dict Text ℕ) (relative : Text)
    → any (λ e. not (present e.0)) files ≡ false
    → present relative ≡ false
    → get files relative ≡ none
unfolding get
all_present present [] relative h lost = refl
all_present present ((at, bytes) ∷ files) relative h lost =
    elim (Bool-cases (same_text at relative)) [
      | inl hit ↦ absurd (ground (arith, ap present ((same_text_iff at relative).0 hit)))
      | inr miss ↦ rw miss (all_present present files relative (ground arith) lost)
    ]

-- After `reconcile` a draft lists a file exactly when it listed it before and the directory still
-- holds it, with the bytes it had.
get-reconcile :
    (present : Text → Bool) (entry : DraftEntry) (relative : Text)
    → get (reconcile present entry).files relative
      ≡ (if present relative then get entry.files relative else none)
unfolding reconcile has
get-reconcile present entry relative = ground (
  arith,
  get-drop_lost present entry.files entry.files entry.size_bytes relative,
  all_present present entry.files relative,
)
