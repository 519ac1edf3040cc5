-- ===== src/Captures/Commits.antt =====
-- src/captures/captureStore.ts, `commitDraft`: what it keeps and what it answers.
use kubus_node.Base.{
  ◌+◌, ◌≤◌, ◌≡◌, refl, sym, subst, ◌≢◌, ◌⊎◌, inl, inr, Bool, true, false, not, ◌&&◌, Option, none,
  some, arith, ◌==◌, if◌then◌else◌, Bool-cases, Option-cases, length, Text, same_text_iff, text_key,
  number_key, string_key, Dict, get, put, remove,
}
use kubus_node.Captures.{DraftEntry}
use kubus_node.Captures.Package.{inspect_capture_package}
use kubus_node.Captures.Complete.{IsComplete, inspect_capture_package-IsComplete}
use kubus_node.Captures.Store.{
  CaptureRecord, CaptureStore, Findings, is_replica, find_replica, existing_of, keys_of, record_of,
  retire, Committed, install, package_ok, busy, commit_draft,
}
use kubus_node.Captures.Replicas.{
  holders, IsStored, Distinct-put, Distinct-remove, Keyed-put, Keyed-remove, holders-put,
  holders-remove, find_replica-none, find_replica-IsFound,
}

retire-remove :
    (captures : Dict Text CaptureRecord) (capture : CaptureRecord)
    → get captures capture.id ≡ some capture
    → retire capture captures ≡ remove captures capture.id
retire-remove captures capture stored =
    rw (stored, retire, (same_text_iff capture.directory capture.directory).1 refl) refl

-- The old replica, where there is one, makes room for the new one.
room :
    (local_id : Text) (entry : DraftEntry) (captures : Dict Text CaptureRecord)
    (rest : Dict Text CaptureRecord)
    → (is_replica local_id (record_of entry) ≡ true → holders local_id rest ≡ 0)
    → holders local_id rest ≤ 1
    → holders local_id (put rest entry.id (record_of entry)) ≤ 1
room local_id entry captures rest own few =
    elim (Bool-cases (is_replica local_id (record_of entry))) [
      | inl hit ↦ omega (
        arith,
        own hit,
        subst
            (λ b.
              holders local_id (put rest entry.id (record_of entry))
              ≤ holders local_id rest + (if b then 1 else 0))
            hit (holders-put local_id entry.id rest (record_of entry)),
      )
      | inr miss ↦ omega (
        arith,
        few,
        subst
            (λ b.
              holders local_id (put rest entry.id (record_of entry))
              ≤ holders local_id rest + (if b then 1 else 0))
            miss (holders-put local_id entry.id rest (record_of entry)),
      )
    ]

existing-own :
    (local_id : Text) (entry : DraftEntry) (captures : Dict Text CaptureRecord)
    (existing : Option CaptureRecord)
    → existing_of entry.local_capture_id captures ≡ existing
    → is_replica local_id (record_of entry) ≡ true
    → find_replica local_id captures ≡ existing
existing-own local_id entry captures existing looked hit =
    elim (Option-cases entry.local_capture_id) [
      | inl missing ↦ absurd (ground arith)
      | inr (own, is_own) ↦
          let same : own ≡ local_id = (same_text_iff own local_id).0 (ground arith) in
          subst (λ k. find_replica k captures ≡ existing) same (ground arith)
    ]

install-IsStored :
    (entry : DraftEntry) (existing : Option CaptureRecord) (store : CaptureStore)
    → existing_of entry.local_capture_id store.captures ≡ existing
    → IsStored store.captures
    → IsStored (install entry existing store).store.captures
install-IsStored entry none store looked s = record {
  distinct = Distinct-put store.captures entry.id (record_of entry) s.distinct;
  keyed = Keyed-put store.captures entry.id (record_of entry) refl s.keyed;
  single = λ local_id.
      room local_id entry store.captures store.captures
        (λ hit.
          find_replica-none local_id store.captures
            (existing-own local_id entry store.captures none looked hit))
        (s.single local_id);
}
install-IsStored entry (some old) store looked s =
    rw (retire-remove store.captures old stored) (record {
      distinct =
          Distinct-put _ entry.id (record_of entry)
            (Distinct-remove store.captures old.id s.distinct);
      keyed =
          Keyed-put _ entry.id (record_of entry) refl (Keyed-remove store.captures old.id s.keyed);
      single = λ local_id.
          room local_id entry store.captures (remove store.captures old.id)
            (λ hit. omega (
              arith,
              s.single local_id,
              (find_replica-IsFound local_id store.captures old s.distinct s.keyed
                  (existing-own local_id entry store.captures (some old) looked hit)).fewer,
            ))
            (omega (arith, s.single local_id, holders-remove local_id old.id store.captures));
    })
  where
    stored : get store.captures old.id ≡ some old
    stored = elim (Option-cases entry.local_capture_id) [
      | inl missing ↦ absurd (ground arith)
      | inr (own, is_own) ↦
          (find_replica-IsFound own store.captures old s.distinct s.keyed (ground arith)).stored
    ]

-- A commit that installs the draft.
pub record IsInstalled (is_absolute : Text → Bool) (id : Text) (found : Findings)
    (store : CaptureStore) (done : Committed) : Type 0 where
  pub entry : DraftEntry
  pub existing : Option CaptureRecord
  pub known : get store.drafts id ≡ some entry
  pub looked : existing_of entry.local_capture_id store.captures ≡ existing
  pub passed : package_ok is_absolute found entry ≡ true
  pub idle : busy is_absolute found.in_use_at_swap existing ≡ false
  pub installed : done ≡ install entry existing store

-- A commit keeps the captures as they are, or installs the draft.
commit_draft-cases :
    (is_absolute : Text → Bool) (id : Text) (found : Findings) (store : CaptureStore)
    → ((commit_draft is_absolute id found store).store.captures ≡ store.captures)
      ⊎ IsInstalled is_absolute id found store (commit_draft is_absolute id found store)
unfolding commit_draft
commit_draft-cases is_absolute id found store = elim (Option-cases (get store.drafts id)) [
  | inl missing ↦ inl (rw (missing, commit_draft) refl)
  | inr (entry, known) ↦ go entry known (existing_of entry.local_capture_id store.captures) refl
]
  where
    go :
        (entry : DraftEntry)
        → get store.drafts id ≡ some entry
        → (existing : Option CaptureRecord)
        → existing_of entry.local_capture_id store.captures ≡ existing
        → ((commit_draft is_absolute id found store).store.captures ≡ store.captures)
          ⊎ IsInstalled is_absolute id found store (commit_draft is_absolute id found store)
    go entry known none looked =
        elim (Bool-cases (not (length entry.files == 0) && package_ok is_absolute found entry)) [
          | inr refused ↦ inl (ground (arith, known, looked))
          | inl good ↦ inr (record {
            entry = entry;
            existing = none;
            known = known;
            looked = looked;
            passed = ground arith;
            idle = refl;
            installed = ground (arith, known, looked);
          })
        ]
    go entry known (some old) looked =
        elim (Bool-cases (
          not (length entry.files == 0)
          && not (found.replica_ok old)
          && package_ok is_absolute found entry
          && not (found.in_use old.id)
          && not (found.in_use_at_swap old.id))) [
            | inr refused ↦ inl (ground (arith, known, looked))
            | inl good ↦ inr (record {
              entry = entry;
              existing = some old;
              known = known;
              looked = looked;
              passed = ground arith;
              idle = ground arith;
              installed = ground (arith, known, looked);
            })
          ]

-- A commit keeps stored captures that are in order so: each stands under its own id, and no
-- capture of a client has two replicas, whether the commit stores a new one, answers with the old
-- one, replaces a damaged one or is refused.
pub commit_draft-IsStored :
    (is_absolute : Text → Bool) (id : Text) (found : Findings) (store : CaptureStore)
    → IsStored store.captures
    → IsStored (commit_draft is_absolute id found store).store.captures
commit_draft-IsStored is_absolute id found store s =
    elim (commit_draft-cases is_absolute id found store) [
      | inl same ↦ subst IsStored (sym same) s
      | inr i ↦
          subst (λ done. IsStored done.store.captures) (sym i.installed)
            (install-IsStored i.entry i.existing store i.looked s)
    ]

-- A commit changes the stored captures only for a package that is complete by the directory's
-- content, and never while a job reads the replica that it replaces.
pub commit_draft-IsComplete :
    (is_absolute : Text → Bool) (id : Text) (found : Findings) (store : CaptureStore)
    → (commit_draft is_absolute id found store).store.captures ≢ store.captures
    → (entry : DraftEntry) × (get store.drafts id ≡ some entry)
      × IsComplete is_absolute found.has_content
          (keys_of entry.files)
          entry.expected_frame_count
          found.frames_file
      × (busy is_absolute found.in_use_at_swap (existing_of entry.local_capture_id store.captures)
          ≡ false)
commit_draft-IsComplete is_absolute id found store changed =
    elim (commit_draft-cases is_absolute id found store) [
      | inl same ↦ absurd (changed same)
      | inr i ↦ (
        i.entry,
        i.known,
        inspect_capture_package-IsComplete is_absolute found.has_content (keys_of i.entry.files)
            i.entry.expected_frame_count found.frames_file (passes i),
        subst (λ e. busy is_absolute found.in_use_at_swap e ≡ false) (sym i.looked) i.idle,
      )
    ]
  where
    passes :
        (i : IsInstalled is_absolute id found store (commit_draft is_absolute id found store))
        → (inspect_capture_package is_absolute found.has_content
            (keys_of i.entry.files)
            i.entry.expected_frame_count
            found.frames_file).problem
          ≡ none
    passes i =
        elim (Option-cases
          (inspect_capture_package is_absolute found.has_content (keys_of i.entry.files)
            i.entry.expected_frame_count found.frames_file).problem) [
              | inl fine ↦ fine
              | inr (code, bad) ↦ absurd (ground (arith, i.passed))
            ]
