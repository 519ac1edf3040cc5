-- ===== src/Captures/Complete.antt =====
-- src/captures/capturePackage.ts: what a package that passes the inspection holds.
use kubus_node.Base.{
  ℕ, ◌≤◌, String, ◌≡◌, refl, ◌⊎◌, inl, inr, Bool, true, Option, none, some, List, [], ◌∷◌, arith,
  Bool-cases, Option-cases, All, Text, units, text_key, number_key, string_key,
}
use kubus_node.Json.{Json, null, bool, num, str, arr, obj, Items, nil, cons, Fields, member}
use kubus_node.Captures.{safe_relative_path}
use kubus_node.Captures.Package.{
  FramesFile, unreadable, malformed, parsed, items_length, both, check_raw, check_declared,
  check_required, check_optional, check_frame, check_frames, count_agrees, inspect_frames,
  has_schema, inspect_document, inspect_capture_package,
}

module _ (is_absolute : Text → Bool) (has_content : Text → Bool) where
  -- The path is let in, and the directory holds its file.
  pub record IsThere (raw : Text) : Type 0 where
    pub path : Text
    pub inside : safe_relative_path is_absolute raw ≡ some path
    pub held : has_content path ≡ true

  abbrev pub Named : Option Json → Type 0
  Named value = (raw : String) × (value ≡ some (str raw)) × IsThere (units raw)

  abbrev pub FrameHolds : Json → Type 0
  FrameHolds frame =
      (fields : Fields) × (frame ≡ obj fields)
      × Named (member "rgbPath" fields)
      × ((member "depthPath" fields ≡ none)
          ⊎ (member "depthPath" fields ≡ some null)
          ⊎ Named (member "depthPath" fields))
      × ((member "depthConfidencePath" fields ≡ none)
          ⊎ (member "depthConfidencePath" fields ≡ some null)
          ⊎ Named (member "depthConfidencePath" fields))

  abbrev pub FramesHold : Items → Type 0
  FramesHold nil = Unit
  FramesHold (cons frame frames) = FrameHolds frame × FramesHold frames

  pub record IsComplete (declared : List Text) (expected : Option ℕ) (file : FramesFile)
      : Type 0 where
    pub declared_there : All IsThere declared
    pub fields : Fields
    pub frames : Items
    pub document : file ≡ parsed (obj fields)
    pub listed : member "frames" fields ≡ some (arr frames)
    pub frames_hold : FramesHold frames
    pub some_frame : 1 ≤ items_length frames
    pub few_frames : items_length frames ≤ 5000
    pub agrees : count_agrees is_absolute has_content expected (items_length frames) ≡ true

  check_raw-IsThere : (raw : Text) → check_raw is_absolute has_content raw ≡ some [] → IsThere raw
  check_raw-IsThere raw h = elim (Option-cases (safe_relative_path is_absolute raw)) [
    | inl bad ↦ absurd (ground arith)
    | inr (path, good) ↦ record { path = path; inside = good; held = ground arith }
  ]

  both-none : (a b : Option (List Text)) → both a b ≡ some [] → (a ≡ some []) × (b ≡ some [])
  both-none none b h = absurd (ground arith)
  both-none (some missing) none h = absurd (ground arith)
  both-none (some []) (some more) h = (refl, h)
  both-none (some (path ∷ missing)) (some more) h = absurd (ground arith)

  check_declared-IsThere :
      (declared : List Text)
      → check_declared is_absolute has_content declared ≡ some []
      → All IsThere declared
  unfolding check_declared
  check_declared-IsThere [] h = tt
  check_declared-IsThere (raw ∷ declared) h =
      let (first, rest) =
        both-none (check_raw is_absolute has_content raw)
          (check_declared is_absolute has_content declared) h in
      (check_raw-IsThere raw first, check_declared-IsThere declared rest)

  check_required-Named :
      (value : Option Json) → check_required is_absolute has_content value ≡ some [] → Named value
  check_required-Named none h = absurd (ground arith)
  check_required-Named (some null) h = absurd (ground arith)
  check_required-Named (some (bool b)) h = absurd (ground arith)
  check_required-Named (some (num n)) h = absurd (ground arith)
  check_required-Named (some (str raw)) h = (raw, refl, check_raw-IsThere (units raw) h)
  check_required-Named (some (arr items)) h = absurd (ground arith)
  check_required-Named (some (obj fields)) h = absurd (ground arith)

  check_optional-Named :
      (value : Option Json)
      → check_optional is_absolute has_content value ≡ some []
      → (value ≡ none) ⊎ (value ≡ some null) ⊎ Named value
  check_optional-Named none h = inl refl
  check_optional-Named (some null) h = inr (inl refl)
  check_optional-Named (some (bool b)) h = absurd (ground arith)
  check_optional-Named (some (num n)) h = absurd (ground arith)
  check_optional-Named (some (str raw)) h = inr (inr (raw, refl, check_raw-IsThere (units raw) h))
  check_optional-Named (some (arr items)) h = absurd (ground arith)
  check_optional-Named (some (obj fields)) h = absurd (ground arith)

  check_frame-FrameHolds :
      (frame : Json) → check_frame is_absolute has_content frame ≡ some [] → FrameHolds frame
  check_frame-FrameHolds null h = absurd (ground arith)
  check_frame-FrameHolds (bool b) h = absurd (ground arith)
  check_frame-FrameHolds (num n) h = absurd (ground arith)
  check_frame-FrameHolds (str s) h = absurd (ground arith)
  check_frame-FrameHolds (arr items) h = absurd (ground arith)
  check_frame-FrameHolds (obj fields) h =
      let (rgb, optional) = both-none _ _ h in
      let (depth, confidence) = both-none _ _ optional in
      (
        fields,
        refl,
        check_required-Named _ rgb,
        check_optional-Named _ depth,
        check_optional-Named _ confidence,
      )

  check_frames-FramesHold :
      (frames : Items) → check_frames is_absolute has_content frames ≡ some [] → FramesHold frames
  unfolding check_frames
  check_frames-FramesHold nil h = tt
  check_frames-FramesHold (cons frame frames) h =
      let (first, rest) =
        both-none (check_frame is_absolute has_content frame)
          (check_frames is_absolute has_content frames) h in
      (check_frame-FrameHolds frame first, check_frames-FramesHold frames rest)

  inspect_frames-IsComplete :
      (declared : List Text) (expected : Option ℕ) (fields : Fields) (value : Option Json)
      → All IsThere declared
      → member "frames" fields ≡ value
      → (inspect_frames is_absolute has_content expected value).problem ≡ none
      → IsComplete declared expected (parsed (obj fields))
  inspect_frames-IsComplete declared expected fields none d m h = absurd (ground arith)
  inspect_frames-IsComplete declared expected fields (some null) d m h = absurd (ground arith)
  inspect_frames-IsComplete declared expected fields (some (bool b)) d m h = absurd (ground arith)
  inspect_frames-IsComplete declared expected fields (some (num n)) d m h = absurd (ground arith)
  inspect_frames-IsComplete declared expected fields (some (str s)) d m h = absurd (ground arith)
  inspect_frames-IsComplete declared expected fields (some (obj o)) d m h = absurd (ground arith)
  inspect_frames-IsComplete declared expected fields (some (arr nil)) d m h = absurd (ground arith)
  inspect_frames-IsComplete declared expected fields (some (arr (cons frame frames))) d m h =
      go (check_frames is_absolute has_content (cons frame frames)) refl
    where
      go :
          (found : Option (List Text))
          → check_frames is_absolute has_content (cons frame frames) ≡ found
          → IsComplete declared expected (parsed (obj fields))
      go none e = absurd (ground arith)
      go (some (path ∷ missing)) e = absurd (ground arith)
      go (some []) e = record {
        declared_there = d;
        fields = fields;
        frames = cons frame frames;
        document = refl;
        listed = m;
        frames_hold = check_frames-FramesHold (cons frame frames) e;
        some_frame = omega arith;
        few_frames = ground arith;
        agrees = ground arith;
      }

  inspect_document-IsComplete :
      (declared : List Text) (expected : Option ℕ) (file : FramesFile)
      → All IsThere declared
      → (inspect_document is_absolute has_content expected file).problem ≡ none
      → IsComplete declared expected file
  inspect_document-IsComplete declared expected unreadable d h = absurd (ground arith)
  inspect_document-IsComplete declared expected malformed d h = absurd (ground arith)
  inspect_document-IsComplete declared expected (parsed null) d h = absurd (ground arith)
  inspect_document-IsComplete declared expected (parsed (bool b)) d h = absurd (ground arith)
  inspect_document-IsComplete declared expected (parsed (num n)) d h = absurd (ground arith)
  inspect_document-IsComplete declared expected (parsed (str s)) d h = absurd (ground arith)
  inspect_document-IsComplete declared expected (parsed (arr items)) d h = absurd (ground arith)
  inspect_document-IsComplete declared expected (parsed (obj fields)) d h =
      elim (Bool-cases (has_schema is_absolute has_content (member "schema" fields))) [
        | inr other ↦ absurd (ground arith)
        | inl ours ↦
            inspect_frames-IsComplete declared expected fields (member "frames" fields) d refl
              (ground arith)
      ]

  -- A package that passes the inspection is complete: every declared file and every image that a
  -- frame names lies inside the directory and has content, each depth file that a frame declares
  -- too, there are between 1 and 5000 frames, and as many as the client stated, if it did.
  pub inspect_capture_package-IsComplete :
      (declared : List Text) (expected : Option ℕ) (file : FramesFile)
      → (inspect_capture_package is_absolute has_content declared expected file).problem ≡ none
      → IsComplete declared expected file
  unfolding inspect_capture_package
  inspect_capture_package-IsComplete declared expected file h =
      go (check_declared is_absolute has_content declared) refl
    where
      go :
          (found : Option (List Text))
          → check_declared is_absolute has_content declared ≡ found
          → IsComplete declared expected file
      go none e = absurd (ground arith)
      go (some (path ∷ missing)) e = absurd (ground arith)
      go (some []) e =
          inspect_document-IsComplete declared expected file (check_declared-IsThere declared e)
            (ground arith)
