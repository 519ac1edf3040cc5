-- ===== src/Captures/Paths.antt =====
-- src/captures/captureStore.ts: which paths of files are let in.
use kubus_node.Base.{
  ℕ, ◌≡◌, refl, sym, ◌∙◌, subst, ◌≢◌, inl, inr, Bool, true, false, ◌||◌, some, List, [], ◌∷◌, ◌++◌,
  append_assoc, arith, ◌==◌, if◌then◌else◌, if-both, Bool-cases, All, Text, units, same_text,
  same_text_iff, begins_with, text_key, number_key, string_key,
}
use kubus_node.Captures.{slashes, strip_slashes, holds_dots, is_blank, safe_relative_path}

slashes-slashes : (text : Text) → slashes (slashes text) ≡ slashes text
slashes-slashes [] = refl
slashes-slashes (c ∷ text) = ground (arith, slashes-slashes text)

slashes-strip_slashes :
    (text : Text) → slashes text ≡ text → slashes (strip_slashes text) ≡ strip_slashes text
slashes-strip_slashes [] h = refl
slashes-strip_slashes (c ∷ text) h = ground (arith, slashes-strip_slashes text)

strip_slashes-strip_slashes :
    (text : Text) → strip_slashes (strip_slashes text) ≡ strip_slashes text
strip_slashes-strip_slashes [] = refl
strip_slashes-strip_slashes (c ∷ text) = ground (arith, strip_slashes-strip_slashes text)

no_backslash : (text : Text) → slashes text ≡ text → All (λ c. c ≢ 92) text
no_backslash [] h = tt
no_backslash (c ∷ text) h = ((λ e. ground arith), no_backslash text (ground arith))

-- The parts of a path between its slashes.
abbrev first_part : List Text → Text
first_part [] = []
first_part (part ∷ parts) = part

abbrev other_parts : List Text → List Text
other_parts [] = []
other_parts (part ∷ parts) = parts

abbrev pub segments : Text → List Text
segments [] = [] ∷ []
segments (c ∷ text) =
    let rest = segments text in
    if c == b'/' then [] ∷ rest else (c ∷ first_part rest) ∷ other_parts rest

abbrev parent : List Text → List Text
parent [] = []
parent (name ∷ names) = names

-- Where a file system gets to from a directory, its innermost name first, by the parts of a path.
abbrev pub walk : List Text → List Text → List Text
walk directory [] = directory
walk directory (part ∷ parts) =
    if same_text part (units "..")
    then walk (parent directory) parts
    else if same_text part (units ".") || is_blank part
    then walk directory parts
    else walk (part ∷ directory) parts

-- No part of the path is `..`.
abbrev IsPlain : List Text → Type 0
IsPlain = All λ part. same_text part (units "..") ≡ false

pub record IsRelative (path : Text) : Type 0 where
  pub given : is_blank path ≡ false
  pub stays_inside :
      (directory : List Text)
      → (inner : List Text) × (walk directory (segments path) ≡ inner ++ directory)
  pub stripped : strip_slashes path ≡ path
  pub one_separator : All (λ c. c ≢ 92) path

first_part-begins :
    (text : Text) (d : ℕ) (rest : Text)
    → first_part (segments text) ≡ d ∷ rest
    → begins_with text (d ∷ []) ≡ true
first_part-begins [] d rest h = absurd (ground arith)
first_part-begins (c ∷ text) d rest h = ground arith

other_parts-IsPlain : (parts : List Text) → IsPlain parts → IsPlain (other_parts parts)
other_parts-IsPlain [] h = tt
other_parts-IsPlain (part ∷ parts) h = h.1

first_part-plain :
    (c : ℕ) (text : Text)
    → holds_dots (c ∷ text) ≡ false
    → same_text (c ∷ first_part (segments text)) (units "..") ≡ false
first_part-plain c text h =
    elim (Bool-cases (same_text (c ∷ first_part (segments text)) (units ".."))) [
      | inr other ↦ other
      | inl dots ↦
          let parent : c ∷ first_part (segments text) ≡ units ".." =
            (same_text_iff (c ∷ first_part (segments text)) (units "..")).0 dots in
          let next : begins_with text (46 ∷ []) ≡ true =
            first_part-begins text 46 [] (ground (arith, parent)) in
          ground (arith, next, parent)
    ]

segments-IsPlain : (path : Text) → holds_dots path ≡ false → IsPlain (segments path)
segments-IsPlain [] h = (refl, tt)
segments-IsPlain (c ∷ text) h =
    let rest : IsPlain (segments text) = segments-IsPlain text (ground (arith, h)) in
    if-both IsPlain (c == b'/') (refl, rest)
      (first_part-plain c text h, other_parts-IsPlain (segments text) rest)

walk-inside :
    (parts : List Text)
    → IsPlain parts
    → (directory : List Text) → (inner : List Text) × (walk directory parts ≡ inner ++ directory)
walk-inside [] plain directory = ([], refl)
walk-inside (part ∷ parts) plain directory =
    elim (Bool-cases (same_text part (units ".") || is_blank part)) [
      | inl stays ↦ rw (plain.0, stays) (walk-inside parts plain.1 directory)
      | inr goes ↦
          let (inner, there) = walk-inside parts plain.1 (part ∷ directory) in
          rw (plain.0, goes)
            (inner ++ part ∷ [], there ∙ sym (append_assoc inner (part ∷ []) directory))
    ]

-- A path that is let in leads, from any directory, to that directory or to a place below it; it is
-- not empty, has no leading slash and no backslash, and is let in again unchanged.
pub safe_relative_path-IsRelative :
    (is_absolute : Text → Bool) (raw path : Text)
    → safe_relative_path is_absolute raw ≡ some path
    → IsRelative path × (safe_relative_path is_absolute path ≡ some path)
unfolding safe_relative_path
safe_relative_path-IsRelative is_absolute raw path accepted = (
  record {
    given = ground arith;
    stays_inside = walk-inside (segments path) (segments-IsPlain path (ground arith));
    stripped = strip;
    one_separator = no_backslash path slash;
  },
  rw (slash, strip) (ground arith),
)
  where
    form : strip_slashes (slashes raw) ≡ path
    form = ground arith

    strip : strip_slashes path ≡ path
    strip = subst (λ p. strip_slashes p ≡ p) form (strip_slashes-strip_slashes (slashes raw))

    slash : slashes path ≡ path
    slash =
        subst (λ p. slashes p ≡ p) form (slashes-strip_slashes (slashes raw) (slashes-slashes raw))
