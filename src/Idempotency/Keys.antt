-- ===== src/Idempotency/Keys.antt =====
-- src/localApi/idempotencyStore.ts: what a usable key is, and how a credential scopes it.
use kubus_node.Base.{
  ◌≤◌, ◌≡◌, refl, sym, ap, ◌≢◌, true, Option, none, some, [], ◌∷◌, arith, length, every, All, Text,
  units, cut_unique, text_key, number_key, string_key,
}
use mathlib.Core.Option.{some-injective}
use kubus_node.Idempotency.{
  normalize_idempotency_key, min_key_length, max_key_length, key_unit, scoped_key, subject,
}

-- A key is used only as it was given, within the length bounds and of the permitted characters.
normalize_idempotency_key_sound :
    (raw : Option Text) (key : Text)
    → normalize_idempotency_key raw ≡ some key
    → (raw ≡ some key)
      × (min_key_length ≤ length key)
      × (length key ≤ max_key_length)
      × (every key_unit key ≡ true)
unfolding normalize_idempotency_key
normalize_idempotency_key_sound none key h = absurd (ground arith)
normalize_idempotency_key_sound (some raw) key h =
    let same : raw ≡ key = some-injective _ _ (ground arith) in rw (← same) (ground arith)

abbrev pub NoColon : Text → Type 0
NoColon = All λ c. c ≢ b':'

anonymous-NoColon : NoColon (units "anonymous")
anonymous-NoColon = omega arith

module _ (hash : Text → Text) (hex : (credential : Text) → NoColon (hash credential)) where
  subject-NoColon : (credential : Option Text) → NoColon (subject hash credential)
  subject-NoColon none = anonymous-NoColon
  subject-NoColon (some []) = anonymous-NoColon
  subject-NoColon (some (c ∷ credential)) = hex (c ∷ credential)

-- The credential that a claim is made with; an empty one is none.
abbrev pub bearer : Option Text → Option Text
bearer none = none
bearer (some []) = none
bearer (some (c ∷ credential)) = some (c ∷ credential)

module _ (hash : Text → Text)
    (hex : (credential : Text) → hash credential ≢ units "anonymous") where
  subject_injective :
      (credential stranger : Option Text)
      → ((c d : Text) → credential ≡ some c → stranger ≡ some d → hash c ≡ hash d → c ≡ d)
      → subject hash credential ≡ subject hash stranger
      → bearer credential ≡ bearer stranger
  subject_injective none none apart same = refl
  subject_injective none (some []) apart same = refl
  subject_injective none (some (d ∷ stranger)) apart same = absurd (hex (d ∷ stranger) (sym same))
  subject_injective (some []) none apart same = refl
  subject_injective (some []) (some []) apart same = refl
  subject_injective (some []) (some (d ∷ stranger)) apart same =
      absurd (hex (d ∷ stranger) (sym same))
  subject_injective (some (c ∷ credential)) none apart same = absurd (hex (c ∷ credential) same)
  subject_injective (some (c ∷ credential)) (some []) apart same =
      absurd (hex (c ∷ credential) same)
  subject_injective (some (c ∷ credential)) (some (d ∷ stranger)) apart same =
      ap some (apart (c ∷ credential) (d ∷ stranger) refl refl same)

-- Two claims meet in one entry of the map only if their keys are equal and they are made with the
-- same credential, or both without one. (A hash is no text with a colon and not the word "anonymous",
-- and the hashes of the two credentials are equal only if the credentials are.)
pub scoped_key_injective :
    (hash : Text → Text)
    → ((credential : Text) → NoColon (hash credential))
    → ((credential : Text) → hash credential ≢ units "anonymous")
    → (key other : Text) (credential stranger : Option Text)
    → ((c d : Text) → credential ≡ some c → stranger ≡ some d → hash c ≡ hash d → c ≡ d)
    → scoped_key hash key credential ≡ scoped_key hash other stranger
    → (bearer credential ≡ bearer stranger) × (key ≡ other)
scoped_key_injective hash hex word key other credential stranger apart same =
    let (subjects, keys) =
      cut_unique b':' (subject hash credential) (subject hash stranger) key other
        (subject-NoColon hash hex credential) (subject-NoColon hash hex stranger) same in
    (subject_injective hash word credential stranger apart subjects, keys)
