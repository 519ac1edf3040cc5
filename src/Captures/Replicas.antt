-- ===== src/Captures/Replicas.antt =====
-- src/captures/captureStore.ts: how many stored replicas a capture of a client has.
use kubus_node.Base.{
  ℕ, ◌+◌, ◌≤◌, ◌≡◌, refl, ap, ◌∙◌, subst, inl, inr, none, some, [], ◌∷◌, arith, if◌then◌else◌,
  Bool-cases, All, Text, same_text, same_text_iff, text_key, number_key, string_key, Dict, get, put,
  remove, get-put, get-remove,
}
use mathlib.Core.Option.{some-injective}
use kubus_node.Captures.Store.{CaptureRecord, is_replica, find_replica}

abbrev pub holders : Text → Dict Text CaptureRecord → ℕ
holders local_id [] = 0
holders local_id ((id, capture) ∷ captures) =
    (if is_replica local_id capture then 1 else 0) + holders local_id captures

-- Keys are distinct.
abbrev pub Distinct : Dict Text CaptureRecord → Type 0
Distinct [] = Unit
Distinct ((id, capture) ∷ captures) = (get captures id ≡ none) × Distinct captures

abbrev pub Keyed : Dict Text CaptureRecord → Type 0
Keyed = All λ e. e.0 ≡ e.1.id

-- Records stand under their ids, and no local capture has two replicas.
pub record IsStored (captures : Dict Text CaptureRecord) : Type 0 where
  pub distinct : Distinct captures
  pub keyed : Keyed captures
  pub single : (local_id : Text) → holders local_id captures ≤ 1

pub Distinct-put :
    (captures : Dict Text CaptureRecord) (id : Text) (capture : CaptureRecord)
    → Distinct captures
    → Distinct (put captures id capture)
unfolding put get
Distinct-put [] id capture d = (refl, tt)
Distinct-put ((at, old) ∷ captures) id capture (d, ds) = ground (
  arith,
  Distinct-put captures id capture ds,
  get-put captures id capture at,
  same_text_iff at id,
  same_text_iff id at,
)

pub Distinct-remove :
    (captures : Dict Text CaptureRecord) (id : Text)
    → Distinct captures
    → Distinct (remove captures id)
unfolding remove
Distinct-remove [] id d = tt
Distinct-remove ((at, old) ∷ captures) id (d, ds) =
    ground (arith, Distinct-remove captures id ds, get-remove captures id at)

pub Keyed-put :
    (captures : Dict Text CaptureRecord) (id : Text) (capture : CaptureRecord)
    → id ≡ capture.id
    → Keyed captures
    → Keyed (put captures id capture)
unfolding put
Keyed-put [] id capture e k = (e, tt)
Keyed-put ((at, old) ∷ captures) id capture e (k, ks) = elim (Bool-cases (same_text at id)) [
  | inl hit ↦ rw hit ((same_text_iff at id).0 hit ∙ e, ks)
  | inr miss ↦ rw miss (k, Keyed-put captures id capture e ks)
]

pub Keyed-remove :
    (captures : Dict Text CaptureRecord) (id : Text) → Keyed captures → Keyed (remove captures id)
unfolding remove
Keyed-remove [] id k = tt
Keyed-remove ((at, old) ∷ captures) id (k, ks) = elim (Bool-cases (same_text at id)) [
  | inl hit ↦ rw hit (Keyed-remove captures id ks)
  | inr miss ↦ rw miss (k, Keyed-remove captures id ks)
]

pub holders-put :
    (local_id id : Text) (captures : Dict Text CaptureRecord) (capture : CaptureRecord)
    → holders local_id (put captures id capture)
      ≤ holders local_id captures + (if is_replica local_id capture then 1 else 0)
unfolding put
holders-put local_id id [] capture = omega arith
holders-put local_id id ((at, old) ∷ captures) capture = elim (Bool-cases (same_text at id)) [
  | inl hit ↦ rw hit (omega arith)
  | inr miss ↦ rw miss (omega (arith, holders-put local_id id captures capture))
]

pub holders-remove :
    (local_id id : Text) (captures : Dict Text CaptureRecord)
    → holders local_id (remove captures id) ≤ holders local_id captures
unfolding remove
holders-remove local_id id [] = omega arith
holders-remove local_id id ((at, old) ∷ captures) = elim (Bool-cases (same_text at id)) [
  | inl hit ↦ rw hit (omega (arith, holders-remove local_id id captures))
  | inr miss ↦ rw miss (omega (arith, holders-remove local_id id captures))
]

pub find_replica-none :
    (local_id : Text) (captures : Dict Text CaptureRecord)
    → find_replica local_id captures ≡ none
    → holders local_id captures ≡ 0
unfolding find_replica
find_replica-none local_id [] h = refl
find_replica-none local_id ((at, old) ∷ captures) h = elim (Bool-cases (is_replica local_id old)) [
  | inl hit ↦ absurd (ground arith)
  | inr miss ↦ rw miss (omega (arith, find_replica-none local_id captures (ground arith)))
]

-- The record that is found is stored under its id, and without it one replica fewer is left.
pub record IsFound (local_id : Text) (captures : Dict Text CaptureRecord) (capture : CaptureRecord)
    : Type 0 where
  pub stored : get captures capture.id ≡ some capture
  pub fewer : holders local_id (remove captures capture.id) + 1 ≤ holders local_id captures

pub find_replica-IsFound :
    (local_id : Text) (captures : Dict Text CaptureRecord) (capture : CaptureRecord)
    → Distinct captures
    → Keyed captures
    → find_replica local_id captures ≡ some capture
    → IsFound local_id captures capture
unfolding find_replica get remove
find_replica-IsFound local_id [] capture d k h = absurd (ground arith)
find_replica-IsFound local_id ((at, old) ∷ captures) capture (d, ds) (k, ks) h =
    elim (Bool-cases (is_replica local_id old)) [
      | inl hit ↦
          let same : old ≡ capture = some-injective _ _ (ground arith) in
          let own = (same_text_iff at capture.id).1 (k ∙ ap (λ c. c.id) same) in
          record {
            stored = rw own (ap some same);
            fewer = rw (own, hit) (omega (arith, holders-remove local_id capture.id captures));
          }
      | inr miss ↦
          let rest = find_replica-IsFound local_id captures capture ds ks (ground arith) in
          elim (Bool-cases (same_text at capture.id)) [
            | inl clash ↦ absurd (
                ground (
                  arith,
                  subst (λ x. get captures x ≡ none) ((same_text_iff at capture.id).0 clash) d,
                  rest.stored,
                ))
            | inr apart ↦ record {
              stored = rw apart rest.stored;
              fewer = rw (apart, miss) (omega (arith, rest.fewer));
            }
          ]
    ]
