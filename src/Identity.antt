-- ===== src/Identity.antt =====
-- src/identity/identityProof.ts: the message that a node signs to prove its identity.
-- A text field is given by its UTF-8 bytes.
pub mod Binding
pub mod Tests
use kubus_node.Base.{
  ℕ, zero, suc, ◌+◌, ◌-◌, ◌*◌, ◌/◌, ◌%◌, ◌^◌, ◌≤◌, ◌<◌, min, max, bit_and, bit_or, bit_xor, String,
  str_eq, starts_with, eq_iff, eq_refl, ◌≡◌, refl, sym, ap, ap₂, ◌∙◌, subst, ◌≡⟨◌⟩◌, ◌∎, ◌≢◌, ◌↔◌,
  ◌⊎◌, inl, inr, Bool, true, false, not, ◌&&◌, ◌||◌, Option, none, some, List, [], ◌∷◌, ◌++◌, map,
  map-append, append-nil, append_assoc, arith, ltb, leb, ◌==◌, if◌then◌else◌, ltb→lt, lt→ltb,
  le→ltb, leb→le, ==_iff, Bool-cases, Option-cases, is_some, length, get_or, take, drop, concat,
  every, any, All, length-append, length-take, length-drop, take-append-drop, take-append,
  drop-append, All-append, drop-drop, concat-append, Text, units, same_text, same_text_iff,
  begins_with, is_space, holds_unit, cut_unique, text_key, number_key, string_key, Dict, Key, get,
  put, remove, has, get-put, get-put_self, get-put_ne, get-remove, get-remove_self, get-remove_ne,
  length-put, length-remove, Values, Values-put, Values-remove, Values-get,
}

abbrev pub identity_proof_protocol_version : String
identity_proof_protocol_version = "kubus-node/1"

abbrev pub domain_separator : List ℕ
domain_separator = units "kubus-node-identity-proof/v1"

abbrev pub field_terminator : List ℕ
field_terminator = 0 ∷ []

abbrev pub nonce_length : ℕ
nonce_length = 32

abbrev pub public_key_length : ℕ
public_key_length = 32

abbrev pub signature_length : ℕ
signature_length = 64

pub record MessageInput : Type 0 where
  pub protocol_version : List ℕ
  pub session_id : List ℕ
  pub nonce : List ℕ
  pub public_key_raw : List ℕ
  pub client_role : List ℕ

abbrev pub utf8_field : List ℕ → List ℕ
utf8_field value = value ++ field_terminator

-- `none` where the function throws.
unfoldable pub build_identity_proof_message : MessageInput → Option (List ℕ)
build_identity_proof_message input =
    if not (length input.nonce == nonce_length)
    then none
    else if not (length input.public_key_raw == public_key_length)
    then none
    else some (
        concat (
          domain_separator
          ∷ field_terminator
          ∷ utf8_field input.protocol_version
          ∷ utf8_field input.session_id
          ∷ input.nonce
          ∷ input.public_key_raw
          ∷ utf8_field input.client_role
          ∷ []))

-- `sign` is the Ed25519 signature with the node's private key.
pub record NodeIdentity : Type 0 where
  pub public_key_raw : List ℕ
  pub fingerprint : String
  pub sign : List ℕ → List ℕ

pub record IdentityProof : Type 0 where
  pub signature : List ℕ
  pub public_key_raw : List ℕ
  pub fingerprint : String

-- `input` without the key, which is the node's own.
unfoldable pub create_identity_proof :
    NodeIdentity → List ℕ → List ℕ → List ℕ → List ℕ → Option IdentityProof
create_identity_proof identity protocol_version session_id nonce client_role =
    elim (build_identity_proof_message (record {
      protocol_version = protocol_version;
      session_id = session_id;
      nonce = nonce;
      public_key_raw = identity.public_key_raw;
      client_role = client_role;
    })) [
      | none ↦ none
      | some message ↦ some (record {
        signature = identity.sign message;
        public_key_raw = identity.public_key_raw;
        fingerprint = identity.fingerprint;
      })
    ]

-- `verify` is `verifyNodeSignature`: the key, the message and the signature.
unfoldable pub verify_identity_proof :
    (List ℕ → List ℕ → List ℕ → Bool) → List ℕ → MessageInput → Bool
verify_identity_proof verify signature input =
    if not (length input.nonce == nonce_length)
    then false
    else if not (length input.public_key_raw == public_key_length)
    then false
    else if not (length signature == signature_length)
    then false
    else elim (build_identity_proof_message input) [
      | none ↦ false
      | some message ↦ verify input.public_key_raw message signature
    ]
