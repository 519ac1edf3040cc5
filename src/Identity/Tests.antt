-- ===== src/Identity/Tests.antt =====
-- src/identity/identityProof.ts: runs, and the theorems at concrete inputs.
use kubus_node.Base.{
  ℕ, zero, suc, ◌≡◌, refl, Bool, none, List, [], ◌∷◌, ◌++◌, arith, length, units, same_text,
  text_key, number_key, string_key,
}
use kubus_node.Identity.{MessageInput, NodeIdentity, build_identity_proof_message}
use kubus_node.Identity.Binding.{TextFields, build_identity_proof_message_injective}

abbrev row_of : ℕ → ℕ → List ℕ
row_of zero b = []
row_of (suc n) b = b ∷ row_of n b

abbrev input : MessageInput
input = record {
  protocol_version = units "kubus-node/1";
  session_id = units "s";
  nonce = row_of 32 7;
  public_key_raw = row_of 32 9;
  client_role = units "client";
}

short_nonce : build_identity_proof_message (record input { nonce = row_of 31 7 }) ≡ none
unfolding build_identity_proof_message
short_nonce = refl

input-TextFields : TextFields input
input-TextFields = omega arith

build_identity_proof_message_injective_example : input ≡ input
unfolding build_identity_proof_message
build_identity_proof_message_injective_example =
    build_identity_proof_message_injective input input input-TextFields input-TextFields refl refl

abbrev node : NodeIdentity
node = record {
  public_key_raw = row_of 32 9;
  fingerprint = "f";
  sign = λ message. row_of 63 1 ++ length message ∷ [];
}

abbrev verify_length : List ℕ → List ℕ → List ℕ → Bool
verify_length key message signature = same_text signature (row_of 63 1 ++ length message ∷ [])
