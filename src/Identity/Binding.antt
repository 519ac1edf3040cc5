-- ===== src/Identity/Binding.antt =====
-- src/identity/identityProof.ts: what a signed message fixes, and that a proof is accepted.
use kubus_node.Base.{
  ℕ, ◌≡◌, refl, sym, ap₂, ◌∙◌, ◌≢◌, inl, inr, Bool, true, some, List, [], ◌∷◌, ◌++◌, append_assoc,
  arith, ◌==◌, ==_iff, Bool-cases, length, concat, All, cut_unique, text_key, number_key,
  string_key,
}
use mathlib.Core.Option.{some-injective}
use kubus_node.Identity.{
  MessageInput, NodeIdentity, IdentityProof, build_identity_proof_message, create_identity_proof,
  verify_identity_proof, nonce_length, public_key_length, signature_length, utf8_field,
  domain_separator, field_terminator,
}

-- The text holds no NUL, which ends a field.
abbrev pub NoNul : List ℕ → Type 0
NoNul = All λ c. c ≢ 0

abbrev pub TextFields : MessageInput → Type 0
TextFields input = NoNul input.protocol_version × NoNul input.session_id × NoNul input.client_role

-- Two rows of bytes of one length at the front of two lists are cut alike.
same_cut :
    (xs ys : List ℕ) (us vs : List ℕ)
    → length xs ≡ length ys
    → xs ++ us ≡ ys ++ vs
    → (xs ≡ ys) × (us ≡ vs)
same_cut [] [] us vs n e = ground arith
same_cut [] (y ∷ ys) us vs n e = absurd (ground arith)
same_cut (x ∷ xs) [] us vs n e = absurd (ground arith)
same_cut (x ∷ xs) (y ∷ ys) us vs n e =
    let (same, rest) = same_cut xs ys us vs (ground arith) (ground arith) in
    (ap₂ ◌∷◌ (ground arith) same, rest)

field_cut :
    (s t : List ℕ) (us vs : List ℕ)
    → NoNul s
    → NoNul t
    → utf8_field s ++ us ≡ utf8_field t ++ vs
    → (s ≡ t) × (us ≡ vs)
field_cut s t us vs hs ht e =
    cut_unique 0 s t us vs hs ht (sym (append_assoc s (0 ∷ []) us) ∙ e ∙ append_assoc t (0 ∷ []) vs)

-- The text after the domain separator.
abbrev after_session : MessageInput → List ℕ
after_session input =
    concat (input.nonce ∷ input.public_key_raw ∷ utf8_field input.client_role ∷ [])

abbrev after_version : MessageInput → List ℕ
after_version input = utf8_field input.session_id ++ after_session input

abbrev fields_row : MessageInput → List ℕ
fields_row input = utf8_field input.protocol_version ++ after_version input

build_identity_proof_message-built :
    (input : MessageInput) {message : List ℕ}
    → build_identity_proof_message input ≡ some message
    → (length input.nonce ≡ nonce_length)
      × (length input.public_key_raw ≡ public_key_length)
      × ((domain_separator ++ field_terminator) ++ fields_row input ≡ message)
unfolding build_identity_proof_message
build_identity_proof_message-built input {message} e =
    elim (Bool-cases (length input.nonce == nonce_length)) [
      | inr miss ↦ absurd (ground (arith))
      | inl n ↦ elim (Bool-cases (length input.public_key_raw == public_key_length)) [
        | inr miss ↦ absurd (ground arith)
        | inl k ↦ ((==_iff _ _).0 n, (==_iff _ _).0 k, some-injective _ _ (rw (n, k) at e))
      ]
    ]

fields_row_injective :
    (a b : MessageInput)
    → TextFields a
    → TextFields b
    → length a.nonce ≡ length b.nonce
    → length a.public_key_raw ≡ length b.public_key_raw
    → fields_row a ≡ fields_row b
    → a ≡ b
fields_row_injective a b ha hb n k e =
    let (version, e1) =
      field_cut a.protocol_version b.protocol_version (after_version a) (after_version b) ha.0 hb.0
        e in
    let (session, e2) =
      field_cut a.session_id b.session_id (after_session a) (after_session b) ha.1 hb.1 e1 in
    let (nonce, e3) = same_cut a.nonce b.nonce _ _ n e2 in
    let (key, e4) = same_cut a.public_key_raw b.public_key_raw _ _ k e3 in
    let (role, e5) = field_cut a.client_role b.client_role [] [] ha.2 hb.2 e4 in ground arith

-- Two messages that are equal were made of the same fields: a signature for one session, nonce, key
-- and role says nothing of another, where no text field holds a NUL.
pub build_identity_proof_message_injective :
    (a b : MessageInput) {message : List ℕ}
    → TextFields a
    → TextFields b
    → build_identity_proof_message a ≡ some message
    → build_identity_proof_message b ≡ some message
    → a ≡ b
unfolding build_identity_proof_message
build_identity_proof_message_injective a b {message} ha hb ea eb =
    let (na, ka, ra) = build_identity_proof_message-built a ea in
    let (nb, kb, rb) = build_identity_proof_message-built b eb in
    fields_row_injective a b ha hb (na ∙ sym nb) (ka ∙ sym kb)
      (same_cut (domain_separator ++ field_terminator) (domain_separator ++ field_terminator) _ _
        refl (ra ∙ sym rb)).1

build_identity_proof_message-takes :
    (input : MessageInput)
    → length input.nonce ≡ nonce_length
    → length input.public_key_raw ≡ public_key_length
    → build_identity_proof_message input
      ≡ some ((domain_separator ++ field_terminator) ++ fields_row input)
unfolding build_identity_proof_message
build_identity_proof_message-takes input n k = rw (n, k) refl

-- A node's own proof is accepted under its key, where signatures have 64 bytes and verify.
verify_identity_proof-create_identity_proof :
    (identity : NodeIdentity) (verify : List ℕ → List ℕ → List ℕ → Bool)
    → ((message : List ℕ) → verify identity.public_key_raw message (identity.sign message) ≡ true)
    → ((message : List ℕ) → length (identity.sign message) ≡ signature_length)
    → length identity.public_key_raw ≡ public_key_length
    → (protocol_version session_id nonce client_role : List ℕ) → length nonce ≡ nonce_length
    → (proof : IdentityProof) × (create_identity_proof identity protocol_version session_id nonce
          client_role
        ≡ some proof)
      × (verify_identity_proof verify proof.signature (record {
        protocol_version = protocol_version;
        session_id = session_id;
        nonce = nonce;
        public_key_raw = proof.public_key_raw;
        client_role = client_role;
      })
          ≡ true)
unfolding create_identity_proof verify_identity_proof
verify_identity_proof-create_identity_proof identity verify sound long key v s nonce r n =
    let input : MessageInput = record {
      protocol_version = v;
      session_id = s;
      nonce = nonce;
      public_key_raw = identity.public_key_raw;
      client_role = r;
    } in
    let built = build_identity_proof_message-takes input n key in
    (
      record {
        signature = identity.sign ((domain_separator ++ field_terminator) ++ fields_row input);
        public_key_raw = identity.public_key_raw;
        fingerprint = identity.fingerprint;
      },
      rw (built, create_identity_proof) refl,
      rw (built, verify_identity_proof, n, key, long) (sound _),
    )
