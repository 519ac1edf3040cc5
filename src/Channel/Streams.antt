-- ===== src/Channel/Streams.antt =====
-- src/webrtc/channelServer.ts, `bodyFor`: a body read as a stream is the body read whole.
use kubus_node.Base.{
  ℕ, zero, suc, ◌≤◌, ◌<◌, ◌≡◌, refl, ap, ◌∙◌, ◌⊎◌, inl, inr, List, [], ◌∷◌, ◌++◌, arith, length,
  take, drop, concat, All, length-take, length-drop, take-append-drop, text_key, number_key,
  string_key,
}
use kubus_node.Frame.{max_payload_length}
use kubus_node.Channel.{InFlight, BodyFailure, BodyPromise, pending, resolved, rejected}
use kubus_node.Channel.Bodies.{got, subarrays, body_stream, sized_body, body_binary}

concat-subarrays :
    (size fuel : ℕ) (bytes : List ℕ)
    → 0 < size
    → length bytes ≤ fuel
    → concat (subarrays size fuel bytes) ≡ bytes
unfolding subarrays
concat-subarrays size zero [] pos h = refl
concat-subarrays size zero (b ∷ bytes) pos h = absurd (omega arith)
concat-subarrays size (suc fuel) [] pos h = refl
concat-subarrays size (suc fuel) (b ∷ bytes) pos h =
    let rest =
      concat-subarrays size fuel (drop size (b ∷ bytes)) pos
        (rw (length-drop size (b ∷ bytes)) (omega arith)) in
    ap (λ v. take size (b ∷ bytes) ++ v) rest ∙ take-append-drop size (b ∷ bytes)

-- A piece is not empty, and is no longer than the size.
abbrev pub IsPiece : ℕ → List ℕ → Type 0
IsPiece size piece = (0 < length piece) × (length piece ≤ size)

subarrays-IsPiece :
    (size fuel : ℕ) (bytes : List ℕ) → 0 < size → All (IsPiece size) (subarrays size fuel bytes)
unfolding subarrays
subarrays-IsPiece size zero bytes pos = tt
subarrays-IsPiece size (suc fuel) [] pos = tt
subarrays-IsPiece size (suc fuel) (b ∷ bytes) pos =
    (piece, subarrays-IsPiece size fuel (drop size (b ∷ bytes)) pos)
  where
    piece : IsPiece size (take size (b ∷ bytes))
    piece = rw (length-take size (b ∷ bytes)) (omega arith, omega arith)

sized_body-got :
    (max_bytes : ℕ) (body bytes : List ℕ) → sized_body max_bytes body ≡ got bytes → body ≡ bytes
unfolding sized_body
sized_body-got max_bytes body bytes h = ground arith

-- What `binary` gives of a body, `stream` gives in pieces of at most one frame's payload, none of
-- them empty, whose concatenation it is.
pub body_stream-body_binary :
    (max_bytes : ℕ) (entry : InFlight) (bytes : List ℕ)
    → body_binary max_bytes entry ≡ got bytes
    → (pieces : List (List ℕ)) × (body_stream entry ≡ got pieces)
      × (concat pieces ≡ bytes)
      × All (IsPiece max_payload_length) pieces
unfolding body_stream body_binary
body_stream-body_binary max_bytes entry bytes h = elim (BodyPromise-cases entry.body_promise) [
  | inl open' ↦ absurd (ground arith)
  | inr (inl (why, e)) ↦ absurd (ground arith)
  | inr (inr (body, e)) ↦
      let same = sized_body-got max_bytes body bytes (rw (e, body_binary) at h) in
      let size : 0 < max_payload_length = omega arith in
      (
        subarrays max_payload_length (length body) body,
        rw (e, body_stream) refl,
        concat-subarrays max_payload_length (length body) body size (omega arith) ∙ same,
        subarrays-IsPiece max_payload_length (length body) body size,
      )
]
  where
    BodyPromise-cases :
        (promise : BodyPromise)
        → (promise ≡ pending)
          ⊎ ((why : BodyFailure) × (promise ≡ rejected why))
          ⊎ ((body : List ℕ) × (promise ≡ resolved body))
    BodyPromise-cases pending = inl refl
    BodyPromise-cases (rejected why) = inr (inl (why, refl))
    BodyPromise-cases (resolved body) = inr (inr (body, refl))
