-- ===== src/Frame/Transport.antt =====
-- src/webrtc/frameCodec.ts and src/webrtc/channelServer.ts: a body survives being split into frames and collected.
use kubus_node.Base.{
  ℕ, ◌+◌, ◌≤◌, ◌<◌, ◌≡◌, refl, sym, ap, ◌∙◌, subst, Option, none, some, List, [], ◌∷◌, ◌++◌, map,
  append-nil, append_assoc, arith, le→ltb, ==_iff, length, take, concat, length-append, take-append,
  concat-append,
}
use kubus_node.Json.{member}
use kubus_node.Frame.{FrameType, KubusFrame, flag_final, or_empty}
use kubus_node.Frame.RoundTrip.{or_empty-nonempty}
use kubus_node.Frame.Crc.{crc_start, crc_add, crc_value, crc_add-append}
use kubus_node.Frame.Stream.{
  Splitter, chunk_frame, split_from, final_metadata, final_frame, splitter_start, split_into_frames,
  Reassembler, new_reassembler, append, verify, take_body,
}
use kubus_node.Frame.Split.{split_from-IsSplit}
use kubus_node.Frame.Receive.{
  settle, waiting, delivered, receive_chunk, receive_all, is_final_frame,
}

-- The reassembler has taken in exactly the bytes `body`.
pub record Holds (r : Reassembler) (body : List ℕ) : Type 0 where
  pub received : r.received ≡ length body
  pub crc : r.crc ≡ crc_add crc_start body
  pub chunks : concat r.chunks ≡ body

concat_snoc : (xs : List (List ℕ)) (x : List ℕ) → concat (xs ++ x ∷ []) ≡ concat xs ++ x
concat_snoc xs x = concat-append xs (x ∷ []) ∙ ap (◌++◌ (concat xs)) (append-nil x)

-- A payload that fits is taken in; an absent or empty one changes nothing.
append-Holds :
    (r : Reassembler) (body : List ℕ) (p : Option (List ℕ))
    → Holds r body
    → length body + length (or_empty p) ≤ r.max_bytes
    → ((append r p).1 ≡ none)
      × Holds (append r p).0 (body ++ or_empty p)
      × ((append r p).0.max_bytes ≡ r.max_bytes)
unfolding append
append-Holds r body none h fits = (refl, rw append-nil h, refl)
append-Holds r body (some []) h fits = (refl, rw append-nil h, refl)
append-Holds r body (some (b ∷ bs)) h fits =
    rw (le→ltb r.max_bytes (r.received + length (b ∷ bs)) (omega (arith, h.received))) (
      refl,
      record {
        received = omega (arith, h.received, length-append body (b ∷ bs));
        crc = rw (crc_add-append crc_start body (b ∷ bs), ← h.crc);
        chunks = concat_snoc r.chunks (b ∷ bs) ∙ ap (λ z. z ++ b ∷ bs) h.chunks;
      },
      refl,
    )

receive_chunk-more :
    (r : Reassembler) (f : KubusFrame)
    → (append r f.payload).1 ≡ none
    → f.flags ≡ 0
    → receive_chunk r f ≡ waiting (append r f.payload).0
unfolding receive_chunk
receive_chunk-more r f taken flags = rw (taken, flags, receive_chunk, is_final_frame)

receive_chunk-last :
    (r : Reassembler) (f : KubusFrame)
    → (append r f.payload).1 ≡ none
    → f.flags ≡ flag_final
    → verify (append r f.payload).0 f.metadata ≡ none
    → receive_chunk r f ≡ delivered (take_body (append r f.payload).0)
unfolding receive_chunk
receive_chunk-last r f taken flags verified =
    rw (taken, flags, receive_chunk, is_final_frame)
      (ap (settle (take_body (append r f.payload).0)) verified)

module _ (id : ℕ) (type : FrameType) where
  receive_all-chunks :
      (r : Reassembler) (body : List ℕ) (chunks : List (List ℕ)) (rest : List KubusFrame)
      → Holds r body
      → length body + length (concat chunks) ≤ r.max_bytes
      → (r' : Reassembler) × (receive_all r (map (chunk_frame id type) chunks ++ rest)
          ≡ receive_all r' rest)
        × Holds r' (body ++ concat chunks)
        × (r'.max_bytes ≡ r.max_bytes)
  unfolding receive_all
  receive_all-chunks r body [] rest h fits = (r, refl, rw append-nil h, refl)
  receive_all-chunks r body (p ∷ chunks) rest h fits =
      let (taken, holds, same) =
        append-Holds r body (some p) h (omega (arith, length-append p (concat chunks))) in
      let (r', step, done, bound) =
        receive_all-chunks (append r (some p)).0 (body ++ p) chunks rest holds
          (omega (arith, same, length-append p (concat chunks), length-append body p)) in
      (
        r',
        rw (receive_chunk-more r (chunk_frame id type p) taken refl, receive_all) step,
        rw (← append_assoc body p (concat chunks)) done,
        bound ∙ same,
      )

  -- Final metadata that tells the truth is accepted.
  verify-Holds :
      (r : Reassembler) (body : List ℕ) (total crc : ℕ)
      → Holds r body
      → total ≡ length body
      → crc ≡ crc_add crc_start body
      → verify r (some (final_metadata total crc)) ≡ none
  unfolding verify member
  verify-Holds r body total crc h t c = rw (
    (==_iff total r.received).1 (t ∙ sym h.received),
    (==_iff (crc_value crc) (crc_value r.crc)).1 (ap crc_value (c ∙ sym h.crc)),
  )

  take_body-Holds : (r : Reassembler) (body : List ℕ) → Holds r body → take_body r ≡ body
  unfolding take_body
  take_body-Holds r body h =
      rw (h.chunks, h.received)
        (ap (take (length body)) (sym (append-nil body)) ∙ take-append body [])

  receive_chunk-final :
      (r : Reassembler) (body : List ℕ) (s : Splitter)
      → Holds r body
      → s.crc ≡ crc_add crc_start body
      → s.total ≡ length body
      → length body + length s.pending ≤ r.max_bytes
      → receive_chunk r (final_frame id type s) ≡ delivered (body ++ s.pending)
  receive_chunk-final r body s h c t fits =
      let last : KubusFrame = final_frame id type s in
      let whole = or_empty-nonempty s.pending in
      let (taken, holds, _) = append-Holds r body last.payload h (omega (arith, ap length whole)) in
      let holds' = subst (λ z. Holds (append r last.payload).0 (body ++ z)) whole holds in
      receive_chunk-last r last taken refl (
        verify-Holds _ (body ++ s.pending) _ _ holds'
          (omega (arith, t, length-append body s.pending))
          (ap (λ z. crc_add z s.pending) c ∙ sym (crc_add-append crc_start body s.pending)))
      ∙ ap delivered (take_body-Holds _ _ holds')

-- For a positive chunk size, whatever buffers a source yields and however they are cut, collecting
-- the frames that they are split into delivers the source's bytes, if the collector's ceiling
-- admits that many. In particular the final frame's length and checksum are accepted.
pub receive_all-split_into_frames :
    (id : ℕ) (type : FrameType) (chunk_size max_bytes : ℕ) (source : List (List ℕ))
    → 0 < chunk_size
    → length (concat source) ≤ max_bytes
    → receive_all (new_reassembler max_bytes) (split_into_frames id type chunk_size source)
      ≡ delivered (concat source)
unfolding split_into_frames receive_all crc_add
receive_all-split_into_frames id type chunk_size max_bytes source pos fits =
    let done = split_from id type chunk_size splitter_start source in
    let split = split_from-IsSplit id type chunk_size splitter_start source in
    let size = ap length split.kept ∙ length-append (concat split.chunks) done.1.pending in
    let (r, step, holds, same) =
      receive_all-chunks id type (new_reassembler max_bytes) [] split.chunks
        (final_frame id type done.1 ∷ []) start-Holds (omega (arith, size)) in
    rw
      (
        split.frames,
        step,
        receive_chunk-final id type r (concat split.chunks) done.1 holds split.crc
            (omega (arith, split.total)) (omega (arith, size, same)),
        receive_all,
      )
      (ap delivered (sym split.kept))
  where
    start-Holds : Holds (new_reassembler max_bytes) []
    start-Holds = record { received = refl; crc = refl; chunks = refl }
