-- ===== src/Frame/Split.antt =====
-- src/webrtc/frameCodec.ts: what splitting a body into frames keeps.
use kubus_node.Base.{
  ℕ, zero, suc, ◌+◌, ◌≤◌, ◌<◌, ◌≡◌, refl, sym, ap, ap₂, ◌∙◌, inl, inr, List, [], ◌∷◌, ◌++◌, map,
  map-append, append-nil, append_assoc, arith, leb, leb→le, Bool-cases, length, take, drop, concat,
  All, length-append, length-take, length-drop, take-append-drop, All-append, concat-append,
}
use kubus_node.Frame.{FrameType, KubusFrame}
use kubus_node.Frame.Crc.{crc_add, crc_add-append}
use kubus_node.Frame.Stream.{Splitter, chunk_frame, after_chunk, drain, receive, split_from}

-- `out` holds full chunks, which with what is pending make up the bytes `whole` that come after
-- the given checksum and count.
pub record IsSplit (id : ℕ) (type : FrameType) (chunk_size crc_before total_before : ℕ)
    (whole : List ℕ) (out : List KubusFrame × Splitter) : Type 0 where
  pub chunks : List (List ℕ)
  pub frames : out.0 ≡ map (chunk_frame id type) chunks
  pub full : All (λ chunk. length chunk ≡ chunk_size) chunks
  pub kept : whole ≡ concat chunks ++ out.1.pending
  pub crc : out.1.crc ≡ crc_add crc_before (concat chunks)
  pub total : out.1.total ≡ total_before + length (concat chunks)

module _ (id : ℕ) (type : FrameType) (chunk_size : ℕ) where
  nothing-IsSplit : (s : Splitter) → IsSplit id type chunk_size s.crc s.total s.pending ([], s)
  unfolding crc_add
  nothing-IsSplit s = record {
    chunks = [];
    frames = refl;
    full = tt;
    kept = refl;
    crc = refl;
    total = omega arith;
  }

  more-IsSplit :
      (s : Splitter) (out : List KubusFrame × Splitter)
      → chunk_size ≤ length s.pending
      → IsSplit id type chunk_size
          (after_chunk chunk_size s).crc
          (after_chunk chunk_size s).total
          (drop chunk_size s.pending)
          out
      → IsSplit id type chunk_size s.crc s.total s.pending
          (chunk_frame id type (take chunk_size s.pending) ∷ out.0, out.1)
  more-IsSplit s out h rest = record {
    chunks = chunk ∷ rest.chunks;
    frames = ap (◌∷◌ (chunk_frame id type chunk)) rest.frames;
    full = (omega (arith, length-take chunk_size s.pending), rest.full);
    kept =
        sym (take-append-drop chunk_size s.pending)
        ∙ ap (◌++◌ chunk) rest.kept
        ∙ sym (append_assoc chunk (concat rest.chunks) out.1.pending);
    crc = rest.crc ∙ sym (crc_add-append s.crc chunk (concat rest.chunks));
    total = omega (arith, rest.total, length-append chunk (concat rest.chunks));
  }
    where
      chunk : List ℕ
      chunk = take chunk_size s.pending

  drain-IsSplit :
      (fuel : ℕ) (s : Splitter)
      → IsSplit id type chunk_size s.crc s.total s.pending (drain id type chunk_size fuel s)
  unfolding drain
  drain-IsSplit zero s = nothing-IsSplit s
  drain-IsSplit (suc fuel) s = elim (Bool-cases (leb chunk_size (length s.pending))) [
    | inl more ↦
        rw more (more-IsSplit s _ (leb→le _ _ more) (drain-IsSplit fuel (after_chunk chunk_size s)))
    | inr done ↦ rw done (nothing-IsSplit s)
  ]

  -- With a positive size and a round for each byte, the loop ends by its test.
  drain_short :
      (fuel : ℕ) (s : Splitter)
      → 0 < chunk_size
      → length s.pending < fuel
      → length (drain id type chunk_size fuel s).1.pending < chunk_size
  unfolding drain
  drain_short zero s pos h = elim h [ ]
  drain_short (suc fuel) s pos h =
      ground
        (arith, drain_short fuel (after_chunk chunk_size s) pos, length-drop chunk_size s.pending)

  join-IsSplit :
      {c t : ℕ} (whole bytes : List ℕ) (a b : List KubusFrame × Splitter)
      → IsSplit id type chunk_size c t whole a
      → IsSplit id type chunk_size a.1.crc a.1.total (a.1.pending ++ bytes) b
      → IsSplit id type chunk_size c t (whole ++ bytes) (a.0 ++ b.0, b.1)
  join-IsSplit {c} whole bytes a b x y = record {
    chunks = x.chunks ++ y.chunks;
    frames = ap₂ ◌++◌ x.frames y.frames ∙ sym (map-append (chunk_frame id type) x.chunks y.chunks);
    full = All-append _ x.chunks y.chunks x.full y.full;
    kept =
        ap (λ z. z ++ bytes) x.kept
        ∙ append_assoc (concat x.chunks) a.1.pending bytes
        ∙ ap (◌++◌ (concat x.chunks)) y.kept
        ∙ sym (append_assoc (concat x.chunks) (concat y.chunks) b.1.pending)
        ∙ ap (λ z. z ++ b.1.pending) (sym (concat-append x.chunks y.chunks));
    crc =
        rw
          (
            concat-append x.chunks y.chunks,
            crc_add-append c (concat x.chunks) (concat y.chunks),
            ← x.crc,
          )
          y.crc;
    total = omega (
      arith,
      x.total,
      y.total,
      length-append (concat x.chunks) (concat y.chunks),
      ap length (concat-append x.chunks y.chunks),
    );
  }

  -- One buffer of the source, taken in and drained.
  abbrev drained : Splitter → List ℕ → List KubusFrame × Splitter
  drained s bytes = drain id type chunk_size (suc (length (s.pending ++ bytes))) (receive s bytes)

  pub split_from-IsSplit :
      (s : Splitter) (source : List (List ℕ))
      → IsSplit id type chunk_size s.crc s.total
          (s.pending ++ concat source)
          (split_from id type chunk_size s source)
  unfolding split_from
  split_from-IsSplit s [] = rw append-nil (nothing-IsSplit s)
  split_from-IsSplit s (bytes ∷ source) = rw (← append_assoc s.pending bytes (concat source)) (
      join-IsSplit _ (concat source) _ _
        (drain-IsSplit (suc (length (s.pending ++ bytes))) (receive s bytes))
        (split_from-IsSplit (drained s bytes).1 source))

  pub split_from_short :
      (s : Splitter) (source : List (List ℕ))
      → 0 < chunk_size
      → length s.pending < chunk_size
      → length (split_from id type chunk_size s source).1.pending < chunk_size
  unfolding split_from
  split_from_short s [] pos h = h
  split_from_short s (bytes ∷ source) pos h =
      split_from_short (drained s bytes).1 source pos
        (drain_short (suc (length (s.pending ++ bytes))) (receive s bytes) pos (omega arith))
