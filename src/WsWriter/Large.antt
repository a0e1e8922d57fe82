-- ===== src/WsWriter/Large.antt =====
-- What `send_large_data_fragmented` in src/split.rs puts on the wire.
use socket_flow.Prelude.{
  ℕ, suc, ◌+◌, ◌-◌, ◌≤◌, ◌<◌, ◌≡◌, refl, sym, ap, ◌∙◌, Bool, true, false, List, [], ◌∷◌, ◌++◌,
  append-nil, append_assoc, ◌==◌, if◌then◌else◌, length, All, inl, inr, arith,
}
use socket_flow.Error.{ok, err, io_error, broken_pipe}
use socket_flow.Run.{◌>>◌}
use socket_flow.Config.{size_or_default}
use socket_flow.Frame.{OpCode, Frame, new_frame}
use socket_flow.Chunks.{chunks, concat, concat-chunks, IsChunk, chunks-IsChunk}
use socket_flow.Flate.{Deflate}
use socket_flow.Writer.{WriterKind, Mask, next_mask, write_frame}
use socket_flow.Writer.Encoding.{encode_by}
use socket_flow.Writer.Atomic.{write_frame-Wrote}
use socket_flow.Writer.Masking.{IsMask, next_mask-IsMask}
use socket_flow.WsWriter.{
  WsWriter, chunks_or_panic, check_compression, write_each, write_frames, write_fragments,
  send_large_data_fragmented,
}
use socket_flow.WsWriter.Frames.{Fragments, final, further}
use socket_flow.WsWriter.Wire.{frame_written, frame_outcome, after_frame}

-- The bytes of some frames in a row, each under a mask of its own, and all with the same RSV1.
pub data AllFlagged (kind : WriterKind) (rsv1 : Bool) : List Frame → List ℕ → Type 0 where
  none_left : AllFlagged kind rsv1 [] []
  flagged :
      (f : Frame) (fs : List Frame) (mask : Mask) (out rest : List ℕ)
      → IsMask mask
      → out ≡ encode_by kind mask f rsv1 ++ rest
      → AllFlagged kind rsv1 fs rest
      → AllFlagged kind rsv1 (f ∷ fs) out

abbrev pub opcode_at : ℕ → OpCode
opcode_at i = if i == 0 then OpCode.text else OpCode.continue

-- The frames of the fragments from index `i` on.
unfoldable pub fragments_from : Bool → ℕ → ℕ → List (List ℕ) → List Frame
fragments_from compressed total i [] = []
fragments_from compressed total i (c ∷ cs) =
    new_frame (i == total - 1) (opcode_at i) c compressed
    ∷ fragments_from compressed total (suc i) cs

fragments_from-Fragments :
    (limit : ℕ) (compressed : Bool) (total i : ℕ) (op : OpCode) (c : List ℕ) (cs : List (List ℕ))
    → total ≡ i + suc (length cs)
    → opcode_at i ≡ op
    → All (IsChunk limit) (c ∷ cs)
    → Fragments limit compressed op (c ++ concat cs) (fragments_from compressed total i (c ∷ cs))
unfolding fragments_from
fragments_from-Fragments limit compressed total i op c [] e o h =
    let last : (i == total - 1) ≡ true = ground arith in
    rw (append-nil c, last, o) (final op c h.0.1)
fragments_from-Fragments limit compressed total i op c (d ∷ ds) e o h =
    let more : (i == total - 1) ≡ false = ground arith in
    rw (more, o)
      (further op (c ++ (d ++ concat ds)) c (d ++ concat ds)
        (fragments_from compressed total (suc i) (d ∷ ds)) refl h.0.0 h.0.1
        (fragments_from-Fragments limit compressed total (suc i) OpCode.continue d ds (omega arith)
          (ground arith) h.1))

module _ (fl : Deflate) (rounds : ℕ) where
  write_one :
      (f : Frame) (w : WsWriter fl.State)
      → write_frames fl rounds (f ∷ []) w ≡ write_each fl rounds f.compressed (f ∷ []) w
  unfolding write_frames
  write_one f w = refl

  pub one_written :
      (f : Frame) (w : WsWriter fl.State)
      → (write_frame f f.compressed w.writer).0 ≡ ok tt
      → write_frames fl rounds (f ∷ []) w ≡ (ok tt, after_frame fl rounds f f.compressed w)
  unfolding write_each
  one_written f w e = rw (write_one f w, e) refl

  one_failed :
      (f : Frame) (w : WsWriter fl.State)
      → (write_frame f f.compressed w.writer).0 ≡ err (io_error broken_pipe)
      → (write_frames fl rounds (f ∷ []) w).0 ≡ err (io_error broken_pipe)
  unfolding write_each
  one_failed f w e = rw (write_one f w, e) refl

  pub write_fragments-cons :
      (compressed : Bool) (total i : ℕ) (c : List ℕ) (cs : List (List ℕ)) (w : WsWriter fl.State)
      → write_fragments fl rounds compressed total i (c ∷ cs) w
        ≡ (write_frames fl rounds (new_frame (i == total - 1) (opcode_at i) c compressed ∷ [])
              >> write_fragments fl rounds compressed total (suc i) cs)
            w
  unfolding write_fragments
  write_fragments-cons compressed total i c cs w = refl

  write_fragments-AllFlagged :
      (compressed : Bool) (total i : ℕ) (cs : List (List ℕ)) (w : WsWriter fl.State)
      → (write_fragments fl rounds compressed total i cs w).0 ≡ ok tt
      → (out : List ℕ) × ((write_fragments fl rounds compressed total i cs w).1.writer.written
          ≡ w.writer.written ++ out)
        × AllFlagged w.writer.kind compressed (fragments_from compressed total i cs) out
  unfolding fragments_from
  write_fragments-AllFlagged compressed total i [] w e =
      ([], unfold write_fragments in sym (append-nil w.writer.written), none_left)
  write_fragments-AllFlagged compressed total i (c ∷ cs) w e =
      let f = new_frame (i == total - 1) (opcode_at i) c compressed in
      let step = write_fragments-cons compressed total i c cs w in
      elim (frame_outcome f compressed w.writer) [
        | inl sent ↦
            let w' = after_frame fl rounds f compressed w in
            let first = encode_by w.writer.kind (next_mask w.writer) f compressed in
            let next : write_fragments fl rounds compressed total i (c ∷ cs) w
                ≡ write_fragments fl rounds compressed total (suc i) cs w' =
              rw (step, one_written f w sent) refl in
            let (out, gone, on) =
              write_fragments-AllFlagged compressed total (suc i) cs w' (rw next at e) in
            (
              first ++ out,
              rw next (
                  gone
                  ∙ ap (λ r. r ++ out) (frame_written f compressed w.writer sent)
                  ∙ append_assoc w.writer.written first out),
              flagged f (fragments_from compressed total (suc i) cs) (next_mask w.writer)
                  (first ++ out) out (next_mask-IsMask w.writer) refl
                  (rw (write_frame-Wrote f compressed w.writer).kind at on),
            )
        | inr failed ↦
            let stopped = one_failed f w failed in
            let both : err (io_error broken_pipe) ≡ ok tt = rw (step, stopped) at e in absurd (cc)
      ]

  pub check_compression-writer :
      (payload : List ℕ) (w : WsWriter fl.State)
      → (check_compression fl rounds payload w).1.writer ≡ w.writer
  unfolding check_compression
  check_compression-writer payload w = ground arith

  -- What became of a payload, compressed or not, that was sent in fragments of some size.
  pub record SentLarge (size : ℕ) (payload : List ℕ) (w : WsWriter fl.State) (compressed : Bool)
      (due : List ℕ) (end : WsWriter fl.State) : Type 0 where
    pub frames : List Frame
    pub out : List ℕ
    pub size_fits : size ≤ size_or_default w.web_socket_config.max_frame_size
    pub within : length payload ≤ size_or_default w.web_socket_config.max_message_size
    pub fragments : Fragments size compressed OpCode.text due frames
    pub on_wire : AllFlagged w.writer.kind compressed frames out
    pub written : end.writer.written ≡ w.writer.written ++ out

  module _ (payload : List ℕ) (size : ℕ) (w mid : WsWriter fl.State) (compressed : Bool) (b : ℕ)
      (bs : List ℕ)
      (squeezed : check_compression fl rounds payload w ≡ (ok (compressed, b ∷ bs), mid)) where
    large_outcome :
        (send_large_data_fragmented fl rounds payload size w).0 ≡ ok tt
        → (0 < size)
          × (size ≤ size_or_default w.web_socket_config.max_frame_size)
          × (length payload ≤ size_or_default w.web_socket_config.max_message_size)
          × (send_large_data_fragmented fl rounds payload size w
              ≡ write_fragments fl rounds compressed
                  (length (chunks size (b ∷ bs)))
                  0
                  (chunks size (b ∷ bs))
                  mid)
    unfolding send_large_data_fragmented chunks_or_panic
    large_outcome e = ground (arith, squeezed)

    pub parts-Fragments :
        (cs : List (List ℕ))
        → All (IsChunk size) cs
        → concat cs ≡ b ∷ bs
        → Fragments size compressed OpCode.text
            (b ∷ bs)
            (fragments_from compressed (length cs) 0 cs)
    parts-Fragments [] h e = absurd (cc)
    parts-Fragments (c ∷ cs) h e = rw (← e) (
        fragments_from-Fragments size compressed (suc (length cs)) 0 OpCode.text c cs (omega arith)
          (ground arith) h)

    -- Of a payload that is not empty after `check_compression`, and that was sent without an error,
    -- the fragment size was within the frame limit and the payload within the message limit; and
    -- what was added to the wire is the frames of a fragmentation of what the payload became, as a
    -- text, in order. Where it was compressed every one of these frames has RSV1 set.
    pub send_large_data_fragmented-SentLarge :
        (send_large_data_fragmented fl rounds payload size w).0 ≡ ok tt
        → SentLarge size payload w compressed
            (b ∷ bs)
            (send_large_data_fragmented fl rounds payload size w).1
    send_large_data_fragmented-SentLarge e =
        let (positive, fits, within, same) = large_outcome e in
        let cs = chunks size (b ∷ bs) in
        let (out, gone, on) =
          write_fragments-AllFlagged compressed (length cs) 0 cs mid (rw same at e) in
        let kept : mid.writer ≡ w.writer =
          ap (λ x. x.1.writer) (sym squeezed) ∙ check_compression-writer payload w in
        record {
          frames = fragments_from compressed (length cs) 0 cs;
          out = out;
          size_fits = fits;
          within = within;
          fragments =
              parts-Fragments cs (chunks-IsChunk size (b ∷ bs) positive)
                (concat-chunks size (b ∷ bs) positive);
          on_wire = rw kept at on;
          written = rw same (gone ∙ ap (λ x. x.written ++ out) kept);
        }
