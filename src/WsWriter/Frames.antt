-- ===== src/WsWriter/Frames.antt =====
-- What `convert_to_frames` in src/split.rs makes of a message.
use socket_flow.Prelude.{
  ℕ, ◌≤◌, ◌<◌, ◌≡◌, refl, sym, ap, ◌∙◌, Bool, true, false, List, [], ◌∷◌, ◌++◌, append-nil,
  append_assoc, length, All, arith,
}
use socket_flow.Error.{ok}
use socket_flow.Config.{size_or_default, deflate_enabled}
use socket_flow.Frame.{OpCode, Frame, new_frame}
use socket_flow.Message.{Message, as_binary}
use socket_flow.Chunks.{chunks, concat, concat-chunks, IsChunk, chunks-IsChunk}
use socket_flow.Flate.{Deflate}
use socket_flow.WsWriter.{
  WsWriter, push_chunks, mark_last, opcode_of, chunks_or_panic, check_compression, frames_of,
  convert_to_frames,
}

-- The frames of one message as RFC 6455 wants them: the first has the opcode, the others continue
-- it, the last and no other is final, none is longer than the limit, those before the last
-- are not empty, and their payloads in a row are the whole.
pub data Fragments (limit : ℕ) (compressed : Bool) : OpCode → List ℕ → List Frame → Type 0 where
  final :
      (op : OpCode) (whole : List ℕ)
      → length whole ≤ limit
      → Fragments limit compressed op whole (new_frame true op whole compressed ∷ [])
  further :
      (op : OpCode) (whole chunk rest : List ℕ) (frames : List Frame)
      → whole ≡ chunk ++ rest
      → 0 < length chunk
      → length chunk ≤ limit
      → Fragments limit compressed OpCode.continue rest frames
      → Fragments limit compressed op whole (new_frame false op chunk compressed ∷ frames)

-- The frames behind the first, before the last is marked.
continue_frames : Bool → List (List ℕ) → List Frame
continue_frames compressed [] = []
continue_frames compressed (c ∷ cs) =
    new_frame false OpCode.continue c compressed ∷ continue_frames compressed cs

push_chunks_behind :
    (op : OpCode) (compressed : Bool) (f : Frame) (done : List Frame) (cs : List (List ℕ))
    → push_chunks op compressed (f ∷ done) cs ≡ (f ∷ done) ++ continue_frames compressed cs
unfolding push_chunks continue_frames
push_chunks_behind op compressed f done [] = ap (λ r. f ∷ r) (sym (append-nil done))
push_chunks_behind op compressed f done (c ∷ cs) =
    push_chunks_behind op compressed f (done ++ new_frame false OpCode.continue c compressed ∷ [])
      cs
    ∙ ap (λ r. f ∷ r)
        (append_assoc done (new_frame false OpCode.continue c compressed ∷ [])
          (continue_frames compressed cs))

mark_last-Fragments :
    (limit : ℕ) (compressed : Bool) (op : OpCode) (c : List ℕ) (cs : List (List ℕ))
    → All (IsChunk limit) (c ∷ cs)
    → Fragments limit compressed op
        (c ++ concat cs)
        (mark_last (new_frame false op c compressed ∷ continue_frames compressed cs))
unfolding mark_last continue_frames
mark_last-Fragments limit compressed op c [] h = rw (append-nil c) (final op c h.0.1)
mark_last-Fragments limit compressed op c (d ∷ ds) h =
    further op (c ++ (d ++ concat ds)) c (d ++ concat ds) _ refl h.0.0 h.0.1
      (mark_last-Fragments limit compressed OpCode.continue d ds h.1)

push_chunks-Fragments :
    (limit : ℕ) (compressed : Bool) (op : OpCode) (cs : List (List ℕ)) (b : ℕ) (bs : List ℕ)
    → All (IsChunk limit) cs
    → concat cs ≡ b ∷ bs
    → Fragments limit compressed op (b ∷ bs) (mark_last (push_chunks op compressed [] cs))
unfolding push_chunks
push_chunks-Fragments limit compressed op [] b bs h e = cc
push_chunks-Fragments limit compressed op (c ∷ cs) b bs h e =
    rw (push_chunks_behind op compressed (new_frame false op c compressed) [] cs, ← e)
      (mark_last-Fragments limit compressed op c cs h)

chunks_or_panic_lem :
    (size : ℕ) (payload : List ℕ)
    → 0 < size
    → chunks_or_panic size payload ≡ ok (chunks size payload)
unfolding chunks_or_panic
chunks_or_panic_lem size payload h = ground arith

module _ (fl : Deflate) (rounds : ℕ) (w : WsWriter fl.State)
    (off : deflate_enabled w.web_socket_config ≡ false) where
  pub check_compression_off :
      (payload : List ℕ) → check_compression fl rounds payload w ≡ (ok (false, payload), w)
  unfolding check_compression
  check_compression_off payload = ground arith

  abbrev limit : ℕ
  limit = size_or_default w.web_socket_config.max_frame_size

  frames_of-Fragments :
      (op : OpCode) (payload : List ℕ)
      → 0 < limit
      → (frames : List Frame) × (frames_of fl rounds op payload w ≡ (ok frames, w))
        × Fragments limit false op payload frames
  unfolding frames_of
  frames_of-Fragments op [] some_room =
      (new_frame true op [] false ∷ [], refl, final op [] (omega arith))
  frames_of-Fragments op (b ∷ bs) some_room = (
    mark_last (push_chunks op false [] (chunks limit (b ∷ bs))),
    rw (check_compression_off (b ∷ bs), chunks_or_panic_lem limit (b ∷ bs) some_room),
    push_chunks-Fragments limit false op (chunks limit (b ∷ bs)) b bs
        (chunks-IsChunk limit (b ∷ bs) some_room) (concat-chunks limit (b ∷ bs) some_room),
  )

  -- Without compression, and with a frame limit of at least one byte, a message becomes frames
  -- that are a fragmentation of its bytes under its opcode, and the writer is left as it was: the
  -- first frame has the opcode and the others continue it, the last and no other is final, none is
  -- longer than the limit, only the last may be empty, and their payloads in a row are the message.
  pub convert_to_frames-Fragments :
      (message : Message)
      → 0 < limit
      → (frames : List Frame) × (convert_to_frames fl rounds message w ≡ (ok frames, w))
        × Fragments limit false (opcode_of message) (as_binary message) frames
  unfolding convert_to_frames
  convert_to_frames-Fragments message some_room =
      frames_of-Fragments (opcode_of message) (as_binary message) some_room
