-- ===== src/WsWriter/Wire.antt =====
-- What `write_frames` and `write_message` in src/split.rs put on the wire.
use socket_flow.Prelude.{
  ℕ, ◌≤◌, ◌<◌, ◌≡◌, refl, sym, ap, ◌∙◌, Bool, true, false, List, [], ◌∷◌, ◌++◌, append-nil,
  append_assoc, ltb, leb, length, take_all, ◌⊎◌, inl, inr, Bool-cases, arith,
}
use socket_flow.Error.{ok, err, max_message_size, io_error, broken_pipe}
use socket_flow.Config.{size_or_default, deflate_enabled}
use socket_flow.Frame.{OpCode, Frame}
use socket_flow.Message.{Message, as_binary}
use socket_flow.Flate.{Deflate}
use socket_flow.Writer.{Writer, WriterKind, Mask, next_mask, write_frame}
use socket_flow.Writer.Encoding.{encode, encode_by}
use socket_flow.Writer.Atomic.{write_frame-Wrote}
use socket_flow.Writer.Masking.{IsMask, next_mask-IsMask}
use socket_flow.WsWriter.{
  WsWriter, opcode_of, first_compressed, convert_to_frames, write_each, write_frames, write_message,
}
use socket_flow.WsWriter.Frames.{Fragments, final, further, convert_to_frames-Fragments}

-- The bytes of some frames in a row, each under a mask of its own; only the first may have RSV1.
pub data OnWire (kind : WriterKind) : Bool → List Frame → List ℕ → Type 0 where
  nothing : (rsv1 : Bool) → OnWire kind rsv1 [] []
  frame :
      (rsv1 : Bool) (f : Frame) (fs : List Frame) (mask : Mask) (out rest : List ℕ)
      → IsMask mask
      → out ≡ encode_by kind mask f rsv1 ++ rest
      → OnWire kind false fs rest
      → OnWire kind rsv1 (f ∷ fs) out

-- How the writing of one frame ended, where it did not fail.
pub frame_written :
    (f : Frame) (rsv1 : Bool) (w : Writer)
    → (write_frame f rsv1 w).0 ≡ ok tt
    → (write_frame f rsv1 w).1.written ≡ w.written ++ encode_by w.kind (next_mask w) f rsv1
unfolding encode
frame_written f rsv1 w e =
    let sent = write_frame-Wrote f rsv1 w in
    sent.written
    ∙ ap (λ r. w.written ++ r) (take_all w.room (encode w f rsv1) (ground (arith, sent.result)))

pub frame_outcome :
    (f : Frame) (rsv1 : Bool) (w : Writer)
    → ((write_frame f rsv1 w).0 ≡ ok tt) ⊎ ((write_frame f rsv1 w).0 ≡ err (io_error broken_pipe))
frame_outcome f rsv1 w =
    let sent = write_frame-Wrote f rsv1 w in
    elim (Bool-cases (leb (length (encode w f rsv1)) w.room)) [
      | inl fits ↦ inl (sent.result ∙ rw fits)
      | inr short ↦ inr (sent.result ∙ rw short)
    ]

module _ (fl : Deflate) (rounds : ℕ) where
  abbrev pub after_frame : Frame → Bool → WsWriter fl.State → WsWriter fl.State
  after_frame f rsv1 w = record w { writer = (write_frame f rsv1 w.writer).1 }

  pub write_each-cons :
      (f : Frame) (fs : List Frame) (rsv1 : Bool) (w : WsWriter fl.State)
      → (write_frame f rsv1 w.writer).0 ≡ ok tt
      → write_each fl rounds rsv1 (f ∷ fs) w ≡ write_each fl rounds false fs (after_frame f rsv1 w)
  unfolding write_each
  write_each-cons f fs rsv1 w e = rw e

  pub write_each_fails :
      (f : Frame) (fs : List Frame) (rsv1 : Bool) (w : WsWriter fl.State)
      → (write_frame f rsv1 w.writer).0 ≡ err (io_error broken_pipe)
      → (write_each fl rounds rsv1 (f ∷ fs) w).0 ≡ err (io_error broken_pipe)
  unfolding write_each
  write_each_fails f fs rsv1 w e = rw e

  -- Frames that could all be written are on the wire in their order, behind what was there.
  pub write_each-OnWire :
      (frames : List Frame) (rsv1 : Bool) (w : WsWriter fl.State)
      → (write_each fl rounds rsv1 frames w).0 ≡ ok tt
      → (out : List ℕ) × ((write_each fl rounds rsv1 frames w).1.writer.written
          ≡ w.writer.written ++ out)
        × OnWire w.writer.kind rsv1 frames out
  write_each-OnWire [] rsv1 w e =
      ([], unfold write_each in sym (append-nil w.writer.written), nothing rsv1)
  write_each-OnWire (f ∷ fs) rsv1 w e = elim (frame_outcome f rsv1 w.writer) [
    | inl sent ↦
        let w' = after_frame f rsv1 w in
        let next = write_each-cons f fs rsv1 w sent in
        let (out, gone, on) = write_each-OnWire fs false w' (rw next at e) in
        let first = encode_by w.writer.kind (next_mask w.writer) f rsv1 in
        (
          first ++ out,
          rw next (
              gone
              ∙ ap (λ r. r ++ out) (frame_written f rsv1 w.writer sent)
              ∙ append_assoc w.writer.written first out),
          frame rsv1 f fs (next_mask w.writer) (first ++ out) out (next_mask-IsMask w.writer) refl
              (rw (write_frame-Wrote f rsv1 w.writer).kind at on),
        )
    | inr failed ↦ absurd (cc (write_each_fails f fs rsv1 w failed))
  ]

pub first_compressed-Fragments :
    {limit : ℕ} {op : OpCode} {whole : List ℕ} {frames : List Frame}
    → Fragments limit false op whole frames
    → first_compressed frames ≡ false
unfolding first_compressed
first_compressed-Fragments (final op whole h) = refl
first_compressed-Fragments (further op whole chunk rest frames e p h fs) = refl

module _ (fl : Deflate) (rounds : ℕ) (w : WsWriter fl.State)
    (off : deflate_enabled w.web_socket_config ≡ false)
    (some_room : 0 < size_or_default w.web_socket_config.max_frame_size) where
  -- What became of a message: its frames, and the bytes that they are on the wire.
  pub record SentAs (m : Message) (end : WsWriter fl.State) : Type 0 where
    pub frames : List Frame
    pub out : List ℕ
    pub within : length (as_binary m) ≤ size_or_default w.web_socket_config.max_message_size
    pub fragments :
        Fragments
          (size_or_default w.web_socket_config.max_frame_size)
          false
          (opcode_of m)
          (as_binary m)
          frames
    pub on_wire : OnWire w.writer.kind false frames out
    pub written : end.writer.written ≡ w.writer.written ++ out

  too_long :
      (m : Message)
      → ltb (size_or_default w.web_socket_config.max_message_size) (length (as_binary m)) ≡ true
      → write_message fl rounds m w ≡ (err max_message_size, w)
  unfolding write_message
  too_long m long = rw long

  pub write_message_lem :
      (m : Message) (frames : List Frame)
      → ltb (size_or_default w.web_socket_config.max_message_size) (length (as_binary m)) ≡ false
      → convert_to_frames fl rounds m w ≡ (ok frames, w)
      → first_compressed frames ≡ false
      → write_message fl rounds m w ≡ write_each fl rounds false frames w
  unfolding write_message write_frames
  write_message_lem m frames short converted plain = rw (short, converted, plain)

  -- A message that was sent without an error, compression being off and the frame limit not
  -- zero, is within the message limit, and what was added to the wire is the frames of a
  -- fragmentation of it, in order, none with RSV1 set.
  pub write_message-SentAs :
      (m : Message)
      → (write_message fl rounds m w).0 ≡ ok tt
      → SentAs m (write_message fl rounds m w).1
  write_message-SentAs m e =
      elim (Bool-cases
        (ltb (size_or_default w.web_socket_config.max_message_size) (length (as_binary m)))) [
          | inl long ↦ absurd (cc (too_long m long))
          | inr short ↦
              let (frames, converted, fragments) =
                convert_to_frames-Fragments fl rounds w off m some_room in
              let same =
                write_message_lem m frames short converted (first_compressed-Fragments fragments) in
              let (out, gone, on) = write_each-OnWire fl rounds frames false w (rw same at e) in
              record {
                frames = frames;
                out = out;
                within = ground arith;
                fragments = fragments;
                on_wire = on;
                written = rw same gone;
              }
        ]
