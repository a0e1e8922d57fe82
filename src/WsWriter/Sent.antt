-- ===== src/WsWriter/Sent.antt =====
-- When `write_message` in src/split.rs succeeds.
use socket_flow.Prelude.{
  ℕ, ◌+◌, ◌*◌, ◌≤◌, ◌<◌, ◌≡◌, refl, ◌∙◌, Bool, false, List, [], ◌∷◌, ◌++◌, le→ltb, le→leb, length,
  length-append, arith,
}
use socket_flow.Error.{ok}
use socket_flow.Config.{size_or_default, deflate_enabled}
use socket_flow.Frame.{OpCode, Frame}
use socket_flow.Message.{Message, as_binary}
use socket_flow.Flate.{Deflate}
use socket_flow.Writer.{
  Writer, WriterKind, client, server, Mask, mask_bytes, apply_mask, next_mask, to_be_bytes,
  write_frame,
}
use socket_flow.Writer.Encoding.{length_bytes, encode, encode_by, encode_plain, encode_masked}
use socket_flow.Writer.Atomic.{write_frame-Wrote}
use socket_flow.Writer.Masking.{length-apply_mask}
use socket_flow.WsWriter.{WsWriter, write_each, write_message}
use socket_flow.WsWriter.Frames.{Fragments, final, further, convert_to_frames-Fragments}
use socket_flow.WsWriter.Wire.{
  after_frame, write_each-cons, write_message_lem, first_compressed-Fragments,
}

-- A bound on the bytes of some frames: 14 more than the payload, for each.
abbrev pub cost : List Frame → ℕ
cost [] = 0
cost (f ∷ fs) = length f.payload + 14 + cost fs

length-length_bytes : (flag n : ℕ) → length (length_bytes flag n) ≤ 9
unfolding length_bytes to_be_bytes
length-length_bytes flag n = ground arith

length-encode_by :
    (kind : WriterKind) (mask : Mask) (f : Frame) (rsv1 : Bool)
    → length (encode_by kind mask f rsv1) ≤ length f.payload + 14
unfolding encode_plain encode_masked
length-encode_by client mask f rsv1 = omega (
  arith,
  length-append {0} (length_bytes 128 (length f.payload))
      (mask_bytes mask ++ apply_mask mask 0 f.payload),
  length-length_bytes 128 (length f.payload),
  length-apply_mask mask 0 f.payload,
)
length-encode_by server mask f rsv1 = omega (
  arith,
  length-append {0} (length_bytes 0 (length f.payload)) f.payload,
  length-length_bytes 0 (length f.payload),
)

pub write_frame_ok :
    (f : Frame) (rsv1 : Bool) (w : Writer)
    → length f.payload + 14 ≤ w.room
    → ((write_frame f rsv1 w).0 ≡ ok tt)
      × (w.room ≤ (write_frame f rsv1 w).1.room + (length f.payload + 14))
unfolding encode
write_frame_ok f rsv1 w h =
    let sent = write_frame-Wrote f rsv1 w in
    let short = length-encode_by w.kind (next_mask w) f rsv1 in
    (
      sent.result ∙ rw (le→leb (length (encode w f rsv1)) w.room (omega (arith, short))),
      omega (arith, sent.room, short),
    )

write_each_ok :
    (fl : Deflate) (rounds : ℕ) (frames : List Frame) (rsv1 : Bool) (w : WsWriter fl.State)
    → cost frames ≤ w.writer.room
    → (write_each fl rounds rsv1 frames w).0 ≡ ok tt
write_each_ok fl rounds [] rsv1 w h = unfold write_each in refl
write_each_ok fl rounds (f ∷ fs) rsv1 w h =
    let (sent, room) = write_frame_ok f rsv1 w.writer (omega arith) in
    rw (write_each-cons fl rounds f fs rsv1 w sent)
      (write_each_ok fl rounds fs false (after_frame fl rounds f rsv1 w) (omega arith))

pub cost-Fragments :
    {limit : ℕ} {compressed : Bool} {op : OpCode} {whole : List ℕ} {frames : List Frame}
    → Fragments limit compressed op whole frames
    → cost frames ≤ 15 * length whole + 14
cost-Fragments (final op whole h) = omega arith
cost-Fragments (further op whole chunk rest frames e p h fs) =
    rw e (omega (arith, cost-Fragments fs, length-append {0} chunk rest))

module _ (fl : Deflate) (rounds : ℕ) (w : WsWriter fl.State)
    (off : deflate_enabled w.web_socket_config ≡ false)
    (some_room : 0 < size_or_default w.web_socket_config.max_frame_size) where
  -- A message within the message limit is sent without an error, compression being off and the
  -- frame limit not zero, where the connection still takes 15 bytes for each of its bytes and 14
  -- more.
  pub write_message_succeeds :
      (m : Message)
      → length (as_binary m) ≤ size_or_default w.web_socket_config.max_message_size
      → 15 * length (as_binary m) + 14 ≤ w.writer.room
      → (write_message fl rounds m w).0 ≡ ok tt
  write_message_succeeds m within room =
      let (frames, converted, fragments) =
        convert_to_frames-Fragments fl rounds w off m some_room in
      rw
        (write_message_lem fl rounds w off some_room m frames (le→ltb _ _ within) converted
          (first_compressed-Fragments fragments))
        (write_each_ok fl rounds frames false w (omega (arith, cost-Fragments fragments)))
