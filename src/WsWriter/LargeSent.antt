-- ===== src/WsWriter/LargeSent.antt =====
-- The success of `send_large_data_fragmented` in src/split.rs, and a size of zero.
use socket_flow.Prelude.{
  ℕ, suc, ◌+◌, ◌-◌, ◌*◌, ◌≤◌, ◌<◌, ◌≡◌, refl, sym, ap, ◌∙◌, Bool, false, List, [], ◌∷◌, ◌==◌,
  le→ltb, length, arith,
}
use socket_flow.Error.{ok, panic}
use socket_flow.Config.{size_or_default, deflate_enabled}
use socket_flow.Frame.{OpCode, new_frame}
use socket_flow.Message.{Message, as_binary}
use socket_flow.Chunks.{chunks, concat-chunks, chunks-IsChunk}
use socket_flow.Flate.{Deflate}
use socket_flow.WsWriter.{
  WsWriter, opcode_of, chunks_or_panic, check_compression, frames_of, convert_to_frames,
  write_message, write_fragments, send_large_data_fragmented,
}
use socket_flow.WsWriter.Frames.{check_compression_off}
use socket_flow.WsWriter.Wire.{after_frame}
use socket_flow.WsWriter.Sent.{cost, cost-Fragments, write_frame_ok}
use socket_flow.WsWriter.Large.{
  fragments_from, opcode_at, one_written, write_fragments-cons, parts-Fragments,
  check_compression-writer,
}

module _ (fl : Deflate) (rounds : ℕ) where
  write_fragments_ok :
      (compressed : Bool) (total i : ℕ) (cs : List (List ℕ)) (w : WsWriter fl.State)
      → cost (fragments_from compressed total i cs) ≤ w.writer.room
      → (write_fragments fl rounds compressed total i cs w).0 ≡ ok tt
  unfolding fragments_from
  write_fragments_ok compressed total i [] w h = unfold write_fragments in refl
  write_fragments_ok compressed total i (c ∷ cs) w h =
      let f = new_frame (i == total - 1) (opcode_at i) c compressed in
      let (sent, room) = write_frame_ok f compressed w.writer (omega arith) in
      rw (write_fragments-cons fl rounds compressed total i c cs w, one_written fl rounds f w sent)
        (write_fragments_ok compressed total (suc i) cs (after_frame fl rounds f compressed w)
          (omega arith))

  -- A payload that is not empty after `check_compression` is sent in fragments without an error,
  -- where the fragment size is at least one and within the frame limit, the payload is within the
  -- message limit, and the connection still takes 15 bytes for each byte that goes out and 14 more.
  pub send_large_data_fragmented_succeeds :
      (payload : List ℕ) (size : ℕ) (w mid : WsWriter fl.State) (compressed : Bool) (b : ℕ)
      (bs : List ℕ)
      → check_compression fl rounds payload w ≡ (ok (compressed, b ∷ bs), mid)
      → 0 < size
      → size ≤ size_or_default w.web_socket_config.max_frame_size
      → length payload ≤ size_or_default w.web_socket_config.max_message_size
      → 15 * length (b ∷ bs) + 14 ≤ w.writer.room
      → (send_large_data_fragmented fl rounds payload size w).0 ≡ ok tt
  unfolding send_large_data_fragmented chunks_or_panic
  send_large_data_fragmented_succeeds payload size w mid compressed b bs squeezed positive fits
        within room =
      let cs = chunks size (b ∷ bs) in
      let kept : mid.writer ≡ w.writer =
        ap (λ x. x.1.writer) (sym squeezed) ∙ check_compression-writer fl rounds payload w in
      let least = cost-Fragments (
        parts-Fragments fl rounds payload size w mid compressed b bs squeezed cs
          (chunks-IsChunk size (b ∷ bs) positive) (concat-chunks size (b ∷ bs) positive)) in
      let some_size : (size == 0) ≡ false = ground arith in
      rw (le→ltb _ _ fits, le→ltb _ _ within, squeezed, some_size)
        (write_fragments_ok compressed (length cs) 0 cs mid
          (omega (arith, least, ap (λ x. x.room) kept)))

  frames_of_panics :
      (op : OpCode) (payload : List ℕ) (w : WsWriter fl.State)
      → deflate_enabled w.web_socket_config ≡ false
      → 0 < length payload
      → size_or_default w.web_socket_config.max_frame_size ≡ 0
      → frames_of fl rounds op payload w ≡ (panic, w)
  unfolding frames_of chunks_or_panic
  frames_of_panics op [] w off some_bytes zero_limit = absurd (omega arith)
  frames_of_panics op (b ∷ bs) w off some_bytes zero_limit =
      rw (check_compression_off fl rounds w off (b ∷ bs), zero_limit) refl

  -- Without compression, a message that is not empty and within the message limit makes the
  -- writer panic where the frame limit is zero, which a missing limit stands for; and so does a
  -- payload of its bytes that is sent in fragments of size zero.
  pub zero_size_panics :
      (message : Message) (w : WsWriter fl.State)
      → deflate_enabled w.web_socket_config ≡ false
      → 0 < length (as_binary message)
      → length (as_binary message) ≤ size_or_default w.web_socket_config.max_message_size
      → (size_or_default w.web_socket_config.max_frame_size ≡ 0
          → (write_message fl rounds message w).0 ≡ panic)
        × ((send_large_data_fragmented fl rounds (as_binary message) 0 w).0 ≡ panic)
  unfolding write_message convert_to_frames send_large_data_fragmented chunks_or_panic
  zero_size_panics message w off some_bytes within = (
    λ zero_limit.
        rw
          (
            le→ltb _ _ within,
            frames_of_panics (opcode_of message) (as_binary message) w off some_bytes zero_limit,
          )
          refl,
    rw
        (
          le→ltb (size_or_default w.web_socket_config.max_frame_size) 0 (omega arith),
          le→ltb _ _ within,
          check_compression_off fl rounds w off (as_binary message),
        )
        refl,
  )
