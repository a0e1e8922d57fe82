-- ===== src/Reader/Control.antt =====
-- How control frames are answered in src/read.rs.
use socket_flow.Prelude.{
  ℕ, ◌≤◌, ◌≡◌, refl, ap, sym, append-nil, ◌∙◌, true, false, List, [], ◌∷◌, ◌++◌, length, take_all,
  le→leb,
}
use socket_flow.Error.{ok}
use socket_flow.Frame.{OpCode, Frame, new_frame}
use socket_flow.Flate.{Inflate}
use socket_flow.Writer.{Writer, write_frame}
use socket_flow.Writer.Encoding.{encode}
use socket_flow.Writer.Atomic.{write_frame-Wrote}
use socket_flow.Reader.{ReadStream}
use socket_flow.Reader.Poll.{
  Flow, again, stop, handle_frame, dispatch, write_reply, send_pong_frame, send_close_frame,
}

-- What a control frame is answered with, and whether the loop goes on.
pub data Answer (payload : List ℕ) : OpCode → List Frame → Flow → Type 0 where
  ponged : Answer payload OpCode.ping (new_frame true OpCode.pong payload false ∷ []) again
  closing : Answer payload OpCode.close (new_frame true OpCode.close [] false ∷ []) stop
  ignored : Answer payload OpCode.pong [] again

-- The bytes of the answer, as the writer puts them out.
abbrev pub reply_bytes : Writer → List Frame → List ℕ
reply_bytes w [] = []
reply_bytes w (f ∷ fs) = encode w f false

write_frame_fits :
    (f : Frame) (w : Writer)
    → length (encode w f false) ≤ w.room
    → ((write_frame f false w).0 ≡ ok tt)
      × ((write_frame f false w).1.written ≡ w.written ++ encode w f false)
write_frame_fits f w h =
    let sent = write_frame-Wrote f false w in
    (
      sent.result ∙ rw (le→leb _ _ h),
      sent.written ∙ ap (λ r. w.written ++ r) (take_all w.room (encode w f false) h),
    )

module _ (fl : Inflate) (rounds : ℕ) where
  abbrev pub Answered : Frame → ReadStream fl.State → List Frame → Flow → Type 0
  Answered frame s answer flow =
      ((handle_frame fl rounds frame s).0 ≡ ok flow)
      × ((handle_frame fl rounds frame s).1.writer.written
          ≡ s.writer.written ++ reply_bytes s.writer answer)
      × ((handle_frame fl rounds frame s).1.source ≡ s.source)
      × ((handle_frame fl rounds frame s).1.fragmented_message ≡ s.fragmented_message)
      × ((handle_frame fl rounds frame s).1.read_tx ≡ s.read_tx)

  answered :
      (frame : Frame) (s : ReadStream fl.State) (answer : List Frame) (flow : Flow) (op : OpCode)
      → frame.opcode ≡ op
      → Answer frame.payload op answer flow
      → length (reply_bytes s.writer answer) ≤ s.writer.room
      → Answered frame s answer flow
  unfolding handle_frame dispatch send_pong_frame send_close_frame write_reply
  answered frame s answer flow op e ponged h =
      let sent = write_frame_fits (new_frame true OpCode.pong frame.payload false) s.writer h in
      rw (e, sent.0) (refl, sent.1, refl, refl, refl)
  answered frame s answer flow op e closing h =
      let sent = write_frame_fits (new_frame true OpCode.close [] false) s.writer h in
      rw (e, sent.0) (refl, sent.1, refl, refl, refl)
  answered frame s answer flow op e ignored h = rw e (refl, sym (append-nil _), refl, refl, refl)

  -- Where the writer has room for the answer: a ping is answered by a pong with the ping's
  -- payload and a close by an empty close, each in one final frame without RSV1 and behind what
  -- was written; a pong is not answered; a close stops the loop, and the others do not. The
  -- input, the message in progress and the channel stay as they were.
  pub handle_frame-Answered :
      (frame : Frame) (s : ReadStream fl.State) (answer : List Frame) (flow : Flow)
      → Answer frame.payload frame.opcode answer flow
      → length (reply_bytes s.writer answer) ≤ s.writer.room
      → Answered frame s answer flow
  handle_frame-Answered frame s answer flow a h = answered frame s answer flow frame.opcode refl a h
