-- ===== src/Reader/Assembly.antt =====
-- How the frames of a message are put together in src/read.rs, with nothing among them.
use socket_flow.Prelude.{
  ℕ, ◌≤◌, ◌<◌, ◌^◌, ◌≡◌, true, false, List, [], ◌++◌, length, ◌⊎◌, IsBytes, arith,
}
use socket_flow.Error.{ok}
use socket_flow.Config.{size_or_default}
use socket_flow.Frame.{OpCode, Frame, new_frame}
use socket_flow.Message.{Message, from_frame}
use socket_flow.Flate.{Inflate}
use socket_flow.Writer.{WriterKind}
use socket_flow.Source.{Arrival, bytes}
use socket_flow.Reader.{HasRoom, ReadStream}
use socket_flow.Reader.Parts.{idle, delivered}
use socket_flow.Reader.Steps.{Steps}
use socket_flow.Reader.Pings.{Mixed, over, data_next}
use socket_flow.Reader.Interleaved.{interleaved_Steps}
use socket_flow.WsWriter.Frames.{Fragments}
use socket_flow.WsWriter.Wire.{OnWire, nothing, frame}

unmixed :
    {most : ℕ} {kind : WriterKind} {frames : List Frame} {out : List ℕ}
    → OnWire kind false frames out
    → Mixed most kind frames [] out
unmixed (nothing r) = over
unmixed (frame r f fs mask out behind im e on) = data_next f fs [] mask out behind im e (unmixed on)

module _ (fl : Inflate) (rounds : ℕ) (kind : WriterKind) (s : ReadStream fl.State) (limit : ℕ)
    (rest : List Arrival) (fits : limit ≤ size_or_default s.config.max_frame_size)
    (in_64_bits : limit < 2 ^ 64) (op : OpCode) (m : Message) (open_end : HasRoom s.read_tx) where
  -- Frames that are a fragmentation of a message, each in the bytes of its encoding, none
  -- with RSV1: from them, whatever arrives behind, a reader that is in no message gets in some
  -- rounds of its loop to the state that has the message in its channel and only the input
  -- behind left. The frames are within the receiver's frame limit and shorter than 2^64, the
  -- message is within its message limit and as the opcode asks, and the channel is open and has room.
  pub message_Steps :
      (whole : List ℕ) (frames : List Frame) (out : List ℕ)
      → (op ≡ OpCode.text) ⊎ (op ≡ OpCode.binary)
      → Fragments limit false op whole frames
      → OnWire kind false frames out
      → IsBytes whole
      → length whole ≤ size_or_default s.config.max_message_size
      → from_frame (new_frame true op whole false) ≡ ok m
      → (n : ℕ) × Steps fl rounds n (idle s (bytes out ++ rest)) (delivered (idle s rest) m)
  message_Steps whole frames out d fragments on_wire are_bytes within proper =
      let r =
        interleaved_Steps fl rounds kind rest s limit op m fits in_64_bits open_end whole frames []
          out d fragments (unmixed on_wire) (omega arith) are_bytes within proper in
      (r.0, r.1)
