-- ===== src/Examples/Interleaving.antt =====
-- A message in two frames with a pong before them and a ping between them, of which the receiver
-- answers the ping.
use socket_flow.Prelude.{ℕ, ◌≡◌, refl, inr, true, false, List, [], ◌∷◌, ◌++◌, arith}
use socket_flow.Frame.{OpCode, Frame, new_frame}
use socket_flow.Message.{Message, from_frame}
use socket_flow.Flate.Stored.{stored}
use socket_flow.Source.{byte, bytes}
use socket_flow.Writer.{Mask, server}
use socket_flow.Writer.Encoding.{encode_by}
use socket_flow.Reader.{ReadStream}
use socket_flow.Reader.Steps.{Steps}
use socket_flow.Reader.Parts.{idle, delivered}
use socket_flow.Reader.Pings.{
  Mixed, over, data_next, ping_next, pong_next, ping_of, pong_of, pongs, answered,
}
use socket_flow.Reader.Controls.{with_writer}
use socket_flow.Reader.Interleaved.{interleaved_Steps}
use socket_flow.WsWriter.Frames.{final, further}
use socket_flow.WsWriter.Wire.{OnWire}
use socket_flow.Examples.{small_limits, read_stream}

abbrev no_mask : Mask
no_mask = record { m0 = 0; m1 = 0; m2 = 0; m3 = 0 }

abbrev head_part : Frame
head_part = new_frame false OpCode.binary (7 ∷ 8 ∷ []) false

abbrev last_part : Frame
last_part = new_frame true OpCode.continue (9 ∷ []) false

abbrev encoded : Frame → List ℕ → List ℕ
encoded f behind = encode_by server no_mask f false ++ behind

abbrev from_ping : List ℕ
from_ping = encoded (ping_of (1 ∷ [])) (encoded last_part [])

abbrev wire : List ℕ
wire = encoded (pong_of []) (encoded head_part from_ping)

abbrev receiver : ReadStream ℕ
receiver = read_stream small_limits

Mixed-wire : Mixed 2 server (head_part ∷ last_part ∷ []) ((1 ∷ []) ∷ []) wire
Mixed-wire =
    pong_next [] _ _ no_mask wire (encoded head_part from_ping) (omega arith) (omega arith)
      (omega arith) (omega arith) refl
      (data_next head_part _ _ no_mask (encoded head_part from_ping) from_ping (omega arith) refl (
        ping_next (1 ∷ []) _ [] no_mask from_ping (encoded last_part []) (omega arith) (omega arith)
          (omega arith) (omega arith) refl
          (data_next last_part [] [] no_mask (encoded last_part []) [] (omega arith) refl over)))

interleaved_Steps_example :
    (n : ℕ) × Steps stored 0 n (idle receiver (bytes wire ++ byte 137 ∷ [])) (
      delivered
        (idle (with_writer receiver (answered ((1 ∷ []) ∷ []) receiver.writer)) (byte 137 ∷ []))
        (Message.binary (7 ∷ 8 ∷ 9 ∷ [])))
    × (replies : List ℕ) × OnWire server false (pongs ((1 ∷ []) ∷ [])) replies
    × ((answered ((1 ∷ []) ∷ []) receiver.writer).written ≡ [] ++ replies)
interleaved_Steps_example =
    interleaved_Steps stored 0 server (byte 137 ∷ []) receiver 2 OpCode.binary
      (Message.binary (7 ∷ 8 ∷ 9 ∷ [])) (omega arith) (omega arith) (refl, omega arith)
      (7 ∷ 8 ∷ 9 ∷ []) (head_part ∷ last_part ∷ []) ((1 ∷ []) ∷ []) wire (inr refl)
      (further OpCode.binary (7 ∷ 8 ∷ 9 ∷ []) (7 ∷ 8 ∷ []) (9 ∷ []) (last_part ∷ []) refl
        (omega arith) (omega arith) (final OpCode.continue (9 ∷ []) (omega arith)))
      Mixed-wire (omega arith) (omega arith) (omega arith) (unfold from_frame in refl)
