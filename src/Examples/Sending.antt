-- ===== src/Examples/Sending.antt =====
-- The properties of the sending half at concrete inputs.
use socket_flow.Prelude.{ℕ, ◌≡◌, refl, ◌↔◌, true, false, List, [], ◌∷◌, arith}
use socket_flow.Error.{ok, panic}
use socket_flow.Frame.{OpCode, Frame, new_frame}
use socket_flow.Message.{Message, from_frame, as_binary}
use socket_flow.Message.Conversion.{IsProper, opcode_for, from_frame_iff}
use socket_flow.Writer.{client, server, write_frame}
use socket_flow.Writer.Encoding.{encode}
use socket_flow.Writer.Atomic.{Wrote, write_frame-Wrote}
use socket_flow.Config.{size_or_default}
use socket_flow.Encoder.{
  compress, input_loop, flush_loop, after_input, after_flush, ends_with_trailer, finish, reserve,
}
use socket_flow.WsWriter.{
  check_compression, convert_to_frames, write_message, send_large_data_fragmented, opcode_of,
}
use socket_flow.WsWriter.Frames.{Fragments, convert_to_frames-Fragments}
use socket_flow.WsWriter.Wire.{SentAs, write_message-SentAs}
use socket_flow.WsWriter.Sent.{write_message_succeeds}
use socket_flow.WsWriter.Large.{SentLarge, send_large_data_fragmented-SentLarge}
use socket_flow.WsWriter.LargeSent.{send_large_data_fragmented_succeeds, zero_size_panics}
use socket_flow.Flate.Copying.{copying}
use socket_flow.Examples.{small_limits, small_deflate, no_limits, fresh_writer, ws_writer}

abbrev five : List ℕ
five = 104 ∷ 101 ∷ 108 ∷ 108 ∷ 111 ∷ []

abbrev hello : Message
hello = Message.text five

from_frame_iff_example :
    (from_frame (new_frame true OpCode.text five false) ≡ ok hello)
    ↔ ((OpCode.text ≡ opcode_for hello) × (five ≡ as_binary hello) × IsProper hello)
from_frame_iff_example = from_frame_iff (new_frame true OpCode.text five false) hello

abbrev a_ping : Frame
a_ping = new_frame true OpCode.ping (1 ∷ 2 ∷ []) false

write_frame-Wrote_example :
    Wrote
      (encode (fresh_writer client) a_ping false)
      (fresh_writer client)
      (write_frame a_ping false (fresh_writer client))
write_frame-Wrote_example = write_frame-Wrote a_ping false (fresh_writer client)

convert_to_frames-Fragments_example :
    (frames : List Frame) × (convert_to_frames copying 0 hello (ws_writer client small_limits)
      ≡ (ok frames, ws_writer client small_limits))
    × Fragments 2 false (opcode_of hello) (as_binary hello) frames
convert_to_frames-Fragments_example =
    convert_to_frames-Fragments copying 0 (ws_writer client small_limits) refl hello (omega arith)

write_message_succeeds_example :
    (write_message copying 0 hello (ws_writer client small_limits)).0 ≡ ok tt
unfolding as_binary
write_message_succeeds_example =
    write_message_succeeds copying 0 (ws_writer client small_limits) refl (omega arith) hello
      (omega arith) (omega arith)

write_message-SentAs_example :
    SentAs copying 0
      (ws_writer client small_limits)
      refl
      (omega arith)
      hello
      (write_message copying 0 hello (ws_writer client small_limits)).1
unfolding as_binary
write_message-SentAs_example =
    write_message-SentAs copying 0 (ws_writer client small_limits) refl (omega arith) hello (
      write_message_succeeds copying 0 (ws_writer client small_limits) refl (omega arith) hello
        (omega arith) (omega arith))

-- With compression, so that all three fragments have RSV1 set.
squeezed_five : check_compression copying 9 five (ws_writer client small_deflate) ≡ (
  ok (true, five),
  record (ws_writer client small_deflate) {
    encoder = record { compressor = (5, []); reset_context = false };
  },
)
unfolding check_compression compress input_loop flush_loop after_input after_flush ends_with_trailer
    reserve finish
squeezed_five = refl

send_large_data_fragmented_succeeds_example :
    (send_large_data_fragmented copying 9 five 2 (ws_writer client small_deflate)).0 ≡ ok tt
send_large_data_fragmented_succeeds_example =
    send_large_data_fragmented_succeeds copying 9 five 2 (ws_writer client small_deflate) _ true 104
      (101 ∷ 108 ∷ 108 ∷ 111 ∷ []) squeezed_five (omega arith) (omega arith) (omega arith)
      (omega arith)

send_large_data_fragmented-SentLarge_example :
    SentLarge copying 9 2 five
      (ws_writer client small_deflate)
      true
      five
      (send_large_data_fragmented copying 9 five 2 (ws_writer client small_deflate)).1
send_large_data_fragmented-SentLarge_example =
    send_large_data_fragmented-SentLarge copying 9 five 2 (ws_writer client small_deflate) _ true
      104 (101 ∷ 108 ∷ 108 ∷ 111 ∷ []) squeezed_five
      (send_large_data_fragmented_succeeds copying 9 five 2 (ws_writer client small_deflate) _ true
        104 (101 ∷ 108 ∷ 108 ∷ 111 ∷ []) squeezed_five (omega arith) (omega arith) (omega arith)
        (omega arith))

zero_size_panics_example :
    (size_or_default no_limits.max_frame_size ≡ 0
      → (write_message copying 0 hello (ws_writer server no_limits)).0 ≡ panic)
    × ((send_large_data_fragmented copying 0 (as_binary hello) 0 (ws_writer server no_limits)).0
        ≡ panic)
unfolding as_binary
zero_size_panics_example =
    zero_size_panics copying 0 hello (ws_writer server no_limits) refl (omega arith) (omega arith)
