-- ===== src/Message/Conversion.antt =====
-- Messages and the frames that carry them whole: src/message.rs.
use socket_flow.Prelude.{◌≡◌, ◌↔◌, true, arith}
use socket_flow.Error.{ok}
use socket_flow.Frame.{OpCode, Frame}
use socket_flow.Utf8.{is_utf8, from_utf8}
use socket_flow.Message.{Message, from_frame, as_binary}

-- What Rust's `String` guarantees of a text message.
abbrev pub IsProper : Message → Type 0
IsProper (Message.text bytes) = is_utf8 bytes ≡ true
IsProper (Message.binary bytes) = Unit

abbrev pub opcode_for : Message → OpCode
opcode_for (Message.text bytes) = OpCode.text
opcode_for (Message.binary bytes) = OpCode.binary

-- `from_frame` yields a message exactly when the frame has the message's opcode and bytes, and
-- the bytes of a text are UTF-8.
pub from_frame_iff :
    (frame : Frame) (m : Message)
    → (from_frame frame ≡ ok m)
      ↔ ((frame.opcode ≡ opcode_for m) × (frame.payload ≡ as_binary m) × IsProper m)
unfolding from_frame as_binary from_utf8
from_frame_iff frame (Message.text bytes) = ground arith
from_frame_iff frame (Message.binary bytes) = ground arith
