-- ===== src/Message.antt =====
-- src/message.rs: what a peer reads and sends. The content of `Message.text` is the bytes of a
-- `String`.
pub mod Conversion
use socket_flow.Prelude.{ℕ, List}
use socket_flow.Error.{Outcome, ok, err, panic, hang, waits, invalid_opcode}
use socket_flow.Frame.{OpCode, Frame}
use socket_flow.Utf8.{from_utf8}

pub data Message : Type 0 where
  text : List ℕ → Message
  binary : List ℕ → Message

-- `Ok(Message::Text(String::from_utf8(payload)?))`.
abbrev text_of : Outcome (List ℕ) → Outcome Message
text_of (ok bs) = ok (text bs)
text_of (err e) = err e
text_of panic = panic
text_of hang = hang
text_of waits = waits

pub from_parts : OpCode → List ℕ → Outcome Message
from_parts OpCode.text payload = text_of (from_utf8 payload)
from_parts OpCode.binary payload = ok (binary payload)
from_parts _ payload = err invalid_opcode

unfoldable pub from_frame : Frame → Outcome Message
unfolding from_parts
from_frame frame = from_parts frame.opcode frame.payload

unfoldable pub as_binary : Message → List ℕ
as_binary (text bytes) = bytes
as_binary (binary bytes) = bytes

unfoldable pub as_text : Message → Outcome (List ℕ)
as_text (text bytes) = ok bytes
as_text (binary bytes) = from_utf8 bytes
