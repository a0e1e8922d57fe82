-- ===== src/Frame.antt =====
-- src/frame.rs: opcodes and frames.
pub mod Codes
use socket_flow.Prelude.{ℕ, Bool, true, false, List, ◌==◌, if◌then◌else◌}
use socket_flow.Error.{Outcome, ok, err, invalid_opcode}

pub data OpCode : Type 0 where
  continue text binary close ping pong : OpCode

-- The module is named apart from the type, whose names come first behind a dot.
unfoldable pub opcode_from : ℕ → Outcome OpCode
opcode_from byte =
    if byte == 0x0
    then ok continue
    else if byte == 0x1
    then ok text
    else if byte == 0x2
    then ok binary
    else if byte == 0x8
    then ok close
    else if byte == 0x9
    then ok ping
    else if byte == 0xA
    then ok pong
    else err invalid_opcode

unfoldable pub as_u8 : OpCode → ℕ
as_u8 continue = 0x0
as_u8 text = 0x1
as_u8 binary = 0x2
as_u8 close = 0x8
as_u8 ping = 0x9
as_u8 pong = 0xA

unfoldable pub is_control : OpCode → Bool
is_control close = true
is_control ping = true
is_control pong = true
is_control _ = false

pub record Frame : Type 0 where
  pub final_fragment : Bool
  pub opcode : OpCode
  pub payload : List ℕ
  pub compressed : Bool

-- `Frame::new`.
abbrev pub new_frame : Bool → OpCode → List ℕ → Bool → Frame
new_frame fin op bytes deflated = record {
  final_fragment = fin;
  opcode = op;
  payload = bytes;
  compressed = deflated;
}
