-- ===== src/Frame/Codes.antt =====
-- The two directions of the opcode table of src/frame.rs.
use socket_flow.Prelude.{ℕ, ◌<◌, ◌≡◌, ◌↔◌, arith}
use socket_flow.Error.{ok}
use socket_flow.Frame.{OpCode, continue, text, binary, close, ping, pong, opcode_from, as_u8}

-- A number decodes to an opcode exactly when it is that opcode's code.
pub opcode_from-as_u8_iff :
    (byte : ℕ) (op : OpCode) → (opcode_from byte ≡ ok op) ↔ (byte ≡ as_u8 op)
unfolding opcode_from as_u8
opcode_from-as_u8_iff byte continue = ground arith
opcode_from-as_u8_iff byte text = ground arith
opcode_from-as_u8_iff byte binary = ground arith
opcode_from-as_u8_iff byte close = ground arith
opcode_from-as_u8_iff byte ping = ground arith
opcode_from-as_u8_iff byte pong = ground arith

pub as_u8-lt : (op : OpCode) → as_u8 op < 16
unfolding as_u8
as_u8-lt op = ground arith
