-- ===== src/Header.antt =====
-- src/read.rs, the part of `read_frame` that decodes and checks the first two bytes of a frame.
pub mod Checks
use socket_flow.Prelude.{
  ℕ, ◌+◌, ◌*◌, Bool, true, false, not, ◌&&◌, ◌||◌, bit_and, List, [], ◌∷◌, ltb,
}
use socket_flow.Prelude.Bits.{has_bit}
use socket_flow.Error.{
  Outcome, ok, err, ◌>>=◌, ◌>>◌, refuse_if, rsv_not_zero, control_frames_fragmented,
  control_frame_payload_size,
}
use socket_flow.Frame.{OpCode, opcode_from, is_control}

pub record Header : Type 0 where
  pub final_fragment : Bool
  pub opcode : OpCode
  pub rsv1 : Bool
  pub masked : Bool
  -- The 7-bit length, which is 126 or 127 where more bytes hold the real one.
  pub length : ℕ

unfoldable pub parse_header : Bool → ℕ → ℕ → Outcome Header
parse_header deflate b0 b1 = do
  let fin = has_bit b0 0b10000000
  opcode ← opcode_from (bit_and b0 0b00001111)
  let rsv1 = has_bit b0 0b01000000
  let rsv2 = has_bit b0 0b00100000
  let rsv3 = has_bit b0 0b00010000
  refuse_if (rsv2 || (rsv3 || (rsv1 && not deflate))) rsv_not_zero
  refuse_if (not fin && is_control opcode) control_frames_fragmented
  let masked = has_bit b1 0b10000000
  let length = bit_and b1 0b01111111
  refuse_if (ltb 125 length && is_control opcode) control_frame_payload_size
  ok (record {
    final_fragment = fin;
    opcode = opcode;
    rsv1 = rsv1;
    masked = masked;
    length = length;
  })

-- `u16::from_be_bytes` and `u64::from_be_bytes`.
from_be : ℕ → List ℕ → ℕ
from_be acc [] = acc
from_be acc (b ∷ bs) = from_be (acc * 256 + b) bs

unfoldable pub from_be_bytes : List ℕ → ℕ
unfolding from_be
from_be_bytes bs = from_be 0 bs
