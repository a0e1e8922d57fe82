-- ===== src/Header/Checks.antt =====
-- What `parse_header` accepts.
use socket_flow.Prelude.{ℕ, ◌+◌, ◌*◌, ◌≤◌, ◌<◌, ◌≡◌, ◌↔◌, bit_and, Bool, true, arith}
use socket_flow.Prelude.Bits.{bit, split_first, split_second}
use socket_flow.Error.{ok}
use socket_flow.Frame.{as_u8, is_control}
use socket_flow.Frame.Codes.{opcode_from-as_u8_iff, as_u8-lt}
use socket_flow.Header.{Header, parse_header}

-- The two bytes as RFC 6455 lays them out, RSV2 and RSV3 being zero, and what it asks of them.
pub record IsHeader (deflate : Bool) (b0 b1 : ℕ) (h : Header) : Type 0 where
  pub first : b0 ≡ bit h.final_fragment * 128 + bit h.rsv1 * 64 + as_u8 h.opcode
  pub second : b1 ≡ bit h.masked * 128 + h.length
  pub short : h.length < 128
  pub rsv1_allowed : h.rsv1 ≡ true → deflate ≡ true
  pub control_whole : is_control h.opcode ≡ true → h.final_fragment ≡ true
  pub control_short : is_control h.opcode ≡ true → h.length ≤ 125

module _ (deflate : Bool) (b0 b1 : ℕ) (h : Header) (b0_lt : b0 < 256) (b1_lt : b1 < 256) where
  parse_header_sound : parse_header deflate b0 b1 ≡ ok h → IsHeader deflate b0 b1 h
  unfolding parse_header
  parse_header_sound e = ground (
    arith,
    split_first b0 b0_lt,
    split_second b1 b1_lt,
    opcode_from-as_u8_iff (bit_and b0 0b00001111) h.opcode,
  )

  parse_header_complete : IsHeader deflate b0 b1 h → parse_header deflate b0 b1 ≡ ok h
  unfolding parse_header
  parse_header_complete v = ground (
    arith,
    split_first b0 b0_lt,
    split_second b1 b1_lt,
    opcode_from-as_u8_iff (bit_and b0 0b00001111) h.opcode,
    as_u8-lt h.opcode,
  )

  -- Two numbers below 256 are accepted, with a header as the result, exactly when they are laid
  -- out for that header, RSV2 and RSV3 being zero, and it meets the rules: RSV1 only where
  -- compression was agreed, and a control frame in one fragment and with at most 125 bytes.
  pub parse_header-IsHeader_iff : (parse_header deflate b0 b1 ≡ ok h) ↔ IsHeader deflate b0 b1 h
  parse_header-IsHeader_iff = (parse_header_sound, parse_header_complete)
