-- ===== src/Writer/Lengths.antt =====
-- The length of a payload on the wire: a 7-bit code, and the bytes behind it.
use socket_flow.Prelude.{ℕ, ◌+◌, ◌/◌, ◌%◌, ◌^◌, ◌<◌, ◌≡◌, List, [], ◌∷◌, leb, if◌then◌else◌, arith}
use socket_flow.Header.{from_be_bytes}
use socket_flow.Writer.{to_be_bytes}
use socket_flow.Writer.Encoding.{length_bytes}

unfoldable pub length_code : ℕ → ℕ
length_code n = if leb n 125 then n else if leb n 65535 then 126 else 127

unfoldable pub length_extra : ℕ → List ℕ
length_extra n =
    if leb n 125 then [] else if leb n 65535 then n / 256 ∷ n % 256 ∷ [] else to_be_bytes n

pub length_bytes_lem : (flag n : ℕ) → length_bytes flag n ≡ (flag + length_code n) ∷ length_extra n
unfolding length_bytes length_code length_extra
length_bytes_lem flag n = ground arith

pub length_code-lt : (n : ℕ) → length_code n < 128
unfolding length_code
length_code-lt n = ground arith

-- The eight bytes that are written for a length below 2^64 are read back as that length.
pub from_be_bytes-to_be_bytes : (n : ℕ) → n < 2 ^ 64 → from_be_bytes (to_be_bytes n) ≡ n
unfolding from_be_bytes to_be_bytes
from_be_bytes-to_be_bytes n h = omega arith

pub from_be_bytes_two : (n : ℕ) → n < 65536 → from_be_bytes (n / 256 ∷ n % 256 ∷ []) ≡ n
unfolding from_be_bytes
from_be_bytes_two n h = omega arith
