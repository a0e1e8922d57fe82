-- ===== src/Prelude/Bits.antt =====
-- The bit operations of the frame header and of masking, over a byte: facts by evaluating a table.
use Prim.Native.Nat.{ℕ, zero, suc, ◌+◌, ◌*◌, ◌%◌, ◌<◌, ◌^◌, bit_and, bit_or, bit_xor}
use mathlib.Core.Path.{◌≡◌, refl}
use mathlib.Core.Bool.{Bool, true, false, not}
use native.Mathlib.Omega.{arith}
use socket_flow.Prelude.Tests.{◌==◌, ==_iff, if◌then◌else◌, ltb, ltb→lt}

-- A cast to `u8`.
abbrev pub u8 : ℕ → ℕ
u8 n = n % 2 ^ 8

abbrev pub bit : Bool → ℕ
bit true = 1
bit false = 0

-- `(byte & mask) != 0`.
abbrev pub has_bit : ℕ → ℕ → Bool
has_bit byte mask = not (bit_and byte mask == 0)

-- A test of every number under a bound, the largest last.
unfoldable pub each_under : (ℕ → Bool) → ℕ → Bool
each_under test zero = true
each_under test (suc top) = let smaller = each_under test top in if test top then smaller else false

pub each_under_lem :
    (test : ℕ → Bool) (top b : ℕ) → b < top → each_under test top ≡ true → test b ≡ true
unfolding each_under
each_under_lem test zero b under h = absurd (omega arith)
each_under_lem test (suc top) b under h = ground (arith, each_under_lem test top b)

both_sound :
    (n m : ℕ) (p : ℕ → ℕ → Bool) (x y : ℕ)
    → each_under (λ a. each_under (p a) m) n ≡ true
    → x < n
    → y < m
    → p x y ≡ true
both_sound n m p x y h hx hy =
    each_under_lem (p x) m y hy (each_under_lem (λ a. each_under (p a) m) n x hx h)

top_bit_table : each_under (λ n. bit_or 0x80 n == 128 + n) 128 ≡ true
unfolding each_under
top_bit_table = refl

-- The mask flag over a 7-bit length.
pub bit_or_top : (n : ℕ) → n < 128 → bit_or 0x80 n ≡ 128 + n
bit_or_top n h = (==_iff _ _).0 (each_under_lem _ 128 n h top_bit_table)

abbrev high_bits : ℕ → ℕ
high_bits b =
    bit (has_bit b 0x80) * 128
    + bit (has_bit b 0x40) * 64
    + bit (has_bit b 0x20) * 32
    + bit (has_bit b 0x10) * 16

high_bits_table : each_under (λ b. (high_bits b + bit_and b 0x0f) == b) 256 ≡ true
unfolding each_under
high_bits_table = refl

low_bits_table : each_under (λ b. ltb (bit_and b 0x0f) 16) 256 ≡ true
unfolding each_under
low_bits_table = refl

-- A byte as its four high bits, one by one, and the four low ones.
pub split_first :
    (b : ℕ)
    → b < 256
    → (bit (has_bit b 0x80) * 128
          + bit (has_bit b 0x40) * 64
          + bit (has_bit b 0x20) * 32
          + bit (has_bit b 0x10) * 16
          + bit_and b 0x0f
        ≡ b)
      × (bit_and b 0x0f < 16)
split_first b h = (
  (==_iff _ _).0 (each_under_lem _ 256 b h high_bits_table),
  ltb→lt _ _ (each_under_lem _ 256 b h low_bits_table),
)

top_bit_split : each_under (λ b. (bit (has_bit b 0x80) * 128 + bit_and b 0x7f) == b) 256 ≡ true
unfolding each_under
top_bit_split = refl

seven_bits_table : each_under (λ b. ltb (bit_and b 0x7f) 128) 256 ≡ true
unfolding each_under
seven_bits_table = refl

-- A byte as its highest bit and the seven others.
pub split_second :
    (b : ℕ) → b < 256 → (bit (has_bit b 0x80) * 128 + bit_and b 0x7f ≡ b) × (bit_and b 0x7f < 128)
split_second b h = (
  (==_iff _ _).0 (each_under_lem _ 256 b h top_bit_split),
  ltb→lt _ _ (each_under_lem _ 256 b h seven_bits_table),
)

unmask_table : each_under (λ x. each_under (λ k. bit_xor (bit_xor x k) k == x) 256) 256 ≡ true
unfolding each_under
unmask_table = refl

-- Masking a byte twice with the same key gives it back.
pub bit_xor-bit_xor : (x k : ℕ) → x < 256 → k < 256 → bit_xor (bit_xor x k) k ≡ x
bit_xor-bit_xor x k hx hk =
    (==_iff _ _).0 (both_sound 256 256 (λ a b. bit_xor (bit_xor a b) b == a) x k unmask_table hx hk)

xor_range_table : each_under (λ x. each_under (λ k. ltb (bit_xor x k) 256) 256) 256 ≡ true
unfolding each_under
xor_range_table = refl

pub bit_xor-lt : (x k : ℕ) → x < 256 → k < 256 → bit_xor x k < 256
bit_xor-lt x k hx hk =
    ltb→lt _ _ (both_sound 256 256 (λ a b. ltb (bit_xor a b) 256) x k xor_range_table hx hk)
