-- ===== src/Text/Bytes.antt =====
-- Texts as bytes: `str::as_bytes`, and `String` read from bytes, which Rust's standard library
-- checks to be UTF-8.
use socket_flow.Prelude.{
  ℕ, zero, suc, ◌+◌, ◌*◌, ◌/◌, ◌%◌, ◌≡◌, refl, ap, true, false, Option, none, some, List, [], ◌∷◌,
  ◌++◌, ltb, if◌then◌else◌, lt→ltb,
}
use socket_flow.Utf8.{is_utf8}
use socket_flow.Utf8.Ascii.{IsAscii, is_utf8-IsAscii}
use socket_flow.Text.{Text}

-- The bytes of one code point.
char_bytes : ℕ → List ℕ
char_bytes c =
    if ltb c 0x80
    then c ∷ []
    else if ltb c 0x800
    then (0xC0 + c / 0x40) ∷ (0x80 + c % 0x40) ∷ []
    else if ltb c 0x10000
    then (0xE0 + c / 0x1000) ∷ (0x80 + c / 0x40 % 0x40) ∷ (0x80 + c % 0x40) ∷ []
    else (0xF0 + c / 0x40000)
      ∷ (0x80 + c / 0x1000 % 0x40)
      ∷ (0x80 + c / 0x40 % 0x40)
      ∷ (0x80 + c % 0x40)
      ∷ []

unfoldable pub as_bytes : Text → List ℕ
unfolding char_bytes
as_bytes [] = []
as_bytes (c ∷ s) = char_bytes c ++ as_bytes s

-- The continuation bytes that a first byte announces, and its own bits.
follow : ℕ → ℕ
follow b = if ltb b 0xE0 then 1 else if ltb b 0xF0 then 2 else 3

head_bits : ℕ → ℕ
head_bits b = if ltb b 0xE0 then b % 0x20 else if ltb b 0xF0 then b % 0x10 else b % 8

-- The code points of bytes that are UTF-8, with some continuation bytes of one still to come.
code_points : ℕ → ℕ → List ℕ → Text
unfolding follow head_bits
code_points pending acc [] = []
code_points zero acc (b ∷ bs) = elim (ltb b 0x80) [
  | true ↦ b ∷ code_points zero 0 bs
  | false ↦ code_points (follow b) (head_bits b) bs
]
code_points (suc zero) acc (b ∷ bs) = (acc * 0x40 + b % 0x40) ∷ code_points zero 0 bs
code_points (suc (suc n)) acc (b ∷ bs) = code_points (suc n) (acc * 0x40 + b % 0x40) bs

unfoldable pub text_of : List ℕ → Option Text
unfolding code_points
text_of bytes = if is_utf8 bytes then some (code_points zero 0 bytes) else none

pub as_bytes-IsAscii : (s : Text) → IsAscii s → as_bytes s ≡ s
unfolding as_bytes char_bytes
as_bytes-IsAscii [] h = refl
as_bytes-IsAscii (c ∷ s) h = rw (lt→ltb c 0x80 h.0) (ap (λ r. c ∷ r) (as_bytes-IsAscii s h.1))

code_points-IsAscii : (s : Text) → IsAscii s → code_points zero 0 s ≡ s
unfolding code_points
code_points-IsAscii [] h = refl
code_points-IsAscii (c ∷ s) h =
    rw (code_points, lt→ltb c 0x80 h.0) (ap (λ r. c ∷ r) (code_points-IsAscii s h.1))

pub text_of-IsAscii : (s : Text) → IsAscii s → text_of s ≡ some s
unfolding text_of
text_of-IsAscii s h = rw (is_utf8-IsAscii s h, code_points-IsAscii s h) refl
