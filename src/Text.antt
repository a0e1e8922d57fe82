-- ===== src/Text.antt =====
-- Texts of the handshake as lists of code points, and what src/extensions.rs calls of the `str` of
-- Rust's standard library; src/request.rs and src/handshake.rs call more of it, which stands in the
-- child modules.
pub mod Bytes
pub mod Pieces
pub mod Plain
pub mod Cut
pub mod Same
use Prim.Native.Char.{code}
use Prim.Native.String.{String}
use socket_flow.Prelude.{
  ℕ, ◌+◌, ◌-◌, ◌*◌, ◌/◌, ◌%◌, Bool, true, false, ◌&&◌, ◌||◌, Option, none, some, List, [], ◌∷◌, ltb,
  leb, ◌==◌, if◌then◌else◌,
}

abbrev pub Text : Type 0
Text = List ℕ

-- The code points of a literal.
abbrev pub codes : String → Text
codes String.[] = []
codes (String.◌∷◌ c s) = code c ∷ codes s

unfoldable pub same_text : Text → Text → Bool
same_text [] [] = true
same_text [] (d ∷ t) = false
same_text (c ∷ s) [] = false
same_text (c ∷ s) (d ∷ t) = c == d && same_text s t

-- `s.starts_with(prefix)`.
unfoldable pub starts_with : Text → Text → Bool
starts_with s [] = true
starts_with [] (d ∷ t) = false
starts_with (c ∷ s) (d ∷ t) = c == d && starts_with s t

unfoldable pub contains : Text → ℕ → Bool
contains [] d = false
contains (c ∷ s) d = c == d || contains s d

-- Unicode's White_Space.
unfoldable pub is_whitespace : ℕ → Bool
is_whitespace c =
    (leb 9 c && leb c 13)
    || (c == 32)
    || (c == 0x85)
    || (c == 0xA0)
    || (c == 0x1680)
    || (leb 0x2000 c && leb c 0x200A)
    || (c == 0x2028)
    || (c == 0x2029)
    || (c == 0x202F)
    || (c == 0x205F)
    || (c == 0x3000)

unfoldable pub trim_start : Text → Text
unfolding is_whitespace
trim_start [] = []
trim_start (c ∷ s) = let rest = trim_start s in if is_whitespace c then rest else c ∷ s

unfoldable pub trim_end : Text → Text
unfolding is_whitespace
trim_end [] = []
trim_end (c ∷ s) = elim (trim_end s) [
  | [] ↦ if is_whitespace c then [] else c ∷ []
  | d ∷ t ↦ c ∷ (d ∷ t)
]

unfoldable pub trim : Text → Text
trim s = trim_end (trim_start s)

unfoldable pub before : ℕ → List Text → List Text
before c [] = (c ∷ []) ∷ []
before c (p ∷ ps) = (c ∷ p) ∷ ps

-- `s.split(sep)`: the pieces between the separators, one at least.
unfoldable pub split : ℕ → Text → List Text
unfolding before
split sep [] = [] ∷ []
split sep (c ∷ s) = let pieces = split sep s in if c == sep then [] ∷ pieces else before c pieces

unfoldable pub last : List Text → Option Text
last [] = none
last (p ∷ []) = some p
last (p ∷ (q ∷ ps)) = last (q ∷ ps)

parse_digits : ℕ → Text → Option ℕ
parse_digits acc [] = some acc
parse_digits acc (c ∷ s) =
    let next = acc * 10 + (c - 48) in
    let rest = parse_digits next s in if leb 48 c && (leb c 57 && leb next 255) then rest else none

-- `s.parse::<u8>().ok()`: an optional plus sign, and digits.
unfoldable pub parse_u8 : Text → Option ℕ
unfolding parse_digits
parse_u8 [] = none
parse_u8 (c ∷ []) = parse_digits 0 (c ∷ [])
parse_u8 (c ∷ (d ∷ s)) = parse_digits 0 (if c == b'+' then d ∷ s else c ∷ (d ∷ s))

-- A `u8` in decimal.
unfoldable pub show_u8 : ℕ → Text
show_u8 n =
    if ltb n 10
    then (48 + n) ∷ []
    else if ltb n 100
    then (48 + n / 10) ∷ (48 + n % 10) ∷ []
    else (48 + n / 100) ∷ (48 + n / 10 % 10) ∷ (48 + n % 10) ∷ []
