-- ===== src/Text/Pieces.antt =====
-- What src/request.rs and src/handshake.rs call of `str` to take texts apart.
use mathlib.Core.List.{reverse}
use socket_flow.Prelude.{
  ℕ, ◌+◌, ◌-◌, ◌*◌, ◌/◌, ◌%◌, ◌^◌, Bool, true, false, ◌&&◌, ◌||◌, Option, none, some, List, [], ◌∷◌,
  ◌++◌, map, ltb, leb, ◌==◌, if◌then◌else◌, length, drop,
}
use socket_flow.Text.{Text, codes, same_text, starts_with, is_whitespace, before}

-- `s.ends_with(suffix)`.
unfoldable pub ends_with : Text → Text → Bool
ends_with s suffix = starts_with (reverse s) (reverse suffix)

-- `s.contains(part)`.
unfoldable pub contains_text : Text → Text → Bool
contains_text [] part = same_text [] part
contains_text (c ∷ s) part = starts_with (c ∷ s) part || contains_text s part

abbrev pub behind : ℕ → Option (Text × Text) → Option (Text × Text)
behind c none = none
behind c (some (a, b)) = some (c ∷ a, b)

-- `s.split_once(sep)`, of a separator that is not empty: before and behind its first occurrence.
unfoldable pub split_once : Text → Text → Option (Text × Text)
split_once [] sep = none
split_once (c ∷ s) sep =
    let later = behind c (split_once s sep) in
    if starts_with (c ∷ s) sep then some ([], drop (length sep) (c ∷ s)) else later

-- `s.lines()`: a line ends at a line feed, with the carriage return before it if there is one.
unfoldable pub lines : Text → List Text
unfolding before
lines [] = []
lines (c ∷ s) =
    let rest = lines s in
    if c == 10
    then [] ∷ rest
    else if c == 13 && starts_with s (codes "\n")
    then rest
    else before c rest

-- `s.split_whitespace()`.
unfoldable pub split_at_whitespace : Text → List Text
unfolding before
split_at_whitespace [] = [] ∷ []
split_at_whitespace (c ∷ s) =
    let pieces = split_at_whitespace s in if is_whitespace c then [] ∷ pieces else before c pieces

unfoldable pub not_empty : List Text → List Text
not_empty [] = []
not_empty ([] ∷ ps) = not_empty ps
not_empty ((c ∷ p) ∷ ps) = (c ∷ p) ∷ not_empty ps

abbrev pub split_whitespace : Text → List Text
split_whitespace s = not_empty (split_at_whitespace s)

-- `s.replace("{}", with)`.
unfoldable pub replace_braces : Text → Text → Text
replace_braces [] with_text = []
replace_braces (c ∷ []) with_text = c ∷ []
replace_braces (c ∷ (d ∷ s)) with_text = elim (c == b'{' && d == b'}') [
  | true ↦ with_text ++ replace_braces s with_text
  | false ↦ c ∷ replace_braces (d ∷ s) with_text
]

unfoldable pub all_ascii : Text → Bool
all_ascii [] = true
all_ascii (c ∷ s) = let rest = all_ascii s in if ltb c 0x80 then rest else false

unfoldable pub to_ascii_lowercase : ℕ → ℕ
to_ascii_lowercase c = if leb b'A' c && leb c b'Z' then c + 32 else c

-- `s.to_lowercase()`: what it makes of a text that is not ASCII is in the tables of Unicode, here a
-- parameter.
unfoldable pub to_lowercase : (Text → Text) → Text → Text
unfolding all_ascii to_ascii_lowercase
to_lowercase unicode s = if all_ascii s then map to_ascii_lowercase s else unicode s

parse_digits : ℕ → Text → Option ℕ
parse_digits acc [] = some acc
parse_digits acc (c ∷ s) =
    let next = acc * 10 + (c - 48) in
    let rest = parse_digits next s in
    if leb 48 c && (leb c 57 && ltb next (2 ^ 64)) then rest else none

-- `s.parse::<usize>().ok()`.
unfoldable pub parse_usize : Text → Option ℕ
unfolding parse_digits
parse_usize [] = none
parse_usize (c ∷ []) = parse_digits 0 (c ∷ [])
parse_usize (c ∷ (d ∷ s)) = parse_digits 0 (if c == b'+' then d ∷ s else c ∷ (d ∷ s))

digit : ℕ → ℕ
digit n = 48 + n % 10

-- A `u16` in decimal.
unfoldable pub show_u16 : ℕ → Text
unfolding digit
show_u16 n =
    if ltb n 10
    then digit n ∷ []
    else if ltb n 100
    then digit (n / 10) ∷ digit n ∷ []
    else if ltb n 1000
    then digit (n / 100) ∷ digit (n / 10) ∷ digit n ∷ []
    else if ltb n 10000
    then digit (n / 1000) ∷ digit (n / 100) ∷ digit (n / 10) ∷ digit n ∷ []
    else digit (n / 10000) ∷ digit (n / 1000) ∷ digit (n / 100) ∷ digit (n / 10) ∷ digit n ∷ []
