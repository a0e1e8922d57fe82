-- ===== src/Utf8.antt =====
-- `String::from_utf8`, the check of Rust's standard library that the crate calls on payloads. A
-- `String` is the list of its bytes, of which `is_utf8` holds.
pub mod Concat
pub mod Ascii
use socket_flow.Prelude.{
  ℕ, zero, suc, Bool, true, false, ◌&&◌, Option, none, some, List, [], ◌∷◌, ltb, leb, ◌==◌,
  if◌then◌else◌,
}
use socket_flow.Error.{Outcome, ok, err, from_utf8_error}

-- Between two scalar values, or with a next byte wanted in a range and some plain continuation
-- bytes after it.
pub data Utf8State : Type 0 where
  start : Utf8State
  expect : ℕ → ℕ → ℕ → Utf8State

lead : ℕ → Option Utf8State
lead b =
    if ltb b 0x80
    then some start
    else if ltb b 0xC2
    then none
    else if ltb b 0xE0
    then some (expect 0x80 0xBF 0)
    else if b == 0xE0
    then some (expect 0xA0 0xBF 1)
    else if b == 0xED
    then some (expect 0x80 0x9F 1)
    else if ltb b 0xF0
    then some (expect 0x80 0xBF 1)
    else if b == 0xF0
    then some (expect 0x90 0xBF 2)
    else if ltb b 0xF4
    then some (expect 0x80 0xBF 2)
    else if b == 0xF4
    then some (expect 0x80 0x8F 2)
    else none

after : ℕ → Utf8State
after zero = start
after (suc n) = expect 0x80 0xBF n

advance : Utf8State → ℕ → Option Utf8State
unfolding lead after
advance start b = lead b
advance (expect lo hi n) b = if leb lo b && leb b hi then some (after n) else none

between : Utf8State → Bool
between start = true
between (expect lo hi n) = false

pub validate : Utf8State → List ℕ → Bool
unfolding advance between
validate s [] = between s
validate s (b ∷ bs) = elim (advance s b) [ none ↦ false | some s' ↦ validate s' bs ]

unfoldable pub is_utf8 : List ℕ → Bool
unfolding validate
is_utf8 bs = validate start bs

unfoldable pub from_utf8 : List ℕ → Outcome (List ℕ)
from_utf8 bs = if is_utf8 bs then ok bs else err from_utf8_error
