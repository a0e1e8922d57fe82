-- ===== src/Utf8/Ascii.antt =====
-- Bytes under 128 are UTF-8 in any order.
use socket_flow.Prelude.{ℕ, ◌<◌, ◌≡◌, refl, true, List, [], ◌∷◌, lt→ltb, All}
use socket_flow.Utf8.{start, lead, advance, between, validate, is_utf8}

abbrev pub IsAscii : List ℕ → Type 0
IsAscii = All (λ c. c < 0x80)

validate-IsAscii : (s : List ℕ) → IsAscii s → validate start s ≡ true
unfolding validate between advance lead
validate-IsAscii [] h = refl
validate-IsAscii (c ∷ s) h =
    rw (validate, advance, lead, lt→ltb c 0x80 h.0) (validate-IsAscii s h.1)

pub is_utf8-IsAscii : (s : List ℕ) → IsAscii s → is_utf8 s ≡ true
unfolding is_utf8
is_utf8-IsAscii s h = validate-IsAscii s h
