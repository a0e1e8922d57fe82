-- ===== src/Extensions/Parsed.antt =====
-- What the parser of src/extensions.rs makes of each parameter that the header may have.
use socket_flow.Prelude.{
  ℕ, ◌<◌, ◌≡◌, refl, sym, ap, ◌∙◌, Bool, true, false, not, ◌&&◌, Option, none, some, List, [], ◌∷◌,
  ◌++◌, map, All, ◌==◌, inl, inr, Option-cases, arith,
}
use socket_flow.Prelude.Bits.{each_under, each_under_lem}
use socket_flow.Config.{Extensions}
use socket_flow.Text.{
  Text, codes, split, before, same_text, starts_with, contains, trim, trim_start, trim_end, last,
  parse_u8, show_u8,
}
use socket_flow.Extensions.{
  permessage_deflate, client_no_context_takeover, server_no_context_takeover,
  client_max_window_bits, server_max_window_bits, read_part, read_parts, window_bits,
}
use socket_flow.Extensions.Printed.{flag_params, bits_params, Unbroken, contains-Unbroken}

-- What the parser makes of a parameter for window bits, and of the name before it.
yields : ℕ → Option (Option ℕ) → Bool
yields n (some (some k)) = k == n
yields n _ = false

abbrev bits_part : Text → ℕ → Text
bits_part name n = b' ' ∷ (name ++ (codes "=" ++ show_u8 n))

reads_client : ℕ → Bool
reads_client n =
    let part = bits_part client_max_window_bits n in
    not (same_text (trim part) permessage_deflate)
    && not (starts_with (trim part) client_no_context_takeover)
    && not (starts_with (trim part) server_no_context_takeover)
    && starts_with (trim part) client_max_window_bits
    && yields n (window_bits part)

reads_server : ℕ → Bool
reads_server n =
    let part = bits_part server_max_window_bits n in
    not (same_text (trim part) permessage_deflate)
    && not (starts_with (trim part) client_no_context_takeover)
    && not (starts_with (trim part) server_no_context_takeover)
    && not (starts_with (trim part) client_max_window_bits)
    && starts_with (trim part) server_max_window_bits
    && yields n (window_bits part)

server_table : each_under reads_server 256 ≡ true
unfolding reads_server each_under same_text starts_with trim trim_start trim_end window_bits yields
    parse_u8 show_u8 contains last split before
server_table = refl

client_table : each_under reads_client 256 ≡ true
unfolding reads_client each_under same_text starts_with trim trim_start trim_end window_bits yields
    parse_u8 show_u8 contains last split before
client_table = refl

read_part_client :
    (n : ℕ) (e : Extensions)
    → n < 256
    → read_part (bits_part client_max_window_bits n) e
      ≡ some (record e { client_max_window_bits = some n })
unfolding read_part reads_client yields
read_part_client n e h = ground (arith, each_under_lem reads_client 256 n h client_table)

read_part_server :
    (n : ℕ) (e : Extensions)
    → n < 256
    → read_part (bits_part server_max_window_bits n) e
      ≡ some (record e { server_max_window_bits = some n })
unfolding read_part reads_server yields
read_part_server n e h = ground (arith, each_under_lem reads_server 256 n h server_table)

read_part_client_flag :
    (e : Extensions)
    → read_part (b' ' ∷ client_no_context_takeover) e
      ≡ some (record e { client_no_context_takeover = some true })
unfolding read_part same_text starts_with trim trim_start trim_end
read_part_client_flag e = refl

read_part_server_flag :
    (e : Extensions)
    → read_part (b' ' ∷ server_no_context_takeover) e
      ≡ some (record e { server_no_context_takeover = some true })
unfolding read_part same_text starts_with trim trim_start trim_end
read_part_server_flag e = refl

some_inj : {x y : Extensions} → some x ≡ some y → x ≡ y
some_inj e = cc

none-some : {x : Extensions} → none ≡ some x → ⊥
none-some e = cc

abbrev pub spaced : List Text → List Text
spaced = map (λ q. b' ' ∷ q)

pub read_parts-cons :
    (q : Text) (qs : List Text) (e e' : Extensions)
    → read_part q e ≡ some e'
    → read_parts (q ∷ qs) e ≡ read_parts qs e'
unfolding read_parts
read_parts-cons q qs e e' h = rw (read_parts, h)

read_parts_stop :
    (q : Text) (qs : List Text) (e : Extensions)
    → read_part q e ≡ none
    → read_parts (q ∷ qs) e ≡ none
unfolding read_parts
read_parts_stop q qs e h = rw (read_parts, h)

one_part :
    (p : Text) (e e' : Extensions)
    → read_part (b' ' ∷ p) e ≡ some e'
    → read_parts (spaced (p ∷ [])) e ≡ some e'
one_part p e e' h = read_parts-cons (b' ' ∷ p) [] e e' h ∙ unfold read_parts in refl

pub read_parts-append :
    (ps qs : List Text) (e e' : Extensions)
    → read_parts (spaced ps) e ≡ some e'
    → read_parts (spaced (ps ++ qs)) e ≡ read_parts (spaced qs) e'
unfolding read_parts
read_parts-append [] qs e e' h = ap (λ x. read_parts (spaced qs) x) (some_inj h)
read_parts-append (p ∷ ps) qs e e' h = elim (Option-cases (read_part (b' ' ∷ p) e)) [
  | inl stop ↦
      absurd (let e1 = read_parts_stop (b' ' ∷ p) (spaced ps) e stop in none-some (sym e1 ∙ h))
  | inr (e1, read) ↦
      read_parts-cons (b' ' ∷ p) (spaced (ps ++ qs)) e e1 read
      ∙ read_parts-append ps qs e1 e' (sym (read_parts-cons (b' ' ∷ p) (spaced ps) e e1 read) ∙ h)
]

-- A flag that is set, or nothing: what the header says of it.
abbrev pub said : Option Bool → Option Bool
said (some true) = some true
said _ = none

pub read_client_flag :
    (o : Option Bool) (e : Extensions)
    → e.client_no_context_takeover ≡ none
    → read_parts (spaced (flag_params client_no_context_takeover o)) e
      ≡ some (record e { client_no_context_takeover = said o })
unfolding flag_params read_parts
read_client_flag (some true) e h = one_part client_no_context_takeover e _ (read_part_client_flag e)
read_client_flag (some false) e h = ap (λ x. some (record e { client_no_context_takeover = x })) h
read_client_flag none e h = ap (λ x. some (record e { client_no_context_takeover = x })) h

pub read_server_flag :
    (o : Option Bool) (e : Extensions)
    → e.server_no_context_takeover ≡ none
    → read_parts (spaced (flag_params server_no_context_takeover o)) e
      ≡ some (record e { server_no_context_takeover = said o })
unfolding flag_params read_parts
read_server_flag (some true) e h = one_part server_no_context_takeover e _ (read_part_server_flag e)
read_server_flag (some false) e h = ap (λ x. some (record e { server_no_context_takeover = x })) h
read_server_flag none e h = ap (λ x. some (record e { server_no_context_takeover = x })) h

-- A window that the header can name is a `u8`.
abbrev pub IsU8 : Option ℕ → Type 0
IsU8 none = Unit
IsU8 (some n) = n < 256

pub read_client_bits :
    (o : Option ℕ) (e : Extensions)
    → IsU8 o
    → e.client_max_window_bits ≡ none
    → read_parts (spaced (bits_params client_max_window_bits o)) e
      ≡ some (record e { client_max_window_bits = o })
unfolding bits_params read_parts
read_client_bits (some n) e small h = one_part _ e _ (read_part_client n e small)
read_client_bits none e small h = ap (λ x. some (record e { client_max_window_bits = x })) h

pub read_server_bits :
    (o : Option ℕ) (e : Extensions)
    → IsU8 o
    → e.server_max_window_bits ≡ none
    → read_parts (spaced (bits_params server_max_window_bits o)) e
      ≡ some (record e { server_max_window_bits = o })
unfolding bits_params read_parts
read_server_bits (some n) e small h = one_part _ e _ (read_part_server n e small)
read_server_bits none e small h = ap (λ x. some (record e { server_max_window_bits = x })) h

-- What a header says of the extensions that it was printed from: a flag that is false is left out.
unfoldable pub announced : Extensions → Extensions
announced e = record e {
  client_no_context_takeover = said e.client_no_context_takeover;
  server_no_context_takeover = said e.server_no_context_takeover;
}

-- No parameter has the separator in it.
pub flag-Unbroken :
    (name : Text) (o : Option Bool) → Unbroken name → All Unbroken (flag_params name o)
unfolding flag_params
flag-Unbroken name (some true) h = (h, tt)
flag-Unbroken name (some false) h = tt
flag-Unbroken name none h = tt

pub unbroken_bits : Text → ℕ → Bool
unbroken_bits name n = not (contains (name ++ (codes "=" ++ show_u8 n)) b';')

pub unbroken_client : each_under (unbroken_bits client_max_window_bits) 256 ≡ true
unfolding unbroken_bits each_under contains show_u8
unbroken_client = refl

pub unbroken_server : each_under (unbroken_bits server_max_window_bits) 256 ≡ true
unfolding unbroken_bits each_under contains show_u8
unbroken_server = refl

pub bits-Unbroken :
    (name : Text) (o : Option ℕ)
    → each_under (unbroken_bits name) 256 ≡ true
    → IsU8 o
    → All Unbroken (bits_params name o)
unfolding bits_params unbroken_bits
bits-Unbroken name none table small = tt
bits-Unbroken name (some n) table small = (
  contains-Unbroken (name ++ (codes "=" ++ show_u8 n))
      (ground (arith, each_under_lem (unbroken_bits name) 256 n small table)),
  tt,
)
