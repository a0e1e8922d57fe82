-- ===== src/Handshake/Replies.antt =====
-- The response of src/handshake.rs as it is read by the client, and what each end makes of the
-- extensions of the other.
use socket_flow.Prelude.{
  ℕ, ◌≡◌, refl, sym, ap, ◌∙◌, true, false, Option, none, some, [], ◌∷◌, append_assoc, Bool-cases,
  inl, inr, ◌==◌, arith,
}
use socket_flow.Config.{Extensions}
use socket_flow.Text.{Text, same_text, starts_with, split, trim, trim_start, trim_end}
use socket_flow.Text.Pieces.{contains_text, replace_braces}
use socket_flow.Extensions.{parse_extensions, read_parts, read_part, if_enabled}
use socket_flow.Extensions.Printed.{header_value}
use socket_flow.Extensions.Parsed.{announced}
use socket_flow.Extensions.RoundTrip.{parse_header_value}
use socket_flow.Request.Built.{IsSmall, open_head, response_fields}
use socket_flow.Request.RoundTrip.{response_line, offered_value}
use socket_flow.Handshake.{http_accept_response, text_or_default}

pub replaced-open_head :
    (accept_key : Text)
    → replace_braces http_accept_response accept_key
      ≡ open_head response_line (response_fields accept_key)
unfolding replace_braces
replaced-open_head accept_key = simp append_assoc

same_code : (c : ℕ) → (c == c) ≡ true
same_code c = ground arith

starts_with_self : (s : Text) → starts_with s s ≡ true
unfolding starts_with
starts_with_self [] = refl
starts_with_self (c ∷ s) = rw (same_code c) (starts_with_self s)

-- A text contains itself.
pub contains_text_self : (s : Text) → contains_text s s ≡ true
unfolding contains_text same_text
contains_text_self [] = refl
contains_text_self (c ∷ s) = rw (contains_text, starts_with_self (c ∷ s)) refl

-- What one end hears of the extensions that the other end set: nothing where compression is off,
-- and of a flag only whether it is set.
unfoldable pub heard : Option Extensions → Option Extensions
heard none = none
heard (some e) = elim e.permessage_deflate [ true ↦ some (announced e) | false ↦ none ]

parse_extensions_empty : parse_extensions [] ≡ none
unfolding parse_extensions read_parts read_part if_enabled split trim trim_start trim_end same_text
    starts_with
parse_extensions_empty = refl

module _ (e : Extensions) (on : e.permessage_deflate ≡ true) where
  pub offered_value_on : offered_value (some e) ≡ some (header_value e)
  unfolding offered_value header_value
  offered_value_on = rw on refl

  pub heard_on : heard (some e) ≡ some (announced e)
  heard_on =
      unfold heard in
      ap (λ b. elim b as (λ x. Option Extensions) [ true ↦ some (announced e) | false ↦ none ]) on

module _ (e : Extensions) (off : e.permessage_deflate ≡ false) where
  pub offered_value_off : offered_value (some e) ≡ none
  unfolding offered_value
  offered_value_off = rw off refl

  pub heard_off : heard (some e) ≡ none
  unfolding heard
  heard_off = rw off refl

pub parse_extensions-heard :
    (extensions : Option Extensions)
    → IsSmall extensions
    → parse_extensions (text_or_default (offered_value extensions)) ≡ heard extensions
parse_extensions-heard none h = unfold offered_value heard in parse_extensions_empty
parse_extensions-heard (some e) h = elim (Bool-cases e.permessage_deflate) [
  | inl on ↦
      ap (λ o. parse_extensions (text_or_default o)) (offered_value_on e on)
      ∙ parse_header_value e on h.0 h.1
      ∙ sym (heard_on e on)
  | inr off ↦
      ap (λ o. parse_extensions (text_or_default o)) (offered_value_off e off)
      ∙ parse_extensions_empty
      ∙ sym (heard_off e off)
]
