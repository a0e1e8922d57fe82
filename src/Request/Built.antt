-- ===== src/Request/Built.antt =====
-- The heads that the crate puts together (src/request.rs and src/handshake.rs) as lines.
use mathlib.Core.List.{map}
use socket_flow.Prelude.{
  ◌≡◌, refl, sym, ap, ◌∙◌, true, false, Option, none, some, List, [], ◌∷◌, ◌++◌, append-nil,
  append_assoc, All, Bool-cases, inl, inr, if◌then◌else◌, ◌==◌, arith,
}
use socket_flow.Config.{Extensions}
use socket_flow.Text.{Text, codes, contains}
use socket_flow.Text.Plain.{crlf, delimiter, joined_lines}
use socket_flow.Text.Cut.{
  IsVisible, all_visible, all_visible-IsVisible, All-IsPlain, trim-IsVisible,
}
use socket_flow.Extensions.{add_extension_headers}
use socket_flow.Extensions.Printed.{header_value, add_extension_headers_lem}
use socket_flow.Extensions.Parsed.{IsU8}
use socket_flow.Extensions.Values.{header_value-IsPlain, trim-header_value}
use socket_flow.Request.{Headers}
use socket_flow.Request.Construct.{request_text}
use socket_flow.Request.Parsed.{header_line, start_line, printed, IsField}

-- The header for the extensions, and what stands behind the blank line of a head that has it.
unfoldable pub extension_fields : Option Extensions → Headers
extension_fields none = []
extension_fields (some e) =
    if e.permessage_deflate then (codes "Sec-WebSocket-Extensions", header_value e) ∷ [] else []

unfoldable pub surplus : Option Extensions → Text
surplus none = []
surplus (some e) = if e.permessage_deflate then [] else crlf

-- Windows of eight bits, as the type of the source has them.
abbrev pub IsSmall : Option Extensions → Type 0
IsSmall none = Unit
IsSmall (some e) = IsU8 e.client_max_window_bits × IsU8 e.server_max_window_bits

-- A head without its blank line.
abbrev pub open_head : Text → Headers → Text
open_head start hs = joined_lines start (map header_line hs) ++ crlf

joined_lines-snoc :
    (l m : Text) (ms : List Text)
    → joined_lines l (ms ++ (m ∷ [])) ≡ joined_lines l ms ++ (crlf ++ m)
joined_lines-snoc l m [] = refl
joined_lines-snoc l m (n ∷ ms) =
    ap (λ t. l ++ (crlf ++ t)) (joined_lines-snoc n m ms)
    ∙ sym (append_assoc l (crlf ++ joined_lines n ms) (crlf ++ m))

map-snoc :
    (hs : Headers) (h : Text × Text)
    → map header_line (hs ++ (h ∷ [])) ≡ map header_line hs ++ (header_line h ∷ [])
map-snoc [] h = refl
map-snoc (g ∷ hs) h = ap (λ r. header_line g ∷ r) (map-snoc hs h)

module _ (e : Extensions) (on : e.permessage_deflate ≡ true) where
  extension_fields_on :
      extension_fields (some e) ≡ (codes "Sec-WebSocket-Extensions", header_value e) ∷ []
  unfolding extension_fields
  extension_fields_on = rw on refl

  surplus_on : surplus (some e) ≡ []
  unfolding surplus
  surplus_on = rw on refl

module _ (e : Extensions) (off : e.permessage_deflate ≡ false) where
  extension_fields_off : extension_fields (some e) ≡ []
  unfolding extension_fields
  extension_fields_off = rw off refl

  surplus_off : surplus (some e) ≡ crlf
  unfolding surplus
  surplus_off = rw off refl

  add_extension_headers_off :
      (head : Text) → add_extension_headers head (some e) ≡ head ++ delimiter
  unfolding add_extension_headers
  add_extension_headers_off head = rw off refl

module _ (start : Text) (hs : Headers) where
  close_enabled :
      (e : Extensions)
      → e.permessage_deflate ≡ true
      → add_extension_headers (open_head start hs) (some e)
        ≡ printed start (hs ++ ((codes "Sec-WebSocket-Extensions", header_value e) ∷ []))
  close_enabled e on =
      let field = header_line (codes "Sec-WebSocket-Extensions", header_value e) in
      let before = joined_lines start (map header_line hs) in
      add_extension_headers_lem (open_head start hs) e on
      ∙ ap (λ t. t ++ delimiter)
          (append_assoc before crlf field
            ∙ sym (joined_lines-snoc start field (map header_line hs))
            ∙ ap (joined_lines start)
                (sym (map-snoc hs (codes "Sec-WebSocket-Extensions", header_value e))))

  close_none : open_head start hs ++ crlf ≡ printed start (hs ++ [])
  close_none =
      append_assoc (joined_lines start (map header_line hs)) crlf crlf
      ∙ sym (ap (printed start) (append-nil hs))

  close_disabled : open_head start hs ++ delimiter ≡ printed start (hs ++ []) ++ crlf
  close_disabled =
      sym (append_assoc (open_head start hs) crlf crlf) ∙ ap (λ t. t ++ crlf) close_none

  -- What `add_extension_headers` makes of a head.
  pub add_extension_headers-open_head :
      (extensions : Option Extensions)
      → add_extension_headers (open_head start hs) extensions
        ≡ printed start (hs ++ extension_fields extensions) ++ surplus extensions
  add_extension_headers-open_head none =
      unfold extension_fields surplus add_extension_headers in
      close_none ∙ sym (append-nil (printed start (hs ++ [])))
  add_extension_headers-open_head (some e) = elim (Bool-cases e.permessage_deflate) [
    | inl on ↦
        rw (extension_fields_on e on, surplus_on e on)
          (close_enabled e on
            ∙ sym (
                append-nil (
                  printed start (hs ++ ((codes "Sec-WebSocket-Extensions", header_value e) ∷ [])))))
    | inr off ↦
        rw (extension_fields_off e off, surplus_off e off)
          (add_extension_headers_off e off (open_head start hs) ∙ close_disabled)
  ]

abbrev pub request_fields : Text → Text → Headers
request_fields host key =
    (codes "Host", host)
    ∷ (codes "Connection", codes "Upgrade")
    ∷ (codes "Upgrade", codes "websocket")
    ∷ (codes "Sec-WebSocket-Key", key)
    ∷ (codes "Sec-WebSocket-Version", codes "13")
    ∷ []

pub request_text-open_head :
    (path host key : Text)
    → request_text path host key
      ≡ open_head (start_line (codes "GET") path (codes "HTTP/1.1")) (request_fields host key)
unfolding request_text
request_text-open_head path host key = simp append_assoc

contains-free : (s : Text) → contains s b':' ≡ false → All (λ c. (c == b':') ≡ false) s
unfolding contains
contains-free [] h = tt
contains-free (c ∷ s) h = (ground (arith, h), contains-free s (ground (arith, h)))

-- A given name with a value of visible characters.
visible-IsField :
    (name value : Text)
    → all_visible name ≡ true
    → contains name b':' ≡ false
    → All IsVisible value
    → IsField (name, value)
visible-IsField name value n colon v = record {
  name = All-IsPlain name (all_visible-IsVisible name n);
  no_colon = contains-free name colon;
  value = All-IsPlain value v;
  trimmed = trim-IsVisible value v;
}

pub request_fields-IsField :
    (host key : Text)
    → All IsVisible host
    → All IsVisible key
    → All IsField (request_fields host key)
unfolding all_visible contains
request_fields-IsField host key h k = (
  visible-IsField (codes "Host") host refl refl h,
  (
    visible-IsField (codes "Connection") (codes "Upgrade") refl refl
        (all_visible-IsVisible (codes "Upgrade") refl),
    (
      visible-IsField (codes "Upgrade") (codes "websocket") refl refl
          (all_visible-IsVisible (codes "websocket") refl),
      (
        visible-IsField (codes "Sec-WebSocket-Key") key refl refl k,
        (
          visible-IsField (codes "Sec-WebSocket-Version") (codes "13") refl refl
              (all_visible-IsVisible (codes "13") refl),
          tt,
        ),
      ),
    ),
  ),
)

abbrev pub response_fields : Text → Headers
response_fields accept_key =
    (codes "Connection", codes "Upgrade")
    ∷ (codes "Upgrade", codes "websocket")
    ∷ (codes "Sec-WebSocket-Accept", accept_key)
    ∷ []

pub response_fields-IsField :
    (accept_key : Text) → All IsVisible accept_key → All IsField (response_fields accept_key)
unfolding all_visible contains
response_fields-IsField accept_key k = (
  visible-IsField (codes "Connection") (codes "Upgrade") refl refl
      (all_visible-IsVisible (codes "Upgrade") refl),
  (
    visible-IsField (codes "Upgrade") (codes "websocket") refl refl
        (all_visible-IsVisible (codes "websocket") refl),
    (visible-IsField (codes "Sec-WebSocket-Accept") accept_key refl refl k, tt),
  ),
)

extension-IsField :
    (e : Extensions) → IsSmall (some e) → IsField (codes "Sec-WebSocket-Extensions", header_value e)
unfolding all_visible contains
extension-IsField e h = record {
  name =
      All-IsPlain (codes "Sec-WebSocket-Extensions")
        (all_visible-IsVisible (codes "Sec-WebSocket-Extensions") refl);
  no_colon = contains-free (codes "Sec-WebSocket-Extensions") refl;
  value = header_value-IsPlain e h.0 h.1;
  trimmed = trim-header_value e h.0 h.1;
}

pub extension_fields-IsField :
    (extensions : Option Extensions)
    → IsSmall extensions
    → All IsField (extension_fields extensions)
extension_fields-IsField none h = unfold extension_fields in tt
extension_fields-IsField (some e) h = elim (Bool-cases e.permessage_deflate) [
  | inl on ↦ rw (extension_fields_on e on) (extension-IsField e h, tt)
  | inr off ↦ rw (extension_fields_off e off) tt
]
