-- ===== src/Request/Sent.antt =====
-- Heads with their extensions as bytes, and the parser of src/request.rs on them.
use mathlib.Core.List.{map}
use socket_flow.Prelude.{
  ◌<◌, ◌≡◌, ap, ◌∙◌, Option, none, some, List, [], ◌∷◌, ◌++◌, All, All-append, Bool-cases, inl, inr,
  arith,
}
use socket_flow.Error.{ok}
use socket_flow.Config.{Extensions}
use socket_flow.Source.{Arrival, bytes}
use socket_flow.Utf8.Ascii.{IsAscii}
use socket_flow.Text.{Text, codes}
use socket_flow.Text.Bytes.{as_bytes, as_bytes-IsAscii}
use socket_flow.Text.Pieces.{split_whitespace}
use socket_flow.Text.Plain.{IsPlain, IsLine, crlf, delimiter, joined_lines}
use socket_flow.Text.Cut.{IsWord}
use socket_flow.Extensions.{add_extension_headers}
use socket_flow.Request.{Headers, get, parse_http_request}
use socket_flow.Request.Heads.{All-IsAscii, bytes-append}
use socket_flow.Request.Parsed.{
  header_line, start_line, printed, IsField, stored, head_of, start_line-IsLine, All-IsLine,
  parse_http_request-printed,
}
use socket_flow.Request.Built.{
  extension_fields, surplus, IsSmall, open_head, add_extension_headers-open_head,
  extension_fields-IsField,
}

joined_lines-IsAscii :
    (l : Text) (ms : List Text) → IsLine l → All IsLine ms → IsAscii (joined_lines l ms)
joined_lines-IsAscii l [] h hs = All-IsAscii l h.plain
joined_lines-IsAscii l (m ∷ ms) h hs =
    All-append (λ c. c < 0x80) l (crlf ++ joined_lines m ms) (All-IsAscii l h.plain)
      (omega arith, (omega arith, joined_lines-IsAscii m ms hs.0 hs.1))

surplus-IsAscii : (extensions : Option Extensions) → IsAscii (surplus extensions)
unfolding surplus
surplus-IsAscii none = tt
surplus-IsAscii (some e) = elim (Bool-cases e.permessage_deflate) [
  | inl on ↦ rw on tt
  | inr off ↦ rw off (omega arith, (omega arith, tt))
]

-- A head goes out as it is, byte by byte.
pub as_bytes-printed :
    (start : Text) (hs : Headers) (extensions : Option Extensions)
    → IsLine start
    → All IsField hs
    → as_bytes (printed start hs ++ surplus extensions) ≡ printed start hs ++ surplus extensions
as_bytes-printed start hs extensions h fs =
    as_bytes-IsAscii (printed start hs ++ surplus extensions) (
      All-append (λ c. c < 0x80) (printed start hs) (surplus extensions)
        (All-append (λ c. c < 0x80) (joined_lines start (map header_line hs)) delimiter
          (joined_lines-IsAscii start (map header_line hs) h (All-IsLine hs fs))
          (omega arith, (omega arith, (omega arith, (omega arith, tt)))))
        (surplus-IsAscii extensions))

module _ (unicode : Text → Text) where
  -- A head of three words at least, sent with its extensions, as the other end reads it.
  module _ (first second rest third : Text) (more : List Text) (hs : Headers)
      (extensions : Option Extensions) (small : IsSmall extensions) (f : IsWord first)
      (s : IsWord second) (r : All IsPlain rest) (words : split_whitespace rest ≡ third ∷ more)
      (fields : All IsField hs)
      (no_length : get
          (codes "Content-Length")
          (stored unicode (hs ++ extension_fields extensions) [])
        ≡ none) where
    pub read_sent :
        (text : Text) (src : List Arrival)
        → text ≡ open_head (start_line first second rest) hs
        → parse_http_request unicode
            (bytes (as_bytes (add_extension_headers text extensions)) ++ src)
          ≡ (
            ok (head_of unicode first second third (hs ++ extension_fields extensions)),
            bytes (surplus extensions) ++ src,
          )
    read_sent text src e =
        let start = start_line first second rest in
        let all = hs ++ extension_fields extensions in
        let every =
          All-append IsField hs (extension_fields extensions) fields
            (extension_fields-IsField extensions small) in
        ap (λ t. parse_http_request unicode (bytes t ++ src))
          (ap as_bytes (
              ap (λ t. add_extension_headers t extensions) e
              ∙ add_extension_headers-open_head start hs extensions)
            ∙ as_bytes-printed start all extensions (start_line-IsLine first second rest f s r)
                every)
        ∙ ap (parse_http_request unicode)
            (bytes-append (printed start all) (surplus extensions) src)
        ∙ parse_http_request-printed unicode first second rest third more all f s r words every
            no_length (bytes (surplus extensions) ++ src)
