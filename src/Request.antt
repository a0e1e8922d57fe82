-- ===== src/Request.antt =====
-- src/request.rs: the head of a request or of a response is read and taken apart; requests are put
-- together in Construct. A `HashMap` is a list of its entries, the last
-- one inserted first.
pub mod Construct
pub mod Heads
pub mod Waiting
pub mod Parsed
pub mod Body
pub mod Built
pub mod Sent
pub mod RoundTrip
use socket_flow.Prelude.{
  ℕ, zero, suc, ◌-◌, ◌^◌, Bool, true, false, Option, none, some, List, [], ◌∷◌, ◌++◌, ltb, ◌==◌,
  if◌then◌else◌,
}
use socket_flow.Error.{
  ok, err, panic, ok_or, io_error, unexpected_eof, timeout, http_parse_error,
  invalid_http_request_line, missing_http_method, missing_http_uri, missing_http_version,
  invalid_content_length,
}
use socket_flow.Run.{Run, pure, fail, lift, ◌>>=◌, ◌>>◌}
use socket_flow.Source.{Arrival, byte, tick, Reading, full, closed, elapsed, read_exact}
use socket_flow.Text.{Text, codes, same_text, trim}
use socket_flow.Text.Bytes.{as_bytes, text_of}
use socket_flow.Text.Pieces.{
  ends_with, split_once, lines, split_whitespace, to_lowercase, parse_usize,
}

abbrev pub Headers : Type 0
Headers = List (Text × Text)

-- `HashMap::get`.
unfoldable pub get : Text → Headers → Option Text
get key [] = none
get key ((k, v) ∷ rest) = let later = get key rest in if same_text k key then some v else later

pub record HttpRequest : Type 0 where
  pub method : Text
  pub uri : Text
  pub version : Text
  pub headers : Headers
  pub body : List ℕ

abbrev pub get_header_value : Text → HttpRequest → Option Text
get_header_value key request = get key request.headers

abbrev http_request_delimiter : Text
http_request_delimiter = codes "\r\n\r\n"

-- `read_line` has got a whole line: if it is text it goes behind the buffer, else the loop ends.
add_line : Text → List ℕ → Option Text
add_line buffer line = elim (text_of line) [ none ↦ none | some t ↦ some (buffer ++ t) ]

abbrev or_buffer : Text → Option Text → Text
or_buffer buffer none = buffer
or_buffer buffer (some longer) = longer

-- The loop over `read_line` under its timeout of `spare + 1` seconds: the bytes of the line that
-- is being read, and the lines before it.
unfoldable pub read_head : ℕ → List ℕ → Text → Run (List Arrival) Text
unfolding add_line
read_head spare line buffer [] = (ok (or_buffer buffer (add_line buffer line)), [])
read_head spare line buffer (byte b ∷ src) = elim (b == 10) [
  | false ↦ read_head spare (line ++ (b ∷ [])) buffer src
  | true ↦ elim (add_line buffer (line ++ (b ∷ []))) [
    | none ↦ (ok buffer, src)
    | some longer ↦ elim (ends_with longer http_request_delimiter) [
      | true ↦ (ok longer, src)
      | false ↦ read_head spare [] longer src
    ]
  ]
]
read_head zero line buffer (tick ∷ src) = (err timeout, src)
read_head (suc spare) line buffer (tick ∷ src) = read_head spare line buffer src

-- `Iterator::next`, and the items behind the one that it yields.
abbrev pub next : List Text → Option Text
next [] = none
next (p ∷ ps) = some p

abbrev pub after_next : List Text → List Text
after_next [] = []
after_next (p ∷ ps) = ps

unfoldable pub read_content : Reading → Run (List Arrival) (List ℕ)
read_content (full bytes rest) src = (ok bytes, rest)
read_content closed src = (err (io_error unexpected_eof), [])
read_content (elapsed rest) src = (err timeout, rest)

-- `vec![0; length]` panics where the length is more than the largest allocation.
unfoldable pub read_length : Option ℕ → Run (List Arrival) (List ℕ)
unfolding read_content
read_length none src = (err invalid_content_length, src)
read_length (some n) src =
    if ltb (2 ^ 63 - 1) n then (panic, src) else read_content (read_exact n src) src

unfoldable pub read_body : Option Text → Text → Run (List Arrival) (List ℕ)
unfolding read_length
read_body none body_part = pure (as_bytes body_part)
read_body (some content_length) body_part = read_length (parse_usize content_length)

module _ (unicode : Text → Text) where
  insert_line : Option (Text × Text) → Headers → Headers
  insert_line none headers = headers
  insert_line (some (key, value)) headers = (to_lowercase unicode key, trim value) ∷ headers

  -- The loop over the lines behind the first.
  unfoldable pub parse_headers : List Text → Headers → Headers
  unfolding insert_line
  parse_headers [] headers = headers
  parse_headers (line ∷ rest) headers =
      parse_headers rest (insert_line (split_once line (codes ": ")) headers)

  -- The lines of the head, and what stands behind the blank line.
  unfoldable pub parse_parts : Text × Text → Run (List Arrival) HttpRequest
  parse_parts (header_part, body_part) = do
    request_line ← lift (ok_or (next (lines header_part)) invalid_http_request_line)
    let parts = split_whitespace request_line
    method ← lift (ok_or (next parts) missing_http_method)
    uri ← lift (ok_or (next (after_next parts)) missing_http_uri)
    version ← lift (ok_or (next (after_next (after_next parts))) missing_http_version)
    let headers = parse_headers (after_next (lines header_part)) []
    body ← read_body (get (codes "Content-Length") headers) body_part
    pure (record { method = method; uri = uri; version = version; headers = headers; body = body })

  -- With what the reading loop has left in the buffer.
  unfoldable pub parse_buffer : Text → Run (List Arrival) HttpRequest
  parse_buffer buffer = do
    parts ← lift (ok_or (split_once buffer http_request_delimiter) http_parse_error)
    parse_parts parts

  unfoldable pub parse_http_request : Run (List Arrival) HttpRequest
  parse_http_request = do buffer ← read_head 4 [] []; parse_buffer buffer
