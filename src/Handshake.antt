-- ===== src/Handshake.antt =====
-- src/handshake.rs: what a server makes of a request, and a client of a response. What each end
-- does around it stands in Establish.
pub mod Replies
pub mod Settled
pub mod Agreement
pub mod Refusals
use socket_flow.Prelude.{
  ℕ, Bool, true, false, not, Option, none, some, List, [], ◌∷◌, if◌then◌else◌,
}
use socket_flow.Error.{
  Error, Outcome, ok, err, ok_or, invalid_http_handshake, no_host_header_present,
  no_sec_websocket_key, invalid_accept_key,
}
use socket_flow.Run.{Run, pure, lift, fail_if, on_part, ◌>>=◌, ◌>>◌}
use socket_flow.Config.{
  Extensions, WebSocketConfig, config_or_default, extensions_or_default, flag_or_default,
}
use socket_flow.Source.{Arrival}
use socket_flow.Text.{Text, codes, same_text}
use socket_flow.Text.Bytes.{as_bytes}
use socket_flow.Text.Pieces.{contains_text, replace_braces}
use socket_flow.Utils.{Digest, generate_websocket_accept_value}
use socket_flow.Extensions.{parse_extensions, merge_extensions, add_extension_headers}
use socket_flow.Request.{HttpRequest, get_header_value, parse_http_request}
use socket_flow.Writer.{Writer, WriterKind, write_all}
use socket_flow.Flate.{Inflate, Deflate}
use socket_flow.Decoder.{Decoder, new_decoder}
use socket_flow.Encoder.{Encoder, new_encoder}
use socket_flow.Reader.{ReadStream}
use socket_flow.WsWriter.{WsWriter}

abbrev pub http_accept_response : Text
http_accept_response =
    codes
      "HTTP/1.1 101 Switching Protocols\r\nConnection: Upgrade\r\nUpgrade: websocket\r\nSec-WebSocket-Accept: {}\r\n"

abbrev pub http_method : Text
http_method = codes "GET"

abbrev pub sec_websocket_key : Text
sec_websocket_key = codes "sec-websocket-key"

abbrev pub sec_websocket_extensions : Text
sec_websocket_extensions = codes "sec-websocket-extensions"

abbrev pub sec_websocket_accept : Text
sec_websocket_accept = codes "sec-websocket-accept"

abbrev pub host_header : Text
host_header = codes "host"

-- The two halves of a stream, split: what the peer sends, and the half that a `Writer` is made of
-- later, which then gets its kind.
pub record Socket : Type 0 where
  pub source : List Arrival
  pub write_half : Writer

abbrev pub on_source : {A : Type 0} → Run (List Arrival) A → Run Socket A
on_source = on_part (λ s. s.source) (λ s src. record s { source = src })

abbrev pub on_write_half : {A : Type 0} → Run Writer A → Run Socket A
on_write_half = on_part (λ s. s.write_half) (λ s w. record s { write_half = w })

-- `unwrap_or_default()` on a header.
abbrev pub text_or_default : Option Text → Text
text_or_default none = []
text_or_default (some s) = s

abbrev is_none : Option Text → Bool
is_none none = true
is_none (some s) = false

module _ (digest : Digest) where
  -- The response to a key, with the extensions that were agreed on.
  unfoldable pub accept_response : Text → Option Extensions → Text
  accept_response key agreed =
      add_extension_headers
        (replace_braces http_accept_response (generate_websocket_accept_value digest key)) agreed

  unfoldable pub answer_key : Text → Option Extensions → Run Socket (Option Extensions)
  answer_key key agreed = do
    on_write_half (write_all (as_bytes (accept_response key agreed)))
    pure agreed

  -- With the request that was read.
  unfoldable pub answer_request : Option Extensions → HttpRequest → Run Socket (Option Extensions)
  answer_request server_extensions req = do
    fail_if (not (same_text req.method http_method)) invalid_http_handshake
    fail_if (is_none (get_header_value host_header req)) no_host_header_present
    key ← lift (ok_or (get_header_value sec_websocket_key req) no_sec_websocket_key)
    let client_extensions =
        parse_extensions (text_or_default (get_header_value sec_websocket_extensions req))
    answer_key key (merge_extensions server_extensions client_extensions)

  -- With the response that was read.
  unfoldable pub check_response : Text → HttpRequest → Run Socket (Option Extensions)
  check_response client_websocket_key req = do
    let accept = text_or_default (get_header_value sec_websocket_accept req)
    let expected = generate_websocket_accept_value digest client_websocket_key
    fail_if (not (contains_text accept expected)) invalid_accept_key
    pure (parse_extensions (text_or_default (get_header_value sec_websocket_extensions req)))

module _ (unicode : Text → Text) (digest : Digest) where
  unfoldable pub parse_handshake_server : Option Extensions → Run Socket (Option Extensions)
  parse_handshake_server server_extensions = do
    req ← on_source (parse_http_request unicode)
    answer_request digest server_extensions req

  unfoldable pub parse_handshake_client : Text → Run Socket (Option Extensions)
  parse_handshake_client client_websocket_key = do
    req ← on_source (parse_http_request unicode)
    check_response digest client_websocket_key req
