-- ===== src/Examples/Requests.antt =====
-- The properties of requests, and of what either end makes of a head, at concrete inputs.
use mathlib.Core.List.{map}
use socket_flow.Prelude.{
  ◌≡◌, ◌≢◌, ◌↔◌, ◌⊎◌, refl, true, false, none, some, List, [], ◌∷◌, ◌++◌, arith,
}
use socket_flow.Error.{ok, err, panic, invalid_content_length}
use socket_flow.Source.{Arrival, byte, tick, bytes}
use socket_flow.Text.{Text, codes}
use socket_flow.Text.Bytes.{as_bytes}
use socket_flow.Text.Pieces.{to_ascii_lowercase, contains_text}
use socket_flow.Text.Cut.{all_visible, all_visible-IsVisible}
use socket_flow.Request.{HttpRequest, parse_http_request, read_head, get_header_value}
use socket_flow.Request.Construct.{Url, Prepared, prepare, request_path, request_host_field}
use socket_flow.Request.Built.{surplus}
use socket_flow.Request.Body.{map_ne, parse_http_request_reads}
use socket_flow.Request.RoundTrip.{
  Carries, IsWebUrl, offered_value, parse_http_request-construct_http_request,
}
use socket_flow.Utils.{Digest, generate_websocket_accept_value}
use socket_flow.Handshake.{
  text_or_default, sec_websocket_accept, parse_handshake_server, parse_handshake_client,
}
use socket_flow.Handshake.Refusals.{
  Refused, Answered, asked, after_head, parse_handshake_server_refuses, parse_handshake_client_iff,
}
use socket_flow.Writer.{WriterKind}
use socket_flow.Examples.{fresh_writer}
use socket_flow.Examples.Negotiation.{offered, configured}

-- A lower case that leaves all but ASCII as it is.
abbrev pub lower : Text → Text
lower s = map to_ascii_lowercase s

abbrev pub plain_digest : Digest
plain_digest = record { sha1 = λ bs. bs; base64 = λ bs. codes "c2FtcGxl" }

abbrev pub a_key : Text
a_key = codes "a2V5"

abbrev address : Url
address = record {
  scheme = codes "ws";
  host_str = some (codes "localhost");
  port = some 9000;
  path = codes "/chat";
  query = some (codes "room=1");
}

fit_address : IsWebUrl address
unfolding all_visible socket_flow.Text.Pieces.show_u16
fit_address = record {
  host = codes "localhost";
  has_host = refl;
  visible_host = all_visible-IsVisible (codes "localhost:9000") refl;
  path_word = record {
    visible = all_visible-IsVisible (codes "/chat?room=1") refl;
    some_text = λ e. cc;
  };
}

abbrev prepared : Prepared
unfolding prepare
prepared = prepare address a_key (some offered) (codes "localhost") (80, false)

parse_http_request-construct_http_request_example :
    (r : HttpRequest) × (parse_http_request lower (bytes (as_bytes prepared.request) ++ tick ∷ [])
      ≡ (ok r, bytes (surplus (some offered)) ++ tick ∷ []))
    × (r.method ≡ codes "GET")
    × (r.uri ≡ request_path address.path address.query)
    × Carries r
        (request_host_field fit_address.host address.port)
        a_key
        (offered_value (some offered))
unfolding prepare all_visible socket_flow.Request.Construct.construct_from
    socket_flow.Request.Construct.scheme_port socket_flow.Text.same_text
parse_http_request-construct_http_request_example =
    parse_http_request-construct_http_request lower (λ text. some address)
      (codes "ws://localhost:9000/chat?room=1") a_key (some offered) address refl fit_address
      (all_visible-IsVisible a_key refl) (omega arith, tt) prepared refl (tick ∷ [])

-- A request that says how long its body is, with the body behind it.
abbrev with_length : List Arrival
with_length = bytes (codes "GET / HTTP/1.1\r\nHost: a\r\nContent-Length: 2\r\n\r\nhi")

parse_http_request_reads_example :
    ((parse_http_request lower with_length).1 ≡ (read_head 4 [] [] with_length).1)
    × ((parse_http_request lower with_length).0 ≢ err invalid_content_length)
    × ((parse_http_request lower with_length).0 ≢ panic)
parse_http_request_reads_example = parse_http_request_reads lower map_ne with_length

abbrev silent : List Arrival
silent = byte 71 ∷ tick ∷ tick ∷ byte 69 ∷ tick ∷ []

-- What a server reads that is no request for a connection, and what a client may read from it.
abbrev posted : List Arrival
posted = bytes (codes "POST / HTTP/1.1\r\nHost: a\r\n\r\n")

abbrev post : HttpRequest
post = record {
  method = codes "POST";
  uri = codes "/";
  version = codes "HTTP/1.1";
  headers = (codes "host", codes "a") ∷ [];
  body = [];
}

post_read : parse_http_request lower posted ≡ (ok post, [])
unfolding parse_http_request socket_flow.Request.parse_buffer socket_flow.Request.parse_parts
    socket_flow.Request.parse_headers socket_flow.Request.read_body socket_flow.Request.get
    read_head socket_flow.Text.Bytes.text_of socket_flow.Utf8.is_utf8
    socket_flow.Text.Pieces.ends_with socket_flow.Text.starts_with
    socket_flow.Text.Pieces.split_once socket_flow.Text.Pieces.lines
    socket_flow.Text.Pieces.split_at_whitespace socket_flow.Text.Pieces.not_empty
    socket_flow.Text.is_whitespace socket_flow.Text.before socket_flow.Text.Pieces.to_lowercase
    socket_flow.Text.Pieces.all_ascii to_ascii_lowercase socket_flow.Text.trim
    socket_flow.Text.trim_start socket_flow.Text.trim_end socket_flow.Text.same_text as_bytes
post_read = refl

parse_handshake_server_refuses_example :
    Refused plain_digest
      (some configured)
      post
      (after_head lower plain_digest posted [] (fresh_writer WriterKind.server) post post_read)
      (parse_handshake_server lower plain_digest
        (some configured)
        (record { source = posted; write_half = fresh_writer WriterKind.server }))
    ⊎ Answered plain_digest
        (some configured)
        post
        (after_head lower plain_digest posted [] (fresh_writer WriterKind.server) post post_read)
        (parse_handshake_server lower plain_digest
          (some configured)
          (record { source = posted; write_half = fresh_writer WriterKind.server }))
parse_handshake_server_refuses_example =
    parse_handshake_server_refuses lower plain_digest posted [] (fresh_writer WriterKind.server)
      post post_read (some configured)

abbrev replied : List Arrival
replied = bytes (codes "HTTP/1.1 200 OK\r\nSec-WebSocket-Accept: x c2FtcGxl\r\n\r\n")

abbrev reply : HttpRequest
reply = record {
  method = codes "HTTP/1.1";
  uri = codes "200";
  version = codes "OK";
  headers = (codes "sec-websocket-accept", codes "x c2FtcGxl") ∷ [];
  body = [];
}

reply_read : parse_http_request lower replied ≡ (ok reply, [])
unfolding parse_http_request socket_flow.Request.parse_buffer socket_flow.Request.parse_parts
    socket_flow.Request.parse_headers socket_flow.Request.read_body socket_flow.Request.get
    read_head socket_flow.Text.Bytes.text_of socket_flow.Utf8.is_utf8
    socket_flow.Text.Pieces.ends_with socket_flow.Text.starts_with
    socket_flow.Text.Pieces.split_once socket_flow.Text.Pieces.lines
    socket_flow.Text.Pieces.split_at_whitespace socket_flow.Text.Pieces.not_empty
    socket_flow.Text.is_whitespace socket_flow.Text.before socket_flow.Text.Pieces.to_lowercase
    socket_flow.Text.Pieces.all_ascii to_ascii_lowercase socket_flow.Text.trim
    socket_flow.Text.trim_start socket_flow.Text.trim_end socket_flow.Text.same_text as_bytes
reply_read = refl

parse_handshake_client_iff_example :
    (parse_handshake_client lower plain_digest a_key
        (record { source = replied; write_half = fresh_writer WriterKind.client })
      ≡ (
        ok none,
        after_head lower plain_digest replied [] (fresh_writer WriterKind.client) reply reply_read,
      ))
    ↔ ((contains_text
            (text_or_default (get_header_value sec_websocket_accept reply))
            (generate_websocket_accept_value plain_digest a_key)
          ≡ true)
        × (asked reply ≡ none))
parse_handshake_client_iff_example =
    parse_handshake_client_iff lower plain_digest replied [] (fresh_writer WriterKind.client) reply
      reply_read a_key none
