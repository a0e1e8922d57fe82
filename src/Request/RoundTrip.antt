-- ===== src/Request/RoundTrip.antt =====
-- A request that src/request.rs constructs against the parser of the same file.
use socket_flow.Prelude.{
  ℕ, ◌≡◌, refl, sym, ap, ◌∙◌, true, false, Option, none, some, List, [], ◌∷◌, ◌++◌, All, All-append,
  Bool-cases, inl, inr, arith,
}
use socket_flow.Error.{ok}
use socket_flow.Config.{Extensions}
use socket_flow.Source.{Arrival, bytes}
use socket_flow.Text.{Text, codes, same_text, is_whitespace, before}
use socket_flow.Text.Bytes.{as_bytes}
use socket_flow.Text.Pieces.{split_at_whitespace, not_empty, to_lowercase}
use socket_flow.Text.Plain.{IsPlain}
use socket_flow.Text.Cut.{IsVisible, IsWord, all_visible, all_visible-IsVisible, All-IsPlain}
use socket_flow.Extensions.{add_extension_headers}
use socket_flow.Extensions.Printed.{header_value}
use socket_flow.Request.{HttpRequest, Headers, get, get_header_value, parse_http_request}
use socket_flow.Request.Construct.{
  request_text, Url, Prepared, request_host_field, request_path, construct_http_request,
  construct_from_ok, prepare,
}
use socket_flow.Request.Parsed.{start_line, head_of}
use socket_flow.Request.Built.{
  extension_fields, surplus, IsSmall, open_head, request_fields, response_fields,
  request_text-open_head, request_fields-IsField, response_fields-IsField,
}
use socket_flow.Request.Sent.{read_sent}

-- What the value of the extensions' header says, where there is one.
unfoldable pub offered_value : Option Extensions → Option Text
offered_value none = none
offered_value (some e) = elim e.permessage_deflate [ true ↦ some (header_value e) | false ↦ none ]

extension_cases :
    (P : Headers → Option Text → Type 0)
    → P [] none
    → ((value : Text) → P ((codes "Sec-WebSocket-Extensions", value) ∷ []) (some value))
    → (extensions : Option Extensions) → P (extension_fields extensions) (offered_value extensions)
extension_cases P n s none = unfold extension_fields offered_value in n
extension_cases P n s (some e) = elim (Bool-cases e.permessage_deflate) [
  | inl on ↦ unfold extension_fields offered_value header_value in rw on (s (header_value e))
  | inr off ↦ unfold extension_fields offered_value in rw off n
]

abbrev pub response_line : Text
response_line = start_line (codes "HTTP/1.1") (codes "101") (codes "Switching Protocols")

-- The headers of a request that the server looks at.
pub record Carries (r : HttpRequest) (host key : Text) (extensions : Option Text) : Type 0 where
  pub host_header : get_header_value (codes "host") r ≡ some host
  pub key_header : get_header_value (codes "sec-websocket-key") r ≡ some key
  pub extensions_header : get_header_value (codes "sec-websocket-extensions") r ≡ extensions
  pub no_length : get_header_value (codes "Content-Length") r ≡ none

-- The headers of a response that the client looks at.
pub record Answers (r : HttpRequest) (accept_key : Text) (extensions : Option Text) : Type 0 where
  pub accept_header : get_header_value (codes "sec-websocket-accept") r ≡ some accept_key
  pub extensions_header : get_header_value (codes "sec-websocket-extensions") r ≡ extensions
  pub no_length : get_header_value (codes "Content-Length") r ≡ none

-- A host, as the request names it, and a path that are fit for a request: text that is visible.
pub record IsWebUrl (url : Url) : Type 0 where
  pub host : Text
  pub has_host : url.host_str ≡ some host
  pub visible_host : All IsVisible (request_host_field host url.port)
  pub path_word : IsWord (request_path url.path url.query)

module _ (unicode : Text → Text) where
  abbrev pub request_head : Text → Text → Text → Option Extensions → HttpRequest
  request_head path host key extensions =
      head_of unicode (codes "GET") path (codes "HTTP/1.1")
        (request_fields host key ++ extension_fields extensions)

  abbrev pub response_head : Text → Option Extensions → HttpRequest
  response_head accept_key extensions =
      head_of unicode (codes "HTTP/1.1") (codes "101") (codes "Switching")
        (response_fields accept_key ++ extension_fields extensions)

  pub request_head-Carries :
      (path host key : Text) (extensions : Option Extensions)
      → Carries (request_head path host key extensions) host key (offered_value extensions)
  unfolding get same_text to_lowercase
  request_head-Carries path host key =
      extension_cases
        (λ fields value.
          Carries
            (head_of unicode (codes "GET") path (codes "HTTP/1.1")
              (request_fields host key ++ fields))
            host key value)
        (record {
          host_header = refl;
          key_header = refl;
          extensions_header = refl;
          no_length = refl;
        })
        λ value. record {
          host_header = refl;
          key_header = refl;
          extensions_header = refl;
          no_length = refl;
        }

  pub response_head-Answers :
      (accept_key : Text) (extensions : Option Extensions)
      → Answers (response_head accept_key extensions) accept_key (offered_value extensions)
  unfolding get same_text to_lowercase
  response_head-Answers accept_key =
      extension_cases
        (λ fields value.
          Answers
            (head_of unicode (codes "HTTP/1.1") (codes "101") (codes "Switching")
              (response_fields accept_key ++ fields))
            accept_key value)
        (record { accept_header = refl; extensions_header = refl; no_length = refl })
        λ value. record { accept_header = refl; extensions_header = refl; no_length = refl }

  given_word : (c : ℕ) (s : Text) → all_visible (c ∷ s) ≡ true → IsWord (c ∷ s)
  given_word c s h = record { visible = all_visible-IsVisible (c ∷ s) h; some_text = λ e. cc }

  given-IsPlain : (s : Text) → all_visible s ≡ true → All IsPlain s
  given-IsPlain s h = All-IsPlain s (all_visible-IsVisible s h)

  module _ (extensions : Option Extensions) (small : IsSmall extensions) (src : List Arrival) where
    pub read_request :
        (path host key : Text)
        → IsWord path
        → All IsVisible host
        → All IsVisible key
        → parse_http_request unicode (
            bytes (as_bytes (add_extension_headers (request_text path host key) extensions)) ++ src)
          ≡ (ok (request_head path host key extensions), bytes (surplus extensions) ++ src)
    unfolding all_visible split_at_whitespace is_whitespace before not_empty
    read_request path host key p h k =
        read_sent unicode (codes "GET") path (codes "HTTP/1.1") (codes "HTTP/1.1") []
          (request_fields host key) extensions small (given_word 71 (codes "ET") refl) p
          (given-IsPlain (codes "HTTP/1.1") refl) refl (request_fields-IsField host key h k)
          (request_head-Carries path host key extensions).no_length (request_text path host key) src
          (request_text-open_head path host key)

    pub read_response :
        (accept_key text : Text)
        → All IsVisible accept_key
        → text ≡ open_head response_line (response_fields accept_key)
        → parse_http_request unicode
            (bytes (as_bytes (add_extension_headers text extensions)) ++ src)
          ≡ (ok (response_head accept_key extensions), bytes (surplus extensions) ++ src)
    unfolding all_visible split_at_whitespace is_whitespace before not_empty
    read_response accept_key text k e =
        read_sent unicode (codes "HTTP/1.1") (codes "101") (codes "Switching Protocols")
          (codes "Switching") (codes "Protocols" ∷ []) (response_fields accept_key) extensions small
          (given_word 72 (codes "TTP/1.1") refl) (given_word 49 (codes "01") refl)
          (All-append IsPlain (codes "Switching") (codes " Protocols")
            (given-IsPlain (codes "Switching") refl)
            (
              record { ascii = omega arith; no_feed = refl; no_return = refl },
              given-IsPlain (codes "Protocols") refl,
            ))
          refl (response_fields-IsField accept_key k)
          (response_head-Answers accept_key extensions).no_length text src e

  -- A request that is constructed from a fit URL, in the bytes that go out, is parsed by the other
  -- end as a GET of the path with the query, and with the host, the key and the extensions among
  -- its headers. Nothing behind the request is read, but for extensions that are set and off.
  pub parse_http_request-construct_http_request :
      (parse_url : Text → Option Url) (ws_url key : Text) (extensions : Option Extensions)
      (url : Url)
      → parse_url ws_url ≡ some url
      → (fit : IsWebUrl url) → All IsVisible key
      → IsSmall extensions
      → (prepared : Prepared) → construct_http_request parse_url ws_url key extensions ≡ ok prepared
      → (src : List Arrival)
      → (r : HttpRequest) × (parse_http_request unicode (bytes (as_bytes prepared.request) ++ src)
          ≡ (ok r, bytes (surplus extensions) ++ src))
        × (r.method ≡ codes "GET")
        × (r.uri ≡ request_path url.path url.query)
        × Carries r (request_host_field fit.host url.port) key (offered_value extensions)
  parse_http_request-construct_http_request parse_url ws_url key extensions url found fit k small
        prepared e src =
      let host_field = request_host_field fit.host url.port in
      let path = request_path url.path url.query in
      let (usual, port, made) =
        construct_from_ok url key extensions fit.host prepared fit.has_host (rw found at e) in
      (
        request_head path host_field key extensions,
        ap (λ p. parse_http_request unicode (bytes (as_bytes p.request) ++ src)) (sym made)
            ∙ unfold prepare in
              read_request extensions small src path host_field key fit.path_word fit.visible_host
                k,
        refl,
        refl,
        request_head-Carries path host_field key extensions,
      )
