-- ===== src/Request/Construct.antt =====
-- src/request.rs: the request for a connection is put together from a URL. URLs are parsed by the
-- crate url, which is a parameter.
use socket_flow.Prelude.{ℕ, ◌≡◌, Bool, true, false, Option, none, some, ◌++◌, if◌then◌else◌}
use socket_flow.Error.{
  Outcome, ok, err, ok_or, url_parse_error, invalid_scheme_url, url_no_host, ◌>>=◌,
}
use socket_flow.Run.Rules.{bind_ok}
use socket_flow.Config.{Extensions}
use socket_flow.Text.{Text, codes, same_text}
use socket_flow.Text.Pieces.{show_u16}
use socket_flow.Extensions.{add_extension_headers}

-- What the crate url makes of a text: a port is there only if it is not the usual one of the
-- scheme.
pub record Url : Type 0 where
  pub scheme : Text
  pub host_str : Option Text
  pub port : Option ℕ
  pub path : Text
  pub query : Option Text

-- What `construct_http_request` returns.
pub record Prepared : Type 0 where
  pub request : Text
  pub host_with_port : Text
  pub host : Text
  pub use_tls : Bool

-- The usual port of a scheme, and whether it asks for TLS.
unfoldable pub scheme_port : Text → Outcome (ℕ × Bool)
scheme_port scheme =
    if same_text scheme (codes "ws")
    then ok (80, false)
    else if same_text scheme (codes "wss")
    then ok (443, true)
    else err invalid_scheme_url

abbrev pub port_or : Option ℕ → ℕ → ℕ
port_or none usual = usual
port_or (some port) usual = port

abbrev pub request_host_field : Text → Option ℕ → Text
request_host_field host none = host
request_host_field host (some port) = host ++ (codes ":" ++ show_u16 port)

abbrev pub request_path : Text → Option Text → Text
request_path path none = path
request_path path (some query) = path ++ (codes "?" ++ query)

unfoldable pub request_text : Text → Text → Text → Text
request_text path host_field key =
    (codes "GET " ++ (path ++ codes " HTTP/1.1\r\n"))
    ++ ((codes "Host: " ++ (host_field ++ codes "\r\n"))
        ++ (codes "Connection: Upgrade\r\nUpgrade: websocket\r\n"
            ++ ((codes "Sec-WebSocket-Key: " ++ (key ++ codes "\r\n"))
                ++ codes "Sec-WebSocket-Version: 13\r\n")))

-- From a host, and the usual port of the scheme with whether it asks for TLS.
unfoldable pub prepare : Url → Text → Option Extensions → Text → ℕ × Bool → Prepared
prepare url key extensions host usual = record {
  request =
      add_extension_headers
        (request_text (request_path url.path url.query) (request_host_field host url.port) key)
        extensions;
  host_with_port = host ++ (codes ":" ++ show_u16 (port_or url.port usual.0));
  host = host;
  use_tls = usual.1;
}

-- With what the parser of URLs made of the address.
unfoldable pub construct_from : Option Url → Text → Option Extensions → Outcome Prepared
construct_from parsed key extensions = do
  url ← ok_or parsed url_parse_error
  usual ← scheme_port url.scheme
  host ← ok_or url.host_str url_no_host
  ok (prepare url key extensions host usual)

abbrev pub construct_http_request :
    (Text → Option Url) → Text → Text → Option Extensions → Outcome Prepared
construct_http_request parse_url ws_url = construct_from (parse_url ws_url)

ok_inj : {p q : Prepared} → ok p ≡ ok q → p ≡ q
ok_inj e = cc

-- What a request that was constructed was made from.
pub construct_from_ok :
    (url : Url) (key : Text) (extensions : Option Extensions) (host : Text) (p : Prepared)
    → url.host_str ≡ some host
    → construct_from (some url) key extensions ≡ ok p
    → (usual : ℕ × Bool) × (scheme_port url.scheme ≡ ok usual)
      × (prepare url key extensions host usual ≡ p)
unfolding construct_from prepare
construct_from_ok url key extensions host p h e =
    let (usual, port, made) =
      bind_ok (λ usual. ok (prepare url key extensions host usual)) (scheme_port url.scheme) p
        (rw h at e) in
    (usual, port, ok_inj made)
