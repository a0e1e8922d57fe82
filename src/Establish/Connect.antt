-- ===== src/Establish/Connect.antt =====
-- src/handshake.rs: `connect_async_with_config`, from the address to the connection. TCP, TLS with
-- its certificates, and files are crates or the standard library's view of the system: they are a
-- parameter.
use socket_flow.Prelude.{ℕ, Bool, true, false, Option, none, some, List, [], ◌∷◌}
use socket_flow.Error.{
  Outcome, ok, err, panic, ok_or, io_error, connection_failed, domain_error, ◌>>=◌,
}
use socket_flow.Config.{ClientConfig, client_config_or_default}
use socket_flow.Text.{Text}
use socket_flow.Utils.{Digest, generate_websocket_key}
use socket_flow.Request.Construct.{Url, Prepared, construct_http_request}
use socket_flow.Flate.{Inflate, Deflate}
use socket_flow.Handshake.{Socket}
use socket_flow.Connection.{Connection}
use socket_flow.Establish.{connect_on}

pub record Network : Type 1 where
  -- `TcpStream::connect`.
  pub tcp_connect : Text → Option Socket
  -- `RootCertStore`, the roots that are trusted everywhere, and the certificates of a file: the
  -- file may be missing, and each of its entries may be malformed.
  pub Store : Type 0
  pub Certificate : Type 0
  pub empty_store : Store
  pub trusted_roots : Store
  pub open_certificates : Text → Option (List (Option Certificate))
  pub add : Certificate → Store → Option Store
  -- `ServerName::try_from`, and `TlsConnector::connect`.
  pub ServerName : Type 0
  pub server_name : Text → Option ServerName
  pub tls_connect : Store → ServerName → Socket → Option Socket

module _ (net : Network) where
  -- `root_cert_store.add(cert?).unwrap()`.
  add_certificate : Option net.Certificate → net.Store → Outcome net.Store
  add_certificate none store = err (io_error connection_failed)
  add_certificate (some c) store = elim (net.add c store) [ none ↦ panic | some bigger ↦ ok bigger ]

  add_certificates : List (Option net.Certificate) → net.Store → Outcome net.Store
  unfolding add_certificate
  add_certificates [] store = ok store
  add_certificates (c ∷ cs) store = do bigger ← add_certificate c store; add_certificates cs bigger

  unfoldable pub root_store : Option Text → Outcome net.Store
  unfolding add_certificates
  root_store none = ok net.trusted_roots
  root_store (some file) = do
    certificates ← ok_or (net.open_certificates file) (io_error connection_failed)
    add_certificates certificates net.empty_store

  -- The stream that the connection runs on.
  unfoldable pub secured : Bool → Option Text → Text → Socket → Outcome Socket
  secured false ca_file host stream = ok stream
  secured true ca_file host stream = do
    store ← root_store ca_file
    domain ← ok_or (net.server_name host) domain_error
    ok_or (net.tls_connect store domain stream) (io_error connection_failed)

  module _ (fl : Inflate) (de : Deflate) (unicode : Text → Text) (digest : Digest)
      (parse_url : Text → Option Url) where
    -- On the TCP stream.
    unfoldable pub connect_through :
        ClientConfig → Text → Prepared → Socket → Outcome (Connection fl.State de.State)
    connect_through config key prepared stream = do
      socket ← secured prepared.use_tls config.ca_file prepared.host stream
      (connect_on fl de unicode digest config.web_socket_config key prepared.request socket).0

    -- With the request.
    unfoldable pub connect_prepared :
        ClientConfig → Text → Prepared → Outcome (Connection fl.State de.State)
    connect_prepared config key prepared = do
      stream ← ok_or (net.tcp_connect prepared.host_with_port) (io_error connection_failed)
      connect_through config key prepared stream

    unfoldable pub connect_async_with_config :
        List ℕ → Text → Option ClientConfig → Outcome (Connection fl.State de.State)
    connect_async_with_config random_bytes addr client_config = do
      let config = client_config_or_default client_config
      let key = generate_websocket_key digest random_bytes
      prepared ← construct_http_request parse_url addr key config.web_socket_config.extensions
      connect_prepared config key prepared

    abbrev pub connect_async : List ℕ → Text → Outcome (Connection fl.State de.State)
    connect_async random_bytes addr = connect_async_with_config random_bytes addr none
