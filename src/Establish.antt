-- ===== src/Establish.antt =====
-- src/handshake.rs: a server accepts a connection, a client connects, and each puts together the
-- two halves of its connection. How a client gets its stream stands in Connect.
pub mod Connect
pub mod Session
pub mod Greeting
pub mod Windows
use socket_flow.Prelude.{ℕ, Bool, true, false, Option, none, some, List, [], ◌∷◌, if◌then◌else◌}
use socket_flow.Error.{Error, Outcome, ok, err, panic, hang}
use socket_flow.Run.{Run, ◌>>=◌, ◌>>◌}
use socket_flow.Config.{
  Extensions, WebSocketConfig, ClientConfig, config_or_default, client_config_or_default,
  extensions_or_default, flag_or_default,
}
use socket_flow.Text.{Text}
use socket_flow.Text.Bytes.{as_bytes}
use socket_flow.Utils.{Digest, generate_websocket_key}
use socket_flow.Request.Construct.{Url, Prepared, construct_http_request}
use socket_flow.Writer.{WriterKind, write_all}
use socket_flow.Flate.{Inflate, Deflate}
use socket_flow.Decoder.{Decoder, new_decoder}
use socket_flow.Encoder.{Encoder, new_encoder}
use socket_flow.Handshake.{Socket, on_write_half, parse_handshake_server, parse_handshake_client}
use socket_flow.Connection.{Connection}
use socket_flow.Halves.{second_stage_handshake, end_of}

module _ (fl : Inflate) (de : Deflate) where
  -- Both ends, once the extensions are agreed on.
  unfoldable pub finish_handshake :
      WriterKind → WebSocketConfig → Option Extensions → Run Socket (Connection fl.State de.State)
  finish_handshake kind config agreed socket =
      (end_of fl de kind (record config { extensions = agreed }) socket, socket)

  module _ (unicode : Text → Text) (digest : Digest) where
    unfoldable pub accept_async_with_config :
        Option WebSocketConfig → Run Socket (Connection fl.State de.State)
    accept_async_with_config given = do
      let config = config_or_default given
      agreed ← parse_handshake_server unicode digest config.extensions
      finish_handshake WriterKind.server config agreed

    abbrev pub accept_async : Run Socket (Connection fl.State de.State)
    accept_async = accept_async_with_config none

    -- What `connect_async_with_config` does on the stream that it has got.
    unfoldable pub connect_on :
        WebSocketConfig → Text → Text → Run Socket (Connection fl.State de.State)
    connect_on config key request = do
      on_write_half (write_all (as_bytes request))
      agreed ← parse_handshake_client unicode digest key
      finish_handshake WriterKind.client config agreed
