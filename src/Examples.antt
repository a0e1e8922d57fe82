-- ===== src/Examples.antt =====
-- Two ends of a connection with small limits, and the properties at concrete inputs.
pub mod Sending
pub mod Receiving
pub mod Negotiation
pub mod Compression
pub mod Requests
pub mod Handshakes
pub mod Serving
pub mod Interleaving
pub mod Greeting
pub mod Windows
use socket_flow.Prelude.{ℕ, ◌+◌, Bool, true, false, Option, none, some, List, [], ◌∷◌, length}
use socket_flow.Config.{WebSocketConfig, Extensions, default_extensions}
use socket_flow.Flate.{Status, done, Deflate}
use socket_flow.Flate.Stored.{stored}
use socket_flow.Writer.{Writer, WriterKind, client, server}
use socket_flow.WsWriter.{WsWriter}
use socket_flow.Reader.{ReadStream, FragmentedMessage}

-- Frames of two bytes, messages of ten.
abbrev pub small_limits : WebSocketConfig
small_limits = record { max_frame_size = some 2; max_message_size = some 10; extensions = none }

abbrev pub small_deflate : WebSocketConfig
small_deflate = record small_limits {
  extensions = some (record default_extensions { permessage_deflate = true });
}

abbrev pub no_limits : WebSocketConfig
no_limits = record { max_frame_size = none; max_message_size = some 10; extensions = none }

abbrev pub fresh_writer : WriterKind → Writer
fresh_writer kind = record { kind = kind; written = []; room = 200; rng = λ n. n + 7; drawn = 0 }

abbrev pub ws_writer : WriterKind → WebSocketConfig → WsWriter (ℕ × List ℕ)
ws_writer kind config = record {
  writer = fresh_writer kind;
  web_socket_config = config;
  encoder = record { compressor = (0, []); reset_context = false };
}

abbrev pub read_stream : WebSocketConfig → ReadStream ℕ
read_stream config = record {
  source = [];
  fragmented_message = none;
  read_tx = record { sent = []; taken = 0; is_closed = false };
  writer = fresh_writer WriterKind.server;
  config = config;
  decoder = record { decompressor = 0; reset_context = true };
}
