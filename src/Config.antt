-- ===== src/Config.antt =====
-- src/config.rs, and the `Extensions` of src/extensions.rs that it stores: the limits and the
-- negotiated extensions of a connection, and what a client and a server are configured with.
use socket_flow.Prelude.{ℕ, ◌*◌, ◌^◌, Bool, false, Option, none, some, List}

pub record Extensions : Type 0 where
  pub permessage_deflate : Bool
  pub client_no_context_takeover : Option Bool
  pub server_no_context_takeover : Option Bool
  pub client_max_window_bits : Option ℕ
  pub server_max_window_bits : Option ℕ

-- The derived `Extensions::default()`.
abbrev pub default_extensions : Extensions
default_extensions = record {
  permessage_deflate = false;
  client_no_context_takeover = none;
  server_no_context_takeover = none;
  client_max_window_bits = none;
  server_max_window_bits = none;
}

pub record WebSocketConfig : Type 0 where
  pub max_frame_size : Option ℕ
  pub max_message_size : Option ℕ
  pub extensions : Option Extensions

-- `WebSocketConfig::default()`: 16 MiB a frame, 64 MiB a message.
abbrev pub default_config : WebSocketConfig
default_config = record {
  max_frame_size = some (16 * 2 ^ 20);
  max_message_size = some (64 * 2 ^ 20);
  extensions = none;
}

-- `unwrap_or_default()` on an optional size, flag and set of extensions.
abbrev pub size_or_default : Option ℕ → ℕ
size_or_default none = 0
size_or_default (some n) = n

abbrev pub flag_or_default : Option Bool → Bool
flag_or_default none = false
flag_or_default (some b) = b

abbrev pub extensions_or_default : Option Extensions → Extensions
extensions_or_default none = default_extensions
extensions_or_default (some e) = e

-- Whether this end of the connection may use compression.
abbrev pub deflate_enabled : WebSocketConfig → Bool
deflate_enabled config = (extensions_or_default config.extensions).permessage_deflate

-- The configuration of a client, and of a server with the TLS settings of rustls, which are opaque.
pub record ClientConfig : Type 0 where
  pub web_socket_config : WebSocketConfig
  pub ca_file : Option (List ℕ)

pub record ServerConfig (T : Type 0) : Type 0 where
  pub web_socket_config : Option WebSocketConfig
  pub tls_config : Option T

-- The derived defaults.
abbrev pub default_client_config : ClientConfig
default_client_config = record { web_socket_config = default_config; ca_file = none }

abbrev pub default_server_config : {T : Type 0} → ServerConfig T
default_server_config = record { web_socket_config = none; tls_config = none }

-- `unwrap_or_default()` on an optional configuration.
abbrev pub config_or_default : Option WebSocketConfig → WebSocketConfig
config_or_default none = default_config
config_or_default (some config) = config

abbrev pub client_config_or_default : Option ClientConfig → ClientConfig
client_config_or_default none = default_client_config
client_config_or_default (some config) = config

abbrev pub server_config_or_default : {T : Type 0} → Option (ServerConfig T) → ServerConfig T
server_config_or_default none = default_server_config
server_config_or_default (some config) = config
