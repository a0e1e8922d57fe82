-- ===== src/Examples/Windows.antt =====
-- A client that offers a window of eight bits, at concrete inputs.
use socket_flow.Prelude.{ℕ, ◌≡◌, refl, some, List, [], ◌∷◌, ◌++◌, length, ◌≤◌, arith}
use socket_flow.Error.{panic}
use socket_flow.Source.{byte, tick, bytes}
use socket_flow.Config.{Extensions, WebSocketConfig}
use socket_flow.Text.{codes, show_u8}
use socket_flow.Text.Bytes.{as_bytes}
use socket_flow.Text.Pieces.{replace_braces}
use socket_flow.Extensions.{
  merge_extensions, merge_bits, add_extension_headers, push_flag, push_bits,
}
use socket_flow.Extensions.Parsed.{announced}
use socket_flow.Flate.Stored.{stored}
use socket_flow.Flate.Copying.{copying}
use socket_flow.Utils.{generate_websocket_accept_value}
use socket_flow.Request.Construct.{request_text}
use socket_flow.Handshake.{accept_response}
use socket_flow.Handshake.Replies.{heard}
use socket_flow.Handshake.Settled.{sent_request, sent_response}
use socket_flow.Establish.{accept_async_with_config, connect_on}
use socket_flow.Establish.Windows.{few_bits_panic}
use socket_flow.Examples.{small_limits}
use socket_flow.Examples.Negotiation.{offered, configured}
use socket_flow.Examples.Requests.{lower, plain_digest, a_key}
use socket_flow.Examples.Handshakes.{printable, root_path, roomy, host, host_visible, key_visible}

abbrev eight_bits : Extensions
eight_bits = record offered { client_max_window_bits = some 8 }

abbrev at_server : WebSocketConfig
at_server = record small_limits { extensions = some configured }

abbrev at_client : WebSocketConfig
at_client = record small_limits { extensions = some eight_bits }

abbrev request : List ℕ
request = sent_request (codes "/") host a_key (some eight_bits)

abbrev response : List ℕ
response = sent_response plain_digest a_key (some configured) (some eight_bits)

request_fits : length request ≤ 1000
unfolding request_text add_extension_headers push_flag push_bits show_u8 as_bytes
request_fits = omega arith

response_fits : length response ≤ 1000
unfolding accept_response generate_websocket_accept_value replace_braces merge_extensions merge_bits
    heard announced add_extension_headers push_flag push_bits show_u8 as_bytes
response_fits = omega arith

few_bits_panic_example :
    ((accept_async_with_config stored copying lower plain_digest
        (some at_server)
        (record { source = bytes request ++ tick ∷ []; write_half = roomy })).0
      ≡ panic)
    × ((connect_on stored copying lower plain_digest at_client a_key
          (add_extension_headers (request_text (codes "/") host a_key) (some eight_bits))
          (record { source = bytes response ++ byte 137 ∷ []; write_half = roomy })).0
        ≡ panic)
few_bits_panic_example =
    few_bits_panic stored copying lower plain_digest printable (codes "/") host a_key at_server
      at_client root_path host_visible key_visible (omega arith, tt) (omega arith, tt) configured
      eight_bits 8 refl refl refl refl (omega arith) (byte 137 ∷ []) (tick ∷ []) roomy roomy
      request_fits response_fits
