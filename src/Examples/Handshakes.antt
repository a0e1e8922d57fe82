-- ===== src/Examples/Handshakes.antt =====
-- The properties of the handshake, and of the connections that it leads to, at concrete inputs.
use socket_flow.Prelude.{
  ℕ, ◌≡◌, refl, Option, none, some, List, [], ◌∷◌, ◌++◌, All, length, ◌≤◌, arith,
}
use socket_flow.Error.{ok}
use socket_flow.Source.{byte, tick, bytes}
use socket_flow.Config.{Extensions}
use socket_flow.Text.{Text, codes}
use socket_flow.Text.{show_u8}
use socket_flow.Text.Bytes.{as_bytes}
use socket_flow.Text.Pieces.{replace_braces}
use socket_flow.Text.Cut.{IsVisible, all_visible, all_visible-IsVisible, IsWord}
use socket_flow.Message.{Message, as_binary}
use socket_flow.Utf8.{is_utf8}
use socket_flow.Extensions.{
  merge_extensions, merge_bits, add_extension_headers, push_flag, push_bits,
}
use socket_flow.Extensions.Parsed.{announced}
use socket_flow.Flate.Stored.{stored}
use socket_flow.Flate.Copying.{copying}
use socket_flow.Writer.{Writer, WriterKind}
use socket_flow.Writer.Fits.{wrote}
use socket_flow.Request.Built.{surplus}
use socket_flow.Utils.{IsPrintable, generate_websocket_accept_value}
use socket_flow.Request.Construct.{request_text}
use socket_flow.Handshake.{accept_response, parse_handshake_server, parse_handshake_client}
use socket_flow.Handshake.Replies.{heard}
use socket_flow.Handshake.Settled.{agreed_extensions, sent_request, sent_response, enabled}
use socket_flow.Handshake.Agreement.{handshake_agrees}
use socket_flow.Establish.Session.{Met, first_message_arrives}
use socket_flow.Examples.{fresh_writer, small_limits}
use socket_flow.Examples.Negotiation.{offered, configured}
use socket_flow.Examples.Requests.{lower, plain_digest, a_key}

pub printable : IsPrintable plain_digest
unfolding all_visible
printable bytes = all_visible-IsVisible (codes "c2FtcGxl") refl

pub root_path : IsWord (codes "/")
unfolding all_visible
root_path = record { visible = all_visible-IsVisible (codes "/") refl; some_text = λ e. cc }

abbrev pub roomy : Writer
roomy = record (fresh_writer WriterKind.server) { room = 1000 }

abbrev pub host : Text
host = codes "localhost"

abbrev agreed : Option Extensions
agreed = agreed_extensions (some configured) (some offered)

abbrev request : List ℕ
request = sent_request (codes "/") host a_key (some offered)

abbrev response : List ℕ
response = sent_response plain_digest a_key (some configured) (some offered)

pub host_visible : All IsVisible host
unfolding all_visible
host_visible = all_visible-IsVisible host refl

pub key_visible : All IsVisible a_key
unfolding all_visible
key_visible = all_visible-IsVisible a_key refl

response_fits : length response ≤ 1000
unfolding accept_response generate_websocket_accept_value replace_braces merge_extensions merge_bits
    heard announced add_extension_headers push_flag push_bits show_u8 as_bytes
response_fits = omega arith

handshake_agrees_example :
    (parse_handshake_server lower plain_digest
        (some configured)
        (record { source = bytes request ++ tick ∷ []; write_half = roomy })
      ≡ (
        ok agreed,
        record {
          source = bytes (surplus (some offered)) ++ tick ∷ [];
          write_half = wrote response roomy;
        },
      ))
    × (parse_handshake_client lower plain_digest a_key
          (record { source = bytes response ++ byte 129 ∷ []; write_half = roomy })
        ≡ (
          ok (heard agreed),
          record { source = bytes (surplus agreed) ++ byte 129 ∷ []; write_half = roomy },
        ))
    × (enabled (heard agreed) ≡ enabled agreed)
handshake_agrees_example =
    handshake_agrees lower plain_digest printable (codes "/") host a_key (some configured)
      (some offered) root_path host_visible key_visible (omega arith, tt) (omega arith, tt)
      (tick ∷ []) (byte 129 ∷ []) roomy roomy response_fits

abbrev pub greeting : Message
greeting = Message.text (104 ∷ 105 ∷ [])

-- Without extensions on either side.
abbrev pub plain_response : List ℕ
plain_response = sent_response plain_digest a_key none none

abbrev pub plain_request : List ℕ
plain_request = sent_request (codes "/") host a_key none

pub plain_response_fits : length plain_response ≤ 900
unfolding accept_response generate_websocket_accept_value replace_braces merge_extensions heard
    add_extension_headers as_bytes
plain_response_fits = omega arith

pub plain_request_fits : length plain_request ≤ 900
unfolding request_text add_extension_headers as_bytes
plain_request_fits = omega arith

first_message_arrives_example :
    Met stored copying lower plain_digest printable
      (codes "/")
      host
      a_key
      small_limits
      small_limits
      root_path
      host_visible
      key_visible
      tt
      tt
      0
      (tick ∷ [])
      (byte 137 ∷ [])
      roomy
      roomy
      greeting
unfolding merge_extensions heard surplus as_binary is_utf8
first_message_arrives_example =
    first_message_arrives stored copying lower plain_digest printable (codes "/") host a_key
      small_limits small_limits root_path host_visible key_visible tt tt 0 (refl, refl) refl refl
      (omega arith) (omega arith) (omega arith) (omega arith) (tick ∷ []) (byte 137 ∷ []) roomy
      roomy greeting refl refl (omega (arith, plain_response_fits))
      (omega (arith, plain_request_fits)) (omega (arith, plain_request_fits)) refl
      (omega arith, (omega arith, tt)) (omega arith)
