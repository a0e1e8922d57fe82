-- ===== src/Examples/Greeting.antt =====
-- A server that greets its client, without extensions on either side.
use socket_flow.Prelude.{refl, [], ◌∷◌, arith}
use socket_flow.Source.{byte, tick}
use socket_flow.Text.{codes}
use socket_flow.Message.{as_binary}
use socket_flow.Utf8.{is_utf8}
use socket_flow.Flate.Stored.{stored}
use socket_flow.Flate.Copying.{copying}
use socket_flow.Extensions.{merge_extensions}
use socket_flow.Request.Built.{surplus}
use socket_flow.Handshake.Replies.{heard}
use socket_flow.Establish.Greeting.{Greeted, first_answer_arrives}
use socket_flow.Examples.{small_limits}
use socket_flow.Examples.Requests.{lower, plain_digest, a_key}
use socket_flow.Examples.Handshakes.{
  printable, root_path, roomy, host, host_visible, key_visible, greeting, plain_response_fits,
  plain_request_fits,
}

first_answer_arrives_example :
    Greeted stored copying lower plain_digest printable
      (codes "/")
      host
      a_key
      small_limits
      small_limits
      root_path
      host_visible
      key_visible
      tt
      tt
      0
      (byte 137 ∷ [])
      (tick ∷ [])
      roomy
      roomy
      greeting
unfolding merge_extensions heard surplus as_binary is_utf8
first_answer_arrives_example =
    first_answer_arrives stored copying lower plain_digest printable (codes "/") host a_key
      small_limits small_limits root_path host_visible key_visible tt tt 0 (refl, refl) refl refl
      (omega arith) (omega arith) (omega arith) (omega arith) (byte 137 ∷ []) (tick ∷ []) roomy
      roomy greeting refl refl (omega (arith, plain_request_fits))
      (omega (arith, plain_response_fits)) (omega (arith, plain_response_fits)) refl
      (omega arith, (omega arith, tt)) (omega arith)
