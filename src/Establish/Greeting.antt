-- ===== src/Establish/Greeting.antt =====
-- The first message that goes from a server of src/handshake.rs to its client.
use socket_flow.Prelude.{
  arith, ℕ, ◌+◌, ◌-◌, ◌*◌, ◌^◌, ◌≤◌, ◌<◌, ◌≡◌, refl, ap, ◌∙◌, false, Option, some, List, [], ◌++◌,
  All, length, IsBytes,
}
use socket_flow.Error.{ok}
use socket_flow.Config.{Extensions, WebSocketConfig, size_or_default}
use socket_flow.Source.{Arrival, bytes}
use socket_flow.Text.{Text}
use socket_flow.Text.Cut.{IsVisible, IsWord}
use socket_flow.Message.{Message, as_binary}
use socket_flow.Message.Conversion.{IsProper}
use socket_flow.Extensions.{add_extension_headers}
use socket_flow.Flate.{Inflate, Deflate}
use socket_flow.Writer.{Writer}
use socket_flow.WsWriter.{write_message}
use socket_flow.Reader.Poll.{poll_messages}
use socket_flow.Reader.Steps.{rounds_after}
use socket_flow.Reader.Parts.{idle, delivered}
use socket_flow.Delivery.EndToEnd.{message_Arrives}
use socket_flow.Request.Construct.{request_text}
use socket_flow.Request.Built.{IsSmall, surplus}
use socket_flow.Utils.{Digest, IsPrintable}
use socket_flow.Handshake.Settled.{agreed_extensions, sent_request, sent_response, enabled}
use socket_flow.Connection.{Connection}
use socket_flow.Halves.{HasWindows, second_stage_handshake}
use socket_flow.Establish.{accept_async_with_config, connect_on}
use socket_flow.Establish.Session.{behind_head, server_end, client_end, accepts, connects}

module _ (fl : Inflate) (de : Deflate) (unicode : Text → Text) (digest : Digest)
    (printable : IsPrintable digest) (path host key : Text) (server client : WebSocketConfig)
    (path_word : IsWord path) (host_visible : All IsVisible host) (key_visible : All IsVisible key)
    (server_small : IsSmall server.extensions) (client_small : IsSmall client.extensions) where
  abbrev settled : Option Extensions
  settled = agreed_extensions server.extensions client.extensions

  abbrev request : List ℕ
  request = sent_request path host key client.extensions

  abbrev response : List ℕ
  response = sent_response digest key server.extensions client.extensions

  abbrev pub at_server : List Arrival → Writer → Connection fl.State de.State
  at_server =
      server_end fl de unicode digest printable path host key server client path_word host_visible
        key_visible server_small client_small

  abbrev pub at_client : List Arrival → Writer → Connection fl.State de.State
  at_client =
      client_end fl de unicode digest printable path host key server client path_word host_visible
        key_visible server_small client_small

  -- The two ends of a connection, and a message that went from the server to the client: each end
  -- reads what the other has put out.
  pub record Greeted (rounds : ℕ) (more rest : List Arrival) (v w : Writer) (m : Message)
      : Type 0 where
    pub client_side : Connection fl.State de.State
    pub server_side : Connection fl.State de.State
    pub accepted :
        (accept_async_with_config fl de unicode digest
          (some server)
          (record { source = bytes client_side.writer.writer.written ++ rest; write_half = w })).0
        ≡ ok server_side
    pub sent : (write_message de rounds m server_side.writer).0 ≡ ok tt
    pub connected :
        (connect_on fl de unicode digest client key
          (add_extension_headers (request_text path host key) client.extensions)
          (record {
            source = bytes (write_message de rounds m server_side.writer).1.writer.written ++ more;
            write_half = v;
          })).0
        ≡ ok client_side
    pub round_count : ℕ
    pub received :
        (fuel : ℕ)
        → poll_messages fl rounds (rounds_after fl rounds round_count fuel) client_side.reader
          ≡ poll_messages fl rounds fuel (delivered (idle client_side.reader more) m)

  module _ (rounds : ℕ) (windows : HasWindows settled) (off : enabled settled ≡ false)
      (no_surplus : surplus settled ≡ []) (some_room : 0 < size_or_default server.max_frame_size)
      (in_64_bits : size_or_default server.max_frame_size < 2 ^ 64)
      (frames_fit : size_or_default server.max_frame_size ≤ size_or_default client.max_frame_size)
      (messages_fit : size_or_default server.max_message_size
        ≤ size_or_default client.max_message_size) where
    -- A server accepts a connection and sends a message, and the client connects over TCP: the
    -- connection is made on both ends, the server's from the bytes that the client put out and the
    -- client's from the bytes that the server put out, whatever arrives behind them; the message is
    -- sent without an error, and the loop of the client's reader delivers it and goes on. The
    -- conditions: a digest is printable; the path is a word, the host and the key are visible, and
    -- windows are small on both ends; the compression library takes the window bits that are agreed
    -- on; no compression is agreed on, and what is agreed leaves no line end too many; the server's
    -- frame limit is positive and below 2^64, and the client's limits are no lower; neither end has
    -- put out anything before; there is room for the request, for the response, and behind it for
    -- fifteen times the bytes and fourteen more; the message is proper, of bytes, and within the
    -- server's message limit.
    pub first_answer_arrives :
        (more rest : List Arrival) (v w : Writer) (m : Message)
        → v.written ≡ []
        → w.written ≡ []
        → length request ≤ v.room
        → length response ≤ w.room
        → 15 * length (as_binary m) + 14 ≤ w.room - length response
        → IsProper m
        → IsBytes (as_binary m)
        → length (as_binary m) ≤ size_or_default server.max_message_size
        → Greeted rounds more rest v w m
    unfolding second_stage_handshake
    first_answer_arrives more rest v w m v_fresh fresh v_room w_room m_room proper are_bytes
          within =
        let arrives =
          message_Arrives de fl rounds (at_server rest w).writer
            (idle (at_client more v).reader more) off some_room in_64_bits (refl, omega arith)
            frames_fit messages_fit m more proper are_bytes within m_room in
        let wire =
          ap (λ b. bytes b ++ more) arrives.gone ∙ behind_head response arrives.out more w fresh in
        record {
          client_side = at_client (bytes arrives.out ++ more) v;
          server_side = at_server rest w;
          accepted = rw (ap (λ b. bytes (b ++ request) ++ rest) v_fresh) (
              accepts fl de unicode digest printable path host key server client path_word
                host_visible key_visible server_small client_small rest w windows w_room);
          sent = arrives.done;
          connected = rw wire (
              connects fl de unicode digest printable path host key server client path_word
                host_visible key_visible server_small client_small (bytes arrives.out ++ more) v
                windows v_room);
          round_count = arrives.round_count;
          received = λ fuel. rw no_surplus (arrives.delivers fuel);
        }
