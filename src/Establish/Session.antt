-- ===== src/Establish/Session.antt =====
-- A client that connects to a server with src/handshake.rs, and the first message that it sends.
use socket_flow.Prelude.{
  arith, ℕ, ◌+◌, ◌-◌, ◌*◌, ◌^◌, ◌≤◌, ◌<◌, ◌≡◌, refl, ap, ◌∙◌, false, Option, some, List, [], ◌++◌,
  All, length, IsBytes,
}
use socket_flow.Error.{ok}
use socket_flow.Config.{Extensions, WebSocketConfig, size_or_default}
use socket_flow.Source.{Arrival, bytes}
use socket_flow.Text.{Text}
use socket_flow.Text.Cut.{IsVisible, IsWord}
use socket_flow.Message.{Message, as_binary}
use socket_flow.Message.Conversion.{IsProper}
use socket_flow.Extensions.{add_extension_headers}
use socket_flow.Flate.{Inflate, Deflate}
use socket_flow.Writer.{Writer, WriterKind}
use socket_flow.Writer.Fits.{wrote, write_all_fits}
use socket_flow.WsWriter.{write_message}
use socket_flow.Reader.Poll.{poll_messages}
use socket_flow.Reader.Steps.{rounds_after}
use socket_flow.Reader.Parts.{idle, delivered}
use socket_flow.Delivery.EndToEnd.{message_Arrives}
use socket_flow.Request.Heads.{bytes-append}
use socket_flow.Request.Construct.{request_text}
use socket_flow.Request.Built.{IsSmall, surplus}
use socket_flow.Utils.{Digest, IsPrintable}
use socket_flow.Handshake.Replies.{heard}
use socket_flow.Handshake.Settled.{
  HasWindows-heard, agreed_extensions, sent_request, sent_response, enabled, enabled-heard,
}
use socket_flow.Handshake.Agreement.{server_accepts, client_accepts}
use socket_flow.Connection.{Connection}
use socket_flow.Halves.{HasWindows, second_stage_handshake, joined, end_of_lem}
use socket_flow.Establish.{finish_handshake, accept_async_with_config, connect_on}

-- What a writer puts out behind a head, when it had put out nothing before.
pub behind_head :
    (head out : List ℕ) (rest : List Arrival) (v : Writer)
    → v.written ≡ []
    → bytes ((v.written ++ head) ++ out) ++ rest ≡ bytes head ++ (bytes out ++ rest)
behind_head head out rest v fresh =
    ap (λ b. bytes ((b ++ head) ++ out) ++ rest) fresh ∙ bytes-append head out rest

module _ (fl : Inflate) (de : Deflate) (unicode : Text → Text) (digest : Digest)
    (printable : IsPrintable digest) (path host key : Text) (server client : WebSocketConfig)
    (path_word : IsWord path) (host_visible : All IsVisible host) (key_visible : All IsVisible key)
    (server_small : IsSmall server.extensions) (client_small : IsSmall client.extensions) where
  abbrev agreed : Option Extensions
  agreed = agreed_extensions server.extensions client.extensions

  abbrev request : List ℕ
  request = sent_request path host key client.extensions

  abbrev response : List ℕ
  response = sent_response digest key server.extensions client.extensions

  abbrev pub server_end : List Arrival → Writer → Connection fl.State de.State
  server_end rest w =
      joined fl de WriterKind.server (record server { extensions = agreed })
        (record {
          source = bytes (surplus client.extensions) ++ rest;
          write_half = wrote response w;
        })

  abbrev pub client_end : List Arrival → Writer → Connection fl.State de.State
  client_end more v =
      joined fl de WriterKind.client (record client { extensions = heard agreed })
        (record { source = bytes (surplus agreed) ++ more; write_half = wrote request v })

  pub accepts :
      (rest : List Arrival) (w : Writer)
      → HasWindows agreed
      → length response ≤ w.room
      → (accept_async_with_config fl de unicode digest
          (some server)
          (record { source = bytes request ++ rest; write_half = w })).0
        ≡ ok (server_end rest w)
  unfolding accept_async_with_config finish_handshake
  accepts rest w windows room =
      rw
        (server_accepts unicode digest printable path host key server.extensions client.extensions
          path_word host_visible key_visible server_small client_small rest w room)
        (end_of_lem fl de WriterKind.server (record server { extensions = agreed }) _ windows)

  pub connects :
      (more : List Arrival) (v : Writer)
      → HasWindows agreed
      → length request ≤ v.room
      → (connect_on fl de unicode digest client key
          (add_extension_headers (request_text path host key) client.extensions)
          (record { source = bytes response ++ more; write_half = v })).0
        ≡ ok (client_end more v)
  unfolding connect_on finish_handshake
  connects more v windows room =
      rw
        (
          write_all_fits request v room,
          client_accepts unicode digest printable path host key server.extensions client.extensions
              path_word host_visible key_visible server_small client_small more (wrote request v),
        )
        (end_of_lem fl de WriterKind.client (record client { extensions = heard agreed }) _
          (HasWindows-heard agreed windows))

  -- The two ends of a connection, and a message that went from the client to the server: each end
  -- reads what the other has put out.
  pub record Met (rounds : ℕ) (more rest : List Arrival) (v w : Writer) (m : Message) : Type 0 where
    pub client_side : Connection fl.State de.State
    pub server_side : Connection fl.State de.State
    pub connected :
        (connect_on fl de unicode digest client key
          (add_extension_headers (request_text path host key) client.extensions)
          (record { source = bytes server_side.writer.writer.written ++ more; write_half = v })).0
        ≡ ok client_side
    pub sent : (write_message de rounds m client_side.writer).0 ≡ ok tt
    pub accepted :
        (accept_async_with_config fl de unicode digest (some server) (record {
          source = bytes (write_message de rounds m client_side.writer).1.writer.written ++ rest;
          write_half = w;
        })).0
        ≡ ok server_side
    pub round_count : ℕ
    pub received :
        (fuel : ℕ)
        → poll_messages fl rounds (rounds_after fl rounds round_count fuel) server_side.reader
          ≡ poll_messages fl rounds fuel (delivered (idle server_side.reader rest) m)

  module _ (rounds : ℕ) (windows : HasWindows agreed) (off : enabled agreed ≡ false)
      (no_surplus : surplus client.extensions ≡ [])
      (some_room : 0 < size_or_default client.max_frame_size)
      (in_64_bits : size_or_default client.max_frame_size < 2 ^ 64)
      (frames_fit : size_or_default client.max_frame_size ≤ size_or_default server.max_frame_size)
      (messages_fit : size_or_default client.max_message_size
        ≤ size_or_default server.max_message_size) where
    -- A client connects over TCP, sends a message, and the server accepts it: the connection is
    -- made on both ends, the client's from the bytes that the server put out and the server's from
    -- the bytes that the client put out, whatever arrives behind them; the message is sent without
    -- an error, and the loop of the server's reader delivers it and goes on. The conditions: a
    -- digest is printable; the path is a word, the host and the key are visible, and windows are
    -- small on both ends; the compression library takes the window bits that are agreed on; no
    -- compression is agreed on, and the client's extensions leave no line end too many; the
    -- client's frame limit is positive and below 2^64, and the server's limits are no lower;
    -- neither end has put out anything before; there is room for the response, for the request, and
    -- behind it for fifteen times the bytes and fourteen more; the message is proper, of bytes, and
    -- within the client's message limit.
    pub first_message_arrives :
        (more rest : List Arrival) (v w : Writer) (m : Message)
        → v.written ≡ []
        → w.written ≡ []
        → length response ≤ w.room
        → length request ≤ v.room
        → 15 * length (as_binary m) + 14 ≤ v.room - length request
        → IsProper m
        → IsBytes (as_binary m)
        → length (as_binary m) ≤ size_or_default client.max_message_size
        → Met rounds more rest v w m
    unfolding second_stage_handshake
    first_message_arrives more rest v w m fresh w_fresh w_room v_room m_room proper are_bytes
          within =
        let arrives =
          message_Arrives de fl rounds (client_end more v).writer
            (idle (server_end rest w).reader rest) (enabled-heard agreed ∙ off) some_room in_64_bits
            (refl, omega arith) frames_fit messages_fit m rest proper are_bytes within m_room in
        let wire =
          ap (λ b. bytes b ++ rest) arrives.gone ∙ behind_head request arrives.out rest v fresh in
        record {
          client_side = client_end more v;
          server_side = server_end (bytes arrives.out ++ rest) w;
          connected =
              rw (ap (λ b. bytes (b ++ response) ++ more) w_fresh) (connects more v windows v_room);
          sent = arrives.done;
          accepted = rw wire (accepts (bytes arrives.out ++ rest) w windows w_room);
          round_count = arrives.round_count;
          received = λ fuel. rw no_surplus (arrives.delivers fuel);
        }
