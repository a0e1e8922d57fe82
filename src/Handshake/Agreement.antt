-- ===== src/Handshake/Agreement.antt =====
-- Both ends of src/handshake.rs against each other.
use socket_flow.Prelude.{◌≤◌, ◌≡◌, refl, ◌∙◌, Option, List, ◌++◌, All, length}
use socket_flow.Error.{ok}
use socket_flow.Config.{Extensions}
use socket_flow.Source.{Arrival, bytes}
use socket_flow.Text.{Text, codes, same_text}
use socket_flow.Text.Bytes.{as_bytes}
use socket_flow.Text.Pieces.{replace_braces}
use socket_flow.Text.Cut.{IsVisible, IsWord}
use socket_flow.Extensions.{merge_extensions}
use socket_flow.Request.{HttpRequest}
use socket_flow.Request.Built.{IsSmall, surplus}
use socket_flow.Request.RoundTrip.{
  Carries, Answers, request_head, response_head, request_head-Carries, response_head-Answers,
  read_request, read_response, offered_value,
}
use socket_flow.Utils.{Digest, uuid, IsPrintable, generate_websocket_accept_value}
use socket_flow.Writer.{Writer}
use socket_flow.Writer.Fits.{wrote, write_all_fits}
use socket_flow.Handshake.{
  Socket, http_accept_response, answer_request, answer_key, accept_response, check_response,
  parse_handshake_server, parse_handshake_client,
}
use socket_flow.Handshake.Replies.{
  replaced-open_head, contains_text_self, heard, parse_extensions-heard,
}
use socket_flow.Handshake.Settled.{
  IsSmall-merge_extensions, IsSmall-heard, enabled, enabled-heard, agreed_extensions, sent_request,
  sent_response,
}

module _ (unicode : Text → Text) (digest : Digest) (printable : IsPrintable digest) where
  module _ (host key : Text) (server client : Option Extensions) (small : IsSmall client)
      (r : HttpRequest) (method : r.method ≡ codes "GET")
      (carries : Carries r host key (offered_value client)) where
    answer_request-Carries :
        (s : Socket)
        → answer_request digest server r s
          ≡ answer_key digest key (merge_extensions server (heard client)) s
    unfolding answer_request same_text
    answer_request-Carries s =
        rw
          (
            method,
            carries.host_header,
            carries.key_header,
            carries.extensions_header,
            parse_extensions-heard client small,
          )
          refl

  -- The answer to a key, where the connection has room for it.
  answer_key_fits :
      (key : Text) (agreed : Option Extensions) (s : Socket)
      → length (as_bytes (accept_response digest key agreed)) ≤ s.write_half.room
      → answer_key digest key agreed s ≡ (
        ok agreed,
        record s { write_half = wrote (as_bytes (accept_response digest key agreed)) s.write_half },
      )
  unfolding answer_key
  answer_key_fits key agreed s room =
      rw (write_all_fits (as_bytes (accept_response digest key agreed)) s.write_half room) refl

  check_response-Answers :
      (key : Text) (agreed : Option Extensions) (r : HttpRequest) (s : Socket)
      → IsSmall agreed
      → Answers r (generate_websocket_accept_value digest key) (offered_value agreed)
      → check_response digest key r s ≡ (ok (heard agreed), s)
  unfolding check_response
  check_response-Answers key agreed r s small answers =
      rw
        (
          answers.accept_header,
          answers.extensions_header,
          contains_text_self (generate_websocket_accept_value digest key),
          parse_extensions-heard agreed small,
        )
        refl

  module _ (path host key : Text) (server client : Option Extensions) (path_word : IsWord path)
      (host_visible : All IsVisible host) (key_visible : All IsVisible key)
      (server_small : IsSmall server) (client_small : IsSmall client) where
    agreed-IsSmall : IsSmall (agreed_extensions server client)
    agreed-IsSmall =
        IsSmall-merge_extensions server (heard client) server_small
          (IsSmall-heard client client_small)

    accept_visible : All IsVisible (generate_websocket_accept_value digest key)
    accept_visible =
        unfold generate_websocket_accept_value in
        printable (digest.sha1 (as_bytes key ++ as_bytes uuid))

    -- The server accepts.
    pub server_accepts :
        (rest : List Arrival) (w : Writer)
        → length (sent_response digest key server client) ≤ w.room
        → parse_handshake_server unicode digest server
            (record { source = bytes (sent_request path host key client) ++ rest; write_half = w })
          ≡ (
            ok (agreed_extensions server client),
            record {
              source = bytes (surplus client) ++ rest;
              write_half = wrote (sent_response digest key server client) w;
            },
          )
    unfolding parse_handshake_server
    server_accepts rest w room =
        rw
          (read_request unicode client client_small rest path host key path_word host_visible
            key_visible)
          (answer_request-Carries host key server client client_small
              (request_head unicode path host key client) refl
              (request_head-Carries unicode path host key client)
              (record { source = bytes (surplus client) ++ rest; write_half = w })
            ∙ answer_key_fits key (agreed_extensions server client)
                (record { source = bytes (surplus client) ++ rest; write_half = w }) room)

    -- The client accepts the response.
    pub client_accepts :
        (more : List Arrival) (w : Writer)
        → parse_handshake_client unicode digest key (record {
          source = bytes (sent_response digest key server client) ++ more;
          write_half = w;
        })
          ≡ (
            ok (heard (agreed_extensions server client)),
            record {
              source = bytes (surplus (agreed_extensions server client)) ++ more;
              write_half = w;
            },
          )
    unfolding parse_handshake_client accept_response
    client_accepts more w =
        rw
          (read_response unicode (agreed_extensions server client) agreed-IsSmall more
            (generate_websocket_accept_value digest key)
            (replace_braces http_accept_response (generate_websocket_accept_value digest key))
            accept_visible (replaced-open_head (generate_websocket_accept_value digest key)))
          (check_response-Answers key (agreed_extensions server client)
            (response_head unicode (generate_websocket_accept_value digest key)
              (agreed_extensions server client))
            (record {
              source = bytes (surplus (agreed_extensions server client)) ++ more;
              write_half = w;
            })
            agreed-IsSmall
            (response_head-Answers unicode (generate_websocket_accept_value digest key)
              (agreed_extensions server client)))

    -- Let the path of a request be printable text that is not empty, and host and key printable;
    -- let base64 have its printable alphabet and windows be of eight bits. From the request with
    -- the client's extensions the server, if its connection has room for the response, settles on
    -- the merge of its own extensions with those that it hears of, and puts out the response; and
    -- from that response, whatever comes behind it, the client that sent the key settles on what it
    -- hears of the merge. Both agree on whether compression is on, and each has read the other's
    -- head, but for the line end too many of extensions that are set and off.
    pub handshake_agrees :
        (rest more : List Arrival) (w v : Writer)
        → length (sent_response digest key server client) ≤ w.room
        → (parse_handshake_server unicode digest server (record {
          source = bytes (sent_request path host key client) ++ rest;
          write_half = w;
        })
            ≡ (
              ok (agreed_extensions server client),
              record {
                source = bytes (surplus client) ++ rest;
                write_half = wrote (sent_response digest key server client) w;
              },
            ))
          × (parse_handshake_client unicode digest key (record {
            source = bytes (sent_response digest key server client) ++ more;
            write_half = v;
          })
              ≡ (
                ok (heard (agreed_extensions server client)),
                record {
                  source = bytes (surplus (agreed_extensions server client)) ++ more;
                  write_half = v;
                },
              ))
          × (enabled (heard (agreed_extensions server client))
              ≡ enabled (agreed_extensions server client))
    handshake_agrees rest more w v room = (
      server_accepts rest w room,
      client_accepts more v,
      enabled-heard (agreed_extensions server client),
    )
