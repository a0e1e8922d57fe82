-- ===== src/Halves.antt =====
-- src/handshake.rs: the two halves of a connection, put together from what was agreed on. Decoder
-- and encoder panic on window bits that the compression library does not take.
use socket_flow.Prelude.{◌≡◌, refl, true, false, Option, none, []}
use socket_flow.Error.{Outcome, ok, panic, ◌>>=◌}
use socket_flow.Config.{Extensions, WebSocketConfig, extensions_or_default, flag_or_default}
use socket_flow.Writer.{WriterKind}
use socket_flow.Flate.{Inflate, Deflate, accepts_window}
use socket_flow.Decoder.{Decoder, new_decoder}
use socket_flow.Encoder.{Encoder, new_encoder}
use socket_flow.Handshake.{Socket}
use socket_flow.Connection.{Connection}

-- The library takes the window bits of both sides.
abbrev pub HasWindows : Option Extensions → Type 0
HasWindows extensions =
    let e = extensions_or_default extensions in
    (accepts_window e.client_max_window_bits ≡ true)
    × (accepts_window e.server_max_window_bits ≡ true)

module _ (fl : Inflate) (de : Deflate) where
  abbrev pub decoder_for : WebSocketConfig → Outcome (Decoder fl.State)
  decoder_for config =
      let e = extensions_or_default config.extensions in
      new_decoder fl (flag_or_default e.client_no_context_takeover) e.client_max_window_bits

  abbrev pub encoder_for : WebSocketConfig → Outcome (Encoder de.State)
  encoder_for config =
      let e = extensions_or_default config.extensions in
      new_encoder de (flag_or_default e.server_no_context_takeover) e.server_max_window_bits

  unfoldable pub second_stage_handshake :
      WriterKind
      → WebSocketConfig
      → Decoder fl.State
      → Encoder de.State
      → Socket
      → Connection fl.State de.State
  second_stage_handshake kind config decoder encoder socket =
      let writer = record socket.write_half { kind = kind } in
      record {
        reader = record {
          source = socket.source;
          fragmented_message = none;
          read_tx = record { sent = []; taken = 0; is_closed = false };
          writer = writer;
          config = config;
          decoder = decoder;
        };
        writer = record { writer = writer; web_socket_config = config; encoder = encoder };
      }

  -- The connection of either end, on a stream.
  abbrev pub end_of : WriterKind → WebSocketConfig → Socket → Outcome (Connection fl.State de.State)
  end_of kind config socket = do
    decoder ← decoder_for config
    encoder ← encoder_for config
    ok (second_stage_handshake kind config decoder encoder socket)

  -- The connection that it comes to then.
  abbrev pub joined : WriterKind → WebSocketConfig → Socket → Connection fl.State de.State
  joined kind config =
      let e = extensions_or_default config.extensions in
      second_stage_handshake kind config
        (record {
          decompressor = fl.new e.client_max_window_bits;
          reset_context = flag_or_default e.client_no_context_takeover;
        })
        (record {
          compressor = de.new e.server_max_window_bits;
          reset_context = flag_or_default e.server_no_context_takeover;
        })

  pub end_of_lem :
      (kind : WriterKind) (config : WebSocketConfig) (socket : Socket)
      → HasWindows config.extensions
      → end_of kind config socket ≡ ok (joined kind config socket)
  end_of_lem kind config socket windows = rw (windows.0, windows.1) refl

  -- Window bits of the client that the library does not take: the decoder panics.
  pub end_of_panics :
      (kind : WriterKind) (config : WebSocketConfig) (socket : Socket)
      → accepts_window (extensions_or_default config.extensions).client_max_window_bits ≡ false
      → end_of kind config socket ≡ panic
  end_of_panics kind config socket few = rw few refl
