-- ===== src/Connection.antt =====
-- src/connection.rs: the two halves of a connection, as one object. Each operation is that of the
-- half that it belongs to. The two halves share one writer, behind a lock: what an operation of one
-- half writes, the other half finds written.
use socket_flow.Prelude.{ℕ, Option, none, some, List, [], ◌∷◌}
use socket_flow.Run.{Run, on_part}
use socket_flow.Message.{Message}
use socket_flow.Flate.{Deflate}
use socket_flow.Reader.{ReadStream, Delivery}
use socket_flow.WsWriter as Sender

-- A `WSConnection`, with the task that reads for it, whose channel its reader polls.
pub record Connection (R W : Type 0) : Type 0 where
  pub reader : ReadStream R
  pub writer : Sender.WsWriter W

-- The items in the channel, from its receiver's side: the next one, or `none` where none is left.
unfoldable pub poll_next : List Delivery → Option Delivery × List Delivery
poll_next [] = (none, [])
poll_next (d ∷ ds) = (some d, ds)

abbrev pub split : {R W : Type 0} → Connection R W → ReadStream R × Sender.WsWriter W
split c = (c.reader, c.writer)

module _ (R : Type 0) (de : Deflate) (rounds : ℕ) where
  abbrev pub Connected : Type 0 → Type 0
  Connected A = Run (Connection R de.State) A

  -- The writing half is changed, and with it the writer that the halves share.
  abbrev on_writer : Run (Sender.WsWriter de.State) Unit → Connected Unit
  on_writer =
      on_part (λ c. c.writer)
        (λ c w. record c { reader = record c.reader { writer = w.writer }; writer = w })

  abbrev pub close_connection : Connected Unit
  close_connection = on_writer (Sender.close_connection de rounds)

  abbrev pub send_message : Message → Connected Unit
  send_message message = on_writer (Sender.send_message de rounds message)

  abbrev pub send : List ℕ → Connected Unit
  send data_bytes = on_writer (Sender.send de rounds data_bytes)

  abbrev pub send_as_binary : List ℕ → Connected Unit
  send_as_binary data_bytes = on_writer (Sender.send_as_binary de rounds data_bytes)

  abbrev pub send_as_text : List ℕ → Connected Unit
  send_as_text data_bytes = on_writer (Sender.send_as_text de rounds data_bytes)

  abbrev pub send_ping : Connected Unit
  send_ping = on_writer (Sender.send_ping de rounds)

  abbrev pub send_large_data_fragmented : List ℕ → ℕ → Connected Unit
  send_large_data_fragmented data_bytes fragment_size =
      on_writer (Sender.send_large_data_fragmented de rounds data_bytes fragment_size)
