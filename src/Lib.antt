-- ===== src/Lib.antt =====
-- socket-flow, an asynchronous WebSocket library, and a model of it.
--
-- Two ends first make a connection (src/handshake.rs): the client sends a request (src/request.rs)
-- that names its extensions (src/extensions.rs), the server parses it, agrees on extensions and
-- responds, and the client checks the response. Then a connection (src/connection.rs) has two
-- halves. The sending half (src/split.rs, `WSWriter`) cuts a message into frames, compresses it
-- where that was agreed (src/encoder.rs), and hands each frame to the writer (src/write.rs), which
-- puts its bytes on the socket. The reading half (src/read.rs, `ReadStream`) takes bytes from the
-- socket, checks them, decompresses (src/decoder.rs), assembles messages from fragments, answers
-- pings and closes through the same writer, and sends messages into a channel. A server for events
-- (src/server.rs) accepts connections in a loop and tells its user of them and of their messages
-- (src/event.rs).
--
-- Shared:
--   Prelude         names of the libraries, Boolean tests, lists over the native numbers, bits
--   Error, Run      src/error.rs; how a method ends, and chains of calls on a state; Run.Rules and
--                   Run.Waits: lemmas
--   Config          src/config.rs, and the record of src/extensions.rs that it stores
--   Utf8, Chunks    `String::from_utf8` and `slice::chunks` of Rust's standard library
--   Flate           the interface of the compression library (flate2), which is not part of the
--                   repository, the documented laws that the decoder relies on, and instances;
--                   those for the encoder stand in Encoder.Calls and Encoder.Ending
--   Source          the buffered read half of the socket: bytes, and the seconds that pass
--   Text            texts of the handshake, and the functions on `str`: Pieces cuts them, Bytes are
--                   the encoding, Plain, Cut and Same have the lemmas
--
-- Parts:
--   Frame           src/frame.rs: `OpCode::from`, `as_u8`, `is_control`, `Frame::new`
--   Message         src/message.rs: `from_frame`, `as_binary`, `as_text`
--   Writer          src/write.rs: `write_frame` and both kinds of it, each `write_all` a step
--     Encoding      the bytes of a frame, described apart from the calls; Atomic: the calls
--     Masking, Lengths, Fits   the mask, the length on both ends, and what there is room for
--   Header          src/read.rs, the first two bytes of a frame
--   Reader          src/read.rs: `read_frame`; Reader.Poll: `poll_messages` and what it calls
--     Steps         rounds of the loop as a step relation
--     Reads, RoundTrip             reading what a writer has written
--     Parts, Pings, Controls       one frame, by its place in a message; pings and pongs
--     Interleaved, Assembly        messages from their frames, with control frames or without
--     Progress, Rounds, Waiting, Ending    the end of the loop, what it waits for, and the state
--                                   between its rounds
--     Refusals, Control, Limits    errors, answers, limits
--     Adding, Deliveries           what goes into the channel
--   Decoder         src/decoder.rs: `decompress`
--   Encoder         src/encoder.rs: `compress`
--     Calls, Ending, Flushing, Output    its loops as calls of the library, and what is returned
--   WsWriter        src/split.rs: `WSWriter`
--     Frames, Wire, Sent           messages as frames, as bytes, and the success of sending
--     Large, LargeSent             `send_large_data_fragmented`
--   Delivery        the two halves against each other: EndToEnd has messages without compression
--   Extensions      src/extensions.rs: `parse_extensions`, `merge_extensions`, `add_extension_headers`
--     Merge, Printed, Values, Parsed, RoundTrip    what is agreed on; printing and parsing
--   Request         src/request.rs: `parse_http_request`; Construct: `construct_http_request`
--     Heads, Waiting, Body         the loop that reads a head, its timeout, and what is behind a head
--     Parsed, Built, Sent, RoundTrip    parsing what was put together
--   Utils           src/utils.rs: keys, and what is answered to them
--   Handshake       src/handshake.rs: `parse_handshake_server`, `parse_handshake_client`
--     Replies, Settled, Agreement, Refusals    the two against each other; what each of them refuses
--   Connection      src/connection.rs
--   Halves          src/handshake.rs: the two halves of a connection, put together
--   Establish       src/handshake.rs: `accept_async`, `connect_async` and the configured forms
--     Connect                      TCP and TLS
--     Session, Greeting            a connection that is made, and the first message on it, from
--                                  the client or from the server
--     Windows                      window bits that the compression library does not take
--   Event           src/event.rs: `Event`, `EventStream`
--   Server          src/server.rs: `start_server_with_config`, as turns of its loop and of its tasks
--     Told, Turns, Cases, Unused, Stories    what the user is told of each connection
--   Examples        two ends with small limits, and the properties at concrete inputs
--
-- State: an object's fields are a record, and a method is a function from the state to how it ends
-- and the state that it leaves (`Run`), errors included. A call may also panic, hang, which is a
-- loop whose fuel is used up, or wait for something that does not happen. The channel of received
-- messages holds 20 of them beyond what its user has taken; a send into a full one waits, and the
-- model of the reader stops there, with the user's next take left to a further run. A write half is
-- the bytes that have gone out and the room that is left before the connection breaks. What the
-- peer sends is a list of bytes and of ticks, one for each second, which the timeouts of
-- `read_frame` and of `parse_http_request` count; the end of the list is the end of the stream. A
-- `String` of a message is the list of its bytes, a text of the handshake the list of its code
-- points. A `HashMap` is the list of its entries, the last one inserted first. The random generator
-- is a sequence and the count drawn from it. Numbers are natural: a `usize` is 64 bits wide, and
-- what is cut to a byte is cut by `% 256`. A server is its channel and its tasks, and a run of it a
-- list of turns in any order.
--
-- Parameters: the digest of a key (SHA-1 and base64), the parser of URLs, the lower case of letters
-- beyond ASCII, the connectors for TCP and TLS and the acceptor for TLS, and the compression
-- library. Of the digest it is asked that base64 is printable; the compression library panics on
-- window bits outside 9 to 15.
--
-- Fuel: `poll_messages` takes a number of rounds, of which each takes two bytes of the input at
-- least, so one more than the arrivals of the input is chosen. The loop of `decompress` takes more
-- rounds than the work that the laws of the library give it, each call doing some of it; the loops
-- of `compress` the same, with a round more for each time that the buffer is full, and in the
-- second a round for each call that a flush may take, and two more. The loop that reads a head goes
-- by its input.
--
-- Not modelled: what TLS and certificates are inside the libraries, and src/stream.rs, which
-- passes each poll on to one of two kinds of stream; the lock on the writer, which each frame
-- holds from its first byte to its last, so that frames of the two halves may take turns:
-- Reader.Pings has them mixed, as the other end sees them; capacities of vectors beyond what the
-- loops of the encoder and decoder use, where a new vector has the capacity that is asked for; the
-- texts of errors; the listener of the server and the generator of its IDs, whose outcomes are the
-- turns.
mod Prelude
pub mod Error
pub mod Run
pub mod Config
pub mod Frame
pub mod Utf8
pub mod Message
pub mod Writer
pub mod Flate
pub mod Source
pub mod Header
pub mod Reader
pub mod Encoder
pub mod Chunks
pub mod WsWriter
pub mod Delivery
pub mod Decoder
pub mod Text
pub mod Request
pub mod Utils
pub mod Handshake
pub mod Connection
pub mod Halves
pub mod Establish
pub mod Event
pub mod Server
pub mod Extensions
pub mod Examples
