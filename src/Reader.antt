-- ===== src/Reader.antt =====
-- src/read.rs: the task that reads frames from a connection, assembles messages, answers control
-- frames and hands the messages on.
pub mod Poll
pub mod Progress
pub mod Rounds
pub mod Waiting
pub mod Ending
pub mod Steps
pub mod Assembly
pub mod Parts
pub mod Pings
pub mod Controls
pub mod Interleaved
pub mod Reads
pub mod RoundTrip
pub mod Refusals
pub mod Control
pub mod Limits
pub mod Adding
pub mod Deliveries
use socket_flow.Prelude.{
  ℕ, zero, suc, ◌+◌, ◌<◌, ◌≡◌, Bool, true, false, ◌&&◌, Option, none, some, List, [], ◌∷◌, ◌++◌,
  ltb, ◌==◌, if◌then◌else◌, length, get_or,
}
use socket_flow.Error.{
  Error, Outcome, ok, err, io_error, unexpected_eof, timeout, max_frame_size, communication_error,
}
use socket_flow.Run.{Run, pure, fail, lift, gets, fail_if, on_part, ◌>>=◌, ◌>>◌}
use socket_flow.Config.{WebSocketConfig, size_or_default, deflate_enabled}
use socket_flow.Frame.{OpCode, Frame, new_frame}
use socket_flow.Message.{Message, from_frame}
use socket_flow.Utf8.{from_utf8}
use socket_flow.Writer.{Writer, Mask, apply_mask, write_frame}
use socket_flow.Flate.{Inflate}
use socket_flow.Decoder.{Decoder, decompress}
use socket_flow.Source.{Arrival, Reading, full, closed, elapsed, read_exact, read_exact_within}
use socket_flow.Header.{Header, parse_header, from_be_bytes}

pub record FragmentedMessage : Type 0 where
  pub fragments : List ℕ
  pub op_code : OpCode
  pub compressed : Bool

-- `channel(20)`: how many messages it holds before one of them is taken.
abbrev pub capacity : ℕ
capacity = 20

pub data Delivery : Type 0 where
  message : Message → Delivery
  failure : Error → Delivery

-- What has gone into the channel of received messages, how much of that its user has taken, and
-- whether its receiver is gone.
pub record Channel : Type 0 where
  pub sent : List Delivery
  pub taken : ℕ
  pub is_closed : Bool

-- A message can be sent.
abbrev pub HasRoom : Channel → Type 0
HasRoom c = (c.is_closed ≡ false) × (length c.sent < capacity + c.taken)

pub record ReadStream (S : Type 0) : Type 0 where
  pub source : List Arrival
  pub fragmented_message : Option FragmentedMessage
  pub read_tx : Channel
  pub writer : Writer
  pub config : WebSocketConfig
  pub decoder : Decoder S

module _ {S : Type 0} where
  took : Reading → Run (ReadStream S) (List ℕ)
  took (full bytes rest) s = (ok bytes, record s { source = rest })
  took closed s = (err (io_error unexpected_eof), record s { source = [] })
  took (elapsed rest) s = (err timeout, record s { source = rest })

  -- `self.buf_reader.read_exact(..).await?`.
  unfoldable pub read_bytes : ℕ → Run (ReadStream S) (List ℕ)
  unfolding took
  read_bytes n s = took (read_exact n s.source) s

  -- The same for the payload, which has five seconds to arrive.
  unfoldable pub read_payload : ℕ → Run (ReadStream S) (List ℕ)
  unfolding took
  read_payload n s = took (read_exact_within 4 n s.source) s

  unfoldable pub read_header : Run (ReadStream S) Header
  read_header = do
    header ← read_bytes 2
    deflate ← gets (λ s. deflate_enabled s.config)
    lift (parse_header deflate (get_or header 0 0) (get_or header 1 0))

  unfoldable pub read_length : ℕ → Run (ReadStream S) ℕ
  read_length n =
      if n == 126
      then (do be_bytes ← read_bytes 2; pure (from_be_bytes be_bytes))
      else if n == 127
      then (do be_bytes ← read_bytes 8; pure (from_be_bytes be_bytes))
      else pure n

mask_of : List ℕ → Mask
mask_of bs = record {
  m0 = get_or bs 0 0;
  m1 = get_or bs 1 0;
  m2 = get_or bs 2 0;
  m3 = get_or bs 3 0;
}

module _ {S : Type 0} where
  unfoldable pub read_mask : Bool → Run (ReadStream S) (Option Mask)
  unfolding mask_of
  read_mask masked =
      if masked then (do mask ← read_bytes 4; pure (some (mask_of mask))) else pure none

unfoldable pub unmask : Option Mask → List ℕ → List ℕ
unmask none payload = payload
unmask (some mask) payload = apply_mask mask 0 payload

-- `rounds` is the fuel of the decompression loop.
module _ (fl : Inflate) (rounds : ℕ) where
  abbrev pub Reader : Type 0 → Type 0
  Reader A = Run (ReadStream fl.State) A

  unfoldable pub inflate : Bool → List ℕ → Reader (List ℕ)
  inflate compressed payload =
      if compressed
      then on_part (λ s. s.decoder) (λ s d. record s { decoder = d }) (decompress fl rounds payload)
      else pure payload

  unfoldable pub read_frame : Reader Frame
  read_frame = do
    header ← read_header
    length ← read_length header.length
    limit ← gets (λ s. size_or_default s.config.max_frame_size)
    fail_if (ltb limit length) max_frame_size
    mask ← read_mask header.masked
    received ← read_payload length
    payload ← inflate (header.rsv1 && header.final_fragment) (unmask mask received)
    pure (new_frame header.final_fragment header.opcode payload header.rsv1)
