-- ===== src/Reader/Parts.antt =====
-- What one frame of a message does to a reader in src/read.rs, by its place in the message.
use socket_flow.Prelude.{
  ℕ, ◌≤◌, ◌<◌, ◌^◌, ◌≡◌, Bool, true, false, none, some, List, [], ◌∷◌, ◌++◌, length, ◌⊎◌, le→ltb,
  IsBytes, arith,
}
use socket_flow.Error.{ok}
use socket_flow.Config.{deflate_enabled, size_or_default}
use socket_flow.Frame.{OpCode, Frame, new_frame, is_control}
use socket_flow.Message.{Message, from_frame}
use socket_flow.Utf8.{from_utf8}
use socket_flow.Flate.{Inflate}
use socket_flow.Writer.{WriterKind, Mask}
use socket_flow.Writer.Masking.{IsMask}
use socket_flow.Writer.Encoding.{encode_by}
use socket_flow.Source.{Arrival, bytes}
use socket_flow.Reader.{HasRoom, ReadStream, FragmentedMessage, message, read_frame, inflate}
use socket_flow.Reader.Poll.{
  again, handle_frame, continue_message, begin_message, whole_message, finish_message,
  transmit_message, send,
}
use socket_flow.Reader.Reads.{at_source}
use socket_flow.Reader.RoundTrip.{Acceptable, read_frame-encode_by, bytes-append}

module _ {S : Type 0} where
  -- A reader that is in the middle of a message, at some place of its input, and one that is not.
  abbrev pub holding : ReadStream S → FragmentedMessage → List Arrival → ReadStream S
  holding s m src = record s { source = src; fragmented_message = some m }

  abbrev pub idle : ReadStream S → List Arrival → ReadStream S
  idle s src = record s { source = src; fragmented_message = none }

  -- The reader with a message more in its channel.
  abbrev pub delivered : ReadStream S → Message → ReadStream S
  delivered s m = record s {
    read_tx = record s.read_tx { sent = s.read_tx.sent ++ message m ∷ [] };
  }

  transmit_message_lem :
      (op : OpCode) (payload : List ℕ) (m : Message) (s : ReadStream S)
      → from_frame (new_frame true op payload false) ≡ ok m
      → HasRoom s.read_tx
      → transmit_message (new_frame true op payload false) s ≡ (ok tt, delivered s m)
  unfolding transmit_message from_frame from_utf8 send
  transmit_message_lem op payload m s e open_end = ground arith

pub data_op : {op : OpCode} → (op ≡ OpCode.text) ⊎ (op ≡ OpCode.binary) → is_control op ≡ false
unfolding is_control
data_op d = ground arith

module _ (fl : Inflate) (rounds : ℕ) (kind : WriterKind) where
  module _ (s : ReadStream fl.State) (op : OpCode) where
    abbrev pub part : List ℕ → FragmentedMessage
    part bs = record { fragments = bs; op_code = op; compressed = false }

    -- A continuation that does not end the message.
    pub handle_further :
        (before chunk : List ℕ) (src : List Arrival)
        → length (before ++ chunk) ≤ size_or_default s.config.max_message_size
        → handle_frame fl rounds
            (new_frame false OpCode.continue chunk false)
            (holding s (part before) src)
          ≡ (ok again, holding s (part (before ++ chunk)) src)
    unfolding handle_frame continue_message
    handle_further before chunk src h = rw (le→ltb _ _ h)

    pub handle_final :
        (before chunk : List ℕ) (m : Message) (src : List Arrival)
        → length (before ++ chunk) ≤ size_or_default s.config.max_message_size
        → from_frame (new_frame true op (before ++ chunk) false) ≡ ok m
        → HasRoom s.read_tx
        → handle_frame fl rounds
            (new_frame true OpCode.continue chunk false)
            (holding s (part before) src)
          ≡ (ok again, delivered (idle s src) m)
    unfolding handle_frame continue_message finish_message inflate
    handle_final before chunk m src h e open_end =
        rw (le→ltb _ _ h, transmit_message_lem op (before ++ chunk) m (idle s src) e open_end)

    -- The first frame of a fragmented message, of a reader that is not in one.
    pub handle_begin :
        (chunk : List ℕ) (src : List Arrival)
        → (op ≡ OpCode.text) ⊎ (op ≡ OpCode.binary)
        → handle_frame fl rounds (new_frame false op chunk false) (idle s src)
          ≡ (ok again, holding s (part chunk) src)
    unfolding handle_frame begin_message
    handle_begin chunk src d = ground arith

    pub handle_whole :
        (payload : List ℕ) (m : Message) (src : List Arrival)
        → (op ≡ OpCode.text) ⊎ (op ≡ OpCode.binary)
        → from_frame (new_frame true op payload false) ≡ ok m
        → HasRoom s.read_tx
        → handle_frame fl rounds (new_frame true op payload false) (idle s src)
          ≡ (ok again, delivered (idle s src) m)
    unfolding handle_frame whole_message
    handle_whole payload m src d e open_end =
        ground (arith, transmit_message_lem op payload m (idle s src) e open_end)

  -- A frame at the front of the input, sent without RSV1.
  pub encoded_step :
      (x : ReadStream fl.State) (rest : List Arrival) (f : Frame) (mask : Mask)
      (out behind : List ℕ)
      → IsMask mask
      → out ≡ encode_by kind mask f false ++ behind
      → Acceptable (deflate_enabled x.config) (size_or_default x.config.max_frame_size) f false
      → read_frame fl rounds (at_source x (bytes out ++ rest))
        ≡ (ok (record f { compressed = false }), at_source x (bytes behind ++ rest))
  unfolding inflate
  encoded_step x rest f mask out behind m e a =
      rw (e, bytes-append rest (encode_by kind mask f false) behind)
        (read_frame-encode_by fl rounds x (bytes behind ++ rest) kind mask f false m a)

  -- What is asked of the receiver: it takes frames of the sender's limit.
  module _ (s : ReadStream fl.State) (limit : ℕ) (rest : List Arrival)
      (fits : limit ≤ size_or_default s.config.max_frame_size) (in_64_bits : limit < 2 ^ 64) where
    pub data_Acceptable :
        (fin : Bool) (op : OpCode) (payload : List ℕ)
        → is_control op ≡ false
        → IsBytes payload
        → length payload ≤ limit
        → Acceptable
            (deflate_enabled s.config)
            (size_or_default s.config.max_frame_size)
            (new_frame fin op payload false)
            false
    data_Acceptable fin op payload d b h = record {
      are_bytes = b;
      fits = omega arith;
      in_64_bits = omega arith;
      rsv1_allowed = λ e. cc;
      control_whole = λ e. cc;
      control_short = λ e. absurd (cc);
    }

    pub read_step :
        (x : ReadStream fl.State) (fin : Bool) (op : OpCode) (payload : List ℕ) (mask : Mask)
        (out behind : List ℕ)
        → x.config ≡ s.config
        → IsMask mask
        → out ≡ encode_by kind mask (new_frame fin op payload false) false ++ behind
        → is_control op ≡ false
        → IsBytes payload
        → length payload ≤ limit
        → read_frame fl rounds (at_source x (bytes out ++ rest))
          ≡ (ok (new_frame fin op payload false), at_source x (bytes behind ++ rest))
    read_step x fin op payload mask out behind same m e d b h =
        encoded_step x rest (new_frame fin op payload false) mask out behind m e
          (rw same (data_Acceptable fin op payload d b h))
