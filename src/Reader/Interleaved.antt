-- ===== src/Reader/Interleaved.antt =====
-- How the frames of a message are put together in src/read.rs, with control frames among them.
use socket_flow.Prelude.{
  ℕ, ◌*◌, ◌≤◌, ◌<◌, ◌^◌, ◌≡◌, refl, sym, ap, ◌∙◌, true, false, List, [], ◌++◌, append_assoc, length,
  length-append, ◌⊎◌, IsBytes, IsByte, All-append_inv, arith,
}
use socket_flow.Error.{ok}
use socket_flow.Config.{size_or_default}
use socket_flow.Frame.{OpCode, Frame, new_frame, is_control}
use socket_flow.Message.{Message, from_frame}
use socket_flow.Flate.{Inflate}
use socket_flow.Writer.{Writer, WriterKind}
use socket_flow.Source.{Arrival, bytes}
use socket_flow.Reader.{HasRoom, ReadStream}
use socket_flow.Reader.Steps.{Steps, next}
use socket_flow.Reader.Parts.{
  holding, idle, delivered, part, data_op, handle_begin, handle_further, handle_final, handle_whole,
  read_step,
}
use socket_flow.Reader.Pings.{Mixed, answered, answered-OnWire, pongs}
use socket_flow.Reader.Controls.{with_writer, controls_Steps, data_Ahead}
use socket_flow.WsWriter.Frames.{Fragments, final, further}
use socket_flow.WsWriter.Wire.{OnWire}

module _ (fl : Inflate) (rounds : ℕ) (kind : WriterKind) (rest : List Arrival)
    (s : ReadStream fl.State) (limit : ℕ) (op : OpCode) (m : Message)
    (frames_fit : limit ≤ size_or_default s.config.max_frame_size) (in_64_bits : limit < 2 ^ 64)
    (open_end : HasRoom s.read_tx) where
  -- The reader with the message in its channel and the pings answered.
  abbrev ended : Writer → ReadStream fl.State
  ended w = delivered (idle (with_writer s w) rest) m

  abbrev inside : Writer → List ℕ → List ℕ → ReadStream fl.State
  inside w before out =
      holding (with_writer s w) (part fl rounds kind s op before) (bytes out ++ rest)

  abbrev Among : List Frame → List (List ℕ) → List ℕ → Type 0
  Among = Mixed (size_or_default s.config.max_frame_size) kind

  -- The frames behind the first.
  further_Mixed :
      (w : Writer) (before whole : List ℕ) (frames : List Frame) (pings : List (List ℕ))
      (out : List ℕ)
      → Fragments limit false OpCode.continue whole frames
      → Among frames pings out
      → 139 * length pings ≤ w.room
      → IsBytes whole
      → length (before ++ whole) ≤ size_or_default s.config.max_message_size
      → from_frame (new_frame true op (before ++ whole) false) ≡ ok m
      → (n : ℕ) × Steps fl rounds n (inside w before out) (ended (answered pings w))
  further_Mixed w before whole frames pings out (final o wh h) mixed room bs l fm =
      let x = inside w before [] in
      let a = data_Ahead fl rounds kind rest x w _ _ pings out room mixed in
      let s' = with_writer s a.writer in
      let (n, steps) =
        controls_Steps fl rounds kind rest (delivered (idle s' []) m) a.writer a.later a.behind
          a.room a.mixed in
      rw (sym a.same_answers) (
        a.resume (
          next n (inside a.writer before a.here_on) (inside a.writer before a.behind)
            (delivered (idle s' (bytes a.behind ++ rest)) m) (ended (answered a.later a.writer))
            (new_frame true OpCode.continue whole false)
            (read_step fl rounds kind s limit rest frames_fit in_64_bits (inside a.writer before [])
              true OpCode.continue whole a.mask a.here_on a.behind refl a.are_mask a.begins
              (unfold is_control in refl) bs h)
            (handle_final fl rounds kind s' op before whole m (bytes a.behind ++ rest) l fm
              open_end)
            steps))
  further_Mixed w before whole frames pings out (further o wh chunk r fr e' p h frag) mixed room bs
        l fm =
      let a = data_Ahead fl rounds kind rest (inside w before []) w _ _ pings out room mixed in
      let joined : before ++ whole ≡ (before ++ chunk) ++ r =
        ap (λ v. before ++ v) e' ∙ sym (append_assoc before chunk r) in
      let (b1, b2) = All-append_inv IsByte chunk r (rw e' at bs) in
      let l' = rw joined at l in
      let (n, steps) =
        further_Mixed a.writer (before ++ chunk) r fr a.later a.behind frag a.mixed a.room b2 l'
          (rw joined at fm) in
      rw (sym a.same_answers) (
        a.resume (
          next n (inside a.writer before a.here_on) (inside a.writer before a.behind)
            (inside a.writer (before ++ chunk) a.behind) (ended (answered a.later a.writer))
            (new_frame false OpCode.continue chunk false)
            (read_step fl rounds kind s limit rest frames_fit in_64_bits (inside a.writer before [])
              false OpCode.continue chunk a.mask a.here_on a.behind refl a.are_mask a.begins
              (unfold is_control in refl) b1 h)
            (handle_further fl rounds kind (with_writer s a.writer) op before chunk
              (bytes a.behind ++ rest) (omega (arith, l', length-append {0} (before ++ chunk) r)))
            steps))

  message_Mixed :
      (w : Writer) (whole : List ℕ) (frames : List Frame) (pings : List (List ℕ)) (out : List ℕ)
      → (op ≡ OpCode.text) ⊎ (op ≡ OpCode.binary)
      → Fragments limit false op whole frames
      → Among frames pings out
      → 139 * length pings ≤ w.room
      → IsBytes whole
      → length whole ≤ size_or_default s.config.max_message_size
      → from_frame (new_frame true op whole false) ≡ ok m
      → (n : ℕ) × Steps fl rounds n
          (idle (with_writer s w) (bytes out ++ rest))
          (ended (answered pings w))
  message_Mixed w whole frames pings out d (final o wh h) mixed room bs l fm =
      let a = data_Ahead fl rounds kind rest (idle s []) w _ _ pings out room mixed in
      let s' = with_writer s a.writer in
      let (n, steps) =
        controls_Steps fl rounds kind rest (delivered (idle s' []) m) a.writer a.later a.behind
          a.room a.mixed in
      rw (sym a.same_answers) (
        a.resume (
          next n (idle s' (bytes a.here_on ++ rest)) (idle s' (bytes a.behind ++ rest))
            (delivered (idle s' (bytes a.behind ++ rest)) m) (ended (answered a.later a.writer))
            (new_frame true op whole false)
            (read_step fl rounds kind s limit rest frames_fit in_64_bits (idle s' []) true op whole
              a.mask a.here_on a.behind refl a.are_mask a.begins (data_op d) bs h)
            (handle_whole fl rounds kind s' op whole m (bytes a.behind ++ rest) d fm open_end)
            steps))
  message_Mixed w whole frames pings out d (further o wh chunk r fr e' p h frag) mixed room bs l
        fm =
      let a = data_Ahead fl rounds kind rest (idle s []) w _ _ pings out room mixed in
      let s' = with_writer s a.writer in
      let (b1, b2) = All-append_inv IsByte chunk r (rw e' at bs) in
      let (n, steps) =
        further_Mixed a.writer chunk r fr a.later a.behind frag a.mixed a.room b2 (rw e' at l)
          (rw e' at fm) in
      rw (sym a.same_answers) (
        a.resume (
          next n (idle s' (bytes a.here_on ++ rest)) (idle s' (bytes a.behind ++ rest))
            (inside a.writer chunk a.behind) (ended (answered a.later a.writer))
            (new_frame false op chunk false)
            (read_step fl rounds kind s limit rest frames_fit in_64_bits (idle s' []) false op chunk
              a.mask a.here_on a.behind refl a.are_mask a.begins (data_op d) b1 h)
            (handle_begin fl rounds kind s' op chunk (bytes a.behind ++ rest) d) steps))

  -- Frames that are a fragmentation of a message, with pings and pongs anywhere among them and none
  -- of them with RSV1: from their bytes, whatever arrives behind, a reader that is in no message
  -- gets in some rounds of its loop to the state that has the message in its channel, its writer
  -- behind the answers, and only the input behind left; and what the writer has put out is one pong
  -- for each ping, with its payload, in their order. The frames are within the receiver's frame
  -- limit, those of the message shorter than 2^64 and the others of 125 bytes at most; the message
  -- is within the receiver's message limit and as the opcode asks, the channel is open and has
  -- room, and there is room for 139 bytes for each ping.
  pub interleaved_Steps :
      (whole : List ℕ) (frames : List Frame) (pings : List (List ℕ)) (out : List ℕ)
      → (op ≡ OpCode.text) ⊎ (op ≡ OpCode.binary)
      → Fragments limit false op whole frames
      → Mixed (size_or_default s.config.max_frame_size) kind frames pings out
      → 139 * length pings ≤ s.writer.room
      → IsBytes whole
      → length whole ≤ size_or_default s.config.max_message_size
      → from_frame (new_frame true op whole false) ≡ ok m
      → (n : ℕ) × Steps fl rounds n
          (idle s (bytes out ++ rest))
          (delivered (idle (with_writer s (answered pings s.writer)) rest) m)
        × (replies : List ℕ) × OnWire s.writer.kind false (pongs pings) replies
        × ((answered pings s.writer).written ≡ s.writer.written ++ replies)
  interleaved_Steps whole frames pings out d frag mixed room bs l fm =
      let (n, steps) = message_Mixed s.writer whole frames pings out d frag mixed room bs l fm in
      let (replies, on, gone) = answered-OnWire s.writer mixed room in (n, steps, replies, on, gone)
