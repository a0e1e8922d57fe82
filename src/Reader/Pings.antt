-- ===== src/Reader/Pings.antt =====
-- Control frames among the frames of a message, on the wire: pings, which are answered at once, and
-- pongs. The peer's two halves share its writer, so that either may stand between any frames.
use socket_flow.Prelude.{
  ℕ, ◌+◌, ◌*◌, ◌≤◌, ◌≡◌, refl, sym, ap, ◌∙◌, true, false, List, [], ◌∷◌, ◌++◌, append-nil,
  append_assoc, length, IsBytes, arith,
}
use socket_flow.Error.{ok}
use socket_flow.Frame.{OpCode, Frame, new_frame}
use socket_flow.Writer.{Writer, WriterKind, Mask, next_mask, write_frame}
use socket_flow.Writer.Masking.{IsMask, next_mask-IsMask}
use socket_flow.Writer.Atomic.{write_frame-Wrote}
use socket_flow.Writer.Encoding.{encode_by}
use socket_flow.WsWriter.Wire.{OnWire, nothing, frame, frame_written}
use socket_flow.WsWriter.Sent.{write_frame_ok}

abbrev pub ping_of : List ℕ → Frame
ping_of p = new_frame true OpCode.ping p false

abbrev pub pong_of : List ℕ → Frame
pong_of p = new_frame true OpCode.pong p false

-- The bytes of some frames in a row, with pings and pongs anywhere among them.
pub data Mixed (most : ℕ) (kind : WriterKind) : List Frame → List (List ℕ) → List ℕ → Type 0 where
  over : Mixed most kind [] [] []
  data_next :
      (f : Frame) (fs : List Frame) (pings : List (List ℕ)) (mask : Mask) (out rest : List ℕ)
      → IsMask mask
      → out ≡ encode_by kind mask f false ++ rest
      → Mixed most kind fs pings rest
      → Mixed most kind (f ∷ fs) pings out
  ping_next :
      (p : List ℕ) (fs : List Frame) (pings : List (List ℕ)) (mask : Mask) (out rest : List ℕ)
      → IsMask mask
      → IsBytes p
      → length p ≤ 125
      → length p ≤ most
      → out ≡ encode_by kind mask (ping_of p) false ++ rest
      → Mixed most kind fs pings rest
      → Mixed most kind fs (p ∷ pings) out
  pong_next :
      (p : List ℕ) (fs : List Frame) (pings : List (List ℕ)) (mask : Mask) (out rest : List ℕ)
      → IsMask mask
      → IsBytes p
      → length p ≤ 125
      → length p ≤ most
      → out ≡ encode_by kind mask (pong_of p) false ++ rest
      → Mixed most kind fs pings rest
      → Mixed most kind fs pings out

-- The writer behind the answers to some pings.
abbrev pub ponged : List ℕ → Writer → Writer
ponged p w = (write_frame (pong_of p) false w).1

abbrev pub answered : List (List ℕ) → Writer → Writer
answered [] w = w
answered (p ∷ ps) w = answered ps (ponged p w)

abbrev pub pongs : List (List ℕ) → List Frame
pongs [] = []
pongs (p ∷ ps) = pong_of p ∷ pongs ps

-- A pong takes 139 bytes at most.
pub ponged_room :
    (p : List ℕ) (w : Writer) (n : ℕ)
    → length p ≤ 125
    → 139 + n ≤ w.room
    → ((write_frame (pong_of p) false w).0 ≡ ok tt) × (n ≤ (ponged p w).room)
ponged_room p w n short h =
    let (sent, room) = write_frame_ok (pong_of p) false w (omega arith) in (sent, omega arith)

pub answered-OnWire :
    {most : ℕ} {kind : WriterKind} {fs : List Frame} {pings : List (List ℕ)} {out : List ℕ}
    (w : Writer)
    → Mixed most kind fs pings out
    → 139 * length pings ≤ w.room
    → (replies : List ℕ) × OnWire w.kind false (pongs pings) replies
      × ((answered pings w).written ≡ w.written ++ replies)
answered-OnWire w over room = ([], nothing false, sym (append-nil w.written))
answered-OnWire w (data_next f fs pings mask out rest im e mixed) room =
    answered-OnWire w mixed room
answered-OnWire w (pong_next p fs pings mask out rest im b short fits e mixed) room =
    answered-OnWire w mixed room
answered-OnWire w (ping_next p fs pings mask out rest im b short fits e mixed) room =
    let (sent, left) = ponged_room p w (139 * length pings) short (omega arith) in
    let (replies, on, gone) = answered-OnWire (ponged p w) mixed left in
    let first = encode_by w.kind (next_mask w) (pong_of p) false in
    (
      first ++ replies,
      frame false (pong_of p) (pongs pings) (next_mask w) (first ++ replies) replies
          (next_mask-IsMask w) refl (rw (write_frame-Wrote (pong_of p) false w).kind at on),
      gone
          ∙ ap (λ r. r ++ replies) (frame_written (pong_of p) false w sent)
          ∙ append_assoc w.written first replies,
    )
