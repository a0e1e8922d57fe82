-- ===== src/Reader/Deliveries.antt =====
-- What goes into the channel of received messages in src/read.rs.
use socket_flow.Prelude.{ltb, length, ◌+◌, if◌then◌else◌, ℕ, List, [], ◌∷◌, ltb, length}
use socket_flow.Error.{Outcome, err}
use socket_flow.Run.{Run}
use socket_flow.Header.{Header}
use socket_flow.Frame.{Frame}
use socket_flow.Flate.{Inflate}
use socket_flow.Reader.{capacity, Channel, Reader, Delivery, failure}

module _ (fl : Inflate) (rounds : ℕ) where
  -- The failure that the task reports of how the loop ended, where the channel is open and has
  -- room.
  abbrev pub reported : Outcome (Unit {0}) → Channel → List Delivery
  reported (err e) c =
      if c.is_closed
      then []
      else if ltb (length c.sent) (capacity + c.taken)
      then failure e ∷ []
      else []
  reported _ _ = []
