-- ===== src/Event.antt =====
-- src/event.rs: what a server tells its user, and the channel that it does so through. An ID is the
-- number of its 128 bits. `EventStream` takes from the channel and does nothing else.
use socket_flow.Prelude.{ℕ, ◌+◌, ◌-◌, Bool, List, [], ◌∷◌, ◌++◌, length, ltb, ◌||◌, if◌then◌else◌}
use socket_flow.Error.{Error}
use socket_flow.Message.{Message}

abbrev pub Uuid : Type 0
Uuid = ℕ

-- `W` is what the user writes to a client with.
pub data Event (W : Type 0) : Type 0 where
  new_client : Uuid → W → Event W
  new_message : Uuid → Message → Event W
  disconnect : Uuid → Event W
  error : Uuid → Error → Event W

-- `mpsc::channel(1000)`: how many events it holds before one of them is taken.
abbrev pub events_capacity : ℕ
events_capacity = 1000

-- The channel: what was sent, how much of it was taken, and whether its receiver is gone.
pub record Events (W : Type 0) : Type 0 where
  pub sent : List (Event W)
  pub taken : ℕ
  pub is_closed : Bool

module _ {W : Type 0} where
  -- A send on the channel comes back: there is room, or nobody to receive. Else it waits.
  unfoldable pub is_ready : Events W → Bool
  is_ready c = c.is_closed || ltb (length c.sent - c.taken) events_capacity

  abbrev pub push : Event W → Events W → Events W
  push e c = record c { sent = c.sent ++ (e ∷ []) }

  -- `poll_recv`, where something was sent.
  unfoldable pub poll_recv : Events W → Events W
  poll_recv c = if ltb c.taken (length c.sent) then record c { taken = c.taken + 1 } else c
