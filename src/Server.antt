-- ===== src/Server.antt =====
-- src/server.rs: the loop that accepts connections, a task for each of them, and the order in which
-- they may run: any, as a list of actions. A task or the loop that has to wait for room in the
-- channel of events does nothing when it is its turn; TLS is a parameter.
pub mod Told
pub mod Turns
pub mod Cases
pub mod Unused
pub mod Stories
use socket_flow.Prelude.{
  ℕ, zero, suc, ◌+◌, Bool, true, false, not, Option, none, some, List, [], ◌∷◌, ◌++◌, ◌==◌,
  if◌then◌else◌,
}
use socket_flow.Error.{Error, Outcome, ok, err, panic, hang, waits, ◌>>=◌}
use socket_flow.Config.{WebSocketConfig, ServerConfig, server_config_or_default}
use socket_flow.Message.{Message}
use socket_flow.Text.{Text}
use socket_flow.Utils.{Digest}
use socket_flow.Flate.{Inflate, Deflate}
use socket_flow.Reader.{Delivery, message, failure}
use socket_flow.WsWriter.{WsWriter}
use socket_flow.Handshake.{Socket}
use socket_flow.Connection.{Connection}
use socket_flow.Establish.{accept_async_with_config}
use socket_flow.Event.{
  Uuid, Event, new_client, new_message, disconnect, error, Events, is_ready, push, poll_recv,
}

-- The task of a connection: in its loop, with what its reader is still to yield, or behind it.
pub data Task : Type 0 where
  listening : List Delivery → Task
  leaving : Task

module _ {W : Type 0} where
  -- What a task sends when it next goes on.
  unfoldable pub task_sends : Uuid → Task → Event W
  task_sends uuid (listening []) = disconnect uuid
  task_sends uuid (listening (message m ∷ ds)) = new_message uuid m
  task_sends uuid (listening (failure e ∷ ds)) = error uuid e
  task_sends uuid leaving = disconnect uuid

-- What becomes of it then.
unfoldable pub task_after : Task → Option Task
task_after (listening []) = none
task_after (listening (message m ∷ ds)) = some (listening ds)
task_after (listening (failure e ∷ ds)) = some leaving
task_after leaving = none

abbrev pub Tasks : Type 0
Tasks = Uuid → Option Task

unfoldable pub put : Uuid → Option Task → Tasks → Tasks
put uuid t tasks other = if other == uuid then t else tasks other

pub record Server (W : Type 0) : Type 0 where
  pub events : Events W
  pub tasks : Tasks
  pub is_accepting : Bool

-- One turn: of the loop, with the outcome of a connection attempt and what the reader of the
-- connection will yield; of a task; of the user, who takes an event or drops the stream.
pub data Action (W : Type 0) : Type 0 where
  arrives : Uuid → Outcome W → List Delivery → Action W
  runs : Uuid → Action W
  takes : Action W
  drops : Action W

module _ {W : Type 0} where
  -- The loop sends, and may have a task to spawn: `unwrap()` panics where the receiver is gone.
  unfoldable pub loop_sends : Bool → Event W → Tasks → Server W → Server W
  loop_sends true e spawned s = record s { is_accepting = false }
  loop_sends false e spawned s = record s { events = push e s.events; tasks = spawned }

  -- A turn of the loop of `start_server_with_config`. Where the handshake does not come back, or
  -- panics, the loop is gone.
  unfoldable pub accept_next : Uuid → Outcome W → List Delivery → Server W → Server W
  accept_next uuid (ok w) ds s =
      loop_sends s.events.is_closed (new_client uuid w) (put uuid (some (listening ds)) s.tasks) s
  accept_next uuid (err e) ds s = loop_sends s.events.is_closed (error uuid e) s.tasks s
  accept_next uuid panic ds s = record s { is_accepting = false }
  accept_next uuid hang ds s = record s { is_accepting = false }
  accept_next uuid waits ds s = record s { is_accepting = false }

  -- A task sends: without a receiver it is gone, by `unwrap()` or as it does not look whether its
  -- last event went out.
  unfoldable pub send_from : Bool → Uuid → Task → Server W → Server W
  send_from true uuid t s = record s { tasks = put uuid none s.tasks }
  send_from false uuid t s = record s {
    events = push (task_sends uuid t) s.events;
    tasks = put uuid (task_after t) s.tasks;
  }

  -- A turn of the task of a connection.
  unfoldable pub run_task : Uuid → Option Task → Server W → Server W
  run_task uuid none s = s
  run_task uuid (some t) s = send_from s.events.is_closed uuid t s

  unfoldable pub act : Action W → Server W → Server W
  act (arrives uuid outcome ds) s =
      if s.is_accepting then (if is_ready s.events then accept_next uuid outcome ds s else s) else s
  act (runs uuid) s = if is_ready s.events then run_task uuid (s.tasks uuid) s else s
  act takes s = record s { events = poll_recv s.events }
  act drops s = record s { events = record s.events { is_closed = true } }

  unfoldable pub run : List (Action W) → Server W → Server W
  run [] s = s
  run (a ∷ later) s = run later (act a s)

  abbrev pub started : Server W
  started = record {
    events = record { sent = []; taken = 0; is_closed = false };
    tasks = λ uuid. none;
    is_accepting = true;
  }

-- What a turn of the loop does with a stream, or with the error of the listener.
module _ (fl : Inflate) (de : Deflate) (unicode : Text → Text) (digest : Digest) {T : Type 0}
    (tls_accept : T → Socket → Outcome Socket) where
  unfoldable pub secure_stream : Option T → Socket → Outcome Socket
  secure_stream none stream = ok stream
  secure_stream (some config) stream = tls_accept config stream

  unfoldable pub establish :
      Option (ServerConfig T) → Outcome Socket → Outcome (Connection fl.State de.State)
  establish given accepted = do
    let config = server_config_or_default given
    stream ← accepted
    socket ← secure_stream config.tls_config stream
    (accept_async_with_config fl de unicode digest config.web_socket_config socket).0

  -- The writer that the user gets with the event of a new client.
  unfoldable pub hand_over : Outcome (Connection fl.State de.State) → Outcome (WsWriter de.State)
  hand_over r = do c ← r; ok c.writer
