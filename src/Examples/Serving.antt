-- ===== src/Examples/Serving.antt =====
-- The properties of the server of events at a concrete order of its tasks.
use socket_flow.Prelude.{refl, List, [], ◌∷◌}
use socket_flow.Error.{ok, err, timeout}
use socket_flow.Message.{Message}
use socket_flow.Reader.{message, failure}
use socket_flow.Server.{Action, arrives, runs, takes, drops, run, started}
use socket_flow.Server.Told.{Told}
use socket_flow.Server.Stories.{run-Told}

-- Two clients and an attempt that fails, with their tasks in turn.
abbrev busy : List (Action Unit)
busy =
    arrives 7 (ok tt) (message (Message.binary (1 ∷ [])) ∷ failure timeout ∷ [])
    ∷ arrives 8 (err timeout) []
    ∷ runs 7
    ∷ arrives 9 (ok tt) []
    ∷ runs 9
    ∷ takes
    ∷ runs 7
    ∷ runs 7
    ∷ drops
    ∷ []

run-Told_example :
    Told busy 7
      (run busy started).events.is_closed
      (run busy started).events.sent
      ((run busy started).tasks 7)
run-Told_example = run-Told busy 7 ((refl, (refl, tt)), ((refl, tt), (tt, tt)))
