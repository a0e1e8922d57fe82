-- ===== src/Server/Stories.antt =====
-- What the user of src/server.rs is told of each connection, in whatever order the tasks run.
use socket_flow.Prelude.{◌≡◌, refl, false, Option, none, some, List, [], ◌∷◌, All, ◌==◌}
use socket_flow.Error.{Outcome}
use socket_flow.Reader.{Delivery}
use socket_flow.Event.{Uuid}
use socket_flow.Server.{
  Task, Server, Action, arrives, runs, takes, drops, run_task, act, run, started,
}
use socket_flow.Server.Told.{events_of, left, Arrived, here, there, nothing, Told, Told-drop}
use socket_flow.Server.Turns.{Kept, Unused, send_from-Kept, accept_next-Kept}
use socket_flow.Server.Cases.{arrives_cases, runs_cases, takes_cases}
use socket_flow.Server.Unused.{IsOther, act-Unused}

-- No ID is drawn twice.
abbrev pub IsFresh : List Uuid → Type 0
IsFresh [] = Unit
IsFresh (uuid ∷ later) = All (λ other. (other == uuid) ≡ false) later × IsFresh later

every : (ids : List Uuid) → All {0, 0} (λ other. Unit) ids
every [] = tt
every (uuid ∷ ids) = (tt, every ids)

all-Unused : (W : Type 0) (ids : List Uuid) → All (Unused (started {W = W})) ids
all-Unused W [] = tt
all-Unused W (uuid ∷ ids) =
    (record { untold = unfold events_of in refl; no_task = refl }, all-Unused W ids)

module _ {W : Type 0} where
  -- The IDs of the attempts, in their order.
  abbrev pub arrivals : List (Action W) → List Uuid
  arrivals [] = []
  arrivals (arrives uuid o ds ∷ later) = uuid ∷ arrivals later
  arrivals (_ ∷ later) = arrivals later

  run_task-Kept :
      (all : List (Action W)) (uuid : Uuid) (t : Option Task) (s : Server W)
      → s.tasks uuid ≡ t
      → Kept all s
      → Kept all (run_task uuid t s)
  unfolding run_task
  run_task-Kept all uuid none s at k = k
  run_task-Kept all uuid (some t) s at k = send_from-Kept all s.events.is_closed uuid t s refl at k

  -- What is asked of the IDs that an action draws.
  abbrev Draws : List (Action W) → Server W → Action W → Type 0
  Draws all s (arrives uuid o ds) = Arrived uuid o ds all × Unused s uuid
  Draws all s _ = Unit

  act-Kept :
      (all : List (Action W)) (a : Action W) (s : Server W)
      → Draws all s a
      → Kept all s
      → Kept all (act a s)
  act-Kept all (arrives uuid o ds) s d k =
      arrives_cases (Kept all) s k uuid o ds λ ready. accept_next-Kept all uuid o ds s d.0 d.1 k
  act-Kept all (runs uuid) s d k =
      runs_cases (Kept all) s k uuid λ ready. run_task-Kept all uuid (s.tasks uuid) s refl k
  act-Kept all takes s d k = takes_cases (Kept all) s k λ some_left. unfold Kept in k
  act-Kept all drops s d k =
      unfold act Kept in
      λ uuid. Told-drop all uuid s.events.is_closed s.events.sent (s.tasks uuid) (k uuid)

  All-act-Unused :
      (a : Action W) (ids : List Uuid) (s : Server W)
      → All (λ other. IsOther other a) ids
      → All (Unused s) ids
      → All (Unused (act a s)) ids
  All-act-Unused a [] s h u = tt
  All-act-Unused a (other ∷ ids) s h u =
      (act-Unused a other s h.0 u.0, All-act-Unused a ids s h.1 u.1)

  run_from :
      (all acts : List (Action W)) (s : Server W)
      → ((uuid : Uuid) (o : Outcome W) (ds : List Delivery)
          → Arrived uuid o ds acts
          → Arrived uuid o ds all)
      → IsFresh (arrivals acts)
      → All (Unused s) (arrivals acts)
      → Kept all s
      → Kept all (run acts s)
  unfolding run
  run_from all [] s sub fresh unused k = k
  run_from all (arrives uuid o ds ∷ later) s sub fresh unused k =
      run_from all later (act (arrives uuid o ds) s) (λ v p es at. sub v p es (there _ later at))
        fresh.1 (All-act-Unused (arrives uuid o ds) (arrivals later) s fresh.0 unused.1)
        (act-Kept all (arrives uuid o ds) s (sub uuid o ds (here later), unused.0) k)
  run_from all (runs uuid ∷ later) s sub fresh unused k =
      run_from all later (act (runs uuid) s) (λ v p es at. sub v p es (there _ later at)) fresh
        (All-act-Unused (runs uuid) (arrivals later) s (every (arrivals later)) unused)
        (act-Kept all (runs uuid) s tt k)
  run_from all (takes ∷ later) s sub fresh unused k =
      run_from all later (act takes s) (λ v p es at. sub v p es (there _ later at)) fresh
        (All-act-Unused takes (arrivals later) s (every (arrivals later)) unused)
        (act-Kept all takes s tt k)
  run_from all (drops ∷ later) s sub fresh unused k =
      run_from all later (act drops s) (λ v p es at. sub v p es (there _ later at)) fresh
        (All-act-Unused drops (arrivals later) s (every (arrivals later)) unused)
        (act-Kept all drops s tt k)

  Kept-started : (all : List (Action W)) → Kept all started
  unfolding Kept Told events_of left
  Kept-started all = λ other. nothing

  -- Let no ID be drawn twice. Whatever the order in which connections arrive, tasks run and events
  -- are taken, of each ID the user is told, with what its task has still to tell: nothing; or one
  -- error, where an attempt with that ID has failed; or of an attempt that succeeded the new
  -- client, the messages that its reader yields in their order, up to the first error, and that
  -- one, and at the end that the client is gone. When the stream was dropped, what was told is the
  -- beginning of that.
  pub run-Told :
      (acts : List (Action W)) (uuid : Uuid)
      → IsFresh (arrivals acts)
      → (let s = run acts started in Told acts uuid s.events.is_closed s.events.sent (s.tasks uuid))
  unfolding Kept
  run-Told acts uuid fresh =
      run_from acts acts started (λ v p es at. at) fresh (all-Unused W (arrivals acts))
        (Kept-started acts) uuid
