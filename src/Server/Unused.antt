-- ===== src/Server/Unused.antt =====
-- An ID of src/server.rs that was not drawn: no turn of another one touches it.
use socket_flow.Prelude.{
  ◌≡◌, refl, ◌∙◌, inl, inr, Bool, true, false, Option, none, some, List, ◌==◌, ==_iff, Bool-cases,
  arith,
}
use socket_flow.Error.{Outcome, ok, err, panic, hang, waits}
use socket_flow.Reader.{Delivery}
use socket_flow.Event.{Uuid, Event, new_client, error}
use socket_flow.Server.{
  Task, listening, task_sends, task_after, send_from, put, Server, Tasks, Action, arrives, runs,
  takes, drops, loop_sends, accept_next, run_task, act,
}
use socket_flow.Server.Told.{id_of, push_other, same_id, id_of-task_sends}
use socket_flow.Server.Turns.{Unused, put_other}
use socket_flow.Server.Cases.{arrives_cases, runs_cases, takes_cases}

module _ {W : Type 0} where
  loop_sends-Unused :
      (b : Bool) (uuid other : Uuid) (e : Event W) (after : Tasks) (s : Server W)
      → (other == uuid) ≡ false
      → (id_of e == uuid) ≡ true
      → after other ≡ s.tasks other
      → Unused s other
      → Unused (loop_sends b e after s) other
  unfolding loop_sends
  loop_sends-Unused true uuid other e after s differ mine same u = record {
    untold = u.untold;
    no_task = u.no_task;
  }
  loop_sends-Unused false uuid other e after s differ mine same u = record {
    untold = push_other other s.events.sent e (ground (arith, mine)) ∙ u.untold;
    no_task = same ∙ u.no_task;
  }

  accept_next-Unused :
      (uuid other : Uuid) (o : Outcome W) (ds : List Delivery) (s : Server W)
      → (other == uuid) ≡ false
      → Unused s other
      → Unused (accept_next uuid o ds s) other
  unfolding accept_next
  accept_next-Unused uuid other (ok w) ds s differ u =
      loop_sends-Unused s.events.is_closed uuid other (new_client uuid w)
        (put uuid (some (listening ds)) s.tasks) s differ (unfold id_of in same_id uuid)
        (put_other uuid other (some (listening ds)) s.tasks differ) u
  accept_next-Unused uuid other (err e) ds s differ u =
      loop_sends-Unused s.events.is_closed uuid other (error uuid e) s.tasks s differ
        (unfold id_of in same_id uuid) refl u
  accept_next-Unused uuid other panic ds s differ u = record {
    untold = u.untold;
    no_task = u.no_task;
  }
  accept_next-Unused uuid other hang ds s differ u = record {
    untold = u.untold;
    no_task = u.no_task;
  }
  accept_next-Unused uuid other waits ds s differ u = record {
    untold = u.untold;
    no_task = u.no_task;
  }

  send_from-Unused :
      (b : Bool) (uuid other : Uuid) (t : Task) (s : Server W)
      → (other == uuid) ≡ false
      → Unused s other
      → Unused (send_from b uuid t s) other
  unfolding send_from
  send_from-Unused true uuid other t s differ u = record {
    untold = u.untold;
    no_task = put_other uuid other none s.tasks differ ∙ u.no_task;
  }
  send_from-Unused false uuid other t s differ u = record {
    untold =
        push_other other s.events.sent (task_sends uuid t)
          (ground (arith, id_of-task_sends W uuid t))
        ∙ u.untold;
    no_task = put_other uuid other (task_after t) s.tasks differ ∙ u.no_task;
  }

  run_task-Unused :
      (uuid other : Uuid) (t : Option Task) (s : Server W)
      → s.tasks uuid ≡ t
      → Unused s other
      → Unused (run_task uuid t s) other
  unfolding run_task
  run_task-Unused uuid other none s at u = u
  run_task-Unused uuid other (some t) s at u = elim (Bool-cases (other == uuid)) [
    | inl same ↦
        absurd (let e : other ≡ uuid = (==_iff other uuid).0 same in let free = u.no_task in cc)
    | inr differ ↦ send_from-Unused s.events.is_closed uuid other t s differ u
  ]

  -- What an action does not draw stays unused.
  abbrev pub IsOther : Uuid → Action W → Type 0
  IsOther other (arrives uuid o ds) = (other == uuid) ≡ false
  IsOther other _ = Unit

  pub act-Unused :
      (a : Action W) (other : Uuid) (s : Server W)
      → IsOther other a
      → Unused s other
      → Unused (act a s) other
  act-Unused (arrives uuid o ds) other s differ u =
      arrives_cases (λ t. Unused t other) s u uuid o ds
        λ ready. accept_next-Unused uuid other o ds s differ u
  act-Unused (runs uuid) other s differ u =
      runs_cases (λ t. Unused t other) s u uuid
        λ ready. run_task-Unused uuid other (s.tasks uuid) s refl u
  act-Unused takes other s differ u =
      takes_cases (λ t. Unused t other) s u
        λ some_left. record { untold = u.untold; no_task = u.no_task }
  act-Unused drops other s differ u =
      unfold act in record { untold = u.untold; no_task = u.no_task }
