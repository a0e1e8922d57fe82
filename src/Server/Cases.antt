-- ===== src/Server/Cases.antt =====
-- A turn of src/server.rs by what it comes to: what holds where nothing was done, and where
-- something was, holds behind it.
use socket_flow.Prelude.{
  ◌+◌, Bool, refl, ◌≡◌, ◌<◌, ltb, true, false, List, length, if◌then◌else◌, ltb→lt,
}
use socket_flow.Error.{Outcome}
use socket_flow.Reader.{Delivery}
use socket_flow.Event.{Uuid, is_ready, poll_recv}
use socket_flow.Server.{Server, arrives, runs, takes, accept_next, run_task, act}

if_cases :
    {S : Type 0} (P : S → Type 0) (b : Bool) (x y : S)
    → (b ≡ true → P x)
    → (b ≡ false → P y)
    → P (if b then x else y)
if_cases P true x y h k = h refl
if_cases P false x y h k = k refl

module _ {W : Type 0} (P : Server W → Type 0) (s : Server W) (unchanged : P s) where
  pub arrives_cases :
      (uuid : Uuid) (o : Outcome W) (ds : List Delivery)
      → (is_ready s.events ≡ true → P (accept_next uuid o ds s))
      → P (act (arrives uuid o ds) s)
  unfolding act
  arrives_cases uuid o ds h =
      if_cases P s.is_accepting _ s
        (λ on. if_cases P (is_ready s.events) (accept_next uuid o ds s) s h (λ full. unchanged))
        λ off. unchanged

  pub runs_cases :
      (uuid : Uuid)
      → (is_ready s.events ≡ true → P (run_task uuid (s.tasks uuid) s))
      → P (act (runs uuid) s)
  unfolding act
  runs_cases uuid h =
      if_cases P (is_ready s.events) (run_task uuid (s.tasks uuid) s) s h λ full. unchanged

  pub takes_cases :
      (s.events.taken < length s.events.sent
        → P (record s { events = record s.events { taken = s.events.taken + 1 } }))
      → P (act takes s)
  unfolding act poll_recv
  takes_cases h =
      if_cases (λ events. P (record s { events = events }))
        (ltb s.events.taken (length s.events.sent)) _ s.events
        (λ some_left. h (ltb→lt _ _ some_left)) λ none_left. unchanged
