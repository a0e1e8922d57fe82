-- ===== src/Server/Told.antt =====
-- The events of one connection of src/server.rs, and the stories that they may make up.
use socket_flow.Prelude.{
  ◌≡◌, refl, sym, ap, subst, ◌∙◌, inl, inr, Bool, true, false, Option, none, some, List, [], ◌∷◌,
  ◌++◌, append-nil, append_assoc, ◌==◌, ==_iff, if◌then◌else◌, Bool-cases,
}
use socket_flow.Error.{Error, Outcome, ok, err}
use socket_flow.Reader.{Delivery, message, failure}
use socket_flow.Event.{Uuid, Event, new_client, new_message, disconnect, error}
use socket_flow.Server.{Task, listening, leaving, task_sends, task_after, Action, arrives}

module _ {W : Type 0} where
  unfoldable pub id_of : Event W → Uuid
  id_of (new_client uuid w) = uuid
  id_of (new_message uuid m) = uuid
  id_of (disconnect uuid) = uuid
  id_of (error uuid e) = uuid

  -- The events of one connection, in their order.
  unfoldable pub events_of : Uuid → List (Event W) → List (Event W)
  events_of uuid [] = []
  events_of uuid (e ∷ es) =
      let rest = events_of uuid es in if id_of e == uuid then e ∷ rest else rest

  -- What the task of a connection tells, of what its reader yields: each message, up to the first
  -- error, and at the end that it is gone.
  unfoldable pub told : Uuid → List Delivery → List (Event W)
  told uuid [] = disconnect uuid ∷ []
  told uuid (message m ∷ ds) = new_message uuid m ∷ told uuid ds
  told uuid (failure e ∷ ds) = error uuid e ∷ disconnect uuid ∷ []

  -- What a task has still to tell.
  unfoldable pub left : Uuid → Option Task → List (Event W)
  left uuid none = []
  left uuid (some (listening ds)) = told uuid ds
  left uuid (some leaving) = disconnect uuid ∷ []

  -- A connection attempt is among the actions.
  pub data Arrived (uuid : Uuid) (o : Outcome W) (ds : List Delivery)
      : List (Action W) → Type 0 where
    here : (later : List (Action W)) → Arrived uuid o ds (arrives uuid o ds ∷ later)
    there :
        (a : Action W) (later : List (Action W))
        → Arrived uuid o ds later
        → Arrived uuid o ds (a ∷ later)

  -- All that is told of an ID: nothing, or that an attempt failed, or the whole of a connection.
  pub data Story (all : List (Action W)) (uuid : Uuid) : List (Event W) → Type 0 where
    nothing : Story all uuid []
    refused :
        (e : Error) (ds : List Delivery)
        → Arrived uuid (err e) ds all
        → Story all uuid (error uuid e ∷ [])
    served :
        (w : W) (ds : List Delivery)
        → Arrived uuid (ok w) ds all
        → Story all uuid (new_client uuid w ∷ told uuid ds)

  -- With the receiver there, what was told and what is left to tell are a story; without it, what
  -- was told is the beginning of one.
  unfoldable pub Told : List (Action W) → Uuid → Bool → List (Event W) → Option Task → Type 0
  Told all uuid true sent t = (more : List (Event W)) × Story all uuid (events_of uuid sent ++ more)
  Told all uuid false sent t = Story all uuid (events_of uuid sent ++ left uuid t)

  pub events_of-append :
      (uuid : Uuid) (es fs : List (Event W))
      → events_of uuid (es ++ fs) ≡ events_of uuid es ++ events_of uuid fs
  unfolding events_of
  events_of-append uuid [] fs = refl
  events_of-append uuid (e ∷ es) fs = elim (Bool-cases (id_of e == uuid)) [
    | inl same ↦ rw (events_of, same, events_of-append uuid es fs) refl
    | inr other ↦ rw (events_of, other, events_of-append uuid es fs) refl
  ]

  pub events_of_one :
      (uuid : Uuid) (e : Event W) → (id_of e == uuid) ≡ true → events_of uuid (e ∷ []) ≡ e ∷ []
  unfolding events_of
  events_of_one uuid e h = rw h refl

  pub events_of_none :
      (uuid : Uuid) (e : Event W) → (id_of e == uuid) ≡ false → events_of uuid (e ∷ []) ≡ []
  unfolding events_of
  events_of_none uuid e h = rw h refl

  left-task_sends :
      (uuid : Uuid) (t : Task) → left uuid (some t) ≡ task_sends uuid t ∷ left uuid (task_after t)
  unfolding left task_sends task_after told
  left-task_sends uuid (listening []) = refl
  left-task_sends uuid (listening (message m ∷ ds)) = refl
  left-task_sends uuid (listening (failure e ∷ ds)) = refl
  left-task_sends uuid leaving = refl

pub same_id : (uuid : Uuid) → (uuid == uuid) ≡ true
same_id uuid = (==_iff uuid uuid).1 refl

pub id_of-task_sends :
    (W : Type 0) (uuid : Uuid) (t : Task) → (id_of (task_sends {W = W} uuid t) == uuid) ≡ true
unfolding id_of task_sends
id_of-task_sends W uuid (listening []) = same_id uuid
id_of-task_sends W uuid (listening (message m ∷ ds)) = same_id uuid
id_of-task_sends W uuid (listening (failure e ∷ ds)) = same_id uuid
id_of-task_sends W uuid leaving = same_id uuid

module _ {W : Type 0} where
  -- An event that is another's changes nothing.
  pub push_other :
      (uuid : Uuid) (sent : List (Event W)) (e : Event W)
      → (id_of e == uuid) ≡ false
      → events_of uuid (sent ++ (e ∷ [])) ≡ events_of uuid sent
  push_other uuid sent e h =
      events_of-append uuid sent (e ∷ [])
      ∙ ap (λ r. events_of uuid sent ++ r) (events_of_none uuid e h)
      ∙ append-nil (events_of uuid sent)

  -- An event of one's own task comes off what is left.
  pub push_own :
      (uuid : Uuid) (sent : List (Event W)) (t : Task)
      → events_of uuid (sent ++ (task_sends uuid t ∷ [])) ++ left uuid (task_after t)
        ≡ events_of uuid sent ++ left uuid (some t)
  push_own uuid sent t =
      let e = task_sends uuid t in
      ap (λ r. r ++ left uuid (task_after t))
        (events_of-append uuid sent (e ∷ [])
          ∙ ap (λ r. events_of uuid sent ++ r) (events_of_one uuid e (id_of-task_sends W uuid t)))
      ∙ append_assoc (events_of uuid sent) (e ∷ []) (left uuid (task_after t))
      ∙ ap (λ r. events_of uuid sent ++ r) (sym (left-task_sends uuid t))

  pub Told-closed :
      (all : List (Action W)) (uuid : Uuid) (b : Bool) (sent : List (Event W)) (t u : Option Task)
      → b ≡ true
      → Told all uuid b sent t
      → Told all uuid b sent u
  unfolding Told
  Told-closed all uuid true sent t u e h = h
  Told-closed all uuid false sent t u e h = absurd (cc)

  pub Told-open :
      (all : List (Action W)) (uuid : Uuid) (b : Bool) (sent more : List (Event W))
      (t u : Option Task)
      → b ≡ false
      → events_of uuid more ++ left uuid u ≡ events_of uuid sent ++ left uuid t
      → Told all uuid b sent t
      → Told all uuid b more u
  unfolding Told
  Told-open all uuid true sent more t u e same h = absurd (cc)
  Told-open all uuid false sent more t u e same h = subst (Story all uuid) (sym same) h

  pub Told-start :
      (all : List (Action W)) (uuid : Uuid) (b : Bool) (sent : List (Event W)) (u : Option Task)
      → b ≡ false
      → Story all uuid (events_of uuid sent ++ left uuid u)
      → Told all uuid b sent u
  unfolding Told
  Told-start all uuid true sent u e h = absurd (cc)
  Told-start all uuid false sent u e h = h

  pub Told-drop :
      (all : List (Action W)) (uuid : Uuid) (b : Bool) (sent : List (Event W)) (t : Option Task)
      → Told all uuid b sent t
      → Told all uuid true sent t
  unfolding Told
  Told-drop all uuid true sent t h = h
  Told-drop all uuid false sent t h = (left uuid t, h)
