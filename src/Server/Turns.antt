-- ===== src/Server/Turns.antt =====
-- One turn of src/server.rs, as each ID sees it.
use socket_flow.Prelude.{
  ◌≡◌, refl, sym, ap, ap₂, subst, ◌∙◌, inl, inr, Bool, true, false, Option, none, some, List, [],
  ◌∷◌, ◌++◌, ◌==◌, ==_iff, Bool-cases, arith,
}
use socket_flow.Error.{Outcome, ok, err, panic, hang, waits}
use socket_flow.Reader.{Delivery}
use socket_flow.Event.{Uuid, Event, new_client, error}
use socket_flow.Server.{
  Task, listening, task_sends, task_after, send_from, Tasks, put, Server, Action, loop_sends,
  accept_next,
}
use socket_flow.Server.Told.{
  id_of, events_of, left, Arrived, Story, refused, served, Told, events_of-append, events_of_one,
  push_other, push_own, Told-closed, Told-open, Told-start, same_id, id_of-task_sends,
}

put_same : (uuid : Uuid) (t : Option Task) (tasks : Tasks) → put uuid t tasks uuid ≡ t
unfolding put
put_same uuid t tasks = rw (same_id uuid) refl

pub put_other :
    (uuid other : Uuid) (t : Option Task) (tasks : Tasks)
    → (other == uuid) ≡ false
    → put uuid t tasks other ≡ tasks other
unfolding put
put_other uuid other t tasks h = rw h refl

module _ {W : Type 0} where
  -- A task that sends, as every ID sees it.
  task_step :
      (uuid other : Uuid) (t : Task) (tasks : Tasks) (sent : List (Event W))
      → tasks uuid ≡ some t
      → events_of other (sent ++ (task_sends uuid t ∷ []))
          ++ left other (put uuid (task_after t) tasks other)
        ≡ events_of other sent ++ left other (tasks other)
  task_step uuid other t tasks sent at = elim (Bool-cases (other == uuid)) [
    | inl same ↦
        subst
          (λ o.
            events_of o (sent ++ (task_sends uuid t ∷ []))
              ++ left o (put uuid (task_after t) tasks o)
            ≡ events_of o sent ++ left o (tasks o))
          (sym ((==_iff other uuid).0 same))
          (ap (λ x. events_of uuid (sent ++ (task_sends uuid t ∷ [])) ++ left uuid x)
              (put_same uuid (task_after t) tasks)
            ∙ push_own uuid sent t
            ∙ ap (λ x. events_of uuid sent ++ left uuid x) (sym at))
    | inr differ ↦
        let not_mine : (id_of (task_sends uuid t) == other) ≡ false =
          ground (arith, id_of-task_sends W uuid t) in
        ap (λ x. events_of other (sent ++ (task_sends uuid t ∷ [])) ++ left other x)
          (put_other uuid other (task_after t) tasks differ)
        ∙ ap (λ x. x ++ left other (tasks other))
            (push_other other sent (task_sends uuid t) not_mine)
  ]

  -- What holds of a server, of each ID.
  unfoldable pub Kept : List (Action W) → Server W → Type 0
  Kept all s = (uuid : Uuid) → Told all uuid s.events.is_closed s.events.sent (s.tasks uuid)

  pub send_from-Kept :
      (all : List (Action W)) (b : Bool) (uuid : Uuid) (t : Task) (s : Server W)
      → s.events.is_closed ≡ b
      → s.tasks uuid ≡ some t
      → Kept all s
      → Kept all (send_from b uuid t s)
  unfolding Kept send_from put
  send_from-Kept all true uuid t s c at k =
      λ other. Told-closed all other s.events.is_closed s.events.sent (s.tasks other) _ c (k other)
  send_from-Kept all false uuid t s c at k = λ other.
      Told-open all other s.events.is_closed s.events.sent _ (s.tasks other) _ c
        (task_step uuid other t s.tasks s.events.sent at) (k other)

  -- An ID that nothing was told of yet.
  pub record Unused (s : Server W) (uuid : Uuid) : Type 0 where
    pub untold : events_of uuid s.events.sent ≡ []
    pub no_task : s.tasks uuid ≡ none

  -- The loop sends the first event of an ID, and may have a task for it.
  loop_step :
      (all : List (Action W)) (uuid other : Uuid) (e : Event W) (after : Tasks) (s : Server W)
      → (id_of e == uuid) ≡ true
      → Unused s uuid
      → ((o : Uuid) → (o == uuid) ≡ false → after o ≡ s.tasks o)
      → Story all uuid (e ∷ left uuid (after uuid))
      → s.events.is_closed ≡ false
      → Told all other s.events.is_closed s.events.sent (s.tasks other)
      → Told all other s.events.is_closed (s.events.sent ++ (e ∷ [])) (after other)
  loop_step all uuid other e after s mine unused elsewhere story c so_far =
      elim (Bool-cases (other == uuid)) [
        | inl same ↦
            let begun : events_of uuid (s.events.sent ++ (e ∷ [])) ≡ e ∷ [] =
              events_of-append uuid s.events.sent (e ∷ [])
              ∙ ap₂ (λ x y. x ++ y) unused.untold (events_of_one uuid e mine) in
            subst (λ o. Told all o s.events.is_closed (s.events.sent ++ (e ∷ [])) (after o))
              (sym ((==_iff other uuid).0 same))
              (Told-start all uuid s.events.is_closed (s.events.sent ++ (e ∷ [])) (after uuid) c
                (subst (Story all uuid) (sym (ap (λ x. x ++ left uuid (after uuid)) begun)) story))
        | inr differ ↦
            let not_mine : (id_of e == other) ≡ false = ground (arith, mine) in
            Told-open all other s.events.is_closed s.events.sent (s.events.sent ++ (e ∷ []))
              (s.tasks other) (after other) c
              (ap (λ x. events_of other (s.events.sent ++ (e ∷ [])) ++ left other x)
                  (elsewhere other differ)
                ∙ ap (λ x. x ++ left other (s.tasks other))
                    (push_other other s.events.sent e not_mine))
              so_far
      ]

  loop_sends-Kept :
      (all : List (Action W)) (b : Bool) (uuid : Uuid) (e : Event W) (after : Tasks) (s : Server W)
      → s.events.is_closed ≡ b
      → (id_of e == uuid) ≡ true
      → Unused s uuid
      → ((o : Uuid) → (o == uuid) ≡ false → after o ≡ s.tasks o)
      → Story all uuid (e ∷ left uuid (after uuid))
      → Kept all s
      → Kept all (loop_sends b e after s)
  unfolding loop_sends Kept
  loop_sends-Kept all true uuid e after s c mine unused elsewhere story k = k
  loop_sends-Kept all false uuid e after s c mine unused elsewhere story k =
      λ other. loop_step all uuid other e after s mine unused elsewhere story c (k other)

  pub accept_next-Kept :
      (all : List (Action W)) (uuid : Uuid) (o : Outcome W) (ds : List Delivery) (s : Server W)
      → Arrived uuid o ds all
      → Unused s uuid
      → Kept all s
      → Kept all (accept_next uuid o ds s)
  unfolding accept_next
  accept_next-Kept all uuid (ok w) ds s at unused k =
      loop_sends-Kept all s.events.is_closed uuid (new_client uuid w)
        (put uuid (some (listening ds)) s.tasks) s refl (unfold id_of in same_id uuid) unused
        (λ o differ. put_other uuid o (some (listening ds)) s.tasks differ)
        (rw (put_same uuid (some (listening ds)) s.tasks) (unfold left in served w ds at)) k
  accept_next-Kept all uuid (err e) ds s at unused k =
      loop_sends-Kept all s.events.is_closed uuid (error uuid e) s.tasks s refl
        (unfold id_of in same_id uuid) unused (λ o differ. refl)
        (rw unused.no_task (unfold left in refused e ds at)) k
  accept_next-Kept all uuid panic ds s at unused k = unfold Kept in k
  accept_next-Kept all uuid hang ds s at unused k = unfold Kept in k
  accept_next-Kept all uuid waits ds s at unused k = unfold Kept in k
