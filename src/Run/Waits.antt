-- ===== src/Run/Waits.antt =====
-- Rules for chains of calls that may wait: what holds of the state in which one of them does.
use socket_flow.Prelude.{◌≢◌, refl}
use socket_flow.Error.{Outcome, ok, err, panic, hang, waits}
use socket_flow.Run.{Run, proceed}

-- Where the call waits, the condition holds of the state.
abbrev pub Waits : {S A : Type 0} → (S → Type 0) → Outcome A × S → Type 0
Waits P (ok a, s) = Unit
Waits P (err e, s) = Unit
Waits P (panic, s) = Unit
Waits P (hang, s) = Unit
Waits P (waits, s) = P s

-- The call came back, or waits in a state of which the condition holds.
abbrev pub Ended : {S A : Type 0} → (S → Type 0) → Outcome A × S → Type 0
Ended P (ok a, s) = Unit
Ended P (err e, s) = Unit
Ended P (panic, s) = Unit
Ended P (hang, s) = ⊥
Ended P (waits, s) = P s

module _ {S : Type 0} (P : S → Type 0) where
  -- A chain waits where one of its calls does.
  pub Waits-proceed :
      {A B : Type 0} (f : A → Run S B) (r : Outcome A) (s : S)
      → Waits P (r, s)
      → ((a : A) (t : S) → Waits P (f a t))
      → Waits P (proceed r f s)
  Waits-proceed f (ok a) s h k = k a s
  Waits-proceed f (err e) s h k = tt
  Waits-proceed f panic s h k = tt
  Waits-proceed f hang s h k = tt
  Waits-proceed f waits s h k = h

  -- A call that never waits.
  pub Waits-never : {A : Type 0} (r : Outcome A) (s : S) → r ≢ waits → Waits P (r, s)
  Waits-never (ok a) s n = tt
  Waits-never (err e) s n = tt
  Waits-never panic s n = tt
  Waits-never hang s n = tt
  Waits-never waits s n = absurd (n refl)

  pub Waits-Ended :
      {A : Type 0} (r : Outcome A) (s : S) → r ≢ hang → Waits P (r, s) → Ended P (r, s)
  Waits-Ended (ok a) s n h = tt
  Waits-Ended (err e) s n h = tt
  Waits-Ended panic s n h = tt
  Waits-Ended hang s n h = absurd (n refl)
  Waits-Ended waits s n h = h
