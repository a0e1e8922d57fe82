-- ===== src/Run.antt =====
-- How a method of the program is modelled: an action on the state of its object that ends in an
-- `Outcome` and leaves a state behind however it ends. `?` and `.await?` are the bind.
pub mod Rules
pub mod Waits
use socket_flow.Prelude.{Bool, true, false}
use socket_flow.Error.{Error, Outcome, ok, err, panic, hang, waits}

abbrev pub Run {ℓ} : Type ℓ → Type ℓ → Type ℓ
Run S A = S → Outcome A × S

module _ {ℓ} {S A : Type ℓ} where
  abbrev pub pure : A → Run S A
  pure a s = (ok a, s)

  abbrev pub fail : Error → Run S A
  fail e s = (err e, s)

  -- A call that touches no state.
  abbrev pub lift : Outcome A → Run S A
  lift r s = (r, s)

  abbrev pub gets : (S → A) → Run S A
  gets f s = (ok (f s), s)

-- What follows a call, by the way in which it ended.
abbrev pub proceed {ℓ} : {S A B : Type ℓ} → Outcome A → (A → Run S B) → Run S B
proceed (ok a) f s = f a s
proceed (err e) f s = (err e, s)
proceed panic f s = (panic, s)
proceed hang f s = (hang, s)
proceed waits f s = (waits, s)

infixl 5 ◌>>=◌ ◌>>◌
abbrev pub ◌>>=◌ {ℓ} : {S A B : Type ℓ} → Run S A → (A → Run S B) → Run S B
◌>>=◌ m f s = proceed (m s).0 f (m s).1

abbrev pub ◌>>◌ {ℓ} : {S A B : Type ℓ} → Run S A → Run S B → Run S B
m >> k = m >>= λ _. k

-- `if test { return Err(e) }`.
abbrev pub fail_if : {S : Type 0} → Bool → Error → Run S Unit
fail_if true e s = (err e, s)
fail_if false e s = (ok tt, s)

-- A call on a part of the state.
abbrev pub on_part : {S T A : Type 0} → (S → T) → (S → T → S) → Run T A → Run S A
on_part get put m s = ((m (get s)).0, put s (m (get s)).1)
