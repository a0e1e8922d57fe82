-- ===== src/Run/Rules.antt =====
-- Rules for chains of calls: a call that comes back, and what holds where it returned a value.
use socket_flow.Prelude.{◌≡◌, ◌≢◌, refl, subst}
use socket_flow.Error.{Outcome, ok, err, panic, hang, waits, ◌>>=◌}
use socket_flow.Run.{Run, proceed}

-- The call came back, and where it returned a value the condition holds of it and the state.
abbrev pub Post : {S A : Type 0} → (A → S → Type 0) → Outcome A × S → Type 0
Post Q (ok a, s) = Q a s
Post Q (err e, s) = Unit
Post Q (panic, s) = Unit
Post Q (hang, s) = ⊥
Post Q (waits, s) = Unit

module _ {S A B : Type 0} (Q : A → S → Type 0) (R : B → S → Type 0) where
  -- A chain from its first call: what follows is proved from what that call ensures.
  pub Post-proceed :
      (f : A → Run S B) (r : Outcome A) (s : S)
      → Post Q (r, s)
      → ((a : A) (t : S) → Q a t → Post R (f a t))
      → Post R (proceed r f s)
  Post-proceed f (ok a) s h k = k a s h
  Post-proceed f (err e) s h k = tt
  Post-proceed f panic s h k = tt
  Post-proceed f hang s h k = h
  Post-proceed f waits s h k = tt

module _ {S A : Type 0} where
  pub Post-lift :
      (P : S → Type 0) (r : Outcome A) (s : S) → r ≢ hang → P s → Post (λ (a : A) t. P t) (r, s)
  Post-lift P (ok a) s n h = h
  Post-lift P (err e) s n h = tt
  Post-lift P panic s n h = tt
  Post-lift P hang s n h = n refl
  Post-lift P waits s n h = tt

module _ {S A : Type 0} (Q : A → S → Type 0) where
  pub Post-ne-hang : (r : Outcome A) (s : S) → Post Q (r, s) → r ≢ hang
  Post-ne-hang (ok a) s h = λ e. cc
  Post-ne-hang (err x) s h = λ e. cc
  Post-ne-hang panic s h = λ e. cc
  Post-ne-hang hang s h = absurd h
  Post-ne-hang waits s h = λ e. cc

  pub Post-ok : (res : Outcome A × S) (a : A) (t : S) → Post Q res → res ≡ (ok a, t) → Q a t
  Post-ok res a t h e = subst (λ r. Post Q r) e h

module _ {S A : Type 0} (Q R : A → S → Type 0) where
  pub Post-weaken :
      ((a : A) (t : S) → Q a t → R a t) → (res : Outcome A × S) → Post Q res → Post R res
  Post-weaken k (ok a, s) h = k a s h
  Post-weaken k (err x, s) h = tt
  Post-weaken k (panic, s) h = tt
  Post-weaken k (hang, s) h = h
  Post-weaken k (waits, s) h = tt

-- A chain that returned a value: what its first call returned, and the rest of it.
pub proceed_ok :
    {S A B : Type 0} (f : A → Run S B) (r : Outcome A) (s t : S) (b : B)
    → proceed r f s ≡ (ok b, t)
    → (a : A) × (r ≡ ok a) × (f a s ≡ (ok b, t))
proceed_ok f (ok a) s t b e = (a, refl, e)
proceed_ok f (err x) s t b e = absurd (cc)
proceed_ok f panic s t b e = absurd (cc)
proceed_ok f hang s t b e = absurd (cc)
proceed_ok f waits s t b e = absurd (cc)

-- The same for `?` on values.
pub bind_ok :
    {A B : Type 0} (f : A → Outcome B) (r : Outcome A) (b : B)
    → (r >>= f) ≡ ok b
    → (a : A) × (r ≡ ok a) × (f a ≡ ok b)
bind_ok f (ok a) b e = (a, refl, e)
bind_ok f (err x) b e = absurd (cc)
bind_ok f panic b e = absurd (cc)
bind_ok f hang b e = absurd (cc)
bind_ok f waits b e = absurd (cc)
