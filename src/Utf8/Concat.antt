-- ===== src/Utf8/Concat.antt =====
-- The check of UTF-8 on texts that are joined.
use socket_flow.Prelude.{ℕ, true, false, ◌≡◌, Option, none, some, List, [], ◌∷◌, ◌++◌}
use socket_flow.Utf8.{Utf8State, start, expect, advance, validate, is_utf8}

module _ (bs ys : List ℕ) where
  resume-append :
      (o : Option Utf8State)
      → ((t : Utf8State) → validate t bs ≡ true → validate t (bs ++ ys) ≡ true)
      → (elim o [ none ↦ false | some t ↦ validate t bs ]) ≡ true
      → (elim o [ none ↦ false | some t ↦ validate t (bs ++ ys) ]) ≡ true
  resume-append none ih e = cc
  resume-append (some t) ih e = ih t e

validate-append :
    (s : Utf8State) (xs ys : List ℕ)
    → validate s xs ≡ true
    → is_utf8 ys ≡ true
    → validate s (xs ++ ys) ≡ true
unfolding validate is_utf8
validate-append start [] ys h k = k
validate-append (expect lo hi n) [] ys h k = cc
validate-append s (b ∷ bs) ys h k =
    resume-append bs ys (advance s b) (λ t e. validate-append t bs ys e k) h

-- Two texts joined are a text.
pub is_utf8-append :
    (xs ys : List ℕ) → is_utf8 xs ≡ true → is_utf8 ys ≡ true → is_utf8 (xs ++ ys) ≡ true
is_utf8-append xs ys h k = unfold is_utf8 in validate-append start xs ys h k
