-- ===== src/Text/Same.antt =====
-- `same_text` decides whether two texts are the same.
use socket_flow.Prelude.{
  ◌≡◌, ◌≢◌, refl, ap₂, true, false, [], ◌∷◌, ==_iff, ◌⊎◌, inl, inr, Bool-cases, arith,
}
use socket_flow.Text.{Text, same_text}

same_text_sound : (s t : Text) → same_text s t ≡ true → s ≡ t
unfolding same_text
same_text_sound [] [] h = refl
same_text_sound [] (d ∷ t) h = absurd (cc)
same_text_sound (c ∷ s) [] h = absurd (cc)
same_text_sound (c ∷ s) (d ∷ t) h =
    ap₂ (λ a b. a ∷ b) (ground (arith, h)) (same_text_sound s t (ground (arith, h)))

pub same_text_self : (s : Text) → same_text s s ≡ true
unfolding same_text
same_text_self [] = refl
same_text_self (c ∷ s) = rw ((==_iff c c).1 refl) (same_text_self s)

pub same_text_cases :
    (s t : Text) → ((same_text s t ≡ true) × (s ≡ t)) ⊎ ((same_text s t ≡ false) × (s ≢ t))
same_text_cases s t = elim (Bool-cases (same_text s t)) [
  | inl same ↦ inl (same, same_text_sound s t same)
  | inr other ↦
      inr (other, λ e. let same : same_text s t ≡ true = rw (← e) (same_text_self s) in cc)
]
