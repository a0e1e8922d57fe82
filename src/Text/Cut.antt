-- ===== src/Text/Cut.antt =====
-- Words and header lines: how texts that are put together from them come apart.
use socket_flow.Prelude.{
  ℕ, ◌≤◌, ◌<◌, ◌≡◌, ◌≢◌, refl, ap, ◌∙◌, Bool, true, false, ◌&&◌, ltb, some, List, [], ◌∷◌, ◌++◌,
  All, ◌==◌, leb, if◌then◌else◌, arith,
}
use socket_flow.Text.{Text, codes, starts_with, is_whitespace, trim, trim_start, trim_end, before}
use socket_flow.Text.Pieces.{split_once, behind, split_at_whitespace, split_whitespace, not_empty}
use socket_flow.Text.Plain.{IsPlain, IsLine, split_once_skip}

-- A printable character of ASCII other than the space.
abbrev pub IsVisible : ℕ → Type 0
IsVisible c = (33 ≤ c) × (c < 127)

-- The check of a given text.
unfoldable pub all_visible : Text → Bool
all_visible [] = true
all_visible (c ∷ s) = let rest = all_visible s in if leb 33 c && ltb c 127 then rest else false

pub all_visible-IsVisible : (s : Text) → all_visible s ≡ true → All IsVisible s
unfolding all_visible
all_visible-IsVisible [] h = tt
all_visible-IsVisible (c ∷ s) h =
    ((ground arith, ground arith), all_visible-IsVisible s (ground arith))

pub record IsWord (s : Text) : Type 0 where
  pub visible : All IsVisible s
  pub some_text : s ≢ []

pub is_whitespace-IsVisible : (c : ℕ) → IsVisible c → is_whitespace c ≡ false
unfolding is_whitespace
is_whitespace-IsVisible c h = ground arith

IsPlain-visible : (c : ℕ) → IsVisible c → IsPlain c
IsPlain-visible c h = record {
  ascii = omega arith;
  no_feed = ground arith;
  no_return = ground arith;
}

pub All-IsPlain : (s : Text) → All IsVisible s → All IsPlain s
All-IsPlain [] h = tt
All-IsPlain (c ∷ s) h = (IsPlain-visible c h.0, All-IsPlain s h.1)

pub IsWord-IsLine : (s : Text) → IsWord s → IsLine s
IsWord-IsLine s h = record { plain = All-IsPlain s h.visible; some_text = h.some_text }

module _ (s : Text) where
  split_word :
      (w : Text) → All IsVisible w → split_at_whitespace (w ++ (32 ∷ s)) ≡ w ∷ split_at_whitespace s
  unfolding split_at_whitespace is_whitespace before
  split_word [] h = refl
  split_word (c ∷ w) h =
      rw (split_at_whitespace, is_whitespace-IsVisible c h.0, split_word w h.1) refl

split_last : (w : Text) → All IsVisible w → split_at_whitespace w ≡ w ∷ []
unfolding split_at_whitespace is_whitespace before
split_last [] h = refl
split_last (c ∷ w) h =
    rw (split_at_whitespace, is_whitespace-IsVisible c h.0, split_last w h.1) refl

not_empty-cons : (w : Text) (ws : List Text) → IsWord w → not_empty (w ∷ ws) ≡ w ∷ not_empty ws
unfolding not_empty
not_empty-cons [] ws h = absurd (h.some_text refl)
not_empty-cons (c ∷ w) ws h = refl

-- The first two words of a line and what stands behind them.
pub split_whitespace_two :
    (a b rest : Text)
    → IsWord a
    → IsWord b
    → split_whitespace (a ++ (32 ∷ (b ++ (32 ∷ rest)))) ≡ a ∷ b ∷ split_whitespace rest
split_whitespace_two a b rest ha hb =
    ap not_empty
      (split_word (b ++ (32 ∷ rest)) a ha.visible ∙ ap (λ r. a ∷ r) (split_word rest b hb.visible))
    ∙ not_empty-cons a (b ∷ split_at_whitespace rest) ha
    ∙ ap (λ r. a ∷ r) (not_empty-cons b (split_at_whitespace rest) hb)

-- A text that ends in something that is not cut off keeps its end.
pub trim_end-append : (u s : Text) → s ≢ [] → trim_end s ≡ s → trim_end (u ++ s) ≡ u ++ s
unfolding trim_end
trim_end-append [] s n e = e
trim_end-append (c ∷ []) [] n e = absurd (n refl)
trim_end-append (c ∷ []) (d ∷ s) n e = rw (trim_end, e) refl
trim_end-append (c ∷ (d ∷ u)) s n e = rw (trim_end, trim_end-append (d ∷ u) s n e) refl

pub trim_end-IsVisible : (s : Text) → All IsVisible s → trim_end s ≡ s
unfolding trim_end is_whitespace
trim_end-IsVisible [] h = refl
trim_end-IsVisible (c ∷ []) h = rw (is_whitespace-IsVisible c h.0) refl
trim_end-IsVisible (c ∷ (d ∷ s)) h = rw (trim_end, trim_end-IsVisible (d ∷ s) h.1) refl

pub trim_start-IsVisible : (c : ℕ) (s : Text) → IsVisible c → trim_start (c ∷ s) ≡ c ∷ s
unfolding trim_start is_whitespace
trim_start-IsVisible c s h = rw (is_whitespace-IsVisible c h) refl

pub trim-IsVisible : (s : Text) → All IsVisible s → trim s ≡ s
unfolding trim trim_start trim_end
trim-IsVisible [] h = refl
trim-IsVisible (c ∷ s) h = ap trim_end (trim_start-IsVisible c s h.0) ∙ trim_end-IsVisible (c ∷ s) h

-- The name of a header ends at its first colon.
pub split_once_colon :
    (name value : Text)
    → All (λ c. (c == b':') ≡ false) name
    → split_once (name ++ (codes ": " ++ value)) (codes ": ") ≡ some (name, value)
unfolding split_once starts_with
split_once_colon [] value h = refl
split_once_colon (c ∷ name) value h =
    split_once_skip c (name ++ (codes ": " ++ value)) (codes ": ") (rw h.0 refl)
    ∙ ap (behind c) (split_once_colon name value h.1)
