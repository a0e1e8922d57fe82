-- ===== src/Text/Plain.antt =====
-- Lines that are joined by line ends, and how they come apart again.
use mathlib.Core.List.{reverse, reverse_aux}
use socket_flow.Prelude.{
  ℕ, ◌<◌, ◌≡◌, ◌≢◌, refl, ap, ◌∙◌, true, false, some, List, [], ◌∷◌, ◌++◌, append_assoc, All, ◌==◌,
}
use socket_flow.Text.{Text, codes, starts_with, before}
use socket_flow.Text.Pieces.{ends_with, lines, split_once, behind}

-- A character that a header line may have: ASCII, and neither part of a line end.
pub record IsPlain (c : ℕ) : Type 0 where
  pub ascii : c < 0x80
  pub no_feed : (c == 10) ≡ false
  pub no_return : (c == 13) ≡ false

pub record IsLine (s : Text) : Type 0 where
  pub plain : All IsPlain s
  pub some_text : s ≢ []

abbrev pub crlf : Text
crlf = codes "\r\n"

abbrev pub delimiter : Text
delimiter = codes "\r\n\r\n"

abbrev pub joined_lines : Text → List Text → Text
joined_lines l [] = l
joined_lines l (m ∷ ms) = l ++ (crlf ++ joined_lines m ms)

module _ (rest : Text) where
  pub joined_lines-append :
      (l : Text) (m : Text) (ms : List Text)
      → joined_lines l (m ∷ ms) ++ rest ≡ l ++ (crlf ++ (joined_lines m ms ++ rest))
  joined_lines-append l m ms = append_assoc l (crlf ++ joined_lines m ms) rest

lines_more : (l : Text) (s : Text) → All IsPlain l → lines (l ++ (crlf ++ s)) ≡ l ∷ lines s
unfolding lines starts_with before
lines_more [] s h = refl
lines_more (c ∷ l) s h = rw (lines, h.0.no_feed, h.0.no_return, lines_more l s h.1) refl

lines_last : (c : ℕ) (l : Text) → All IsPlain (c ∷ l) → lines (c ∷ l) ≡ (c ∷ l) ∷ []
unfolding lines starts_with before
lines_last c [] h = rw (lines, h.0.no_feed, h.0.no_return) refl
lines_last c (d ∷ l) h = rw (lines, h.0.no_feed, h.0.no_return) (ap (before c) (lines_last d l h.1))

lines_one : (l : Text) → IsLine l → lines l ≡ l ∷ []
lines_one [] h = absurd (h.some_text refl)
lines_one (c ∷ l) h = lines_last c l h.plain

-- The lines come apart as they were.
pub lines-joined_lines :
    (l : Text) (ms : List Text) → IsLine l → All IsLine ms → lines (joined_lines l ms) ≡ l ∷ ms
lines-joined_lines l [] h hs = lines_one l h
lines-joined_lines l (m ∷ ms) h hs =
    lines_more l (joined_lines m ms) h.plain ∙ ap (λ r. l ∷ r) (lines-joined_lines m ms hs.0 hs.1)

pub split_once_skip :
    (c : ℕ) (s sep : Text)
    → starts_with (c ∷ s) sep ≡ false
    → split_once (c ∷ s) sep ≡ behind c (split_once s sep)
unfolding split_once
split_once_skip c s sep h = rw (split_once, h) refl

module _ (rest : Text) where
  split_once_end :
      (l : Text) → All IsPlain l → split_once (l ++ (delimiter ++ rest)) delimiter ≡ some (l, rest)
  unfolding split_once starts_with
  split_once_end [] h = refl
  split_once_end (c ∷ l) h = rw (split_once, h.0.no_return, split_once_end l h.1) refl

  split_once_break :
      (d : ℕ) (tail s : Text)
      → IsPlain d
      → split_once (d ∷ tail) delimiter ≡ some (s, rest)
      → split_once (crlf ++ (d ∷ tail)) delimiter ≡ some (crlf ++ s, rest)
  split_once_break d tail s h e =
      split_once_skip 13 (10 ∷ d ∷ tail) delimiter (unfold starts_with in rw h.no_return refl)
      ∙ ap (behind 13)
          (split_once_skip 10 (d ∷ tail) delimiter (unfold starts_with in refl) ∙ ap (behind 10) e)

  split_once_more :
      (l s tail : Text)
      → All IsPlain l
      → split_once (crlf ++ tail) delimiter ≡ some (crlf ++ s, rest)
      → split_once (l ++ (crlf ++ tail)) delimiter ≡ some (l ++ (crlf ++ s), rest)
  unfolding starts_with
  split_once_more [] s tail h e = e
  split_once_more (c ∷ l) s tail h e =
      split_once_skip c (l ++ (crlf ++ tail)) delimiter (rw h.0.no_return refl)
      ∙ ap (behind c) (split_once_more l s tail h.1 e)

  -- The first blank line is the one behind the lines.
  pub split_once-joined_lines :
      (l : Text) (ms : List Text)
      → IsLine l
      → All IsLine ms
      → split_once (joined_lines l ms ++ (delimiter ++ rest)) delimiter
        ≡ some (joined_lines l ms, rest)
  split_once-joined_lines l [] h hs = split_once_end l h.plain
  split_once-joined_lines l ([] ∷ ms) h hs = absurd (hs.0.some_text refl)
  split_once-joined_lines l ((d ∷ m) ∷ []) h hs =
      ap (λ t. split_once t delimiter) (append_assoc l (crlf ++ (d ∷ m)) (delimiter ++ rest))
      ∙ split_once_more l (d ∷ m) (d ∷ (m ++ (delimiter ++ rest))) h.plain (
          split_once_break d (m ++ (delimiter ++ rest)) (d ∷ m) hs.0.plain.0
            (split_once-joined_lines (d ∷ m) [] hs.0 tt))
  split_once-joined_lines l ((d ∷ m) ∷ (n ∷ ms)) h hs =
      let more = m ++ (crlf ++ joined_lines n ms) in
      ap (λ t. split_once t delimiter) (append_assoc l (crlf ++ (d ∷ more)) (delimiter ++ rest))
      ∙ split_once_more l (d ∷ more) (d ∷ (more ++ (delimiter ++ rest))) h.plain (
          split_once_break d (more ++ (delimiter ++ rest)) (d ∷ more) hs.0.plain.0
            (split_once-joined_lines (d ∷ m) (n ∷ ms) hs.0 hs.1))

-- The last character of a line, and what `ends_with` makes of it.
reverse_aux-line :
    (c : ℕ) (l r : Text)
    → All IsPlain (c ∷ l)
    → (d : ℕ) × (w : Text) × IsPlain d × (reverse_aux (c ∷ l) r ≡ d ∷ w)
reverse_aux-line c [] r h = (c, r, h.0, refl)
reverse_aux-line c (e ∷ l) r h = reverse_aux-line e l (c ∷ r) h.1

reverse_aux-append : (s t r : Text) → reverse_aux (s ++ t) r ≡ reverse_aux t (reverse_aux s r)
reverse_aux-append [] t r = refl
reverse_aux-append (c ∷ s) t r = reverse_aux-append s t (c ∷ r)

reverse_line :
    (buffer l : Text)
    → reverse (buffer ++ (l ++ crlf)) ≡ 10 ∷ 13 ∷ reverse_aux l (reverse_aux buffer [])
reverse_line buffer l =
    reverse_aux-append buffer (l ++ crlf) [] ∙ reverse_aux-append l crlf (reverse_aux buffer [])

pub ends_with-line :
    (buffer l : Text) → IsLine l → ends_with (buffer ++ (l ++ crlf)) delimiter ≡ false
ends_with-line buffer [] h = absurd (h.some_text refl)
ends_with-line buffer (c ∷ l) h =
    let (d, w, plain, e) = reverse_aux-line c l (reverse_aux buffer []) h.plain in
    unfold ends_with starts_with in
    ap (λ t. starts_with t (reverse delimiter))
      (reverse_line buffer (c ∷ l) ∙ ap (λ t. 10 ∷ 13 ∷ t) e)
    ∙ rw plain.no_feed refl

pub ends_with-blank : (buffer : Text) → ends_with ((buffer ++ crlf) ++ crlf) delimiter ≡ true
ends_with-blank buffer =
    unfold ends_with starts_with in
    ap (λ t. starts_with t (reverse delimiter))
      (reverse_aux-append (buffer ++ crlf) crlf []
        ∙ ap (reverse_aux crlf) (reverse_aux-append buffer crlf []))
