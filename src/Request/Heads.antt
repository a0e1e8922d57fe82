-- ===== src/Request/Heads.antt =====
-- The head of a request or response as lines, and the loop that reads it.
use socket_flow.Prelude.{
  ℕ, ◌<◌, ◌≡◌, refl, sym, ap, ◌∙◌, true, false, some, List, [], ◌∷◌, ◌++◌, append_assoc, All,
  All-append, ◌==◌, arith,
}
use socket_flow.Error.{ok}
use socket_flow.Source.{Arrival, byte, bytes}
use socket_flow.Utf8.Ascii.{IsAscii}
use socket_flow.Text.{Text}
use socket_flow.Text.Bytes.{text_of-IsAscii}
use socket_flow.Text.Pieces.{ends_with}
use socket_flow.Text.Plain.{
  IsPlain, IsLine, crlf, delimiter, joined_lines, ends_with-line, ends_with-blank,
}
use socket_flow.Request.{read_head, add_line}

pub All-IsAscii : (s : Text) → All IsPlain s → IsAscii s
All-IsAscii [] h = tt
All-IsAscii (c ∷ s) h = (h.0.ascii, All-IsAscii s h.1)

add_line-IsAscii :
    (buffer line : Text) → IsAscii line → add_line buffer line ≡ some (buffer ++ line)
unfolding add_line
add_line-IsAscii buffer line h = rw (add_line, text_of-IsAscii line h) refl

module _ (spare : ℕ) (src : List Arrival) where
  read_head-other :
      (line : Text) (c : ℕ) (buffer : Text)
      → (c == 10) ≡ false
      → read_head spare line buffer (byte c ∷ src) ≡ read_head spare (line ++ (c ∷ [])) buffer src
  unfolding read_head
  read_head-other line c buffer h = rw (read_head, h) refl

  read_head-end :
      (line buffer : Text)
      → IsAscii line
      → ends_with (buffer ++ line) delimiter ≡ false
      → (start : Text) → line ≡ start ++ (10 ∷ [])
      → read_head spare start buffer (byte 10 ∷ src) ≡ read_head spare [] (buffer ++ line) src
  unfolding read_head
  read_head-end line buffer h e start at =
      rw (read_head, ← at, add_line-IsAscii buffer line h, e) refl

  read_head-stop :
      (line buffer : Text)
      → IsAscii line
      → ends_with (buffer ++ line) delimiter ≡ true
      → (start : Text) → line ≡ start ++ (10 ∷ [])
      → read_head spare start buffer (byte 10 ∷ src) ≡ (ok (buffer ++ line), src)
  unfolding read_head
  read_head-stop line buffer h e start at =
      rw (read_head, ← at, add_line-IsAscii buffer line h, e) refl

module _ (spare : ℕ) (src : List Arrival) where
  read_head-line :
      (line l buffer : Text)
      → IsAscii line
      → All IsPlain l
      → ends_with (buffer ++ (line ++ (l ++ crlf))) delimiter ≡ false
      → read_head spare line buffer (bytes (l ++ crlf) ++ src)
        ≡ read_head spare [] (buffer ++ (line ++ (l ++ crlf))) src
  read_head-line line [] buffer h k e =
      read_head-other spare (byte 10 ∷ src) line 13 buffer refl
      ∙ read_head-end spare src (line ++ crlf) buffer
          (All-append (λ c. c < 0x80) line crlf h (omega arith, (omega arith, tt))) e
          (line ++ (13 ∷ [])) (sym (append_assoc line (13 ∷ []) (10 ∷ [])))
  read_head-line line (c ∷ l) buffer h k e =
      let longer = append_assoc line (c ∷ []) (l ++ crlf) in
      read_head-other spare (bytes (l ++ crlf) ++ src) line c buffer k.0.no_feed
      ∙ read_head-line (line ++ (c ∷ [])) l buffer
          (All-append (λ d. d < 0x80) line (c ∷ []) h (k.0.ascii, tt)) k.1
          (ap (λ t. ends_with (buffer ++ t) delimiter) longer ∙ e)
      ∙ ap (λ t. read_head spare [] (buffer ++ t) src) longer

  read_head-blank :
      (buffer : Text)
      → read_head spare [] (buffer ++ crlf) (bytes crlf ++ src) ≡ (ok (buffer ++ delimiter), src)
  read_head-blank buffer =
      read_head-other spare (byte 10 ∷ src) [] 13 (buffer ++ crlf) refl
      ∙ read_head-stop spare src crlf (buffer ++ crlf) (omega arith, (omega arith, tt))
          (ends_with-blank buffer) (13 ∷ []) refl
      ∙ ap (λ t. (ok t, src)) (append_assoc buffer crlf crlf)

pub bytes-append :
    (s t : Text) (src : List Arrival) → bytes (s ++ t) ++ src ≡ bytes s ++ (bytes t ++ src)
bytes-append [] t src = refl
bytes-append (c ∷ s) t src = ap (λ r. byte c ∷ r) (bytes-append s t src)

module _ (spare : ℕ) (src : List Arrival) where
  line_step :
      (l tail buffer : Text)
      → IsLine l
      → read_head spare [] buffer (bytes (l ++ (crlf ++ tail)) ++ src)
        ≡ read_head spare [] (buffer ++ (l ++ crlf)) (bytes tail ++ src)
  line_step l tail buffer h =
      ap (λ t. read_head spare [] buffer (bytes t ++ src)) (sym (append_assoc l crlf tail))
      ∙ ap (read_head spare [] buffer) (bytes-append (l ++ crlf) tail src)
      ∙ read_head-line spare (bytes tail ++ src) [] l buffer tt h.plain (ends_with-line buffer l h)

  -- Lines and the blank line behind them are read to the end, and nothing more.
  pub read_head-joined_lines :
      (l : Text) (ms : List Text) (buffer : Text)
      → IsLine l
      → All IsLine ms
      → read_head spare [] buffer (bytes (joined_lines l ms ++ delimiter) ++ src)
        ≡ (ok (buffer ++ (joined_lines l ms ++ delimiter)), src)
  read_head-joined_lines l [] buffer h hs =
      line_step l crlf buffer h
      ∙ ap (λ t. read_head spare [] t (bytes crlf ++ src)) (sym (append_assoc buffer l crlf))
      ∙ read_head-blank spare src (buffer ++ l)
      ∙ ap (λ t. (ok t, src)) (append_assoc buffer l delimiter)
  read_head-joined_lines l (m ∷ ms) buffer h hs =
      let tail = joined_lines m ms ++ delimiter in
      ap (λ t. read_head spare [] buffer (bytes t ++ src))
        (append_assoc l (crlf ++ joined_lines m ms) delimiter)
      ∙ line_step l tail buffer h
      ∙ read_head-joined_lines m ms (buffer ++ (l ++ crlf)) hs.0 hs.1
      ∙ ap (λ t. (ok t, src))
          (append_assoc buffer (l ++ crlf) tail
            ∙ ap (λ t. buffer ++ t)
                (append_assoc l crlf tail
                  ∙ sym (append_assoc l (crlf ++ joined_lines m ms) delimiter)))
