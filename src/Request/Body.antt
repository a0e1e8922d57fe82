-- ===== src/Request/Body.antt =====
-- `headers.get("Content-Length")` of src/request.rs: the names of the map are in lower case.
use mathlib.Core.List.{map}
use socket_flow.Prelude.{
  ℕ, ◌≡◌, ◌≢◌, refl, ◌∙◌, inl, inr, Option, none, some, List, [], ◌∷◌, Bool-cases, arith,
}
use socket_flow.Error.{
  Error, Outcome, ok, err, panic, hang, waits, ok_or, invalid_content_length, http_parse_error,
  invalid_http_request_line, missing_http_method, missing_http_uri, missing_http_version,
}
use socket_flow.Run.{Run, proceed}
use socket_flow.Source.{Arrival}
use socket_flow.Text.{Text, codes}
use socket_flow.Text.Same.{same_text_cases}
use socket_flow.Text.Pieces.{
  to_lowercase, to_ascii_lowercase, all_ascii, split_once, lines, split_whitespace,
}
use socket_flow.Request.Waiting.{Waited, read_head-Waited}
use socket_flow.Request.{
  Headers, get, next, after_next, insert_line, parse_headers, read_head, read_body, parse_parts,
  parse_buffer, parse_http_request,
}

abbrev content_length : Text
content_length = codes "Content-Length"

lower_ne : (c : ℕ) → to_ascii_lowercase c ≢ b'C'
unfolding to_ascii_lowercase
lower_ne c = λ e. ground arith

pub map_ne : (s : Text) → map to_ascii_lowercase s ≢ content_length
map_ne [] = λ e. cc
map_ne (c ∷ s) = λ e. lower_ne c (cc)

module _ (unicode : Text → Text) (lower : (s : Text) → unicode s ≢ content_length) where
  to_lowercase_ne : (s : Text) → to_lowercase unicode s ≢ content_length
  unfolding to_lowercase
  to_lowercase_ne s = elim (Bool-cases (all_ascii s)) [
    | inl ascii ↦ rw ascii (map_ne s)
    | inr other ↦ rw other (lower s)
  ]

  get-insert_line :
      (found : Option (Text × Text)) (hs : Headers)
      → get content_length (insert_line unicode found hs) ≡ get content_length hs
  unfolding insert_line get
  get-insert_line none hs = refl
  get-insert_line (some (name, value)) hs =
      elim (same_text_cases (to_lowercase unicode name) content_length) [
        | inl (same, e) ↦ absurd (to_lowercase_ne name e)
        | inr (other, e) ↦ rw (get, other) refl
      ]

  get-parse_headers :
      (ls : List Text) (hs : Headers)
      → get content_length (parse_headers unicode ls hs) ≡ get content_length hs
  unfolding parse_headers
  get-parse_headers [] hs = refl
  get-parse_headers (l ∷ ls) hs =
      get-parse_headers ls (insert_line unicode (split_once l (codes ": ")) hs)
      ∙ get-insert_line (split_once l (codes ": ")) hs

  -- What a part of the parser that reads nothing leaves.
  record Calm {A : Type 0} (s : List Arrival) (result : Outcome A × List Arrival) : Type 0 where
    same : result.1 ≡ s
    no_length_error : result.0 ≢ err invalid_content_length
    no_panic : result.0 ≢ panic

  Calm-ok : {A : Type 0} (a : A) (s : List Arrival) → Calm s (ok a, s)
  Calm-ok a s = record { same = refl; no_length_error = λ e. cc; no_panic = λ e. cc }

  Calm-ok_or :
      {A B : Type 0} (o : Option A) (e : Error) (k : A → Run (List Arrival) B) (s : List Arrival)
      → e ≢ invalid_content_length
      → ((a : A) → Calm s (k a s))
      → Calm s (proceed (ok_or o e) k s)
  Calm-ok_or none e k s n h = record {
    same = refl;
    no_length_error = λ p. n (cc);
    no_panic = λ p. cc;
  }
  Calm-ok_or (some a) e k s n h = h a

  parse_parts-Calm : (parts : Text × Text) (s : List Arrival) → Calm s (parse_parts unicode parts s)
  unfolding parse_parts read_body
  parse_parts-Calm (header_part, body_part) s =
      Calm-ok_or (next (lines header_part)) invalid_http_request_line _ s (λ e. cc)
        λ line.
          Calm-ok_or (next (split_whitespace line)) missing_http_method _ s (λ e. cc)
            λ method.
              Calm-ok_or (next (after_next (split_whitespace line))) missing_http_uri _ s (λ e. cc)
                λ uri.
                  Calm-ok_or (next (after_next (after_next (split_whitespace line))))
                    missing_http_version _ s (λ e. cc)
                    λ version.
                      rw (get-parse_headers (after_next (lines header_part)) [])
                        (unfold get in Calm-ok _ s)

  parse_buffer-Calm : (buffer : Text) (s : List Arrival) → Calm s (parse_buffer unicode buffer s)
  unfolding parse_buffer
  parse_buffer-Calm buffer s =
      Calm-ok_or (split_once buffer (codes "\r\n\r\n")) http_parse_error (parse_parts unicode) s
        (λ e. cc) λ parts. parse_parts-Calm parts s

  Calm-head :
      (spare : ℕ) (src : List Arrival) (result : Outcome Text × List Arrival)
      → Waited spare src result
      → Calm result.1 (proceed result.0 (parse_buffer unicode) result.1)
  Calm-head spare src (ok head, rest) h = parse_buffer-Calm head rest
  Calm-head spare src (err e, rest) h = record {
    same = refl;
    no_length_error = λ p. let late = h.0 in cc;
    no_panic = λ p. cc;
  }
  Calm-head spare src (panic, rest) h = absurd h
  Calm-head spare src (hang, rest) h = absurd h
  Calm-head spare src (waits, rest) h = absurd h

  -- Let no text that is not ASCII have "Content-Length", with its capitals, for its lower case.
  -- Then a head is parsed with nothing read behind it, no length is ever invalid, and the parser
  -- does not panic, whatever arrives: the header for the length is never found.
  pub parse_http_request_reads :
      (src : List Arrival)
      → ((parse_http_request unicode src).1 ≡ (read_head 4 [] [] src).1)
        × ((parse_http_request unicode src).0 ≢ err invalid_content_length)
        × ((parse_http_request unicode src).0 ≢ panic)
  unfolding parse_http_request
  parse_http_request_reads src =
      let c = Calm-head 4 src (read_head 4 [] [] src) (read_head-Waited 4 [] [] src) in
      (c.same, c.no_length_error, c.no_panic)
