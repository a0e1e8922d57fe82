-- ===== src/Request/Parsed.antt =====
-- What the parser of src/request.rs makes of a head of two words, some text and header lines.
use mathlib.Core.List.{map}
use socket_flow.Prelude.{
  ◌≡◌, refl, ap, ◌∙◌, false, none, List, [], ◌∷◌, ◌++◌, append-ne_nil, All, All-append, ◌==◌, arith,
}
use socket_flow.Error.{ok}
use socket_flow.Run.{proceed}
use socket_flow.Source.{Arrival, bytes}
use socket_flow.Text.{Text, codes, trim}
use socket_flow.Text.Bytes.{as_bytes}
use socket_flow.Text.Pieces.{split_once, split_whitespace, to_lowercase}
use socket_flow.Text.Plain.{
  IsPlain, IsLine, delimiter, joined_lines, lines-joined_lines, split_once-joined_lines,
}
use socket_flow.Text.Cut.{IsWord, All-IsPlain, split_whitespace_two, split_once_colon}
use socket_flow.Request.{
  Headers, HttpRequest, get, read_body, insert_line, parse_headers, parse_parts, parse_buffer,
  parse_http_request,
}
use socket_flow.Request.Heads.{read_head-joined_lines}

-- A header as it stands on its line.
abbrev pub header_line : Text × Text → Text
header_line (name, value) = name ++ (codes ": " ++ value)

pub record IsField (h : Text × Text) : Type 0 where
  pub name : All IsPlain h.0
  pub no_colon : All (λ c. (c == b':') ≡ false) h.0
  pub value : All IsPlain h.1
  pub trimmed : trim h.1 ≡ h.1

header_line-IsLine : (h : Text × Text) → IsField h → IsLine (header_line h)
header_line-IsLine (name, value) f = record {
  plain = All-append IsPlain name (codes ": " ++ value) f.name (
    record { ascii = omega arith; no_feed = refl; no_return = refl },
    (record { ascii = omega arith; no_feed = refl; no_return = refl }, f.value),
  );
  some_text = append-ne_nil name (codes ": " ++ value) (λ e. cc);
}

pub All-IsLine : (hs : Headers) → All IsField hs → All IsLine (map header_line hs)
All-IsLine [] f = tt
All-IsLine (h ∷ hs) f = (header_line-IsLine h f.0, All-IsLine hs f.1)

abbrev pub start_line : Text → Text → Text → Text
start_line first second rest = first ++ (32 ∷ (second ++ (32 ∷ rest)))

-- A head on the wire, up to its blank line.
abbrev pub printed : Text → Headers → Text
printed start hs = joined_lines start (map header_line hs) ++ delimiter

pub start_line-IsLine :
    (first second rest : Text)
    → IsWord first
    → IsWord second
    → All IsPlain rest
    → IsLine (start_line first second rest)
start_line-IsLine first second rest f s r =
    let space : IsPlain 32 = record { ascii = omega arith; no_feed = refl; no_return = refl } in
    record {
      plain =
          All-append IsPlain first (32 ∷ (second ++ (32 ∷ rest))) (All-IsPlain first f.visible) (
            space,
            All-append IsPlain second (32 ∷ rest) (All-IsPlain second s.visible) (space, r),
          );
      some_text = append-ne_nil first (32 ∷ (second ++ (32 ∷ rest))) (λ e. cc);
    }

module _ (unicode : Text → Text) where
  -- The headers as the map keeps them.
  abbrev pub stored : Headers → Headers → Headers
  stored [] kept = kept
  stored ((name, value) ∷ hs) kept = stored hs ((to_lowercase unicode name, value) ∷ kept)

  abbrev pub head_of : Text → Text → Text → Headers → HttpRequest
  head_of first second third hs = record {
    method = first;
    uri = second;
    version = third;
    headers = stored hs [];
    body = [];
  }

  insert_line-IsField :
      (name value : Text) (kept : Headers)
      → IsField (name, value)
      → insert_line unicode (split_once (header_line (name, value)) (codes ": ")) kept
        ≡ (to_lowercase unicode name, value) ∷ kept
  unfolding insert_line
  insert_line-IsField name value kept f =
      rw (split_once_colon name value f.no_colon, f.trimmed) refl

  parse_headers-stored :
      (hs kept : Headers)
      → All IsField hs
      → parse_headers unicode (map header_line hs) kept ≡ stored hs kept
  unfolding parse_headers
  parse_headers-stored [] kept f = refl
  parse_headers-stored ((name, value) ∷ hs) kept f =
      ap (parse_headers unicode (map header_line hs)) (insert_line-IsField name value kept f.0)
      ∙ parse_headers-stored hs ((to_lowercase unicode name, value) ∷ kept) f.1

  module _ (first second rest third : Text) (more : List Text) (hs : Headers) (f : IsWord first)
      (s : IsWord second) (r : All IsPlain rest) (words : split_whitespace rest ≡ third ∷ more)
      (fields : All IsField hs)
      (no_length : get (codes "Content-Length") (stored hs []) ≡ none) where
    parse_parts-printed :
        (src : List Arrival)
        → parse_parts unicode
            (joined_lines (start_line first second rest) (map header_line hs), [])
            src
          ≡ (ok (head_of first second third hs), src)
    unfolding parse_parts read_body as_bytes
    parse_parts-printed src =
        rw
          (
            lines-joined_lines (start_line first second rest) (map header_line hs)
                (start_line-IsLine first second rest f s r) (All-IsLine hs fields),
            split_whitespace_two first second rest f s,
            words,
            parse_headers-stored hs [] fields,
            no_length,
          )
          refl

    parse_buffer-printed :
        (src : List Arrival)
        → parse_buffer unicode (printed (start_line first second rest) hs) src
          ≡ (ok (head_of first second third hs), src)
    unfolding parse_buffer
    parse_buffer-printed src =
        rw
          (split_once-joined_lines [] (start_line first second rest) (map header_line hs)
            (start_line-IsLine first second rest f s r) (All-IsLine hs fields))
          (parse_parts-printed src)

    -- A head of three words at least and of fields is read and parsed, and nothing behind it.
    pub parse_http_request-printed :
        (src : List Arrival)
        → parse_http_request unicode (bytes (printed (start_line first second rest) hs) ++ src)
          ≡ (ok (head_of first second third hs), src)
    unfolding parse_http_request
    parse_http_request-printed src =
        ap (λ res. proceed res.0 (parse_buffer unicode) res.1)
          (read_head-joined_lines 4 src (start_line first second rest) (map header_line hs) []
            (start_line-IsLine first second rest f s r) (All-IsLine hs fields))
        ∙ parse_buffer-printed src
