-- ===== src/Http/Request/Total.antt =====
-- The parser always returns: each header moves the cursor on.
pub mod Tokens
pub mod Line
use mimino.Base.{
  strncmp_eq, codes, c_string, ℕ, zero, suc, ◌+◌, ◌-◌, ◌≤◌, ◌<◌, Bool, not, ◌&&◌, Bytes, [], ◌∷◌,
  ◌++◌, some, ◌≡◌, refl, arith, leb, ◌==◌, length, inl, inr, Bool-cases,
}
use mathlib.Core.Path.{subst}
use mimino.Ascii.{is_upper_ascii, is_digit}
use mimino.Http.Range.{first}
use mimino.Http.Request.{parse_headers, after_line, parse_http_request}
use mimino.Http.Request.Reader.{
  Request, Cursor, Parse, stop, go, ◌>>=◌, null_request, ParseError, keep, advance, expect,
  take_while, take_value, byte, next_byte, no_colon, no_space_after_colon, no_space_after_method,
  no_space_after_path, no_slash, no_dot,
}
use mimino.Http.Request.Line.{
  parse_line, parse_method, parse_path, parse_http, parse_version, parse_crlf,
  is_valid_http_path_char,
}
use mimino.Http.Request.Header.{
  Step, finished, next, is_name_char, parse_name_value, parse_header, step_of,
}
use mimino.Http.Request.Total.Tokens.{
  >>=-eq-go, advance-left, expect-left, Leaves, keep-Leaves, take_while-Leaves, take_value-Leaves,
}
use mimino.Http.Request.Total.Line.{parse_line-left}

parse_name_value-left :
    (req : Request) (hn : Cursor) {out : Request × Cursor}
    → parse_name_value req hn ≡ go out
    → out.1.left < hn.left
unfolding parse_name_value
parse_name_value-left req hn h =
    let (t₁, e₁, h₁) = >>=-eq-go (take_while req is_name_char hn.str hn.left) _ h in
    let (c₂, e₂, h₂) = >>=-eq-go (expect req b':' no_colon t₁.1) _ h₁ in
    let (hv, e₃, h₃) = >>=-eq-go (expect req b' ' no_space_after_colon c₂) _ h₂ in
    let (t₃, e₄, h₄) = >>=-eq-go (take_value req hv.str hv.left) _ h₃ in
    let (c₄, e₅, h₅) = >>=-eq-go (advance req 2 t₃.1) _ h₄ in
    let l₁ = subst (Leaves hn.left) e₁ (take_while-Leaves req is_name_char hn.str hn.left) in
    let l₂ = subst (Leaves hv.left) e₄ (take_value-Leaves req hv.str hv.left) in
    let l₃ = expect-left req b':' no_colon t₁.1 e₂ in
    let l₄ = expect-left req b' ' no_space_after_colon c₂ e₃ in
    let l₅ = advance-left req 2 t₃.1 (omega arith) e₅ in ground arith

-- the loop goes on with less
abbrev Lessens : ℕ → Step → Type 0
Lessens n (finished req) = Unit {0}
Lessens n (next req c) = c.left < n

parse_header-Lessens : (req : Request) (c : Cursor) → Lessens c.left (parse_header req c)
unfolding parse_header
parse_header-Lessens req c = elim (Bool-cases (byte c == b'\r' && next_byte c == b'\n')) [
  | inl e ↦ rw e tt
  | inr e ↦ rw e (more (parse_name_value req c) refl)
]
  where
    more : (m : Parse (Request × Cursor)) → parse_name_value req c ≡ m → Lessens c.left (step_of m)
    more (stop r) e = tt
    more (go out) e = parse_name_value-left req c e

-- With more fuel than bytes left, the loop over the headers returns.
parse_headers-total :
    (fuel : ℕ) (req : Request) (c : Cursor)
    → c.left < fuel
    → (r : Request) × (parse_headers fuel req c ≡ some r)
unfolding parse_headers
parse_headers-total zero req c h = elim h [ ]
parse_headers-total (suc fuel) req c h =
    elim (parse_header req c)
        as (λ s.
          Lessens c.left s
          → (r : Request) × ((elim s [ finished r ↦ some r | next r c' ↦ parse_headers fuel r c' ])
              ≡ some r)) [
                | finished r ↦ λ l. (r, refl)
                | next r c' ↦ λ l. parse_headers-total fuel r c' (omega arith)
              ]
      (parse_header-Lessens req c)

-- `parse_http_request` returns, whatever was received and whatever stands behind it.
pub parse_http_request-total :
    (received beyond : Bytes) → (r : Request) × (parse_http_request received beyond ≡ some r)
unfolding parse_http_request after_line
parse_http_request-total received beyond = go_on (parse_line null_request start) refl
  where
    start : Cursor
    start = record { str = received ++ beyond; left = length received }

    go_on :
        (m : Parse (Request × Cursor))
        → parse_line null_request start ≡ m
        → (r : Request) × (after_line (length received + 1) m ≡ some r)
    go_on (stop r) e = (r, refl)
    go_on (go (r, c)) e =
        parse_headers-total (length received + 1) r c
          (omega (arith, parse_line-left null_request start e))
