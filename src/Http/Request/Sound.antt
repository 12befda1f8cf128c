-- ===== src/Http/Request/Sound.antt =====
-- What a parse without error says.
pub mod Opening
use mimino.Base.{
  strncmp_eq, codes, c_string, ℕ, zero, suc, ◌+◌, ◌-◌, Bool, true, false, not, ◌&&◌, ◌||◌, Bytes,
  [], ◌∷◌, ◌++◌, Option, none, some, ◌≡◌, ◌≢◌, refl, arith, leb, ◌==◌, if◌then◌else◌, length, inl,
  inr, Bool-cases,
}
use mathlib.Core.Path.{subst}
use mathlib.Core.Option.{some-injective}
use mimino.Ascii.{is_upper_ascii, is_digit}
use mimino.Http.Range.{first}
use mimino.Http.Request.{parse_headers, after_line, parse_http_request}
use mimino.Http.Request.Reader.{
  Request, Cursor, Parse, ParseError, stop, go, ◌>>=◌, null_request, keep, fail, advance, expect,
  take_while, take_value, byte, next_byte, no_colon, no_space_after_colon, no_space_after_method,
  no_space_after_path, no_slash, no_dot, unexpected_eof,
}
use mimino.Http.Request.Line.{
  parse_line, parse_method, parse_path, parse_http, parse_version, parse_crlf,
  is_valid_http_path_char, can_handle_http_ver,
}
use mimino.Http.Request.Header.{
  Step, finished, next, is_name_char, handle_header, set_ranges, is_header, parse_name_value,
  parse_header, step_of,
}
use mimino.Http.Request.Sound.Opening.{
  Ends, Any, >>=-Ends, some-ne-none, advance-Ends, expect-Ends, keep-Ends, take_while-Ends, Names,
  NamesOut, parse_line-Ends,
}

handle_header-Names :
    (req : Request) (hn : Bytes) (hn_len : ℕ) (value hv : Bytes) (hv_len : ℕ)
    → Names req
    → Names (handle_header req hn hn_len value hv hv_len)
unfolding handle_header
handle_header-Names req hn hn_len value hv hv_len n =
    elim (Bool-cases (is_header (codes "Host:") hn hn_len)) [
      | inl e ↦ rw e n
      | inr e₁ ↦ elim (Bool-cases (is_header (codes "User-Agent:") hn hn_len)) [
        | inl e ↦ rw (e₁, e) n
        | inr e₂ ↦ elim (Bool-cases (is_header (codes "Accept:") hn hn_len)) [
          | inl e ↦ rw (e₁, e₂, e) n
          | inr e₃ ↦ elim (Bool-cases (is_header (codes "Connection:") hn hn_len)) [
            | inl e ↦ rw (e₁, e₂, e₃, e) n
            | inr e₄ ↦ elim (Bool-cases (is_header (codes "Range:") hn hn_len)) [
              | inl e ↦ rw (e₁, e₂, e₃, e₄, e) n
              | inr e ↦ rw (e₁, e₂, e₃, e₄, e) n
            ]
          ]
        ]
      ]
    ]

take_value-Ends : (req : Request) (str : Bytes) (left : ℕ) → Ends Any (take_value req str left)
unfolding take_value
take_value-Ends req [] left = some-ne-none _
take_value-Ends req (b ∷ str) left = elim (Bool-cases (b == b'\r' && first str == b'\n')) [
  | inl e ↦ rw e tt
  | inr e ↦ elim (Bool-cases (b == 0)) [
    | inl g ↦ rw (e, g) (some-ne-none _)
    | inr g ↦ elim (Bool-cases (leb left 1)) [
      | inl k ↦ rw (e, g, k) (some-ne-none unexpected_eof)
      | inr k ↦
          rw (e, g, k)
            (keep-Ends b (take_value req str (left - 1)) (take_value-Ends req str (left - 1)))
    ]
  ]
]

parse_name_value-Ends :
    (req : Request) (hn : Cursor) → Names req → Ends NamesOut (parse_name_value req hn)
unfolding parse_name_value
parse_name_value-Ends req hn n =
    >>=-Ends Any NamesOut (take_while req is_name_char hn.str hn.left) _
      (take_while-Ends req is_name_char hn.str hn.left)
      λ name _.
        >>=-Ends Any NamesOut (expect req b':' no_colon name.1) _
          (expect-Ends req b':' no_colon name.1)
          λ c₂ _.
            >>=-Ends Any NamesOut (expect req b' ' no_space_after_colon c₂) _
              (expect-Ends req b' ' no_space_after_colon c₂)
              λ hv _.
                >>=-Ends Any NamesOut (take_value req hv.str hv.left) _
                  (take_value-Ends req hv.str hv.left)
                  λ value _.
                    >>=-Ends Any NamesOut (advance req 2 value.1) _ (advance-Ends req 2 value.1)
                      λ c₄ _.
                        handle_header-Names req hn.str (length name.0) (c_string value.0) hv.str
                          (length value.0) n

-- A request that is returned without error has the names.
abbrev Settled : Request → Type 0
Settled r = r.error ≡ none → Names r

abbrev Settles : Step → Type 0
Settles (finished r) = Settled r
Settles (next r c) = Names r

step_of-Settles : (m : Parse (Request × Cursor)) → Ends NamesOut m → Settles (step_of m)
step_of-Settles (stop r) h = λ e. absurd (h e)
step_of-Settles (go out) h = h

parse_header-Settles : (req : Request) (c : Cursor) → Names req → Settles (parse_header req c)
unfolding parse_header
parse_header-Settles req c n = elim (Bool-cases (byte c == b'\r' && next_byte c == b'\n')) [
  | inl e ↦ rw e (λ _. n)
  | inr e ↦ rw e (step_of-Settles (parse_name_value req c) (parse_name_value-Ends req c n))
]

parse_headers-Settled :
    (fuel : ℕ) (req : Request) (c : Cursor) (r : Request)
    → Names req
    → parse_headers fuel req c ≡ some r
    → Settled r
unfolding parse_headers
parse_headers-Settled zero req c r n h = absurd cc
parse_headers-Settled (suc fuel) req c r n h =
    elim (parse_header req c)
        as (λ s.
          Settles s
          → (elim s [ finished q ↦ some q | next q c' ↦ parse_headers fuel q c' ]) ≡ some r
          → Settled r) [
            | finished q ↦ λ k e. subst Settled (some-injective q r e) k
            | next q c' ↦ λ k e. parse_headers-Settled fuel q c' r k e
          ]
      (parse_header-Settles req c n) h

after_line-Settled :
    (fuel : ℕ) (m : Parse (Request × Cursor)) (r : Request)
    → Ends NamesOut m
    → after_line fuel m ≡ some r
    → Settled r
unfolding after_line
after_line-Settled fuel (stop q) r h e = subst Settled (some-injective q r e) (λ g. absurd (h g))
after_line-Settled fuel (go (req, c)) r h e = parse_headers-Settled fuel req c r h e

-- A request that the parser returns without an error has a method, a path, and a version that the
-- server can handle.
pub parse_http_request-Names :
    (received beyond : Bytes) (r : Request)
    → parse_http_request received beyond ≡ some r
    → r.error ≡ none
    → Names r
unfolding parse_http_request
parse_http_request-Names received beyond r h =
    after_line-Settled (length received + 1)
      (parse_line null_request (record { str = received ++ beyond; left = length received })) r
      (parse_line-Ends null_request (record { str = received ++ beyond; left = length received })) h
