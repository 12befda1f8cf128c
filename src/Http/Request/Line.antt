-- ===== src/Http/Request/Line.antt =====
-- The request line, up to the headers.
use mimino.Base.{
  ℕ, Bool, true, not, ◌||◌, Bytes, ◌∷◌, ◌++◌, some, ◌==◌, if◌then◌else◌, codes, c_string, str_eq,
  strncmp_eq, strchr_found, length,
}
use mimino.Ascii.{is_alpha, is_digit, is_upper_ascii}
use mimino.Http.Request.Reader.{
  Request, Cursor, Parse, ◌>>=◌, fail, go, byte, next_byte, advance, expect, take_while,
  invalid_method, no_space_after_method, invalid_path, no_space_after_path, no_http, no_slash,
  no_dot, bad_version, no_crlf_after_version,
}

unfoldable pub is_valid_http_path_char : ℕ → Bool
unfolding is_alpha is_digit strchr_found
is_valid_http_path_char c =
    if is_alpha c || is_digit c then true else strchr_found (codes "!$?&'()*+,;=%-._~:@/") c

unfoldable pub can_handle_http_ver : Bytes → Bool
unfolding str_eq
can_handle_http_ver ver =
    str_eq (codes "0.9") ver || str_eq (codes "1.0") ver || str_eq (codes "1.1") ver

-- method and the space behind it
unfoldable pub parse_method : Request → Cursor → Parse (Request × Cursor)
unfolding take_while is_upper_ascii expect
parse_method req c = do
  (token, c') ← take_while req is_upper_ascii c.str c.left
  if length token == 0 then fail req invalid_method else do
    let req' = record req { method = some (c_string token) }
    c'' ← expect req' b' ' no_space_after_method c'
    go (req', c'')

-- path and the space behind it
unfoldable pub parse_path : Request → Cursor → Parse (Request × Cursor)
unfolding take_while is_valid_http_path_char expect
parse_path req c = do
  (token, c') ← take_while req is_valid_http_path_char c.str c.left
  if length token == 0 then fail req invalid_path else do
    let req' = record req { path = some (c_string token) }
    c'' ← expect req' b' ' no_space_after_path c'
    go (req', c'')

-- "HTTP/"
unfoldable pub parse_http : Request → Cursor → Parse Cursor
unfolding strncmp_eq advance expect
parse_http req c =
    if not (strncmp_eq (codes "HTTP") c.str 4)
    then fail req no_http
    else do c' ← advance req 4 c; expect req b'/' no_slash c'

-- the version number
unfoldable pub parse_version : Request → Cursor → Parse (Request × Cursor)
unfolding take_while is_digit expect can_handle_http_ver
parse_version req c = do
  (major, c') ← take_while req is_digit c.str c.left
  c'' ← expect req b'.' no_dot c'
  (minor, c''') ← take_while req is_digit c''.str c''.left
  let ver = c_string (major ++ (b'.' ∷ minor))
  let req' = record req { version_number = some ver }
  if not (can_handle_http_ver ver) then fail req' bad_version else go (req', c''')

-- CRLF
unfoldable pub parse_crlf : Request → Cursor → Parse Cursor
unfolding advance
parse_crlf req c =
    if not (byte c == b'\r') || not (next_byte c == b'\n')
    then fail req no_crlf_after_version
    else advance req 2 c

unfoldable pub parse_line : Request → Cursor → Parse (Request × Cursor)
unfolding parse_method parse_path parse_http parse_version parse_crlf
parse_line req c = do
  (r₁, c₁) ← parse_method req c
  (r₂, c₂) ← parse_path r₁ c₁
  c₃ ← parse_http r₂ c₂
  (r₄, c₄) ← parse_version r₂ c₃
  c₅ ← parse_crlf r₄ c₄
  go (r₄, c₅)
