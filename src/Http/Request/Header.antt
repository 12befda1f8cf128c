-- ===== src/Http/Request/Header.antt =====
-- One round of the loop over the headers.
use mimino.Base.{
  ℕ, ◌+◌, Bool, ◌&&◌, ◌||◌, Bytes, some, ◌==◌, if◌then◌else◌, codes, c_string, strncasecmp_eq,
  length,
}
use mimino.Ascii.{is_alpha}
use mimino.Http.Range.{parse_range_header}
use mimino.Http.Request.Reader.{
  Request, Cursor, Parse, ◌>>=◌, go, stop, byte, next_byte, advance, expect, take_while, take_value,
  no_colon, no_space_after_colon,
}

pub data Step : Type 0 where
  -- the parser returns
  finished : Request → Step
  -- the loop goes on
  next : Request → Cursor → Step

abbrev pub is_name_char : ℕ → Bool
is_name_char c = is_alpha c || c == b'-'

-- `hn`, of `hn_len` bytes, with the colon behind it, is the header with the given name and colon.
unfoldable pub is_header : Bytes → Bytes → ℕ → Bool
unfolding strncasecmp_eq
is_header name hn hn_len = strncasecmp_eq name hn (hn_len + 1)

-- `parse_range_header`, whose result is not looked at; `hv` is the memory from the value on.
unfoldable pub set_ranges : Request → Bytes → ℕ → Request
unfolding parse_range_header
set_ranges req hv hv_len = record req { ranges = (parse_range_header hv hv_len req.ranges).0 }

-- the chain of tests on the header's name
unfoldable pub handle_header : Request → Bytes → ℕ → Bytes → Bytes → ℕ → Request
unfolding is_header set_ranges
handle_header req hn hn_len value hv hv_len =
    if is_header (codes "Host:") hn hn_len
    then record req { host = some value }
    else if is_header (codes "User-Agent:") hn hn_len
    then record req { user_agent = some value }
    else if is_header (codes "Accept:") hn hn_len
    then record req { accept = some value }
    else if is_header (codes "Connection:") hn hn_len
    then record req { connection = some value }
    else if is_header (codes "Range:") hn hn_len
    then set_ranges req hv hv_len
    else req

-- a header that is no final CRLF
unfoldable pub parse_name_value : Request → Cursor → Parse (Request × Cursor)
unfolding take_while is_alpha expect take_value advance handle_header
parse_name_value req hn = do
  (name, c₁) ← take_while req is_name_char hn.str hn.left
  c₂ ← expect req b':' no_colon c₁
  hv ← expect req b' ' no_space_after_colon c₂
  (value, c₃) ← take_value req hv.str hv.left
  c₄ ← advance req 2 c₃
  go (handle_header req hn.str (length name) (c_string value) hv.str (length value), c₄)

abbrev pub step_of : Parse (Request × Cursor) → Step
step_of (stop req) = finished req
step_of (go (req, c)) = next req c

unfoldable pub parse_header : Request → Cursor → Step
unfolding parse_name_value
parse_header req c =
    if byte c == b'\r' && next_byte c == b'\n'
    then finished req
    else step_of (parse_name_value req c)
