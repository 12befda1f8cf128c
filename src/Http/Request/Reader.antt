-- ===== src/Http/Request/Reader.antt =====
-- The request, the cursor on the buffer, and the parser's ways to move it.
use mimino.Base.{
  ℕ, ◌-◌, Bool, false, not, ◌&&◌, Bytes, [], ◌∷◌, Option, none, some, leb, ◌==◌, if◌then◌else◌,
  drop,
}
use mimino.Http.Range.{Ranges, first}

-- the messages of `req->error`
pub data ParseError : Type 0 where
  unexpected_eof invalid_method no_space_after_method invalid_path : ParseError
  no_space_after_path no_http no_slash no_dot bad_version no_crlf_after_version : ParseError
  no_colon no_space_after_colon no_crlf_at_end : ParseError

-- `Http_Request`, less its buffer; `none` is NULL
pub record Request : Type 0 where
  pub method : Option Bytes
  pub path : Option Bytes
  pub version_number : Option Bytes
  pub host : Option Bytes
  pub user_agent : Option Bytes
  pub accept : Option Bytes
  pub connection : Option Bytes
  pub error : Option ParseError
  pub ranges : Ranges

-- all bytes 0, as `memset` leaves it
abbrev pub null_request : Request
null_request = record {
  method = none;
  path = none;
  version_number = none;
  host = none;
  user_agent = none;
  accept = none;
  connection = none;
  error = none;
  ranges = record {
    range_start_given = false;
    range_start = 0;
    range_end_given = false;
    range_end = 0;
  };
}

pub record Cursor : Type 0 where
  -- the memory from `r` on
  pub str : Bytes
  -- `end - r`
  pub left : ℕ

pub data Parse {ℓ} (A : Type ℓ) : Type ℓ where
  stop : Request → Parse A
  go : A → Parse A

infixl 5 ◌>>=◌
abbrev pub ◌>>=◌ {ℓ κ} : {A : Type ℓ} {B : Type κ} → Parse A → (A → Parse B) → Parse B
stop req >>= f = stop req
go a >>= f = f a

abbrev pub fail {ℓ} : {A : Type ℓ} → Request → ParseError → Parse A
fail req e = stop (record req { error = some e })

-- `*r` and `*(r + 1)`
abbrev pub byte : Cursor → ℕ
byte c = first c.str

abbrev pub next_byte : Cursor → ℕ
next_byte c = first (drop 1 c.str)

-- SAFE_ADVANCE
unfoldable pub advance : Request → ℕ → Cursor → Parse Cursor
advance req n c =
    if leb c.left n
    then fail req unexpected_eof
    else go (record { str = drop n c.str; left = c.left - n })

-- `if (*r != b) error; SAFE_ADVANCE(r, 1);`
unfoldable pub expect : Request → ℕ → ParseError → Cursor → Parse Cursor
unfolding advance
expect req b e c = if not (byte c == b) then fail req e else advance req 1 c

-- put a byte in front of the token read
abbrev pub keep : ℕ → Parse (Bytes × Cursor) → Parse (Bytes × Cursor)
keep b (stop req) = stop req
keep b (go (token, c)) = go (b ∷ token, c)

-- `while (p(*r)) SAFE_ADVANCE(r, 1);`: the bytes passed over, and where `r` stands then
unfoldable pub take_while : Request → (ℕ → Bool) → Bytes → ℕ → Parse (Bytes × Cursor)
take_while req p [] left =
    if p 0 then fail req unexpected_eof else go ([], record { str = []; left = left })
take_while req p (b ∷ str) left =
    let more = keep b (take_while req p str (left - 1)) in
    if p b
    then (if leb left 1 then fail req unexpected_eof else more)
    else go ([], record { str = b ∷ str; left = left })

-- The header's value: up to a CRLF, with no NUL in it.
unfoldable pub take_value : Request → Bytes → ℕ → Parse (Bytes × Cursor)
take_value req [] left = fail req no_crlf_at_end
take_value req (b ∷ str) left =
    let more = keep b (take_value req str (left - 1)) in
    if b == b'\r' && first str == b'\n'
    then go ([], record { str = b ∷ str; left = left })
    else if b == 0
    then fail req no_crlf_at_end
    else if leb left 1
    then fail req unexpected_eof
    else more
