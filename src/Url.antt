-- ===== src/Url.antt =====
-- http.c: `buf_encode_url` and `decode_url`. A `char` is the number of its byte; `>>` of a
-- negative `char` followed by `& 0xF` gives the byte's high digit, as `/ 16` does here.
pub mod Encode
pub mod Decode
use mimino.Base.{
  ℕ, ◌+◌, ◌-◌, ◌*◌, ◌/◌, ◌%◌, Bool, ◌&&◌, Bytes, [], ◌∷◌, Option, some, ◌>>=◌, bit_or, leb, ◌==◌,
  if◌then◌else◌, codes, get_or, c_string,
}
use mimino.Ascii.{is_hex, needs_encoding}
use mimino.Buffer.{Buffer, buf_push}

abbrev hex : Bytes
hex = codes "0123456789ABCDEF"

-- the three pushes for a character that needs encoding
unfoldable pub encode_hex : Buffer → ℕ → Option Buffer
encode_hex buf c = do
  b ← buf_push buf b'%'
  b' ← buf_push b (get_or hex (c / 16 % 16) 0)
  buf_push b' (get_or hex (c % 16) 0)

-- the body of the loop
unfoldable pub encode_char : Buffer → ℕ → Option Buffer
encode_char buf c = if needs_encoding c then encode_hex buf c else buf_push buf c

unfoldable pub buf_encode_url : Buffer → Bytes → Option Buffer
buf_encode_url buf [] = some buf
buf_encode_url buf (c ∷ url) = do b ← encode_char buf c; buf_encode_url b url

-- the ladder that gives a hex digit's value; a byte that is none leaves 0
unfoldable pub hex_digit : ℕ → ℕ
hex_digit c =
    if leb b'A' c && leb c b'F'
    then 0x0A + (c - b'A')
    else if leb b'a' c && leb c b'f'
    then 0x0A + (c - b'a')
    else if leb b'0' c && leb c b'9'
    then c - b'0'
    else 0

-- `*p = *p << 4` in a `char`, and `|=`
unfoldable pub hex_byte : ℕ → ℕ → ℕ
unfolding hex_digit
hex_byte h l = bit_or (hex_digit h * 16 % 256) (hex_digit l)

-- The bytes that `decode_url` writes: two characters of lookahead, where the text has them.
unfoldable pub decode_bytes : Bytes → Bytes
decode_bytes [] = []
decode_bytes (c ∷ []) = c ∷ []
decode_bytes (c ∷ d ∷ []) =
    let plain = c ∷ decode_bytes (d ∷ []) in if c == b'%' && d == b'%' then b'%' ∷ [] else plain
decode_bytes (c ∷ d ∷ e ∷ url) =
    let plain = c ∷ decode_bytes (d ∷ e ∷ url) in
    let percent = b'%' ∷ decode_bytes (e ∷ url) in
    let byte = hex_byte d e ∷ decode_bytes url in
    if c == b'%'
    then (if d == b'%' then percent else if is_hex d && is_hex e then byte else plain)
    else plain

-- What the caller sees of the bytes: a C string ends at its first NUL, "%00" included.
unfoldable pub decode_url : Bytes → Bytes
unfolding decode_bytes hex_byte is_hex
decode_url url = c_string (decode_bytes url)
