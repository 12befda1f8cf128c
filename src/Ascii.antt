-- ===== src/Ascii.antt =====
-- ascii.c: the character classes. A `char` is the number of its byte: the bytes from 128 on,
-- negative as `char`, are in no class, whichever way they are read.
use mimino.Base.{ℕ, Bool, true, false, ◌&&◌, ◌||◌, leb, ◌==◌, if◌then◌else◌}

unfoldable pub is_upper_ascii : ℕ → Bool
is_upper_ascii c = leb b'A' c && leb c b'Z'

unfoldable pub is_alpha : ℕ → Bool
is_alpha c = (leb b'a' c && leb c b'z') || (leb b'A' c && leb c b'Z')

unfoldable pub is_digit : ℕ → Bool
is_digit c = leb b'0' c && leb c b'9'

unfoldable pub is_alnum : ℕ → Bool
unfolding is_digit is_alpha
is_alnum c = is_digit c || is_alpha c

unfoldable pub is_hex : ℕ → Bool
unfolding is_digit
is_hex c = is_digit c || (leb b'A' c && leb c b'F') || (leb b'a' c && leb c b'f')

-- The characters of RFC 3986, section 2.3, need no encoding.
unfoldable pub needs_encoding : ℕ → Bool
unfolding is_alnum
needs_encoding c =
    if is_alnum c
    then false
    else if c == b'-' || c == b'.' || c == b'_' || c == b'~'
    then false
    else true
