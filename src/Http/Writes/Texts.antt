-- ===== src/Http/Writes/Texts.antt =====
-- The text that a sequence of writes appends.
use mimino.Base.{
  ℕ, ◌+◌, ◌*◌, ◌^◌, ◌<◌, ◌≤◌, Bytes, List, [], ◌∷◌, ◌++◌, ◌≡◌, refl, arith, length, length-append,
  append-nil, append_assoc,
}
use mimino.Buffer.{Buffer}
use mimino.Buffer.Append.{
  Holds, Appended, length-Holds, buf_push-Appended, buf_append_str-Appended, buf_sprintf-Appended,
}
use mimino.Url.Encode.{encoded, length-encoded, buf_encode_url-Appended, >>=-Appended}
use mimino.Http.Writes.{Write, str, format, char, url, perform, perform_all}

abbrev pub text_of : Write → Bytes
text_of (str s) = s
text_of (format s) = s
text_of (char c) = c ∷ []
text_of (url s) = encoded s

abbrev pub texts : List Write → Bytes
texts [] = []
texts (w ∷ ws) = text_of w ++ texts ws

-- what a write takes at most, a NUL included
abbrev pub room_of : Write → ℕ
room_of (str s) = length s
room_of (format s) = length s + 1
room_of (char c) = 1
room_of (url s) = 3 * length s

abbrev pub room : List Write → ℕ
room [] = 0
room (w ∷ ws) = room_of w + room ws

perform-Appended :
    (w : Write) {b : Buffer} {bs : Bytes}
    → Holds b bs
    → length bs + room_of w < 2 ^ 62
    → Appended bs (text_of w) (perform w b)
unfolding perform
perform-Appended (str s) {bs = bs} h small =
    buf_append_str-Appended h s (omega (arith, length-Holds bs h))
perform-Appended (format s) {bs = bs} h small =
    buf_sprintf-Appended h s (omega (arith, length-Holds bs h))
perform-Appended (char c) {bs = bs} h small =
    buf_push-Appended h c (omega (arith, length-Holds bs h))
perform-Appended (url s) h small = buf_encode_url-Appended s h small

length-text_of : (w : Write) → length (text_of w) ≤ room_of w
length-text_of (str s) = omega arith
length-text_of (format s) = omega arith
length-text_of (char c) = omega arith
length-text_of (url s) = length-encoded s

-- A sequence of writes stays inside the allocations and appends its texts, below 2^62 bytes.
pub perform_all-Appended :
    (ws : List Write) {b : Buffer} {bs : Bytes}
    → Holds b bs
    → length bs + room ws < 2 ^ 62
    → Appended bs (texts ws) (perform_all ws b)
unfolding perform_all
perform_all-Appended [] {b} {bs} h small = (b, refl, rw append-nil h)
perform_all-Appended (w ∷ ws) {bs = bs} h small =
    >>=-Appended bs (text_of w) (texts ws) _ (perform-Appended w h (omega arith)) (λ b' h'.
      perform_all-Appended ws h' (omega (arith, length-append bs (text_of w), length-text_of w)))

pub texts-append : (vs ws : List Write) → texts (vs ++ ws) ≡ texts vs ++ texts ws
texts-append [] ws = refl
texts-append (v ∷ vs) ws =
    rw (texts-append vs ws, append_assoc (text_of v) (texts vs) (texts ws)) refl
