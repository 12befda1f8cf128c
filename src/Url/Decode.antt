-- ===== src/Url/Decode.antt =====
-- `decode_url` undoes `buf_encode_url`, and stays inside its allocation.
use mimino.Base.{
  ◌^◌, ◌*◌, ℕ, ◌+◌, ◌/◌, ◌%◌, ◌≤◌, ◌<◌, ◌≢◌, true, false, Bytes, [], ◌∷◌, ◌++◌, ◌≡◌, refl, ap, ◌∙◌,
  inl, inr, arith, Bool-cases, length, All, All-map_of, get_or, ◌==◌, ==_iff, holds_up_to,
  holds_up_to_at, c_string_lem,
}
use mimino.Ascii.{needs_encoding, is_hex}
use mimino.Url.{hex, hex_byte, decode_bytes, decode_url, buf_encode_url}
use mimino.Buffer.{Buffer}
use mimino.Buffer.Append.{Holds, Appended}
use mimino.Url.Encode.{encoded_char, encoded, buf_encode_url-Appended, encoded_valid}
use mimino.Http.Request.Line.{is_valid_http_path_char}

-- A character other than '%' stands for itself.
decode_plain : (c : ℕ) (rest : Bytes) → c ≢ b'%' → decode_bytes (c ∷ rest) ≡ c ∷ decode_bytes rest
unfolding decode_bytes
decode_plain c [] h = refl
decode_plain c (d ∷ []) h = ground arith
decode_plain c (d ∷ e ∷ rest) h = ground arith

decode_hex :
    (d e : ℕ) (rest : Bytes)
    → is_hex d ≡ true
    → is_hex e ≡ true
    → decode_bytes (b'%' ∷ d ∷ e ∷ rest) ≡ hex_byte d e ∷ decode_bytes rest
unfolding decode_bytes is_hex
decode_hex d e rest h k = ground arith

-- the two hex digits that `buf_encode_url` writes for a byte
abbrev high : ℕ → ℕ
high c = get_or hex (c / 16 % 16) 0

abbrev low : ℕ → ℕ
low c = get_or hex (c % 16) 0

hex_table : holds_up_to (λ d. is_hex (get_or hex d 0)) 15 ≡ true
unfolding holds_up_to is_hex
hex_table = refl

is_hex-hex : (d : ℕ) → d < 16 → is_hex (get_or hex d 0) ≡ true
is_hex-hex d h = holds_up_to_at (λ d. is_hex (get_or hex d 0)) 15 d hex_table (omega arith)

byte_table : holds_up_to (λ c. hex_byte (high c) (low c) == c) 255 ≡ true
unfolding holds_up_to hex_byte
byte_table = refl

hex_byte-digits : (c : ℕ) → c < 256 → hex_byte (high c) (low c) ≡ c
hex_byte-digits c h =
    (==_iff _ c).0
      (holds_up_to_at (λ c. hex_byte (high c) (low c) == c) 255 c byte_table (omega arith))

percent_encoded : (c : ℕ) → needs_encoding c ≡ false → c ≢ b'%'
unfolding needs_encoding
percent_encoded c = ground arith

decode-encoded_char :
    (c : ℕ) (rest : Bytes) → c < 256 → decode_bytes (encoded_char c ++ rest) ≡ c ∷ decode_bytes rest
decode-encoded_char c rest h = elim (Bool-cases (needs_encoding c)) [
  | inl e ↦ rw e (
      decode_hex (high c) (low c) rest (is_hex-hex _ (omega arith)) (is_hex-hex _ (omega arith))
      ∙ ap (λ b. b ∷ decode_bytes rest) (hex_byte-digits c h))
  | inr e ↦ rw e (decode_plain c rest (percent_encoded c e))
]

decode_bytes-encoded : (url : Bytes) → All (λ c. c < 256) url → decode_bytes (encoded url) ≡ url
unfolding decode_bytes
decode_bytes-encoded [] h = refl
decode_bytes-encoded (c ∷ url) h =
    decode-encoded_char c (encoded url) h.0 ∙ ap (◌∷◌ c) (decode_bytes-encoded url h.1)

-- Decoding an encoded C string gives the string back: `url` is any list of nonzero bytes.
decode_url-encoded :
    (url : Bytes) → All (λ c. (c < 256) × (c ≢ 0)) url → decode_url (encoded url) ≡ url
unfolding decode_url
decode_url-encoded url h = rw (decode_bytes-encoded url bytes) (c_string_lem url nonzero)
  where
    bytes : All (λ c. c < 256) url
    bytes = All-map_of (λ c. (c < 256) × (c ≢ 0)) (λ c. c < 256) (λ c p. p.0) url h

    nonzero : All (λ c. c ≢ 0) url
    nonzero = All-map_of (λ c. (c < 256) × (c ≢ 0)) (λ c. c ≢ 0) (λ c p. p.1) url h

-- What `decode_url` writes, the terminating NUL included, fits its allocation of `len + 1` bytes.
length-decode_bytes : (url : Bytes) → length (decode_bytes url) + 1 ≤ length url + 1
unfolding decode_bytes
length-decode_bytes [] = omega arith
length-decode_bytes (c ∷ []) = omega arith
length-decode_bytes (c ∷ d ∷ []) = ground (arith, length-decode_bytes (d ∷ []))
length-decode_bytes (c ∷ d ∷ e ∷ url) = ground (
  arith,
  length-decode_bytes (d ∷ e ∷ url),
  length-decode_bytes (e ∷ url),
  length-decode_bytes url,
)

-- Text without a '%' is left as it is.
decode_bytes_plain : (url : Bytes) → All (λ c. c ≢ b'%') url → decode_bytes url ≡ url
decode_bytes_plain [] h = unfold decode_bytes in refl
decode_bytes_plain (c ∷ url) h = decode_plain c url h.0 ∙ ap (◌∷◌ c) (decode_bytes_plain url h.1)

-- `buf_encode_url` stays inside the buffer's allocations and appends a text that a request's path
-- may hold, and that `decode_url` turns back into the C string encoded.
pub decode_url-buf_encode_url :
    (url : Bytes) {b : Buffer} {bs : Bytes}
    → Holds b bs
    → length bs + 3 * length url < 2 ^ 62
    → All (λ c. (c < 256) × (c ≢ 0)) url
    → (text : Bytes) × Appended bs text (buf_encode_url b url)
      × All (λ c. is_valid_http_path_char c ≡ true) text
      × (decode_url text ≡ url)
decode_url-buf_encode_url url h small bytes = (
  encoded url,
  buf_encode_url-Appended url h small,
  encoded_valid url,
  decode_url-encoded url bytes,
)
