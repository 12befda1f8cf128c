-- ===== src/Url/Encode.antt =====
-- What `buf_encode_url` writes.
use mimino.Base.{
  true, false, ◌≡◌, All, All-append, holds_up_to, holds_up_to_at, ℕ, ◌+◌, ◌*◌, ◌/◌, ◌%◌, ◌^◌, ◌≤◌,
  ◌<◌, Bytes, [], ◌∷◌, ◌++◌, Option, ◌>>=◌, refl, inl, inr, arith, if◌then◌else◌, Bool-cases,
  length, length-append, get_or, append-nil, append_assoc,
}
use mimino.Ascii.{needs_encoding}
use mimino.Buffer.{Buffer, buf_push}
use mimino.Buffer.Append.{Holds, Appended, buf_push-Appended, length-Holds}
use mimino.Http.Request.Line.{is_valid_http_path_char}
use mimino.Url.{hex, encode_hex, encode_char, buf_encode_url}

-- the text of one character
abbrev pub encoded_char : ℕ → Bytes
encoded_char c =
    if needs_encoding c
    then b'%' ∷ get_or hex (c / 16 % 16) 0 ∷ get_or hex (c % 16) 0 ∷ []
    else c ∷ []

abbrev pub encoded : Bytes → Bytes
encoded [] = []
encoded (c ∷ url) = encoded_char c ++ encoded url

-- An operation that appends `xs` and one that then appends `ys` append both.
pub >>=-Appended :
    (bs xs ys : Bytes) {r : Option Buffer} (f : Buffer → Option Buffer)
    → Appended bs xs r
    → ((b : Buffer) → Holds b (bs ++ xs) → Appended (bs ++ xs) ys (f b))
    → Appended bs (xs ++ ys) (r >>= f)
>>=-Appended bs xs ys f (b, e, h) next =
    let (b', e', h') = next b h in (b', rw e e', rw append_assoc at h')

push-Appended :
    {b : Buffer} {cs : Bytes} (d : ℕ)
    → Holds b cs
    → length cs + 1 < 2 ^ 62
    → Appended cs (d ∷ []) (buf_push b d)
push-Appended {cs = cs} d h small = buf_push-Appended h d (omega (arith, length-Holds cs h))

module _ {b : Buffer} {bs : Bytes} (c : ℕ) (h : Holds b bs) (small : length bs + 3 < 2 ^ 62) where
  encode_hex-Appended :
      Appended bs (b'%' ∷ get_or hex (c / 16 % 16) 0 ∷ get_or hex (c % 16) 0 ∷ []) (encode_hex b c)
  unfolding encode_hex
  encode_hex-Appended =
      >>=-Appended bs (b'%' ∷ []) _ _ (push-Appended b'%' h (omega arith)) (λ b₁ h₁.
        >>=-Appended _ (high ∷ []) _ _
          (push-Appended high h₁ (omega (arith, length-append bs (b'%' ∷ []))))
          (λ b₂ h₂. push-Appended _ h₂ (
            omega
              (arith, length-append (bs ++ b'%' ∷ []) (high ∷ []), length-append bs (b'%' ∷ [])))))
    where
      high : ℕ
      high = get_or hex (c / 16 % 16) 0

  encode_char-Appended : Appended bs (encoded_char c) (encode_char b c)
  unfolding encode_char
  encode_char-Appended = elim (Bool-cases (needs_encoding c)) [
    | inl e ↦ rw e encode_hex-Appended
    | inr e ↦ rw e (push-Appended c h (omega arith))
  ]

length-encoded_char : (c : ℕ) → length (encoded_char c) ≤ 3
length-encoded_char c = ground arith

pub length-encoded : (url : Bytes) → length (encoded url) ≤ 3 * length url
length-encoded [] = omega arith
length-encoded (c ∷ url) =
    omega (
      arith,
      length-append (encoded_char c) (encoded url),
      length-encoded_char c,
      length-encoded url,
    )

-- `buf_encode_url` stays inside the buffer's allocations and appends the encoded text.
pub buf_encode_url-Appended :
    (url : Bytes) {b : Buffer} {bs : Bytes}
    → Holds b bs
    → length bs + 3 * length url < 2 ^ 62
    → Appended bs (encoded url) (buf_encode_url b url)
unfolding buf_encode_url
buf_encode_url-Appended [] {b} h small = (b, refl, rw append-nil h)
buf_encode_url-Appended (c ∷ url) {bs = bs} h small =
    >>=-Appended bs (encoded_char c) (encoded url) _ (encode_char-Appended c h (omega arith))
      (λ b' h'.
        buf_encode_url-Appended url h'
          (omega (arith, length-append bs (encoded_char c), length-encoded_char c)))

hex_table : holds_up_to (λ d. is_valid_http_path_char (get_or hex d 0)) 15 ≡ true
unfolding holds_up_to is_valid_http_path_char
hex_table = refl

hex_digit_valid : (n : ℕ) → is_valid_http_path_char (get_or hex (n % 16) 0) ≡ true
hex_digit_valid n =
    holds_up_to_at (λ d. is_valid_http_path_char (get_or hex d 0)) 15 (n % 16) hex_table
      (omega arith)

unreserved_valid : (c : ℕ) → needs_encoding c ≡ false → is_valid_http_path_char c ≡ true
unfolding needs_encoding is_valid_http_path_char
unreserved_valid c h = ground arith

encoded_char_valid : (c : ℕ) → All (λ c. is_valid_http_path_char c ≡ true) (encoded_char c)
encoded_char_valid c = elim (Bool-cases (needs_encoding c)) [
  | inl e ↦ rw e (percent, (hex_digit_valid (c / 16), (hex_digit_valid c, tt)))
  | inr e ↦ rw e (unreserved_valid c e, tt)
]
  where
    percent : is_valid_http_path_char b'%' ≡ true
    percent = unfold is_valid_http_path_char in refl

-- Whatever the text, a request's path may hold each character of its encoding.
pub encoded_valid : (url : Bytes) → All (λ c. is_valid_http_path_char c ≡ true) (encoded url)
encoded_valid [] = tt
encoded_valid (c ∷ url) =
    All-append (λ c. is_valid_http_path_char c ≡ true) (encoded_char c) (encoded url)
      (encoded_char_valid c) (encoded_valid url)
