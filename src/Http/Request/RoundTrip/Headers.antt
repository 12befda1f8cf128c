-- ===== src/Http/Request/RoundTrip/Headers.antt =====
-- The loop over the headers, on headers in text.
use mimino.Base.{
  ℕ, zero, suc, ◌+◌, ◌-◌, ◌≤◌, ◌<◌, ◌≢◌, true, false, Bytes, List, [], ◌∷◌, ◌++◌, some, ◌≡◌, refl,
  ap, arith, ◌==◌, if◌then◌else◌, length, All, codes, c_string, c_string_lem, All-map_of,
  strcasecmp_eq, length-append,
}
use mimino.Ascii.{is_alpha}
use mimino.Http.Range.{first}
use mimino.Http.Request.{parse_headers}
use mimino.Http.Request.Reader.{Request, go, no_colon, no_space_after_colon}
use mimino.Http.Request.Header.{
  is_name_char, set_ranges, handle_header, parse_name_value, parse_header, finished, next,
}
use mimino.Http.Request.RoundTrip.Tokens.{
  take_while_token, take_value_token, advance_two, expect_over, is_header-strcasecmp_eq, IsValue,
}

pub record Header : Type 0 where
  pub name : Bytes
  pub value : Bytes

-- Letters and dashes, and a value with no NUL and no carriage return.
pub record IsHeader (h : Header) : Type 0 where
  pub name_chars : All (λ c. is_name_char c ≡ true) h.name
  pub value_chars : IsValue h.value

-- the text of the headers and of the empty line, in front of `rest`
abbrev pub headers_text : List Header → Bytes → Bytes
headers_text [] rest = b'\r' ∷ b'\n' ∷ rest
headers_text (h ∷ hs) rest =
    h.name ++ (b':' ∷ b' ' ∷ (h.value ++ (b'\r' ∷ b'\n' ∷ headers_text hs rest)))

-- A header sets the field that its name stands for, in whatever case. `behind` is the memory
-- behind the value.
abbrev pub effect : Request → Header → Bytes → Request
effect req h behind =
    if strcasecmp_eq (codes "Host") h.name
    then record req { host = some h.value }
    else if strcasecmp_eq (codes "User-Agent") h.name
    then record req { user_agent = some h.value }
    else if strcasecmp_eq (codes "Accept") h.name
    then record req { accept = some h.value }
    else if strcasecmp_eq (codes "Connection") h.name
    then record req { connection = some h.value }
    else if strcasecmp_eq (codes "Range") h.name
    then set_ranges req (h.value ++ behind) (length h.value)
    else req

abbrev pub effects : Request → List Header → Bytes → Request
effects req [] rest = req
effects req (h ∷ hs) rest = effects (effect req h (b'\r' ∷ b'\n' ∷ headers_text hs rest)) hs rest

c_string_value : (value : Bytes) → IsValue value → c_string value ≡ value
c_string_value value h =
    c_string_lem value (All-map_of (λ c. (c ≢ 0) × (c ≢ b'\r')) (λ c. c ≢ 0) (λ c p. p.0) value h)

handle_header-effect :
    (req : Request) (h : Header) (rest behind : Bytes)
    → IsHeader h
    → handle_header req
        (h.name ++ (b':' ∷ rest))
        (length h.name)
        h.value
        (h.value ++ behind)
        (length h.value)
      ≡ effect req h behind
unfolding handle_header is_alpha
handle_header-effect req h rest behind w =
    let test = λ (name : Bytes) (k : All (λ c. is_name_char c ≡ true) name).
      is_header-strcasecmp_eq name h.name rest k w.name_chars in
    rw (
      test (codes "Host") (ground arith),
      test (codes "User-Agent") (ground arith),
      test (codes "Accept") (ground arith),
      test (codes "Connection") (ground arith),
      test (codes "Range") (ground arith),
    )

parse_name_value-effect :
    (req : Request) (h : Header) (rest : Bytes) (left : ℕ)
    → IsHeader h
    → length h.name + length h.value + 4 < left
    → parse_name_value req (record {
      str = h.name ++ (b':' ∷ b' ' ∷ (h.value ++ (b'\r' ∷ b'\n' ∷ rest)));
      left = left;
    })
      ≡ go (
        effect req h (b'\r' ∷ b'\n' ∷ rest),
        record { str = rest; left = left - (length h.name + length h.value + 4) },
      )
unfolding parse_name_value
parse_name_value-effect req h rest left w l =
    let len : left - length h.name - 1 - 1 - length h.value - 2
        ≡ left - (length h.name + length h.value + 4) =
      omega arith in
    let colon : is_name_char b':' ≡ false = unfold is_alpha in refl in
    rw
      (
        take_while_token req is_name_char h.name _ b':' left w.name_chars colon (omega arith),
        expect_over req b':' no_colon (b' ' ∷ (h.value ++ (b'\r' ∷ b'\n' ∷ rest)))
            (left - length h.name) (omega arith),
        expect_over req b' ' no_space_after_colon (h.value ++ (b'\r' ∷ b'\n' ∷ rest))
            (left - length h.name - 1) (omega arith),
        take_value_token req h.value rest (left - length h.name - 1 - 1) w.value_chars
            (omega arith),
        c_string_value h.value w.value_chars,
        handle_header-effect req h (b' ' ∷ (h.value ++ (b'\r' ∷ b'\n' ∷ rest)))
            (b'\r' ∷ b'\n' ∷ rest) w,
        advance_two req b'\r' b'\n' rest (left - length h.name - 1 - 1 - length h.value)
            (omega arith),
      )
      (ap (λ n. go (effect req h (b'\r' ∷ b'\n' ∷ rest), record { str = rest; left = n })) len)

-- No header's first byte is a carriage return.
first-IsHeader :
    (h : Header) (rest : Bytes) → IsHeader h → (first (h.name ++ (b':' ∷ rest)) == b'\r') ≡ false
first-IsHeader h rest w = name_first h.name w.name_chars
  where
    name_first :
        (name : Bytes)
        → All (λ c. is_name_char c ≡ true) name
        → (first (name ++ (b':' ∷ rest)) == b'\r') ≡ false
    name_first [] k = refl
    name_first (c ∷ name) k = unfold is_alpha in ground (arith, k.0)

-- the bytes of `headers_text hs []`
abbrev pub text_size : List Header → ℕ
text_size [] = 2
text_size (h ∷ hs) = length h.name + length h.value + 4 + text_size hs

pub length-headers_text :
    (hs : List Header) (rest : Bytes) → length (headers_text hs rest) ≡ text_size hs + length rest
length-headers_text [] rest = omega arith
length-headers_text (h ∷ hs) rest = omega (
  arith,
  length-append h.name (b':' ∷ b' ' ∷ (h.value ++ (b'\r' ∷ b'\n' ∷ headers_text hs rest))),
  length-append h.value (b'\r' ∷ b'\n' ∷ headers_text hs rest),
  length-headers_text hs rest,
)

parse_header_end :
    (req : Request) (rest : Bytes) (left : ℕ)
    → parse_header req (record { str = b'\r' ∷ b'\n' ∷ rest; left = left }) ≡ finished req
unfolding parse_header
parse_header_end req rest left = refl

parse_header-effect :
    (req : Request) (h : Header) (rest : Bytes) (left : ℕ)
    → IsHeader h
    → length h.name + length h.value + 4 < left
    → parse_header req (record {
      str = h.name ++ (b':' ∷ b' ' ∷ (h.value ++ (b'\r' ∷ b'\n' ∷ rest)));
      left = left;
    })
      ≡ next
          (effect req h (b'\r' ∷ b'\n' ∷ rest))
          (record { str = rest; left = left - (length h.name + length h.value + 4) })
unfolding parse_header
parse_header-effect req h rest left w l = rw (
  first-IsHeader h (b' ' ∷ (h.value ++ (b'\r' ∷ b'\n' ∷ rest))) w,
  parse_name_value-effect req h rest left w l,
)

text_size-pos : (hs : List Header) → 2 ≤ text_size hs
text_size-pos [] = omega arith
text_size-pos (h ∷ hs) = omega (arith, text_size-pos hs)

-- Headers in text have their effects, one behind the other, and the loop returns.
pub parse_headers-effects :
    (hs : List Header) (req : Request) (rest : Bytes) (fuel left : ℕ)
    → All IsHeader hs
    → text_size hs ≤ left
    → length hs < fuel
    → parse_headers fuel req (record { str = headers_text hs rest; left = left })
      ≡ some (effects req hs rest)
unfolding parse_headers
parse_headers-effects hs req rest zero left w l f = absurd (omega arith)
parse_headers-effects [] req rest (suc fuel) left w l f =
    rw (parse_header_end req rest left, parse_headers)
parse_headers-effects (h ∷ hs) req rest (suc fuel) left w l f =
    let size = text_size-pos hs in
    rw (parse_header-effect req h (headers_text hs rest) left w.0 (omega arith), parse_headers)
      (parse_headers-effects hs (effect req h (b'\r' ∷ b'\n' ∷ headers_text hs rest)) rest fuel
        (left - (length h.name + length h.value + 4)) w.1 (omega arith) (omega arith))
