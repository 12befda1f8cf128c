-- ===== src/Http/Request/RoundTrip/Request.antt =====
-- A whole request in text, and the request that the parser makes of it.
use mimino.Base.{
  ℕ, ◌+◌, ◌-◌, ◌≤◌, ◌<◌, ◌≢◌, true, false, Bytes, List, [], ◌∷◌, ◌++◌, some, ◌≡◌, refl, ap, arith,
  ◌==◌, length, All, codes, c_string, c_string_lem, All-map_of, length-append, append_assoc,
}
use mimino.Ascii.{is_upper_ascii}
use mimino.Http.Request.{after_line, parse_http_request}
use mimino.Http.Request.Reader.{
  Request, go, null_request, no_space_after_method, no_space_after_path,
}
use mimino.Http.Request.Line.{
  is_valid_http_path_char, parse_method, parse_path, parse_http, parse_version, parse_crlf,
  parse_line,
}
use mimino.Http.Request.RoundTrip.Tokens.{take_while_token, expect_over, advance_two}
use mimino.Http.Request.RoundTrip.Headers.{
  Header, IsHeader, headers_text, effects, text_size, length-headers_text, parse_headers-effects,
}

-- the versions that the parser takes: a digit, a dot and a digit
pub data Version : Type 0 where
  http_0_9 http_1_0 http_1_1 : Version

abbrev pub version_text : Version → Bytes
version_text http_0_9 = codes "0.9"
version_text http_1_0 = codes "1.0"
version_text http_1_1 = codes "1.1"

-- What a client sends.
pub record Message : Type 0 where
  pub method : Bytes
  pub path : Bytes
  pub version : Version
  pub headers : List Header

pub record IsMessage (m : Message) : Type 0 where
  pub method_chars : All (λ c. is_upper_ascii c ≡ true) m.method
  pub some_method : 0 < length m.method
  pub path_chars : All (λ c. (is_valid_http_path_char c ≡ true) × (c ≢ 0)) m.path
  pub some_path : 0 < length m.path
  pub header_list : All IsHeader m.headers

-- the text behind the path
abbrev version_rest : Message → Bytes → Bytes
version_rest m rest =
    codes "HTTP/" ++ (version_text m.version ++ (b'\r' ∷ b'\n' ∷ headers_text m.headers rest))

abbrev path_rest : Message → Bytes → Bytes
path_rest m rest = m.path ++ (b' ' ∷ version_rest m rest)

-- the request's text, in front of `rest`
abbrev pub message_text : Message → Bytes → Bytes
message_text m rest = m.method ++ (b' ' ∷ path_rest m rest)

-- The request: its line's parts, and the effects of its headers.
abbrev pub message_request : Message → Bytes → Request
message_request m beyond =
    effects
      (record null_request {
        method = some m.method;
        path = some m.path;
        version_number = some (version_text m.version);
      })
      m.headers beyond

length_version : (v : Version) → length (version_text v) ≡ 3
length_version http_0_9 = refl
length_version _ = refl

pub length-message_text :
    (m : Message) (rest : Bytes)
    → length (message_text m rest)
      ≡ length m.method + length m.path + text_size m.headers + 12 + length rest
length-message_text m rest = omega (
  arith,
  length-append m.method (b' ' ∷ path_rest m rest),
  length-append m.path (b' ' ∷ version_rest m rest),
  length_version m.version,
  length-append (version_text m.version) (b'\r' ∷ b'\n' ∷ headers_text m.headers rest),
  length-headers_text m.headers rest,
)

parse_method_text :
    (req : Request) (method rest : Bytes) (left : ℕ)
    → All (λ c. is_upper_ascii c ≡ true) method
    → 0 < length method
    → length method + 1 < left
    → parse_method req (record { str = method ++ (b' ' ∷ rest); left = left })
      ≡ go (
        record req { method = some method },
        record { str = rest; left = left - length method - 1 },
      )
unfolding parse_method
parse_method_text req method rest left h n l = rw (
  take_while_token req is_upper_ascii method rest b' ' left h space (omega arith),
  some_bytes,
  c_string_lem method nonzero,
  expect_over (record req { method = some method }) b' ' no_space_after_method rest
      (left - length method) (omega arith),
)
  where
    space : is_upper_ascii b' ' ≡ false
    space = unfold is_upper_ascii in refl

    some_bytes : (length method == 0) ≡ false
    some_bytes = ground arith

    upper_nonzero : (c : ℕ) → is_upper_ascii c ≡ true → c ≢ 0
    upper_nonzero c k = unfold is_upper_ascii in ground arith

    nonzero : All (λ c. c ≢ 0) method
    nonzero = All-map_of (λ c. is_upper_ascii c ≡ true) (λ c. c ≢ 0) upper_nonzero method h

parse_path_text :
    (req : Request) (path rest : Bytes) (left : ℕ)
    → All (λ c. (is_valid_http_path_char c ≡ true) × (c ≢ 0)) path
    → 0 < length path
    → length path + 1 < left
    → parse_path req (record { str = path ++ (b' ' ∷ rest); left = left })
      ≡ go (record req { path = some path }, record { str = rest; left = left - length path - 1 })
unfolding parse_path
parse_path_text req path rest left h n l = rw (
  take_while_token req is_valid_http_path_char path rest b' ' left valid space (omega arith),
  some_bytes,
  c_string_lem path nonzero,
  expect_over (record req { path = some path }) b' ' no_space_after_path rest (left - length path)
      (omega arith),
)
  where
    space : is_valid_http_path_char b' ' ≡ false
    space = unfold is_valid_http_path_char in refl

    some_bytes : (length path == 0) ≡ false
    some_bytes = ground arith

    valid : All (λ c. is_valid_http_path_char c ≡ true) path
    valid =
        All-map_of (λ c. (is_valid_http_path_char c ≡ true) × (c ≢ 0))
          (λ c. is_valid_http_path_char c ≡ true) (λ c p. p.0) path h

    nonzero : All (λ c. c ≢ 0) path
    nonzero =
        All-map_of (λ c. (is_valid_http_path_char c ≡ true) × (c ≢ 0)) (λ c. c ≢ 0) (λ c p. p.1)
          path h

parse_http_text :
    (req : Request) (rest : Bytes) (left : ℕ)
    → 5 < left
    → parse_http req (record { str = codes "HTTP/" ++ rest; left = left })
      ≡ go (record { str = rest; left = left - 5 })
unfolding parse_http
parse_http_text req rest left l = ground arith

parse_version_text :
    (req : Request) (v : Version) (rest : Bytes) (left : ℕ)
    → 3 < left
    → parse_version req (record { str = version_text v ++ (b'\r' ∷ rest); left = left })
      ≡ go (
        record req { version_number = some (version_text v) },
        record { str = b'\r' ∷ rest; left = left - 3 },
      )
unfolding parse_version c_string
parse_version_text req http_0_9 rest left l = ground arith
parse_version_text req _ rest left l = ground arith

parse_crlf_text :
    (req : Request) (rest : Bytes) (left : ℕ)
    → 2 < left
    → parse_crlf req (record { str = b'\r' ∷ b'\n' ∷ rest; left = left })
      ≡ go (record { str = rest; left = left - 2 })
unfolding parse_crlf
parse_crlf_text req rest left l = advance_two req b'\r' b'\n' rest left l

module _ (m : Message) (w : IsMessage m) (rest : Bytes) where
  -- the request with its line read
  line_request : Request
  line_request = record null_request {
    method = some m.method;
    path = some m.path;
    version_number = some (version_text m.version);
  }

  parse_line_text :
      (left : ℕ)
      → length m.method + length m.path + 14 ≤ left
      → parse_line null_request (record { str = message_text m rest; left = left })
        ≡ go (
          line_request,
          record {
            str = headers_text m.headers rest;
            left = left - (length m.method + length m.path + 12);
          },
        )
  unfolding parse_line line_request
  parse_line_text left l =
      let r₁ = record null_request { method = some m.method } in
      let r₂ = record r₁ { path = some m.path } in
      let l₁ = left - length m.method - 1 in
      let l₂ = left - length m.method - 1 - length m.path - 1 in
      let headers = headers_text m.headers rest in
      rw
        (
          parse_method_text null_request m.method (path_rest m rest) left w.method_chars
              w.some_method (omega arith),
          parse_path_text r₁ m.path (version_rest m rest) l₁ w.path_chars w.some_path (omega arith),
          parse_http_text r₂ (version_text m.version ++ (b'\r' ∷ b'\n' ∷ headers)) l₂ (omega arith),
          parse_version_text r₂ m.version (b'\n' ∷ headers) (l₂ - 5) (omega arith),
          parse_crlf_text line_request headers (l₂ - 5 - 3) (omega arith),
        )
        (ap (λ n. go (line_request, record { str = headers; left = n })) (omega arith))

headers_text-append :
    (hs : List Header) (xs ys : Bytes) → headers_text hs xs ++ ys ≡ headers_text hs (xs ++ ys)
headers_text-append [] xs ys = refl
headers_text-append (h ∷ hs) xs ys = simp (append_assoc, headers_text-append hs)

message_text-append :
    (m : Message) (xs ys : Bytes) → message_text m xs ++ ys ≡ message_text m (xs ++ ys)
message_text-append m xs ys = simp (append_assoc, headers_text-append)

length-le-text_size : (hs : List Header) → length hs + 2 ≤ text_size hs
length-le-text_size [] = omega arith
length-le-text_size (h ∷ hs) = omega (arith, length-le-text_size hs)

-- The parser reads a well-formed request back. It takes the method, the path and the version as
-- they were sent, and each header has its effect; there is no error, and what stands in memory
-- behind the request has a part only as what stands behind a header's value.
pub parse_http_request-message_text :
    (m : Message) (beyond : Bytes)
    → IsMessage m
    → parse_http_request (message_text m []) beyond ≡ some (message_request m beyond)
unfolding parse_http_request after_line line_request
parse_http_request-message_text m beyond w =
    let size = length-message_text m [] in
    let count = length-le-text_size m.headers in
    rw
      (
        message_text-append m [] beyond,
        parse_line_text m w beyond (length (message_text m [])) (omega arith),
      )
      (parse_headers-effects m.headers (line_request m w beyond) beyond
        (length (message_text m []) + 1)
        (length (message_text m []) - (length m.method + length m.path + 12)) w.header_list
        (omega arith) (omega arith))
