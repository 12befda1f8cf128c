-- ===== src/Http/Request/Sound/Opening.antt =====
-- The parser's steps up to the headers stop with an error, or have what they parse.
use mimino.Base.{
  strncmp_eq, codes, c_string, ℕ, ◌-◌, Bool, true, not, ◌||◌, Bytes, [], ◌∷◌, ◌++◌, none, some, ◌≡◌,
  ◌≢◌, refl, leb, ◌==◌, length, inl, inr, Bool-cases,
}
use mimino.Ascii.{is_upper_ascii, is_digit}
use mimino.Http.Request.Reader.{
  Request, Cursor, Parse, ParseError, stop, go, ◌>>=◌, keep, advance, expect, take_while, byte,
  next_byte, no_space_after_method, no_space_after_path, no_slash, no_dot, unexpected_eof,
}
use mimino.Http.Request.Line.{
  parse_line, parse_method, parse_path, parse_http, parse_version, parse_crlf,
  is_valid_http_path_char, can_handle_http_ver,
}

-- The parser stops with an error, or goes on with what has the property.
abbrev pub Ends {ℓ} : {A : Type ℓ} → (A → Type 0) → Parse A → Type 0
Ends P (stop r) = r.error ≢ none
Ends P (go a) = P a

abbrev pub Any {ℓ} : {A : Type ℓ} → A → Type 0
Any a = Unit {0}

pub >>=-Ends {ℓ κ} :
    {A : Type ℓ} {B : Type κ} (P : A → Type 0) (Q : B → Type 0) (m : Parse A) (f : A → Parse B)
    → Ends P m
    → ((a : A) → P a → Ends Q (f a))
    → Ends Q (m >>= f)
>>=-Ends P Q (stop r) f h k = h
>>=-Ends P Q (go a) f h k = k a h

pub some-ne-none {ℓ} : {A : Type ℓ} (a : A) → some a ≢ none
some-ne-none a = λ h. cc

pub advance-Ends : (req : Request) (n : ℕ) (c : Cursor) → Ends Any (advance req n c)
unfolding advance
advance-Ends req n c = elim (Bool-cases (leb c.left n)) [
  | inl e ↦ rw e (some-ne-none unexpected_eof)
  | inr e ↦ rw e tt
]

pub expect-Ends :
    (req : Request) (b : ℕ) (e : ParseError) (c : Cursor) → Ends Any (expect req b e c)
unfolding expect
expect-Ends req b e c = elim (Bool-cases (not (byte c == b))) [
  | inl t ↦ rw t (some-ne-none e)
  | inr t ↦ rw t (advance-Ends req 1 c)
]

pub keep-Ends : (b : ℕ) (m : Parse (Bytes × Cursor)) → Ends Any m → Ends Any (keep b m)
keep-Ends b (stop r) h = h
keep-Ends b (go (token, c)) h = tt

pub take_while-Ends :
    (req : Request) (p : ℕ → Bool) (str : Bytes) (left : ℕ) → Ends Any (take_while req p str left)
unfolding take_while
take_while-Ends req p [] left = elim (Bool-cases (p 0)) [
  | inl e ↦ rw e (some-ne-none unexpected_eof)
  | inr e ↦ rw e tt
]
take_while-Ends req p (b ∷ str) left = elim (Bool-cases (p b)) [
  | inr e ↦ rw e tt
  | inl e ↦ elim (Bool-cases (leb left 1)) [
    | inl g ↦ rw (e, g) (some-ne-none unexpected_eof)
    | inr g ↦
        rw (e, g)
          (keep-Ends b (take_while req p str (left - 1)) (take_while-Ends req p str (left - 1)))
  ]
]

-- a method, or a method and a path, is there
abbrev HasMethod : Request × Cursor → Type 0
HasMethod out = (method : Bytes) × (out.0.method ≡ some method)

abbrev HasPath : Request × Cursor → Type 0
HasPath out = HasMethod out × ((path : Bytes) × (out.0.path ≡ some path))

-- The request names a method, a path and a version that the server can handle.
abbrev pub Names : Request → Type 0
Names r =
    (method : Bytes) × (path : Bytes) × (version : Bytes) × (r.method ≡ some method)
    × (r.path ≡ some path)
    × (r.version_number ≡ some version)
    × (can_handle_http_ver version ≡ true)

parse_method-Ends : (req : Request) (c : Cursor) → Ends HasMethod (parse_method req c)
unfolding parse_method
parse_method-Ends req c =
    >>=-Ends Any HasMethod (take_while req is_upper_ascii c.str c.left) _
      (take_while-Ends req is_upper_ascii c.str c.left)
      λ t _. elim (Bool-cases (length t.0 == 0)) [
        | inl e ↦ rw e (some-ne-none _)
        | inr e ↦ rw e (
            >>=-Ends Any HasMethod
              (expect (record req { method = some (c_string t.0) }) b' ' no_space_after_method t.1)
              _
              (expect-Ends (record req { method = some (c_string t.0) }) b' ' no_space_after_method
                t.1)
              (λ c' _. (c_string t.0, refl)))
      ]

parse_path-Ends :
    (req : Request) (c : Cursor) → HasMethod (req, c) → Ends HasPath (parse_path req c)
unfolding parse_path
parse_path-Ends req c m =
    >>=-Ends Any HasPath (take_while req is_valid_http_path_char c.str c.left) _
      (take_while-Ends req is_valid_http_path_char c.str c.left)
      λ t _. elim (Bool-cases (length t.0 == 0)) [
        | inl e ↦ rw e (some-ne-none _)
        | inr e ↦ rw e (
            >>=-Ends Any HasPath
              (expect (record req { path = some (c_string t.0) }) b' ' no_space_after_path t.1) _
              (expect-Ends (record req { path = some (c_string t.0) }) b' ' no_space_after_path t.1)
              (λ c' _. (m, (c_string t.0, refl))))
      ]

parse_http-Ends : (req : Request) (c : Cursor) → Ends Any (parse_http req c)
unfolding parse_http
parse_http-Ends req c = elim (Bool-cases (not (strncmp_eq (codes "HTTP") c.str 4))) [
  | inl e ↦ rw e (some-ne-none _)
  | inr e ↦ rw e (
      >>=-Ends Any Any (advance req 4 c) _ (advance-Ends req 4 c)
        (λ c' _. expect-Ends req b'/' no_slash c'))
]

abbrev pub NamesOut : Request × Cursor → Type 0
NamesOut out = Names out.0

parse_version-Ends :
    (req : Request) (c : Cursor) → HasPath (req, c) → Ends NamesOut (parse_version req c)
unfolding parse_version
parse_version-Ends req c (m, p) =
    >>=-Ends Any NamesOut (take_while req is_digit c.str c.left) _
      (take_while-Ends req is_digit c.str c.left)
      λ major _.
        >>=-Ends Any NamesOut (expect req b'.' no_dot major.1) _
          (expect-Ends req b'.' no_dot major.1)
          λ c' _.
            >>=-Ends Any NamesOut (take_while req is_digit c'.str c'.left) _
              (take_while-Ends req is_digit c'.str c'.left)
              λ minor _.
                elim (Bool-cases (can_handle_http_ver (c_string (major.0 ++ (b'.' ∷ minor.0))))) [
                  | inl e ↦
                      rw e (m.0, p.0, c_string (major.0 ++ (b'.' ∷ minor.0)), m.1, p.1, refl, e)
                  | inr e ↦ rw e (some-ne-none _)
                ]

parse_crlf-Ends : (req : Request) (c : Cursor) → Ends Any (parse_crlf req c)
unfolding parse_crlf
parse_crlf-Ends req c = elim (Bool-cases (not (byte c == b'\r') || not (next_byte c == b'\n'))) [
  | inl e ↦ rw e (some-ne-none _)
  | inr e ↦ rw e (advance-Ends req 2 c)
]

pub parse_line-Ends : (req : Request) (c : Cursor) → Ends NamesOut (parse_line req c)
unfolding parse_line
parse_line-Ends req c =
    >>=-Ends HasMethod NamesOut (parse_method req c) _ (parse_method-Ends req c) λ a m.
      >>=-Ends HasPath NamesOut (parse_path a.0 a.1) _ (parse_path-Ends a.0 a.1 m) λ b p.
        >>=-Ends Any NamesOut (parse_http b.0 b.1) _ (parse_http-Ends b.0 b.1) λ c' _.
          >>=-Ends NamesOut NamesOut (parse_version b.0 c') _ (parse_version-Ends b.0 c' p)
            λ d n. >>=-Ends Any NamesOut (parse_crlf d.0 d.1) _ (parse_crlf-Ends d.0 d.1) λ e _. n
