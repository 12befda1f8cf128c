-- ===== src/Http/Request/Total/Line.antt =====
-- The request line leaves no more than it found.
use mimino.Base.{
  strncmp_eq, codes, c_string, ◌≤◌, not, some, ◌≡◌, arith, ◌==◌, length, inl, inr, Bool-cases,
}
use mathlib.Core.Path.{subst}
use mimino.Ascii.{is_upper_ascii, is_digit}
use mimino.Http.Request.Reader.{
  Request, Cursor, go, advance, expect, take_while, no_space_after_method, no_space_after_path,
  no_slash, no_dot,
}
use mimino.Http.Request.Line.{
  parse_line, parse_method, parse_path, parse_http, parse_version, parse_crlf,
  is_valid_http_path_char,
}
use mimino.Http.Request.Total.Tokens.{
  >>=-eq-go, advance-left, expect-left, Leaves, take_while-Leaves,
}

pub parse_method-left :
    (req : Request) (c : Cursor) {out : Request × Cursor}
    → parse_method req c ≡ go out
    → out.1.left ≤ c.left
unfolding parse_method
parse_method-left req c h =
    let (t, e, h₁) = >>=-eq-go (take_while req is_upper_ascii c.str c.left) _ h in
    let l = subst (Leaves c.left) e (take_while-Leaves req is_upper_ascii c.str c.left) in
    elim (Bool-cases (length t.0 == 0)) [
      | inl z ↦ cc (rw z at h₁)
      | inr z ↦
          let (c₂, e₂, h₂) =
            >>=-eq-go
              (expect (record req { method = some (c_string t.0) }) b' ' no_space_after_method t.1)
              _ (rw z at h₁) in
          let l₂ =
            expect-left (record req { method = some (c_string t.0) }) b' ' no_space_after_method t.1
              e₂ in
          ground arith
    ]

pub parse_path-left :
    (req : Request) (c : Cursor) {out : Request × Cursor}
    → parse_path req c ≡ go out
    → out.1.left ≤ c.left
unfolding parse_path
parse_path-left req c h =
    let (t, e, h₁) = >>=-eq-go (take_while req is_valid_http_path_char c.str c.left) _ h in
    let l = subst (Leaves c.left) e (take_while-Leaves req is_valid_http_path_char c.str c.left) in
    elim (Bool-cases (length t.0 == 0)) [
      | inl z ↦ cc (rw z at h₁)
      | inr z ↦
          let (c₂, e₂, h₂) =
            >>=-eq-go
              (expect (record req { path = some (c_string t.0) }) b' ' no_space_after_path t.1) _
              (rw z at h₁) in
          let l₂ =
            expect-left (record req { path = some (c_string t.0) }) b' ' no_space_after_path t.1
              e₂ in
          ground arith
    ]

pub parse_http-left :
    (req : Request) (c : Cursor) {out : Cursor} → parse_http req c ≡ go out → out.left ≤ c.left
unfolding parse_http
parse_http-left req c h = elim (Bool-cases (not (strncmp_eq (codes "HTTP") c.str 4))) [
  | inl z ↦ cc (rw z at h)
  | inr z ↦
      let (c₁, e₁, h₁) = >>=-eq-go (advance req 4 c) _ (rw z at h) in
      let l₁ = advance-left req 4 c (omega arith) e₁ in
      let l₂ = expect-left req b'/' no_slash c₁ h₁ in omega arith
]

pub parse_version-left :
    (req : Request) (c : Cursor) {out : Request × Cursor}
    → parse_version req c ≡ go out
    → out.1.left ≤ c.left
unfolding parse_version
parse_version-left req c h =
    let (t₁, e₁, h₁) = >>=-eq-go (take_while req is_digit c.str c.left) _ h in
    let (c₂, e₂, h₂) = >>=-eq-go (expect req b'.' no_dot t₁.1) _ h₁ in
    let (t₃, e₃, h₃) = >>=-eq-go (take_while req is_digit c₂.str c₂.left) _ h₂ in
    let l₁ = subst (Leaves c.left) e₁ (take_while-Leaves req is_digit c.str c.left) in
    let l₂ = expect-left req b'.' no_dot t₁.1 e₂ in
    let l₃ = subst (Leaves c₂.left) e₃ (take_while-Leaves req is_digit c₂.str c₂.left) in
    ground arith

pub parse_crlf-left :
    (req : Request) (c : Cursor) {out : Cursor} → parse_crlf req c ≡ go out → out.left ≤ c.left
unfolding parse_crlf advance
parse_crlf-left req c h = ground arith

pub parse_line-left :
    (req : Request) (c : Cursor) {out : Request × Cursor}
    → parse_line req c ≡ go out
    → out.1.left ≤ c.left
unfolding parse_line
parse_line-left req c h =
    let (s₁, e₁, h₁) = >>=-eq-go (parse_method req c) _ h in
    let (s₂, e₂, h₂) = >>=-eq-go (parse_path s₁.0 s₁.1) _ h₁ in
    let (c₃, e₃, h₃) = >>=-eq-go (parse_http s₂.0 s₂.1) _ h₂ in
    let (s₄, e₄, h₄) = >>=-eq-go (parse_version s₂.0 c₃) _ h₃ in
    let (c₅, e₅, h₅) = >>=-eq-go (parse_crlf s₄.0 s₄.1) _ h₄ in
    let l₁ = parse_method-left req c e₁ in
    let l₂ = parse_path-left s₁.0 s₁.1 e₂ in
    let l₃ = parse_http-left s₂.0 s₂.1 e₃ in
    let l₄ = parse_version-left s₂.0 c₃ e₄ in let l₅ = parse_crlf-left s₄.0 s₄.1 e₅ in ground arith
