-- ===== src/Http/Request/RoundTrip/Tokens.antt =====
-- The token readers on text that holds a token and its end.
use mimino.Base.{
  ℕ, suc, ◌+◌, ◌-◌, ◌<◌, ◌≢◌, Bool, true, false, ◌&&◌, Bytes, [], ◌∷◌, ◌++◌, ◌≡◌, refl, arith, leb,
  ◌==◌, length, All, to_lower, strncasecmp_eq, strcasecmp_eq,
}
use mimino.Ascii.{is_alpha}
use mimino.Http.Range.{first}
use mimino.Http.Request.Reader.{Request, go, ParseError, advance, expect, take_while, take_value}
use mimino.Http.Request.Header.{is_name_char, is_header}

pub advance_two :
    (req : Request) (a b : ℕ) (rest : Bytes) (left : ℕ)
    → 2 < left
    → advance req 2 (record { str = a ∷ b ∷ rest; left = left })
      ≡ go (record { str = rest; left = left - 2 })
unfolding advance
advance_two req a b rest left h = ground arith

pub expect_over :
    (req : Request) (b : ℕ) (e : ParseError) (rest : Bytes) (left : ℕ)
    → 1 < left
    → expect req b e (record { str = b ∷ rest; left = left })
      ≡ go (record { str = rest; left = left - 1 })
unfolding expect advance
expect_over req b e rest left h = ground arith

-- A token of bytes that pass the test, in front of one that does not, is read whole.
pub take_while_token :
    (req : Request) (p : ℕ → Bool) (token rest : Bytes) (b left : ℕ)
    → All (λ c. p c ≡ true) token
    → p b ≡ false
    → length token < left
    → take_while req p (token ++ (b ∷ rest)) left
      ≡ go (token, record { str = b ∷ rest; left = left - length token })
unfolding take_while
take_while_token req p [] rest b left h e l = rw e (ground arith)
take_while_token req p (c ∷ token) rest b left h e l =
    let more : leb left 1 ≡ false = ground arith in
    rw (h.0, more, take_while_token req p token rest b (left - 1) h.1 e (omega arith))
      (ground arith)

-- no NUL and no carriage return
abbrev pub IsValue : Bytes → Type 0
IsValue = All (λ c. (c ≢ 0) × (c ≢ b'\r'))

pub take_value_token :
    (req : Request) (value rest : Bytes) (left : ℕ)
    → IsValue value
    → length value < left
    → take_value req (value ++ (b'\r' ∷ b'\n' ∷ rest)) left
      ≡ go (value, record { str = b'\r' ∷ b'\n' ∷ rest; left = left - length value })
unfolding take_value
take_value_token req [] rest left h l = ground arith
take_value_token req (c ∷ value) rest left h l =
    let more : leb left 1 ≡ false = ground arith in
    let plain : (c == b'\r' && first (value ++ (b'\r' ∷ b'\n' ∷ rest)) == b'\n') ≡ false =
      ground (arith, h.0.1) in
    let nonzero : (c == 0) ≡ false = ground (arith, h.0.0) in
    rw (plain, nonzero, more, take_value_token req value rest (left - 1) h.1 (omega arith))
      (ground arith)

-- A name's character is not the colon, in any case.
name_char-colon :
    (c : ℕ)
    → is_name_char c ≡ true
    → ((to_lower c == to_lower b':') ≡ false) × ((to_lower b':' == to_lower c) ≡ false)
unfolding is_alpha to_lower
name_char-colon c h = ground arith

strncasecmp_eq-colon :
    (name hn rest : Bytes)
    → All (λ c. is_name_char c ≡ true) name
    → All (λ c. is_name_char c ≡ true) hn
    → strncasecmp_eq (name ++ (b':' ∷ [])) (hn ++ (b':' ∷ rest)) (suc (length hn))
      ≡ strcasecmp_eq name hn
unfolding strncasecmp_eq strcasecmp_eq
strncasecmp_eq-colon [] [] rest h k = refl
strncasecmp_eq-colon [] (d ∷ hn) rest h k = rw (name_char-colon d k.0).1
strncasecmp_eq-colon (c ∷ name) [] rest h k = rw (name_char-colon c h.0).0
strncasecmp_eq-colon (c ∷ name) (d ∷ hn) rest h k =
    let ih = strncasecmp_eq-colon name hn rest h.1 k.1 in rw ih

-- Against bytes that hold a name and its colon, the test is `strcasecmp` of the two names.
pub is_header-strcasecmp_eq :
    (name hn rest : Bytes)
    → All (λ c. is_name_char c ≡ true) name
    → All (λ c. is_name_char c ≡ true) hn
    → is_header (name ++ (b':' ∷ [])) (hn ++ (b':' ∷ rest)) (length hn) ≡ strcasecmp_eq name hn
unfolding is_header
is_header-strcasecmp_eq name hn rest h k =
    let e : length hn + 1 ≡ suc (length hn) = omega arith in
    rw e (strncasecmp_eq-colon name hn rest h k)
