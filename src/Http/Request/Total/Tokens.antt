-- ===== src/Http/Request/Total/Tokens.antt =====
-- The token readers never move the cursor back.
use mimino.Base.{
  ℕ, ◌-◌, ◌≤◌, ◌<◌, Bool, ◌&&◌, Bytes, [], ◌∷◌, ◌≡◌, refl, arith, leb, ◌==◌, inl, inr, Bool-cases,
}
use mimino.Http.Range.{first}
use mimino.Http.Request.Reader.{
  Request, Cursor, Parse, stop, go, ◌>>=◌, ParseError, keep, advance, expect, take_while,
  take_value,
}

pub >>=-eq-go :
    {A B : Type 0} (m : Parse A) (f : A → Parse B) {b : B}
    → (m >>= f) ≡ go b
    → (a : A) × (m ≡ go a) × (f a ≡ go b)
>>=-eq-go (stop req) f h = cc
>>=-eq-go (go a) f h = (a, refl, h)

pub advance-left :
    (req : Request) (n : ℕ) (c : Cursor) {c' : Cursor}
    → 0 < n
    → advance req n c ≡ go c'
    → c'.left < c.left
unfolding advance
advance-left req n c p h = ground arith

pub expect-left :
    (req : Request) (b : ℕ) (e : ParseError) (c : Cursor) {c' : Cursor}
    → expect req b e c ≡ go c'
    → c'.left < c.left
unfolding expect
expect-left req b e c h = ground arith

-- a token's reader leaves at most `n`
abbrev pub Leaves : ℕ → Parse (Bytes × Cursor) → Type 0
Leaves n (stop req) = Unit {0}
Leaves n (go (token, c)) = c.left ≤ n

pub keep-Leaves :
    (n m b : ℕ) (r : Parse (Bytes × Cursor)) → n ≤ m → Leaves n r → Leaves m (keep b r)
keep-Leaves n m b (stop req) h l = tt
keep-Leaves n m b (go (token, c)) h l = omega arith

pub take_while-Leaves :
    (req : Request) (p : ℕ → Bool) (str : Bytes) (left : ℕ)
    → Leaves left (take_while req p str left)
unfolding take_while
take_while-Leaves req p [] left = elim (Bool-cases (p 0)) [
  | inl e ↦ rw e tt
  | inr e ↦ rw e (omega arith)
]
take_while-Leaves req p (b ∷ str) left =
    let more =
      keep-Leaves (left - 1) left b _ (omega arith) (take_while-Leaves req p str (left - 1)) in
    elim (Bool-cases (p b)) [
      | inl e ↦ elim (Bool-cases (leb left 1)) [ inl l ↦ rw (e, l) tt | inr l ↦ rw (e, l) more ]
      | inr e ↦ rw e (omega arith)
    ]

pub take_value-Leaves :
    (req : Request) (str : Bytes) (left : ℕ) → Leaves left (take_value req str left)
unfolding take_value
take_value-Leaves req [] left = tt
take_value-Leaves req (b ∷ str) left =
    let more =
      keep-Leaves (left - 1) left b _ (omega arith) (take_value-Leaves req str (left - 1)) in
    elim (Bool-cases (b == b'\r' && first str == b'\n')) [
      | inl e ↦ rw e (omega arith)
      | inr e ↦ elim (Bool-cases (b == 0)) [
        | inl z ↦ rw (e, z) tt
        | inr z ↦ elim (Bool-cases (leb left 1)) [
          | inl l ↦ rw (e, z, l) tt
          | inr l ↦ rw (e, z, l) more
        ]
      ]
    ]
