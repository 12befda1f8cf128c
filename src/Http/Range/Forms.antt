-- ===== src/Http/Range/Forms.antt =====
-- What `parse_range_header` makes of the forms of a byte range.
use mathlib.Core.List.{List}
use mathlib.Core.Path.{subst}
use mimino.Base.{
  zero, ◌/◌, ◌%◌, decimal, decimal_digits, ◌⊎◌, inl, inr, Bool-cases, ltb, ℕ, suc, ◌+◌, ◌-◌, ◌≤◌,
  ◌<◌, ◌^◌, true, false, Bytes, [], ◌∷◌, ◌++◌, ◌≡◌, refl, sym, ◌∙◌, arith, codes, strncmp_eq, drop,
  length, length-append,
}
use mimino.Ascii.{is_digit}
use mimino.Http.Number.{consume_next_num}
use mimino.Http.Number.Decimal.{
  value, Digits, NoDigit, consume_next_num-value, value-decimal, length-decimal,
}
use mimino.Http.Range.{
  Ranges, first, parse_range_end, parse_range_dash, parse_range_start, parse_range_header,
}

-- up to 18 digits, and one at least
pub record IsNumber (ds : Bytes) : Type 0 where
  pub digits : Digits ds
  pub some_digit : 0 < length ds
  pub short : length ds ≤ 18

drop-length {ℓ} : {A : Type ℓ} (n : ℕ) (xs ys : List A) → n ≡ length xs → drop n (xs ++ ys) ≡ ys
drop-length zero [] ys h = refl
drop-length zero (x ∷ xs) ys h = absurd (omega arith)
drop-length (suc n) [] ys h = absurd (omega arith)
drop-length (suc n) (x ∷ xs) ys h = drop-length n xs ys (omega arith)

decimal_digits_some : (fuel n : ℕ) → 0 < length (decimal_digits (suc fuel) n)
unfolding decimal_digits
decimal_digits_some fuel n = elim (Bool-cases (ltb n 10)) [
  | inl e ↦ rw e (omega arith)
  | inr e ↦
      rw e (omega (arith, length-append (decimal_digits fuel (n / 10)) ((b'0' + n % 10) ∷ [])))
]

decimal-some_digit : (n : ℕ) → 0 < length (decimal n)
unfolding decimal
decimal-some_digit n =
    let e : n + 1 ≡ suc n = omega arith in
    subst (λ fuel. 0 < length (decimal_digits fuel n)) (sym e) (decimal_digits_some n n)

pub decimal-IsNumber : (n : ℕ) → n < 10 ^ 18 → IsNumber (decimal n)
decimal-IsNumber n h = record {
  digits = (value-decimal n).1;
  some_digit = decimal-some_digit n;
  short = length-decimal n h;
}

-- A number in front of what is no digit is consumed as its value.
consume-IsNumber :
    (ds rest : Bytes) (room : ℕ)
    → IsNumber ds
    → NoDigit rest
    → length ds ≤ room
    → (consume_next_num (ds ++ rest) room ≡ (value ds, length ds))
      × (is_digit (first (ds ++ rest)) ≡ true)
consume-IsNumber [] rest room n k h = absurd (omega arith)
consume-IsNumber (c ∷ ds) rest room n k h =
    (consume_next_num-value c ds rest room n.digits k (omega arith) n.short, n.digits.0)

parse_range_dash-end :
    (b rest : Bytes) (len : ℕ) (g : Ranges)
    → IsNumber b
    → NoDigit rest
    → len ≡ length b + 1
    → parse_range_dash (b'-' ∷ (b ++ rest)) len g
      ≡ (record g { range_end_given = true; range_end = value b }, true)
unfolding parse_range_dash parse_range_end
parse_range_dash-end b rest len g n k h =
    let c = consume-IsNumber b rest (len - 1) n k (omega arith) in
    ground (arith, c.0, c.1, n.some_digit)

parse_range_start-number :
    (a rest : Bytes) (len : ℕ) (g : Ranges)
    → IsNumber a
    → NoDigit rest
    → length a ≤ len
    → parse_range_start (a ++ rest) len g
      ≡ parse_range_dash rest
          (len - length a)
          (record g { range_start_given = true; range_start = value a })
unfolding parse_range_start
parse_range_start-number a rest len g n k h =
    let c = consume-IsNumber a rest len n k h in rw (c.0, c.1, drop-length (length a) a rest refl)

header-bytes :
    (str : Bytes) (len : ℕ) (g : Ranges)
    → 0 < len
    → parse_range_header (codes "bytes=" ++ str) (6 + len) g ≡ parse_range_start str len g
unfolding parse_range_header strncmp_eq
header-bytes str len g h = ground arith

-- The three forms of a range, in front of what is no digit. "bytes=a-b" sets both ends to the
-- values written. "bytes=a-" sets the start alone, and returns 0 as a failure does. "bytes=-b"
-- sets the end alone: to `b`, the position of a last byte, and not a count of bytes.
pub parse_range_header_forms :
    (a b rest : Bytes) (g : Ranges)
    → IsNumber a
    → IsNumber b
    → NoDigit rest
    → (parse_range_header
          (codes "bytes=" ++ (a ++ (b'-' ∷ (b ++ rest))))
          (6 + (length a + (length b + 1)))
          g
        ≡ (
          record {
            range_start_given = true;
            range_start = value a;
            range_end_given = true;
            range_end = value b;
          },
          true,
        ))
      × (parse_range_header (codes "bytes=" ++ (a ++ (b'-' ∷ rest))) (6 + (length a + 1)) g
          ≡ (record g { range_start_given = true; range_start = value a }, false))
      × (parse_range_header (codes "bytes=" ++ (b'-' ∷ (b ++ rest))) (6 + (length b + 1)) g
          ≡ (record g { range_end_given = true; range_end = value b }, true))
parse_range_header_forms a b rest g n m k = (
  header-bytes (a ++ (b'-' ∷ (b ++ rest))) (length a + (length b + 1)) g (omega arith)
      ∙ parse_range_start-number a (b'-' ∷ (b ++ rest)) _ g n (unfold is_digit in refl)
          (omega arith)
      ∙ parse_range_dash-end b rest _ _ m k (omega arith),
  header-bytes (a ++ (b'-' ∷ rest)) (length a + 1) g (omega arith)
      ∙ parse_range_start-number a (b'-' ∷ rest) _ g n (unfold is_digit in refl) (omega arith)
      ∙ dash_at_end rest _ _ (omega arith),
  header-bytes (b'-' ∷ (b ++ rest)) (length b + 1) g (omega arith)
      ∙ no_start (b ++ rest) (length b + 1) g
      ∙ parse_range_dash-end b rest _ _ m k (omega arith),
)
  where
    dash_at_end :
        (str : Bytes) (len : ℕ) (g : Ranges)
        → len ≤ 1
        → parse_range_dash (b'-' ∷ str) len g ≡ (g, false)
    dash_at_end str len g h = unfold parse_range_dash in ground arith

    no_start :
        (str : Bytes) (len : ℕ) (g : Ranges)
        → parse_range_start (b'-' ∷ str) len g ≡ parse_range_dash (b'-' ∷ str) len g
    no_start str len g = unfold parse_range_start is_digit in refl

-- A value that is not "bytes=" and more changes nothing.
pub parse_range_header_other :
    (str : Bytes) (len : ℕ) (g : Ranges)
    → (strncmp_eq (codes "bytes=") str 6 ≡ false) ⊎ (len ≤ 6)
    → parse_range_header str len g ≡ (g, false)
unfolding parse_range_header
parse_range_header_other str len g h = ground arith

-- Ends printed in decimal are read back.
parse_range_header-decimal :
    (n m : ℕ) (rest : Bytes) (g : Ranges)
    → n < 10 ^ 18
    → m < 10 ^ 18
    → NoDigit rest
    → let (r, accepted) =
        parse_range_header
          (codes "bytes=" ++ (decimal n ++ (b'-' ∷ (decimal m ++ rest))))
          (6 + (length (decimal n) + (length (decimal m) + 1)))
          g in
      (r.range_start ≡ n) × (r.range_end ≡ m) × (accepted ≡ true)
parse_range_header-decimal n m rest g h k s =
    let e =
      (parse_range_header_forms (decimal n) (decimal m) rest g (decimal-IsNumber n h)
        (decimal-IsNumber m k) s).0 in
    rw e ((value-decimal n).0, (value-decimal m).0, refl)
