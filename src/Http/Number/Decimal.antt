-- ===== src/Http/Number/Decimal.antt =====
-- The numbers that `consume_next_num` reads, against decimal notation.
use native.Mathlib.Nat.{
  pow-zero, mul-le-mul_right, le-mul_of_pos_right, pow-suc, pow-succ', one-le-pow, mul_assoc,
  pow-le-pow_right,
}
use mimino.Base.{
  ℕ, zero, suc, ◌+◌, ◌-◌, ◌*◌, ◌/◌, ◌%◌, ◌^◌, ◌≤◌, ◌<◌, true, false, Bytes, [], ◌∷◌, ◌++◌, ltb,
  ◌==◌, ==_iff, ◌≡◌, refl, sym, ap, ◌∙◌, arith, length, All, inl, inr, Bool-cases, length-append,
  lt→ltb, decimal_digits, decimal, All-append,
}
use mimino.Ascii.{is_digit}
use mimino.Http.Number.{
  mul64, add64, power_loop, ll_power, more_digits, num_len, sum_digits, consume_next_num,
}

-- the value of a row of digits
abbrev pub value : Bytes → ℕ
value [] = 0
value (c ∷ ds) = (c - b'0') * 10 ^ length ds + value ds

abbrev pub Digits : Bytes → Type 0
Digits = All (λ c. is_digit c ≡ true)

one-pow : (n : ℕ) → 1 ^ n ≡ 1
one-pow zero = pow-zero 1
one-pow (suc n) = pow-suc 1 n ∙ omega (arith, one-pow n)

power_loop_lem :
    (a rounds ret : ℕ)
    → 0 < a
    → ret * a ^ rounds < 2 ^ 64
    → power_loop a ret rounds ≡ ret * a ^ rounds
unfolding power_loop
power_loop_lem a zero ret h small = rw pow-zero (omega arith)
power_loop_lem a (suc rounds) ret h small =
    let e : ret * a ^ suc rounds ≡ ret * a * a ^ rounds =
      ap (λ k. ret * k) (pow-succ' a rounds) ∙ sym (mul_assoc ret a (a ^ rounds)) in
    let grows : ret * a ≤ ret * a * a ^ rounds =
      le-mul_of_pos_right (ret * a) (one-le-pow rounds a h) in
    let exact : mul64 ret a ≡ ret * a = omega arith in
    rw exact (power_loop_lem a rounds (ret * a) h (omega arith)) ∙ sym e

-- `ll_power` is the power, where it does not overflow; but `ll_power(0, 0)` is 0.
ll_power_lem : (a b : ℕ) → 0 < a → a ^ b < 2 ^ 63 → ll_power a b ≡ a ^ b
unfolding ll_power
ll_power_lem a zero h small = rw pow-zero (ground arith)
ll_power_lem a (suc b) h small = elim (Bool-cases (a == 1)) [
  | inl e ↦ let one : a ≡ 1 = (==_iff a 1).0 e in rw one (sym (one-pow (suc b)))
  | inr e ↦ ground (arith, power_loop_lem a b a h (omega (arith, pow-succ' a b)), pow-succ' a b)
]

value-lt : (ds : Bytes) → Digits ds → value ds < 10 ^ length ds
unfolding is_digit
value-lt [] h = rw pow-zero (omega arith)
value-lt (c ∷ ds) h =
    let digit : c - b'0' ≤ 9 = ground (arith, h.0) in
    let scaled : (c - b'0') * 10 ^ length ds ≤ 9 * 10 ^ length ds =
      mul-le-mul_right (10 ^ length ds) digit in
    omega (arith, value-lt ds h.1, pow-succ' 10 (length ds))

-- With no partial sum past the range of a `long long`, the loop adds up the value.
sum_digits-value :
    (ds rest : Bytes) (num : ℕ)
    → 10 ^ length ds < 2 ^ 63
    → num + value ds < 2 ^ 63
    → sum_digits (ds ++ rest) (length ds) num ≡ num + value ds
unfolding sum_digits
sum_digits-value [] [] num p h = omega arith
sum_digits-value [] (c ∷ rest) num p h = omega arith
sum_digits-value (c ∷ ds) rest num p h =
    let less : 10 ^ length ds < 2 ^ 63 = omega (arith, pow-succ' 10 (length ds)) in
    let power = ll_power_lem 10 (length ds) (omega arith) less in
    let exact : add64 num (mul64 (c - b'0') (ll_power 10 (length ds)))
        ≡ num + (c - b'0') * 10 ^ length ds =
      rw power (omega arith) in
    rw exact (sum_digits-value ds rest _ less (omega arith) ∙ omega arith)

-- The bytes do not go on with a digit.
abbrev pub NoDigit : Bytes → Type 0
NoDigit [] = Unit
NoDigit (c ∷ rest) = is_digit c ≡ false

more_digits-length :
    (ds rest : Bytes) (room : ℕ)
    → Digits ds
    → NoDigit rest
    → length ds ≤ room
    → more_digits (ds ++ rest) room ≡ length ds
unfolding more_digits
more_digits-length [] [] room d n h = refl
more_digits-length [] (c ∷ rest) zero d n h = refl
more_digits-length [] (c ∷ rest) (suc room) d n h = rw n
more_digits-length (c ∷ ds) rest zero d n h = absurd (omega arith)
more_digits-length (c ∷ ds) rest (suc room) d n h =
    rw d.0 (omega (arith, more_digits-length ds rest room d.1 n (omega arith)))

-- Of up to 18 digits that no other digit follows, `consume_next_num` returns the value, and takes
-- just these; it does not overflow.
pub consume_next_num-value :
    (c : ℕ) (ds rest : Bytes) (room : ℕ)
    → Digits (c ∷ ds)
    → NoDigit rest
    → length ds ≤ room
    → length (c ∷ ds) ≤ 18
    → consume_next_num (c ∷ ds ++ rest) room ≡ (value (c ∷ ds), length (c ∷ ds))
unfolding consume_next_num num_len
consume_next_num-value c ds rest room d n h short =
    let most : 10 ^ length (c ∷ ds) ≤ 10 ^ 18 = pow-le-pow_right (omega arith) short in
    let len : more_digits (ds ++ rest) room + 1 ≡ length (c ∷ ds) =
      omega (arith, more_digits-length ds rest room d.1 n h) in
    let sum = sum_digits-value (c ∷ ds) rest 0 (omega arith) (omega (arith, value-lt (c ∷ ds) d)) in
    rw len (ground (arith, sum))

value-concat : (ds : Bytes) (d : ℕ) → value (ds ++ (d ∷ [])) ≡ 10 * value ds + (d - b'0')
value-concat [] d = rw pow-zero (omega arith)
value-concat (c ∷ ds) d =
    let len : length (ds ++ (d ∷ [])) ≡ suc (length ds) =
      omega (arith, length-append ds (d ∷ [])) in
    rw (len, pow-succ', value-concat ds d) (omega arith)

value-decimal_digits : (fuel n : ℕ) → n < fuel → value (decimal_digits fuel n) ≡ n
unfolding decimal_digits
value-decimal_digits zero n h = absurd (omega arith)
value-decimal_digits (suc fuel) n h = elim (Bool-cases (ltb n 10)) [
  | inl e ↦ rw (e, pow-zero) (omega arith)
  | inr e ↦
      rw (e, value-concat)
        (let big : 10 ≤ n = ground arith in
          omega (arith, value-decimal_digits fuel (n / 10) (omega arith)))
]

Digits-decimal_digits : (fuel n : ℕ) → Digits (decimal_digits fuel n)
unfolding decimal_digits is_digit
Digits-decimal_digits zero n = tt
Digits-decimal_digits (suc fuel) n = elim (Bool-cases (ltb n 10)) [
  | inl e ↦ rw e (ground arith, tt)
  | inr e ↦ rw e (
      All-append (λ c. is_digit c ≡ true) (decimal_digits fuel (n / 10)) _
        (Digits-decimal_digits fuel (n / 10)) (ground arith, tt))
]

length-decimal_digits : (fuel n k : ℕ) → n < 10 ^ suc k → length (decimal_digits fuel n) ≤ suc k
unfolding decimal_digits
length-decimal_digits zero n k h = omega arith
length-decimal_digits (suc fuel) n zero h =
    let small : n < 10 = omega (arith, pow-suc 10 0, pow-zero 10) in
    rw (lt→ltb n 10 small) (omega arith)
length-decimal_digits (suc fuel) n (suc k) h = elim (Bool-cases (ltb n 10)) [
  | inl e ↦ rw e (omega arith)
  | inr e ↦
      let less : n / 10 < 10 ^ suc k = omega (arith, pow-succ' 10 (suc k)) in
      rw e (
        omega (
          arith,
          length-append (decimal_digits fuel (n / 10)) ((b'0' + n % 10) ∷ []),
          length-decimal_digits fuel (n / 10) k less,
        ))
]

pub length-decimal : (n : ℕ) → n < 10 ^ 18 → length (decimal n) ≤ 18
unfolding decimal
length-decimal n h = length-decimal_digits (n + 1) n 17 h

-- A printed number is a row of digits that has the number's value.
pub value-decimal : (n : ℕ) → (value (decimal n) ≡ n) × Digits (decimal n)
unfolding decimal
value-decimal n = (value-decimal_digits (n + 1) n (omega arith), Digits-decimal_digits (n + 1) n)
