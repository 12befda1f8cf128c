-- ===== src/Http/Number.antt =====
-- http.c: `ll_power` and `consume_next_num`. A `long long` that is not negative is its number;
-- arithmetic is modulo 2^64, where the source's overflow is undefined.
pub mod Decimal
use mimino.Base.{
  ℕ, zero, suc, ◌+◌, ◌-◌, ◌*◌, ◌%◌, ◌^◌, Bool, ◌&&◌, Bytes, [], ◌∷◌, ltb, leb, ◌==◌, if◌then◌else◌,
}
use mimino.Ascii.{is_digit}

abbrev pub mul64 : ℕ → ℕ → ℕ
mul64 a b = a * b % 2 ^ 64

abbrev pub add64 : ℕ → ℕ → ℕ
add64 a b = (a + b) % 2 ^ 64

-- `while (b > 1)`, on the rounds left
unfoldable pub power_loop : ℕ → ℕ → ℕ → ℕ
power_loop a ret zero = ret
power_loop a ret (suc rounds) = power_loop a (mul64 ret a) rounds

-- for `b >= 0`
unfoldable pub ll_power : ℕ → ℕ → ℕ
unfolding power_loop
ll_power a b =
    if a == 0 then 0 else if a == 1 then 1 else if b == 0 then 1 else power_loop a a (b - 1)

-- The digits that follow the first: `str` behind it, and how many of its places are not beyond
-- `end`.
unfoldable pub more_digits : Bytes → ℕ → ℕ
unfolding is_digit
more_digits [] room = 0
more_digits (c ∷ str) zero = 0
more_digits (c ∷ str) (suc room) =
    let more = more_digits str room in if is_digit c then more + 1 else 0

-- `num_len`; `room` is `end - str`.
unfoldable pub num_len : Bytes → ℕ → ℕ
unfolding more_digits
num_len [] room = 1
num_len (c ∷ str) room = more_digits str room + 1

-- the `for` loop, on the characters left
unfoldable pub sum_digits : Bytes → ℕ → ℕ → ℕ
unfolding ll_power
sum_digits [] left num = num
sum_digits (c ∷ str) zero num = num
sum_digits (c ∷ str) (suc left) num =
    sum_digits str left (add64 num (mul64 (c - b'0') (ll_power 10 left)))

-- the number at `str`, which starts with a digit, and the characters it takes
unfoldable pub consume_next_num : Bytes → ℕ → ℕ × ℕ
unfolding num_len sum_digits
consume_next_num str room = let len = num_len str room in (sum_digits str len 0, len)
