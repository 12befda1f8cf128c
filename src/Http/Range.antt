-- ===== src/Http/Range.antt =====
-- http.c: `parse_range_header`. `str` is the memory from the header's value on; `len` is what is
-- left of the value, `end - str`. A `CRLF` stands behind the value in that memory, so no read of
-- the function leaves it; a read past the list would find 0.
pub mod Forms
use mimino.Base.{
  ℕ, ◌-◌, Bool, true, false, Bytes, [], ◌∷◌, leb, ◌==◌, if◌then◌else◌, codes, strncmp_eq, drop, not,
}
use mimino.Ascii.{is_digit}
use mimino.Http.Number.{consume_next_num}

-- the four fields of `Http_Request` that the function sets
pub record Ranges : Type 0 where
  pub range_start_given : Bool
  pub range_start : ℕ
  pub range_end_given : Bool
  pub range_end : ℕ

-- `*str`
abbrev pub first : Bytes → ℕ
first [] = 0
first (c ∷ str) = c

-- Range end, and the end of the function. The test that neither range was given compares pointers
-- with NULL, and neither is NULL, so it never holds.
unfoldable pub parse_range_end : Bytes → ℕ → Ranges → Ranges × Bool
parse_range_end str len g =
    if is_digit (first str)
    then (record g { range_end_given = true; range_end = (consume_next_num str len).0 }, true)
    else (g, true)

-- the dash between the ranges, and what follows
unfoldable pub parse_range_dash : Bytes → ℕ → Ranges → Ranges × Bool
unfolding parse_range_end
parse_range_dash str len g =
    if not (first str == b'-')
    then (record g { range_start_given = false }, false)
    else if leb len 1
    then (g, false)
    else parse_range_end (drop 1 str) (len - 1) g

-- range start, and what follows
unfoldable pub parse_range_start : Bytes → ℕ → Ranges → Ranges × Bool
unfolding parse_range_dash
parse_range_start str len g =
    let (num, used) = consume_next_num str len in
    if is_digit (first str)
    then parse_range_dash (drop used str) (len - used)
        (record g { range_start_given = true; range_start = num })
    else parse_range_dash str len g

unfoldable pub parse_range_header : Bytes → ℕ → Ranges → Ranges × Bool
unfolding parse_range_start
parse_range_header str len g =
    if not (strncmp_eq (codes "bytes=") str 6)
    then (g, false)
    else if leb len 6
    then (g, false)
    else parse_range_start (drop 6 str) (len - 6) g
