-- ===== src/Dump/Read.antt =====
-- The bytes read back from their hex dump.
use mimino.Base.{
  ℕ, zero, suc, ◌+◌, ◌-◌, ◌*◌, ◌/◌, ◌%◌, ◌<◌, ◌≤◌, min, Bool, true, false, not, Bytes, List, [],
  ◌∷◌, ◌++◌, codes, ltb, ◌==◌, if◌then◌else◌, if_true, if_false, ◌≡◌, refl, sym, ap, ◌∙◌, arith,
  inl, inr, Bool-cases, ==_iff, All, holds_up_to, holds_up_to_at, length, take, drop, length-append,
  length-take, length-drop, length-replicate, drop_add, drop_all, taken_and_dropped, append_assoc,
}
use mimino.Url.{hex_byte}
use mimino.Dump.{
  hex_char, hex_cell, hex_cells, text_cell, text_cells, padding, hex_dump_line, dump_lines,
  dump_data,
}

-- Where a reader of a dump stands: before a number of characters and one that it passes over, or at a
-- byte's high digit, its low digit, or the space behind it.
pub data Column : Type 0 where
  passing : ℕ → Column
  high : Column
  low : ℕ → Column
  behind : Column

-- the bytes of the hex columns, in lines whose text and bar take `n` characters and one
abbrev pub read_hex : ℕ → Column → Bytes → Bytes
read_hex n at [] = []
read_hex n (passing zero) (c ∷ dump) = read_hex n high dump
read_hex n (passing (suc k)) (c ∷ dump) = read_hex n (passing k) dump
read_hex n high (c ∷ dump) =
    if c == b'\n' then read_hex n (passing n) dump else read_hex n (low c) dump
read_hex n (low h) (c ∷ dump) = hex_byte h c ∷ read_hex n behind dump
read_hex n behind (c ∷ dump) = read_hex n high dump

-- the bytes of a dump with lines for `width` bytes
abbrev pub read_dump : ℕ → Bytes → Bytes
read_dump width dump = read_hex (2 * width + 2) (passing (2 * width + 2)) dump

read_passed :
    (n k : ℕ) (xs dump : Bytes)
    → length xs ≡ suc k
    → read_hex n (passing k) (xs ++ dump) ≡ read_hex n high dump
read_passed n k [] dump h = absurd (omega arith)
read_passed n zero (x ∷ []) dump h = refl
read_passed n zero (x ∷ y ∷ xs) dump h = absurd (omega arith)
read_passed n (suc k) (x ∷ xs) dump h = read_passed n k xs dump (omega arith)

byte_table : holds_up_to (λ c. hex_byte (hex_char (c / 16)) (hex_char (c % 16)) == c) 255 ≡ true
unfolding holds_up_to hex_byte
byte_table = refl

no_newline : holds_up_to (λ c. not (hex_char (c / 16) == b'\n')) 255 ≡ true
unfolding holds_up_to
no_newline = refl

hex_byte-chars : (c : ℕ) → c < 256 → hex_byte (hex_char (c / 16)) (hex_char (c % 16)) ≡ c
hex_byte-chars c h = (==_iff (hex_byte (hex_char (c / 16)) (hex_char (c % 16))) c).0 (
    holds_up_to_at (λ c. hex_byte (hex_char (c / 16)) (hex_char (c % 16)) == c) 255 c byte_table
      (omega arith))

was_false : (b : Bool) → not b ≡ true → b ≡ false
was_false true h = sym h
was_false false h = refl

not_newline : (c : ℕ) → c < 256 → (hex_char (c / 16) == b'\n') ≡ false
not_newline c h =
    was_false (hex_char (c / 16) == b'\n')
      (holds_up_to_at (λ c. not (hex_char (c / 16) == b'\n')) 255 c no_newline (omega arith))

read_cells :
    (n : ℕ) (buf dump : Bytes)
    → All (λ c. c < 256) buf
    → read_hex n high (hex_cells buf ++ dump) ≡ buf ++ read_hex n high dump
unfolding hex_cells hex_cell
read_cells n [] dump h = refl
read_cells n (c ∷ buf) dump (h, hs) =
    if_false (hex_char (c / 16) == b'\n') _ _ (not_newline c h)
    ∙ ap (λ b. b ∷ read_hex n high (hex_cells buf ++ dump)) (hex_byte-chars c h)
    ∙ ap (c ∷◌) (read_cells n buf dump hs)

length-text_cell : (c : ℕ) → length (text_cell c) ≡ 2
unfolding text_cell
length-text_cell c = ground arith

length-text_cells : (buf : Bytes) → length (text_cells buf) ≡ 2 * length buf
unfolding text_cells
length-text_cells [] = refl
length-text_cells (c ∷ buf) =
    length-append (text_cell c) (text_cells buf)
    ∙ omega (arith, length-text_cell c, length-text_cells buf)

regroup :
    (t u v x y z : Bytes) → (t ++ (u ++ (v ++ (x ++ y)))) ++ z ≡ (t ++ (u ++ v)) ++ (x ++ (y ++ z))
regroup t u v x y z = simp append_assoc

read_line :
    (width : ℕ) (buf dump : Bytes)
    → All (λ c. c < 256) buf
    → length buf ≤ width
    → read_hex (2 * width + 2) (passing (2 * width + 2)) (hex_dump_line buf width ++ dump)
      ≡ buf ++ read_hex (2 * width + 2) (passing (2 * width + 2)) dump
unfolding hex_dump_line
read_line width buf dump bytes fits =
    let n = 2 * width + 2 in
    let front = text_cells buf ++ (padding (length buf) width ++ codes " | ") in
    let passed : length front ≡ suc n =
      length-append (text_cells buf) (padding (length buf) width ++ codes " | ")
      ∙ omega (
        arith,
        length-append (padding (length buf) width) (codes " | "),
        length-replicate {0} {A = ℕ} (2 * (width - length buf)) b' ',
        length-text_cells buf,
      ) in
    ap (read_hex n (passing n)) (
      regroup (text_cells buf) (padding (length buf) width) (codes " | ") (hex_cells buf)
        (codes "\n") dump)
    ∙ read_passed n n front (hex_cells buf ++ (b'\n' ∷ dump)) passed
    ∙ read_cells n buf (b'\n' ∷ dump) bytes

module _ {A : Type 0} (P : A → Type 0) where
  All-take : (n : ℕ) (xs : List A) → All P xs → All P (take n xs)
  All-take zero xs h = tt
  All-take (suc n) [] h = tt
  All-take (suc n) (x ∷ xs) h = (h.0, All-take n xs h.1)

  All-drop : (n : ℕ) (xs : List A) → All P xs → All P (drop n xs)
  All-drop zero xs h = h
  All-drop (suc n) [] h = tt
  All-drop (suc n) (x ∷ xs) h = All-drop n xs h.1

-- what a line takes, and the rest
joined :
    (w i : ℕ) (buf : Bytes)
    → take (min (length buf - i) w) (drop i buf) ++ drop (i + w) buf ≡ drop i buf
joined w i buf =
    let line = take (min (length buf - i) w) (drop i buf) in
    let size : length line ≡ min (length buf - i) w =
      length-take (min (length buf - i) w) (drop i buf) ∙ omega (arith, length-drop i buf) in
    ap (line ++◌) (elim (Bool-cases (ltb (length buf - i) w)) [
      | inl e ↦
          drop_all (i + w) buf (ground arith)
          ∙ sym (drop_all (length line) (drop i buf) (ground (arith, length-drop i buf)))
      | inr e ↦
          let whole : w ≡ length line = ground arith in
          drop_add i w buf ∙ ap (λ k. drop k (drop i buf)) whole
    ])
    ∙ taken_and_dropped (min (length buf - i) w) (drop i buf)

-- the lines from `i` on
read_lines :
    (rounds width i : ℕ) (buf : Bytes)
    → All (λ c. c < 256) buf
    → 0 < width
    → length buf - i < rounds
    → read_hex (2 * width + 2) (passing (2 * width + 2)) (dump_lines rounds buf width i)
      ≡ drop i buf
unfolding dump_lines
read_lines zero width i buf bytes more enough = absurd (omega arith)
read_lines (suc rounds) width i buf bytes more enough =
    let n = 2 * width + 2 in
    let line = take (min (length buf - i) width) (drop i buf) in
    let rest = dump_lines rounds buf width (i + width) in
    elim (Bool-cases (ltb i (length buf))) [
      | inl e ↦
          ap (read_hex n (passing n)) (if_true (ltb i (length buf)) _ _ e)
          ∙ read_line width line rest
              (All-take (λ c. c < 256) _ _ (All-drop (λ c. c < 256) i buf bytes))
              (omega (arith, length-take (min (length buf - i) width) (drop i buf)))
          ∙ ap (line ++◌) (read_lines rounds width (i + width) buf bytes more (ground arith))
          ∙ joined width i buf
      | inr e ↦
          ap (read_hex n (passing n)) (if_false (ltb i (length buf)) _ _ e)
          ∙ sym (drop_all i buf (ground arith))
    ]

-- The bytes that `dump_data` shows are read back from the hex columns of its lines, which hold
-- `width` bytes each. There is a byte, the bytes are below 256, and the width is not 0.
pub read_dump-dump_data :
    (width : ℕ) (buf : Bytes)
    → All (λ c. c < 256) buf
    → 0 < width
    → 0 < length buf
    → read_dump width (dump_data buf width) ≡ buf
unfolding dump_data
read_dump-dump_data width buf bytes more some_bytes =
    let filled : (length buf == 0) ≡ false = ground arith in
    ap (read_dump width) (if_false (length buf == 0) _ _ filled)
    ∙ read_lines (suc (length buf)) width 0 buf bytes more (omega arith)
