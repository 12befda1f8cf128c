-- ===== src/Dump.antt =====
-- mimino.c: `hex_dump_line`, `ascii_dump_buf` and `dump_data`; buffer.c: `print_buf_ascii`. The result
-- of a function is what it writes to its stream.
pub mod Read
use mimino.Base.{
  ℕ, zero, suc, ◌+◌, ◌-◌, ◌*◌, ◌/◌, ◌%◌, Bytes, List, [], ◌∷◌, ◌++◌, codes, ltb, ◌==◌,
  if◌then◌else◌, length, take, drop, min, replicate,
}

-- a digit of `%X`
abbrev pub hex_char : ℕ → ℕ
hex_char d = if ltb d 10 then b'0' + d else b'A' + (d - 10)

-- `%02X ` of an `unsigned char`
unfoldable pub hex_cell : ℕ → Bytes
hex_cell c = hex_char (c / 16) ∷ hex_char (c % 16) ∷ b' ' ∷ []

unfoldable pub hex_cells : Bytes → Bytes
unfolding hex_cell
hex_cells [] = []
hex_cells (c ∷ buf) = hex_cell c ++ hex_cells buf

-- the `switch` of the line's text, which takes two characters for each byte
unfoldable pub text_cell : ℕ → Bytes
text_cell c =
    if c == b'\n'
    then codes "\\n"
    else if c == b'\t'
    then codes "\\t"
    else if c == b'\r'
    then codes "\\r"
    else c ∷ b' ' ∷ []

unfoldable pub text_cells : Bytes → Bytes
unfolding text_cell
text_cells [] = []
text_cells (c ∷ buf) = text_cell c ++ text_cells buf

-- "Pad the ascii with spaces to fill width", from `i` on
abbrev pub padding : ℕ → ℕ → Bytes
padding i width = replicate (2 * (width - i)) b' '

unfoldable pub hex_dump_line : Bytes → ℕ → Bytes
unfolding hex_cells text_cells
hex_dump_line buf width =
    text_cells buf ++ (padding (length buf) width ++ (codes " | " ++ (hex_cells buf ++ codes "\n")))

-- the loop of `dump_data`; one round more than there are bytes is enough, where the width is not 0
unfoldable pub dump_lines : ℕ → Bytes → ℕ → ℕ → Bytes
unfolding hex_dump_line
dump_lines zero buf line_width i = []
dump_lines (suc rounds) buf line_width i =
    let rest = dump_lines rounds buf line_width (i + line_width) in
    if ltb i (length buf)
    then hex_dump_line (take (min (length buf - i) line_width) (drop i buf)) line_width ++ rest
    else []

-- `dump_data`, where HEXDUMP_DATA is 1
unfoldable pub dump_data : Bytes → ℕ → Bytes
unfolding dump_lines
dump_data buf line_width =
    if length buf == 0
    then codes "No data to dump!\n"
    else dump_lines (suc (length buf)) buf line_width 0

-- the `switch` of `ascii_dump_buf` and of `print_buf_ascii`
unfoldable ascii_cell : ℕ → Bytes
ascii_cell c =
    if c == b'\n'
    then codes "\\n\n"
    else if c == b'\t'
    then codes "\\t"
    else if c == b'\r'
    then codes "\\r"
    else c ∷ []

unfoldable pub ascii_dump_buf : Bytes → Bytes
unfolding ascii_cell
ascii_dump_buf [] = []
ascii_dump_buf (c ∷ buf) = ascii_cell c ++ ascii_dump_buf buf

-- `print_buf_ascii` of a buffer that holds `items`
unfoldable pub print_buf_ascii : Bytes → Bytes
unfolding ascii_dump_buf
print_buf_ascii items =
    if length items == 0 then codes "(No data do print)\n" else ascii_dump_buf items
