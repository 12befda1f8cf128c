-- ===== src/Buffer.antt =====
-- buffer.c: the growable byte buffer. Memory is a list of cells, `none` for a byte that was
-- allocated and never written. A write outside the allocation is a fault, the `none` of the
-- operations' results. `size_t` arithmetic wraps at 2^64. Allocation succeeds: `xmalloc` and
-- `xrealloc` (xmalloc.c) end the program where it does not.
pub mod Append
pub mod FileContents
use mimino.Base.{
  ℕ, ◌+◌, ◌-◌, ◌%◌, ◌^◌, Bool, Bytes, List, [], ◌∷◌, ◌++◌, map, Option, none, some, ltb, leb, ◌==◌,
  if◌then◌else◌, length, take, drop, replicate, max,
}
use mathlib.Core.Option as Option

abbrev pub Cell : Type 0
Cell = Option ℕ

pub record Buffer : Type 0 where
  -- the allocation that `data` points to
  pub cells : List Cell
  pub n_items : ℕ
  pub n_alloc : ℕ

abbrev pub size_mod : ℕ
size_mod = 2 ^ 64

abbrev pub add_size : ℕ → ℕ → ℕ
add_size a b = (a + b) % size_mod

-- BUFFER_GROWTH
abbrev pub buffer_growth : ℕ
buffer_growth = 4096

-- `xmalloc`
unfoldable pub xmalloc : ℕ → List Cell
xmalloc n = replicate n none

-- `xrealloc` keeps the bytes up to the smaller of the two sizes.
unfoldable pub xrealloc : List Cell → ℕ → List Cell
xrealloc cells n = take n cells ++ replicate (n - length cells) none

-- `memcpy` to the offset `at` of an allocation
unfoldable pub memcpy : List Cell → ℕ → List Cell → Option (List Cell)
memcpy cells at src =
    if leb (at + length src) (length cells)
    then some (take at cells ++ (src ++ drop (at + length src) cells))
    else none

-- `new_buf` and `init_buf`, which differ in where the struct itself lives
unfoldable pub init_buf : ℕ → Buffer
unfolding xmalloc
init_buf data_size = record { cells = xmalloc data_size; n_items = 0; n_alloc = data_size }

unfoldable pub buf_grow : Buffer → ℕ → Buffer
unfolding xrealloc
buf_grow b min_growth =
    let new_size = add_size b.n_alloc (max min_growth buffer_growth) in
    record b { cells = xrealloc b.cells new_size; n_alloc = new_size }

-- `if (b->n_items + n > b->n_alloc) buf_grow(b, n);`
unfoldable pub reserve : Buffer → ℕ → Buffer
reserve b n = if ltb b.n_alloc (add_size b.n_items n) then buf_grow b n else b

-- Write `src` behind the items, and count `n` of it as items.
unfoldable pub put : Buffer → List Cell → ℕ → Option Buffer
put b src n =
    Option.map (λ cells. record b { cells = cells; n_items = add_size b.n_items n })
      (memcpy b.cells b.n_items src)

unfoldable pub buf_push : Buffer → ℕ → Option Buffer
buf_push b c = put (reserve b 1) (some c ∷ []) 1

unfoldable pub buf_append : Buffer → Bytes → Option Buffer
buf_append b src =
    if length src == 0 then some b else put (reserve b (length src)) (map some src) (length src)

-- A string constant or a C string: `strlen` finds its end.
unfoldable pub buf_append_str : Buffer → Bytes → Option Buffer
unfolding buf_append
buf_append_str b str = buf_append b str

unfoldable pub buf_append_buf : Buffer → Buffer → Option Buffer
buf_append_buf dest src =
    if src.n_items == 0
    then some dest
    else put (reserve dest src.n_items) (take src.n_items src.cells) src.n_items

-- `buf_sprintf` of a format whose text is `text`: `vsnprintf` also writes a NUL, which the
-- reservation counts and the items do not.
unfoldable pub buf_sprintf : Buffer → Bytes → Option Buffer
buf_sprintf b text = put (reserve b (length text + 1)) (map some (text ++ (0 ∷ []))) (length text)
