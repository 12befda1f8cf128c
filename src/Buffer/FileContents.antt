-- ===== src/Buffer/FileContents.antt =====
-- buffer.c: `buf_append_file_contents`. What `fopen` and `fread` return is a parameter.
use mimino.Base.{
  ℕ, zero, suc, Bool, Bytes, map, Option, none, some, ◌>>=◌, ◌≡◌, ltb, ◌==◌, if◌then◌else◌, length,
}
use mimino.Buffer.{Buffer, reserve, put}
use mimino.Buffer.Append.{Held}

-- what a call of `fread` returns: the bytes that it wrote, and whether `ferror` holds behind it
pub record FreadResult : Type 0 where
  pub bytes : Bytes
  pub error : Bool

-- the -1, 0 and 1 of the result
pub data FileAppend : Type 0 where
  open_failed read_failed appended : FileAppend

-- The loop, whose calls of `fread` are counted by `call`. `none` is a write outside the allocation, or
-- more calls than there are `rounds`.
unfoldable pub read_loop : ℕ → ℕ → (ℕ → FreadResult) → ℕ → Buffer → Option (Buffer × FileAppend)
read_loop zero size fread call buf = none
read_loop (suc rounds) size fread call buf = do
  let bytes = (fread call).bytes
  buf' ← put buf (map some bytes) (length bytes)
  let rest = read_loop rounds size fread (suc call) buf'
  if ltb (length bytes) size
      then some (buf', (if (fread call).error then read_failed else appended))
      else rest

-- `size` is the `f->size` of the file, which is not negative.
unfoldable pub buf_append_file_contents :
    ℕ → Buffer → ℕ → Bool → (ℕ → FreadResult) → Option (Buffer × FileAppend)
unfolding reserve read_loop
buf_append_file_contents rounds buf size fopen fread =
    let buf' = reserve buf size in
    let contents = read_loop rounds size fread 0 buf' in
    if size == 0 then some (buf, appended) else if fopen then contents else some (buf', open_failed)

-- The buffer has what it had and `xs` behind it, and the result is `status`.
abbrev pub Reads : Bytes → FileAppend → Option (Buffer × FileAppend) → Type 0
Reads xs status o = (b : Buffer) × (o ≡ some (b, status)) × Held b xs

abbrev pub status_of : Bool → FileAppend
status_of error = if error then read_failed else appended

-- what the file has to be opened for, and how the last call of `fread` ended
abbrev pub contents_error : ℕ → (ℕ → FreadResult) → Bool
contents_error size fread =
    if length (fread 0).bytes == size then (fread 1).error else (fread 0).error
