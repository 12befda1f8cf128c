-- ===== src/Tests/Buffers.antt =====
-- buffer.c on a buffer of four bytes.
use mimino.Base.{ℕ, false, ◌==◌, if◌then◌else◌, [], ◌∷◌, some, arith, codes}
use mimino.Buffer.{Buffer, init_buf, buf_append}
use mimino.Buffer.Append.{Appended, init_buf-Holds, buf_append-Appended}
use mimino.Buffer.FileContents.{FreadResult}

-- six bytes, more than the allocation has
buf_append-Appended_example :
    Appended [] (codes "mimino") (buf_append (init_buf 4) (codes "mimino"))
unfolding init_buf
buf_append-Appended_example =
    buf_append-Appended (init_buf-Holds 4 (omega arith)) (codes "mimino") (omega arith)

abbrev two_bytes : Buffer
two_bytes = record { cells = some b'o' ∷ some b'k' ∷ []; n_items = 2; n_alloc = 2 }

-- a file of two bytes behind one that the buffer has
abbrev fread : ℕ → FreadResult
fread call = record { bytes = (if call == 0 then codes "ok" else []); error = false }
