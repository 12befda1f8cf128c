-- ===== src/Http/Request.antt =====
-- http.c: `Http_Request` (mimino.h) and `parse_http_request`. The pointer `r` is a cursor: the
-- memory from it on, and what is left up to `end`. The memory goes on behind `end` with what the
-- buffer's allocation holds there, and the tests of one or two bytes read it; a read past the
-- list would find 0. An early return is the `stop` of the `Parse` monad.
pub mod Sound
pub mod Reader
pub mod Line
pub mod Header
pub mod Total
pub mod RoundTrip
use mimino.Base.{ℕ, zero, suc, ◌+◌, Bytes, Option, none, some, ◌++◌, length}
use mimino.Http.Request.Reader.{Request, Cursor, Parse, stop, go, null_request}
use mimino.Http.Request.Line.{parse_line}
use mimino.Http.Request.Header.{Step, finished, next, parse_header}

-- the loop over the headers; `none` is the fuel run out
unfoldable pub parse_headers : ℕ → Request → Cursor → Option Request
parse_headers zero req c = none
parse_headers (suc fuel) req c = elim (parse_header req c) [
  | finished r ↦ some r
  | next r c' ↦ parse_headers fuel r c'
]

unfoldable pub after_line : ℕ → Parse (Request × Cursor) → Option Request
unfolding parse_headers
after_line fuel (stop req) = some req
after_line fuel (go (req, c)) = parse_headers fuel req c

-- The request that `parse_http_request` leaves, in the buffer's bytes `received` and the memory
-- `beyond` them. Each header takes a byte at least, so the fuel is enough.
unfoldable pub parse_http_request : Bytes → Bytes → Option Request
unfolding after_line parse_line parse_header
parse_http_request received beyond =
    after_line (length received + 1)
      (parse_line null_request (record { str = received ++ beyond; left = length received }))
