-- ===== src/Server/Transfer.antt =====
-- mimino.c: `read_request`, `write_headers`, `write_body` and `write_file`. What the system's calls
-- return is a parameter; the bytes put on the socket are collected. A pointer that is NULL, and a
-- read or a write outside an allocation, is the `none` of the results.
pub mod Rest
pub mod Cells
pub mod Body
use mimino.Base.{
  ℕ, zero, suc, ◌+◌, ◌-◌, ◌%◌, ◌^◌, Bool, true, Bytes, List, [], ◌++◌, map, Option, none, some,
  ◌>>=◌, ltb, leb, ◌==◌, if◌then◌else◌, length, take, drop,
}
use mimino.Buffer.{Buffer, Cell, memcpy, add_size}
use mimino.Http.Html.{Memory, fill, or_memory}
use mimino.Http.Response.{is_http_end, off_lt}
use mimino.Server.Send.{SendResult, send_buf, Sent}
use mimino.Server.Types.{Response, PendingRequest, Connection}

pub data RecvResult : Type 0 where
  received : Bytes → RecvResult
  -- -1 with EWOULDBLOCK, EAGAIN or EINTR
  would_block : RecvResult
  -- -1 with another error
  recv_failed : RecvResult

pub data ReadResult : Type 0 where
  -- the bytes that `fread` returned; none at the end of the file
  chunk : Bytes → ReadResult
  read_failed : ReadResult

-- What the calls of one step return: of `recv` for a size, of `send` by the call's number, of `fopen` and
-- `fseeko` whether they succeed, and of `fread` at a place of a file and for a size.
pub record Calls : Type 0 where
  pub recv : ℕ → RecvResult
  pub send : ℕ → SendResult
  pub fopen : Bytes → Bool
  pub fseeko : Bytes → ℕ → Bool
  pub fread : Bytes → ℕ → ℕ → ReadResult
  -- more rounds than a file has bytes
  pub rounds : ℕ

-- R_CLIENT_CLOSED and so on
pub data ReadStatus : Type 0 where
  client_closed complete_read partial_read fatal_error req_too_big : ReadStatus

-- W_MAX_TRIES and so on
pub data WriteStatus : Type 0 where
  max_tries fatal_write partial_write complete_write : WriteStatus

-- The bytes of a buffer, of which the items were written.
abbrev pub items : Memory → Buffer → Bytes
items memory b = fill memory.byte (take b.n_items b.cells)

abbrev pub sub_size : ℕ → ℕ → ℕ
sub_size a b = (a + (2 ^ 64 - b)) % 2 ^ 64

-- what `read_request` does with the bytes that came
unfoldable pub read_bytes :
    Memory → Connection → PendingRequest → Bytes → Option (Connection × ReadStatus)
unfolding memcpy is_http_end
read_bytes memory conn req bytes = do
  cells ← memcpy req.buf.cells req.buf.n_items (map some bytes)
  let buf : Buffer = record req.buf {
    cells = cells;
    n_items = add_size req.buf.n_items (length bytes);
  }
  let conn' : Connection = record conn { req = some (record req { buf = buf }) }
  some (
    conn',
    (if is_http_end (items memory buf)
        then complete_read
        else if length bytes == 0
        then (if buf.n_items == 0 then client_closed else complete_read)
        else if buf.n_items == buf.n_alloc
        then req_too_big
        else partial_read),
  )

-- `read_request` behind `recv`
unfoldable pub after_recv :
    Memory → Connection → PendingRequest → RecvResult → Option (Connection × ReadStatus)
unfolding read_bytes
after_recv memory conn req would_block = some (
    if conn.read_tries_left == 0
    then (conn, fatal_error)
    else (record conn { read_tries_left = conn.read_tries_left - 1 }, partial_read))
after_recv memory conn req recv_failed = some (conn, partial_read)
after_recv memory conn req (received bytes) = read_bytes memory conn req bytes

unfoldable pub read_request :
    Memory → (ℕ → RecvResult) → Connection → Option (Connection × ReadStatus)
unfolding after_recv
read_request memory recv conn = do
  req ← conn.req
  after_recv memory conn req (recv (sub_size req.buf.n_alloc req.buf.n_items))

-- what a writer leaves: the bytes that it put on the socket, and the calls of `send` that it made
pub record Written : Type 0 where
  pub conn : Connection
  pub status : WriteStatus
  pub wire : Bytes
  pub calls : ℕ

-- "Retry later if not sent fully"
abbrev pub retry : Connection → Response → Bytes → ℕ → Written
retry conn res wire calls =
    if conn.write_tries_left == 0
    then record {
      conn = record conn { res = some (record res { error = true }) };
      status = max_tries;
      wire = wire;
      calls = calls;
    }
    else record {
      conn = record conn { res = some res; write_tries_left = conn.write_tries_left - 1 };
      status = partial_write;
      wire = wire;
      calls = calls;
    }

abbrev pub broken : Connection → Response → Bytes → ℕ → Written
broken conn res wire calls = record {
  conn = record conn { res = some (record res { error = true }) };
  status = fatal_write;
  wire = wire;
  calls = calls;
}

abbrev pub finished : Connection → Response → Bytes → ℕ → Written
finished conn res wire calls = record {
  conn = record conn { res = some res };
  status = complete_write;
  wire = wire;
  calls = calls;
}

-- `send_buf` of `len` bytes of an allocation from the place `at`
unfoldable pub send_cells : Memory → (ℕ → SendResult) → List Cell → ℕ → ℕ → Option Sent
unfolding send_buf
send_cells memory send cells at len =
    let sent = send_buf send (fill memory.byte (drop at cells)) len in
    if leb (at + len) (length cells) then sent else none

-- `write_headers` behind its `send_buf`
unfoldable pub headers_sent : Option ℕ → Connection → Response → Bytes → ℕ → Written
headers_sent none conn res wire calls = broken conn res wire calls
headers_sent (some n) conn res wire calls =
    let res' : Response = record res { head_nbytes_sent = add_size res.head_nbytes_sent n } in
    if ltb res'.head_nbytes_sent res'.head.n_items
    then retry conn res' wire calls
    else finished conn res' wire calls

unfoldable pub write_headers : Memory → (ℕ → SendResult) → Connection → Option Written
unfolding send_cells headers_sent
write_headers memory send conn = do
  res ← conn.res
  s ←
      send_cells memory send res.head.cells res.head_nbytes_sent
        (sub_size res.head.n_items res.head_nbytes_sent)
  some (headers_sent s.result conn res s.wire s.calls)

-- `write_body` behind its `send_buf`
unfoldable pub body_sent : Option ℕ → Connection → Response → ℕ → ℕ → Bytes → ℕ → Written
body_sent none conn res start end wire calls = broken conn res wire calls
body_sent (some n) conn res start end wire calls =
    let res' : Response = record res { body_nbytes_sent = add_size res.body_nbytes_sent n } in
    if off_lt (add_size start res'.body_nbytes_sent) (add_size end 1)
    then retry conn res' wire calls
    else finished conn res' wire calls

-- `write_body` of a body with data. A range that was not set is what memory holds.
unfoldable pub write_data :
    Memory → (ℕ → SendResult) → Connection → Response → Buffer → Option Written
unfolding send_cells body_sent
write_data memory send conn res body = do
  let start = or_memory memory.number res.range_start
  let end = or_memory memory.number res.range_end
  s ←
      send_cells memory send body.cells (add_size start res.body_nbytes_sent)
        (sub_size (add_size end 1) res.body_nbytes_sent)
  some (body_sent s.result conn res start end s.wire s.calls)

-- a writer that fails before it sends
abbrev pub refused : Connection → Written
refused conn = record { conn = conn; status = fatal_write; wire = []; calls = 0 }

unfoldable pub write_body : Memory → (ℕ → SendResult) → Connection → Option Written
unfolding write_data
write_body memory send conn = do
  res ← conn.res
  elim res.body [ none ↦ some (refused conn) | some body ↦ write_data memory send conn res body ]

-- The loop's step behind its `send_buf`, with all that was sent so far: it ends, or goes on.
unfoldable pub file_sent :
    Option ℕ
    → Connection
    → Response
    → Bytes
    → ℕ
    → (Connection → Response → Option Written)
    → Option Written
file_sent none conn res wire calls go_on = some (broken conn res wire calls)
file_sent (some n) conn res wire calls go_on =
    let res' : Response = record res {
      file_offset = add_size res.file_offset n;
      file_nbytes_sent = add_size res.file_nbytes_sent n;
    } in
    let more = go_on (record conn { write_tries_left = 5 }) res' in
    if n == 0 then some (retry conn res' wire calls) else more

-- The loop of `write_file`. `read` is `fread` of the file, at the place `at` and for `size` bytes;
-- `wire` and `calls` are what was sent so far. `none` is the rounds run out.
unfoldable pub write_file_loop :
    ℕ → (ℕ → SendResult) → (ℕ → ReadResult) → ℕ → Connection → Response → Bytes → ℕ → Option Written
unfolding send_buf file_sent
write_file_loop zero send read at conn res wire calls = none
write_file_loop (suc rounds) send read at conn res wire calls = elim (read at) [
  | read_failed ↦ some (broken conn res wire calls)
  | chunk bytes ↦
      let sent = send_buf (λ call. send (calls + call)) bytes (length bytes) >>= λ s.
      file_sent s.result conn res (wire ++ s.wire) (calls + s.calls) (λ conn' res'.
        write_file_loop rounds send read (at + length bytes) conn' res' (wire ++ s.wire)
          (calls + s.calls)) in
      if length bytes == 0 then some (finished conn res wire calls) else sent
]

-- `write_file` of a file that was opened
unfoldable pub write_opened : Memory → Calls → Connection → Response → Bytes → Option Written
unfolding write_file_loop
write_opened memory calls conn res path =
    let nbytes_left = sub_size (or_memory memory.number res.range_end) res.file_offset in
    let nbytes_to_read = if ltb 4096 nbytes_left then 4096 else nbytes_left in
    let sent =
      write_file_loop calls.rounds calls.send (λ at. calls.fread path at nbytes_to_read)
        res.file_offset conn res [] 0 in
    if res.file_offset == 0
    then sent
    else if calls.fseeko path res.file_offset
    then sent
    else some (refused conn)

unfoldable pub write_file : Memory → Calls → Connection → Option Written
unfolding write_opened
write_file memory calls conn = do
  res ← conn.res
  path ← res.file_path
  if res.file.is_null
      then some (refused conn)
      else if calls.fopen path
      then write_opened memory calls conn res path
      else some (refused conn)
