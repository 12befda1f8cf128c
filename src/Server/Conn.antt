-- ===== src/Server/Conn.antt =====
-- mimino.c: `do_conn_state`, for the entry of a connection in each of the two arrays. A branch that
-- calls the function again, in the state that it has just set, goes on to that state's branch.
pub mod Ready
pub mod Writers
pub mod Steps
pub mod Accepts
pub mod Reads
pub mod Settled
pub mod Serves
pub mod HeadRequest
pub mod Bodies
pub mod Receives
pub mod GetFile
pub mod GetDirectory
pub mod Exchange
use mimino.Base.{
  ℕ, zero, suc, ◌+◌, Bool, true, false, not, ◌&&◌, ◌||◌, Bytes, List, [], ◌∷◌, ◌++◌, Option, none,
  some, ◌>>=◌, if◌then◌else◌, codes, str_eq, strcasecmp_eq, drop,
}
use mimino.Buffer.{init_buf}
use mimino.Http.Html.{Memory, fill}
use mimino.Http.Response.{System, make_http_response, print_http_response}
use mimino.Http.Request.Reader.{Request, ParseError, null_request}
use mimino.Http.Request.{parse_http_request}
use mimino.Server.Config.{Config}
use mimino.Server.Send.{SendResult}
use mimino.Server.Types.{
  Response, PollFd, PendingRequest, ConnState, reading, writing_headers, writing_body,
  writing_finished, closing, Connection,
}
use mimino.Server.Pool.{recycle_connection, set_conn_state}
use mimino.Server.Transfer.{
  Calls, ReadStatus, client_closed, complete_read, partial_read, fatal_error, req_too_big,
  WriteStatus, max_tries, fatal_write, partial_write, complete_write, items, Written, read_request,
  write_headers, write_body, write_file,
}

-- what a step knows of the world
pub record World : Type 0 where
  pub sys : System
  pub conf : Config
  pub time_now : ℕ
  pub calls : Calls

-- what a step leaves: the two entries, the bytes sent, and whether the connection is closed
pub record After : Type 0 where
  pub pfd : PollFd
  pub conn : Connection
  pub wire : Bytes
  pub closes : Bool

abbrev pub stay : PollFd → Connection → Bytes → After
stay pfd conn wire = record { pfd = pfd; conn = conn; wire = wire; closes = false }

abbrev pub stay_in : ConnState → PollFd → Connection → Bytes → After
stay_in state pfd conn wire =
    let (pfd', conn') = set_conn_state pfd conn state in stay pfd' conn' wire

-- CONN_STATE_CLOSING, where the state has just been set
unfoldable pub close_in : PollFd → Connection → Bytes → After
unfolding set_conn_state
close_in pfd conn wire =
    let (pfd', conn') = set_conn_state pfd conn closing in
    record { pfd = pfd'; conn = conn'; wire = wire; closes = true }

-- CONN_STATE_WRITING_FINISHED
unfoldable pub do_finished : World → PollFd → Connection → Bytes → After
unfolding recycle_connection set_conn_state close_in
do_finished w pfd conn wire =
    let (pfd', conn') = recycle_connection w.time_now pfd conn in
    if conn.keep_alive then stay_in reading pfd' conn' wire else close_in pfd conn wire

-- the same, where the state has just been set
unfoldable pub finish_in : World → PollFd → Connection → Bytes → After
unfolding do_finished set_conn_state
finish_in w pfd conn wire =
    let (pfd', conn') = set_conn_state pfd conn writing_finished in do_finished w pfd' conn' wire

-- CONN_STATE_WRITING_BODY behind the writer
unfoldable pub body_written : World → PollFd → Bytes → WriteStatus → Connection → Bytes → After
unfolding close_in finish_in
body_written w pfd wire partial_write conn sent = stay pfd conn (wire ++ sent)
body_written w pfd wire max_tries conn sent = close_in pfd conn (wire ++ sent)
body_written w pfd wire fatal_write conn sent = close_in pfd conn (wire ++ sent)
body_written w pfd wire complete_write conn sent = finish_in w pfd conn (wire ++ sent)

-- the writer of the body: the data in memory, or the file
unfoldable pub write_any : World → Calls → Connection → Option Written
unfolding write_body write_file
write_any w calls conn = do
  res ← conn.res
  elim res.body [
    | some body ↦ write_body w.sys.memory calls.send conn
    | none ↦ write_file w.sys.memory calls conn
  ]

-- CONN_STATE_WRITING_BODY, after `skip` calls of `send` in the same step
unfoldable pub do_body : World → PollFd → Connection → Bytes → ℕ → Option After
unfolding body_written write_any
do_body w pfd conn wire skip =
    let calls : Calls = record w.calls { send = λ call. w.calls.send (skip + call) } in
    let written =
      write_any w calls conn >>= λ r. some (body_written w pfd wire r.status r.conn r.wire) in
    if pfd.revents.pollout then written else some (stay pfd conn wire)

-- the same, where the state has just been set
unfoldable pub body_in : World → PollFd → Connection → Bytes → ℕ → Option After
unfolding do_body set_conn_state
body_in w pfd conn wire skip =
    let (pfd', conn') = set_conn_state pfd conn writing_body in do_body w pfd' conn' wire skip

-- CONN_STATE_WRITING_HEADERS behind the writer
unfoldable pub headers_written : World → PollFd → Written → Option After
unfolding close_in finish_in body_in
headers_written w pfd r = elim r.status [
  | partial_write ↦ some (stay pfd (record r.conn { last_active = w.time_now }) r.wire)
  | max_tries ↦ some (close_in pfd r.conn r.wire)
  | fatal_write ↦ some (close_in pfd r.conn r.wire)
  | complete_write ↦ r.conn.req >>= λ req. req.fields.method >>= λ method.
      if str_eq method (codes "HEAD")
      then some (finish_in w pfd r.conn r.wire)
      else body_in w pfd r.conn r.wire r.calls
]

-- what is printed of a new response, where the server is verbose
unfoldable pub printed : World → Response → Option (Unit {0})
unfolding print_http_response
printed w res = if w.conf.verbose then print_http_response w.sys.memory res else some tt

-- "Generate response"
unfoldable pub with_response : World → Connection → Option Connection
unfolding make_http_response printed
with_response w conn = elim conn.res [
  | some res ↦ some conn
  | none ↦ conn.req >>= λ req. make_http_response w.sys w.conf req.fields >>= λ res.
      printed w res >>= λ _. some (record conn { res = some res; last_active = w.time_now })
]

-- CONN_STATE_WRITING_HEADERS
unfoldable pub do_headers : World → PollFd → Connection → Option After
unfolding with_response headers_written write_headers
do_headers w pfd conn =
    let written = do
      conn' ← with_response w conn
      r ← write_headers w.sys.memory w.calls.send conn'
      headers_written w pfd r
    in if pfd.revents.pollout then written else some (stay pfd conn [])

-- "Allocate memory for request struct"
unfoldable pub with_request : Connection → Connection
with_request conn = elim conn.req [
  | some req ↦ conn
  | none ↦ record conn { req = some (record { buf = init_buf 4096; fields = null_request }) }
]

abbrev pub is_null : Option Bytes → Bool
is_null none = true
is_null (some s) = false

abbrev pub is_none : Option ParseError → Bool
is_none none = true
is_none (some e) = false

-- the header "Connection: close"
abbrev pub wants_close : Option Bytes → Bool
wants_close none = false
wants_close (some value) = strcasecmp_eq value (codes "close")

-- a parsed request: whether the connection goes on to the response
unfoldable pub accept_request : World → PollFd → Connection → PendingRequest → Request → After
unfolding close_in set_conn_state strcasecmp_eq
accept_request w pfd conn req fields =
    let parsed : Connection = record conn {
      req = some (record req { fields = fields });
      last_active = w.time_now;
    } in
    let kept : Connection = record parsed {
      keep_alive = if wants_close fields.connection then false else conn.keep_alive;
    } in
    if not (is_none fields.error)
      && (is_null fields.method || is_null fields.path || is_null fields.host)
    then close_in pfd parsed []
    else stay_in writing_headers pfd kept []

-- R_COMPLETE_READ: the request is parsed in its buffer.
unfoldable pub do_request : World → PollFd → Connection → Option After
unfolding accept_request parse_http_request
do_request w pfd conn = do
  req ← conn.req
  fields ←
      parse_http_request (items w.sys.memory req.buf)
        (fill w.sys.memory.byte (drop req.buf.n_items req.buf.cells))
  some (accept_request w pfd conn req fields)

-- CONN_STATE_READING
unfoldable pub do_reading : World → PollFd → Connection → Option After
unfolding with_request read_request do_request close_in
do_reading w pfd conn =
    let read = read_request w.sys.memory w.calls.recv (with_request conn) >>= λ (conn', status).
    elim status [
      | partial_read ↦ some (stay pfd (record conn' { last_active = w.time_now }) [])
      | fatal_error ↦ some (close_in pfd conn' [])
      | client_closed ↦ some (close_in pfd conn' [])
      | req_too_big ↦ some (close_in pfd conn' [])
      | complete_read ↦ do_request w pfd conn'
    ] in
    if pfd.revents.pollin then read else some (stay pfd conn [])

-- the branch of a state
unfoldable pub do_state : ConnState → World → PollFd → Connection → Option After
unfolding do_reading do_headers do_body do_finished close_in
do_state reading w pfd conn = do_reading w pfd conn
do_state writing_headers w pfd conn = do_headers w pfd conn
do_state writing_body w pfd conn = do_body w pfd conn [] 0
do_state writing_finished w pfd conn = some (do_finished w pfd conn [])
do_state closing w pfd conn = some (record { pfd = pfd; conn = conn; wire = []; closes = true })
