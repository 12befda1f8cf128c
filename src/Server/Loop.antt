-- ===== src/Server/Loop.antt =====
-- mimino.c: the main loop, one iteration of it.
pub mod Entries
pub mod Kept
pub mod Iteration
use mimino.Base.{
  ℕ, zero, suc, ◌+◌, Bool, true, false, not, ◌&&◌, List, [], ◌∷◌, Option, none, some, ◌>>=◌, ltb,
  leb, if◌then◌else◌,
}
use mimino.Server.Types.{
  PollEvents, PollFd, ConnState, reading, writing_headers, writing_body, writing_finished, closing,
  Connection, PollQueue,
}
use mimino.Server.Pool.{read, write, serv_add_connection, close_connection}
use mimino.Server.Conn.{World, After, do_state}

abbrev pub is_closing : ConnState → Bool
is_closing reading = false
is_closing writing_headers = false
is_closing writing_body = false
is_closing writing_finished = false
is_closing closing = true

-- "Drop connection if it timed out"
unfoldable pub time_out : World → Connection → Connection
time_out w conn =
    if not (is_closing conn.state) && leb (conn.last_active + w.conf.timeout_secs) w.time_now
    then record conn { state = closing }
    else conn

-- the entries that a step leaves, and the close that it ends with
unfoldable pub store : PollQueue → ℕ → After → Option PollQueue
store q idx a = do
  conns ← write q.conns idx a.conn
  pollfds ← write q.pollfds idx a.pfd
  let q' : PollQueue = record q { conns = conns; pollfds = pollfds }
  if a.closes then close_connection q' idx else some q'

-- `do_conn_state` on the queue
unfoldable pub do_conn_state : World → PollQueue → ℕ → Option PollQueue
unfolding do_state store
do_conn_state w q idx = do
  conn ← read q.conns idx
  pfd ← read q.pollfds idx
  a ← do_state conn.state w pfd conn
  store q idx a

-- the body of the loop over the connections
unfoldable pub serve_one : World → PollQueue → ℕ → Option PollQueue
unfolding time_out do_conn_state
serve_one w q idx = do
  conn ← read q.conns idx
  conns ← write q.conns idx (time_out w conn)
  do_conn_state w (record q { conns = conns }) idx

-- The loop over the connections from `idx` on, for `rounds` of them at most: `idx` grows in each
-- round and the count of the connections never does, so a round for each is enough.
unfoldable pub serve_from : ℕ → (ℕ → World) → PollQueue → ℕ → Option PollQueue
unfolding serve_one
serve_from zero worlds q idx = some q
serve_from (suc rounds) worlds q idx =
    let served = serve_one (worlds idx) q idx >>= λ q'. serve_from rounds worlds q' (idx + 1) in
    if ltb idx q.n_conns then served else some q

-- `poll`, by the events that it reports for each of the `n` entries from `i` on
unfoldable pub poll_from : (ℕ → PollEvents) → ℕ → ℕ → List (Option PollFd) → List (Option PollFd)
poll_from events i zero slots = slots
poll_from events i (suc n) [] = []
poll_from events i (suc n) (none ∷ slots) = none ∷ poll_from events (i + 1) n slots
poll_from events i (suc n) (some pfd ∷ slots) =
    some (record pfd { revents = events i }) ∷ poll_from events (i + 1) n slots

-- what `accept_new_conn` returns, where the queue has room for it
abbrev pub accepted : ℕ → PollQueue → Option ℕ → Option ℕ
accepted max_fds q newsock = if leb max_fds q.n_conns then none else newsock

-- An iteration: a new connection is added, or the connections are served.
unfoldable pub main_iteration :
    ℕ → ℕ → (ℕ → PollEvents) → Option ℕ → (ℕ → World) → PollQueue → Option PollQueue
unfolding poll_from serve_from serv_add_connection
main_iteration max_fds time_now events newsock worlds queue =
    let q : PollQueue = record queue { pollfds = poll_from events 0 queue.n_conns queue.pollfds } in
    let served = serve_from q.n_conns worlds q 1 in
    read q.pollfds 0 >>= λ listen.
    if listen.revents.pollin
    then (elim (accepted max_fds q newsock) [
      | none ↦ served
      | some sock ↦ serv_add_connection max_fds time_now q sock
    ])
    else served
