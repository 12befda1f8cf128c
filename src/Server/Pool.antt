-- ===== src/Server/Pool.antt =====
-- mimino.c: the queue of the polled descriptors and their connections. An access to an array
-- outside its allocation, or to a slot never written, is the `none` of the results.
pub mod Slots
pub mod Refine
pub mod Removed
pub mod Bag
use mimino.Base.{
  ℕ, ◌+◌, ◌-◌, ◌*◌, ◌/◌, true, false, not, ◌&&◌, List, ◌++◌, Option, none, some, ◌>>=◌, ltb, leb,
  ◌==◌, if◌then◌else◌, min, max, take, replicate, length, get_elem?, set,
}
use mimino.Server.Types.{
  PollEvents, PollFd, ConnState, reading, writing_headers, writing_body, writing_finished, closing,
  Connection, PollQueue,
}

abbrev pub no_events : PollEvents
no_events = record { pollin = false; pollout = false }

abbrev pub only_pollin : PollEvents
only_pollin = record { pollin = true; pollout = false }

abbrev pub only_pollout : PollEvents
only_pollout = record { pollin = false; pollout = true }

-- `xrealloc` of an array
abbrev pub resize : {A : Type 0} → List (Option A) → ℕ → List (Option A)
resize slots n = take n slots ++ replicate (n - length slots) none

-- `slots[i]`, read
abbrev pub read : {A : Type 0} → List (Option A) → ℕ → Option A
read slots i = do slot ← get_elem? slots i; slot

-- `slots[i] = a`
abbrev pub write : {A : Type 0} → List (Option A) → ℕ → A → Option (List (Option A))
write slots i a = if ltb i (length slots) then some (set slots i (some a)) else none

unfoldable pub make_connection : Option ℕ → ℕ → Connection
make_connection fd time_now = record {
  fd = fd;
  state = reading;
  req = none;
  res = none;
  read_tries_left = 5;
  write_tries_left = 5;
  keep_alive = true;
  last_active = time_now;
}

unfoldable pub init_conn_pool : ℕ → PollQueue
init_conn_pool max_fds =
    let n = min max_fds 1024 in
    record { pollfds = replicate n none; conns = replicate n none; n_conns = 0; n_conns_alloc = n }

-- a new connection's entry in the other array
abbrev pub new_pollfd : ℕ → PollFd
new_pollfd sock = record { fd = some sock; events = only_pollin; revents = no_events }

-- "Resize pollfds and conns arrays"
unfoldable pub resize_for : ℕ → ℕ → PollQueue → PollQueue
resize_for max_fds n_conns q =
    let n = min (q.n_conns_alloc * 2) max_fds in
    let bigger = record q {
      pollfds = resize q.pollfds n;
      conns = resize q.conns n;
      n_conns_alloc = n;
    } in
    if leb q.n_conns_alloc n_conns then bigger else q

-- the writes of "Add pollfd" and "Add connection", and the count
unfoldable pub add_at : PollQueue → ℕ → PollFd → Connection → Option PollQueue
add_at q idx pollfd conn = do
  pollfds ← write q.pollfds idx pollfd
  conns ← write q.conns idx conn
  some (record q { pollfds = pollfds; conns = conns; n_conns = idx + 1 })

unfoldable pub serv_add_connection : ℕ → ℕ → PollQueue → ℕ → Option PollQueue
serv_add_connection max_fds time_now q newsock =
    let idx = q.n_conns in
    add_at (resize_for max_fds (idx + 1) q) idx (new_pollfd newsock)
      (make_connection (some newsock) time_now)

-- The new pool of `main`, with the listening socket's entry.
unfoldable pub listen_pool : ℕ → ℕ → ℕ → Option PollQueue
listen_pool max_fds time_now listen_sock =
    add_at (init_conn_pool max_fds) 0 (new_pollfd listen_sock)
      (make_connection (some listen_sock) time_now)

-- A new connection in the main loop; `newsock` is what `accept_new_conn` returns.
unfoldable pub accept_connection : ℕ → ℕ → PollQueue → Option ℕ → Option PollQueue
accept_connection max_fds time_now q none = some q
accept_connection max_fds time_now q (some newsock) =
    let added = serv_add_connection max_fds time_now q newsock in
    if leb max_fds q.n_conns then some q else added

-- "Downsize if necessary"
unfoldable pub downsize : PollQueue → PollQueue
downsize q =
    let n = max 20 (q.n_conns_alloc / 2) in
    let smaller = record q {
      pollfds = resize q.pollfds n;
      conns = resize q.conns n;
      n_conns_alloc = n;
    } in
    if ltb 20 q.n_conns_alloc && leb q.n_conns (q.n_conns_alloc / 4) then smaller else q

-- "Copy last pollfd and conn onto current pollfd and conn"
abbrev pub move_last : {A : Type 0} → List (Option A) → ℕ → ℕ → Option (List (Option A))
move_last slots i n =
    let moved = (read slots (n - 1) >>= λ a. write slots i a) in
    if not (i == n - 1) then moved else some slots

-- what `close_connection` does to one array: `dead` is the entry that it writes
unfoldable pub remove_at :
    {A : Type 0} → List (Option A) → ℕ → ℕ → (A → A) → Option (List (Option A))
remove_at slots i n dead = do
  a ← read slots i
  written ← write slots i (dead a)
  move_last written i n

unfoldable pub close_connection : PollQueue → ℕ → Option PollQueue
close_connection q i = do
  conns ← remove_at q.conns i q.n_conns (λ conn. record conn { fd = none })
  pollfds ←
      remove_at q.pollfds i q.n_conns
        (λ pfd. record { fd = none; events = no_events; revents = no_events })
  some (downsize (record q { pollfds = pollfds; conns = conns; n_conns = q.n_conns - 1 }))

-- `recycle_connection`, on the two entries; the request and the response are freed.
unfoldable pub recycle_connection : ℕ → PollFd → Connection → PollFd × Connection
recycle_connection time_now pfd conn = (
  record pfd { events = only_pollin; revents = no_events },
  record conn {
    req = none;
    res = none;
    read_tries_left = 5;
    write_tries_left = 5;
    keep_alive = true;
    last_active = time_now;
  },
)

-- the events that a connection in the state waits for
abbrev pub state_events : ConnState → PollEvents
state_events reading = only_pollin
state_events writing_headers = only_pollout
state_events writing_body = only_pollout
state_events writing_finished = no_events
state_events closing = no_events

unfoldable pub set_conn_state : PollFd → Connection → ConnState → PollFd × Connection
set_conn_state pfd conn state =
    (record pfd { events = state_events state }, record conn { state = state })
