-- ===== src/Server/Conn/Reads.antt =====
-- The state in which a request is read: its step comes to an end.
use mathlib.Core.Path.{subst}
use mimino.Base.{
  if_both, ℕ, ◌+◌, ◌-◌, ◌≤◌, inl, inr, Bool, true, false, Bytes, List, [], ◌++◌, map, Option, none,
  some, ◌≡◌, refl, sym, ◌∙◌, arith, leb, ◌==◌, if◌then◌else◌, length, take, drop, >>=-some,
  length-append, length-take, length-drop, length-map, length-replicate,
}
use mimino.Buffer.{Cell, memcpy, init_buf, xmalloc}
use mimino.Http.Html.{Memory}
use mimino.Http.Request.Reader.{null_request}
use mimino.Server.Types.{PollFd, PendingRequest, reading, Connection}
use mimino.Server.Pool.{state_events}
use mimino.Server.Transfer.{
  RecvResult, received, would_block, recv_failed, ReadStatus, client_closed, complete_read,
  partial_read, fatal_error, req_too_big, after_recv, read_bytes, read_request, sub_size,
}
use mimino.Server.Conn.{World, After, stay, close_in, with_request, do_request, do_reading}
use mimino.Server.Conn.Accepts.{do_request-Settled}
use mimino.Server.Conn.Ready.{Fits, RequestFits, Settled, in_state-Ready}

-- What reading leaves: the connection has a request, whose buffer keeps its size.
record Reads (conn conn' : Connection) : Type 0 where
  fd : conn'.fd ≡ conn.fd
  state : conn'.state ≡ conn.state
  req : PendingRequest
  has : conn'.req ≡ some req
  fits : Fits req.buf

memcpy-fits :
    (cells : List Cell) (at : ℕ) (src : List Cell)
    → at + length src ≤ length cells
    → (out : List Cell) × (memcpy cells at src ≡ some out) × (length out ≡ length cells)
unfolding memcpy
memcpy-fits cells at src h = (
  take at cells ++ (src ++ drop (at + length src) cells),
  rw fit refl,
  length-append (take at cells) _
      ∙ omega (
        arith,
        length-append src (drop (at + length src) cells),
        length-take at cells,
        length-drop (at + length src) cells,
        h,
      ),
)
  where
    fit : leb (at + length src) (length cells) ≡ true
    fit = ground arith

read_bytes-Reads :
    (memory : Memory) (conn : Connection) (req : PendingRequest) (bytes : Bytes)
    → Fits req.buf
    → length bytes ≤ req.buf.n_alloc - req.buf.n_items
    → (out : Connection × ReadStatus) × (read_bytes memory conn req bytes ≡ some out)
      × Reads conn out.0
unfolding read_bytes
read_bytes-Reads memory conn req bytes (same, filled, size) h =
    let (cells, copied, as_long) =
      memcpy-fits req.buf.cells req.buf.n_items (map some bytes)
        (omega (arith, same, filled, h, length-map {B = Cell} bytes some)) in
    (
      _,
      >>=-some (memcpy req.buf.cells req.buf.n_items (map some bytes)) _ copied refl,
      record {
        fd = refl;
        state = refl;
        req = _;
        has = refl;
        fits = (as_long ∙ same, omega (arith, h, filled, size), size);
      },
    )

after_recv-Reads :
    (memory : Memory) (conn : Connection) (req : PendingRequest) (result : RecvResult)
    → conn.req ≡ some req
    → Fits req.buf
    → ((bytes : Bytes) → result ≡ received bytes → length bytes ≤ req.buf.n_alloc - req.buf.n_items)
    → (out : Connection × ReadStatus) × (after_recv memory conn req result ≡ some out)
      × Reads conn out.0
unfolding after_recv
after_recv-Reads memory conn req (received bytes) e fits h =
    read_bytes-Reads memory conn req bytes fits (h bytes refl)
after_recv-Reads memory conn req recv_failed e fits h =
    (_, refl, record { fd = refl; state = refl; req = req; has = e; fits = fits })
after_recv-Reads memory conn req would_block e fits h = (
  _,
  refl,
  if_both (λ (o : Connection × ReadStatus). Reads conn o.0) (conn.read_tries_left == 0) _ _
      (record { fd = refl; state = refl; req = req; has = e; fits = fits })
      (record { fd = refl; state = refl; req = req; has = e; fits = fits }),
)

-- `recv` returns no more bytes than it is told that there is room for.
abbrev pub RecvFits : World → Type 0
RecvFits w = (size : ℕ) (bytes : Bytes) → w.calls.recv size ≡ received bytes → length bytes ≤ size

-- a read of what `recv` put into the room there is
read_request-Reads :
    (w : World) (conn : Connection) (req : PendingRequest)
    → conn.req ≡ some req
    → Fits req.buf
    → RecvFits w
    → (out : Connection × ReadStatus) × (read_request w.sys.memory w.calls.recv conn ≡ some out)
      × Reads conn out.0
unfolding read_request
read_request-Reads w conn req e (same, filled, size) bounded =
    let left = sub_size req.buf.n_alloc req.buf.n_items in
    let as_much : left ≡ req.buf.n_alloc - req.buf.n_items = omega (arith, filled, size) in
    let (out, done, reads) =
      after_recv-Reads w.sys.memory conn req (w.calls.recv left) e (same, filled, size)
        (λ bytes g. omega (arith, bounded left bytes g, as_much)) in
    (out, >>=-some conn.req _ e done, reads)

module _ (w : World) (pfd : PollFd) where
  after_read :
      (conn : Connection) (status : ReadStatus)
      → conn.state ≡ reading
      → pfd.fd ≡ conn.fd
      → pfd.events ≡ state_events reading
      → (req : PendingRequest) → conn.req ≡ some req
      → Fits req.buf
      → (a : After) × ((elim status [
        | partial_read ↦ some (stay pfd (record conn { last_active = w.time_now }) [])
        | fatal_error ↦ some (close_in pfd conn [])
        | client_closed ↦ some (close_in pfd conn [])
        | req_too_big ↦ some (close_in pfd conn [])
        | complete_read ↦ do_request w pfd conn
      ])
          ≡ some a)
        × Settled a
  unfolding close_in
  after_read conn partial_read s f v req e fits =
      (_, refl, inr (in_state-Ready reading s f v (subst RequestFits (sym e) fits)))
  after_read conn fatal_error s f v req e fits = (_, refl, inl refl)
  after_read conn client_closed s f v req e fits = (_, refl, inl refl)
  after_read conn req_too_big s f v req e fits = (_, refl, inl refl)
  after_read conn complete_read s f v req e fits = do_request-Settled w pfd conn req s f e

-- the request of a connection that reads
with_request-Reads : (conn : Connection) → RequestFits conn.req → Reads conn (with_request conn)
unfolding with_request init_buf xmalloc
with_request-Reads conn =
    elim conn.req
        as (λ o.
          conn.req ≡ o
          → RequestFits o
          → Reads conn (elim o [
            | some req ↦ conn
            | none ↦ record conn {
              req = some (record { buf = init_buf 4096; fields = null_request });
            }
          ])) [
            | some req ↦
                λ e fits. record { fd = refl; state = refl; req = req; has = e; fits = fits }
            | none ↦ λ e fits. record {
              fd = refl;
              state = refl;
              req = record { buf = init_buf 4096; fields = null_request };
              has = refl;
              fits = (length-replicate {A = Cell} 4096 none, omega arith, refl);
            }
          ]
      refl

module _ (w : World) (pfd : PollFd) where
  -- Reading comes to an end, whatever `recv` put into the room that it was told of, and settles the
  -- connection.
  pub do_reading-Settled :
      (conn : Connection)
      → conn.state ≡ reading
      → pfd.fd ≡ conn.fd
      → pfd.events ≡ state_events reading
      → RequestFits conn.req
      → RecvFits w
      → (a : After) × (do_reading w pfd conn ≡ some a) × Settled a
  unfolding do_reading
  do_reading-Settled conn s f v fits bounded =
      let q = with_request-Reads conn fits in
      let ((conn', status), done, r) =
        read_request-Reads w (with_request conn) q.req q.has q.fits bounded in
      let (a, went, settled) =
        after_read w pfd conn' status (r.state ∙ q.state ∙ s) (f ∙ sym q.fd ∙ sym r.fd) v r.req
          r.has r.fits in
      pass pfd.revents.pollin _ a
        (>>=-some (read_request w.sys.memory w.calls.recv (with_request conn)) _ done went) settled
        (inr (in_state-Ready reading s f v fits))
    where
      pass :
          (b : Bool) (x : Option After) (a : After)
          → x ≡ some a
          → Settled a
          → Settled (stay pfd conn [])
          → (a : After) × ((if b then x else some (stay pfd conn [])) ≡ some a) × Settled a
      pass true x a e h k = (a, e, h)
      pass false x a e h k = (stay pfd conn [], refl, k)
