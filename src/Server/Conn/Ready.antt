-- ===== src/Server/Conn/Ready.antt =====
-- The connections between two steps, and what the writers keep of them.
use mathlib.Core.Path.{subst}
use mathlib.Core.Option.{some-injective}
use mimino.Base.{
  ℕ, ◌≤◌, ◌⊎◌, inl, inr, true, Bytes, Option, none, some, ◌≡◌, refl, sym, ap, ◌∙◌, ltb, ◌==◌,
  length, Bool-cases, >>=-eq-some,
}
use mimino.Buffer.{Buffer, add_size}
use mimino.Http.Html.{Memory, or_memory}
use mimino.Http.Response.{off_lt}
use mimino.Server.Send.{SendResult}
use mimino.Server.Types.{
  Response, PollFd, PendingRequest, ConnState, reading, writing_headers, writing_body,
  writing_finished, closing, Connection,
}
use mimino.Server.Pool.{state_events}
use mimino.Server.Transfer.{
  Written, send_cells, headers_sent, write_headers, body_sent, write_data, retry, broken, finished,
  sub_size,
}
use mimino.Server.Conn.{After}

-- the buffer of a request being read
abbrev pub Fits : Buffer → Type 0
Fits b = (length b.cells ≡ b.n_alloc) × (b.n_items ≤ b.n_alloc) × (b.n_alloc ≡ 4096)

abbrev pub RequestFits : Option PendingRequest → Type 0
RequestFits none = Unit {0}
RequestFits (some req) = Fits req.buf

-- The request was parsed, and has a method and a path.
abbrev pub HasRequest : Connection → Type 0
HasRequest conn =
    (req : PendingRequest) × (method : Bytes) × (path : Bytes) × (conn.req ≡ some req)
    × (req.fields.method ≡ some method)
    × (req.fields.path ≡ some path)

abbrev pub HasResponse : Connection → Type 0
HasResponse conn = (res : Response) × (conn.res ≡ some res)

-- What a connection in a state has. In two of the states no connection is left.
abbrev pub Phase : ConnState → Connection → Type 0
Phase reading conn = RequestFits conn.req
Phase writing_headers conn = HasRequest conn
Phase writing_body conn = HasRequest conn × HasResponse conn
Phase writing_finished conn = ⊥
Phase closing conn = ⊥

-- The two entries are of one socket, which waits for the events of the connection's state.
pub record Ready (pfd : PollFd) (conn : Connection) : Type 0 where
  pub same : pfd.fd ≡ conn.fd
  pub waits : pfd.events ≡ state_events conn.state
  pub phase : Phase conn.state conn

-- The step closed the connection, or left it ready.
abbrev pub Settled : After → Type 0
Settled a = (a.closes ≡ true) ⊎ Ready a.pfd a.conn

pub in_state-Ready :
    (s : ConnState) {pfd : PollFd} {conn : Connection}
    → conn.state ≡ s
    → pfd.fd ≡ conn.fd
    → pfd.events ≡ state_events s
    → Phase s conn
    → Ready pfd conn
in_state-Ready s {conn = conn} e f v p = record {
  same = f;
  waits = v ∙ ap state_events (sym e);
  phase = subst (λ t. Phase t conn) (sym e) p;
}

-- What a writer leaves as it was. The response is there.
pub record Keeps (conn conn' : Connection) : Type 0 where
  pub fd : conn'.fd ≡ conn.fd
  pub state : conn'.state ≡ conn.state
  pub req : conn'.req ≡ conn.req
  pub keep_alive : conn'.keep_alive ≡ conn.keep_alive
  pub res : HasResponse conn'

pub broken-Keeps :
    (conn : Connection) (res : Response) (wire : Bytes) (calls : ℕ)
    → Keeps conn (broken conn res wire calls).conn
broken-Keeps conn res wire calls = record {
  fd = refl;
  state = refl;
  req = refl;
  keep_alive = refl;
  res = (record res { error = true }, refl);
}

pub finished-Keeps :
    (conn : Connection) (res : Response) (wire : Bytes) (calls : ℕ)
    → Keeps conn (finished conn res wire calls).conn
finished-Keeps conn res wire calls = record {
  fd = refl;
  state = refl;
  req = refl;
  keep_alive = refl;
  res = (res, refl);
}

pub retry-Keeps :
    (conn : Connection) (res : Response) (wire : Bytes) (calls : ℕ)
    → Keeps conn (retry conn res wire calls).conn
retry-Keeps conn res wire calls = elim (Bool-cases (conn.write_tries_left == 0)) [
  | inl e ↦ rw e (broken-Keeps conn res wire calls)
  | inr e ↦
      rw e (record { fd = refl; state = refl; req = refl; keep_alive = refl; res = (res, refl) })
]

headers_sent-Keeps :
    (result : Option ℕ) (conn : Connection) (res : Response) (wire : Bytes) (calls : ℕ)
    → Keeps conn (headers_sent result conn res wire calls).conn
unfolding headers_sent
headers_sent-Keeps none conn res wire calls = broken-Keeps conn res wire calls
headers_sent-Keeps (some n) conn res wire calls =
    let res' : Response = record res { head_nbytes_sent = add_size res.head_nbytes_sent n } in
    elim (Bool-cases (ltb res'.head_nbytes_sent res'.head.n_items)) [
      | inl e ↦ rw e (retry-Keeps conn res' wire calls)
      | inr e ↦ rw e (finished-Keeps conn res' wire calls)
    ]

body_sent-Keeps :
    (result : Option ℕ) (conn : Connection) (res : Response) (start end : ℕ) (wire : Bytes)
    (calls : ℕ)
    → Keeps conn (body_sent result conn res start end wire calls).conn
unfolding body_sent
body_sent-Keeps none conn res start end wire calls = broken-Keeps conn res wire calls
body_sent-Keeps (some n) conn res start end wire calls =
    let res' : Response = record res { body_nbytes_sent = add_size res.body_nbytes_sent n } in
    elim (Bool-cases (off_lt (add_size start res'.body_nbytes_sent) (add_size end 1))) [
      | inl e ↦ rw e (retry-Keeps conn res' wire calls)
      | inr e ↦ rw e (finished-Keeps conn res' wire calls)
    ]

-- what a writer returns keeps the connection
abbrev pub KeepsAll : Connection → Option Written → Type 0
KeepsAll conn o = (r : Written) → o ≡ some r → Keeps conn r.conn

pub write_headers-Keeps :
    (memory : Memory) (send : ℕ → SendResult) (conn : Connection)
    → KeepsAll conn (write_headers memory send conn)
unfolding write_headers
write_headers-Keeps memory send conn r h =
    let (res, e, h₁) = >>=-eq-some conn.res _ h in
    let (s, e₂, h₂) =
      >>=-eq-some
        (send_cells memory send res.head.cells res.head_nbytes_sent
          (sub_size res.head.n_items res.head_nbytes_sent))
        _ h₁ in
    subst (λ q. Keeps conn q.conn) (some-injective _ r h₂)
      (headers_sent-Keeps s.result conn res s.wire s.calls)

pub write_data-Keeps :
    (memory : Memory) (send : ℕ → SendResult) (conn : Connection) (res : Response) (body : Buffer)
    → KeepsAll conn (write_data memory send conn res body)
unfolding write_data
write_data-Keeps memory send conn res body r h =
    let (s, e, h₁) =
      >>=-eq-some
        (send_cells memory send body.cells
          (add_size (or_memory memory.number res.range_start) res.body_nbytes_sent)
          (sub_size (add_size (or_memory memory.number res.range_end) 1) res.body_nbytes_sent))
        _ h in
    subst (λ q. Keeps conn q.conn) (some-injective _ r h₁)
      (body_sent-Keeps s.result conn res (or_memory memory.number res.range_start)
        (or_memory memory.number res.range_end) s.wire s.calls)
