-- ===== src/Server/Conn/Receives.antt =====
-- A request that is received whole, from its bytes to the response that waits to be made.
use mimino.Base.{
  ◌+◌, ◌≤◌, ◌&&◌, ◌||◌, not, true, false, Bytes, List, [], ◌∷◌, ◌++◌, map, none, some, ◌≡◌, refl,
  sym, ap, ◌∙◌, inl, arith, codes, leb, if◌then◌else◌, if_true, if_false, if_both, strcasecmp_eq,
  length, take, drop, >>=-some, append_assoc, length-map, length-replicate,
}
use mimino.Buffer.{Cell, memcpy, init_buf, xmalloc, add_size}
use mimino.Buffer.Append.{take-length}
use mimino.Http.Html.{Memory, fill}
use mimino.Http.Request.Reader.{Request, null_request}
use mimino.Http.Request.Header.{set_ranges}
use mimino.Http.Request.RoundTrip.Headers.{Header, headers_text, effect, effects}
use mimino.Http.Request.RoundTrip.Request.{
  version_text, Message, IsMessage, message_text, message_request, parse_http_request-message_text,
}
use mimino.Http.Request.{parse_http_request}
use mimino.Http.Response.{is_http_end}
use mimino.Http.Response.End.{EndsWith, is_http_end_iff}
use mimino.Server.Types.{PollFd, PendingRequest, writing_headers, Connection}
use mimino.Server.Transfer.{received, complete_read, items, read_bytes, after_recv, read_request}
use mimino.Server.Transfer.Cells.{filled_text}
use mimino.Server.Conn.{
  World, stay_in, wants_close, is_none, is_null, with_request, accept_request, do_request,
  do_reading,
}

-- The headers do not set an error.
effect-error :
    (req : Request) (h : Header) (behind : Bytes) → (effect req h behind).error ≡ req.error
unfolding set_ranges
effect-error req h behind =
    let both = λ (name : Bytes).
      if_both (λ (r : Request). r.error ≡ req.error) (strcasecmp_eq name h.name) in
    both (codes "Host") _ _ refl (
      both (codes "User-Agent") _ _ refl (
        both (codes "Accept") _ _ refl
          (both (codes "Connection") _ _ refl (both (codes "Range") _ _ refl refl))))

effects-error :
    (hs : List Header) (req : Request) (rest : Bytes) → (effects req hs rest).error ≡ req.error
effects-error [] req rest = refl
effects-error (h ∷ hs) req rest =
    effects-error hs (effect req h (b'\r' ∷ b'\n' ∷ headers_text hs rest)) rest
    ∙ effect-error req h (b'\r' ∷ b'\n' ∷ headers_text hs rest)

-- what ends in the empty line
behind_ends : (front buf tail : Bytes) → EndsWith buf tail → EndsWith (front ++ buf) tail
behind_ends front buf tail (before, e) =
    (front ++ before, ap (front ++◌) e ∙ sym (append_assoc front before tail))

headers_end : (hs : List Header) → EndsWith (b'\r' ∷ b'\n' ∷ headers_text hs []) (codes "\r\n\r\n")
headers_end [] = ([], refl)
headers_end (h ∷ hs) = behind_ends (b'\r' ∷ b'\n' ∷ []) _ _ (
    behind_ends h.name _ _
      (behind_ends (b':' ∷ b' ' ∷ []) _ _ (behind_ends h.value _ _ (headers_end hs))))

message_end : (m : Message) → EndsWith (message_text m []) (codes "\r\n\r\n")
message_end m = behind_ends m.method _ _ (
    behind_ends (b' ' ∷ []) _ _ (
      behind_ends m.path _ _ (
        behind_ends (b' ' ∷ []) _ _ (
          behind_ends (codes "HTTP/") _ _
            (behind_ends (version_text m.version) _ _ (headers_end m.headers))))))

memcpy_front :
    (cells src : List Cell)
    → length src ≤ length cells
    → memcpy cells 0 src ≡ some (src ++ drop (0 + length src) cells)
unfolding memcpy
memcpy_front cells src h =
    let fit : leb (0 + length src) (length cells) ≡ true = ground arith in
    if_true (leb (0 + length src) (length cells)) _ _ fit

abbrev empty : PendingRequest
empty = record { buf = init_buf 4096; fields = null_request }

-- the request's buffer behind the read
abbrev filled : Bytes → PendingRequest
filled text = record {
  buf = record {
    cells = map some text ++ drop (0 + length (map {B = Cell} some text)) (xmalloc 4096);
    n_items = add_size 0 (length text);
    n_alloc = 4096;
  };
  fields = null_request;
}

items_filled :
    (memory : Memory) (text : Bytes) → length text ≤ 4096 → items memory (filled text).buf ≡ text
items_filled memory text h =
    let as_long : add_size 0 (length text) ≡ length (map {B = Cell} some text) =
      omega (arith, length-map {B = Cell} text some, h) in
    ap (λ n. fill memory.byte (take n (filled text).buf.cells)) as_long
    ∙ ap (fill memory.byte) (take-length (map some text) _)
    ∙ filled_text memory.byte text

read_bytes-text :
    (memory : Memory) (conn : Connection) (text : Bytes)
    → length text ≤ 4096
    → is_http_end text ≡ true
    → read_bytes memory conn empty text
      ≡ some (record conn { req = some (filled text) }, complete_read)
unfolding read_bytes init_buf xmalloc
read_bytes-text memory conn text h ends =
    let room : length (map {B = Cell} some text) ≤ length (xmalloc 4096) =
      omega (arith, length-map {B = Cell} text some, length-replicate {0} {A = Cell} 4096 none) in
    >>=-some (memcpy (xmalloc 4096) 0 (map some text)) _
      (memcpy_front (xmalloc 4096) (map some text) room)
      (ap (λ s. some (record conn { req = some (filled text) }, s))
        (if_true (is_http_end (items memory (filled text).buf)) _ _
          (ap is_http_end (items_filled memory text h) ∙ ends)))

-- a request without an error is accepted
accept_request-accepted :
    (w : World) (pfd : PollFd) (conn : Connection) (req : PendingRequest) (fields : Request)
    → fields.error ≡ none
    → accept_request w pfd conn req fields
      ≡ stay_in writing_headers pfd
          (record conn {
            req = some (record req { fields = fields });
            last_active = w.time_now;
            keep_alive = if wants_close fields.connection then false else conn.keep_alive;
          })
          []
unfolding accept_request
accept_request-accepted w pfd conn req fields e =
    if_false
      (not (is_none fields.error)
        && (is_null fields.method || is_null fields.path || is_null fields.host))
      _ _
      (ap
        (λ o.
          not (is_none o) && (is_null fields.method || is_null fields.path || is_null fields.host))
        e)

-- the request that is read from the message
abbrev pub read_of : Message → Request → PendingRequest
read_of m fields = record (filled (message_text m [])) { fields = fields }

-- the connection behind the step that receives a request
abbrev pub asked_for : World → Connection → PendingRequest → Connection
asked_for w conn req = record conn {
  req = some req;
  last_active = w.time_now;
  keep_alive = if wants_close req.fields.connection then false else conn.keep_alive;
}

-- A connection that waits for a request and receives a well-formed one whole, in at most 4096 bytes,
-- has the request in the same step, with its line's parts and the effects of its headers and without
-- an error: nothing is sent, the connection waits to write the response, and it is not kept where the
-- request has "Connection: close".
pub do_reading-message :
    (w : World) (pfd : PollFd) (conn : Connection) (m : Message)
    → pfd.revents.pollin ≡ true
    → conn.req ≡ none
    → IsMessage m
    → length (message_text m []) ≤ 4096
    → w.calls.recv 4096 ≡ received (message_text m [])
    → (beyond : Bytes) × (do_reading w pfd conn
        ≡ some (
            stay_in writing_headers pfd
              (asked_for w conn (read_of m (message_request m beyond)))
              []))
      × ((message_request m beyond).error ≡ none)
unfolding do_reading with_request read_request after_recv do_request init_buf
do_reading-message w pfd conn m comes no_req well_formed fits recvs =
    let text = message_text m [] in
    let conn₁ : Connection = record conn { req = some empty } in
    let beyond = fill w.sys.memory.byte (drop (filled text).buf.n_items (filled text).buf.cells) in
    let fields = message_request m beyond in
    let ends = (is_http_end_iff text).1 (inl (message_end m)) in
    let parsed : parse_http_request (items w.sys.memory (filled text).buf) beyond ≡ some fields =
      ap (λ t. parse_http_request t beyond) (items_filled w.sys.memory text fits)
      ∙ parse_http_request-message_text m beyond well_formed in
    let whole : fields.error ≡ none = effects-error m.headers _ beyond in
    let begun : with_request conn ≡ conn₁ =
      ap (λ o. elim o [ some req ↦ conn | none ↦ conn₁ ]) no_req in
    (
      beyond,
      if_true pfd.revents.pollin _ _ comes
          ∙ >>=-some (read_request w.sys.memory w.calls.recv (with_request conn)) _
              (ap (read_request w.sys.memory w.calls.recv) begun
                ∙ ap (after_recv w.sys.memory conn₁ empty) recvs
                ∙ read_bytes-text w.sys.memory conn₁ text fits ends)
              (>>=-some (parse_http_request (items w.sys.memory (filled text).buf) beyond) _ parsed
                (ap some (
                  accept_request-accepted w pfd (record conn { req = some (filled text) })
                    (filled text) fields whole))),
      whole,
    )
