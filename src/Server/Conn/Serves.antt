-- ===== src/Server/Conn/Serves.antt =====
-- A request that is served in one step.
use mimino.Base.{
  if_true, if_false, if_both, ℕ, ◌^◌, ◌<◌, ◌≤◌, Bool, true, false, not, Bytes, Option, none, some,
  ◌>>=◌, ◌≡◌, refl, ap, ◌∙◌, arith, ltb, if◌then◌else◌, codes, str_eq, length, take, drop, >>=-some,
}
use mimino.Buffer.{Buffer, add_size}
use mimino.Buffer.Append.{Holds, length-Holds}
use mimino.Http.Html.{Memory}
use mimino.Http.Response.{make_http_response, print_items, print_http_response}
use mimino.Server.Send.{SendResult, sent}
use mimino.Server.Transfer.Cells.{send_cells_whole}
use mimino.Server.Types.{
  Response, PollFd, PendingRequest, reading, writing_finished, closing, Connection,
}
use mimino.Server.Pool.{no_events, state_events}
use mimino.Server.Transfer.{finished, sub_size, send_cells, headers_sent, write_headers}
use mimino.Server.Conn.{
  World, After, do_finished, finish_in, headers_written, printed, with_response, do_headers,
}

-- The whole head, put on a socket that takes it.
pub write_headers_whole :
    (memory : Memory) (send : ℕ → SendResult) (conn : Connection) (res : Response) (head : Bytes)
    → conn.res ≡ some res
    → res.head_nbytes_sent ≡ 0
    → Holds res.head head
    → 0 < length head
    → length head < 2 ^ 31
    → send 0 ≡ sent (length head)
    → (n : ℕ) × (write_headers memory send conn
        ≡ some (finished conn (record res { head_nbytes_sent = n }) head 1))
unfolding write_headers headers_sent
write_headers_whole memory send conn res head has start h more small e =
    let whole : res.head.n_items ≡ length head = length-Holds head h in
    let len = sub_size res.head.n_items res.head_nbytes_sent in
    let as_long : len ≡ res.head.n_items = omega (arith, whole, small, start) in
    (
      add_size res.head_nbytes_sent len,
      >>=-some conn.res _ has (
          >>=-some (send_cells memory send res.head.cells res.head_nbytes_sent len) _
            (send_cells_whole memory send res.head.cells res.head_nbytes_sent len head
              (omega (arith, as_long, h.fits, h.alloc, start))
              (ap (λ n. take len (drop n res.head.cells)) start
                ∙ ap (λ n. take n res.head.cells) as_long
                ∙ h.items)
              (omega (arith, as_long, whole, more)) (omega (arith, as_long, whole, small))
              (e ∙ ap sent (omega (arith, as_long, whole))))
            (ap some (
              if_false (ltb (add_size res.head_nbytes_sent len) res.head.n_items) _ _
                (not_less _ _ (omega (arith, as_long, whole, small, start)))))),
    )
  where
    not_less : (a b : ℕ) → a ≡ b → ltb a b ≡ false
    not_less a b g = ground arith

-- A connection that is kept has neither a request nor a response, and all its tries.
abbrev pub Fresh : Bool → Connection → Type 0
Fresh false conn = Unit {0}
Fresh true conn =
    (conn.req ≡ none)
    × (conn.res ≡ none)
    × (conn.read_tries_left ≡ 5)
    × (conn.write_tries_left ≡ 5)
    × (conn.keep_alive ≡ true)

-- What is left where a response is sent and `keep` says whether the connection is kept: it waits for
-- the next request, without one and without a response, or is closed.
pub record Served (keep : Bool) (wire : Bytes) (a : After) : Type 0 where
  pub sent_bytes : a.wire ≡ wire
  pub closes : a.closes ≡ not keep
  pub state : a.conn.state ≡ (if keep then reading else closing)
  pub waits : a.pfd.events ≡ state_events a.conn.state
  pub fresh : Fresh keep a.conn

Served-if :
    (keep : Bool) (x y : After) {wire : Bytes}
    → Served true wire x
    → Served false wire y
    → Served keep wire (if keep then x else y)
Served-if true x y h k = h
Served-if false x y h k = k

pub do_finished-Served :
    (w : World) (pfd : PollFd) (conn : Connection) (wire : Bytes)
    → Served conn.keep_alive wire (do_finished w pfd conn wire)
unfolding do_finished
do_finished-Served w pfd conn wire =
    Served-if conn.keep_alive _ _
      (record {
        sent_bytes = refl;
        closes = refl;
        state = refl;
        waits = refl;
        fresh = (refl, refl, refl, refl, refl);
      })
      (record { sent_bytes = refl; closes = refl; state = refl; waits = refl; fresh = tt })

pub with_response-made :
    (w : World) (conn : Connection) (req : PendingRequest) (res : Response)
    → conn.req ≡ some req
    → conn.res ≡ none
    → make_http_response w.sys w.conf req.fields ≡ some res
    → printed w res ≡ some tt
    → with_response w conn ≡ some (record conn { res = some res; last_active = w.time_now })
unfolding with_response
with_response-made w conn req res has_req no_res made shows = by_res conn.res no_res
  where
    made_one : Option Connection
    made_one = conn.req >>= λ q. make_http_response w.sys w.conf q.fields >>= λ res'.
        printed w res' >>= λ _. some (record conn { res = some res'; last_active = w.time_now })

    by_res :
        (o : Option Response)
        → o ≡ none
        → (elim o [ some r ↦ some conn | none ↦ made_one ])
          ≡ some (record conn { res = some res; last_active = w.time_now })
    by_res (some r) e = absurd cc
    by_res none e = >>=-some conn.req _ has_req (
        >>=-some (make_http_response w.sys w.conf req.fields) _ made
          (>>=-some (printed w res) _ shows refl))

pub printed_quiet : (w : World) (res : Response) → w.conf.verbose ≡ false → printed w res ≡ some tt
unfolding printed
printed_quiet w res quiet = if_false w.conf.verbose _ _ quiet

print_items-inside : (n_items held : ℕ) → n_items ≤ held → print_items n_items held ≡ some tt
unfolding print_items
print_items-inside n_items held h = ground arith

-- A body in memory is printed inside its allocation.
pub printed_body :
    (w : World) (res : Response) (body : Buffer) (text : Bytes)
    → res.body ≡ some body
    → Holds body text
    → printed w res ≡ some tt
unfolding printed print_http_response
printed_body w res body text has h =
    let shown : print_http_response w.sys.memory res ≡ some tt =
      ap
        (λ o. elim o [
          | none ↦ print_items w.sys.memory.number 0
          | some b ↦ print_items b.n_items (length b.cells)
        ])
        has
      ∙ print_items-inside body.n_items (length body.cells) (omega (arith, h.fits, h.alloc)) in
    if_both (λ o. o ≡ some tt) w.conf.verbose _ _ shown refl

-- The step that answers a HEAD request.
pub do_headers-Served :
    (w : World) (pfd : PollFd) (conn : Connection) (req : PendingRequest) (method head : Bytes)
    (res : Response)
    → pfd.revents.pollout ≡ true
    → conn.req ≡ some req
    → conn.res ≡ none
    → req.fields.method ≡ some method
    → str_eq method (codes "HEAD") ≡ true
    → make_http_response w.sys w.conf req.fields ≡ some res
    → printed w res ≡ some tt
    → res.head_nbytes_sent ≡ 0
    → Holds res.head head
    → 0 < length head
    → length head < 2 ^ 31
    → w.calls.send 0 ≡ sent (length head)
    → (a : After) × (do_headers w pfd conn ≡ some a) × Served conn.keep_alive head a
unfolding do_headers headers_written finish_in
do_headers-Served w pfd conn req method head res out has_req no_res has_method is_head made shows
      start h more small takes =
    let conn' : Connection = record conn { res = some res; last_active = w.time_now } in
    let (n, written) =
      write_headers_whole w.sys.memory w.calls.send conn' res head refl start h more small takes in
    (
      _,
      if_true pfd.revents.pollout _ _ out
          ∙ >>=-some (with_response w conn) _ {a = conn'}
              (with_response-made w conn req res has_req no_res made shows)
              (>>=-some (write_headers w.sys.memory w.calls.send conn') _ written (
                >>=-some conn.req _ has_req (
                  >>=-some req.fields.method _ has_method
                    (if_true (str_eq method (codes "HEAD")) _ _ is_head)))),
      do_finished-Served w (record pfd { events = no_events })
          (record conn' {
            res = some (record res { head_nbytes_sent = n });
            state = writing_finished;
          })
          head,
    )
