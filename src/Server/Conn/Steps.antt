-- ===== src/Server/Conn/Steps.antt =====
-- A step of the state machine leaves a connection that is ready for the next, or closes it.
use mathlib.Core.Path.{subst}
use mathlib.Core.Option.{some-injective}
use mimino.Base.{
  if_both, ℕ, ◌+◌, inl, inr, Bytes, [], ◌++◌, Option, none, some, ◌>>=◌, ◌≡◌, refl, sym, ap, ◌∙◌,
  if◌then◌else◌, codes, str_eq, Bool-cases, >>=-eq-some,
}
use mimino.Server.Types.{PollFd, writing_headers, writing_body, writing_finished, Connection}
use mimino.Server.Pool.{state_events}
use mimino.Server.Transfer.{
  Calls, WriteStatus, max_tries, fatal_write, partial_write, complete_write, Written, write_headers,
}
use mimino.Server.Conn.{
  World, After, stay, close_in, do_finished, finish_in, body_written, write_any, do_body, body_in,
  headers_written, with_response, printed, do_headers,
}
use mimino.Http.Response.{make_http_response}
use mimino.Server.Conn.Ready.{
  HasRequest, HasResponse, Settled, in_state-Ready, Keeps, write_headers-Keeps,
}
use mimino.Server.Conn.Writers.{write_any-Keeps}

HasRequest-Keeps : {conn conn' : Connection} → Keeps conn conn' → HasRequest conn → HasRequest conn'
HasRequest-Keeps k (req, method, path, e, m, p) = (req, method, path, k.req ∙ e, m, p)

do_finished-Settled :
    (w : World) (pfd : PollFd) (conn : Connection) (wire : Bytes)
    → pfd.fd ≡ conn.fd
    → Settled (do_finished w pfd conn wire)
unfolding do_finished
do_finished-Settled w pfd conn wire f = elim (Bool-cases conn.keep_alive) [
  | inl e ↦ rw e (inr (record { same = f; waits = refl; phase = tt }))
  | inr e ↦ rw e (inl refl)
]

-- what a step leaves, where it leaves anything
abbrev pub SettledAll : Option After → Type 0
SettledAll o = (a : After) → o ≡ some a → Settled a

pub SettledAll-some : (a : After) → Settled a → SettledAll (some a)
SettledAll-some a k b h = subst Settled (some-injective a b h) k

module _ (w : World) (pfd : PollFd) where
  body_written-Settled :
      (status : WriteStatus) (conn : Connection) (wire sent : Bytes)
      → conn.state ≡ writing_body
      → pfd.fd ≡ conn.fd
      → pfd.events ≡ state_events writing_body
      → HasRequest conn
      → HasResponse conn
      → Settled (body_written w pfd wire status conn sent)
  unfolding body_written
  body_written-Settled partial_write conn wire sent s f v q r =
      inr (in_state-Ready writing_body s f v (q, r))
  body_written-Settled max_tries conn wire sent s f v q r = inl refl
  body_written-Settled fatal_write conn wire sent s f v q r = inl refl
  body_written-Settled complete_write conn wire sent s f v q r =
      do_finished-Settled w (record pfd { events = state_events writing_finished })
        (record conn { state = writing_finished }) (wire ++ sent) f

  pub do_body-Settled :
      (conn : Connection) (wire : Bytes) (skip : ℕ)
      → conn.state ≡ writing_body
      → pfd.fd ≡ conn.fd
      → pfd.events ≡ state_events writing_body
      → HasRequest conn
      → HasResponse conn
      → SettledAll (do_body w pfd conn wire skip)
  unfolding do_body
  do_body-Settled conn wire skip s f v q r =
      let calls : Calls = record w.calls { send = λ call. w.calls.send (skip + call) } in
      if_both SettledAll pfd.revents.pollout _ _
        (λ a h.
          let (t, g, h₁) = >>=-eq-some (write_any w calls conn) _ h in
          let k = write_any-Keeps w calls conn t g in
          subst Settled (some-injective _ a h₁) (
            body_written-Settled t.status t.conn wire t.wire (k.state ∙ s) (f ∙ sym k.fd) v
              (HasRequest-Keeps k q) k.res))
        (SettledAll-some (stay pfd conn wire) (inr (in_state-Ready writing_body s f v (q, r))))

module _ (w : World) (pfd : PollFd) where
  finish_in-Settled :
      (conn : Connection) (wire : Bytes) → pfd.fd ≡ conn.fd → Settled (finish_in w pfd conn wire)
  unfolding finish_in
  finish_in-Settled conn wire f =
      do_finished-Settled w (record pfd { events = state_events writing_finished })
        (record conn { state = writing_finished }) wire f

  headers_written-Settled :
      (r : Written)
      → r.conn.state ≡ writing_headers
      → pfd.fd ≡ r.conn.fd
      → pfd.events ≡ state_events writing_headers
      → HasRequest r.conn
      → HasResponse r.conn
      → SettledAll (headers_written w pfd r)
  unfolding headers_written body_in
  headers_written-Settled r s f v q has =
      elim r.status
        as (λ st. SettledAll (elim st [
          | partial_write ↦ some (stay pfd (record r.conn { last_active = w.time_now }) r.wire)
          | max_tries ↦ some (close_in pfd r.conn r.wire)
          | fatal_write ↦ some (close_in pfd r.conn r.wire)
          | complete_write ↦ r.conn.req >>= λ req. req.fields.method >>= λ method.
              if str_eq method (codes "HEAD")
              then some (finish_in w pfd r.conn r.wire)
              else body_in w pfd r.conn r.wire r.calls
        ])) [
          | partial_write ↦
              SettledAll-some (stay pfd (record r.conn { last_active = w.time_now }) r.wire)
                (inr (in_state-Ready writing_headers s f v q))
          | max_tries ↦ SettledAll-some (close_in pfd r.conn r.wire) (inl refl)
          | fatal_write ↦ SettledAll-some (close_in pfd r.conn r.wire) (inl refl)
          | complete_write ↦ λ a h.
              let (req, _, h₁) = >>=-eq-some r.conn.req _ h in
              let (method, _, h₂) = >>=-eq-some req.fields.method _ h₁ in
              if_both SettledAll (str_eq method (codes "HEAD")) _ _
                (SettledAll-some _ (finish_in-Settled r.conn r.wire f))
                (do_body-Settled w (record pfd { events = state_events writing_body })
                  (record r.conn { state = writing_body }) r.wire r.calls refl f refl q has)
                a h₂
        ]

  with_response-same :
      (conn conn' : Connection)
      → with_response w conn ≡ some conn'
      → (conn'.fd ≡ conn.fd) × (conn'.state ≡ conn.state) × (conn'.req ≡ conn.req)
  unfolding with_response
  with_response-same conn conn' h =
      elim conn.res
          as (λ o.
            (elim o [
              | some res ↦ some conn
              | none ↦ conn.req >>= λ req. make_http_response w.sys w.conf req.fields >>= λ res.
                  printed w res >>= λ _.
                  some (record conn { res = some res; last_active = w.time_now })
            ])
              ≡ some conn'
            → (conn'.fd ≡ conn.fd) × (conn'.state ≡ conn.state) × (conn'.req ≡ conn.req)) [
              | some res ↦ λ k.
                  let e = some-injective conn conn' k in
                  (ap (λ c. c.fd) (sym e), ap (λ c. c.state) (sym e), ap (λ c. c.req) (sym e))
              | none ↦ λ k.
                  let (req, _, k₁) = >>=-eq-some conn.req _ k in
                  let (res, _, k₂) =
                    >>=-eq-some (make_http_response w.sys w.conf req.fields) _ k₁ in
                  let (_, _, k₃) = >>=-eq-some (printed w res) _ k₂ in
                  let e = some-injective _ conn' k₃ in
                  (ap (λ c. c.fd) (sym e), ap (λ c. c.state) (sym e), ap (λ c. c.req) (sym e))
            ]
        h

  pub do_headers-Settled :
      (conn : Connection)
      → conn.state ≡ writing_headers
      → pfd.fd ≡ conn.fd
      → pfd.events ≡ state_events writing_headers
      → HasRequest conn
      → SettledAll (do_headers w pfd conn)
  unfolding do_headers
  do_headers-Settled conn s f v (req, method, path, e, m, p) =
      if_both SettledAll pfd.revents.pollout _ _
        (λ a h.
          let (conn', g, h₁) = >>=-eq-some (with_response w conn) _ h in
          let (r, g₁, h₂) = >>=-eq-some (write_headers w.sys.memory w.calls.send conn') _ h₁ in
          let (same_fd, same_state, same_req) = with_response-same conn conn' g in
          let k = write_headers-Keeps w.sys.memory w.calls.send conn' r g₁ in
          headers_written-Settled r (k.state ∙ same_state ∙ s) (f ∙ sym same_fd ∙ sym k.fd) v
            (HasRequest-Keeps k (req, method, path, same_req ∙ e, m, p)) k.res a h₂)
        (SettledAll-some (stay pfd conn [])
          (inr (in_state-Ready writing_headers s f v (req, method, path, e, m, p))))
