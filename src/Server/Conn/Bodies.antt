-- ===== src/Server/Conn/Bodies.antt =====
-- A request that is served in one step, with a body behind the head.
use mathlib.Core.Path.{subst}
use mimino.Server.Conn.Writers.{write_any-Keeps}
use mimino.Base.{
  if_true, if_false, ℕ, ◌+◌, ◌^◌, ◌<◌, true, false, Bytes, none, some, ◌++◌, ◌≡◌, refl, ap, ◌∙◌,
  codes, str_eq, length, >>=-some,
}
use mimino.Buffer.Append.{Holds}
use mimino.Http.Response.{make_http_response}
use mimino.Server.Send.{sent}
use mimino.Server.Types.{
  Response, PollFd, PendingRequest, writing_body, writing_finished, Connection,
}
use mimino.Server.Pool.{no_events, only_pollout}
use mimino.Server.Transfer.{Calls, complete_write, Written, write_headers}
use mimino.Server.Conn.{
  World, After, do_finished, finish_in, headers_written, printed, with_response, do_headers,
  body_in, do_body, body_written, write_any,
}
use mimino.Server.Conn.Serves.{Served, write_headers_whole, with_response-made, do_finished-Served}

-- the calls of the step that are left behind the head's one
abbrev pub rest_of : Calls → Calls
rest_of calls = record calls { send = λ call. calls.send (1 + call) }

-- The step that answers another request: behind the head comes what the writer of the body sends.
pub do_headers-Served_body :
    (w : World) (pfd : PollFd) (conn : Connection) (req : PendingRequest) (method head body : Bytes)
    (res : Response)
    → pfd.revents.pollout ≡ true
    → conn.req ≡ some req
    → conn.res ≡ none
    → req.fields.method ≡ some method
    → str_eq method (codes "HEAD") ≡ false
    → make_http_response w.sys w.conf req.fields ≡ some res
    → printed w res ≡ some tt
    → res.head_nbytes_sent ≡ 0
    → Holds res.head head
    → 0 < length head
    → length head < 2 ^ 31
    → w.calls.send 0 ≡ sent (length head)
    → ((conn' : Connection) (n : ℕ)
        → conn'.res ≡ some (record res { head_nbytes_sent = n })
        → (t : Written) × (write_any w (rest_of w.calls) conn' ≡ some t)
          × (t.status ≡ complete_write)
          × (t.wire ≡ body))
    → (a : After) × (do_headers w pfd conn ≡ some a) × Served conn.keep_alive (head ++ body) a
unfolding do_headers headers_written body_in do_body body_written finish_in
do_headers-Served_body w pfd conn req method head body res out has_req no_res has_method other made
      shows start h more small takes writes =
    let conn₁ : Connection = record conn { res = some res; last_active = w.time_now } in
    let (n, written) =
      write_headers_whole w.sys.memory w.calls.send conn₁ res head refl start h more small takes in
    let conn₂ : Connection = record conn₁ {
      res = some (record res { head_nbytes_sent = n });
      state = writing_body;
    } in
    let (t, went, complete, sent_body) = writes conn₂ n refl in
    let alive = (write_any-Keeps w (rest_of w.calls) conn₂ t went).keep_alive in
    let a : After =
      do_finished w (record pfd { events = no_events }) (record t.conn { state = writing_finished })
        (head ++ t.wire) in
    (
      a,
      if_true pfd.revents.pollout _ _ out
          ∙ >>=-some (with_response w conn) _ {a = conn₁}
              (with_response-made w conn req res has_req no_res made shows)
              (>>=-some (write_headers w.sys.memory w.calls.send conn₁) _ written (
                >>=-some conn.req _ has_req (
                  >>=-some req.fields.method _ has_method (
                    if_false (str_eq method (codes "HEAD")) _ _ other
                    ∙ if_true pfd.revents.pollout _ _ out
                    ∙ >>=-some (write_any w (rest_of w.calls) conn₂) _ went (
                        ap
                          (λ s. some (
                            body_written w (record pfd { events = only_pollout }) head s t.conn
                              t.wire))
                          complete))))),
      subst (λ k. Served k (head ++ body) a) alive
          (subst (λ l. Served t.conn.keep_alive (head ++ l) a) sent_body
            (do_finished-Served w (record pfd { events = no_events })
              (record t.conn { state = writing_finished }) (head ++ t.wire))),
    )
