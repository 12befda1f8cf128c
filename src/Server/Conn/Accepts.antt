-- ===== src/Server/Conn/Accepts.antt =====
-- A request that was read: it is parsed, and the connection goes on to its response or closes.
use mimino.Base.{
  inl, inr, Bool, true, false, not, ◌&&◌, ◌||◌, Bytes, Option, none, some, ◌≡◌, refl, if◌then◌else◌,
  drop, >>=-some,
}
use mimino.Http.Html.{fill}
use mimino.Http.Request.{parse_http_request}
use mimino.Http.Request.Reader.{Request, ParseError}
use mimino.Http.Request.Total.{parse_http_request-total}
use mimino.Http.Request.Sound.{parse_http_request-Names}
use mimino.Http.Request.Sound.Opening.{Names}
use mimino.Server.Types.{PollFd, PendingRequest, reading, Connection}
use mimino.Server.Transfer.{items}
use mimino.Server.Conn.{World, After, is_null, is_none, accept_request, do_request}
use mimino.Server.Conn.Ready.{Settled}

Settled-if :
    (b : Bool) (x y : After) → Settled x → (b ≡ false → Settled y) → Settled (if b then x else y)
Settled-if true x y h k = h
Settled-if false x y h k = k refl

abbrev Named : Option Bytes → Option Bytes → Type 0
Named method path = (m : Bytes) × (p : Bytes) × (method ≡ some m) × (path ≡ some p)

-- past the test of the essential headers
essential_headers_given :
    (error : Option ParseError) (method path host : Option Bytes)
    → (error ≡ none → Named method path)
    → (not (is_none error) && (is_null method || is_null path || is_null host)) ≡ false
    → Named method path
essential_headers_given none method path host n h = n refl
essential_headers_given (some e) none path host n h = absurd cc
essential_headers_given (some e) (some m) none host n h = absurd cc
essential_headers_given (some e) (some m) (some p) host n h = (m, p, refl, refl)

module _ (w : World) (pfd : PollFd) where
  accept_request-Settled :
      (conn : Connection) (req : PendingRequest) (fields : Request)
      → conn.state ≡ reading
      → pfd.fd ≡ conn.fd
      → ((fields.error ≡ none) → Names fields)
      → Settled (accept_request w pfd conn req fields)
  unfolding accept_request
  accept_request-Settled conn req fields s f n =
      Settled-if
        (not (is_none fields.error)
          && (is_null fields.method || is_null fields.path || is_null fields.host))
        _ _ (inl refl)
        λ given.
          let (m, p, has_method, has_path) =
            essential_headers_given fields.error fields.method fields.path fields.host
              (λ e.
                let (m, p, v, has_method, has_path, has_version, handled) = n e in
                (m, p, has_method, has_path))
              given in
          inr (record { same = f; waits = refl; phase = (_, m, p, refl, has_method, has_path) })

  -- The parse of a request that was read comes to an end.
  pub do_request-Settled :
      (conn : Connection) (req : PendingRequest)
      → conn.state ≡ reading
      → pfd.fd ≡ conn.fd
      → conn.req ≡ some req
      → (a : After) × (do_request w pfd conn ≡ some a) × Settled a
  unfolding do_request
  do_request-Settled conn req s f e =
      let text = items w.sys.memory req.buf in
      let beyond = fill w.sys.memory.byte (drop req.buf.n_items req.buf.cells) in
      let (fields, parsed) = parse_http_request-total text beyond in
      (
        accept_request w pfd conn req fields,
        >>=-some conn.req _ e (>>=-some (parse_http_request text beyond) _ parsed refl),
        accept_request-Settled conn req fields s f
            (parse_http_request-Names text beyond fields parsed),
      )
