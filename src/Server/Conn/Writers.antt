-- ===== src/Server/Conn/Writers.antt =====
-- What the writers of a body keep of the connection.
use mathlib.Core.Path.{subst}
use mathlib.Core.Option.{some-injective}
use mimino.Base.{
  if_both, ℕ, zero, suc, ◌+◌, inl, inr, Bytes, [], ◌++◌, Option, none, some, ◌>>=◌, ◌≡◌, refl, ◌∙◌,
  ltb, ◌==◌, if◌then◌else◌, length, Bool-cases, >>=-eq-some,
}
use mimino.Buffer.{add_size}
use mimino.Http.Html.{Memory, or_memory}
use mimino.Server.Send.{SendResult, send_buf}
use mimino.Server.Types.{Response, Connection}
use mimino.Server.Transfer.{
  Calls, ReadResult, chunk, read_failed, Written, write_data, refused, write_body, file_sent,
  write_file_loop, write_opened, write_file, retry, broken, finished, sub_size,
}
use mimino.Server.Conn.{World, write_any}
use mimino.Server.Conn.Ready.{
  Keeps, KeepsAll, HasResponse, broken-Keeps, finished-Keeps, retry-Keeps, write_data-Keeps,
}

refused-Keeps : (conn : Connection) → HasResponse conn → Keeps conn (refused conn).conn
refused-Keeps conn r = record { fd = refl; state = refl; req = refl; keep_alive = refl; res = r }

-- one writer's result, with the property
KeepsAll-some : (conn : Connection) (w : Written) → Keeps conn w.conn → KeepsAll conn (some w)
KeepsAll-some conn w k r h = subst (λ q. Keeps conn q.conn) (some-injective w r h) k

file_sent-Keeps :
    (result : Option ℕ) (conn : Connection) (res : Response) (wire : Bytes) (calls : ℕ)
    (go_on : Connection → Response → Option Written)
    → ((conn' : Connection) (res' : Response) → Keeps conn conn' → KeepsAll conn (go_on conn' res'))
    → HasResponse conn
    → KeepsAll conn (file_sent result conn res wire calls go_on)
unfolding file_sent
file_sent-Keeps none conn res wire calls go_on k has =
    KeepsAll-some conn (broken conn res wire calls) (broken-Keeps conn res wire calls)
file_sent-Keeps (some n) conn res wire calls go_on k has =
    let res' : Response = record res {
      file_offset = add_size res.file_offset n;
      file_nbytes_sent = add_size res.file_nbytes_sent n;
    } in
    elim (Bool-cases (n == 0)) [
      | inl e ↦
          rw e (KeepsAll-some conn (retry conn res' wire calls) (retry-Keeps conn res' wire calls))
      | inr e ↦ rw e (
          k (record conn { write_tries_left = 5 }) res'
            (record { fd = refl; state = refl; req = refl; keep_alive = refl; res = has }))
    ]

Keeps-trans : {a b c : Connection} → Keeps a b → Keeps b c → Keeps a c
Keeps-trans k l = record {
  fd = l.fd ∙ k.fd;
  state = l.state ∙ k.state;
  req = l.req ∙ k.req;
  keep_alive = l.keep_alive ∙ k.keep_alive;
  res = l.res;
}

write_file_loop-Keeps :
    (rounds : ℕ) (send : ℕ → SendResult) (read : ℕ → ReadResult) (at : ℕ) (conn : Connection)
    (res : Response) (wire : Bytes) (calls : ℕ)
    → HasResponse conn
    → KeepsAll conn (write_file_loop rounds send read at conn res wire calls)
unfolding write_file_loop
write_file_loop-Keeps zero send read at conn res wire calls has = λ r h. absurd cc
write_file_loop-Keeps (suc rounds) send read at conn res wire calls has =
    elim (read at)
      as (λ c. KeepsAll conn (elim c [
        | read_failed ↦ some (broken conn res wire calls)
        | chunk bytes ↦
            if length bytes == 0
            then some (finished conn res wire calls)
            else (send_buf (λ call. send (calls + call)) bytes (length bytes) >>= λ s.
                file_sent s.result conn res (wire ++ s.wire) (calls + s.calls) (λ conn' res'.
                  write_file_loop rounds send read (at + length bytes) conn' res' (wire ++ s.wire)
                    (calls + s.calls)))
      ])) [
        | read_failed ↦
            KeepsAll-some conn (broken conn res wire calls) (broken-Keeps conn res wire calls)
        | chunk bytes ↦ elim (Bool-cases (length bytes == 0)) [
          | inl e ↦ rw e (
              KeepsAll-some conn (finished conn res wire calls)
                (finished-Keeps conn res wire calls))
          | inr e ↦ rw e (λ r h.
              let (s, _, h₁) =
                >>=-eq-some (send_buf (λ call. send (calls + call)) bytes (length bytes)) _ h in
              file_sent-Keeps s.result conn res (wire ++ s.wire) (calls + s.calls)
                (λ conn' res'.
                  write_file_loop rounds send read (at + length bytes) conn' res' (wire ++ s.wire)
                    (calls + s.calls))
                (λ conn' res' k r' h'. Keeps-trans k (
                  write_file_loop-Keeps rounds send read (at + length bytes) conn' res'
                    (wire ++ s.wire) (calls + s.calls) k.res r' h'))
                has r h₁)
        ]
      ]

write_opened-Keeps :
    (memory : Memory) (calls : Calls) (conn : Connection) (res : Response) (path : Bytes)
    → HasResponse conn
    → KeepsAll conn (write_opened memory calls conn res path)
unfolding write_opened
write_opened-Keeps memory calls conn res path has =
    let nbytes_left = sub_size (or_memory memory.number res.range_end) res.file_offset in
    let loop =
      write_file_loop-Keeps calls.rounds calls.send
        (λ at. calls.fread path at (if ltb 4096 nbytes_left then 4096 else nbytes_left))
        res.file_offset conn res [] 0 has in
    if_both (KeepsAll conn) (res.file_offset == 0) _ _ loop (
      if_both (KeepsAll conn) (calls.fseeko path res.file_offset) _ _ loop
        (KeepsAll-some conn (refused conn) (refused-Keeps conn has)))

write_file-Keeps :
    (memory : Memory) (calls : Calls) (conn : Connection)
    → KeepsAll conn (write_file memory calls conn)
unfolding write_file
write_file-Keeps memory calls conn r h =
    let (res, e, h₁) = >>=-eq-some conn.res _ h in
    let (path, e₁, h₂) = >>=-eq-some res.file_path _ h₁ in
    let none_sent = KeepsAll-some conn (refused conn) (refused-Keeps conn (res, e)) in
    if_both (KeepsAll conn) res.file.is_null _ _ none_sent
      (if_both (KeepsAll conn) (calls.fopen path) _ _
        (write_opened-Keeps memory calls conn res path (res, e)) none_sent)
      r h₂

write_body-Keeps :
    (memory : Memory) (send : ℕ → SendResult) (conn : Connection)
    → KeepsAll conn (write_body memory send conn)
unfolding write_body
write_body-Keeps memory send conn r h =
    let (res, e, h₁) = >>=-eq-some conn.res _ h in
    elim res.body
        as (λ b.
          (elim b [ none ↦ some (refused conn) | some body ↦ write_data memory send conn res body ])
            ≡ some r
          → Keeps conn r.conn) [
            | none ↦ KeepsAll-some conn (refused conn) (refused-Keeps conn (res, e)) r
            | some body ↦ write_data-Keeps memory send conn res body r
          ]
      h₁

pub write_any-Keeps :
    (w : World) (calls : Calls) (conn : Connection) → KeepsAll conn (write_any w calls conn)
unfolding write_any
write_any-Keeps w calls conn r h =
    let (res, e, h₁) = >>=-eq-some conn.res _ h in
    elim res.body
        as (λ b.
          (elim b [
            | some body ↦ write_body w.sys.memory calls.send conn
            | none ↦ write_file w.sys.memory calls conn
          ])
            ≡ some r
          → Keeps conn r.conn) [
            | some body ↦ write_body-Keeps w.sys.memory calls.send conn r
            | none ↦ write_file-Keeps w.sys.memory calls conn r
          ]
      h₁
