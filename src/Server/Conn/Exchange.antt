-- ===== src/Server/Conn/Exchange.antt =====
-- A request and its answer, from the bytes that are received to those that are sent.
use mimino.Base.{
  ℕ, ◌+◌, ◌-◌, ◌*◌, ◌^◌, ◌<◌, ◌≤◌, true, false, Bytes, [], ◌++◌, none, some, ◌≡◌, refl, ap, ◌∙◌,
  codes, str_eq, length, drop,
}
use mimino.Url.{decode_url}
use mimino.Dir.Path.{Resolved, cleanup_path, resolve_path, get_base_name}
use mimino.Dir.Files.{complete, read_file_info}
use mimino.Http.Request.Reader.{Request}
use mimino.Http.Request.RoundTrip.Request.{Message, IsMessage, message_text, message_request}
use mimino.Http.Writes.Texts.{room}
use mimino.Server.Send.{sent}
use mimino.Server.Types.{PollFd, writing_headers, Connection, File}
use mimino.Server.Pool.{set_conn_state}
use mimino.Server.Transfer.{chunk, received}
use mimino.Server.Transfer.Rest.{part}
use mimino.Server.Conn.{World, After, stay_in, do_reading, do_headers}
use mimino.Server.Conn.Serves.{Served}
use mimino.Server.Conn.Receives.{read_of, asked_for, do_reading-message}
use mimino.Server.Conn.GetFile.{head_writes, head_text, start_of, read_size, do_headers-get_file}

-- the connection behind the step that reads it
abbrev pub reader : World → PollFd → Connection → Message → Request → After
reader w pfd conn m fields = stay_in writing_headers pfd (asked_for w conn (read_of m fields)) []

-- A connection that waits for a request receives a well-formed one in a step, and in a later step sends
-- the head of the file that the request names and then the file, from the first end of the range to
-- its own end; nothing is sent in the first step, and behind the second the connection waits for the
-- next request, with neither a request nor a response, or is closed where it is not kept. The request
-- comes whole, in at most 4096 bytes, and is not HEAD; `fields` are its parts. The path can be resolved
-- to a file that can be read and is no directory, the range ends behind its start, so that the file
-- has more than one byte where no range is given, there are more rounds than bytes to be sent, the head
-- takes less than 2^31 bytes, each call of `send` takes what it is given, and the server is not verbose
-- in the second step.
pub get_file_exchange :
    (w w' : World) (pfd pfd' : PollFd) (conn : Connection) (m : Message) (fields : Request)
    (content : Bytes) (real : Resolved) (file : File)
    → pfd.revents.pollin ≡ true
    → conn.req ≡ none
    → conn.res ≡ none
    → IsMessage m
    → length (message_text m []) ≤ 4096
    → w.calls.recv 4096 ≡ received (message_text m [])
    → ((beyond : Bytes) → message_request m beyond ≡ fields)
    → fields.method ≡ some m.method
    → fields.path ≡ some m.path
    → w'.conf.verbose ≡ false
    → pfd'.revents.pollout ≡ true
    → str_eq m.method (codes "HEAD") ≡ false
    → resolve_path w'.conf.serve_path (decode_url (cleanup_path m.path)) ≡ some real
    → read_file_info w'.sys.fs (get_base_name real.text) real.text ≡ (file, complete)
    → file.is_dir ≡ false
    → room (head_writes w' (read_of m fields) file) < 2 ^ 31
    → length (head_text w' (read_of m fields) file) < 2 ^ 31
    → w'.calls.send 0 ≡ sent (length (head_text w' (read_of m fields) file))
    → w'.calls.fopen real.text ≡ true
    → w'.calls.fseeko real.text (start_of (read_of m fields)) ≡ true
    → 0 < read_size (read_of m fields) file
    → ((at : ℕ)
        → w'.calls.fread real.text at (read_size (read_of m fields) file)
          ≡ chunk (part content (read_size (read_of m fields) file) at))
    → length content - start_of (read_of m fields) < w'.calls.rounds
    → ((j : ℕ)
        → w'.calls.send (1 + j)
          ≡ sent (
              length (
                part content
                  (read_size (read_of m fields) file)
                  (start_of (read_of m fields) + j * read_size (read_of m fields) file))))
    → (do_reading w pfd conn ≡ some (reader w pfd conn m fields))
      × (a : After) × (do_headers w' pfd' (reader w pfd conn m fields).conn ≡ some a)
      × Served
          (reader w pfd conn m fields).conn.keep_alive
          (head_text w' (read_of m fields) file ++ drop (start_of (read_of m fields)) content)
          a
unfolding set_conn_state
get_file_exchange w w' pfd pfd' conn m fields content real file comes no_req no_res well_formed fits
      recvs parts has_method has_path quiet out other resolved info plain roomy small takes opens
      seeks more reads enough takes_all =
    let (beyond, reading, _) =
      do_reading-message w pfd conn m comes no_req well_formed fits recvs in
    let (a, sends, served) =
      do_headers-get_file w' pfd' (reader w pfd conn m fields).conn (read_of m fields) m.method
        m.path content real file quiet out refl no_res has_method other has_path resolved info plain
        roomy small takes opens seeks more reads enough takes_all in
    (
      reading
          ∙ ap (λ f. some (stay_in writing_headers pfd (asked_for w conn (read_of m f)) []))
              (parts beyond),
      a,
      sends,
      served,
    )
