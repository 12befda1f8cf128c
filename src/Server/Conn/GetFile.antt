-- ===== src/Server/Conn/GetFile.antt =====
-- A request for a file, from the response that is made for it to the file on the socket.
use mimino.Base.{
  ℕ, ◌+◌, ◌-◌, ◌*◌, ◌^◌, ◌<◌, true, false, Bytes, List, ◌++◌, none, some, ◌≡◌, sym, ap, ◌∙◌, arith,
  if◌then◌else◌, codes, str_eq, length, ltb, drop, >>=-some,
}
use mimino.Url.{decode_url}
use mimino.Dir.Path.{Resolved, cleanup_path, resolve_path, get_base_name}
use mimino.Dir.Files.{complete, read_file_info}
use mimino.Dir.Files.Listed.{read_file_info-complete}
use mimino.Http.Response.{file_head, is_range_given}
use mimino.Http.Response.Heads.{file_head_text, range_from, range_to, make_http_response-file}
use mimino.Http.Writes.{Write}
use mimino.Http.Writes.Texts.{room}
use mimino.Server.Send.{sent}
use mimino.Server.Types.{PollFd, PendingRequest, Connection, File}
use mimino.Server.Transfer.{chunk, sub_size, write_file, write_body}
use mimino.Server.Transfer.Rest.{part, write_file-rest}
use mimino.Server.Conn.{World, After, do_headers, write_any}
use mimino.Server.Conn.Serves.{Served, printed_quiet}
use mimino.Server.Conn.HeadRequest.{some_status}
use mimino.Server.Conn.Bodies.{rest_of, do_headers-Served_body}

-- the ends of the range of a request for a file
abbrev pub start_of : PendingRequest → ℕ
start_of req = range_from req.fields.ranges

abbrev pub end_of : PendingRequest → File → ℕ
end_of req file = range_to req.fields.ranges file.size

-- the head of the response
abbrev pub head_writes : World → PendingRequest → File → List Write
head_writes w req file =
    file_head w.sys (is_range_given req.fields.ranges) (start_of req) (end_of req file) file

abbrev pub head_text : World → PendingRequest → File → Bytes
head_text w req file =
    file_head_text w.sys (is_range_given req.fields.ranges) (start_of req) (end_of req file) file

-- what a read of the file asks for
abbrev pub read_size : PendingRequest → File → ℕ
read_size req file =
    if ltb 4096 (sub_size (end_of req file) (start_of req))
    then 4096
    else sub_size (end_of req file) (start_of req)

-- A connection whose request names a file, and is not HEAD, is answered in one step, where its
-- socket takes what it is given: the bytes sent are the file's head and then the file from the first
-- end of the range to its own end, and the connection then waits for the next request if it is kept,
-- and is closed otherwise. The server is not verbose, the response is not made yet, the path can be resolved to a file that can
-- be read and is no directory, the range ends behind its start, there are more rounds than bytes to
-- be sent, and the head takes less than 2^31 bytes.
pub do_headers-get_file :
    (w : World) (pfd : PollFd) (conn : Connection) (req : PendingRequest)
    (method path content : Bytes) (real : Resolved) (file : File)
    → w.conf.verbose ≡ false
    → pfd.revents.pollout ≡ true
    → conn.req ≡ some req
    → conn.res ≡ none
    → req.fields.method ≡ some method
    → str_eq method (codes "HEAD") ≡ false
    → req.fields.path ≡ some path
    → resolve_path w.conf.serve_path (decode_url (cleanup_path path)) ≡ some real
    → read_file_info w.sys.fs (get_base_name real.text) real.text ≡ (file, complete)
    → file.is_dir ≡ false
    → room (head_writes w req file) < 2 ^ 31
    → length (head_text w req file) < 2 ^ 31
    → w.calls.send 0 ≡ sent (length (head_text w req file))
    → w.calls.fopen real.text ≡ true
    → w.calls.fseeko real.text (start_of req) ≡ true
    → 0 < read_size req file
    → ((at : ℕ)
        → w.calls.fread real.text at (read_size req file)
          ≡ chunk (part content (read_size req file) at))
    → length content - start_of req < w.calls.rounds
    → ((j : ℕ)
        → w.calls.send (1 + j)
          ≡ sent
              (length (part content (read_size req file) (start_of req + j * read_size req file))))
    → (a : After) × (do_headers w pfd conn ≡ some a)
      × Served conn.keep_alive (head_text w req file ++ drop (start_of req) content) a
unfolding write_any
do_headers-get_file w pfd conn req method path content real file quiet out has_req no_res has_method
      other has_path resolved info plain roomy small takes opens seeks more reads enough takes_all =
    let (res, made, holds, no_body, same_file, its_path, from, to, offset, start) =
      make_http_response-file w.sys w.conf req.fields method path real file has_method has_path
        resolved info plain (omega (arith, roomy)) in
    let real_file : res.file.is_null ≡ false =
      ap (λ f. f.is_null) (same_file ∙ sym (ap (λ p. p.0) info))
      ∙ (read_file_info-complete w.sys.fs (get_base_name real.text) real.text
          (ap (λ p. p.1) info)).1 in
    do_headers-Served_body w pfd conn req method (head_text w req file)
      (drop (start_of req) content) res out has_req no_res has_method other made
      (printed_quiet w res quiet) start holds (some_status (is_range_given req.fields.ranges) _)
      small takes
      (λ conn' n has.
        let (t, went, done, wire) =
          write_file-rest w.sys.memory (rest_of w.calls) conn' (record res { head_nbytes_sent = n })
            real.text content (end_of req file) (read_size req file) has its_path real_file opens
            (ap (w.calls.fseeko real.text) offset ∙ seeks) to
            (ap
              (λ s.
                if ltb 4096 (sub_size (end_of req file) s)
                then 4096
                else sub_size (end_of req file) s)
              offset)
            more reads (omega (arith, offset, enough))
            (λ j.
              takes_all j
              ∙ ap
                  (λ s.
                    sent (length (part content (read_size req file) (s + j * read_size req file))))
                  (sym offset)) in
        (
          t,
          >>=-some conn'.res _ has (
              ap
                (λ b. elim b [
                  | some body ↦ write_body w.sys.memory (rest_of w.calls).send conn'
                  | none ↦ write_file w.sys.memory (rest_of w.calls) conn'
                ])
                no_body
              ∙ went),
          done,
          wire ∙ ap (λ s. drop s content) offset,
        ))
