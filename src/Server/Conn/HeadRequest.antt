-- ===== src/Server/Conn/HeadRequest.antt =====
-- A HEAD request for a file, from the response that is made for it to the bytes on the socket.
use mimino.Base.{
  ◌^◌, ◌<◌, Bool, true, false, Bytes, ◌++◌, none, some, ◌≡◌, arith, if◌then◌else◌, codes, str_eq,
  length, length-append,
}
use mimino.Url.{decode_url}
use mimino.Dir.Path.{Resolved, cleanup_path, resolve_path, get_base_name}
use mimino.Dir.Files.{complete, read_file_info}
use mimino.Http.Response.{file_head, is_range_given}
use mimino.Http.Response.Heads.{file_head_text, range_from, range_to, make_http_response-file}
use mimino.Http.Writes.Texts.{room}
use mimino.Server.Send.{sent}
use mimino.Server.Types.{PollFd, PendingRequest, Connection, File}
use mimino.Server.Conn.{World, After, do_headers}
use mimino.Server.Conn.Serves.{Served, printed_quiet, do_headers-Served}

pub some_status :
    (ranged : Bool) (rest : Bytes)
    → 0
      < length (
          (if ranged
            then codes "HTTP/1.1 206\r\n"
            else codes "HTTP/1.1 200\r\nAccept-Ranges: bytes\r\n")
          ++ rest)
some_status true rest = omega (arith, length-append (codes "HTTP/1.1 206\r\n") rest)
some_status false rest =
    omega (arith, length-append (codes "HTTP/1.1 200\r\nAccept-Ranges: bytes\r\n") rest)

-- A connection whose HEAD request names a file is answered in one step, where its socket takes what
-- it is given: the bytes sent are the file's head and nothing else, and the connection then waits
-- for the next request, with neither a request nor a response, if it is kept, and is closed otherwise.
-- The server is not verbose, the response is not made yet, the path can be resolved to a file that can
-- be read and is no directory, and the head takes less than 2^31 bytes.
pub do_headers-head_request :
    (w : World) (pfd : PollFd) (conn : Connection) (req : PendingRequest) (method path : Bytes)
    (real : Resolved) (file : File)
    → w.conf.verbose ≡ false
    → pfd.revents.pollout ≡ true
    → conn.req ≡ some req
    → conn.res ≡ none
    → req.fields.method ≡ some method
    → str_eq method (codes "HEAD") ≡ true
    → req.fields.path ≡ some path
    → resolve_path w.conf.serve_path (decode_url (cleanup_path path)) ≡ some real
    → read_file_info w.sys.fs (get_base_name real.text) real.text ≡ (file, complete)
    → file.is_dir ≡ false
    → room (
        file_head w.sys
          (is_range_given req.fields.ranges)
          (range_from req.fields.ranges)
          (range_to req.fields.ranges file.size)
          file)
      < 2 ^ 31
    → length (
        file_head_text w.sys
          (is_range_given req.fields.ranges)
          (range_from req.fields.ranges)
          (range_to req.fields.ranges file.size)
          file)
      < 2 ^ 31
    → w.calls.send 0
      ≡ sent (
          length (
            file_head_text w.sys
              (is_range_given req.fields.ranges)
              (range_from req.fields.ranges)
              (range_to req.fields.ranges file.size)
              file))
    → (a : After) × (do_headers w pfd conn ≡ some a)
      × Served conn.keep_alive
          (file_head_text w.sys
            (is_range_given req.fields.ranges)
            (range_from req.fields.ranges)
            (range_to req.fields.ranges file.size)
            file)
          a
do_headers-head_request w pfd conn req method path real file quiet out has_req no_res has_method
      is_head has_path resolved info plain roomy small takes =
    let (res, made, holds, no_body, same_file, its_path, from, to, offset, start) =
      make_http_response-file w.sys w.conf req.fields method path real file has_method has_path
        resolved info plain (omega (arith, roomy)) in
    do_headers-Served w pfd conn req method
      (file_head_text w.sys (is_range_given req.fields.ranges) (range_from req.fields.ranges)
        (range_to req.fields.ranges file.size) file)
      res out has_req no_res has_method is_head made (printed_quiet w res quiet) start holds
      (some_status (is_range_given req.fields.ranges) _) small takes
