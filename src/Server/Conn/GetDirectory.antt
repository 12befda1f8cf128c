-- ===== src/Server/Conn/GetDirectory.antt =====
-- A request for a directory, from the listing that is made of it to the bytes on the socket.
use mimino.Base.{
  ℕ, ◌+◌, ◌-◌, ◌^◌, ◌<◌, true, false, Bytes, ◌++◌, none, some, ◌≡◌, ap, ◌∙◌, arith, codes, str_eq,
  length, get_elem?, take, drop, if_false, length-append, take_all, >>=-some,
}
use mimino.Url.{decode_url}
use mimino.Dir.Path.{Resolved, cleanup_path, resolve_path, get_base_name}
use mimino.Dir.Files.{FileList, complete, read_file_info, ls}
use mimino.Http.Html.{html_writes}
use mimino.Http.Html.Rows.{page}
use mimino.Http.Response.{off_pred}
use mimino.Http.Response.Directory.{listing_head_text, make_http_response-directory}
use mimino.Http.Writes.Texts.{room}
use mimino.Server.Send.{sent}
use mimino.Server.Types.{PollFd, PendingRequest, Connection, File}
use mimino.Server.Transfer.{write_file, write_body}
use mimino.Server.Transfer.Body.{write_body_text}
use mimino.Server.Conn.{World, After, do_headers, write_any}
use mimino.Server.Conn.Serves.{Served, printed_body}
use mimino.Server.Conn.Bodies.{rest_of, do_headers-Served_body}

off_pred_lem : (n : ℕ) → 0 < n → n < 2 ^ 31 → off_pred n ≡ n - 1
off_pred_lem n more small = ground arith

-- A connection whose request names a directory, and is not HEAD, is answered in one step, where its
-- socket takes what it is given: the bytes sent are the head, with the size of the page, and then the
-- page of the directory's files, and the connection then waits for the next request, with neither a
-- request nor a response, if it is kept, and is closed otherwise. The response is not made yet, the
-- path can be resolved to a directory that can be listed, and ends in a slash, no index is configured,
-- the request has no range, and the head and the page take less than 2^31 bytes.
pub do_headers-get_directory :
    (w : World) (pfd : PollFd) (conn : Connection) (req : PendingRequest) (method path : Bytes)
    (real : Resolved) (file : File) (fl : FileList) (n : ℕ)
    → pfd.revents.pollout ≡ true
    → conn.req ≡ some req
    → conn.res ≡ none
    → req.fields.method ≡ some method
    → str_eq method (codes "HEAD") ≡ false
    → req.fields.path ≡ some path
    → resolve_path w.conf.serve_path (decode_url (cleanup_path path)) ≡ some real
    → read_file_info w.sys.fs (get_base_name real.text) real.text ≡ (file, complete)
    → file.is_dir ≡ true
    → get_elem? (decode_url (cleanup_path path)) (length (decode_url (cleanup_path path)) - 1)
      ≡ some b'/'
    → w.conf.index ≡ none
    → ls w.sys.fs real.text ≡ some (some fl)
    → req.fields.ranges.range_start_given ≡ false
    → req.fields.ranges.range_end_given ≡ false
    → length (page w.sys.memory (decode_url (cleanup_path path)) fl.files) ≡ n
    → room (html_writes w.sys.memory (decode_url (cleanup_path path)) fl.files) < 2 ^ 62
    → length (listing_head_text w.sys n fl) < 2 ^ 31
    → 0 < n
    → n < 2 ^ 31
    → w.calls.send 0 ≡ sent (length (listing_head_text w.sys n fl))
    → w.calls.send 1 ≡ sent n
    → (a : After) × (do_headers w pfd conn ≡ some a)
      × Served conn.keep_alive
          (listing_head_text w.sys n fl
            ++ page w.sys.memory (decode_url (cleanup_path path)) fl.files)
          a
unfolding write_any
do_headers-get_directory w pfd conn req method path real file fl n out has_req no_res has_method
      other has_path resolved info is_dir slash no_index listed no_start no_end size roomy small
      more fits takes takes_body =
    let http_path = decode_url (cleanup_path path) in
    let text = page w.sys.memory http_path fl.files in
    let (res, body, made, holds, has_body, holds_body, from, to, start, fresh) =
      make_http_response-directory w.sys w.conf req.fields method path real file has_method has_path
        resolved fl n info is_dir slash no_index listed size roomy (omega (arith, small)) in
    let from_0 : res.range_start ≡ some 0 =
      from ∙ ap some (if_false req.fields.ranges.range_start_given _ _ no_start) in
    let to_end : res.range_end ≡ some (n - 1) =
      to
      ∙ ap some
          (if_false req.fields.ranges.range_end_given _ _ no_end ∙ off_pred_lem n more fits) in
    let whole : n - 1 + 1 ≡ length text = omega (arith, size, more) in
    do_headers-Served_body w pfd conn req method (listing_head_text w.sys n fl) text res out has_req
      no_res has_method other made (printed_body w res body text has_body holds_body) start holds
      (omega
        (arith, length-append (codes "HTTP/1.1 200\r\n") (drop 14 (listing_head_text w.sys n fl))))
      small takes
      (λ conn' k has.
        let (t, went, done, wire) =
          write_body_text w.sys.memory (rest_of w.calls).send conn'
            (record res { head_nbytes_sent = k }) body 0 (n - 1) has has_body fresh from_0 to_end
            (omega (arith, fits, more)) text holds_body (omega (arith, size, more))
            (takes_body ∙ ap sent (omega (arith, more))) in
        (
          t,
          >>=-some conn'.res _ has (
              ap
                (λ b. elim b [
                  | some body ↦ write_body w.sys.memory (rest_of w.calls).send conn'
                  | none ↦ write_file w.sys.memory (rest_of w.calls) conn'
                ])
                has_body
              ∙ went),
          done,
          wire ∙ ap (λ m. take m text) whole ∙ take_all text,
        ))
