-- ===== src/Http/Response/Heads.antt =====
-- The responses that `make_http_response` makes.
use mathlib.Core.Path.{subst}
use mimino.Base.{
  if_false, ℕ, ◌^◌, ◌<◌, Bool, true, false, Bytes, List, [], ◌++◌, none, some, if◌then◌else◌, codes,
  str_eq, decimal, ◌≡◌, refl, ◌∙◌, arith, append_assoc, append-nil,
}
use mimino.Buffer.{Buffer}
use mimino.Buffer.Append.{Holds, init_buf-Holds, length-Holds, buf_append_str-Appended}
use mimino.Url.{decode_url}
use mimino.Server.Types.{File, Response}
use mimino.Server.Config.{Config}
use mimino.Dir.Path.{Resolved, cleanup_path, resolve_path, get_base_name}
use mimino.Dir.Files.{InfoResult, complete, no_file, read_file_info}
use mimino.Http.Range.{Ranges}
use mimino.Http.Request.Reader.{Request}
use mimino.Http.Writes.{Write}
use mimino.Http.Writes.Texts.{texts, room, perform_all-Appended}
use mimino.Http.Response.{
  System, format_off, new_response, add_head, not_found_text, not_found_head, not_found, set_range,
  content_type, is_range_given, file_head, serve_file, respond, make_http_response, off_pred,
}

-- the head that a file's response shall have, with the ends of its range
abbrev pub file_head_text : System → Bool → ℕ → ℕ → File → Bytes
file_head_text sys ranged start end file =
    (if ranged then codes "HTTP/1.1 206\r\n" else codes "HTTP/1.1 200\r\nAccept-Ranges: bytes\r\n")
    ++ (codes "Last-Modified: "
        ++ (sys.strftime file.last_mod
            ++ (codes "\r\n"
                ++ ((if ranged
                      then codes "Content-Range: bytes "
                        ++ (format_off start
                            ++ (codes "-"
                                ++ (format_off end
                                    ++ (codes "/" ++ (format_off file.size ++ codes "\r\n")))))
                      else [])
                    ++ (codes "Content-Length: "
                        ++ (format_off file.size
                            ++ (codes "\r\n" ++ (content_type file.name ++ codes "\r\n"))))))))

abbrev pub not_found_head_text : Bytes
not_found_head_text =
    codes "HTTP/1.1 404\r\nAccept-Ranges: bytes\r\nContent-Type: text/plain\r\n"
    ++ codes "Content-Length: 26\r\n\r\n"

file_head-eq :
    (sys : System) (ranged : Bool) (start end : ℕ) (file : File)
    → texts (file_head sys ranged start end file) ≡ file_head_text sys ranged start end file
unfolding file_head
file_head-eq sys true start end file = simp (append_assoc, append-nil)
file_head-eq sys false start end file = simp (append_assoc, append-nil)

add_head-Holds :
    (ws : List Write) (res : Response) {text : Bytes}
    → Holds res.head []
    → room ws < 2 ^ 62
    → texts ws ≡ text
    → (head : Buffer) × (add_head ws res ≡ some (record res { head = head })) × Holds head text
unfolding add_head
add_head-Holds ws res h small e =
    let (head, g, k) = perform_all-Appended ws h (omega arith) in
    (head, rw g, subst (λ l. Holds head l) e k)

abbrev pub range_from : Ranges → ℕ
range_from r = if r.range_start_given then r.range_start else 0

abbrev pub range_to : Ranges → ℕ → ℕ
range_to r size = if r.range_end_given then r.range_end else off_pred size

module _ (sys : System) (conf : Config) (req : Request) (method path : Bytes) (real : Resolved)
    (file : File) (has_method : req.method ≡ some method) (has_path : req.path ≡ some path)
    (resolved : resolve_path conf.serve_path (decode_url (cleanup_path path)) ≡ some real) where
  pub make_http_response-eq :
      (result : InfoResult)
      → read_file_info sys.fs (get_base_name real.text) real.text ≡ (file, result)
      → make_http_response sys conf req
        ≡ respond sys conf req.ranges
            (str_eq method (codes "HEAD"))
            (decode_url (cleanup_path path))
            (new_response file real.text)
            real.text
            result
  unfolding make_http_response
  make_http_response-eq result e = rw (has_method, has_path, resolved, e)

  -- The response for a file that can be read and is no directory: the head is that of the file, with
  -- the status 206 and the range where the request has one; no body; and the range, of which the
  -- sending starts at the first end; nothing of the head is sent. The request has a method and a path, the path can be resolved,
  -- and the head takes less than 2^62 bytes.
  pub make_http_response-file :
      read_file_info sys.fs (get_base_name real.text) real.text ≡ (file, complete)
      → file.is_dir ≡ false
      → room (
          file_head sys
            (is_range_given req.ranges)
            (range_from req.ranges)
            (range_to req.ranges file.size)
            file)
        < 2 ^ 62
      → (res : Response) × (make_http_response sys conf req ≡ some res)
        × Holds res.head (
            file_head_text sys
              (is_range_given req.ranges)
              (range_from req.ranges)
              (range_to req.ranges file.size)
              file)
        × (res.body ≡ none)
        × (res.file ≡ file)
        × (res.file_path ≡ some real.text)
        × (res.range_start ≡ some (range_from req.ranges))
        × (res.range_end ≡ some (range_to req.ranges file.size))
        × (res.file_offset ≡ range_from req.ranges)
        × (res.head_nbytes_sent ≡ 0)
  unfolding respond serve_file
  make_http_response-file e plain small =
      let (head, g, h) =
        add_head-Holds
          (file_head sys (is_range_given req.ranges) (range_from req.ranges)
            (range_to req.ranges file.size) file)
          (record (set_range req.ranges file.size (new_response file real.text)) {
            file_offset = range_from req.ranges;
          })
          (init_buf-Holds 4096 (omega arith)) small
          (file_head-eq sys (is_range_given req.ranges) (range_from req.ranges)
            (range_to req.ranges file.size) file) in
      (
        record (set_range req.ranges file.size (new_response file real.text)) {
          head = head;
          file_offset = range_from req.ranges;
        },
        make_http_response-eq complete e ∙ if_false file.is_dir _ _ plain ∙ g,
        h,
        refl,
        refl,
        refl,
        refl,
        refl,
        refl,
        refl,
      )

  -- The response for a file that does not exist, to a request other than HEAD: the 404 head, the body
  -- with its message, and a range that was never set. The request has a method and a path, and the
  -- path can be resolved.
  pub make_http_response-not_found :
      read_file_info sys.fs (get_base_name real.text) real.text ≡ (file, no_file)
      → str_eq method (codes "HEAD") ≡ false
      → (res : Response) × (body : Buffer) × (make_http_response sys conf req ≡ some res)
        × Holds res.head not_found_head_text
        × (res.body ≡ some body)
        × Holds body not_found_text
        × (res.range_start ≡ none)
        × (res.range_end ≡ none)
  unfolding respond not_found decimal
  make_http_response-not_found e other =
      let (head, g, h) =
        add_head-Holds not_found_head (new_response file real.text)
          (init_buf-Holds 4096 (omega arith)) (omega arith) refl in
      let (body, b, k) =
        buf_append_str-Appended (init_buf-Holds 27 (omega arith)) not_found_text
          (omega (arith, length-Holds [] (init_buf-Holds 27 (omega arith)))) in
      (
        record (new_response file real.text) { head = head; body = some body },
        body,
        make_http_response-eq no_file e ∙ rw (g, b, other) refl,
        h,
        refl,
        k,
        refl,
        refl,
      )
