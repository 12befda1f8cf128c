-- ===== src/Http/Response/Directory.antt =====
-- The response that `make_http_response` makes of a directory.
use mathlib.Core.Path.{subst}
use mimino.Base.{
  ℕ, ◌+◌, ◌-◌, ◌^◌, ◌<◌, true, Bytes, [], ◌++◌, none, some, ◌>>=◌, if_true, codes, decimal, length,
  get_elem?, ◌≡◌, refl, ap, ◌∙◌, arith, append-nil, >>=-some,
}
use mimino.Buffer.{Buffer, init_buf}
use mimino.Buffer.Append.{Holds, init_buf-Holds, length-Holds}
use mimino.Url.{decode_url}
use mimino.Server.Types.{File, Response}
use mimino.Server.Config.{Config}
use mimino.Dir.Path.{Resolved, cleanup_path, resolve_path, get_base_name}
use mimino.Dir.Files.{complete, read_file_info, FileList, ls}
use mimino.Http.Request.Reader.{Request}
use mimino.Http.Writes.{perform_all}
use mimino.Http.Writes.Texts.{room, perform_all-Appended}
use mimino.Http.Html.{html_writes, file_list_to_html}
use mimino.Http.Html.Rows.{page, file_list_to_html-page}
use mimino.Http.Response.{
  System, new_response, dirlisting_head, write_listing, write_dirlisting_http, set_range, serve_dir,
  serve_index, serve_directory, respond, make_http_response,
}
use mimino.Http.Response.Heads.{range_from, range_to, make_http_response-eq}

-- the head that the response for a listing of `n` bytes shall have
abbrev pub listing_head_text : System → ℕ → FileList → Bytes
listing_head_text sys n fl =
    codes "HTTP/1.1 200\r\nContent-Type: text/html; charset=UTF-8\r\nContent-Length: "
    ++ (decimal n
        ++ (codes "\r\nLast-Modified: " ++ (sys.strftime fl.dir_info.last_mod ++ codes "\r\n\r\n")))

write_listing-Holds :
    (sys : System) (head : Buffer) (http_path : Bytes) (fl : FileList) (n : ℕ)
    → Holds head []
    → length (page sys.memory http_path fl.files) ≡ n
    → room (html_writes sys.memory http_path fl.files) < 2 ^ 62
    → length (listing_head_text sys n fl) + 1 < 2 ^ 62
    → (head' : Buffer) × (body' : Buffer) × (write_listing sys head
          (init_buf 4096)
          http_path
          (some fl)
        ≡ some (head', body'))
      × Holds head' (listing_head_text sys n fl)
      × Holds body' (page sys.memory http_path fl.files)
      × (body'.n_items ≡ n)
unfolding write_listing
write_listing-Holds sys head http_path fl n h size small roomy =
    let (body', written, holds) =
      file_list_to_html-page sys.memory http_path fl.files (init_buf-Holds 4096 (omega arith))
        (omega arith) in
    let count : body'.n_items ≡ n = length-Holds _ holds ∙ size in
    let fits : room (dirlisting_head sys body' fl) < 2 ^ 62 = rw count (omega arith) in
    let (head', written', holds') =
      perform_all-Appended (dirlisting_head sys body' fl) h (omega arith) in
    (
      head',
      body',
      >>=-some (file_list_to_html sys.memory (init_buf 4096) http_path fl.files) _ written
          (>>=-some (perform_all (dirlisting_head sys body' fl) head) _ written' refl),
      subst (Holds head')
          (append-nil (listing_head_text sys body'.n_items fl)
            ∙ ap (λ m. listing_head_text sys m fl) count)
          holds',
      holds,
      count,
    )

module _ (sys : System) (conf : Config) (req : Request) (method path : Bytes) (real : Resolved)
    (file : File) (has_method : req.method ≡ some method) (has_path : req.path ≡ some path)
    (resolved : resolve_path conf.serve_path (decode_url (cleanup_path path)) ≡ some real) where
  -- The response for a directory that can be listed, under a path that ends in a slash and where no
  -- index is configured: the head with the size of the page, the page of the directory's files as the
  -- body, and the range, which is the whole page where the request has none. Nothing is sent. The
  -- request has a method and a path, the path can be resolved, and what is written takes less than
  -- 2^62 bytes.
  pub make_http_response-directory :
      (fl : FileList) (n : ℕ)
      → read_file_info sys.fs (get_base_name real.text) real.text ≡ (file, complete)
      → file.is_dir ≡ true
      → get_elem? (decode_url (cleanup_path path)) (length (decode_url (cleanup_path path)) - 1)
        ≡ some b'/'
      → conf.index ≡ none
      → ls sys.fs real.text ≡ some (some fl)
      → length (page sys.memory (decode_url (cleanup_path path)) fl.files) ≡ n
      → room (html_writes sys.memory (decode_url (cleanup_path path)) fl.files) < 2 ^ 62
      → length (listing_head_text sys n fl) + 1 < 2 ^ 62
      → (res : Response) × (body : Buffer) × (make_http_response sys conf req ≡ some res)
        × Holds res.head (listing_head_text sys n fl)
        × (res.body ≡ some body)
        × Holds body (page sys.memory (decode_url (cleanup_path path)) fl.files)
        × (res.range_start ≡ some (range_from req.ranges))
        × (res.range_end ≡ some (range_to req.ranges n))
        × (res.head_nbytes_sent ≡ 0)
        × (res.body_nbytes_sent ≡ 0)
  unfolding respond serve_directory serve_dir write_dirlisting_http
  make_http_response-directory fl n e is_dir slash no_index listed size small roomy =
      let decoded = decode_url (cleanup_path path) in
      let res = new_response file real.text in
      let (head, body, written, holds, holds', count) =
        write_listing-Holds sys res.head decoded fl n (init_buf-Holds 4096 (omega arith)) size small
          roomy in
      (
        set_range req.ranges body.n_items (record res { head = head; body = some body }),
        body,
        make_http_response-eq sys conf req method path real file has_method has_path resolved
              complete e
            ∙ if_true file.is_dir _ _ is_dir
            ∙ >>=-some (get_elem? decoded (length decoded - 1)) _ slash (
                ap
                  (λ i. elim i [
                    | none ↦ serve_dir sys req.ranges decoded res real.text
                    | some index ↦ serve_index sys req.ranges decoded res real.text index
                  ])
                  no_index
                ∙ >>=-some
                    (ls sys.fs real.text >>= λ l.
                      write_listing sys res.head (init_buf 4096) decoded l)
                    _ (>>=-some (ls sys.fs real.text) _ listed written) refl),
        holds,
        refl,
        holds',
        refl,
        ap (λ m. some (range_to req.ranges m)) count,
        refl,
        refl,
      )
