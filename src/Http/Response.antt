-- ===== src/Http/Response.antt =====
-- http.c: `make_http_response`. An `off_t` is the number of its 64 bits. The file system, the texts of
-- `strftime` and what uninitialised memory holds are parameters.
pub mod Heads
pub mod Directory
pub mod End
use mimino.Base.{
  ℕ, ◌+◌, ◌-◌, ◌%◌, ◌^◌, ◌/◌, Bool, true, false, not, ◌&&◌, ◌||◌, Bytes, List, [], ◌∷◌, ◌++◌,
  Option, none, some, ◌>>=◌, ltb, leb, ◌==◌, if◌then◌else◌, codes, str_eq, strstr_found, decimal,
  length, get_elem?, get_or,
}
use mimino.Buffer.{Buffer, init_buf, buf_append_str}
use mimino.Url.{decode_url}
use mimino.Server.Types.{File, Response}
use mimino.Server.Config.{Config}
use mimino.Dir.Path.{Resolved, cleanup_path, resolve_path, get_base_name}
use mimino.Dir.Files.{
  FileSystem, InfoResult, complete, link_only, no_file, no_info, null_file, read_file_info,
  FileList, ls,
}
use mimino.Http.Range.{Ranges}
use mimino.Http.Request.Reader.{Request}
use mimino.Http.Writes.{Write, str, format, perform_all}
use mimino.Http.Html.{Memory, when, file_list_to_html}

-- what the server takes from the system to make a response
pub record System : Type 0 where
  pub fs : FileSystem
  pub strftime : ℕ → Bytes
  pub memory : Memory

-- "Return 1 if buf has \r\n\r\n at the end"; the buffer's items
unfoldable pub is_http_end : Bytes → Bool
is_http_end buf =
    let size = length buf in
    let ends = λ (i : ℕ).
      get_or buf (i - 3) 0 == b'\r'
      && get_or buf (i - 2) 0 == b'\n'
      && get_or buf (i - 1) 0 == b'\r'
      && get_or buf i 0 == b'\n' in
    if ltb size 4
    then false
    else if get_or buf (size - 1) 0 == 0
    then (if ltb size 5 then false else ends (size - 2))
    else ends (size - 1)

-- The order of two `off_t`.
abbrev pub off_lt : ℕ → ℕ → Bool
off_lt a b = ltb ((a + 2 ^ 63) % 2 ^ 64) ((b + 2 ^ 63) % 2 ^ 64)

abbrev pub off_pred : ℕ → ℕ
off_pred a = (a + (2 ^ 64 - 1)) % 2 ^ 64

-- `%ld`
unfoldable pub format_off : ℕ → Bytes
format_off a = if ltb a (2 ^ 63) then decimal a else b'-' ∷ decimal (2 ^ 64 - a)

unfoldable pub are_ranges_satisfiable : Ranges → ℕ → Bool
are_ranges_satisfiable r max_range =
    (r.range_start_given && off_lt max_range r.range_start)
    || (r.range_end_given && off_lt max_range r.range_end)
    || (r.range_start_given && r.range_end_given && off_lt r.range_start r.range_end)

-- The response behind its initialisation: the two buffers' data, the file and its path. The range is
-- not set.
abbrev pub new_response : File → Bytes → Response
new_response file real_path = record {
  head = init_buf 4096;
  head_nbytes_sent = 0;
  body = none;
  body_nbytes_sent = 0;
  file = file;
  file_offset = 0;
  file_nbytes_sent = 0;
  file_path = some real_path;
  range_start = none;
  range_end = none;
  error = false;
}

-- the calls on `res->head`
unfoldable pub add_head : List Write → Response → Option Response
add_head ws res = do head ← perform_all ws res.head; some (record res { head = head })

abbrev pub not_found_text : Bytes
not_found_text = codes "Error 404: file not found\n"

abbrev pub not_found_head : List Write
not_found_head =
    str (codes "HTTP/1.1 404\r\n")
    ∷ str (codes "Accept-Ranges: bytes\r\n")
    ∷ str (codes "Content-Type: text/plain\r\n")
    ∷ format (codes "Content-Length: " ++ (decimal (length not_found_text) ++ codes "\r\n"))
    ∷ str (codes "\r\n")
    ∷ []

-- "File not found"
unfoldable pub not_found : Bool → Response → Option Response
unfolding add_head
not_found is_head_request res = do
  res' ← add_head not_found_head res
  body ← buf_append_str (init_buf (length not_found_text + 1)) not_found_text
  some (if is_head_request then res' else record res' { body = some body })

-- "Forward to path with trailing slash if it's missing"
unfoldable pub forward : Bytes → Response → Option Response
unfolding add_head
forward decoded_http_path res =
    add_head
      (format (codes "HTTP/1.1 301\r\nLocation: " ++ (decoded_http_path ++ codes "/\r\n"))
        ∷ str (codes "Accept-Ranges: bytes\r\n")
        ∷ [])
      res

abbrev pub dirlisting_head : System → Buffer → FileList → List Write
dirlisting_head sys body fl =
    format (
      codes "HTTP/1.1 200\r\nContent-Type: text/html; charset=UTF-8\r\nContent-Length: "
      ++ (decimal body.n_items
          ++ (codes "\r\nLast-Modified: "
              ++ (sys.strftime fl.dir_info.last_mod ++ codes "\r\n\r\n"))))
    ∷ []

-- `write_dirlisting_http`, given what `ls` returns: the head and the body
unfoldable pub write_listing :
    System → Buffer → Buffer → Bytes → Option FileList → Option (Buffer × Buffer)
unfolding file_list_to_html
write_listing sys head body http_path none = do
  head' ← buf_append_str head (codes "HTTP/1.1 500\r\n")
  some (head', body)
write_listing sys head body http_path (some fl) = do
  body' ← file_list_to_html sys.memory body http_path fl.files
  head' ← perform_all (dirlisting_head sys body' fl) head
  some (head', body')

unfoldable pub write_dirlisting_http :
    System → Buffer → Buffer → Bytes → Bytes → Option (Buffer × Buffer)
unfolding write_listing ls
write_dirlisting_http sys head body dir http_path = do
  list ← ls sys.fs dir
  write_listing sys head body http_path list

-- "Set ranges", for a body or a file of `size` bytes
abbrev pub set_range : Ranges → ℕ → Response → Response
set_range r size res = record res {
  range_start = some (if r.range_start_given then r.range_start else 0);
  range_end = some (if r.range_end_given then r.range_end else off_pred size);
}

-- the listing of a directory; what `are_ranges_satisfiable` returns is not used
unfoldable pub serve_dir : System → Ranges → Bytes → Response → Bytes → Option Response
unfolding write_dirlisting_http
serve_dir sys r decoded_http_path res real_path = do
  (head, body) ← write_dirlisting_http sys res.head (init_buf 4096) real_path decoded_http_path
  some (set_range r body.n_items (record res { head = head; body = some body }))

unfoldable pub content_type : Bytes → Bytes
content_type name =
    if strstr_found name (codes ".html")
    then codes "Content-Type: text/html; charset=UTF-8\r\n"
    else if strstr_found name (codes ".jpg")
    then codes "Content-Type: image/jpeg\r\n"
    else if strstr_found name (codes ".pdf")
    then codes "Content-Type: application/pdf\r\n"
    else if strstr_found name (codes ".css")
    then codes "Content-Type: text/css\r\n"
    else if strstr_found name (codes ".txt")
    then codes "Content-Type: text/plain; charset=UTF-8\r\n"
    else if strstr_found name (codes ".mp4")
    then codes "Content-Type: video/mp4\r\n"
    else codes "Content-Type: application/octet-stream; charset=UTF-8\r\n"

abbrev pub is_range_given : Ranges → Bool
is_range_given r = r.range_start_given || r.range_end_given

abbrev pub status_writes : Bool → List Write
status_writes true = str (codes "HTTP/1.1 206\r\n") ∷ []
status_writes false = str (codes "HTTP/1.1 200\r\n") ∷ str (codes "Accept-Ranges: bytes\r\n") ∷ []

-- the head of a file's response; `start` and `end` are its range
unfoldable pub file_head : System → Bool → ℕ → ℕ → File → List Write
unfolding content_type
file_head sys ranged start end file =
    status_writes ranged
    ++ (format (codes "Last-Modified: " ++ (sys.strftime file.last_mod ++ codes "\r\n"))
        ∷ (when ranged (
              format (
                codes "Content-Range: bytes "
                ++ (format_off start
                    ++ (codes "-"
                        ++ (format_off end
                            ++ (codes "/" ++ (format_off file.size ++ codes "\r\n")))))))
            ++ (format (codes "Content-Length: " ++ (format_off file.size ++ codes "\r\n"))
                ∷ str (content_type file.name)
                ∷ str (codes "\r\n")
                ∷ [])))

-- "We're serving a single file"
unfoldable pub serve_file : System → Ranges → Response → Option Response
unfolding file_head add_head
serve_file sys r res =
    let start = if r.range_start_given then r.range_start else 0 in
    let end = if r.range_end_given then r.range_end else off_pred res.file.size in
    add_head (file_head sys (is_range_given r) start end res.file)
      (record (set_range r res.file.size res) { file_offset = start })

-- a directory with an index configured: the index where it can be read, and the listing otherwise
unfoldable pub serve_index : System → Ranges → Bytes → Response → Bytes → Bytes → Option Response
unfolding serve_dir serve_file
serve_index sys r decoded_http_path res real_path index = do
  index_path ← resolve_path real_path index
  let (file, result) = read_file_info sys.fs index index_path.text
  let res' : Response = record res { file = file }
  elim result [
    | complete ↦ serve_file sys r (record res' { file_path = some index_path.text })
    | link_only ↦ serve_dir sys r decoded_http_path res' real_path
    | no_file ↦ serve_dir sys r decoded_http_path res' real_path
    | no_info ↦ serve_dir sys r decoded_http_path res' real_path
  ]

-- "We're serving a dirlisting"; `none` is the read before an empty path.
unfoldable pub serve_directory :
    System → Config → Ranges → Bytes → Response → Bytes → Option Response
unfolding forward serve_dir serve_index
serve_directory sys conf r decoded_http_path res real_path = do
  last ← get_elem? decoded_http_path (length decoded_http_path - 1)
  let found : Option Response = elim conf.index [
    | none ↦ serve_dir sys r decoded_http_path res real_path
    | some index ↦ serve_index sys r decoded_http_path res real_path index
  ]
  if not (last == b'/') then forward decoded_http_path res else found

-- the response, by what `read_file_info` returns
unfoldable pub respond :
    System → Config → Ranges → Bool → Bytes → Response → Bytes → InfoResult → Option Response
unfolding not_found add_head serve_directory serve_file
respond sys conf r is_head decoded_http_path res real_path no_file = not_found is_head res
respond sys conf r is_head decoded_http_path res real_path no_info =
    add_head (str (codes "HTTP/1.1 500\r\n\r\n") ∷ []) res
respond sys conf r is_head decoded_http_path res real_path link_only =
    if res.file.is_dir
    then serve_directory sys conf r decoded_http_path res real_path
    else serve_file sys r res
respond sys conf r is_head decoded_http_path res real_path complete =
    if res.file.is_dir
    then serve_directory sys conf r decoded_http_path res real_path
    else serve_file sys r res

-- `none` is a fault: a NULL method or path, or a write or a read outside an allocation.
unfoldable pub make_http_response : System → Config → Request → Option Response
unfolding respond
make_http_response sys conf req = do
  method ← req.method
  path ← req.path
  let decoded_http_path = decode_url (cleanup_path path)
  real_path ← resolve_path conf.serve_path decoded_http_path
  let (file, result) = read_file_info sys.fs (get_base_name real_path.text) real_path.text
  respond sys conf req.ranges (str_eq method (codes "HEAD")) decoded_http_path
      (new_response file real_path.text) real_path.text result

-- The loop of `print_http_response` reads up to 128 of the items; `none` is a read outside the data.
unfoldable pub print_items : ℕ → ℕ → Option (Unit {0})
print_items n_items held =
    let read = if ltb n_items 128 then n_items else 128 in if leb read held then some tt else none

-- `print_http_response`, without what it prints. The count of a body that is NULL was never written.
unfoldable pub print_http_response : Memory → Response → Option (Unit {0})
unfolding print_items
print_http_response memory res = elim res.body [
  | none ↦ print_items memory.number 0
  | some body ↦ print_items body.n_items (length body.cells)
]
