-- ===== src/Tests/Responses.antt =====
-- The responses to requests for a file, and for a path that names none.
use mathlib.Core.Path.{◌≡◌, refl}
use mimino.Base.{
  ◌↔◌, ◌⊎◌, ◌^◌, ◌<◌, true, false, Bytes, [], none, some, arith, if◌then◌else◌, codes, str_eq,
  decimal, strstr_found, c_string,
}
use mimino.Buffer.{Buffer}
use mimino.Buffer.Append.{Holds}
use mimino.Url.{decode_url}
use mimino.Server.Types.{File, Response}
use mimino.Server.Config.{Config}
use mimino.Dir.Listing.{zero_sign}
use mimino.Dir.Path.{Resolved, cleanup_path, resolve_path, get_base_name}
use mimino.Dir.Files.{Stat, found, missing, file_of, null_file, complete, no_file, read_file_info}
use mimino.Http.Request.Reader.{Request, null_request}
use mimino.Http.Response.{
  System, is_http_end, content_type, file_head, format_off, make_http_response, not_found_text,
}
use mimino.Http.Response.Heads.{
  file_head_text, not_found_head_text, make_http_response-file, make_http_response-not_found,
}
use mimino.Http.Response.End.{EndsWith, is_http_end_iff}
use mimino.Http.Writes.Texts.{room}

abbrev plain : Stat
plain = record { st_mode = 33188; st_size = 5000; st_mtime = 100 }

-- "srv/a.txt" is the only file.
abbrev pub sys : System
sys = record {
  fs = record {
    lstat = λ path. if str_eq path (codes "srv/a.txt") then found plain else missing;
    stat = λ path. missing;
    scandir = λ path. none;
    strcoll = λ a b. zero_sign;
  };
  strftime = λ t. codes "Thu, 01 Jan 1970 00:01:40 GMT";
  memory = record { byte = 7; number = 0; text = [] };
}

abbrev pub conf : Config
conf = record {
  verbose = false;
  quiet = true;
  is_unsafe = false;
  chroot = false;
  serve_error_files = false;
  timeout_secs = 20;
  poll_interval_ms = 1000;
  max_fds = 100;
  serve_path = codes "srv";
  port = codes "8080";
  index = none;
  suffix = none;
  chroot_dir = none;
}

-- GET of a path, with the range from 10 on
abbrev pub get : Bytes → Request
get path = record null_request {
  method = some (codes "GET");
  path = some path;
  ranges = record null_request.ranges { range_start_given = true; range_start = 10 };
}

abbrev pub file_a : File
file_a = file_of (codes "a.txt") plain

abbrev pub real_a : Resolved
real_a = record { text = codes "srv/a.txt"; allocated = 10 }

abbrev real_b : Resolved
real_b = record { text = codes "srv/b.txt"; allocated = 10 }

pub resolved_a :
    resolve_path (codes "srv") (decode_url (cleanup_path (codes "//a.txt"))) ≡ some real_a
unfolding resolve_path decode_url cleanup_path c_string str_eq
resolved_a = refl

pub read_a :
    read_file_info sys.fs (get_base_name (codes "srv/a.txt")) (codes "srv/a.txt")
    ≡ (file_a, complete)
unfolding read_file_info get_base_name str_eq
read_a = refl

resolved_b : resolve_path (codes "srv") (decode_url (cleanup_path (codes "/b.txt"))) ≡ some real_b
unfolding resolve_path decode_url cleanup_path c_string str_eq
resolved_b = refl

read_b :
    read_file_info sys.fs (get_base_name (codes "srv/b.txt")) (codes "srv/b.txt")
    ≡ (null_file, no_file)
unfolding read_file_info get_base_name str_eq
read_b = refl

room_a : room (file_head sys true 10 4999 file_a) < 2 ^ 62
unfolding file_head format_off decimal content_type strstr_found
room_a = omega arith

make_http_response-file_example :
    (res : Response) × (make_http_response sys conf (get (codes "//a.txt")) ≡ some res)
    × Holds res.head (file_head_text sys true 10 4999 file_a)
    × (res.body ≡ none)
    × (res.file ≡ file_a)
    × (res.file_path ≡ some (codes "srv/a.txt"))
    × (res.range_start ≡ some 10)
    × (res.range_end ≡ some 4999)
    × (res.file_offset ≡ 10)
    × (res.head_nbytes_sent ≡ 0)
make_http_response-file_example =
    make_http_response-file sys conf (get (codes "//a.txt")) (codes "GET") (codes "//a.txt") real_a
      file_a refl refl resolved_a read_a refl room_a

no_head : str_eq (codes "GET") (codes "HEAD") ≡ false
unfolding str_eq
no_head = refl

make_http_response-not_found_example :
    (res : Response) × (body : Buffer) × (make_http_response sys conf (get (codes "/b.txt"))
      ≡ some res)
    × Holds res.head not_found_head_text
    × (res.body ≡ some body)
    × Holds body not_found_text
    × (res.range_start ≡ none)
    × (res.range_end ≡ none)
make_http_response-not_found_example =
    make_http_response-not_found sys conf (get (codes "/b.txt")) (codes "GET") (codes "/b.txt")
      real_b null_file refl refl resolved_b read_b no_head

is_http_end_iff_example : (is_http_end (codes "GET /\r\n\r\n") ≡ true) ↔ (
    EndsWith (codes "GET /\r\n\r\n") (codes "\r\n\r\n")
    ⊎ EndsWith (codes "GET /\r\n\r\n") (codes "\r\n\r\n\0"))
is_http_end_iff_example = is_http_end_iff (codes "GET /\r\n\r\n")
