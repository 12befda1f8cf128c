-- ===== src/Tests/Gets.antt =====
-- GET requests for a file and for a directory, from the response to the socket.
use mimino.Base.{
  ℕ, zero, suc, ◌+◌, ◌*◌, ◌^◌, ◌<◌, true, false, Bytes, [], ◌∷◌, ◌++◌, some, ◌≡◌, refl, ap, arith,
  if◌then◌else◌, codes, str_eq, decimal, length, strstr_found, c_string, strcasecmp_eq, to_lower,
}
use mimino.Url.{decode_url}
use mimino.Dir.Listing.{
  sort_file_list, swap_in_file_list, get_file_type_suffix, get_human_file_size,
  get_human_file_perms,
}
use mimino.Dir.Path.{Resolved, cleanup_path, resolve_path, get_base_name}
use mimino.Dir.Files.{Stat, found, FileList, file_of, complete, read_file_info, ls}
use mimino.Ascii.{needs_encoding, is_alnum, is_alpha, is_upper_ascii, is_digit}
use mimino.Http.Html.{html_writes, perms_text, size_text}
use mimino.Http.Html.Rows.{page}
use mimino.Http.Request.Reader.{Request, null_request}
use mimino.Http.Request.Line.{is_valid_http_path_char}
use mimino.Http.Request.RoundTrip.Request.{
  Message, IsMessage, http_1_1, message_text, message_request,
}
use mimino.Server.Conn.Exchange.{reader, get_file_exchange}
use mimino.Http.Response.{System, content_type, format_off, file_head}
use mimino.Http.Response.Directory.{listing_head_text}
use mimino.Http.Response.Heads.{file_head_text}
use mimino.Http.Writes.Texts.{room}
use mimino.Server.Types.{PendingRequest, PollFd, File, writing_headers, Connection}
use mimino.Server.Send.{SendResult, sent}
use mimino.Server.Transfer.{Calls, would_block, received, chunk}
use mimino.Server.Transfer.Rest.{part}
use mimino.Server.Conn.{World, After, do_reading, do_headers}
use mimino.Server.Conn.Serves.{Served}
use mimino.Server.Conn.GetFile.{head_writes}
use mimino.Server.Conn.GetDirectory.{do_headers-get_directory}
use mimino.Tests.Conns.{conn}
use mimino.Tests.Responses.{sys, conf}

abbrev plain : Stat
plain = record { st_mode = 33188; st_size = 12; st_mtime = 100 }

abbrev directory : Stat
directory = record { st_mode = 16877; st_size = 40; st_mtime = 100 }

-- "srv/" is a directory with one file.
abbrev tree : System
tree = record sys {
  fs = record sys.fs {
    lstat = λ path. if str_eq path (codes "srv/") then found directory else found plain;
    scandir = λ path. some (codes "a.txt" ∷ []);
  };
}

abbrev content : Bytes
content = codes "hello, world"

abbrev file_a : File
file_a = file_of (codes "a.txt") plain

abbrev head_text : Bytes
head_text = file_head_text tree false 0 11 file_a

-- what `send` takes of the file, which is read in parts of eleven bytes
abbrev send_file : ℕ → SendResult
send_file zero = sent (length head_text)
send_file (suc j) = sent (length (part content 11 (0 + j * 11)))

abbrev calls : Calls
calls = record {
  recv = λ size. would_block;
  send = send_file;
  fopen = λ path. true;
  fseeko = λ path at. true;
  fread = λ path at size. chunk (part content size at);
  rounds = 20;
}

abbrev w : World
w = record { sys = tree; conf = conf; time_now = 1000; calls = calls }

abbrev get : Bytes → PendingRequest
get path = record {
  buf = record { cells = []; n_items = 0; n_alloc = 0 };
  fields = record null_request { method = some (codes "GET"); path = some path };
}

abbrev writing : PollFd
writing = record {
  fd = some 4;
  events = record { pollin = false; pollout = true };
  revents = record { pollin = false; pollout = true };
}

abbrev asks : Bytes → Connection
asks path = record conn { req = some (get path); state = writing_headers }

abbrev real_a : Resolved
real_a = record { text = codes "srv/a.txt"; allocated = 10 }

no_head : str_eq (codes "GET") (codes "HEAD") ≡ false
unfolding str_eq
no_head = refl

resolved_a : resolve_path (codes "srv") (decode_url (cleanup_path (codes "/a.txt"))) ≡ some real_a
unfolding resolve_path decode_url cleanup_path c_string str_eq
resolved_a = refl

read_a :
    read_file_info tree.fs (get_base_name (codes "srv/a.txt")) (codes "srv/a.txt")
    ≡ (file_a, complete)
unfolding read_file_info get_base_name str_eq
read_a = refl

room_a : room (head_writes w (get (codes "/a.txt")) file_a) < 2 ^ 31
unfolding file_head format_off decimal content_type strstr_found
room_a = omega arith

small_a : length head_text < 2 ^ 31
unfolding format_off decimal content_type strstr_found
small_a = omega arith

one_more : (j : ℕ) → 1 + j ≡ suc j
one_more j = omega arith

abbrev root : Resolved
root = record { text = codes "srv/"; allocated = 5 }

abbrev dir : File
dir = file_of (codes "srv") directory

abbrev fl : FileList
fl = record { files = file_a ∷ []; dir_info = dir }

abbrev text : Bytes
text = page tree.memory (codes "/") (file_a ∷ [])

abbrev listing_calls : Calls
listing_calls = record calls {
  send =
      λ call. elim call [ zero ↦ sent (length (listing_head_text tree 298 fl)) | suc j ↦ sent 298 ];
}

abbrev w' : World
w' = record w { conf = record conf { serve_path = codes "srv/" }; calls = listing_calls }

decoded_root : decode_url (cleanup_path (codes "/")) ≡ codes "/"
unfolding decode_url cleanup_path c_string
decoded_root = refl

resolved_root : resolve_path (codes "srv/") (decode_url (cleanup_path (codes "/"))) ≡ some root
unfolding resolve_path decode_url cleanup_path c_string str_eq
resolved_root = refl

read_root : read_file_info tree.fs (get_base_name (codes "srv/")) (codes "srv/") ≡ (dir, complete)
unfolding read_file_info get_base_name str_eq
read_root = refl

listed : ls tree.fs (codes "srv/") ≡ some (some fl)
unfolding ls read_file_info get_base_name str_eq sort_file_list swap_in_file_list
listed = refl

size_of_page : length text ≡ 298
unfolding perms_text size_text needs_encoding is_alnum is_alpha is_upper_ascii is_digit
    get_file_type_suffix get_human_file_size decimal c_string get_human_file_perms
size_of_page = refl

room_page : room (html_writes tree.memory (codes "/") (file_a ∷ [])) < 2 ^ 62
unfolding html_writes get_file_type_suffix get_human_file_size decimal c_string get_human_file_perms
room_page = omega arith

small_head : length (listing_head_text tree 298 fl) < 2 ^ 31
unfolding decimal
small_head = omega arith

do_headers-get_directory_example :
    (a : After) × (do_headers w' writing (asks (codes "/")) ≡ some a)
    × Served true (listing_head_text tree 298 fl ++ text) a
unfolding decode_url cleanup_path c_string
do_headers-get_directory_example =
    do_headers-get_directory w' writing (asks (codes "/")) (get (codes "/")) (codes "GET")
      (codes "/") root dir fl 298 refl refl refl refl no_head refl resolved_root read_root refl refl
      refl listed refl refl size_of_page room_page small_head (omega arith) (omega arith) refl refl

-- the request for the file, with one header
abbrev message : Message
message = record {
  method = codes "GET";
  path = codes "/a.txt";
  version = http_1_1;
  headers = record { name = codes "Host"; value = codes "localhost" } ∷ [];
}

message-IsMessage : IsMessage message
unfolding is_alpha is_upper_ascii is_valid_http_path_char
message-IsMessage = ground arith

abbrev fields : Request
fields = record null_request {
  method = some (codes "GET");
  path = some (codes "/a.txt");
  version_number = some (codes "1.1");
  host = some (codes "localhost");
}

read_parts : (beyond : Bytes) → message_request message beyond ≡ fields
unfolding strcasecmp_eq to_lower
read_parts beyond = refl

abbrev receiving : World
receiving = record w { calls = record calls { recv = λ size. received (message_text message []) } }

abbrev polled : PollFd
polled = record {
  fd = some 4;
  events = record { pollin = true; pollout = false };
  revents = record { pollin = true; pollout = false };
}

get_file_exchange_example :
    (do_reading receiving polled conn ≡ some (reader receiving polled conn message fields))
    × (a : After) × (do_headers w writing (reader receiving polled conn message fields).conn
        ≡ some a)
    × Served (reader receiving polled conn message fields).conn.keep_alive (head_text ++ content) a
get_file_exchange_example =
    get_file_exchange receiving w polled writing conn message fields content real_a file_a refl refl
      refl message-IsMessage (omega arith) refl read_parts refl refl refl refl no_head resolved_a
      read_a refl room_a small_a refl refl refl (omega arith) (λ at. refl) (omega arith)
      (λ j. ap send_file (one_more j))
