-- ===== src/Tests/Requests.antt =====
-- The request parser.
use mimino.Base.{[], ◌∷◌, ◌≡◌, refl, some, arith, codes, c_string}
use mimino.Ascii.{is_alpha, is_upper_ascii}
use mimino.Http.Request.{parse_http_request}
use mimino.Http.Request.Reader.{Request, null_request}
use mimino.Http.Request.Line.{is_valid_http_path_char}
use mimino.Http.Request.Sound.{parse_http_request-Names}
use mimino.Http.Request.Sound.Opening.{Names}
use mimino.Http.Request.Total.{parse_http_request-total}
use mimino.Http.Request.RoundTrip.Request.{
  Message, IsMessage, http_1_1, message_text, message_request, parse_http_request-message_text,
}

abbrev pub get_index : Message
get_index = record {
  method = codes "GET";
  path = codes "/a%20b.html";
  version = http_1_1;
  headers =
      record { name = codes "host"; value = codes "localhost:8080" }
      ∷ record { name = codes "X-Other"; value = codes "1" }
      ∷ record { name = codes "Range"; value = codes "bytes=2-5" }
      ∷ [];
}

pub get_index-IsMessage : IsMessage get_index
unfolding is_alpha is_upper_ascii is_valid_http_path_char
get_index-IsMessage = ground arith

parse_http_request-message_text_example :
    parse_http_request (message_text get_index []) (codes "\0junk")
    ≡ some (message_request get_index (codes "\0junk"))
parse_http_request-message_text_example =
    parse_http_request-message_text get_index (codes "\0junk") get_index-IsMessage

parse_http_request-total_example :
    (r : Request) × (parse_http_request (codes "GET / HTTP/1.1\r") (codes "junk") ≡ some r)
parse_http_request-total_example =
    parse_http_request-total (codes "GET / HTTP/1.1\r") (codes "junk")

-- A path runs over a NUL, and the string made of it ends there.
nul_in_path :
    parse_http_request (codes "GET /a\0b HTTP/1.1\r\n\r\n") []
    ≡ some (record null_request {
      method = some (codes "GET");
      path = some (codes "/a");
      version_number = some (codes "1.1");
    })
unfolding parse_http_request c_string
nul_in_path = refl

-- A request with a request line and no headers.
parsed_root :
    parse_http_request (codes "GET / HTTP/1.1\r\n\r\n") []
    ≡ some (record null_request {
      method = some (codes "GET");
      path = some (codes "/");
      version_number = some (codes "1.1");
    })
unfolding parse_http_request c_string
parsed_root = refl

parse_http_request-Names_example : Names (record null_request {
  method = some (codes "GET");
  path = some (codes "/");
  version_number = some (codes "1.1");
})
parse_http_request-Names_example =
    parse_http_request-Names (codes "GET / HTTP/1.1\r\n\r\n") [] _ parsed_root refl
