-- ===== src/Tests/Urls.antt =====
-- The URL coding of http.c.
use mimino.Base.{Bytes, [], ◌≡◌, true, refl, arith, codes, All, c_string}
use mimino.Buffer.{init_buf}
use mimino.Buffer.Append.{Appended, init_buf-Holds}
use mimino.Http.Request.Line.{is_valid_http_path_char}
use mimino.Url.{buf_encode_url, decode_url}
use mimino.Url.Decode.{decode_url-buf_encode_url}

decode_url-buf_encode_url_example :
    (text : Bytes) × Appended [] text (buf_encode_url (init_buf 4) (codes "a b%"))
    × All (λ c. is_valid_http_path_char c ≡ true) text
    × (decode_url text ≡ codes "a b%")
unfolding init_buf
decode_url-buf_encode_url_example =
    decode_url-buf_encode_url (codes "a b%") (init_buf-Holds 4 (omega arith)) (omega arith)
      (omega arith)

-- The cases of tests/test_decode_url.c, and an encoded NUL, which ends the string.
decode_url_runs :
    (decode_url (codes "%20a%2Fb%2f") ≡ codes " a/b/")
    × (decode_url (codes "100%%") ≡ codes "100%")
    × (decode_url (codes "%4") ≡ codes "%4")
    × (decode_url (codes "a%00b") ≡ codes "a")
unfolding decode_url c_string
decode_url_runs = (refl, refl, refl, refl)
