-- ===== src/Http/Writes.antt =====
-- The calls by which http.c fills a buffer, one after the other.
pub mod Texts
use mimino.Base.{ℕ, ◌+◌, ◌*◌, Bytes, List, [], ◌∷◌, ◌++◌, Option, none, some, ◌>>=◌, length}
use mimino.Buffer.{Buffer, buf_push, buf_append_str, buf_sprintf}
use mimino.Url.{buf_encode_url}

pub data Write : Type 0 where
  -- `buf_append_str`
  str : Bytes → Write
  -- `buf_sprintf`, whose text is the formatted one
  format : Bytes → Write
  -- `buf_push`
  char : ℕ → Write
  -- `buf_encode_url`
  url : Bytes → Write

unfoldable pub perform : Write → Buffer → Option Buffer
perform (str s) b = buf_append_str b s
perform (format s) b = buf_sprintf b s
perform (char c) b = buf_push b c
perform (url s) b = buf_encode_url b s

unfoldable pub perform_all : List Write → Buffer → Option Buffer
perform_all [] b = some b
perform_all (w ∷ ws) b = do b' ← perform w b; perform_all ws b'
