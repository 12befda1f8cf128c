-- ===== src/Tests/Transfers.antt =====
-- The writers.
use mimino.Base.{
  ◌+◌, ◌*◌, ◌≤◌, ◌<◌, ◌≡◌, ◌⊎◌, take, drop, true, false, Bytes, [], none, some, refl, arith, codes,
  length, map,
}
use mimino.Buffer.{Buffer, init_buf}
use mimino.Buffer.Append.{Holds}
use mimino.Dir.Files.{null_file}
use mimino.Http.Html.{Memory, fill}
use mimino.Server.Send.{sent}
use mimino.Server.Types.{Response}
use mimino.Server.Transfer.{Calls, would_block, chunk, write_file, write_body}
use mimino.Server.Transfer.Body.{write_body-range}
use mimino.Server.Transfer.Rest.{part, Completes, write_file-rest}
use mimino.Tests.Conns.{conn}

abbrev content : Bytes
content = codes "hello, world"

-- The file "a", of which each call takes what it is given.
abbrev calls : Calls
calls = record {
  recv = λ size. would_block;
  send = λ j. sent (length (part content 4 (2 + j * 4)));
  fopen = λ path. true;
  fseeko = λ path at. true;
  fread = λ path at size. chunk (part content size at);
  rounds = 20;
}

-- the range from 2 to 6
abbrev res : Response
res = record {
  head = init_buf 0;
  head_nbytes_sent = 0;
  body = none;
  body_nbytes_sent = 0;
  file = record null_file { is_null = false };
  file_offset = 2;
  file_nbytes_sent = 0;
  file_path = some (codes "a");
  range_start = some 2;
  range_end = some 6;
  error = false;
}

abbrev memory : Memory
memory = record { byte = 7; number = 0; text = [] }

-- The range does not end what is sent.
write_file-rest_example :
    Completes (codes "llo, world") (write_file memory calls (record conn { res = some res }))
write_file-rest_example =
    write_file-rest memory calls (record conn { res = some res }) res (codes "a") content 6 4 refl
      refl refl refl refl refl refl (omega arith) (λ at. refl) (omega arith) (λ j. refl)

-- a body in memory, of which the range from 2 to 6 is asked for
abbrev body : Buffer
body = record { cells = map some content; n_items = 12; n_alloc = 12 }

body-Holds : Holds body content
body-Holds = record { alloc = refl; fits = omega arith; tight = omega arith; items = refl }

abbrev with_body : Response
with_body = record res { body = some body }

-- seven bytes are sent, where the range has five
write_body-range_example :
    ((2 + (6 + 1) ≤ length content)
      × Completes
          (take (6 + 1) (drop 2 content))
          (write_body memory (λ call. sent 7) (record conn { res = some with_body })))
    ⊎ ((length content < 2 + (6 + 1))
        × (2 + (6 + 1) ≤ length body.cells)
        × Completes
            (fill memory.byte (take (6 + 1) (drop 2 body.cells)))
            (write_body memory (λ call. sent 7) (record conn { res = some with_body })))
    ⊎ ((length body.cells < 2 + (6 + 1))
        × (write_body memory (λ call. sent 7) (record conn { res = some with_body }) ≡ none))
write_body-range_example =
    write_body-range memory (λ call. sent 7) (record conn { res = some with_body }) with_body body 2
      6 refl refl refl refl refl (omega arith) content body-Holds refl
