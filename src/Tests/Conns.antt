-- ===== src/Tests/Conns.antt =====
-- Steps of a connection.
use mathlib.Core.Path.{◌≡◌, refl}
use mimino.Base.{
  true, false, Bytes, [], none, some, arith, codes, length, take, length-take, ap, sym, str_eq,
  decimal, strstr_found, ◌^◌, ◌<◌,
}
use mimino.Server.Types.{PendingRequest, PollFd, reading, writing_headers, Connection}
use mimino.Server.Send.{sent}
use mimino.Server.Transfer.{Calls, received, would_block, recv_failed, read_failed}
use mimino.Server.Conn.{World, After, do_reading, do_headers, do_state, stay, stay_in}
use mimino.Server.Conn.Receives.{read_of, asked_for, do_reading-message}
use mimino.Http.Request.RoundTrip.Request.{message_text, message_request}
use mimino.Tests.Requests.{get_index, get_index-IsMessage}
use mimino.Server.Conn.Ready.{Ready, Settled}
use mimino.Server.Conn.Serves.{Served}
use mimino.Server.Conn.HeadRequest.{do_headers-head_request}
use mimino.Http.Request.Reader.{null_request}
use mimino.Http.Response.{file_head, format_off, content_type}
use mimino.Http.Response.Heads.{file_head_text}
use mimino.Http.Writes.Texts.{room}
use mimino.Server.Conn.Reads.{RecvFits, do_reading-Settled}
use mimino.Server.Conn.Settled.{do_state-Settled}
use mimino.Tests.Responses.{sys, conf, file_a, real_a, resolved_a, read_a}

abbrev calls : Calls
calls = record {
  recv = λ size. received (take size (codes "GET /"));
  send = λ call. sent 147;
  fopen = λ path. true;
  fseeko = λ path at. true;
  fread = λ path at size. read_failed;
  rounds = 1;
}

abbrev pub w : World
w = record { sys = sys; conf = conf; time_now = 1000; calls = calls }

abbrev pfd : PollFd
pfd = record {
  fd = some 4;
  events = record { pollin = true; pollout = false };
  revents = record { pollin = true; pollout = false };
}

abbrev pub conn : Connection
conn = record {
  fd = some 4;
  req = none;
  res = none;
  read_tries_left = 5;
  write_tries_left = 5;
  keep_alive = true;
  state = reading;
  last_active = 990;
}

pub fits : RecvFits w
fits size bytes e =
    let text : take size (codes "GET /") ≡ bytes =
      ap (λ r. elim r [ received b ↦ b | would_block ↦ [] | recv_failed ↦ [] ]) e in
    omega (arith, ap length text, length-take size (codes "GET /"))

do_reading-Settled_example : (a : After) × (do_reading w pfd conn ≡ some a) × Settled a
do_reading-Settled_example = do_reading-Settled w pfd conn refl refl refl tt fits

-- the same, where nothing can be read yet
abbrev idle : PollFd
idle = record pfd { revents = record { pollin = false; pollout = false } }

stays : do_state reading w idle conn ≡ some (stay idle conn [])
unfolding do_state
stays = refl

idle-Ready : Ready idle conn
idle-Ready = record { same = refl; waits = refl; phase = tt }

do_state-Settled_example : Settled (stay idle conn [])
do_state-Settled_example = do_state-Settled w idle conn (stay idle conn []) idle-Ready fits stays

-- A HEAD request for the file, read and parsed.
abbrev head_req : PendingRequest
head_req = record {
  buf = record { cells = []; n_items = 0; n_alloc = 0 };
  fields = record null_request { method = some (codes "HEAD"); path = some (codes "//a.txt") };
}

abbrev writing : PollFd
writing = record {
  fd = some 4;
  events = record { pollin = false; pollout = true };
  revents = record { pollin = false; pollout = true };
}

abbrev head_conn : Connection
head_conn = record conn { req = some head_req; state = writing_headers }

abbrev head_text : Bytes
head_text = file_head_text sys false 0 4999 file_a

is_head : str_eq (codes "HEAD") (codes "HEAD") ≡ true
unfolding str_eq
is_head = refl

room_head : room (file_head sys false 0 4999 file_a) < 2 ^ 31
unfolding file_head format_off decimal content_type strstr_found
room_head = omega arith

length-head : length head_text ≡ 147
unfolding format_off decimal content_type strstr_found
length-head = refl

do_headers-head_request_example :
    (a : After) × (do_headers w writing head_conn ≡ some a) × Served true head_text a
do_headers-head_request_example =
    do_headers-head_request w writing head_conn head_req (codes "HEAD") (codes "//a.txt") real_a
      file_a refl refl refl refl refl is_head refl resolved_a read_a refl room_head
      (omega (arith, length-head)) (ap sent (sym length-head))

-- the same, where `recv` returns a whole request
abbrev receiving : World
receiving = record w {
  calls = record calls { recv = λ size. received (message_text get_index []) };
}

do_reading-message_example :
    (beyond : Bytes) × (do_reading receiving pfd conn
      ≡ some (
          stay_in writing_headers pfd
            (asked_for receiving conn (read_of get_index (message_request get_index beyond)))
            []))
    × ((message_request get_index beyond).error ≡ none)
do_reading-message_example =
    do_reading-message receiving pfd conn get_index refl refl get_index-IsMessage (omega arith) refl
