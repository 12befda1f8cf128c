-- ===== src/Recvserver.antt =====
-- recvserver/recvserver.c: a program that shows what its clients send. Its `sockbind`, and the loop
-- that fills its two arrays, are those of mimino.c. What the calls return is a parameter: a list
-- holds the results of one call after the other, and where it ends, the program waits. The output
-- is what goes to `stdout`.
pub mod Address
pub mod Output
use mimino.Base.{
  ℕ, zero, suc, ◌+◌, ◌-◌, ◌*◌, ◌/◌, ◌%◌, Bool, true, false, ◌&&◌, Bytes, List, [], ◌∷◌, ◌++◌,
  Option, none, some, codes, decimal, ltb, ◌==◌, if◌then◌else◌, length,
}
use mimino.Dump.{hex_char, text_cells, padding}
use mimino.Server.Setup.{AddrInfo, SocketCalls, sockbind, AddrInfos, populate}

-- `sockfd` where it was assigned, `chosen_addrinfo`, which is NULL at first, and the open descriptors
pub record Chosen : Type 0 where
  pub sockfd : Option ℕ
  pub chosen_addrinfo : Option AddrInfo
  pub opened : List ℕ

-- a loop's body behind `sockbind`
unfoldable pub try_next : AddrInfo → List ℕ → Chosen → Option ℕ → Chosen
try_next ai opened others none = others
try_next ai opened others (some s) = record {
  sockfd = some s;
  chosen_addrinfo = some ai;
  opened = opened;
}

-- "Try binding to" one of the arrays
unfoldable pub try_addrinfos : SocketCalls → List AddrInfo → List ℕ → Chosen
unfolding sockbind try_next
try_addrinfos calls [] opened = record { sockfd = none; chosen_addrinfo = none; opened = opened }
try_addrinfos calls (ai ∷ rest) opened =
    let attempt = sockbind calls ai opened in
    try_next ai attempt.opened (try_addrinfos calls rest attempt.opened) attempt.result

-- "if (chosen_addrinfo == NULL)"
unfoldable pub unless_chosen : SocketCalls → List AddrInfo → Chosen → Option AddrInfo → Chosen
unfolding try_addrinfos
unless_chosen calls ipv6_addrinfos ipv4 none = try_addrinfos calls ipv6_addrinfos ipv4.opened
unless_chosen calls ipv6_addrinfos ipv4 (some ai) = ipv4

-- `main` from the two arrays to the chosen address
unfoldable pub choose_address : SocketCalls → List AddrInfo → Chosen
unfolding populate try_addrinfos unless_chosen
choose_address calls addrinfos =
    let infos = populate (record { ipv4_addrinfos = []; ipv6_addrinfos = [] }) addrinfos in
    let ipv4 = try_addrinfos calls infos.ipv4_addrinfos [] in
    unless_chosen calls infos.ipv6_addrinfos ipv4 ipv4.chosen_addrinfo

-- `%02X ` of a `char`: a negative one is an `int` of eight digits.
unfoldable pub char_cell : ℕ → Bytes
char_cell c =
    if ltb c 128
    then hex_char (c / 16) ∷ hex_char (c % 16) ∷ b' ' ∷ []
    else codes "FFFFFF" ++ (hex_char (c / 16) ∷ hex_char (c % 16) ∷ b' ' ∷ [])

unfoldable pub char_cells : Bytes → Bytes
unfolding char_cell
char_cells [] = []
char_cells (c ∷ buf) = char_cell c ++ char_cells buf

-- `print_recvd_data`, where HEXDUMP_DATA is 1; the `switch` of its first loop is that of `hex_dump_line`
unfoldable pub print_recvd_data : Bytes → ℕ → Bytes
unfolding text_cells char_cells
print_recvd_data buf bufsize =
    codes "recv()d "
    ++ (decimal (length buf)
        ++ (codes " bytes: "
            ++ (text_cells buf
                ++ (padding (length buf) bufsize
                    ++ (codes " | " ++ (char_cells buf ++ codes "\n"))))))

-- a result of `recv`: bytes, of which the client closes with none, or -1 with an error
pub data Received : Type 0 where
  bytes : Bytes → Received
  -- EINTR or EAGAIN
  interrupted : Received
  -- ECONNREFUSED
  refused : Received
  other_error : Received

-- how the loop around `recv` ends: `main` returns 1, or the loop still waits
pub data Ending : Type 0 where
  ended dropped exited waiting : Ending

-- `closes` are the calls of `close` on a client's socket.
pub record Session : Type 0 where
  pub output : Bytes
  pub closes : ℕ
  pub ending : Ending

-- what was written before the rest of a session
abbrev pub after : Bytes → Session → Session
after text s = record s { output = text ++ s.output }

-- BUFSIZE
abbrev pub bufsize : ℕ
bufsize = 8

-- the loop around `recv`
unfoldable pub recv_loop : List Received → Session
unfolding print_recvd_data
recv_loop [] = record { output = []; closes = 0; ending = waiting }
recv_loop (interrupted ∷ results) = recv_loop results
recv_loop (refused ∷ results) = record { output = []; closes = 0; ending = dropped }
recv_loop (other_error ∷ results) = record { output = []; closes = 0; ending = exited }
recv_loop (bytes [] ∷ results) = record {
  output = codes "recv() returned 0\n";
  closes = 0;
  ending = ended;
}
recv_loop (bytes (c ∷ buf) ∷ results) =
    after (print_recvd_data (c ∷ buf) bufsize) (recv_loop results)

-- a result of `close`
pub data Closed : Type 0 where
  closed : Closed
  -- EBADF or EIO
  bad_descriptor : Closed
  -- EINTR and the others
  retried : Closed

-- the loop around `close`: the calls of `close` that are made, and whether it ends
unfoldable pub close_loop : ℕ → List Closed → ℕ × Bool
close_loop calls [] = (calls, false)
close_loop calls (closed ∷ results) = (suc calls, true)
close_loop calls (bad_descriptor ∷ results) = (suc calls, true)
close_loop calls (retried ∷ results) = close_loop (suc calls) results

-- the end of the loop around `close`
unfoldable pub close_client : ℕ × Bool → Session
close_client (calls, false) = record { output = []; closes = calls; ending = waiting }
close_client (calls, true) = record {
  output = codes "close()d the socket\n";
  closes = calls;
  ending = ended;
}

-- `main` behind the loop around `recv`
unfoldable pub end_client : List Closed → Ending → Session
unfolding close_loop close_client
end_client closes waiting = record { output = []; closes = 0; ending = waiting }
end_client closes exited = record { output = []; closes = 0; ending = exited }
end_client closes dropped = record {
  output = codes "Finished recv()\n";
  closes = 1;
  ending = dropped;
}
end_client closes ended = after (codes "Finished recv()\n") (close_client (close_loop 0 closes))

-- a client, from its connection to its end
unfoldable pub serve_client : List Received → List Closed → Session
unfolding recv_loop end_client
serve_client results closes =
    let session = recv_loop results in
    after (codes "recv()ing data:\n") (after session.output (end_client closes session.ending))

-- `main` returns 1
abbrev pub nothing : Session
nothing = record { output = []; closes = 0; ending = exited }

-- a result of `accept`: a client, with the text of its address and what its calls return, or -1
pub data Accepted : Type 0 where
  client : Bytes → List Received → List Closed → Accepted
  no_client : Accepted

-- a session and the one behind it
abbrev pub followed : Session → Session → Session
followed session rest = record rest {
  output = session.output ++ rest.output;
  closes = session.closes + rest.closes;
}

-- a client's session, and what follows where the program goes on
unfoldable pub go_on : Session → Session → Ending → Session
go_on session rest ended = followed session rest
go_on session rest dropped = followed session rest
go_on session rest exited = session
go_on session rest waiting = session

-- the loop around `accept`
unfoldable accept_loop : List Accepted → Session
unfolding serve_client go_on
accept_loop [] = record { output = []; closes = 0; ending = waiting }
accept_loop (no_client ∷ results) = accept_loop results
accept_loop (client address recvs closes ∷ results) =
    let session = serve_client recvs closes in
    let rest = accept_loop results in
    after (codes "Got connection from " ++ (address ++ codes "\n"))
      (go_on session rest session.ending)

-- what the calls behind the choice of an address return: the text of the address, and whether
-- `fcntl` and `listen` succeed
pub record Start : Type 0 where
  pub ip_str : Option Bytes
  pub fcntl : Bool
  pub listens : Bool

-- `main` behind the chosen address; `none` is the NULL of `chosen_addrinfo`
unfoldable pub start : Start → Bytes → Option AddrInfo → List Accepted → Session
unfolding accept_loop
start calls port none results = nothing
start calls port (some ai) results =
    let accepting = if calls.fcntl && calls.listens then accept_loop results else nothing in
    elim (calls.ip_str) [
      | none ↦ nothing
      | some ip ↦ after (codes "Bound to " ++ (ip ++ (codes ":" ++ (port ++ codes "\n")))) accepting
    ]

-- `main`, where `getaddrinfo` returns addresses or fails
unfoldable pub recvserver :
    SocketCalls → Start → Bytes → Option (List AddrInfo) → List Accepted → Session
unfolding choose_address start
recvserver calls started port none results = nothing
recvserver calls started port (some addrinfos) results =
    start started port (choose_address calls addrinfos).chosen_addrinfo results
