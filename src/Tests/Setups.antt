-- ===== src/Tests/Setups.antt =====
-- The set-up of sockets, and the program that shows what its clients send.
use mimino.Base.{
  ℕ, Bool, true, false, not, Bytes, List, [], ◌∷◌, ◌++◌, none, some, ◌==◌, ◌≡◌, refl, arith, codes,
  decimal,
}
use mimino.Dump.{hex_dump_line, dump_data}
use mimino.Dump.Read.{read_dump, read_dump-dump_data}
use mimino.Server.Setup.{
  af_inet, af_inet6, other_family, AddrInfo, SocketCalls, sockbind, init_server,
}
use mimino.Server.Setup.First.{FirstOf, preferred, init_server-first}
use mimino.Server.Setup.Opened.{with_socket, init_server-opened}
use mimino.Recvserver.{choose_address, print_recvd_data, ended, closed, serve_client}
use mimino.Recvserver.Address.{as_bound, choose_address-init_server}
use mimino.Recvserver.Output.{
  print_recvd_data-hex_dump_line, results_of, shown, closes_after, serve_client-shown,
}

abbrev local6 : AddrInfo
local6 = record { ai_family = af_inet6; ai_socktype = 1; ai_protocol = 6; ai_addr = codes "::" }

abbrev unknown : AddrInfo
unknown = record local6 { ai_family = other_family 17 }

abbrev local4 : AddrInfo
local4 = record local6 { ai_family = af_inet; ai_addr = codes "0.0.0.0" }

abbrev busy4 : AddrInfo
busy4 = record local4 { ai_addr = codes "1.2.3.4" }

abbrev addrinfos : List AddrInfo
addrinfos = local6 ∷ unknown ∷ busy4 ∷ local4 ∷ []

-- the address of seven characters that starts with 1 cannot be bound
abbrev can_bind : Bytes → Bool
can_bind [] = true
can_bind (c ∷ rest) = not (c == b'1')

abbrev calls : SocketCalls
calls = record { socket = λ ai. some 4; setsockopt = λ s. true; bind = λ s ai. can_bind ai.ai_addr }

init_server-first_example : FirstOf calls (preferred addrinfos) (init_server calls (some addrinfos))
init_server-first_example = init_server-first calls addrinfos

init_server-opened_example :
    (init_server calls (some addrinfos)).opened
    ≡ with_socket [] (init_server calls (some addrinfos)).sockfd
init_server-opened_example = init_server-opened calls addrinfos (λ s. refl)

init_server_runs :
    (init_server calls (some addrinfos)
      ≡ record { sockfd = some 4; server_addrinfo = some local4; opened = 4 ∷ [] })
    × ((init_server calls none).sockfd ≡ some 1)
    × ((sockbind (record calls { setsockopt = λ s. false }) local4 []).opened ≡ 4 ∷ [])
unfolding init_server sockbind
init_server_runs = (refl, refl, refl)

choose_address-init_server_example :
    as_bound (choose_address calls addrinfos) ≡ init_server calls (some addrinfos)
choose_address-init_server_example = choose_address-init_server calls addrinfos

print_recvd_data-hex_dump_line_example :
    print_recvd_data (codes "ok") 8
    ≡ codes "recv()d " ++ (decimal 2 ++ (codes " bytes: " ++ hex_dump_line (codes "ok") 8))
print_recvd_data-hex_dump_line_example =
    print_recvd_data-hex_dump_line (codes "ok") 8 (omega arith, (omega arith, tt))

abbrev parts : List (ℕ × Bytes)
parts = (0, codes "GET /\r\n") ∷ (2, codes "ok") ∷ []

serve_client-shown_example :
    serve_client (results_of parts 1 []) (closes_after 1 closed []) ≡ record {
      output =
          codes "recv()ing data:\n"
          ++ ((shown parts ++ codes "recv() returned 0\n")
              ++ codes "Finished recv()\nclose()d the socket\n");
      closes = 2;
      ending = ended;
    }
serve_client-shown_example = serve_client-shown parts 1 [] 1 [] (omega arith, (omega arith, tt))

-- a byte from 128 on
print_runs :
    (print_recvd_data (codes "a\n") 3 ≡ codes "recv()d 2 bytes: a \\n   | 61 0A \n")
    × (print_recvd_data (255 ∷ []) 1 ≡ codes "recv()d 1 bytes: " ++ (255 ∷ codes "  | FFFFFFFF \n"))
unfolding print_recvd_data decimal
print_runs = (refl, refl)

read_dump-dump_data_example : read_dump 4 (dump_data (codes "hello\n") 4) ≡ codes "hello\n"
read_dump-dump_data_example =
    read_dump-dump_data 4 (codes "hello\n")
      (omega arith, (omega arith, (omega arith, (omega arith, (omega arith, (omega arith, tt))))))
      (omega arith) (omega arith)
