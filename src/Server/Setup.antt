-- ===== src/Server/Setup.antt =====
-- mimino.c: `sockbind` and `init_server`, and the start of `main` up to the listening socket's entry of
-- the pool. What `getaddrinfo` and the calls on sockets return is a parameter. The results keep the
-- descriptors that are left open. `none` is the -1 of a result that is a descriptor.
pub mod First
pub mod Opened
use mimino.Base.{
  ℕ, Bool, true, false, Bytes, List, [], ◌∷◌, ◌++◌, Option, none, some, ◌>>=◌, ◌==◌, if◌then◌else◌,
}
use mimino.Server.Types.{PollQueue}
use mimino.Server.Pool.{listen_pool}

-- `ai_family`
pub data AddressFamily : Type 0 where
  af_inet af_inet6 : AddressFamily
  other_family : ℕ → AddressFamily

-- an address that `getaddrinfo` returns; `ai_next` is the order of the list
pub record AddrInfo : Type 0 where
  pub ai_family : AddressFamily
  pub ai_socktype : ℕ
  pub ai_protocol : ℕ
  pub ai_addr : Bytes

-- What the calls return for an address of the list: `socket` a descriptor or -1, `setsockopt` and `bind`
-- whether they succeed.
pub record SocketCalls : Type 0 where
  pub socket : AddrInfo → Option ℕ
  pub setsockopt : ℕ → Bool
  pub bind : ℕ → AddrInfo → Bool

-- what `sockbind` returns, and the descriptors that are open behind it
pub record Attempt : Type 0 where
  pub result : Option ℕ
  pub opened : List ℕ

unfoldable pub close_fd : ℕ → List ℕ → List ℕ
close_fd s [] = []
close_fd s (t ∷ opened) = if s == t then opened else t ∷ close_fd s opened

-- `sockbind` behind `socket`, with its result
unfoldable pub bind_socket : SocketCalls → AddrInfo → List ℕ → Option ℕ → Attempt
unfolding close_fd
bind_socket calls ai opened none = record { result = none; opened = opened }
bind_socket calls ai opened (some s) =
    if calls.setsockopt s
    then (if calls.bind s ai
        then record { result = some s; opened = s ∷ opened }
        else record { result = none; opened = close_fd s (s ∷ opened) })
    else record { result = none; opened = s ∷ opened }

unfoldable pub sockbind : SocketCalls → AddrInfo → List ℕ → Attempt
unfolding bind_socket
sockbind calls ai opened = bind_socket calls ai opened (calls.socket ai)

-- `ipv4_addrinfos` and `ipv6_addrinfos`
pub record AddrInfos : Type 0 where
  pub ipv4_addrinfos : List AddrInfo
  pub ipv6_addrinfos : List AddrInfo

-- the `switch` of the loop that fills the two arrays
unfoldable pub add_addrinfo : AddrInfos → AddrInfo → AddressFamily → AddrInfos
add_addrinfo infos rp af_inet = record infos { ipv4_addrinfos = infos.ipv4_addrinfos ++ (rp ∷ []) }
add_addrinfo infos rp af_inet6 = record infos { ipv6_addrinfos = infos.ipv6_addrinfos ++ (rp ∷ []) }
add_addrinfo infos rp (other_family n) = infos

unfoldable pub populate : AddrInfos → List AddrInfo → AddrInfos
unfolding add_addrinfo
populate infos [] = infos
populate infos (rp ∷ rest) = populate (add_addrinfo infos rp rp.ai_family) rest

-- What a loop that tries addresses leaves: `sockfd` where `bound` is 1, what was copied to
-- `server_addrinfo`, and the open descriptors.
pub record Bound : Type 0 where
  pub sockfd : Option ℕ
  pub server_addrinfo : Option AddrInfo
  pub opened : List ℕ

-- the loop's body behind `sockbind`, which returned this, with what the rest of the loop would leave
unfoldable pub tried : AddrInfo → List ℕ → Bound → Option ℕ → Bound
tried ai opened others none = others
tried ai opened others (some s) = record {
  sockfd = some s;
  server_addrinfo = some ai;
  opened = opened;
}

-- "Try binding to" one of the arrays
unfoldable pub try_binding : SocketCalls → List AddrInfo → List ℕ → Bound
unfolding sockbind tried
try_binding calls [] opened = record { sockfd = none; server_addrinfo = none; opened = opened }
try_binding calls (ai ∷ rest) opened =
    let attempt = sockbind calls ai opened in
    tried ai attempt.opened (try_binding calls rest attempt.opened) attempt.result

-- "if (!bound)"
unfoldable pub or_ipv6 : SocketCalls → List AddrInfo → Bound → Option ℕ → Bound
unfolding try_binding
or_ipv6 calls ipv6_addrinfos ipv4 none = try_binding calls ipv6_addrinfos ipv4.opened
or_ipv6 calls ipv6_addrinfos ipv4 (some s) = ipv4

-- `init_server` behind `getaddrinfo`
unfoldable pub bind_any : SocketCalls → List AddrInfo → Bound
unfolding populate try_binding or_ipv6
bind_any calls addrinfos =
    let infos = populate (record { ipv4_addrinfos = []; ipv6_addrinfos = [] }) addrinfos in
    let ipv4 = try_binding calls infos.ipv4_addrinfos [] in
    or_ipv6 calls infos.ipv6_addrinfos ipv4 ipv4.sockfd

-- `init_server`, which returns 1 where `getaddrinfo` fails; `none` is a failure of `getaddrinfo`
unfoldable pub init_server : SocketCalls → Option (List AddrInfo) → Bound
unfolding bind_any
init_server calls none = record { sockfd = some 1; server_addrinfo = none; opened = [] }
init_server calls (some addrinfos) = bind_any calls addrinfos

-- `main` from `init_server` to the listening socket's entry; `none` is the exit with 1, and
-- `listens` whether `listen` succeeds on a descriptor
unfoldable start_listening :
    SocketCalls → (ℕ → Bool) → Option (List AddrInfo) → ℕ → ℕ → Option PollQueue
unfolding init_server listen_pool
start_listening calls listens addrinfos max_fds time_now = do
  listen_sock ← (init_server calls addrinfos).sockfd
  if listens listen_sock then listen_pool max_fds time_now listen_sock else none

-- `accept_new_conn`: what it returns, and the descriptor for which it sets O_NONBLOCK, which is that of
-- `accept` also where `accept` has failed
pub record Accepted : Type 0 where
  pub newsock : Option ℕ
  pub set_nonblock : Option ℕ

-- `accepted` is what `accept` returns.
unfoldable pub accept_new_conn : Option ℕ → Accepted
accept_new_conn accepted = record { newsock = accepted; set_nonblock = accepted }
