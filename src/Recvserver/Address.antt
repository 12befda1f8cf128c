-- ===== src/Recvserver/Address.antt =====
-- The address of recvserver.c against that of mimino.c.
use mimino.Base.{ℕ, List, [], ◌∷◌, Option, none, some, ◌≡◌, refl, ap, ◌∙◌}
use mimino.Server.Setup.{
  AddrInfo, SocketCalls, sockbind, populate, Bound, tried, try_binding, or_ipv6, bind_any,
  init_server,
}
use mimino.Recvserver.{Chosen, try_next, try_addrinfos, unless_chosen, choose_address}

-- the same result, under the names of mimino.c
abbrev pub as_bound : Chosen → Bound
as_bound c = record { sockfd = c.sockfd; server_addrinfo = c.chosen_addrinfo; opened = c.opened }

next_tried :
    (ai : AddrInfo) (opened : List ℕ) (others : Chosen) (others' : Bound) (o : Option ℕ)
    → as_bound others ≡ others'
    → as_bound (try_next ai opened others o) ≡ tried ai opened others' o
unfolding try_next tried
next_tried ai opened others others' none e = e
next_tried ai opened others others' (some s) e = refl

try_addrinfos-try_binding :
    (calls : SocketCalls) (l : List AddrInfo) (opened : List ℕ)
    → as_bound (try_addrinfos calls l opened) ≡ try_binding calls l opened
unfolding try_addrinfos try_binding
try_addrinfos-try_binding calls [] opened = refl
try_addrinfos-try_binding calls (ai ∷ rest) opened =
    next_tried ai (sockbind calls ai opened).opened _ _ (sockbind calls ai opened).result
      (try_addrinfos-try_binding calls rest (sockbind calls ai opened).opened)

-- An address is chosen exactly where there is a socket.
data Both : Chosen → Type 0 where
  neither :
      (opened : List ℕ) → Both (record { sockfd = none; chosen_addrinfo = none; opened = opened })
  both :
      (s : ℕ) (ai : AddrInfo) (opened : List ℕ)
      → Both (record { sockfd = some s; chosen_addrinfo = some ai; opened = opened })

next-Both :
    (ai : AddrInfo) (opened : List ℕ) (others : Chosen) (o : Option ℕ)
    → Both others
    → Both (try_next ai opened others o)
unfolding try_next
next-Both ai opened others none h = h
next-Both ai opened others (some s) h = both s ai opened

try_addrinfos-Both :
    (calls : SocketCalls) (l : List AddrInfo) (opened : List ℕ)
    → Both (try_addrinfos calls l opened)
unfolding try_addrinfos
try_addrinfos-Both calls [] opened = neither opened
try_addrinfos-Both calls (ai ∷ rest) opened =
    next-Both ai (sockbind calls ai opened).opened _ (sockbind calls ai opened).result
      (try_addrinfos-Both calls rest (sockbind calls ai opened).opened)

unless_chosen-or_ipv6 :
    (calls : SocketCalls) (l : List AddrInfo) (ipv4 : Chosen)
    → Both ipv4
    → as_bound (unless_chosen calls l ipv4 ipv4.chosen_addrinfo)
      ≡ or_ipv6 calls l (as_bound ipv4) ipv4.sockfd
unfolding unless_chosen or_ipv6
unless_chosen-or_ipv6 calls l _ (neither opened) = try_addrinfos-try_binding calls l opened
unless_chosen-or_ipv6 calls l _ (both s ai opened) = refl

-- For the same addresses, and where the calls on sockets return the same, recvserver.c chooses the
-- address that mimino.c chooses, with the same socket, and leaves the same descriptors open: its test
-- of `chosen_addrinfo` does what the flag `bound` does.
pub choose_address-init_server :
    (calls : SocketCalls) (addrinfos : List AddrInfo)
    → as_bound (choose_address calls addrinfos) ≡ init_server calls (some addrinfos)
unfolding choose_address init_server bind_any
choose_address-init_server calls addrinfos =
    let infos = populate (record { ipv4_addrinfos = []; ipv6_addrinfos = [] }) addrinfos in
    unless_chosen-or_ipv6 calls infos.ipv6_addrinfos (try_addrinfos calls infos.ipv4_addrinfos [])
      (try_addrinfos-Both calls infos.ipv4_addrinfos [])
    ∙ ap (λ r. or_ipv6 calls infos.ipv6_addrinfos r r.sockfd)
        (try_addrinfos-try_binding calls infos.ipv4_addrinfos [])
