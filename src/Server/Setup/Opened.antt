-- ===== src/Server/Setup/Opened.antt =====
-- Which descriptors `init_server` leaves open.
use mimino.Base.{
  ℕ, true, List, [], ◌∷◌, Option, none, some, inl, inr, ◌==◌, ◌≡◌, refl, ap, ◌∙◌, ==_iff,
  Bool-cases, if_true,
}
use mimino.Server.Setup.{
  AddrInfo, SocketCalls, close_fd, bind_socket, sockbind, populate, Bound, tried, try_binding,
  or_ipv6, bind_any, init_server,
}

-- the descriptors that are open where a call returned this
abbrev pub with_socket : List ℕ → Option ℕ → List ℕ
with_socket opened none = opened
with_socket opened (some s) = s ∷ opened

closed_again : (s : ℕ) (opened : List ℕ) → close_fd s (s ∷ opened) ≡ opened
unfolding close_fd
closed_again s opened = if_true (s == s) _ _ ((==_iff s s).1 refl)

module _ (calls : SocketCalls) (sets : (s : ℕ) → calls.setsockopt s ≡ true) where
  bind_socket-opened :
      (ai : AddrInfo) (opened : List ℕ) (o : Option ℕ)
      → (bind_socket calls ai opened o).opened
        ≡ with_socket opened (bind_socket calls ai opened o).result
  unfolding bind_socket
  bind_socket-opened ai opened none = refl
  bind_socket-opened ai opened (some s) = elim (Bool-cases (calls.bind s ai)) [
    | inl e ↦ rw (sets s, e) refl
    | inr e ↦ rw (sets s, e) (closed_again s opened)
  ]

  tried-opened :
      (ai : AddrInfo) (opened : List ℕ) (others : Bound) (opened' : List ℕ) (o : Option ℕ)
      → opened' ≡ with_socket opened o
      → others.opened ≡ with_socket opened' others.sockfd
      → (tried ai opened' others o).opened ≡ with_socket opened (tried ai opened' others o).sockfd
  unfolding tried
  tried-opened ai opened others opened' none e h = h ∙ ap (λ l. with_socket l others.sockfd) e
  tried-opened ai opened others opened' (some s) e h = e

  try_binding-opened :
      (l : List AddrInfo) (opened : List ℕ)
      → (try_binding calls l opened).opened ≡ with_socket opened (try_binding calls l opened).sockfd
  unfolding try_binding sockbind
  try_binding-opened [] opened = refl
  try_binding-opened (ai ∷ rest) opened =
      tried-opened ai opened (try_binding calls rest (sockbind calls ai opened).opened)
        (sockbind calls ai opened).opened (sockbind calls ai opened).result
        (bind_socket-opened ai opened (calls.socket ai))
        (try_binding-opened rest (sockbind calls ai opened).opened)

  or_ipv6-opened :
      (l6 : List AddrInfo) (ipv4 : Bound) (o : Option ℕ)
      → ipv4.sockfd ≡ o
      → ipv4.opened ≡ with_socket [] ipv4.sockfd
      → (or_ipv6 calls l6 ipv4 o).opened ≡ with_socket [] (or_ipv6 calls l6 ipv4 o).sockfd
  unfolding or_ipv6
  or_ipv6-opened l6 ipv4 none e h =
      try_binding-opened l6 ipv4.opened
      ∙ ap (λ l. with_socket l (try_binding calls l6 ipv4.opened).sockfd)
          (h ∙ ap (with_socket []) e)
  or_ipv6-opened l6 ipv4 (some s) e h = h

-- Where `getaddrinfo` returns addresses and no `setsockopt` fails, the descriptors that `init_server`
-- leaves open are the one that it returns and no other.
pub init_server-opened :
    (calls : SocketCalls) (addrinfos : List AddrInfo)
    → ((s : ℕ) → calls.setsockopt s ≡ true)
    → (init_server calls (some addrinfos)).opened
      ≡ with_socket [] (init_server calls (some addrinfos)).sockfd
unfolding init_server bind_any
init_server-opened calls addrinfos sets =
    let infos = populate (record { ipv4_addrinfos = []; ipv6_addrinfos = [] }) addrinfos in
    or_ipv6-opened calls sets infos.ipv6_addrinfos (try_binding calls infos.ipv4_addrinfos []) _
      refl (try_binding-opened calls sets infos.ipv4_addrinfos [])
