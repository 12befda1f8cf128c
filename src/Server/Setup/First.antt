-- ===== src/Server/Setup/First.antt =====
-- Which address `init_server` binds.
use mathlib.Core.Path.{subst}
use mimino.Base.{
  ℕ, Bool, true, false, ◌&&◌, List, [], ◌∷◌, ◌++◌, Option, none, some, ◌>>=◌, if◌then◌else◌, ◌≡◌,
  refl, sym, ap, ◌∙◌, ◌⊎◌, inl, inr, All, All-append, append-nil, append_assoc,
}
use mimino.Server.Setup.{
  AddressFamily, af_inet, af_inet6, other_family, AddrInfo, SocketCalls, Attempt, close_fd,
  bind_socket, sockbind, AddrInfos, add_addrinfo, populate, Bound, tried, or_ipv6, try_binding,
  bind_any, init_server,
}

-- the addresses of one family, in their order
abbrev pub of_family : (AddressFamily → Bool) → List AddrInfo → List AddrInfo
of_family test [] = []
of_family test (ai ∷ rest) =
    if test ai.ai_family then ai ∷ of_family test rest else of_family test rest

abbrev pub is_ipv4 : AddressFamily → Bool
is_ipv4 af_inet = true
is_ipv4 af_inet6 = false
is_ipv4 (other_family n) = false

abbrev pub is_ipv6 : AddressFamily → Bool
is_ipv6 af_inet = false
is_ipv6 af_inet6 = true
is_ipv6 (other_family n) = false

-- the addresses in the order in which they should be tried
abbrev pub preferred : List AddrInfo → List AddrInfo
preferred l = of_family is_ipv4 l ++ of_family is_ipv6 l

-- the socket that can be bound to an address, where all of the calls succeed
abbrev pub socket_for : SocketCalls → AddrInfo → Option ℕ
socket_for calls ai =
    calls.socket ai >>= λ s. if calls.setsockopt s && calls.bind s ai then some s else none

-- The first of the addresses that can be bound is the one that was chosen; or there is none.
abbrev pub FirstOf : SocketCalls → List AddrInfo → Bound → Type 0
FirstOf calls l r =
    ((r.sockfd ≡ none) × (r.server_addrinfo ≡ none) × All (λ ai. socket_for calls ai ≡ none) l)
    ⊎ ((before : List AddrInfo) × (ai : AddrInfo) × (after : List AddrInfo) × (s : ℕ) × (l
          ≡ before ++ (ai ∷ after))
        × All (λ a. socket_for calls a ≡ none) before
        × (socket_for calls ai ≡ some s)
        × (r.sockfd ≡ some s)
        × (r.server_addrinfo ≡ some ai))

abbrev attempt_of : Option ℕ → List ℕ → Attempt
attempt_of result opened = record { result = result; opened = opened }

abbrev infos_of : List AddrInfo → List AddrInfo → AddrInfos
infos_of ipv4 ipv6 = record { ipv4_addrinfos = ipv4; ipv6_addrinfos = ipv6 }

either_result :
    (a b : Bool) (s : ℕ) (kept closed left : List ℕ)
    → (if a
        then (if b then attempt_of (some s) kept else attempt_of none closed)
        else attempt_of none left).result
      ≡ (if a && b then some s else none)
either_result true true s kept closed left = refl
either_result true false s kept closed left = refl
either_result false b s kept closed left = refl

socket_result :
    (calls : SocketCalls) (ai : AddrInfo) (opened : List ℕ) (o : Option ℕ)
    → (bind_socket calls ai opened o).result
      ≡ (o >>= λ s. if calls.setsockopt s && calls.bind s ai then some s else none)
unfolding bind_socket
socket_result calls ai opened none = refl
socket_result calls ai opened (some s) =
    either_result (calls.setsockopt s) (calls.bind s ai) s (s ∷ opened) (close_fd s (s ∷ opened))
      (s ∷ opened)

sockbind-result :
    (calls : SocketCalls) (ai : AddrInfo) (opened : List ℕ)
    → (sockbind calls ai opened).result ≡ socket_for calls ai
unfolding sockbind
sockbind-result calls ai opened = socket_result calls ai opened (calls.socket ai)

-- one address, of any family
populate_step :
    (f : AddressFamily) (infos : AddrInfos) (rp : AddrInfo) (l4 l6 : List AddrInfo)
    → infos_of
        ((add_addrinfo infos rp f).ipv4_addrinfos ++ l4)
        ((add_addrinfo infos rp f).ipv6_addrinfos ++ l6)
      ≡ infos_of
          (infos.ipv4_addrinfos ++ (if is_ipv4 f then rp ∷ l4 else l4))
          (infos.ipv6_addrinfos ++ (if is_ipv6 f then rp ∷ l6 else l6))
unfolding add_addrinfo
populate_step af_inet infos rp l4 l6 =
    ap (λ l. infos_of l (infos.ipv6_addrinfos ++ l6))
      (append_assoc infos.ipv4_addrinfos (rp ∷ []) l4)
populate_step af_inet6 infos rp l4 l6 =
    ap (infos_of (infos.ipv4_addrinfos ++ l4)) (append_assoc infos.ipv6_addrinfos (rp ∷ []) l6)
populate_step (other_family n) infos rp l4 l6 = refl

populate-infos :
    (infos : AddrInfos) (l : List AddrInfo)
    → populate infos l
      ≡ infos_of
          (infos.ipv4_addrinfos ++ of_family is_ipv4 l)
          (infos.ipv6_addrinfos ++ of_family is_ipv6 l)
unfolding populate add_addrinfo
populate-infos infos [] =
    ap (λ l. infos_of l infos.ipv6_addrinfos) (sym (append-nil infos.ipv4_addrinfos))
    ∙ ap (infos_of (infos.ipv4_addrinfos ++ [])) (sym (append-nil infos.ipv6_addrinfos))
populate-infos infos (rp ∷ rest) =
    populate-infos (add_addrinfo infos rp rp.ai_family) rest
    ∙ populate_step rp.ai_family infos rp (of_family is_ipv4 rest) (of_family is_ipv6 rest)

-- the loop's body
tried-first :
    (calls : SocketCalls) (ai : AddrInfo) (rest : List AddrInfo) (opened : List ℕ) (others : Bound)
    (o : Option ℕ)
    → o ≡ socket_for calls ai
    → FirstOf calls rest others
    → FirstOf calls (ai ∷ rest) (tried ai opened others o)
unfolding tried
tried-first calls ai rest opened others none e (inl (h, k, all)) = inl (h, k, (sym e, all))
tried-first calls ai rest opened others none e (inr (before, a, after, s, l, all, has, h, k)) =
    inr (ai ∷ before, a, after, s, ap (ai ∷◌) l, (sym e, all), has, h, k)
tried-first calls ai rest opened others (some s) e h =
    inr ([], ai, rest, s, refl, tt, sym e, refl, refl)

try_binding-first :
    (calls : SocketCalls) (l : List AddrInfo) (opened : List ℕ)
    → FirstOf calls l (try_binding calls l opened)
unfolding try_binding
try_binding-first calls [] opened = inl (refl, refl, tt)
try_binding-first calls (ai ∷ rest) opened =
    tried-first calls ai rest (sockbind calls ai opened).opened
      (try_binding calls rest (sockbind calls ai opened).opened) (sockbind calls ai opened).result
      (sockbind-result calls ai opened)
      (try_binding-first calls rest (sockbind calls ai opened).opened)

-- the IPv6 addresses behind the IPv4 ones
or_ipv6-first :
    (calls : SocketCalls) (l4 l6 : List AddrInfo) (ipv4 : Bound) (o : Option ℕ)
    → ipv4.sockfd ≡ o
    → FirstOf calls l4 ipv4
    → FirstOf calls (l4 ++ l6) (or_ipv6 calls l6 ipv4 o)
unfolding or_ipv6
or_ipv6-first calls l4 l6 ipv4 none e (inl (h, k, all)) =
    elim (try_binding-first calls l6 ipv4.opened) [
      | inl (h', k', all') ↦
          inl (h', k', All-append (λ a. socket_for calls a ≡ none) l4 l6 all all')
      | inr (before, a, after, s, l, all', has, h', k') ↦ inr (
        l4 ++ before,
        a,
        after,
        s,
        ap (l4 ++◌) l ∙ sym (append_assoc l4 before (a ∷ after)),
        All-append (λ a. socket_for calls a ≡ none) l4 before all all',
        has,
        h',
        k',
      )
    ]
or_ipv6-first calls l4 l6 ipv4 none e (inr (before, a, after, s, l, all, has, h, k)) =
    absurd (cc (e, h))
or_ipv6-first calls l4 l6 ipv4 (some s) e (inl (h, k, all)) = absurd (cc (e, h))
or_ipv6-first calls l4 l6 ipv4 (some s) e (inr (before, a, after, s', l, all, has, h, k)) = inr (
  before,
  a,
  after ++ l6,
  s',
  ap (λ m. m ++ l6) l ∙ append_assoc before (a ∷ after) l6,
  all,
  has,
  h,
  k,
)

-- `init_server` returns the socket of the first address that can be bound, and copies this address,
-- where the IPv4 addresses stand before the IPv6 ones and those of other families are passed over;
-- and it returns -1 where none can be bound. `getaddrinfo` returns the addresses.
pub init_server-first :
    (calls : SocketCalls) (addrinfos : List AddrInfo)
    → FirstOf calls (preferred addrinfos) (init_server calls (some addrinfos))
unfolding init_server bind_any
init_server-first calls addrinfos =
    subst
      (λ infos. FirstOf calls (preferred addrinfos) (
        or_ipv6 calls infos.ipv6_addrinfos (try_binding calls infos.ipv4_addrinfos [])
          (try_binding calls infos.ipv4_addrinfos []).sockfd))
      (sym (populate-infos (infos_of [] []) addrinfos))
      (or_ipv6-first calls (of_family is_ipv4 addrinfos) (of_family is_ipv6 addrinfos)
        (try_binding calls (of_family is_ipv4 addrinfos) []) _ refl
        (try_binding-first calls (of_family is_ipv4 addrinfos) []))
