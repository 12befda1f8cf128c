-- ===== src/Server/Pool/Bag.antt =====
-- The pool of connections as a bag of entries: what a caller knows of it, when closing a connection
-- has moved another one to its place.
use mathlib.Core.List.{Permᴰ}
use mathlib.Core.List.Permᴰ
use mathlib.Core.Option.{some-injective}
use mathlib.Core.Quot
use mathlib.Core.Quot.{Quot, Quot-set}
use mimino.Base.{
  ℕ, zero, suc, ◌-◌, ◌<◌, List, [], ◌∷◌, ◌++◌, some, ◌≡◌, refl, sym, ap, ◌∙◌, arith, length, take,
  get_elem?, set,
}
use mimino.Server.Types.{PollFd, Connection, PollQueue}
use mimino.Server.Pool.{new_pollfd, make_connection, serv_add_connection, close_connection}
use mimino.Server.Pool.Removed.{swap_remove-Perm}
use mimino.Server.Pool.Slots.{swap_remove, swap_remove-eq, last_of}
use mimino.Server.Pool.Refine.{Live, serv_add_connection-Live, close_connection-Live}

abbrev pub Entry : Type 0
Entry = PollFd × Connection

-- the entries of the two arrays, place by place
abbrev pub entries : List PollFd → List Connection → List Entry
entries (p ∷ fds) (c ∷ conns) = (p, c) ∷ entries fds conns
entries (p ∷ fds) [] = []
entries [] conns = []

-- The entries of a pool without their order: lists that are permutations of each other are equal.
abbrev pub Bag : Type 0
Bag = Quot {α = List Entry} (λ xs ys. Permᴰ xs ys)

abbrev pub bag : List PollFd → List Connection → Bag
bag fds conns = Quot.mk (entries fds conns)

-- a bag with one more entry
abbrev pub add : Entry → Bag → Bag
add e = Quot.lift Quot-set (λ xs. Quot.mk (e ∷ xs)) (λ xs ys h. Quot.sound (Permᴰ.cons refl h))

length-entries :
    (fds : List PollFd) (conns : List Connection)
    → length fds ≡ length conns
    → length (entries fds conns) ≡ length conns
length-entries [] [] h = refl
length-entries [] (c ∷ conns) h = absurd (omega arith)
length-entries (p ∷ fds) [] h = refl
length-entries (p ∷ fds) (c ∷ conns) h = ap suc (length-entries fds conns (omega arith))

get-entries :
    (fds : List PollFd) (conns : List Connection) (i : ℕ) (p : PollFd) (c : Connection)
    → get_elem? fds i ≡ some p
    → get_elem? conns i ≡ some c
    → get_elem? (entries fds conns) i ≡ some (p, c)
get-entries [] conns i p c e g = absurd cc
get-entries (p' ∷ fds) [] i p c e g = absurd cc
get-entries (p' ∷ fds) (c' ∷ conns) zero p c e g =
    ap (λ x. some (x, c')) (some-injective p' p e) ∙ ap (λ x. some (p, x)) (some-injective c' c g)
get-entries (p' ∷ fds) (c' ∷ conns) (suc i) p c e g = get-entries fds conns i p c e g

set-entries :
    (fds : List PollFd) (conns : List Connection) (i : ℕ) (p : PollFd) (c : Connection)
    → entries (set fds i p) (set conns i c) ≡ set (entries fds conns) i (p, c)
set-entries [] conns i p c = refl
set-entries (p' ∷ fds) [] zero p c = refl
set-entries (p' ∷ fds) [] (suc i) p c = refl
set-entries (p' ∷ fds) (c' ∷ conns) zero p c = refl
set-entries (p' ∷ fds) (c' ∷ conns) (suc i) p c = ap ((p', c') ∷◌) (set-entries fds conns i p c)

take-entries :
    (n : ℕ) (fds : List PollFd) (conns : List Connection)
    → entries (take n fds) (take n conns) ≡ take n (entries fds conns)
take-entries zero fds conns = refl
take-entries (suc n) [] conns = refl
take-entries (suc n) (p ∷ fds) [] = refl
take-entries (suc n) (p ∷ fds) (c ∷ conns) = ap ((p, c) ∷◌) (take-entries n fds conns)

append-entries :
    (fds : List PollFd) (conns : List Connection) (p : PollFd) (c : Connection)
    → length fds ≡ length conns
    → entries (fds ++ (p ∷ [])) (conns ++ (c ∷ [])) ≡ entries fds conns ++ ((p, c) ∷ [])
append-entries [] [] p c h = refl
append-entries [] (c' ∷ conns) p c h = absurd (omega arith)
append-entries (p' ∷ fds) [] p c h = absurd (omega arith)
append-entries (p' ∷ fds) (c' ∷ conns) p c h =
    ap ((p', c') ∷◌) (append-entries fds conns p c (omega arith))

-- Both arrays move their last item to the same place, so the entries stay whole.
swap_remove-entries :
    (fds : List PollFd) (conns : List Connection) (i : ℕ)
    → length fds ≡ length conns
    → 0 < length conns
    → entries (swap_remove fds i) (swap_remove conns i) ≡ swap_remove (entries fds conns) i
swap_remove-entries fds conns i same some_conn =
    let n = length conns - 1 in
    let (p, e) = last_of fds (omega (arith, same)) in
    let (c, g) = last_of conns some_conn in
    let count = length-entries fds conns same in
    let e' : get_elem? fds n ≡ some p = ap (λ k. get_elem? fds (k - 1)) (sym same) ∙ e in
    let last : get_elem? (entries fds conns) (length (entries fds conns) - 1) ≡ some (p, c) =
      ap (λ k. get_elem? (entries fds conns) (k - 1)) count ∙ get-entries fds conns n p c e' g in
    ap (λ l. entries l (swap_remove conns i))
      (swap_remove-eq fds i p e ∙ ap (λ k. take (k - 1) (set fds i p)) same)
    ∙ ap (entries (take n (set fds i p))) (swap_remove-eq conns i c g)
    ∙ take-entries n (set fds i p) (set conns i c)
    ∙ ap (take n) (set-entries fds conns i p c)
    ∙ ap (λ k. take (k - 1) (set (entries fds conns) i (p, c))) (sym count)
    ∙ sym (swap_remove-eq (entries fds conns) i (p, c) last)

module _ {max_fds : ℕ} {q : PollQueue} {fds : List PollFd} {conns : List Connection} where
  -- Closing the connection at a place of a live queue stays inside the two arrays and leaves a live
  -- queue whose entries, in some order, are those before without the one at this place: no other
  -- descriptor and no other connection is lost, doubled, or parted from its partner.
  pub close_connection-Bag :
      (i : ℕ) (p : PollFd) (c : Connection)
      → Live max_fds q fds conns
      → get_elem? fds i ≡ some p
      → get_elem? conns i ≡ some c
      → i < length conns
      → (q' : PollQueue) × (fds' : List PollFd) × (conns' : List Connection) × (close_connection q i
          ≡ some q')
        × Live max_fds q' fds' conns'
        × (bag fds conns ≡ add (p, c) (bag fds' conns'))
  close_connection-Bag i p c l e g h =
      let (q', closed, l') = close_connection-Live i l h in
      (
        q',
        swap_remove fds i,
        swap_remove conns i,
        closed,
        l',
        sym (
            ap (λ x. add (p, c) (Quot.mk x)) (swap_remove-entries fds conns i l.same (omega arith))
            ∙ Quot.sound (
                swap_remove-Perm (entries fds conns) i (p, c)
                  (omega (arith, length-entries fds conns l.same))
                  (get-entries fds conns i p c e g))),
      )

  -- Adding a connection to a live queue below the limit of descriptors stays inside the two arrays and
  -- leaves a live queue whose entries, in some order, are those before and the new one.
  pub serv_add_connection-Bag :
      (time_now newsock : ℕ)
      → Live max_fds q fds conns
      → length conns < max_fds
      → (q' : PollQueue) × (fds' : List PollFd) × (conns' : List Connection) × (serv_add_connection
            max_fds time_now q newsock
          ≡ some q')
        × Live max_fds q' fds' conns'
        × (bag fds' conns'
            ≡ add (new_pollfd newsock, make_connection (some newsock) time_now) (bag fds conns))
  serv_add_connection-Bag time_now newsock l h =
      let (q', added, l') = serv_add_connection-Live time_now newsock l h in
      let p = new_pollfd newsock in
      let c = make_connection (some newsock) time_now in
      (
        q',
        fds ++ (p ∷ []),
        conns ++ (c ∷ []),
        added,
        l',
        ap Quot.mk (append-entries fds conns p c l.same)
            ∙ Quot.sound (Permᴰ.append_comm (entries fds conns) ((p, c) ∷ [])),
      )
