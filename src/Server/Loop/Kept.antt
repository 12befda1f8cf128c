-- ===== src/Server/Loop/Kept.antt =====
-- The queue between two steps of the main loop, and the step of one connection on it.
use mimino.Base.{
  if_true, if_false, ℕ, ◌+◌, ◌<◌, ◌⊎◌, inl, inr, List, Option, none, some, ◌≡◌, ap, ◌∙◌, arith, set,
  length, get_elem?, length-set, Bool-cases, if◌then◌else◌, >>=-some,
}
use mimino.Server.Types.{PollEvents, PollFd, Connection, PollQueue}
use mimino.Server.Pool.{read, write, close_connection}
use mimino.Server.Pool.Slots.{Filled, swap_remove, length-swap_remove, write-front, read-front}
use mimino.Server.Pool.Refine.{Live, close_connection-Live}
use mimino.Server.Conn.{World, After, do_state}
use mimino.Server.Conn.Ready.{Ready, Settled}
use mimino.Server.Loop.{store, serve_from, poll_from}
use mimino.Server.Loop.Entries.{
  AllReady, OthersReady, set-OthersReady, set-AllReady, swap_remove-AllReady,
}

-- The queue is live, its first entry is there, and every other is ready.
pub record Kept (max_fds : ℕ) (q : PollQueue) : Type 0 where
  pub fds : List PollFd
  pub conns : List Connection
  pub live : Live max_fds q fds conns
  pub listens : 0 < length conns
  pub ready : AllReady fds conns

-- The loop from place `i` on faults in the step of a connection of the queue: `n` connections are served,
-- which leaves the queue `q'`, and the next one in it is ready, with the events that `poll` has reported,
-- and its step returns nothing.
abbrev pub Faults : (ℕ → World) → PollQueue → ℕ → Option PollQueue → Type 0
Faults worlds q i o =
    (n : ℕ) × (q' : PollQueue) × (pfd : PollFd) × (conn : Connection) × (serve_from n worlds q i
      ≡ some q')
    × (i + n < q'.n_conns)
    × (read q'.pollfds (i + n) ≡ some pfd)
    × (read q'.conns (i + n) ≡ some conn)
    × Ready pfd conn
    × (do_state conn.state (worlds (i + n)) pfd conn ≡ none)
    × (o ≡ none)

-- the queue with the events that `poll` reports
abbrev pub polled_queue : (ℕ → PollEvents) → PollQueue → PollQueue
polled_queue events queue = record queue {
  pollfds = poll_from events 0 queue.n_conns queue.pollfds;
}

-- what becomes of a queue
abbrev pub Outcome : (ℕ → World) → ℕ → PollQueue → ℕ → Option PollQueue → Type 0
Outcome worlds max_fds q i o =
    ((q' : PollQueue) × (o ≡ some q') × Kept max_fds q') ⊎ Faults worlds q i o

pub read-Filled :
    {A : Type 0} {slots : List (Option A)} {n : ℕ} (xs : List A) (i : ℕ)
    → Filled slots n xs
    → i < length xs
    → (a : A) × (read slots i ≡ some a) × (get_elem? xs i ≡ some a)
read-Filled xs i f h =
    let (a, e, g) = read-front xs f.junk i h in (a, ap (λ s. read s i) f.layout ∙ e, g)

-- The entries at a place replaced.
set-Live :
    {max_fds : ℕ} {q : PollQueue} {fds : List PollFd} {conns : List Connection} (i : ℕ)
    (pfd : PollFd) (conn : Connection) {ps : List (Option PollFd)} {cs : List (Option Connection)}
    → Live max_fds q fds conns
    → Filled ps q.n_conns_alloc (set fds i pfd)
    → Filled cs q.n_conns_alloc (set conns i conn)
    → Live max_fds (record q { conns = cs; pollfds = ps }) (set fds i pfd) (set conns i conn)
set-Live {fds = fds} {conns = conns} i pfd conn l f g = record {
  same = omega (arith, l.same, length-set fds i pfd, length-set conns i conn);
  count = omega (arith, l.count, length-set conns i conn);
  room = omega (arith, l.room, length-set conns i conn);
  some_room = l.some_room;
  limit = l.limit;
  pollfds_filled = f;
  conns_filled = g;
}

module _ {max_fds : ℕ} {q : PollQueue} (fds : List PollFd) (conns : List Connection) (i : ℕ) where
  pub store-Kept :
      (a : After)
      → Live max_fds q fds conns
      → 0 < i
      → i < length conns
      → OthersReady i fds conns
      → Settled a
      → (q' : PollQueue) × (store q i a ≡ some q') × Kept max_fds q'
  unfolding store
  store-Kept a l first inside others settled =
      let (cs, e, f) = write-front conns i a.conn l.conns_filled inside in
      let (ps, e', f') = write-front fds i a.pfd l.pollfds_filled (omega (arith, l.same)) in
      let q₁ : PollQueue = record q { conns = cs; pollfds = ps } in
      let l₁ = set-Live i a.pfd a.conn l f' f in
      let others₁ = set-OthersReady fds conns i a.pfd a.conn others in
      let inside₁ : i < length (set conns i a.conn) = omega (arith, length-set conns i a.conn) in
      let reach : (q' : PollQueue)
          → (if a.closes then close_connection q₁ i else some q₁) ≡ some q'
          → store q i a ≡ some q' =
        λ q' g. >>=-some (write q.conns i a.conn) _ e (>>=-some (write q.pollfds i a.pfd) _ e' g) in
      elim (Bool-cases a.closes) [
        | inl c ↦
            let (q', g, l') = close_connection-Live i l₁ inside₁ in
            (
              q',
              reach q' (if_true a.closes _ _ c ∙ g),
              record {
                fds = swap_remove (set fds i a.pfd) i;
                conns = swap_remove (set conns i a.conn) i;
                live = l';
                listens = omega (arith, length-swap_remove (set conns i a.conn) i inside₁);
                ready =
                    swap_remove-AllReady (set fds i a.pfd) (set conns i a.conn) i l₁.same first
                      inside₁ others₁;
              },
            )
        | inr c ↦ (
          q₁,
          reach q₁ (if_false a.closes _ _ c),
          record {
            fds = set fds i a.pfd;
            conns = set conns i a.conn;
            live = l₁;
            listens = omega arith;
            ready = elim settled [
              | inl t ↦ absurd cc
              | inr r ↦
                  set-AllReady fds conns i a.pfd a.conn (omega (arith, l.same)) inside others r
            ];
          },
        )
      ]
