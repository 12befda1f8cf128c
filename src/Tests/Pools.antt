-- ===== src/Tests/Pools.antt =====
-- The queue of connections.
use mimino.Base.{List, [], ◌∷◌, ◌++◌, ◌≡◌, some, none, refl, arith, map, ◌>>=◌}
use mimino.Server.Types.{PollFd, Connection, PollQueue}
use mimino.Server.Pool.{
  new_pollfd, make_connection, resize_for, add_at, serv_add_connection, downsize, remove_at,
  close_connection,
}
use mimino.Server.Pool.Slots.{swap_remove}
use mimino.Server.Pool.Refine.{Live}
use mimino.Server.Pool.Bag.{bag, add, close_connection-Bag, serv_add_connection-Bag}

-- the sockets 4, 5 and 6, all of them added at the time 7
abbrev three_fds : List PollFd
three_fds = new_pollfd 4 ∷ new_pollfd 5 ∷ new_pollfd 6 ∷ []

abbrev three_conns : List Connection
three_conns =
    make_connection (some 4) 7 ∷ make_connection (some 5) 7 ∷ make_connection (some 6) 7 ∷ []

abbrev three : PollQueue
three = record {
  pollfds = map some three_fds ++ (none ∷ []);
  conns = map some three_conns ++ (none ∷ []);
  n_conns = 3;
  n_conns_alloc = 4;
}

three-Live : Live 6 three three_fds three_conns
three-Live = record {
  same = refl;
  count = refl;
  room = omega arith;
  some_room = omega arith;
  limit = omega arith;
  pollfds_filled = record { junk = none ∷ []; layout = refl; size = refl };
  conns_filled = record { junk = none ∷ []; layout = refl; size = refl };
}

serv_add_connection-Bag_example :
    (q : PollQueue) × (fds : List PollFd) × (conns : List Connection) × (serv_add_connection 6 8
        three 9
      ≡ some q)
    × Live 6 q fds conns
    × (bag fds conns ≡ add (new_pollfd 9, make_connection (some 9) 8) (bag three_fds three_conns))
serv_add_connection-Bag_example = serv_add_connection-Bag 8 9 three-Live (omega arith)

close_connection-Bag_example :
    (q : PollQueue) × (fds : List PollFd) × (conns : List Connection) × (close_connection three 1
      ≡ some q)
    × Live 6 q fds conns
    × (bag three_fds three_conns ≡ add (new_pollfd 5, make_connection (some 5) 7) (bag fds conns))
close_connection-Bag_example =
    close_connection-Bag 1 (new_pollfd 5) (make_connection (some 5) 7) three-Live refl refl
      (omega arith)

-- The fourth connection doubles the allocation, up to the limit; closing the second of three leaves
-- the first and the third.
pool_runs :
    ((serv_add_connection 6 8 three 9 >>= λ q. some q.n_conns_alloc) ≡ some 6)
    × ((close_connection three 1 >>= λ q. some q.n_conns) ≡ some 2)
    × (swap_remove three_fds 1 ≡ new_pollfd 4 ∷ new_pollfd 6 ∷ [])
unfolding serv_add_connection add_at resize_for close_connection remove_at downsize
pool_runs = (refl, refl, refl)
