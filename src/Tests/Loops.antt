-- ===== src/Tests/Loops.antt =====
-- An iteration of the main loop.
use mathlib.Core.Path.{refl, subst}
use mathlib.Core.Option.{some-injective}
use mimino.Base.{ℕ, suc, zero, true, false, List, [], ◌∷◌, none, some, arith}
use mimino.Server.Types.{PollEvents, PollFd, Connection, PollQueue}
use mimino.Server.Pool.{new_pollfd, make_connection}
use mimino.Server.Conn.Ready.{Ready}
use mimino.Server.Loop.{main_iteration}
use mimino.Server.Loop.Entries.{AllReady}
use mimino.Server.Loop.Kept.{Kept, Outcome, polled_queue}
use mimino.Server.Loop.Iteration.{main_iteration-Kept}
use mimino.Tests.Conns.{w, fits}

abbrev fds : List PollFd
fds = new_pollfd 3 ∷ new_pollfd 7 ∷ []

abbrev conns : List Connection
conns = make_connection (some 3) 0 ∷ make_connection (some 7) 990 ∷ []

-- the listening socket, and a connection that waits for its request
abbrev queue : PollQueue
queue = record {
  pollfds = some (new_pollfd 3) ∷ some (new_pollfd 7) ∷ none ∷ [];
  conns = some (make_connection (some 3) 0) ∷ some (make_connection (some 7) 990) ∷ none ∷ [];
  n_conns = 2;
  n_conns_alloc = 3;
}

waiting : Ready (new_pollfd 7) (make_connection (some 7) 990)
unfolding make_connection
waiting = record { same = refl; waits = refl; phase = tt }

all_ready : AllReady fds conns
all_ready zero pfd conn h e f = absurd (omega arith)
all_ready (suc zero) pfd conn h e f =
    subst (λ p. Ready p conn) (some-injective (new_pollfd 7) pfd e)
      (subst (λ c. Ready (new_pollfd 7) c) (some-injective (make_connection (some 7) 990) conn f)
        waiting)
all_ready (suc (suc i)) pfd conn h e f = absurd cc

queue-Kept : Kept 100 queue
queue-Kept = record {
  fds = fds;
  conns = conns;
  live = record {
    same = refl;
    count = refl;
    room = omega arith;
    some_room = omega arith;
    limit = omega arith;
    pollfds_filled = record { junk = none ∷ []; layout = refl; size = refl };
    conns_filled = record { junk = none ∷ []; layout = refl; size = refl };
  };
  listens = omega arith;
  ready = all_ready;
}

-- The connection's socket can be read, and no new one waits.
abbrev events : ℕ → PollEvents
events zero = record { pollin = false; pollout = false }
events (suc i) = record { pollin = true; pollout = false }

main_iteration-Kept_example :
    Outcome
      (λ i. w)
      100
      (polled_queue events queue)
      1
      (main_iteration 100 1000 events none (λ i. w) queue)
main_iteration-Kept_example =
    main_iteration-Kept (λ i. w) (λ i. fits) 1000 events none queue queue-Kept
