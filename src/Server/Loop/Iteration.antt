-- ===== src/Server/Loop/Iteration.antt =====
-- The queue over an iteration of the main loop.
use mathlib.Core.Path.{subst}
use mathlib.Core.Option.{some-injective}
use mimino.Base.{
  if_true, if_false, if_both, >>=-of_some, ℕ, zero, suc, ◌+◌, ◌<◌, ◌⊎◌, inl, inr, Bool, true, false,
  not, ◌&&◌, [], ◌∷◌, ◌++◌, Option, none, some, ◌>>=◌, ◌≡◌, ◌≢◌, refl, sym, ap, ◌∙◌, arith, ltb,
  leb, set, length, get_elem?-set_self, length-set, length-append, Bool-cases, Option-cases,
  if◌then◌else◌,
}
use mimino.Server.Types.{PollEvents, PollFd, closing, Connection, PollQueue}
use mimino.Server.Pool.{read, write, new_pollfd, make_connection, serv_add_connection}
use mimino.Server.Pool.Slots.{Filled, write-front}
use mimino.Server.Pool.Refine.{Live, serv_add_connection-Live}
use mimino.Server.Conn.{World, After, do_state}
use mimino.Server.Conn.Ready.{Ready, Settled}
use mimino.Server.Conn.Reads.{RecvFits}
use mimino.Server.Conn.Settled.{do_state-Settled}
use mimino.Server.Loop.{
  is_closing, time_out, store, do_conn_state, serve_one, serve_from, poll_from, accepted,
  main_iteration,
}
use mimino.Server.Loop.Entries.{
  all-OthersReady, set_conn-OthersReady, append-AllReady, polled, length-polled, poll_from-Filled,
  polled-AllReady,
}
use mimino.Server.Loop.Kept.{Kept, Outcome, polled_queue, read-Filled, store-Kept}

-- A connection that did not time out is as it was, and the others close.
time_out-cases :
    (w : World) (conn : Connection) → (time_out w conn ≡ conn) ⊎ ((time_out w conn).state ≡ closing)
unfolding time_out
time_out-cases w conn =
    by_test (not (is_closing conn.state) && leb (conn.last_active + w.conf.timeout_secs) w.time_now)
  where
    by_test :
        (b : Bool)
        → ((if b then record conn { state = closing } else conn) ≡ conn)
          ⊎ ((if b then record conn { state = closing } else conn).state ≡ closing)
    by_test true = inr refl
    by_test false = inl refl

new-Ready : (sock time_now : ℕ) → Ready (new_pollfd sock) (make_connection (some sock) time_now)
unfolding make_connection
new-Ready sock time_now = record { same = refl; waits = refl; phase = tt }

-- The step of a connection that closes.
close_settles :
    (w : World) (pfd : PollFd) (conn : Connection)
    → conn.state ≡ closing
    → (a : After) × (do_state conn.state w pfd conn ≡ some a) × Settled a
unfolding do_state
close_settles w pfd conn e = (
  record { pfd = pfd; conn = conn; wire = []; closes = true },
  ap (λ s. do_state s w pfd conn) e,
  inl refl,
)

-- The step of a connection that is ready settles, or faults.
step_settles :
    (w : World) (pfd : PollFd) (conn : Connection)
    → RecvFits w
    → Ready pfd conn
    → ((a : After) × (do_state conn.state w pfd conn ≡ some a) × Settled a)
      ⊎ (do_state conn.state w pfd conn ≡ none)
step_settles w pfd conn bounded ready = elim (Option-cases (do_state conn.state w pfd conn)) [
  | inl e ↦ inr e
  | inr (a, e) ↦ inl (a, e, do_state-Settled w pfd conn a ready bounded e)
]

module _ (worlds : ℕ → World) (bounded : (i : ℕ) → RecvFits (worlds i)) {max_fds : ℕ} where
  serve_one-Outcome :
      {q : PollQueue} (i : ℕ)
      → 0 < i
      → i < q.n_conns
      → Kept max_fds q
      → ((q' : PollQueue) × (serve_one (worlds i) q i ≡ some q') × Kept max_fds q')
        ⊎ ((pfd : PollFd) × (conn : Connection) × (read q.pollfds i ≡ some pfd)
            × (read q.conns i ≡ some conn)
            × Ready pfd conn
            × (do_state conn.state (worlds i) pfd conn ≡ none)
            × (serve_one (worlds i) q i ≡ none))
  unfolding serve_one do_conn_state
  serve_one-Outcome {q} i first less k =
      let l = k.live in
      let inside : i < length k.conns = omega (arith, less, l.count) in
      let (conn, e, at_i) = read-Filled k.conns i l.conns_filled inside in
      let (pfd, e', at_i') = read-Filled k.fds i l.pollfds_filled (omega (arith, inside, l.same)) in
      let x = time_out (worlds i) conn in
      let (cs, g, f) = write-front k.conns i x l.conns_filled inside in
      let inside₁ : i < length (set k.conns i x) = omega (arith, inside, length-set k.conns i x) in
      let (y, h, at_y) = read-Filled (set k.conns i x) i f inside₁ in
      let same : x ≡ y = some-injective x y (sym (get_elem?-set_self k.conns i x inside) ∙ at_y) in
      let q₁ : PollQueue = record q { conns = cs } in
      let l₁ : Live max_fds q₁ k.fds (set k.conns i x) = record {
        same = omega (arith, l.same, length-set k.conns i x);
        count = omega (arith, l.count, length-set k.conns i x);
        room = omega (arith, l.room, length-set k.conns i x);
        some_room = l.some_room;
        limit = l.limit;
        pollfds_filled = l.pollfds_filled;
        conns_filled = f;
      } in
      let others =
        set_conn-OthersReady k.fds k.conns i x (all-OthersReady k.fds k.conns i k.ready) in
      let reach : serve_one (worlds i) q i
          ≡ (do_state x.state (worlds i) pfd x >>= λ a. store q₁ i a) =
        >>=-of_some (read q.conns i) _ e
        ∙ >>=-of_some (write q.conns i x) _ g
        ∙ >>=-of_some (read cs i) _ (h ∙ ap some (sym same))
        ∙ >>=-of_some (read q.pollfds i) _ e' in
      let settles : (a : After)
          → do_state x.state (worlds i) pfd x ≡ some a
          → Settled a
          → (q' : PollQueue) × (serve_one (worlds i) q i ≡ some q') × Kept max_fds q' =
        λ a went settled.
          let (q', stored, kept) =
            store-Kept k.fds (set k.conns i x) i a l₁ first inside₁ others settled in
          (q', reach ∙ >>=-of_some (do_state x.state (worlds i) pfd x) _ went ∙ stored, kept) in
      elim (time_out-cases (worlds i) conn) [
        | inl stays ↦
            let ready = subst (Ready pfd) (sym stays) (k.ready i pfd conn first at_i' at_i) in
            elim (step_settles (worlds i) pfd x (bounded i) ready) [
              | inl (a, went, settled) ↦ inl (settles a went settled)
              | inr fault ↦ inr (
                pfd,
                x,
                e',
                e ∙ ap some (sym stays),
                ready,
                fault,
                reach ∙ ap (λ o. o >>= λ a. store q₁ i a) fault,
              )
            ]
        | inr ends ↦
            inl (
              let (a, went, settled) = close_settles (worlds i) pfd x ends in
              settles a went settled)
      ]

  -- The connections from a place on.
  serve_from-Outcome :
      (rounds : ℕ) {q : PollQueue} (i : ℕ)
      → 0 < i
      → Kept max_fds q
      → Outcome worlds max_fds q i (serve_from rounds worlds q i)
  unfolding serve_from
  serve_from-Outcome zero i first k = inl (_, refl, k)
  serve_from-Outcome (suc rounds) {q} i first k = elim (Bool-cases (ltb i q.n_conns)) [
    | inr e ↦ inl (q, if_false (ltb i q.n_conns) _ _ e, k)
    | inl e ↦
        let less : i < q.n_conns = ground arith in
        let here : i + 0 ≡ i = omega arith in
        elim (serve_one-Outcome i first less k) [
          | inr (pfd, conn, at_pfd, at_conn, ready, fault, g) ↦ inr (
            0,
            q,
            pfd,
            conn,
            refl,
            omega (arith, less),
            ap (read q.pollfds) here ∙ at_pfd,
            ap (read q.conns) here ∙ at_conn,
            ready,
            ap (λ j. do_state conn.state (worlds j) pfd conn) here ∙ fault,
            if_true (ltb i q.n_conns) _ _ e
                ∙ ap (λ o. o >>= λ p. serve_from rounds worlds p (i + 1)) g,
          )
          | inl (q', g, k') ↦
              let goes_on : (n : ℕ)
                  → serve_from (suc n) worlds q i ≡ serve_from n worlds q' (i + 1) =
                λ n.
                  if_true (ltb i q.n_conns) _ _ e
                  ∙ ap (λ o. o >>= λ p. serve_from n worlds p (i + 1)) g in
              elim (serve_from-Outcome rounds (i + 1) (omega arith) k') [
                | inl (q'', g', k'') ↦ inl (q'', goes_on rounds ∙ g', k'')
                | inr
                      (
                        n, q'', pfd, conn, reached, inside, at_pfd, at_conn, ready, fault,
                        none_left,
                      ) ↦
                    let next : i + suc n ≡ i + 1 + n = omega arith in
                    inr (
                      suc n,
                      q'',
                      pfd,
                      conn,
                      goes_on n ∙ reached,
                      omega (arith, inside),
                      ap (read q''.pollfds) next ∙ at_pfd,
                      ap (read q''.conns) next ∙ at_conn,
                      ready,
                      ap (λ j. do_state conn.state (worlds j) pfd conn) next ∙ fault,
                      goes_on rounds ∙ none_left,
                    )
              ]
        ]
  ]

  -- A socket is accepted below the limit only.
  accepted_below :
      (q : PollQueue) (newsock : Option ℕ) {sock : ℕ}
      → accepted max_fds q newsock ≡ some sock
      → q.n_conns < max_fds
  accepted_below q newsock e = elim (Bool-cases (leb max_fds q.n_conns)) [
    | inl full ↦ absurd (none-ne-some (sym (if_true (leb max_fds q.n_conns) _ _ full) ∙ e))
    | inr free ↦ ground arith
  ]
    where
      none-ne-some : {a : ℕ} → none ≢ some a
      none-ne-some h = absurd cc

  added-Kept :
      (time_now sock : ℕ) {q : PollQueue}
      → q.n_conns < max_fds
      → Kept max_fds q
      → (q' : PollQueue) × (serv_add_connection max_fds time_now q sock ≡ some q') × Kept max_fds q'
  added-Kept time_now sock {q} free k =
      let (q', e, l) =
        serv_add_connection-Live time_now sock k.live (omega (arith, free, k.live.count)) in
      (
        q',
        e,
        record {
          fds = k.fds ++ (new_pollfd sock ∷ []);
          conns = k.conns ++ (make_connection (some sock) time_now ∷ []);
          live = l;
          listens =
              omega (arith, length-append k.conns (make_connection (some sock) time_now ∷ []));
          ready =
              append-AllReady k.fds k.conns (new_pollfd sock) (make_connection (some sock) time_now)
                k.live.same k.ready (new-Ready sock time_now);
        },
      )

  polled-Kept :
      (events : ℕ → PollEvents) (queue : PollQueue)
      → Kept max_fds queue
      → Kept max_fds (polled_queue events queue)
  polled-Kept events queue k = record {
    fds = polled events 0 k.fds;
    conns = k.conns;
    live = record {
      same = length-polled events 0 k.fds ∙ k.live.same;
      count = k.live.count;
      room = k.live.room;
      some_room = k.live.some_room;
      limit = k.live.limit;
      pollfds_filled =
          subst
            (λ n.
              Filled (poll_from events 0 n queue.pollfds) queue.n_conns_alloc
                (polled events 0 k.fds))
            (k.live.same ∙ sym k.live.count) (poll_from-Filled events k.fds k.live.pollfds_filled);
      conns_filled = k.live.conns_filled;
    };
    listens = k.listens;
    ready = polled-AllReady events k.fds k.conns k.ready;
  }

  -- An iteration of the main loop on a queue of which every connection is ready leaves such a queue,
  -- within the limit of descriptors, unless the step of one of its connections faults, which is ready
  -- where the loop comes to it. `recv` returns no more bytes than it is told that there is room for.
  pub main_iteration-Kept :
      (time_now : ℕ) (events : ℕ → PollEvents) (newsock : Option ℕ) (queue : PollQueue)
      → Kept max_fds queue
      → Outcome worlds max_fds
          (polled_queue events queue)
          1
          (main_iteration max_fds time_now events newsock worlds queue)
  unfolding main_iteration
  main_iteration-Kept time_now events newsock queue k =
      let q = polled_queue events queue in
      let kept = polled-Kept events queue k in
      let (listen, e, _) =
        read-Filled kept.fds 0 kept.live.pollfds_filled
          (omega (arith, kept.live.same, kept.listens)) in
      let served = serve_from-Outcome q.n_conns {q = q} 1 (omega arith) kept in
      subst (Outcome worlds max_fds q 1) (sym (>>=-of_some (read q.pollfds 0) _ e)) (
        if_both (Outcome worlds max_fds q 1) listen.revents.pollin _ _
          (elim (accepted max_fds q newsock)
              as (λ o.
                accepted max_fds q newsock ≡ o
                → Outcome worlds max_fds q 1 (elim o [
                  | none ↦ serve_from q.n_conns worlds q 1
                  | some sock ↦ serv_add_connection max_fds time_now q sock
                ])) [
                  | none ↦ λ g. served
                  | some sock ↦
                      λ g. inl (added-Kept time_now sock (accepted_below q newsock g) kept)
                ]
            refl)
          served)
