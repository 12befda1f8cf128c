-- ===== src/Server/Pool/Refine.antt =====
-- The pool of connections as two lists of the same length: adding appends to both, and closing
-- moves the last over the closed one.
use mimino.Base.{
  ℕ, ◌+◌, ◌-◌, ◌*◌, ◌/◌, ◌≤◌, ◌<◌, ◌&&◌, List, [], ◌∷◌, ◌++◌, none, some, ◌≡◌, refl, sym, ap, ◌∙◌,
  arith, ltb, leb, min, max, length, length-append, Bool-cases, inl, inr, ◌⊎◌, replicate,
  length-replicate,
}
use mimino.Server.Types.{PollFd, Connection, PollQueue}
use mimino.Server.Pool.{
  no_events, resize, new_pollfd, make_connection, write, resize_for, serv_add_connection, downsize,
  add_at, remove_at, close_connection, listen_pool, accept_connection, init_conn_pool,
}
use mimino.Server.Pool.Slots.{
  Filled, swap_remove, resize-Filled, write-end, remove_at-Filled, length-swap_remove,
}

-- The queue holds these entries; its counters tell the truth, the allocation has room for them and
-- is within the limit of descriptors.
pub record Live (max_fds : ℕ) (q : PollQueue) (fds : List PollFd) (conns : List Connection)
    : Type 0 where
  pub same : length fds ≡ length conns
  pub count : q.n_conns ≡ length conns
  pub room : length conns ≤ q.n_conns_alloc
  pub some_room : 0 < q.n_conns_alloc
  pub limit : q.n_conns_alloc ≤ max_fds
  pub pollfds_filled : Filled q.pollfds q.n_conns_alloc fds
  pub conns_filled : Filled q.conns q.n_conns_alloc conns

module _ {max_fds : ℕ} {q : PollQueue} {fds : List PollFd} {conns : List Connection} where
  resize_to-Live :
      (n : ℕ)
      → Live max_fds q fds conns
      → length conns ≤ n
      → 0 < n
      → n ≤ max_fds
      → Live max_fds
          (record q { pollfds = resize q.pollfds n; conns = resize q.conns n; n_conns_alloc = n })
          fds
          conns
  resize_to-Live n l h p m = record {
    same = l.same;
    count = l.count;
    room = h;
    some_room = p;
    limit = m;
    pollfds_filled = resize-Filled fds n l.pollfds_filled (omega (arith, l.same));
    conns_filled = resize-Filled conns n l.conns_filled h;
  }

  -- Behind the resize there is room for one more.
  resize_for-Live :
      Live max_fds q fds conns
      → length conns < max_fds
      → Live max_fds (resize_for max_fds (q.n_conns + 1) q) fds conns
        × (length conns < (resize_for max_fds (q.n_conns + 1) q).n_conns_alloc)
  unfolding resize_for
  resize_for-Live l h = elim (Bool-cases (leb q.n_conns_alloc (q.n_conns + 1))) [
    | inl e ↦ rw e (
      resize_to-Live (min (q.n_conns_alloc * 2) max_fds) l (omega (arith, l.room))
          (omega (arith, l.some_room)) (omega arith),
      omega (arith, l.room, l.some_room),
    )
    | inr e ↦
        let more : q.n_conns + 1 < q.n_conns_alloc = ground arith in
        rw e (l, omega (arith, l.count))
  ]

  downsize-Live : Live max_fds q fds conns → Live max_fds (downsize q) fds conns
  unfolding downsize
  downsize-Live l =
      elim (Bool-cases (ltb 20 q.n_conns_alloc && leb q.n_conns (q.n_conns_alloc / 4))) [
        | inl e ↦
            let big : 20 < q.n_conns_alloc = ground arith in
            let few : q.n_conns ≤ q.n_conns_alloc / 4 = ground arith in
            rw e (
              resize_to-Live (max 20 (q.n_conns_alloc / 2)) l (omega (arith, l.count)) (omega arith)
                (omega (arith, l.limit)))
        | inr e ↦ rw e l
      ]

  add_at-Live :
      (idx : ℕ) (pollfd : PollFd) (conn : Connection)
      → Live max_fds q fds conns
      → length conns < q.n_conns_alloc
      → idx ≡ length conns
      → (q' : PollQueue) × (add_at q idx pollfd conn ≡ some q')
        × Live max_fds q' (fds ++ (pollfd ∷ [])) (conns ++ (conn ∷ []))
  unfolding add_at
  add_at-Live idx pollfd conn l h i =
      let (ps, e, f) = write-end fds pollfd l.pollfds_filled (omega (arith, l.same)) in
      let (cs, e', f') = write-end conns conn l.conns_filled h in
      let here : write q.pollfds idx pollfd ≡ some ps =
        ap (λ j. write q.pollfds j pollfd) (i ∙ sym l.same) ∙ e in
      let here' : write q.conns idx conn ≡ some cs = ap (λ j. write q.conns j conn) i ∙ e' in
      (
        record q { pollfds = ps; conns = cs; n_conns = idx + 1 },
        rw (here, here'),
        record {
          same =
              omega
                (arith, l.same, length-append fds (pollfd ∷ []), length-append conns (conn ∷ []));
          count = omega (arith, i, length-append conns (conn ∷ []));
          room = omega (arith, length-append conns (conn ∷ []));
          some_room = l.some_room;
          limit = l.limit;
          pollfds_filled = f;
          conns_filled = f';
        },
      )

module _ {max_fds : ℕ} {q : PollQueue} {fds : List PollFd} {conns : List Connection} where
  -- Adding a connection below the limit writes inside the two arrays, grown where they are full, and
  -- appends an entry to each.
  pub serv_add_connection-Live :
      (time_now newsock : ℕ)
      → Live max_fds q fds conns
      → length conns < max_fds
      → (q' : PollQueue) × (serv_add_connection max_fds time_now q newsock ≡ some q')
        × Live max_fds q'
            (fds ++ (new_pollfd newsock ∷ []))
            (conns ++ (make_connection (some newsock) time_now ∷ []))
  unfolding serv_add_connection
  serv_add_connection-Live time_now newsock l h =
      let (l', h') = resize_for-Live l h in
      add_at-Live q.n_conns (new_pollfd newsock) (make_connection (some newsock) time_now) l' h'
        l.count

  -- Closing a connection stays inside the two arrays, and moves the last entry of each over the closed
  -- one.
  pub close_connection-Live :
      (i : ℕ)
      → Live max_fds q fds conns
      → i < length conns
      → (q' : PollQueue) × (close_connection q i ≡ some q')
        × Live max_fds q' (swap_remove fds i) (swap_remove conns i)
  unfolding close_connection
  close_connection-Live i l h =
      let (ps, e, f) =
        remove_at-Filled fds i
          (λ pfd. record { fd = none; events = no_events; revents = no_events }) l.pollfds_filled
          (omega (arith, l.same)) in
      let (cs, e', f') =
        remove_at-Filled conns i (λ conn. record conn { fd = none }) l.conns_filled h in
      let closed : close_connection q i
          ≡ some (downsize (record q { pollfds = ps; conns = cs; n_conns = q.n_conns - 1 })) =
        rw (
          ap (λ n. remove_at q.conns i n (λ conn. record conn { fd = none })) l.count,
          e',
          ap
              (λ n.
                remove_at q.pollfds i n
                  (λ pfd. record { fd = none; events = no_events; revents = no_events }))
              (l.count ∙ sym l.same),
          e,
        ) in
      (
        _,
        closed,
        downsize-Live (record {
          same = omega (
            arith,
            l.same,
            length-swap_remove fds i (omega (arith, l.same)),
            length-swap_remove conns i h,
          );
          count = omega (arith, l.count, length-swap_remove conns i h);
          room = omega (arith, l.room, length-swap_remove conns i h);
          some_room = l.some_room;
          limit = l.limit;
          pollfds_filled = f;
          conns_filled = f';
        }),
      )

init_conn_pool-Live : (max_fds : ℕ) → 0 < max_fds → Live max_fds (init_conn_pool max_fds) [] []
unfolding init_conn_pool
init_conn_pool-Live max_fds h = record {
  same = refl;
  count = refl;
  room = omega arith;
  some_room = omega arith;
  limit = omega arith;
  pollfds_filled = record {
    junk = replicate (min max_fds 1024) none;
    layout = refl;
    size = length-replicate (min max_fds 1024) none;
  };
  conns_filled = record {
    junk = replicate (min max_fds 1024) none;
    layout = refl;
    size = length-replicate (min max_fds 1024) none;
  };
}

init_conn_pool-room : (max_fds : ℕ) → 0 < max_fds → 0 < (init_conn_pool max_fds).n_conns_alloc
unfolding init_conn_pool
init_conn_pool-room max_fds h = omega arith

-- The pool of `main` is live with the listening socket as its only entry.
listen_pool-Live :
    (max_fds time_now listen_sock : ℕ)
    → 0 < max_fds
    → (q : PollQueue) × (listen_pool max_fds time_now listen_sock ≡ some q)
      × Live max_fds q
          (new_pollfd listen_sock ∷ [])
          (make_connection (some listen_sock) time_now ∷ [])
unfolding listen_pool
listen_pool-Live max_fds time_now listen_sock h =
    add_at-Live 0 (new_pollfd listen_sock) (make_connection (some listen_sock) time_now)
      (init_conn_pool-Live max_fds h) (init_conn_pool-room max_fds h) refl

-- A connection that the main loop accepts is added below the limit of descriptors; at the limit the
-- queue stays as it is.
accept_connection-Live :
    {max_fds : ℕ} {q : PollQueue} {fds : List PollFd} {conns : List Connection}
    (time_now newsock : ℕ)
    → Live max_fds q fds conns
    → (q' : PollQueue) × (accept_connection max_fds time_now q (some newsock) ≡ some q')
      × (((q' ≡ q) × (length conns ≡ max_fds))
          ⊎ Live max_fds q'
              (fds ++ (new_pollfd newsock ∷ []))
              (conns ++ (make_connection (some newsock) time_now ∷ [])))
unfolding accept_connection
accept_connection-Live {max_fds = max_fds} {q = q} {conns = conns} time_now newsock l =
    elim (Bool-cases (leb max_fds q.n_conns)) [
      | inl e ↦
          let full : max_fds ≤ q.n_conns = ground arith in
          (q, rw e, inl (refl, omega (arith, l.count, l.room, l.limit)))
      | inr e ↦
          let free : q.n_conns < max_fds = ground arith in
          let (q', added, l') =
            serv_add_connection-Live time_now newsock l (omega (arith, l.count)) in
          (q', rw (e, added), inr l')
    ]
