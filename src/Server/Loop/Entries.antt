-- ===== src/Server/Loop/Entries.antt =====
-- The entries of the queue, each of which is ready, and what the queue's operations make of that.
use mimino.Base.{
  ℕ, zero, suc, ◌+◌, ◌-◌, ◌<◌, ◌⊎◌, inl, inr, List, [], ◌∷◌, ◌++◌, map, Option, none, some, ◌≡◌,
  ◌≢◌, refl, sym, ap, ◌∙◌, arith, ◌==◌, take, set, length, get_elem?, get_elem?-set_self,
  get_elem?-set_ne, Bool-cases,
}
use mathlib.Core.Path.{subst}
use mathlib.Core.Option.{some-injective}
use mimino.Server.Types.{PollEvents, PollFd, Connection}
use mimino.Server.Pool.Slots.{Filled, swap_remove, swap_remove-eq, last_of}
use mimino.Server.Conn.Ready.{Ready}
use mimino.Server.Loop.{poll_from}

-- The entries at the places of which `P` holds are ready.
abbrev pub ReadyAt : (ℕ → Type 0) → List PollFd → List Connection → Type 0
ReadyAt P fds conns =
    (i : ℕ) (pfd : PollFd) (conn : Connection)
    → P i
    → get_elem? fds i ≡ some pfd
    → get_elem? conns i ≡ some conn
    → Ready pfd conn

-- every entry but the first, which is of the listening socket
abbrev pub AllReady : List PollFd → List Connection → Type 0
AllReady = ReadyAt (λ i. 0 < i)

-- every entry but the first and the one at `k`
abbrev pub OthersReady : ℕ → List PollFd → List Connection → Type 0
OthersReady k = ReadyAt (λ i. (0 < i) × (i ≢ k))

module _ {A : Type 0} where
  get_elem?-take :
      (xs : List A) (m j : ℕ) {a : A}
      → get_elem? (take m xs) j ≡ some a
      → (j < m) × (get_elem? xs j ≡ some a)
  get_elem?-take xs zero j h = absurd cc
  get_elem?-take [] (suc m) j h = absurd cc
  get_elem?-take (x ∷ xs) (suc m) zero h = (omega arith, h)
  get_elem?-take (x ∷ xs) (suc m) (suc j) h =
      let (less, e) = get_elem?-take xs m j h in (omega arith, e)

  -- where a value stood before the last one took the place `i`
  get_elem?-swap_remove :
      (xs : List A) (i j : ℕ) {a : A}
      → i < length xs
      → get_elem? (swap_remove xs i) j ≡ some a
      → (j < length xs - 1)
        × (((j ≡ i) × (get_elem? xs (length xs - 1) ≡ some a))
            ⊎ ((j ≢ i) × (get_elem? xs j ≡ some a)))
  get_elem?-swap_remove xs i j {a} inside h =
      let (b, e) = last_of xs (omega arith) in
      let (less, g) =
        get_elem?-take (set xs i b) (length xs - 1) j
          (ap (λ l. get_elem? l j) (sym (swap_remove-eq xs i b e)) ∙ h) in
      (
        less,
        elim (Bool-cases (j == i)) [
          | inl s ↦
              let here : j ≡ i = ground arith in
              inl (
                here,
                e
                    ∙ sym (get_elem?-set_self xs i b inside)
                    ∙ ap (get_elem? (set xs i b)) (sym here)
                    ∙ g,
              )
          | inr s ↦
              let there : i ≢ j = ground arith in
              inr (ground arith, sym (get_elem?-set_ne xs b there) ∙ g)
        ],
      )

  get_elem?-append_one :
      (xs : List A) (x : A) (j : ℕ) {a : A}
      → get_elem? (xs ++ (x ∷ [])) j ≡ some a
      → (get_elem? xs j ≡ some a) × (j < length xs) ⊎ ((j ≡ length xs) × (x ≡ a))
  get_elem?-append_one [] x zero h = inr (refl, some-injective _ _ h)
  get_elem?-append_one [] x (suc j) h = absurd cc
  get_elem?-append_one (y ∷ xs) x zero h = inl (h, omega arith)
  get_elem?-append_one (y ∷ xs) x (suc j) h = elim (get_elem?-append_one xs x j h) [
    | inl (e, less) ↦ inl (e, omega arith)
    | inr (e, g) ↦ inr (ap suc e, g)
  ]

Ready-same :
    {pfd p : PollFd} {conn c : Connection} → pfd ≡ p → conn ≡ c → Ready pfd conn → Ready p c
Ready-same {pfd} {c = c} e f r = subst (λ x. Ready x c) e (subst (λ y. Ready pfd y) f r)

module _ (fds : List PollFd) (conns : List Connection) where
  pub all-OthersReady : (k : ℕ) → AllReady fds conns → OthersReady k fds conns
  all-OthersReady k h i pfd conn (more, other) = h i pfd conn more

  -- the entries at `k` replaced, by any
  pub set-OthersReady :
      (k : ℕ) (pfd : PollFd) (conn : Connection)
      → OthersReady k fds conns
      → OthersReady k (set fds k pfd) (set conns k conn)
  set-OthersReady k pfd conn h i p c (more, other) e f =
      let away : k ≢ i = λ g. other (sym g) in
      h i p c (more, other) (sym (get_elem?-set_ne fds pfd away) ∙ e)
        (sym (get_elem?-set_ne conns conn away) ∙ f)

  -- the connection at `k` replaced, by any
  pub set_conn-OthersReady :
      (k : ℕ) (conn : Connection) → OthersReady k fds conns → OthersReady k fds (set conns k conn)
  set_conn-OthersReady k conn h i p c (more, other) e f =
      h i p c (more, other) e (sym (get_elem?-set_ne conns conn (λ g. other (sym g))) ∙ f)

  -- the entries at `k` replaced by ready ones
  pub set-AllReady :
      (k : ℕ) (pfd : PollFd) (conn : Connection)
      → k < length fds
      → k < length conns
      → OthersReady k fds conns
      → Ready pfd conn
      → AllReady (set fds k pfd) (set conns k conn)
  set-AllReady k pfd conn inside inside' h ready i p c more e f = elim (Bool-cases (i == k)) [
    | inl s ↦
        let same : i ≡ k = ground arith in
        let its_pfd = some-injective pfd p (
          sym (get_elem?-set_self fds k pfd inside)
          ∙ ap (get_elem? (set fds k pfd)) (sym same)
          ∙ e) in
        let its_conn = some-injective conn c (
          sym (get_elem?-set_self conns k conn inside')
          ∙ ap (get_elem? (set conns k conn)) (sym same)
          ∙ f) in
        Ready-same its_pfd its_conn ready
    | inr s ↦
        let other : i ≢ k = ground arith in set-OthersReady k pfd conn h i p c (more, other) e f
  ]

  -- the entries at `k` closed
  pub swap_remove-AllReady :
      (k : ℕ)
      → length fds ≡ length conns
      → 0 < k
      → k < length conns
      → OthersReady k fds conns
      → AllReady (swap_remove fds k) (swap_remove conns k)
  swap_remove-AllReady k same first inside h i p c more e f =
      let (less, from) = get_elem?-swap_remove fds k i (omega (arith, same)) e in
      let (less', from') = get_elem?-swap_remove conns k i inside f in
      elim from [
        | inl (here, a) ↦ elim from' [
          | inl (_, b) ↦
              h (length conns - 1) p c (omega arith, λ g. absurd (omega arith))
                (ap (λ n. get_elem? fds (n - 1)) (sym same) ∙ a) b
          | inr (other, b) ↦ absurd (other here)
        ]
        | inr (other, a) ↦ elim from' [
          | inl (here, b) ↦ absurd (other here)
          | inr (_, b) ↦ h i p c (more, other) a b
        ]
      ]

  pub append-AllReady :
      (pfd : PollFd) (conn : Connection)
      → length fds ≡ length conns
      → AllReady fds conns
      → Ready pfd conn
      → AllReady (fds ++ (pfd ∷ [])) (conns ++ (conn ∷ []))
  append-AllReady pfd conn same h ready i p c more e f = elim (get_elem?-append_one fds pfd i e) [
    | inl (a, less) ↦ elim (get_elem?-append_one conns conn i f) [
      | inl (b, _) ↦ h i p c more a b
      | inr (end, _) ↦ absurd (omega arith)
    ]
    | inr (end, g) ↦ elim (get_elem?-append_one conns conn i f) [
      | inl (b, less) ↦ absurd (omega arith)
      | inr (_, g') ↦ Ready-same g g' ready
    ]
  ]

-- what `poll` makes of the entries
abbrev pub polled : (ℕ → PollEvents) → ℕ → List PollFd → List PollFd
polled events i [] = []
polled events i (pfd ∷ fds) = record pfd { revents = events i } ∷ polled events (i + 1) fds

poll_from-front :
    (events : ℕ → PollEvents) (i : ℕ) (fds : List PollFd) (junk : List (Option PollFd))
    → poll_from events i (length fds) (map some fds ++ junk)
      ≡ map some (polled events i fds) ++ junk
unfolding poll_from
poll_from-front events i [] junk = refl
poll_from-front events i (pfd ∷ fds) junk =
    ap (some (record pfd { revents = events i }) ∷◌) (poll_from-front events (i + 1) fds junk)

pub length-polled :
    (events : ℕ → PollEvents) (i : ℕ) (fds : List PollFd)
    → length (polled events i fds) ≡ length fds
length-polled events i [] = refl
length-polled events i (pfd ∷ fds) = ap suc (length-polled events (i + 1) fds)

length-poll_from :
    (events : ℕ → PollEvents) (i n : ℕ) (slots : List (Option PollFd))
    → length (poll_from events i n slots) ≡ length slots
unfolding poll_from
length-poll_from events i zero slots = refl
length-poll_from events i (suc n) [] = refl
length-poll_from events i (suc n) (none ∷ slots) = ap suc (length-poll_from events (i + 1) n slots)
length-poll_from events i (suc n) (some p ∷ slots) =
    ap suc (length-poll_from events (i + 1) n slots)

pub poll_from-Filled :
    (events : ℕ → PollEvents) {slots : List (Option PollFd)} {n : ℕ} (fds : List PollFd)
    → Filled slots n fds
    → Filled (poll_from events 0 (length fds) slots) n (polled events 0 fds)
poll_from-Filled events {slots} fds f = record {
  junk = f.junk;
  layout = ap (poll_from events 0 (length fds)) f.layout ∙ poll_from-front events 0 fds f.junk;
  size = length-poll_from events 0 (length fds) slots ∙ f.size;
}

polled-same :
    (events : ℕ → PollEvents) (at : ℕ) (fds : List PollFd) (i : ℕ) {pfd : PollFd}
    → get_elem? (polled events at fds) i ≡ some pfd
    → (p : PollFd) × (get_elem? fds i ≡ some p) × (pfd.fd ≡ p.fd) × (pfd.events ≡ p.events)
polled-same events at [] i h = absurd cc
polled-same events at (p ∷ fds) zero h =
    let e = some-injective _ _ h in (p, refl, ap (λ q. q.fd) (sym e), ap (λ q. q.events) (sym e))
polled-same events at (p ∷ fds) (suc i) h = polled-same events (at + 1) fds i h

pub polled-AllReady :
    (events : ℕ → PollEvents) (fds : List PollFd) (conns : List Connection)
    → AllReady fds conns
    → AllReady (polled events 0 fds) conns
polled-AllReady events fds conns h i pfd conn more e f =
    let (p, g, same, waits) = polled-same events 0 fds i e in
    let r = h i p conn more g f in
    record { same = same ∙ r.same; waits = waits ∙ r.waits; phase = r.phase }
