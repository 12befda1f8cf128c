-- ===== src/Defer/Order.antt =====
-- The order of the deferred calls, and the capacity of the queue.
use mimino.Base.{
  ℕ, zero, suc, ◌+◌, ◌≤◌, ◌<◌, true, false, List, ◌∷◌, Option, none, some, ◌>>=◌, ◌≡◌, refl, ◌∙◌,
  arith, ltb, leb, length, set, get_elem?-set_self, length-set, get_elem?-set_ne,
}
use mimino.Defer.{Call, DeferQueue, arg_arr_size, defer, fulfill_loop, fulfill}

module _ {F A : Type 0} where
  fulfill_loop-set :
      (calls : List (Option (Call F A))) (i n : ℕ) (call : Option (Call F A))
      → i ≤ n
      → fulfill_loop (set calls n call) i ≡ fulfill_loop calls i
  unfolding fulfill_loop
  fulfill_loop-set calls zero n call h = refl
  fulfill_loop-set calls (suc i) n call h = rw (
    get_elem?-set_ne calls {i = n} {j = i} call (λ e. omega arith),
    fulfill_loop-set calls i n call (omega arith),
  )

  -- A call deferred while one of the 64 places is free is made first of all, before the earlier ones.
  pub fulfill-defer :
      (q : DeferQueue F A) (func : F) (arg : A)
      → length q.calls ≡ 64
      → q.n_items < 64
      → (q' : DeferQueue F A) × (defer q func arg ≡ some q')
        × (length q'.calls ≡ 64)
        × (q'.n_items ≡ q.n_items + 1)
        × (fulfill q' ≡ (fulfill q >>= λ calls. some (record { func = func; arg = arg } ∷ calls)))
  unfolding fulfill defer
  fulfill-defer q func arg size free =
      let let_in : leb arg_arr_size q.n_items ≡ false = ground arith in
      let inside : ltb q.n_items (length q.calls) ≡ true = ground arith in
      let call : Call F A = record { func = func; arg = arg } in
      let next : q.n_items + 1 ≡ suc q.n_items = omega arith in
      (
        record { calls = set q.calls q.n_items (some call); n_items = q.n_items + 1 },
        rw (let_in, inside),
        length-set q.calls q.n_items (some call) ∙ size,
        refl,
        rw (
          next,
          fulfill_loop,
          get_elem?-set_self q.calls q.n_items (some call) (omega (arith, size)),
          fulfill_loop-set q.calls q.n_items q.n_items (some call) (omega arith),
        ),
      )

  -- With the 64 places taken, the guard still lets a call in, and the write is outside the array.
  pub defer_overflow :
      (q : DeferQueue F A) (func : F) (arg : A)
      → length q.calls ≡ 64
      → q.n_items ≡ 64
      → defer q func arg ≡ none
  unfolding defer
  defer_overflow q func arg size full =
      let let_in : leb arg_arr_size q.n_items ≡ false = ground arith in
      let outside : ltb q.n_items (length q.calls) ≡ false = ground arith in rw (let_in, outside)
