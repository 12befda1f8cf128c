-- ===== src/Defer.antt =====
-- defer.c: the queue of the calls that free memory when a function ends. The two arrays of 64 are
-- one array of pairs, `none` where nothing was written; a write or a read outside gives `none`.
pub mod Order
use mimino.Base.{
  ℕ, zero, suc, ◌+◌, ◌*◌, List, [], ◌∷◌, Option, none, some, ◌>>=◌, leb, if◌then◌else◌, replicate,
  length,
}
use mimino.Server.Pool.{read, write}

-- a function and its argument
pub record Call (F A : Type 0) : Type 0 where
  pub func : F
  pub arg : A

pub record DeferQueue (F A : Type 0) : Type 0 where
  pub calls : List (Option (Call F A))
  pub n_items : ℕ

-- NULL_DEFER_QUEUE, whose arrays are zeroed
unfoldable pub null_defer_queue : {F A : Type 0} → DeferQueue F A
null_defer_queue = record { calls = replicate 64 none; n_items = 0 }

-- `sizeof(q->arg_arr)`: 64 pointers of 8 bytes
abbrev pub arg_arr_size : ℕ
arg_arr_size = 64 * 8

unfoldable pub defer : {F A : Type 0} → DeferQueue F A → F → A → Option (DeferQueue F A)
defer q func arg =
    let written = do
      calls ← write q.calls q.n_items (record { func = func; arg = arg })
      some (record { calls = calls; n_items = q.n_items + 1 })
    in if leb arg_arr_size q.n_items then some q else written

-- the loop of `fulfill`: the calls made, in their order
unfoldable pub fulfill_loop :
    {F A : Type 0} → List (Option (Call F A)) → ℕ → Option (List (Call F A))
fulfill_loop calls zero = some []
fulfill_loop calls (suc i) = do call ← read calls i; rest ← fulfill_loop calls i; some (call ∷ rest)

unfoldable pub fulfill : {F A : Type 0} → DeferQueue F A → Option (List (Call F A))
unfolding fulfill_loop
fulfill q = fulfill_loop q.calls q.n_items
