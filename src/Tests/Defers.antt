-- ===== src/Tests/Defers.antt =====
-- The deferred calls, with numbers for functions and arguments.
use mimino.Base.{ℕ, ◌+◌, ◌∷◌, none, some, ◌>>=◌, ◌≡◌, refl, arith, length, replicate}
use mimino.Defer.{DeferQueue, defer, fulfill}
use mimino.Defer.Order.{fulfill-defer, defer_overflow}

abbrev one : DeferQueue ℕ ℕ
one = record { calls = some (record { func = 1; arg = 2 }) ∷ replicate 63 none; n_items = 1 }

abbrev full : DeferQueue ℕ ℕ
full = record { calls = replicate 64 (some (record { func = 1; arg = 2 })); n_items = 64 }

fulfill-defer_example :
    (q : DeferQueue ℕ ℕ) × (defer one 3 4 ≡ some q)
    × (length q.calls ≡ 64)
    × (q.n_items ≡ one.n_items + 1)
    × (fulfill q ≡ (fulfill one >>= λ calls. some (record { func = 3; arg = 4 } ∷ calls)))
fulfill-defer_example = fulfill-defer one 3 4 refl (omega arith)

defer_overflow_example : defer full 3 4 ≡ none
defer_overflow_example = defer_overflow full 3 4 refl refl
