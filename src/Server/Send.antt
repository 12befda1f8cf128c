-- ===== src/Server/Send.antt =====
-- mimino.c: `send_buf`. What the calls of `send` return is a function of the call's number; the
-- bytes that they put on the socket are collected in `wire`. A count that an `int` cannot hold, of
-- one call or of all, gives `none`.
pub mod Progress
pub mod Once
use mimino.Base.{
  ℕ, zero, suc, ◌+◌, ◌-◌, ◌^◌, Bool, Bytes, [], ◌++◌, Option, none, some, ltb, leb, ◌==◌,
  if◌then◌else◌, take,
}

pub data SendResult : Type 0 where
  -- so many bytes were taken
  sent : ℕ → SendResult
  -- -1 with EINTR or EAGAIN
  again : SendResult
  -- -1 with another error
  failed : SendResult

pub record Sent : Type 0 where
  -- what `send_buf` returns; `none` is -1
  pub result : Option ℕ
  pub wire : Bytes
  pub calls : ℕ

-- `return nbytes_sent`, as an `int`
unfoldable pub return_count : ℕ → Bytes → ℕ → Option Sent
return_count nbytes_sent wire calls =
    if ltb nbytes_sent (2 ^ 31)
    then some (record { result = some nbytes_sent; wire = wire; calls = calls })
    else none

-- The round of the loop after a call: whether it returns, tries again or goes on.
unfoldable pub send_round :
    SendResult → ℕ → ℕ → ℕ → Bytes → (ℕ → Option Sent) → (ℕ → Option Sent) → Option Sent
unfolding return_count
send_round failed calls nbytes_sent tries wire retry go_on =
    some (record { result = none; wire = wire; calls = calls })
send_round again calls nbytes_sent tries wire retry go_on =
    if leb (tries - 1) 0 then return_count nbytes_sent wire calls else retry (tries - 1)
send_round (sent k) calls nbytes_sent tries wire retry go_on =
    let next = if ltb k (2 ^ 31) then go_on k else none in
    if k == 0 then return_count nbytes_sent wire calls else next

-- The loop. Each round is one call; `none` is also the fuel run out. Every call is given `buf` and `len`
-- as they are.
unfoldable pub send_loop : ℕ → (ℕ → SendResult) → Bytes → ℕ → ℕ → ℕ → ℕ → Bytes → Option Sent
unfolding return_count send_round
send_loop zero send buf len calls nbytes_sent tries wire = none
send_loop (suc fuel) send buf len calls nbytes_sent tries wire =
    let round =
      send_round (send calls) (calls + 1) nbytes_sent tries wire
        (λ t. send_loop fuel send buf len (calls + 1) nbytes_sent t wire)
        (λ k.
          send_loop fuel send buf len (calls + 1) (nbytes_sent + k) tries (wire ++ take k buf)) in
    if ltb nbytes_sent len then round else return_count nbytes_sent wire calls

-- A round sends a byte or uses up one of five tries, so the fuel is enough.
unfoldable pub send_buf : (ℕ → SendResult) → Bytes → ℕ → Option Sent
unfolding send_loop
send_buf send buf len = send_loop (len + 6) send buf len 0 0 5 []
