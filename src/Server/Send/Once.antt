-- ===== src/Server/Send/Once.antt =====
-- `send_buf` where the first call takes everything.
use mimino.Base.{
  ℕ, suc, ◌+◌, ◌^◌, ◌<◌, true, false, Bytes, [], some, ◌≡◌, refl, ap, ◌∙◌, arith, ltb, ◌==◌, take,
}
use mimino.Server.Send.{SendResult, sent, return_count, send_round, send_loop, send_buf}

send_loop_once :
    (f : ℕ) (send : ℕ → SendResult) (buf : Bytes) (len : ℕ)
    → 0 < len
    → len < 2 ^ 31
    → send 0 ≡ sent len
    → send_loop (suc (suc f)) send buf len 0 0 5 []
      ≡ some (record { result = some len; wire = take len buf; calls = 1 })
unfolding send_loop send_round return_count
send_loop_once f send buf len more small e =
    let start : ltb 0 len ≡ true = ground arith in
    let some_sent : (len == 0) ≡ false = ground arith in
    let all : 0 + len ≡ len = omega arith in
    let end : ltb len len ≡ false = ground arith in
    let held : ltb len (2 ^ 31) ≡ true = ground arith in
    rw (start, e, some_sent, held, all, end, held) refl

-- a call that takes everything
pub send_buf_once :
    (send : ℕ → SendResult) (buf : Bytes) (len : ℕ)
    → 0 < len
    → len < 2 ^ 31
    → send 0 ≡ sent len
    → send_buf send buf len ≡ some (record { result = some len; wire = take len buf; calls = 1 })
unfolding send_buf
send_buf_once send buf len more small e =
    let fuel : len + 6 ≡ suc (suc (len + 4)) = omega arith in
    ap (λ n. send_loop n send buf len 0 0 5 []) fuel
    ∙ send_loop_once (len + 4) send buf len more small e
