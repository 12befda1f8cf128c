-- ===== src/Tests/Sends.antt =====
-- `send_buf` of mimino.c.
use mimino.Base.{ℕ, zero, suc, ◌+◌, ◌++◌, ◌≡◌, some, refl, sym, ap, arith, codes, take}
use mimino.Server.Send.{SendResult, sent, again, failed, Sent, send_buf}
use mimino.Server.Send.Progress.{Returns, send_buf_whole, send_buf_partial}

-- an interrupted call, and then calls that take three bytes
abbrev interrupted : ℕ → SendResult
interrupted zero = again
interrupted (suc call) = sent 3

abbrev short : ℕ → SendResult
short zero = sent 1
short (suc call) = sent 3

send_buf_partial_example :
    (r : Sent) × (send_buf short (codes "abc") 3 ≡ some r)
    × (r.wire ≡ take 1 (codes "abc") ++ take 3 (codes "abc"))
    × (r.result ≡ some (3 + 1))
send_buf_partial_example =
    send_buf_partial short (codes "abc") 3 1 (omega arith) (omega arith) (omega arith) refl refl

sent_count : SendResult → ℕ
sent_count again = 0
sent_count failed = 0
sent_count (sent k) = k

sent_injective : {j k : ℕ} → sent j ≡ sent k → j ≡ k
unfolding sent_count
sent_injective e = ap sent_count e

interrupted_takes : (call k : ℕ) → interrupted call ≡ sent k → k ≡ 3
interrupted_takes zero k e = cc
interrupted_takes (suc call) k e = sym (sent_injective e)

send_buf_whole_example : Returns interrupted (codes "abc") 3 (send_buf interrupted (codes "abc") 3)
send_buf_whole_example =
    send_buf_whole interrupted (codes "abc") 3 (omega arith) (omega arith) interrupted_takes
