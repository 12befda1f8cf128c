-- ===== src/Server/Send/Progress.antt =====
-- `send_buf` returns, and what it has sent then.
use mimino.Base.{
  ℕ, zero, suc, ◌+◌, ◌-◌, ◌^◌, ◌≤◌, ◌<◌, true, false, Bytes, [], ◌++◌, Option, none, some, ◌≡◌,
  refl, sym, ap, ◌∙◌, arith, ltb, leb, ◌==◌, take, inl, inr, ◌⊎◌, Bool-cases,
}
use mathlib.Core.Path.{subst}
use mimino.Server.Send.{
  SendResult, sent, again, failed, Sent, return_count, send_round, send_loop, send_buf,
}

-- The first calls are interrupted.
abbrev pub Interrupted : (ℕ → SendResult) → ℕ → Type 0
Interrupted send zero = Unit {0}
Interrupted send (suc n) = Interrupted send n × (send n ≡ again)

-- What `send_buf` returns after some interrupted calls and the last one: the whole buffer was sent, or
-- the last one was the fifth that was interrupted, or it failed.
abbrev pub Whole : (ℕ → SendResult) → Bytes → ℕ → ℕ → Sent → Type 0
Whole send buf len n r =
    ((send n ≡ sent len) × (r.result ≡ some len) × (r.wire ≡ take len buf))
    ⊎ ((n ≡ 4) × (send n ≡ again) × (r.result ≡ some 0) × (r.wire ≡ []))
    ⊎ ((send n ≡ failed) × (r.result ≡ none) × (r.wire ≡ []))

abbrev pub Returns : (ℕ → SendResult) → Bytes → ℕ → Option Sent → Type 0
Returns send buf len o =
    (r : Sent) × (o ≡ some r)
    × (n : ℕ) × (r.calls ≡ n + 1)
    × Interrupted send n
    × Whole send buf len n r

pub return_count-some :
    (n : ℕ) (wire : Bytes) (calls : ℕ)
    → n < 2 ^ 31
    → return_count n wire calls ≡ some (record { result = some n; wire = wire; calls = calls })
unfolding return_count
return_count-some n wire calls h = let held : ltb n (2 ^ 31) ≡ true = ground arith in rw held refl

module _ (send : ℕ → SendResult) (buf : Bytes) (len fuel calls n tries : ℕ) (wire : Bytes) where
  send_loop-sent :
      (k : ℕ)
      → n < len
      → send calls ≡ sent k
      → 0 < k
      → k < 2 ^ 31
      → send_loop (suc fuel) send buf len calls n tries wire
        ≡ send_loop fuel send buf len (calls + 1) (n + k) tries (wire ++ take k buf)
  unfolding send_loop
  send_loop-sent k h e t small =
      let more : ltb n len ≡ true = ground arith in
      let held : ltb k (2 ^ 31) ≡ true = ground arith in
      let some_bytes : (k == 0) ≡ false = ground arith in rw (more, e, send_round, some_bytes, held)

  send_loop_end :
      len ≤ n
      → n < 2 ^ 31
      → send_loop (suc fuel) send buf len calls n tries wire
        ≡ some (record { result = some n; wire = wire; calls = calls })
  unfolding send_loop
  send_loop_end h small =
      let done : ltb n len ≡ false = ground arith in rw done (return_count-some n wire calls small)

  send_loop-failed :
      n < len
      → send calls ≡ failed
      → send_loop (suc fuel) send buf len calls n tries wire
        ≡ some (record { result = none; wire = wire; calls = calls + 1 })
  unfolding send_loop send_round
  send_loop-failed h e = let more : ltb n len ≡ true = ground arith in rw (more, e) refl

  send_loop-again :
      n < len
      → send calls ≡ again
      → 1 < tries
      → send_loop (suc fuel) send buf len calls n tries wire
        ≡ send_loop fuel send buf len (calls + 1) n (tries - 1) wire
  unfolding send_loop send_round
  send_loop-again h e t =
      let more : ltb n len ≡ true = ground arith in
      let left : leb (tries - 1) 0 ≡ false = ground arith in rw (more, e, left) refl

  send_loop-last :
      n < len
      → send calls ≡ again
      → tries ≤ 1
      → n < 2 ^ 31
      → send_loop (suc fuel) send buf len calls n tries wire
        ≡ some (record { result = some n; wire = wire; calls = calls + 1 })
  unfolding send_loop send_round
  send_loop-last h e t small =
      let more : ltb n len ≡ true = ground arith in
      let left : leb (tries - 1) 0 ≡ true = ground arith in
      rw (more, e, left) (return_count-some n wire (calls + 1) small)

SendResult-cases : (r : SendResult) → (r ≡ again) ⊎ (r ≡ failed) ⊎ ((k : ℕ) × (r ≡ sent k))
SendResult-cases again = inl refl
SendResult-cases failed = inr (inl refl)
SendResult-cases (sent k) = inr (inr (k, refl))

Interrupted-next :
    (send : ℕ → SendResult) (n : ℕ) → Interrupted send n → send n ≡ again → Interrupted send (n + 1)
Interrupted-next send n before e =
    subst (Interrupted send) (let next : suc n ≡ n + 1 = omega arith in next) (before, e)

module _ (send : ℕ → SendResult) (buf : Bytes) (len : ℕ) (more : 0 < len) (small : len < 2 ^ 31)
    (all : (call k : ℕ) → send call ≡ sent k → k ≡ len) where
  -- the loop with `tries` left, behind interrupted calls only
  send_loop_whole :
      (fuel tries calls : ℕ)
      → tries < fuel
      → 0 < tries
      → calls + tries ≡ 5
      → Interrupted send calls
      → Returns send buf len (send_loop (suc fuel) send buf len calls 0 tries [])
  send_loop_whole zero tries calls f t five before = absurd (omega arith)
  send_loop_whole (suc fuel) tries calls f t five before = elim (SendResult-cases (send calls)) [
    | inl e ↦ elim (Bool-cases (ltb 1 tries)) [
      | inl m ↦
          let left : 1 < tries = ground arith in
          subst (Returns send buf len)
            (sym (send_loop-again send buf len (suc fuel) calls 0 tries [] more e left))
            (send_loop_whole fuel (tries - 1) (calls + 1) (omega arith) (omega arith) (omega arith)
              (Interrupted-next send calls before e))
      | inr m ↦
          let last : tries ≤ 1 = ground arith in
          (
            _,
            send_loop-last send buf len (suc fuel) calls 0 tries [] more e last (omega arith),
            calls,
            refl,
            before,
            inr (inl (omega arith, e, refl, refl)),
          )
    ]
    | inr (inl e) ↦ (
      _,
      send_loop-failed send buf len (suc fuel) calls 0 tries [] more e,
      calls,
      refl,
      before,
      inr (inr (e, refl, refl)),
    )
    | inr (inr (k, e)) ↦
        let whole = all calls k e in
        (
          _,
          send_loop-sent send buf len (suc fuel) calls 0 tries [] k more e (omega arith)
                (omega arith)
              ∙ send_loop_end send buf len fuel (calls + 1) (0 + k) tries (take k buf) (omega arith)
                  (omega arith),
          calls,
          refl,
          before,
          inl (e ∙ ap sent whole, ap some (omega (arith, whole)), ap (λ n. take n buf) whole),
        )
  ]

-- If each call of `send` takes all that it is given or nothing at all, with -1, `send_buf` returns: behind
-- interrupted calls only it has sent the buffer once, with its length as the count, or nothing, with
-- 0 where five calls were interrupted, and with -1 where a call failed otherwise. The buffer is not
-- empty, and its length is below 2^31.
pub send_buf_whole :
    (send : ℕ → SendResult) (buf : Bytes) (len : ℕ)
    → 0 < len
    → len < 2 ^ 31
    → ((call k : ℕ) → send call ≡ sent k → k ≡ len)
    → Returns send buf len (send_buf send buf len)
unfolding send_buf
send_buf_whole send buf len more small all =
    let enough : len + 6 ≡ suc (len + 5) = omega arith in
    rw enough (
      send_loop_whole send buf len more small all (len + 5) 5 0 (omega arith) (omega arith) refl tt)

-- If a call takes a part of the buffer and the next takes all that it is given, the socket gets that
-- part and then the whole buffer from its start, and the count is above the length. The count is
-- below 2^31.
pub send_buf_partial :
    (send : ℕ → SendResult) (buf : Bytes) (len k : ℕ)
    → 0 < k
    → k < len
    → len + k < 2 ^ 31
    → send 0 ≡ sent k
    → send 1 ≡ sent len
    → (r : Sent) × (send_buf send buf len ≡ some r)
      × (r.wire ≡ take k buf ++ take len buf)
      × (r.result ≡ some (len + k))
unfolding send_buf
send_buf_partial send buf len k h l small e f =
    let enough : len + 6 ≡ suc (suc (suc (len + 3))) = omega arith in
    (
      record { result = some (0 + k + len); wire = take k buf ++ take len buf; calls = 0 + 1 + 1 },
      rw enough (
          send_loop-sent send buf len (suc (suc (len + 3))) 0 0 5 [] k (omega arith) e h
            (omega arith)
          ∙ send_loop-sent send buf len (suc (len + 3)) (0 + 1) (0 + k) 5 (take k buf) len
              (omega arith) f (omega arith) (omega arith)
          ∙ send_loop_end send buf len (len + 3) (0 + 1 + 1) (0 + k + len) 5
              (take k buf ++ take len buf) (omega arith) (omega arith)),
      refl,
      ap some (omega arith),
    )
