-- ===== src/Server/Transfer/Body.antt =====
-- What `write_body` sends of a body in memory.
use mimino.Base.{
  ℕ, zero, suc, ◌+◌, ◌^◌, ◌<◌, ◌≤◌, false, Bytes, List, [], ◌∷◌, map, none, some, ◌>>=◌, ◌⊎◌, inl,
  inr, Bool-cases, leb, Option, ◌≡◌, refl, sym, ap, ◌∙◌, arith, if_false, >>=-of_some, length, take,
  drop, >>=-some,
}
use mimino.Buffer.{Buffer, add_size}
use mimino.Buffer.Append.{Holds, length-Holds}
use mimino.Http.Html.{Memory, fill, or_memory}
use mimino.Http.Response.{off_lt}
use mimino.Server.Send.{SendResult, sent, Sent}
use mimino.Server.Types.{Response, Connection}
use mimino.Server.Transfer.{
  sub_size, send_cells, write_body, write_data, body_sent, refused, finished, Written,
}
use mimino.Server.Transfer.Cells.{send_cells_inside, send_cells_beyond, filled_text}
use mimino.Server.Transfer.Rest.{Completes}

module _ {A : Type 0} where
  take-take_min : (n m : ℕ) (xs : List A) → n ≤ m → take n (take m xs) ≡ take n xs
  take-take_min zero m xs h = refl
  take-take_min (suc n) zero xs h = absurd (omega arith)
  take-take_min (suc n) (suc m) [] h = refl
  take-take_min (suc n) (suc m) (x ∷ xs) h = ap (x ∷◌) (take-take_min n m xs (omega arith))

  -- a part of a list, read off its first `n` items
  part_within :
      (from len n : ℕ) (xs : List A)
      → from + len ≤ n
      → take len (drop from xs) ≡ take len (drop from (take n xs))
  part_within zero len n xs h = sym (take-take_min len n xs (omega arith))
  part_within (suc from) len zero xs h = absurd (omega arith)
  part_within (suc from) len (suc n) [] h = refl
  part_within (suc from) len (suc n) (x ∷ xs) h = part_within from len n xs (omega arith)

  part-map :
      (from len : ℕ) (xs : List A)
      → take len (drop from (map some xs)) ≡ map some (take len (drop from xs))
  part-map zero zero xs = refl
  part-map zero (suc len) [] = refl
  part-map zero (suc len) (x ∷ xs) = ap (some x ∷◌) (part-map zero len xs)
  part-map (suc from) zero [] = refl
  part-map (suc from) (suc len) [] = refl
  part-map (suc from) len (x ∷ xs) = part-map from len xs

no_more :
    (start end : ℕ) → start + (end + 1) < 2 ^ 31 → off_lt (start + (end + 1)) (end + 1) ≡ false
no_more start end small = ground arith

-- the test behind the call, which has sent all of it
not_less :
    (a b fresh len start end : ℕ)
    → a ≡ start
    → b ≡ end
    → fresh ≡ 0
    → len ≡ end + 1
    → start + (end + 1) < 2 ^ 31
    → off_lt (add_size a (add_size fresh len)) (add_size b 1) ≡ false
not_less a b fresh len start end first last none_sent all small =
    let left : add_size a (add_size fresh len) ≡ start + (end + 1) =
      omega (arith, first, none_sent, all, small) in
    let right : add_size b 1 ≡ end + 1 = omega (arith, last, small) in
    rw (left, right) (no_more start end small)

-- A body whose range is set, of which nothing is sent yet.
module _ (memory : Memory) (send : ℕ → SendResult) (conn : Connection) (res : Response)
    (body : Buffer) (start end : ℕ) (has : conn.res ≡ some res) (has_body : res.body ≡ some body)
    (fresh : res.body_nbytes_sent ≡ 0) (from : res.range_start ≡ some start)
    (to : res.range_end ≡ some end) (small : start + (end + 1) < 2 ^ 31) where
  -- what `write_body` passes to `send_buf`, and what it makes of the result
  write_body_calls : write_body memory send conn ≡ (
      send_cells memory send body.cells start (end + 1) >>= λ s. some (
        body_sent s.result conn res
          (or_memory memory.number res.range_start)
          (or_memory memory.number res.range_end)
          s.wire
          s.calls))
  unfolding write_body write_data
  write_body_calls =
      let first : or_memory memory.number res.range_start ≡ start =
        ap (or_memory memory.number) from in
      let last : or_memory memory.number res.range_end ≡ end = ap (or_memory memory.number) to in
      let at : add_size (or_memory memory.number res.range_start) res.body_nbytes_sent ≡ start =
        omega (arith, first, fresh, small) in
      let len : sub_size (add_size (or_memory memory.number res.range_end) 1) res.body_nbytes_sent
          ≡ end + 1 =
        omega (arith, last, fresh, small) in
      let goes_on : Sent → Option Written = λ s. some (
        body_sent s.result conn res (or_memory memory.number res.range_start)
          (or_memory memory.number res.range_end) s.wire s.calls) in
      >>=-of_some conn.res _ has
      ∙ ap
          (λ b. elim b [
            | none ↦ some (refused conn)
            | some body ↦ write_data memory send conn res body
          ])
          has_body
      ∙ ap
          (λ n.
            send_cells memory send body.cells n
              (sub_size (add_size (or_memory memory.number res.range_end) 1) res.body_nbytes_sent)
            >>= goes_on)
          at
      ∙ ap (λ n. send_cells memory send body.cells start n >>= goes_on) len

  write_body_inside :
      start + (end + 1) ≤ length body.cells
      → send 0 ≡ sent (end + 1)
      → Completes
          (fill memory.byte (take (end + 1) (drop start body.cells)))
          (write_body memory send conn)
  unfolding body_sent
  write_body_inside inside takes =
      let part = fill memory.byte (take (end + 1) (drop start body.cells)) in
      let res' : Response = record res {
        body_nbytes_sent = add_size res.body_nbytes_sent (end + 1);
      } in
      (
        finished conn res' part 1,
        write_body_calls
            ∙ >>=-some (send_cells memory send body.cells start (end + 1)) _
                (send_cells_inside memory send body.cells start (end + 1) inside (omega arith)
                  (omega (arith, small)) takes)
                (ap some (
                  if_false
                    (off_lt
                      (add_size (or_memory memory.number res.range_start) res'.body_nbytes_sent)
                      (add_size (or_memory memory.number res.range_end) 1))
                    _ _
                    (not_less (or_memory memory.number res.range_start)
                      (or_memory memory.number res.range_end) res.body_nbytes_sent (end + 1) start
                      end (ap (or_memory memory.number) from) (ap (or_memory memory.number) to)
                      fresh refl small))),
        refl,
        refl,
      )

  write_body_beyond : length body.cells < start + (end + 1) → write_body memory send conn ≡ none
  write_body_beyond beyond =
      write_body_calls
      ∙ ap
          (λ o. o >>= λ s. some (
            body_sent s.result conn res (or_memory memory.number res.range_start)
              (or_memory memory.number res.range_end) s.wire s.calls))
          (send_cells_beyond memory send body.cells start (end + 1) beyond)

  -- The bytes are inside the body's text.
  pub write_body_text :
      (text : Bytes)
      → Holds body text
      → start + (end + 1) ≤ length text
      → send 0 ≡ sent (end + 1)
      → Completes (take (end + 1) (drop start text)) (write_body memory send conn)
  write_body_text text h inside takes =
      let count : body.n_items ≡ length text = length-Holds text h in
      let (r, done, status, wire) =
        write_body_inside (omega (arith, inside, count, h.fits, h.alloc)) takes in
      (
        r,
        done,
        status,
        wire
            ∙ ap (fill memory.byte) (
                part_within start (end + 1) body.n_items body.cells (omega (arith, count, inside))
                ∙ ap (λ l. take (end + 1) (drop start l)) h.items
                ∙ part-map start (end + 1) text)
            ∙ filled_text memory.byte (take (end + 1) (drop start text)),
      )

  -- Where the call of `send` takes what it is given, `write_body` sends as many bytes as the end of the
  -- range says, and one, from the range's start on: all of the range where it starts at 0, and more
  -- than the range otherwise. Where these are inside the body's text, they are its bytes; behind the
  -- text they are what memory holds in the body's allocation, and behind the allocation the read
  -- faults. Nothing of the body is sent yet, and the start and the count add up to less than 2^31.
  pub write_body-range :
      (text : Bytes)
      → Holds body text
      → send 0 ≡ sent (end + 1)
      → ((start + (end + 1) ≤ length text)
          × Completes (take (end + 1) (drop start text)) (write_body memory send conn))
        ⊎ ((length text < start + (end + 1))
            × (start + (end + 1) ≤ length body.cells)
            × Completes
                (fill memory.byte (take (end + 1) (drop start body.cells)))
                (write_body memory send conn))
        ⊎ ((length body.cells < start + (end + 1)) × (write_body memory send conn ≡ none))
  write_body-range text h takes = elim (Bool-cases (leb (start + (end + 1)) (length text))) [
    | inl e ↦
        let inside : start + (end + 1) ≤ length text = ground arith in
        inl (inside, write_body_text text h inside takes)
    | inr e ↦ elim (Bool-cases (leb (start + (end + 1)) (length body.cells))) [
      | inl e' ↦
          let inside : start + (end + 1) ≤ length body.cells = ground arith in
          inr (inl (ground arith, inside, write_body_inside inside takes))
      | inr e' ↦
          let beyond : length body.cells < start + (end + 1) = ground arith in
          inr (inr (beyond, write_body_beyond beyond))
    ]
  ]
