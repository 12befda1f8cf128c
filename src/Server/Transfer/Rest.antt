-- ===== src/Server/Transfer/Rest.antt =====
-- What `write_file` sends of a file.
use mathlib.Core.Path.{fun_ext}
use mimino.Base.{
  ℕ, zero, suc, ◌+◌, ◌-◌, ◌*◌, ◌^◌, ◌<◌, ◌==◌, ltb, true, false, inl, inr, Bool-cases, Bytes, List,
  min, [], ◌∷◌, ◌++◌, Option, some, ◌≡◌, refl, sym, ap, ◌∙◌, arith, take, drop, length, length-take,
  length-drop, drop_add, taken_and_dropped, take_all, append_assoc, append-nil, if◌then◌else◌,
  if_true, if_false, if_both, >>=-some,
}
use mimino.Buffer.{add_size}
use mimino.Http.Html.{Memory, or_memory}
use mimino.Server.Send.{SendResult, sent, send_buf}
use mimino.Server.Send.Once.{send_buf_once}
use mimino.Server.Types.{Response, Connection}
use mimino.Server.Transfer.{
  Calls, chunk, complete_write, Written, finished, file_sent, write_file_loop, write_opened,
  write_file, sub_size,
}

next_chunk : (at j k : ℕ) → (at + k) + j * k ≡ at + (suc j) * k
next_chunk at j k = omega arith

-- the part of a file that a round reads
abbrev pub part : Bytes → ℕ → ℕ → Bytes
part content k at = take k (drop at content)

module _ {A : Type 0} where
  empty : (xs : List A) → length xs ≡ 0 → xs ≡ []
  empty [] h = refl
  empty (x ∷ xs) h = absurd (omega arith)

part-rest :
    (content : Bytes) (k at : ℕ)
    → part content k at ++ drop (at + length (part content k at)) content ≡ drop at content
part-rest content k at =
    ap (λ l. part content k at ++ l) (drop_add at (length (part content k at)) content)
    ∙ taken_and_dropped k (drop at content)

length-part :
    (content : Bytes) (k at : ℕ) → length (part content k at) ≡ min k (length content - at)
length-part content k at = omega (arith, length-take k (drop at content), length-drop at content)

-- what is to be read after a round, by the number of the round
length-part_next :
    (content : Bytes) (k at j : ℕ)
    → length (part content k (at + (suc j) * k))
      ≡ length (part content k (at + length (part content k at) + j * k))
length-part_next content k at j = omega (
  arith,
  next_chunk at j k,
  length-part content k at,
  length-part content k (at + (suc j) * k),
  length-part content k (at + length (part content k at) + j * k),
)

-- a run of the loop that sends what it is to send, and completes
abbrev pub Completes : Bytes → Option Written → Type 0
Completes wire o = (r : Written) × (o ≡ some r) × (r.status ≡ complete_write) × (r.wire ≡ wire)

-- The loop sends the file from the place that it has reached to its end, if each call takes what it
-- is given.
write_file_loop-rest :
    (content : Bytes) (k : ℕ) (send : ℕ → SendResult)
    → 0 < k
    → k < 2 ^ 31
    → (rounds at : ℕ) (conn : Connection) (res : Response) (wire : Bytes) (calls : ℕ)
    → length content - at < rounds
    → ((j : ℕ) → send (calls + j) ≡ sent (length (part content k (at + j * k))))
    → Completes
        (wire ++ drop at content)
        (write_file_loop rounds send (λ i. chunk (part content k i)) at conn res wire calls)
unfolding write_file_loop file_sent
write_file_loop-rest content k send more small zero at conn res wire calls h takes =
    absurd (omega arith)
write_file_loop-rest content k send more small (suc rounds) at conn res wire calls h takes =
    elim (Bool-cases (length (part content k at) == 0)) [
      | inl e ↦
          let zero_left : length (part content k at) ≡ 0 = ground arith in
          (
            finished conn res wire calls,
            if_true (length (part content k at) == 0) _ _ e,
            refl,
            sym (
                ap (λ l. wire ++ l)
                  (empty (drop at content)
                    (omega (arith, length-part content k at, length-drop at content)))
                ∙ append-nil wire),
          )
      | inr e ↦
          let n = length (part content k at) in
          let some_left : 0 < n = ground arith in
          let all : send_buf (λ call. send (calls + call)) (part content k at) n
              ≡ some (record { result = some n; wire = part content k at; calls = 1 }) =
            send_buf_once (λ call. send (calls + call)) (part content k at) n some_left
              (omega (arith, small, length-part content k at))
              (takes 0 ∙ ap (λ i. sent (length (part content k i))) (omega arith))
            ∙ ap (λ l. some (record { result = some n; wire = l; calls = 1 }))
                (take_all (part content k at)) in
          let (r, done, status, sent_bytes) =
            write_file_loop-rest content k send more small rounds (at + n)
              (record conn { write_tries_left = 5 })
              (record res {
                file_offset = add_size res.file_offset n;
                file_nbytes_sent = add_size res.file_nbytes_sent n;
              })
              (wire ++ part content k at) (calls + 1)
              (omega (arith, h, some_left, length-part content k at))
              (λ j.
                ap send (omega arith)
                ∙ takes (suc j)
                ∙ ap sent (length-part_next content k at j)) in
          (
            r,
            if_false (n == 0) _ _ e
                ∙ >>=-some (send_buf (λ call. send (calls + call)) (part content k at) n) _ all
                    (if_false (n == 0) _ _ e ∙ done),
            status,
            sent_bytes
                ∙ append_assoc wire (part content k at) (drop (at + n) content)
                ∙ ap (λ l. wire ++ l) (part-rest content k at),
          )
    ]

-- A read asks for 4096 bytes at most.
read_bound : (left k : ℕ) → (if ltb 4096 left then 4096 else left) ≡ k → k < 2 ^ 31
read_bound left k e = ground arith

-- Where a file can be opened and read, and each call of `send` takes what it is given, `write_file`
-- completes, and sends the file from the response's offset to the file's end, wherever the range
-- ends. The range ends behind the offset, and there are more rounds than bytes left.
pub write_file-rest :
    (memory : Memory) (calls : Calls) (conn : Connection) (res : Response) (path content : Bytes)
    (end k : ℕ)
    → conn.res ≡ some res
    → res.file_path ≡ some path
    → res.file.is_null ≡ false
    → calls.fopen path ≡ true
    → calls.fseeko path res.file_offset ≡ true
    → res.range_end ≡ some end
    → (if ltb 4096 (sub_size end res.file_offset) then 4096 else sub_size end res.file_offset) ≡ k
    → 0 < k
    → ((at : ℕ) → calls.fread path at k ≡ chunk (part content k at))
    → length content - res.file_offset < calls.rounds
    → ((j : ℕ) → calls.send j ≡ sent (length (part content k (res.file_offset + j * k))))
    → Completes (drop res.file_offset content) (write_file memory calls conn)
unfolding write_file write_opened
write_file-rest memory calls conn res path content end k has has_path real opens seeks its_end size
      more reads enough takes =
    let size_read =
      if ltb 4096 (sub_size (or_memory memory.number res.range_end) res.file_offset)
      then 4096
      else sub_size (or_memory memory.number res.range_end) res.file_offset in
    let as_given : size_read ≡ k =
      ap
        (λ o.
          if ltb 4096 (sub_size (or_memory memory.number o) res.file_offset)
          then 4096
          else sub_size (or_memory memory.number o) res.file_offset)
        its_end
      ∙ size in
    let same : (λ (at : ℕ). calls.fread path at size_read) ≡ (λ at. chunk (part content k at)) =
      fun_ext (λ at. ap (calls.fread path at) as_given ∙ reads at) in
    let bounded : k < 2 ^ 31 = read_bound (sub_size end res.file_offset) k size in
    let (r, done, status, sent_bytes) =
      write_file_loop-rest content k calls.send more bounded calls.rounds res.file_offset conn res
        [] 0 enough (λ j. ap calls.send (omega arith) ∙ takes j) in
    let loop =
      ap (λ read. write_file_loop calls.rounds calls.send read res.file_offset conn res [] 0) same
      ∙ done in
    (
      r,
      >>=-some conn.res _ has (
          >>=-some res.file_path _ has_path (
            if_false res.file.is_null _ _ real
            ∙ if_true (calls.fopen path) _ _ opens
            ∙ if_both (λ o. o ≡ some r) (res.file_offset == 0) _ _ loop
                (if_true (calls.fseeko path res.file_offset) _ _ seeks ∙ loop))),
      status,
      sent_bytes,
    )
