-- ===== src/Server/Transfer/Cells.antt =====
-- The bytes of an allocation, put on a socket that takes what it is given.
use mimino.Base.{
  ℕ, zero, suc, ◌+◌, ◌^◌, ◌<◌, ◌≤◌, true, Bytes, List, [], ◌∷◌, map, some, ◌≡◌, refl, ap, ◌∙◌,
  arith, leb, if_true, if_false, false, none, length, take, drop,
}
use mimino.Buffer.{Cell}
use mimino.Http.Html.{Memory, or_memory, fill}
use mimino.Server.Send.{SendResult, sent}
use mimino.Server.Send.Once.{send_buf_once}
use mimino.Server.Transfer.{send_cells}

take-fill : (byte n : ℕ) (cells : List Cell) → take n (fill byte cells) ≡ fill byte (take n cells)
take-fill byte zero cells = refl
take-fill byte (suc n) [] = refl
take-fill byte (suc n) (c ∷ cells) = ap (λ l. or_memory byte c ∷ l) (take-fill byte n cells)

pub filled_text : (byte : ℕ) (bs : Bytes) → fill byte (map some bs) ≡ bs
filled_text byte [] = refl
filled_text byte (b ∷ bs) = ap (λ l. b ∷ l) (filled_text byte bs)

-- A part inside the allocation.
pub send_cells_inside :
    (memory : Memory) (send : ℕ → SendResult) (cells : List Cell) (at len : ℕ)
    → at + len ≤ length cells
    → 0 < len
    → len < 2 ^ 31
    → send 0 ≡ sent len
    → send_cells memory send cells at len
      ≡ some (record {
        result = some len;
        wire = fill memory.byte (take len (drop at cells));
        calls = 1;
      })
unfolding send_cells
send_cells_inside memory send cells at len inside more small e =
    let fits : leb (at + len) (length cells) ≡ true = ground arith in
    if_true (leb (at + len) (length cells)) _ _ fits
    ∙ send_buf_once send (fill memory.byte (drop at cells)) len more small e
    ∙ ap (λ l. some (record { result = some len; wire = l; calls = 1 }))
        (take-fill memory.byte len (drop at cells))

-- A part that is not.
pub send_cells_beyond :
    (memory : Memory) (send : ℕ → SendResult) (cells : List Cell) (at len : ℕ)
    → length cells < at + len
    → send_cells memory send cells at len ≡ none
unfolding send_cells
send_cells_beyond memory send cells at len beyond =
    let outside : leb (at + len) (length cells) ≡ false = ground arith in
    if_false (leb (at + len) (length cells)) _ _ outside

-- The cells that hold a text are inside the allocation.
pub send_cells_whole :
    (memory : Memory) (send : ℕ → SendResult) (cells : List Cell) (at len : ℕ) (text : Bytes)
    → at + len ≤ length cells
    → take len (drop at cells) ≡ map some text
    → 0 < len
    → len < 2 ^ 31
    → send 0 ≡ sent len
    → send_cells memory send cells at len
      ≡ some (record { result = some len; wire = text; calls = 1 })
send_cells_whole memory send cells at len text inside holds more small e =
    send_cells_inside memory send cells at len inside more small e
    ∙ ap (λ l. some (record { result = some len; wire = l; calls = 1 }))
        (ap (fill memory.byte) holds ∙ filled_text memory.byte text)
