-- ===== src/Buffer/Append.antt =====
-- The operations of buffer.c against the list of the bytes that a buffer holds.
use mimino.Base.{
  ℕ, zero, suc, ◌+◌, ◌-◌, ◌*◌, ◌^◌, ◌≤◌, ◌<◌, true, false, Bytes, List, [], ◌∷◌, ◌++◌, map, Option,
  none, some, ◌≡◌, refl, ap, ◌∙◌, inl, inr, arith, tests, ltb, leb, ◌==◌, Bool-cases, length, take,
  drop, replicate, max, length-append, length-take, length-drop, length-replicate, length-map,
  append-nil, append_assoc,
}
use mathlib.Core.List.{map-append}
use mathlib.Core.Path.{subst}
use mimino.Buffer.{
  Cell, Buffer, add_size, xmalloc, xrealloc, memcpy, init_buf, buf_grow, reserve, put, buf_push,
  buf_append, buf_append_str, buf_append_buf, buf_sprintf,
}

-- The buffer holds the bytes `bs`, all of them written, in an allocation of the size it records,
-- which is at most about twice what it holds.
pub record Holds (b : Buffer) (bs : Bytes) : Type 0 where
  pub alloc : length b.cells ≡ b.n_alloc
  pub fits : b.n_items ≤ b.n_alloc
  pub tight : b.n_alloc ≤ 2 * b.n_items + 8192
  pub items : take b.n_items b.cells ≡ map some bs

-- The operation succeeds, and the buffer holds what it held and `xs` behind it.
abbrev pub Appended : Bytes → Bytes → Option Buffer → Type 0
Appended bs xs r = (b : Buffer) × (r ≡ some b) × Holds b (bs ++ xs)

take-append_add {ℓ} :
    {A : Type ℓ} (n k : ℕ) (xs ys : List A)
    → length xs ≡ n
    → take (n + k) (xs ++ ys) ≡ xs ++ take k ys
take-append_add zero k [] ys h = let e : 0 + k ≡ k = omega arith in ap (λ j. take j ys) e
take-append_add zero k (x ∷ xs) ys h = absurd (omega arith)
take-append_add (suc n) k [] ys h = absurd (omega arith)
take-append_add (suc n) k (x ∷ xs) ys h =
    let e : suc n + k ≡ suc (n + k) = omega arith in
    ap (λ j. take j (x ∷ (xs ++ ys))) e ∙ ap (◌∷◌ x) (take-append_add n k xs ys (omega arith))

pub take-length {ℓ} : {A : Type ℓ} (xs ys : List A) → take (length xs) (xs ++ ys) ≡ xs
take-length [] ys = refl
take-length (x ∷ xs) ys = ap (◌∷◌ x) (take-length xs ys)

take-take {ℓ} :
    {A : Type ℓ} (n m : ℕ) (xs ys : List A)
    → n ≤ m
    → n ≤ length xs
    → take n (take m xs ++ ys) ≡ take n xs
take-take zero m xs ys h k = refl
take-take (suc n) zero xs ys h k = absurd (omega arith)
take-take (suc n) (suc m) [] ys h k = absurd (omega arith)
take-take (suc n) (suc m) (x ∷ xs) ys h k =
    ap (◌∷◌ x) (take-take n m xs ys (omega arith) (omega arith))

pub length-Holds : {b : Buffer} (bs : Bytes) → Holds b bs → b.n_items ≡ length bs
length-Holds {b} bs h = omega (
  arith,
  ap length h.items,
  length-take b.n_items b.cells,
  length-map {B = Cell} bs some,
  h.fits,
  h.alloc,
)

-- What `reserve` leaves: the same bytes, in an allocation with room for `n` more.
pub record Reserved (b : Buffer) (bs : Bytes) (n : ℕ) (r : Buffer) : Type 0 where
  pub alloc : length r.cells ≡ r.n_alloc
  pub room : b.n_items + n ≤ r.n_alloc
  tight : r.n_alloc ≤ 2 * b.n_items + (2 * n - 2) + 8192
  pub same : r.n_items ≡ b.n_items
  items : take b.n_items r.cells ≡ map some bs

buf_grow-Reserved :
    {b : Buffer} {bs : Bytes} (n : ℕ)
    → Holds b bs
    → b.n_items + n < 2 ^ 62
    → b.n_alloc < b.n_items + n
    → Reserved b bs n (buf_grow b n)
unfolding buf_grow xrealloc
buf_grow-Reserved {b} {bs} n h small full = record {
  alloc =
      length-append (take size b.cells) (replicate (size - length b.cells) none)
      ∙ omega (
        arith,
        length-take size b.cells,
        length-replicate {0} {A = Cell} (size - length b.cells) none,
        h.alloc,
      );
  room = omega (arith, h.tight);
  tight = omega (arith, h.tight);
  same = refl;
  items =
      take-take b.n_items size b.cells _ (omega (arith, h.tight)) (omega (arith, h.alloc))
      ∙ h.items;
}
  where
    size : ℕ
    size = add_size b.n_alloc (max n 4096)

pub reserve-Reserved :
    {b : Buffer} {bs : Bytes} (n : ℕ)
    → Holds b bs
    → b.n_items + n < 2 ^ 62
    → Reserved b bs n (reserve b n)
unfolding reserve
reserve-Reserved {b} {bs} n h small = elim (Bool-cases (ltb b.n_alloc (add_size b.n_items n))) [
  | inl full ↦ rw full (buf_grow-Reserved n h small (omega tests))
  | inr room ↦ rw room (record {
    alloc = h.alloc;
    room = ground arith;
    tight = omega (arith, h.tight);
    same = refl;
    items = h.items;
  })
]

-- The buffer holds the bytes `bs`, all of them written, in an allocation of the size it records.
pub record Held (b : Buffer) (bs : Bytes) : Type 0 where
  pub alloc : length b.cells ≡ b.n_alloc
  pub fits : b.n_items ≤ b.n_alloc
  pub items : take b.n_items b.cells ≡ map some bs

module _ (r : Buffer) (bs : Bytes) (alloc : length r.cells ≡ r.n_alloc)
    (items : take r.n_items r.cells ≡ map some bs) where
  -- Where there is room for `xs`, and for `more` behind it, writing them appends `xs`.
  pub put-Held :
      (xs : Bytes) (more : List Cell)
      → r.n_items + (length xs + length more) ≤ r.n_alloc
      → r.n_items + length xs < 2 ^ 62
      → (b : Buffer) × (put r (map some xs ++ more) (length xs) ≡ some b)
        × Held b (bs ++ xs)
        × (b.n_items ≡ r.n_items + length xs)
        × (b.n_alloc ≡ r.n_alloc)
  unfolding put memcpy
  put-Held xs more room small = (
    record r { cells = written; n_items = add_size r.n_items (length xs) },
    rw fit refl,
    record {
      alloc =
          length-append (take r.n_items r.cells) _
          ∙ omega (
            arith,
            length-append src (drop (r.n_items + length src) r.cells),
            total,
            length-take r.n_items r.cells,
            length-drop (r.n_items + length src) r.cells,
            alloc,
            room,
          );
      fits = omega (arith, room);
      items = shown;
    },
    counted,
    refl,
  )
    where
      src : List Cell
      src = map some xs ++ more

      total : length src ≡ length xs + length more
      total = length-append (map some xs) more ∙ omega (arith, length-map {B = Cell} xs some)

      written : List Cell
      written = take r.n_items r.cells ++ (src ++ drop (r.n_items + length src) r.cells)

      fit : leb (r.n_items + length src) (length r.cells) ≡ true
      fit =
          let h : r.n_items + length src ≤ length r.cells = omega (arith, room, alloc, total) in
          ground arith

      before : List Cell
      before = take r.n_items r.cells

      held : length before ≡ r.n_items
      held = omega (arith, length-take r.n_items r.cells, alloc, room)

      prefix :
          take (length xs) (map some xs ++ (more ++ drop (r.n_items + length src) r.cells))
          ≡ map some xs
      prefix = rw (← length-map {B = Cell} xs some) (take-length (map some xs) _)

      counted : add_size r.n_items (length xs) ≡ r.n_items + length xs
      counted = omega (arith, small)

      shown : take (add_size r.n_items (length xs)) written ≡ map some (bs ++ xs)
      shown = rw counted (
          take-append_add r.n_items (length xs) before _ held
          ∙ rw (append_assoc, prefix, map-append, items))

module _ {b r : Buffer} {bs : Bytes} (n : ℕ) (s : Reserved b bs n r) where
  pub items-Reserved : take r.n_items r.cells ≡ map some bs
  items-Reserved = ap (λ k. take k r.cells) s.same ∙ s.items

  -- Writing `xs`, and `more` behind it, into the room reserved appends `xs`.
  put-Appended :
      (xs : Bytes) (more : List Cell)
      → length xs + length more ≡ n
      → n ≤ length xs + 1
      → b.n_items + n < 2 ^ 62
      → Appended bs xs (put r (map some xs ++ more) (length xs))
  put-Appended xs more e one small =
      let (b', written, h, count, size) =
        put-Held r bs s.alloc items-Reserved xs more (omega (arith, s.room, s.same))
          (omega (arith, s.same)) in
      (
        b',
        written,
        record {
          alloc = h.alloc;
          fits = h.fits;
          tight = omega (arith, s.tight, s.same, count, size);
          items = h.items;
        },
      )

-- `if (!n) return`, past the test
suc-ne-zero : (n : ℕ) → (suc n == 0) ≡ false
suc-ne-zero n = ground arith

pub init_buf-Holds : (size : ℕ) → size ≤ 8192 → Holds (init_buf size) []
unfolding init_buf xmalloc
init_buf-Holds size h = record {
  alloc = length-replicate size none;
  fits = omega arith;
  tight = omega arith;
  items = refl;
}

module _ {b : Buffer} {bs : Bytes} (h : Holds b bs) where
  -- `buf_push` writes inside the allocation, and the buffer then holds one more byte.
  pub buf_push-Appended : (c : ℕ) → b.n_items + 1 < 2 ^ 62 → Appended bs (c ∷ []) (buf_push b c)
  unfolding buf_push
  buf_push-Appended c small =
      put-Appended 1 (reserve-Reserved 1 h small) (c ∷ []) [] (omega arith) (omega arith) small

  put_all :
      (xs : Bytes)
      → b.n_items + length xs < 2 ^ 62
      → Appended bs xs (put (reserve b (length xs)) (map some xs) (length xs))
  put_all xs small =
      subst (λ (cells : List Cell). Appended bs xs (put (reserve b (length xs)) cells (length xs)))
        (append-nil (map some xs))
        (put-Appended (length xs) (reserve-Reserved (length xs) h small) xs [] (omega arith)
          (omega arith) small)

  -- `buf_append` writes inside the allocation, and the buffer then holds the bytes behind its own.
  pub buf_append-Appended :
      (src : Bytes) → b.n_items + length src < 2 ^ 62 → Appended bs src (buf_append b src)
  unfolding buf_append
  buf_append-Appended [] small = (b, refl, rw append-nil h)
  buf_append-Appended (c ∷ cs) small = rw (suc-ne-zero (length cs)) (put_all (c ∷ cs) small)

  pub buf_append_str-Appended :
      (src : Bytes) → b.n_items + length src < 2 ^ 62 → Appended bs src (buf_append_str b src)
  unfolding buf_append_str
  buf_append_str-Appended src small = buf_append-Appended src small

  buf_append_buf-Appended :
      {src : Buffer} (xs : Bytes)
      → Holds src xs
      → b.n_items + src.n_items < 2 ^ 62
      → Appended bs xs (buf_append_buf b src)
  unfolding buf_append_buf
  buf_append_buf-Appended {src} [] k small =
      let n : (src.n_items == 0) ≡ true = ground (arith, length-Holds [] k) in
      rw n (b, refl, rw append-nil h)
  buf_append_buf-Appended {src} (c ∷ cs) k small =
      let n = length-Holds (c ∷ cs) k in
      let some_items : (src.n_items == 0) ≡ false = ground arith in
      rw (some_items, k.items, n) (put_all (c ∷ cs) (omega arith))

  pub buf_sprintf-Appended :
      (text : Bytes) → b.n_items + length text + 1 < 2 ^ 62 → Appended bs text (buf_sprintf b text)
  unfolding buf_sprintf
  buf_sprintf-Appended text small = rw map-append (
      put-Appended (length text + 1) (reserve-Reserved (length text + 1) h (omega arith)) text
        (some 0 ∷ []) (omega arith) (omega arith) (omega arith))
