-- ===== src/Dir/Path/BaseName.antt =====
-- `get_base_name` of a path that ends in a name behind a slash.
use mimino.Base.{
  ℕ, zero, suc, ◌+◌, ◌-◌, ◌≤◌, ◌<◌, ◌≢◌, false, Bytes, [], ◌∷◌, ◌++◌, ◌≡◌, refl, ap, arith, ◌==◌,
  if◌then◌else◌, length, take, drop, get_or, length-append, append_assoc, All,
}
use mimino.Dir.Path.{base_name_loop, get_base_name}

get_or-append : (l m : Bytes) (i j : ℕ) → i ≡ length l + j → get_or (l ++ m) i 0 ≡ get_or m j 0
get_or-append [] m i j e = let same : i ≡ j = omega arith in rw same
get_or-append (c ∷ l) m zero j e = absurd (omega arith)
get_or-append (c ∷ l) m (suc i) j e = get_or-append l m i j (omega arith)

drop-append : (l m : Bytes) (i : ℕ) → i ≡ length l → drop i (l ++ m) ≡ m
drop-append [] m zero e = refl
drop-append [] m (suc i) e = absurd (omega arith)
drop-append (c ∷ l) m zero e = absurd (omega arith)
drop-append (c ∷ l) m (suc i) e = drop-append l m i (omega arith)

take-append : (l m : Bytes) → take (length l) (l ++ m) ≡ l
take-append [] m = refl
take-append (c ∷ l) m = ap (◌∷◌ c) (take-append l m)

abbrev pub NoSlash : Bytes → Type 0
NoSlash = All (λ c. c ≢ b'/')

get_or-NoSlash :
    (name tail : Bytes) (j : ℕ) → NoSlash name → j < length name → get_or (name ++ tail) j 0 ≢ b'/'
get_or-NoSlash [] tail j h l = absurd (omega arith)
get_or-NoSlash (c ∷ name) tail zero h l = h.0
get_or-NoSlash (c ∷ name) tail (suc j) h l = get_or-NoSlash name tail j h.1 (omega arith)

module _ (dir name tail : Bytes) (some_dir : 0 < length dir) (plain : NoSlash name) where
  path : Bytes
  path = dir ++ (b'/' ∷ (name ++ tail))

  -- From `j` places into the name, the loop walks back to the slash.
  base_name_loop-slash :
      (j from len : ℕ)
      → from ≡ length dir + j
      → j ≤ length name
      → base_name_loop path from len ≡ (length dir + 1, len + j - 1)
  unfolding base_name_loop path
  base_name_loop-slash j zero len e l = absurd (omega arith)
  base_name_loop-slash zero (suc from) len e l =
      let slash = get_or-append dir (b'/' ∷ (name ++ tail)) (suc from) 0 e in ground arith
  base_name_loop-slash (suc j) (suc from) len e l =
      let here = get_or-append dir (b'/' ∷ (name ++ tail)) (suc from) (suc j) e in
      let other = get_or-NoSlash name tail j plain (omega arith) in
      ground (arith, base_name_loop-slash j from (len + 1))

  cut : take (length name) (drop (length dir + 1) path) ≡ name
  unfolding path
  cut =
      let behind =
        drop-append (dir ++ (b'/' ∷ [])) (name ++ tail) (length dir + 1)
          (omega (arith, length-append dir (b'/' ∷ []))) in
      rw (← append_assoc dir (b'/' ∷ []) (name ++ tail), behind) (take-append name tail)

  -- The loop is entered at the last byte of the name.
  from_name :
      (from : ℕ)
      → length path ≢ 1
      → (if get_or path (length path - 1) 0 == b'/' then length path - 1 - 1 else length path - 1)
        ≡ from
      → from ≡ length dir + length name
      → get_base_name path ≡ name
  unfolding get_base_name
  from_name from long e f =
      let many : (length path == 1) ≡ false = ground arith in
      let loop = base_name_loop-slash (length name) from 1 f (omega arith) in
      let count : 1 + length name - 1 ≡ length name = omega arith in rw (many, e, loop, count) cut

length-path :
    (dir name tail : Bytes)
    → length (dir ++ (b'/' ∷ (name ++ tail))) ≡ length dir + length name + length tail + 1
length-path dir name tail =
    omega (arith, length-append dir (b'/' ∷ (name ++ tail)), length-append name tail)

byte_of_name :
    (dir name tail : Bytes) (i j : ℕ)
    → i ≡ length dir + suc j
    → get_or (dir ++ (b'/' ∷ (name ++ tail))) i 0 ≡ get_or (name ++ tail) j 0
byte_of_name dir name tail i j e = get_or-append dir (b'/' ∷ (name ++ tail)) i (suc j) e

start_plain :
    (dir name : Bytes)
    → 0 < length name
    → NoSlash name
    → let p = dir ++ (b'/' ∷ (name ++ [])) in
      (if get_or p (length p - 1) 0 == b'/' then length p - 1 - 1 else length p - 1)
      ≡ length dir + length name
start_plain dir name n plain =
    let p = dir ++ (b'/' ∷ (name ++ [])) in
    let size = length-path dir name [] in
    let byte = byte_of_name dir name [] (length p - 1) (length name - 1) (omega arith) in
    let other = get_or-NoSlash name [] (length name - 1) plain (omega arith) in ground arith

start_slash :
    (dir name : Bytes)
    → 0 < length name
    → let p = dir ++ (b'/' ∷ (name ++ (b'/' ∷ []))) in
      (if get_or p (length p - 1) 0 == b'/' then length p - 1 - 1 else length p - 1)
      ≡ length dir + length name
start_slash dir name n =
    let p = dir ++ (b'/' ∷ (name ++ (b'/' ∷ []))) in
    let size = length-path dir name (b'/' ∷ []) in
    let byte = byte_of_name dir name (b'/' ∷ []) (length p - 1) (length name) (omega arith) in
    let slash = get_or-append name (b'/' ∷ []) (length name) 0 (omega arith) in ground arith

-- Of a path that ends in a name behind a slash and a directory that is not empty, with or without
-- a slash at its end, `get_base_name` returns the name.
pub get_base_name-name :
    (dir name : Bytes)
    → 0 < length dir
    → 0 < length name
    → NoSlash name
    → (get_base_name (dir ++ (b'/' ∷ (name ++ []))) ≡ name)
      × (get_base_name (dir ++ (b'/' ∷ (name ++ (b'/' ∷ [])))) ≡ name)
unfolding path
get_base_name-name dir name d n plain =
    let plain_size = length-path dir name [] in
    let slash_size = length-path dir name (b'/' ∷ []) in
    (
      from_name dir name [] d plain (length dir + length name) (omega arith)
          (start_plain dir name n plain) refl,
      from_name dir name (b'/' ∷ []) d plain (length dir + length name) (omega arith)
          (start_slash dir name n) refl,
    )
