-- ===== src/Server/Pool/Slots.antt =====
-- Arrays of slots against the list of the values in their first slots.
use mimino.Base.{
  ℕ, zero, suc, ◌+◌, ◌-◌, ◌≤◌, ◌<◌, true, false, List, [], ◌∷◌, ◌++◌, map, Option, none, some,
  ◌>>=◌, ◌≡◌, refl, sym, ap, ◌∙◌, arith, ltb, ◌==◌, take, drop, ◌≢◌, replicate, length, get_elem?,
  set, length-take, length-set, length-append, length-replicate, length-map, append_assoc,
  Bool-cases, inl, inr,
}
use mathlib.Core.Path.{subst}
use mimino.Server.Pool.{resize, read, write, move_last, remove_at}

-- The last value takes the place `i`, and the list is one shorter.
abbrev pub swap_remove : {A : Type 0} → List A → ℕ → List A
swap_remove xs i = elim (get_elem? xs (length xs - 1)) [
  | none ↦ xs
  | some last ↦ take (length xs - 1) (set xs i last)
]

-- `n` slots are allocated, and the first of them hold `xs`.
pub record Filled {A : Type 0} (slots : List (Option A)) (n : ℕ) (xs : List A) : Type 0 where
  pub junk : List (Option A)
  pub layout : slots ≡ map some xs ++ junk
  pub size : length slots ≡ n

module _ {A : Type 0} where
  set-front :
      (xs : List A) (junk : List (Option A)) (i : ℕ) (a : A)
      → i < length xs
      → set (map some xs ++ junk) i (some a) ≡ map some (set xs i a) ++ junk
  set-front [] junk i a h = absurd (omega arith)
  set-front (x ∷ xs) junk zero a h = refl
  set-front (x ∷ xs) junk (suc i) a h = ap (some x ∷◌) (set-front xs junk i a (omega arith))

  set-end :
      (xs : List A) (j : Option A) (junk : List (Option A)) (a : A)
      → set (map some xs ++ (j ∷ junk)) (length xs) (some a) ≡ map some (xs ++ (a ∷ [])) ++ junk
  set-end [] j junk a = refl
  set-end (x ∷ xs) j junk a = ap (some x ∷◌) (set-end xs j junk a)

  pub read-front :
      (xs : List A) (junk : List (Option A)) (i : ℕ)
      → i < length xs
      → (a : A) × (read (map some xs ++ junk) i ≡ some a) × (get_elem? xs i ≡ some a)
  read-front [] junk i h = absurd (omega arith)
  read-front (x ∷ xs) junk zero h = (x, refl, refl)
  read-front (x ∷ xs) junk (suc i) h = read-front xs junk i (omega arith)

  take-front :
      (xs : List A) (junk : List (Option A)) (n : ℕ)
      → length xs ≤ n
      → take n (map some xs ++ junk) ≡ map some xs ++ take (n - length xs) junk
  take-front [] junk n h = ap (λ m. take m junk) (omega arith)
  take-front (x ∷ xs) junk zero h = absurd (omega arith)
  take-front (x ∷ xs) junk (suc n) h =
      ap (some x ∷◌)
        (take-front xs junk n (omega arith) ∙ ap (λ k. map some xs ++ take k junk) (omega arith))

  pub resize-Filled :
      {slots : List (Option A)} {n : ℕ} (xs : List A) (m : ℕ)
      → Filled slots n xs
      → length xs ≤ m
      → Filled (resize slots m) m xs
  resize-Filled {slots = slots} xs m f h = record {
    junk = take (m - length xs) f.junk ++ replicate (m - length slots) none;
    layout =
        ap (λ s. take m s ++ replicate (m - length slots) none) f.layout
        ∙ ap (λ s. s ++ replicate (m - length slots) none) (take-front xs f.junk m h)
        ∙ append_assoc (map some xs) (take (m - length xs) f.junk)
            (replicate (m - length slots) none);
    size = omega (
      arith,
      length-append (take m slots) (replicate {A = Option A} (m - length slots) none),
      length-take m slots,
      length-replicate {A = Option A} (m - length slots) none,
    );
  }

  write-eq :
      (slots : List (Option A)) (i : ℕ) (a : A)
      → i < length slots
      → write slots i a ≡ some (set slots i (some a))
  write-eq slots i a h = let inside : ltb i (length slots) ≡ true = ground arith in rw inside

  length-Filled :
      {slots : List (Option A)} {n : ℕ} (xs : List A)
      → (f : Filled slots n xs) → n ≡ length xs + length f.junk
  length-Filled xs f =
      sym f.size
      ∙ ap length f.layout
      ∙ length-append (map some xs) f.junk
      ∙ ap (λ k. k + length f.junk) (length-map xs some)

  nonempty :
      (l : List (Option A)) → 0 < length l → (j : Option A) × (r : List (Option A)) × (l ≡ j ∷ r)
  nonempty [] h = absurd (omega arith)
  nonempty (j ∷ r) h = (j, r, refl)

  pub write-end :
      {slots : List (Option A)} {n : ℕ} (xs : List A) (a : A)
      → Filled slots n xs
      → length xs < n
      → (slots' : List (Option A)) × (write slots (length xs) a ≡ some slots')
        × Filled slots' n (xs ++ (a ∷ []))
  write-end {slots = slots} xs a f h =
      let (j, r, e) = nonempty f.junk (omega (arith, length-Filled xs f)) in
      (
        set slots (length xs) (some a),
        write-eq slots (length xs) a (omega (arith, f.size)),
        record {
          junk = r;
          layout =
              ap (λ s. set s (length xs) (some a)) (f.layout ∙ ap (λ s. map some xs ++ s) e)
              ∙ set-end xs j r a;
          size = length-set slots (length xs) (some a) ∙ f.size;
        },
      )

  pub write-front :
      {slots : List (Option A)} {n : ℕ} (xs : List A) (i : ℕ) (a : A)
      → Filled slots n xs
      → i < length xs
      → (slots' : List (Option A)) × (write slots i a ≡ some slots') × Filled slots' n (set xs i a)
  write-front {slots = slots} xs i a f h = (
    set slots i (some a),
    write-eq slots i a (omega (arith, f.size, length-Filled xs f)),
    record {
      junk = f.junk;
      layout = ap (λ s. set s i (some a)) f.layout ∙ set-front xs f.junk i a h;
      size = length-set slots i (some a) ∙ f.size;
    },
  )

  shrink-front :
      (m : ℕ) (xs : List A) (junk : List (Option A))
      → map some xs ++ junk ≡ map some (take m xs) ++ (map some (drop m xs) ++ junk)
  shrink-front zero xs junk = refl
  shrink-front (suc m) [] junk = refl
  shrink-front (suc m) (x ∷ xs) junk = ap (some x ∷◌) (shrink-front m xs junk)

  take-Filled :
      {slots : List (Option A)} {n : ℕ} (m : ℕ) (xs : List A)
      → Filled slots n xs
      → Filled slots n (take m xs)
  take-Filled m xs f = record {
    junk = map some (drop m xs) ++ f.junk;
    layout = f.layout ∙ shrink-front m xs f.junk;
    size = f.size;
  }

  take-set : (xs : List A) (i : ℕ) (a : A) → take i (set xs i a) ≡ take i xs
  take-set [] i a = refl
  take-set (x ∷ xs) zero a = refl
  take-set (x ∷ xs) (suc i) a = ap (x ∷◌) (take-set xs i a)

  set-set : (xs : List A) (i : ℕ) (a b : A) → set (set xs i a) i b ≡ set xs i b
  set-set [] i a b = refl
  set-set (x ∷ xs) zero a b = refl
  set-set (x ∷ xs) (suc i) a b = ap (x ∷◌) (set-set xs i a b)

  get_elem?-set :
      (xs : List A) (i j : ℕ) (a : A) → i ≢ j → get_elem? (set xs i a) j ≡ get_elem? xs j
  get_elem?-set [] i j a h = refl
  get_elem?-set (x ∷ xs) zero zero a h = absurd (h refl)
  get_elem?-set (x ∷ xs) zero (suc j) a h = refl
  get_elem?-set (x ∷ xs) (suc i) zero a h = refl
  get_elem?-set (x ∷ xs) (suc i) (suc j) a h = get_elem?-set xs i j a (λ e. h (ap suc e))

  pub swap_remove-eq :
      (xs : List A) (i : ℕ) (a : A)
      → get_elem? xs (length xs - 1) ≡ some a
      → swap_remove xs i ≡ take (length xs - 1) (set xs i a)
  swap_remove-eq xs i a e = rw (swap_remove, e)

  pub last_of : (xs : List A) → 0 < length xs → (a : A) × (get_elem? xs (length xs - 1) ≡ some a)
  last_of xs h = let (a, _, e) = read-front xs [] (length xs - 1) (omega arith) in (a, e)

  -- the last of `xs` removed in place
  remove_end :
      {slots : List (Option A)} {n : ℕ} (xs : List A) (i : ℕ) (dead : A)
      → i ≡ length xs - 1
      → 0 < length xs
      → Filled slots n (set xs i dead)
      → Filled slots n (swap_remove xs i)
  remove_end {slots = slots} {n = n} xs i dead e h f =
      let (a, g) = last_of xs h in
      let same : take (length xs - 1) (set xs i dead) ≡ swap_remove xs i =
        ap (λ k. take k (set xs i dead)) (sym e)
        ∙ take-set xs i dead
        ∙ sym (take-set xs i a)
        ∙ ap (λ k. take k (set xs i a)) e
        ∙ sym (swap_remove-eq xs i a g) in
      subst (λ l. Filled slots n l) same (take-Filled (length xs - 1) (set xs i dead) f)

  move_last-other :
      (slots : List (Option A)) (i n : ℕ) (a : A)
      → i ≢ n - 1
      → read slots (n - 1) ≡ some a
      → move_last slots i n ≡ write slots i a
  move_last-other slots i n a h e = let other : (i == n - 1) ≡ false = ground arith in rw (other, e)

  -- What `close_connection` does to an array: the place is overwritten, and the last one copied over
  -- it where it is another.
  move_last-Filled :
      {slots : List (Option A)} {n : ℕ} (xs : List A) (i : ℕ) (dead : A)
      → i < length xs
      → Filled slots n (set xs i dead)
      → (slots' : List (Option A)) × (move_last slots i (length xs) ≡ some slots')
        × Filled slots' n (swap_remove xs i)
  move_last-Filled {slots = slots} {n = n} xs i dead h f = elim (Bool-cases (i == length xs - 1)) [
    | inl e ↦ (slots, rw e, remove_end xs i dead (ground arith) (omega arith) f)
    | inr e ↦
        let other : i ≢ length xs - 1 = ground arith in
        let (a, r, g) =
          read-front (set xs i dead) f.junk (length xs - 1) (omega (arith, length-set xs i dead)) in
        let (s, w, k) = write-front (set xs i dead) i a f (omega (arith, length-set xs i dead)) in
        (
          s,
          move_last-other slots i (length xs) a other
                (ap (λ l. read l (length xs - 1)) f.layout ∙ r)
              ∙ w,
          subst (λ l. Filled s n l)
              (ap (take (length xs - 1)) (set-set xs i dead a)
                ∙ sym (
                    swap_remove-eq xs i a
                      (sym (get_elem?-set xs i (length xs - 1) dead other) ∙ g)))
              (take-Filled (length xs - 1) (set (set xs i dead) i a) k),
        )
  ]

  pub length-swap_remove :
      (xs : List A) (i : ℕ) → i < length xs → length (swap_remove xs i) ≡ length xs - 1
  length-swap_remove xs i h =
      let (a, g) = last_of xs (omega arith) in
      ap length (swap_remove-eq xs i a g)
      ∙ omega (arith, length-take (length xs - 1) (set xs i a), length-set xs i a)

  -- What closing a connection does to an array that is filled: the last value takes the place.
  pub remove_at-Filled :
      {slots : List (Option A)} {n : ℕ} (xs : List A) (i : ℕ) (dead : A → A)
      → Filled slots n xs
      → i < length xs
      → (slots' : List (Option A)) × (remove_at slots i (length xs) dead ≡ some slots')
        × Filled slots' n (swap_remove xs i)
  unfolding remove_at
  remove_at-Filled {slots = slots} xs i dead f h =
      let (a, r, _) = read-front xs f.junk i h in
      let (s, e, g) = write-front xs i (dead a) f h in
      let (s', e', g') = move_last-Filled xs i (dead a) h g in
      let seen : read slots i ≡ some a = ap (λ l. read l i) f.layout ∙ r in
      (
        s',
        ap (λ o. o >>= λ b. write slots i (dead b) >>= λ w. move_last w i (length xs)) seen
            ∙ ap (λ o. o >>= λ w. move_last w i (length xs)) e
            ∙ e',
        g',
      )
