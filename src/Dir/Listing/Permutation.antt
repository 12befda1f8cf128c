-- ===== src/Dir/Listing/Permutation.antt =====
-- The sort of a listing only changes the order.
use mimino.Base.{
  ℕ, zero, suc, ◌+◌, ◌<◌, inl, inr, Bytes, List, [], ◌∷◌, some, ◌≡◌, refl, sym, ◌∙◌, arith, ◌==◌,
  get_elem?, set, length, Bool-cases, length-set,
}
use mathlib.Core.Option.{some-injective}
use mathlib.Core.List.{Permᴰ}
use mathlib.Core.List.Permᴰ
use mimino.Server.Types.{File}
use mimino.Dir.Listing.{
  Sign, is_negative, compare_files, swap_in_file_list, find_smallest, sort_from, sort_file_list,
}

module _ {A : Type 0} where
  pub elem_at : (xs : List A) (i : ℕ) → i < length xs → (a : A) × (get_elem? xs i ≡ some a)
  elem_at [] i h = absurd (omega arith)
  elem_at (x ∷ xs) zero h = (x, refl)
  elem_at (x ∷ xs) (suc i) h = elem_at xs i (omega arith)

  -- an item outside the list exchanged with one of the list
  pub set-Perm :
      (xs : List A) (i : ℕ) (x y : A) → get_elem? xs i ≡ some y → Permᴰ (y ∷ set xs i x) (x ∷ xs)
  set-Perm [] i x y e = absurd cc
  set-Perm (z ∷ xs) zero x y e = Permᴰ.swap (sym (some-injective z y e)) refl
  set-Perm (z ∷ xs) (suc i) x y e =
      Permᴰ.trans (Permᴰ.swap refl refl)
        (Permᴰ.trans (Permᴰ.cons refl (set-Perm xs i x y e)) (Permᴰ.swap refl refl))

  pub swap-Perm :
      (xs : List A) (i j : ℕ) (a b : A)
      → get_elem? xs i ≡ some a
      → get_elem? xs j ≡ some b
      → Permᴰ (set (set xs i b) j a) xs
  swap-Perm [] i j a b e g = Permᴰ.nil
  swap-Perm (z ∷ xs) zero zero a b e g = Permᴰ.cons (sym (some-injective z a e)) (Permᴰ.refl xs)
  swap-Perm (z ∷ xs) zero (suc j) a b e g =
      Permᴰ.trans (set-Perm xs j a b g) (Permᴰ.cons (sym (some-injective z a e)) (Permᴰ.refl xs))
  swap-Perm (z ∷ xs) (suc i) zero a b e g =
      Permᴰ.trans (set-Perm xs i b a e) (Permᴰ.cons (sym (some-injective z b g)) (Permᴰ.refl xs))
  swap-Perm (z ∷ xs) (suc i) (suc j) a b e g = Permᴰ.cons refl (swap-Perm xs i j a b e g)

swap_in_file_list-Perm :
    (files : List File) (a b : ℕ)
    → a < length files
    → b < length files
    → (files' : List File) × (swap_in_file_list files a b ≡ some files')
      × (length files' ≡ length files)
      × Permᴰ files' files
unfolding swap_in_file_list
swap_in_file_list-Perm files a b h k =
    let (x, e) = elem_at files a h in
    let (y, g) = elem_at files b k in
    elim (Bool-cases (a == b)) [
      | inl same ↦ (files, rw same, refl, Permᴰ.refl files)
      | inr other ↦ (
        set (set files a y) b x,
        rw (other, e, g),
        length-set (set files a y) b x ∙ length-set files a y,
        swap-Perm files a b x y e g,
      )
    ]

module _ (strcoll : Bytes → Bytes → Sign) where
  find_smallest-total :
      (files : List File) (count j smallest : ℕ)
      → j + count ≡ length files
      → smallest < length files
      → (s : ℕ) × (find_smallest strcoll files count j smallest ≡ some s) × (s < length files)
  unfolding find_smallest
  find_smallest-total files zero j smallest h k = (smallest, refl, k)
  find_smallest-total files (suc count) j smallest h k =
      let (a, e) = elem_at files smallest k in
      let (b, g) = elem_at files j (omega arith) in
      elim (Bool-cases (is_negative (compare_files strcoll a b))) [
        | inl less ↦
            let (s, r, l) = find_smallest-total files count (j + 1) j (omega arith) (omega arith) in
            (s, rw (e, g, less) r, l)
        | inr more ↦
            let (s, r, l) = find_smallest-total files count (j + 1) smallest (omega arith) k in
            (s, rw (e, g, more) r, l)
      ]

  sort_from-Perm :
      (count i : ℕ) (files : List File)
      → i + count ≡ length files
      → (sorted : List File) × (sort_from strcoll files count i ≡ some sorted) × Permᴰ sorted files
  unfolding sort_from
  sort_from-Perm zero i files h = (files, refl, Permᴰ.refl files)
  sort_from-Perm (suc count) i files h =
      let (s, e, l) = find_smallest-total files count (i + 1) i (omega arith) (omega arith) in
      let (files', e', n, p) = swap_in_file_list-Perm files s i l (omega arith) in
      let (sorted, r, q) = sort_from-Perm count (i + 1) files' (omega (arith, n)) in
      (sorted, rw (e, e') r, Permᴰ.trans q p)

  -- The sort reads and swaps inside the list only, and returns a permutation of it.
  pub sort_file_list-Perm :
      (files : List File)
      → (sorted : List File) × (sort_file_list strcoll files ≡ some sorted) × Permᴰ sorted files
  unfolding sort_file_list
  sort_file_list-Perm files = sort_from-Perm (length files) 0 files (omega arith)
