-- ===== src/Dir/Listing/Sorted.antt =====
-- The sort of a listing puts its files in order.
use mathlib.Core.Option.{some-injective}
use mathlib.Core.Path.{subst}
use mathlib.Core.List.{Permᴰ}
use mathlib.Core.List.Permᴰ
use mimino.Base.{
  ℕ, zero, suc, ◌+◌, ◌≤◌, ◌<◌, ◌≢◌, inl, inr, Bytes, List, [], ◌∷◌, some, ◌≡◌, refl, sym, ap, ◌∙◌,
  arith, ◌==◌, get_elem?, set, length, length-set, get_elem?-set_self, get_elem?-set_ne, ltb,
  Bool-cases, >>=-some,
}
use mimino.Server.Types.{File}
use mimino.Dir.Listing.{
  Sign, positive, negate, is_negative, compare_files, swap_in_file_list, find_smallest, sort_from,
  sort_file_list,
}
use mimino.Dir.Listing.Permutation.{elem_at, swap-Perm}
use mimino.Dir.Listing.Ranks.{Before, Before-self, Before-trans, compare_files-Before}

some_inside : {A : Type 0} (xs : List A) (i : ℕ) {a : A} → get_elem? xs i ≡ some a → i < length xs
some_inside [] i h = absurd cc
some_inside (x ∷ xs) zero h = omega arith
some_inside (x ∷ xs) (suc i) h = omega (arith, some_inside xs i h)

-- Where a file stood before two were exchanged, of which `i` is the earlier place.
record Moved (files : List File) (s i q : ℕ) (b : File) : Type 0 where
  from : ℕ
  stood : get_elem? files from ≡ some b
  earlier : q < i → from ≡ q
  later : i ≤ q → i ≤ from
  chosen : q ≡ i → from ≡ s

swap_in_file_list-Moved :
    (files : List File) (s i : ℕ)
    → i ≤ s
    → s < length files
    → (files' : List File) × (swap_in_file_list files s i ≡ some files')
      × (length files' ≡ length files)
      × Permᴰ files' files
      × ((q : ℕ) (b : File) → get_elem? files' q ≡ some b → Moved files s i q b)
unfolding swap_in_file_list
swap_in_file_list-Moved files s i h k =
    let (x, e) = elem_at files s k in
    let (y, g) = elem_at files i (omega arith) in
    elim (Bool-cases (s == i)) [
      | inl same ↦
          let here : s ≡ i = ground arith in
          (
            files,
            rw same refl,
            refl,
            Permᴰ.refl files,
            λ q b at. record {
              from = q;
              stood = at;
              earlier = λ l. refl;
              later = λ l. l;
              chosen = λ l. l ∙ sym here;
            },
          )
      | inr other ↦ (
        set (set files s y) i x,
        rw (other, e, g) refl,
        length-set (set files s y) i x ∙ length-set files s y,
        swap-Perm files s i x y e g,
        λ q b at. elim (Bool-cases (q == i)) [
          | inl first ↦
              let here : q ≡ i = ground arith in
              record {
                from = s;
                stood =
                    e
                    ∙ sym (
                        get_elem?-set_self (set files s y) i x
                          (omega (arith, length-set files s y)))
                    ∙ ap (get_elem? (set (set files s y) i x)) (sym here)
                    ∙ at;
                earlier = λ l. absurd (omega arith);
                later = λ l. h;
                chosen = λ l. refl;
              }
          | inr not_first ↦
              let away : i ≢ q = ground arith in
              let before : get_elem? (set files s y) q ≡ some b =
                sym (get_elem?-set_ne (set files s y) x away) ∙ at in
              elim (Bool-cases (q == s)) [
                | inl last ↦
                    let here : q ≡ s = ground arith in
                    record {
                      from = i;
                      stood =
                          g
                          ∙ sym (get_elem?-set_self files s y k)
                          ∙ ap (get_elem? (set files s y)) (sym here)
                          ∙ before;
                      earlier = λ l. absurd (omega arith);
                      later = λ l. omega arith;
                      chosen = λ l. absurd (away (sym l));
                    }
                | inr not_last ↦
                    let apart : s ≢ q = ground arith in
                    record {
                      from = q;
                      stood = sym (get_elem?-set_ne files y apart) ∙ before;
                      earlier = λ l. refl;
                      later = λ l. l;
                      chosen = λ l. absurd (away (sym l));
                    }
              ]
        ],
      )
    ]

module _ (strcoll : Bytes → Bytes → Sign)
    (antisym : (a b : Bytes) → strcoll b a ≡ negate (strcoll a b))
    (trans : (x y z : Bytes)
      → strcoll x y ≢ positive
      → strcoll y z ≢ positive
      → strcoll x z ≢ positive) where
  -- The file comes before all those at the places from `i` on and below `j`.
  abbrev Leads : List File → File → ℕ → ℕ → Type 0
  Leads files a i j =
      (k : ℕ) (b : File) → i ≤ k → k < j → get_elem? files k ≡ some b → Before strcoll a b

  find_smallest-Leads :
      (files : List File) (count i j smallest : ℕ) (a : File)
      → j + count ≡ length files
      → i ≤ smallest
      → smallest < j
      → get_elem? files smallest ≡ some a
      → Leads files a i j
      → (s : ℕ) × (x : File) × (find_smallest strcoll files count j smallest ≡ some s)
        × (i ≤ s)
        × (s < length files)
        × (get_elem? files s ≡ some x)
        × Leads files x i (length files)
  unfolding find_smallest
  find_smallest-Leads files zero i j smallest a h l k at leads =
      (smallest, a, refl, l, omega arith, at, λ m b low high. leads m b low (omega arith))
  find_smallest-Leads files (suc count) i j smallest a h l k at leads =
      let (b, g) = elem_at files j (omega arith) in
      elim (Bool-cases (is_negative (compare_files strcoll a b))) [
        | inl less ↦
            let b_first = (compare_files-Before strcoll antisym a b).0 less in
            let (s, x, run, low, high, at_s, ahead) =
              find_smallest-Leads files count i (j + 1) j b (omega arith) (omega arith)
                (omega arith) g
                (λ m c low high e. elim (Bool-cases (m == j)) [
                  | inl last ↦
                      let here : m ≡ j = ground arith in
                      let same : b ≡ c =
                        some-injective b c (sym g ∙ ap (get_elem? files) (sym here) ∙ e) in
                      subst (Before strcoll b) same (Before-self strcoll antisym b)
                  | inr other ↦
                      let away : m ≢ j = ground arith in
                      Before-trans strcoll trans b a c b_first (leads m c low (omega arith) e)
                ]) in
            (
              s,
              x,
              >>=-some (get_elem? files smallest) _ at
                  (>>=-some (get_elem? files j) _ g (rw less run)),
              low,
              high,
              at_s,
              ahead,
            )
        | inr more ↦
            let a_first = (compare_files-Before strcoll antisym a b).1 more in
            let (s, x, run, low, high, at_s, ahead) =
              find_smallest-Leads files count i (j + 1) smallest a (omega arith) l (omega arith) at
                (λ m c low high e. elim (Bool-cases (m == j)) [
                  | inl last ↦
                      let here : m ≡ j = ground arith in
                      let same : b ≡ c =
                        some-injective b c (sym g ∙ ap (get_elem? files) (sym here) ∙ e) in
                      subst (Before strcoll a) same a_first
                  | inr other ↦ let away : m ≢ j = ground arith in leads m c low (omega arith) e
                ]) in
            (
              s,
              x,
              >>=-some (get_elem? files smallest) _ at
                  (>>=-some (get_elem? files j) _ g (rw more run)),
              low,
              high,
              at_s,
              ahead,
            )
      ]

  -- The files at the places below `n` come before all behind them.
  abbrev pub SortedTo : ℕ → List File → Type 0
  SortedTo n files =
      (p q : ℕ) (a b : File)
      → p < n
      → p < q
      → get_elem? files p ≡ some a
      → get_elem? files q ≡ some b
      → Before strcoll a b

  step :
      (files files' : List File) (i s : ℕ) (x : File)
      → ((q : ℕ) (b : File) → get_elem? files' q ≡ some b → Moved files s i q b)
      → get_elem? files s ≡ some x
      → Leads files x i (length files)
      → SortedTo i files
      → SortedTo (i + 1) files'
  step files files' i s x moved at_s leads done p q a b l m e g =
      let from_p = moved p a e in
      let from_q = moved q b g in
      elim (Bool-cases (p == i)) [
        | inl here ↦
            let first : p ≡ i = ground arith in
            let same : x ≡ a =
              some-injective x a
                (sym at_s ∙ ap (get_elem? files) (sym (from_p.chosen first)) ∙ from_p.stood) in
            subst (λ f. Before strcoll f b) same
              (leads from_q.from b (from_q.later (omega arith))
                (some_inside files from_q.from from_q.stood) from_q.stood)
        | inr there ↦
            let below : p < i = ground arith in
            let stays : get_elem? files p ≡ some a =
              ap (get_elem? files) (sym (from_p.earlier below)) ∙ from_p.stood in
            let behind : p < from_q.from = elim (Bool-cases (ltb q i)) [
              | inl low ↦ let less : q < i = ground arith in omega (arith, from_q.earlier less)
              | inr high ↦ let more : i ≤ q = ground arith in omega (arith, from_q.later more)
            ] in
            done p from_q.from a b below behind stays from_q.stood
      ]

  sort_from-Sorted :
      (count i : ℕ) (files : List File)
      → i + count ≡ length files
      → SortedTo i files
      → (sorted : List File) × (sort_from strcoll files count i ≡ some sorted)
        × Permᴰ sorted files
        × SortedTo (length files) sorted
  unfolding sort_from
  sort_from-Sorted zero i files h done =
      (files, refl, Permᴰ.refl files, λ p q a b low. done p q a b (omega arith))
  sort_from-Sorted (suc count) i files h done =
      let (f, at) = elem_at files i (omega arith) in
      let (s, x, found, low, high, at_s, leads) =
        find_smallest-Leads files count i (i + 1) i f (omega arith) (omega arith) (omega arith) at
          (λ k b l m e.
            let here : k ≡ i = omega arith in
            let same : f ≡ b = some-injective f b (sym at ∙ ap (get_elem? files) (sym here) ∙ e) in
            subst (Before strcoll f) same (Before-self strcoll antisym f)) in
      let (files', swapped, as_long, perm, moved) = swap_in_file_list-Moved files s i low high in
      let (sorted, run, perm', ordered) =
        sort_from-Sorted count (i + 1) files' (omega (arith, as_long))
          (step files files' i s x moved at_s leads done) in
      (
        sorted,
        >>=-some (find_smallest strcoll files count (i + 1) i) _ found
            (>>=-some (swap_in_file_list files s i) _ swapped run),
        Permᴰ.trans perm' perm,
        subst (λ n. SortedTo n sorted) as_long ordered,
      )

  -- The sort reads and swaps inside the list only, and returns a permutation of it in which each file
  -- comes before those behind it: directories first, then by the class of the name, and inside a
  -- class by the collation. The collation's signs are opposite in the two orders, and it is
  -- transitive.
  pub sort_file_list-Sorted :
      (files : List File)
      → (sorted : List File) × (sort_file_list strcoll files ≡ some sorted)
        × Permᴰ sorted files
        × SortedTo (length files) sorted
  unfolding sort_file_list
  sort_file_list-Sorted files =
      sort_from-Sorted (length files) 0 files (omega arith) (λ p q a b low. absurd (omega arith))
