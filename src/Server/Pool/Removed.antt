-- ===== src/Server/Pool/Removed.antt =====
-- What is left of an array when its last item has taken the place of another.
use mathlib.Core.List.{Permᴰ}
use mathlib.Core.List.Permᴰ
use mathlib.Core.Option.{some-injective}
use mathlib.Core.Path.{subst}
use mimino.Base.{
  ℕ, zero, suc, ◌-◌, ◌≤◌, ◌<◌, ◌==◌, List, [], ◌∷◌, ◌++◌, some, ◌≡◌, refl, sym, ap, ◌∙◌, arith, inl,
  inr, Bool-cases, length, take, get_elem?, set, length-append, length-set,
}
use mimino.Buffer.Append.{take-length}
use mimino.Server.Pool.Slots.{swap_remove, swap_remove-eq}
use mimino.Dir.Listing.Permutation.{set-Perm}

module _ {A : Type 0} where
  -- a list that is not empty, as its last item behind the others
  last_split :
      (n : ℕ) (xs : List A)
      → length xs ≡ suc n
      → (front : List A) × (a : A) × (xs ≡ front ++ (a ∷ [])) × (length front ≡ n)
  last_split n [] h = absurd (omega arith)
  last_split zero (x ∷ []) h = ([], x, refl, refl)
  last_split zero (x ∷ y ∷ xs) h = absurd (omega arith)
  last_split (suc n) (x ∷ xs) h =
      let (front, a, e, k) = last_split n xs (omega arith) in (x ∷ front, a, ap (x ∷◌) e, ap suc k)

  get-end : (front : List A) (a : A) → get_elem? (front ++ (a ∷ [])) (length front) ≡ some a
  get-end [] a = refl
  get-end (x ∷ front) a = get-end front a

  get-inside :
      (front rest : List A) (i : ℕ)
      → i < length front
      → get_elem? (front ++ rest) i ≡ get_elem? front i
  get-inside [] rest i h = absurd (omega arith)
  get-inside (x ∷ front) rest zero h = refl
  get-inside (x ∷ front) rest (suc i) h = get-inside front rest i (omega arith)

  set-inside :
      (front rest : List A) (i : ℕ) (a : A)
      → i < length front
      → set (front ++ rest) i a ≡ set front i a ++ rest
  set-inside [] rest i a h = absurd (omega arith)
  set-inside (x ∷ front) rest zero a h = refl
  set-inside (x ∷ front) rest (suc i) a h = ap (x ∷◌) (set-inside front rest i a (omega arith))

  set_same : (xs : List A) (i : ℕ) (a : A) → get_elem? xs i ≡ some a → set xs i a ≡ xs
  set_same [] i a e = refl
  set_same (x ∷ xs) zero a e = ap (λ y. y ∷ xs) (sym (some-injective x a e))
  set_same (x ∷ xs) (suc i) a e = ap (x ∷◌) (set_same xs i a e)

  end_first : (front : List A) (a : A) → Permᴰ (a ∷ front) (front ++ (a ∷ []))
  end_first front a = Permᴰ.symm (Permᴰ.append_comm front (a ∷ []))

  swap_end :
      (front : List A) (a : A) (i : ℕ) (y : A)
      → i ≤ length front
      → get_elem? (front ++ (a ∷ [])) i ≡ some y
      → Permᴰ (y ∷ swap_remove (front ++ (a ∷ [])) i) (front ++ (a ∷ []))
  swap_end front a i y h e =
      let xs = front ++ (a ∷ []) in
      let size : length xs - 1 ≡ length front = omega (arith, length-append front (a ∷ [])) in
      let left : swap_remove xs i ≡ take (length front) (set xs i a) =
        swap_remove-eq xs i a (ap (get_elem? xs) size ∙ get-end front a)
        ∙ ap (λ k. take k (set xs i a)) size in
      elim (Bool-cases (i == length front)) [
        | inl here ↦
            let place : i ≡ length front = ground arith in
            let at_end : get_elem? xs i ≡ some a = ap (get_elem? xs) place ∙ get-end front a in
            let same : a ≡ y = some-injective a y (sym at_end ∙ e) in
            subst (λ l. Permᴰ l xs)
              (ap (λ b. b ∷ front) same
                ∙ ap (y ∷◌) (
                    sym (take-length front (a ∷ []))
                    ∙ ap (take (length front)) (sym (set_same xs i a at_end))
                    ∙ sym left))
              (end_first front a)
        | inr other ↦
            let inside : i < length front = ground arith in
            subst (λ l. Permᴰ (y ∷ l) xs)
              (sym (take-length (set front i a) (a ∷ []))
                ∙ ap (λ k. take k (set front i a ++ (a ∷ []))) (length-set front i a)
                ∙ ap (take (length front)) (sym (set-inside front (a ∷ []) i a inside))
                ∙ sym left)
              (Permᴰ.trans (set-Perm front i a y (sym (get-inside front (a ∷ []) i inside) ∙ e))
                (end_first front a))
      ]

  -- What `swap_remove` leaves is the list without the item, in some order.
  pub swap_remove-Perm :
      (xs : List A) (i : ℕ) (y : A)
      → i < length xs
      → get_elem? xs i ≡ some y
      → Permᴰ (y ∷ swap_remove xs i) xs
  swap_remove-Perm xs i y h e =
      let (front, a, whole, size) = last_split (length xs - 1) xs (omega arith) in
      subst (λ l. Permᴰ (y ∷ swap_remove l i) l) (sym whole)
        (swap_end front a i y (omega (arith, size)) (ap (λ l. get_elem? l i) (sym whole) ∙ e))
