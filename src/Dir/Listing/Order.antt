-- ===== src/Dir/Listing/Order.antt =====
-- The comparisons of a listing, its sort, and the sizes shown.
use mimino.Base.{
  ℕ, ◌≤◌, ◌≢◌, ◌↔◌, inl, inr, Bool, true, false, not, ◌&&◌, Bytes, none, ◌≡◌, refl, sym, ap, ◌∙◌,
  arith, ◌==◌, if◌then◌else◌, codes, str_eq, str_eq_iff, Bool-cases,
}
use mimino.Ascii.{is_alnum}
use mimino.Http.Range.{first}
use mimino.Server.Types.{File}
use mimino.Dir.Listing.{
  tb_size, Sign, negative, zero_sign, positive, negate, compare_alnum, compare_file_names,
  compare_files, get_human_file_size,
}

negate-negate : (s : Sign) → negate (negate s) ≡ s
negate-negate negative = refl
negate-negate zero_sign = refl
negate-negate positive = refl

-- the tests that put one file in front of the others
one_first :
    (p q : Bool) (x y : Sign)
    → (p && q) ≡ false
    → y ≡ negate x
    → (if q then positive else if p then negative else y)
      ≡ negate (if p then positive else if q then negative else x)
one_first true true x y h e = absurd cc
one_first true false x y h e = refl
one_first false true x y h e = refl
one_first false false x y h e = e

-- the tests that put the files of a class in front of the others
class_first :
    (p q : Bool) (c d x y : Sign)
    → d ≡ negate c
    → y ≡ negate x
    → (if q && p then d else if q then positive else if p then negative else y)
      ≡ negate (if p && q then c else if p then positive else if q then negative else x)
class_first true true c d x y h e = h
class_first true false c d x y h e = refl
class_first false true c d x y h e = refl
class_first false false c d x y h e = e

not_both : (a b s : Bytes) → a ≢ b → (str_eq a s && str_eq b s) ≡ false
not_both a b s h = elim (Bool-cases (str_eq a s)) [
  | inr e ↦ rw e refl
  | inl e ↦ elim (Bool-cases (str_eq b s)) [
    | inr g ↦ rw (e, g) refl
    | inl g ↦ absurd (h ((str_eq_iff a s).0 e ∙ sym ((str_eq_iff b s).0 g)))
  ]
]

module _ (strcoll : Bytes → Bytes → Sign)
    (antisym : (a b : Bytes) → strcoll b a ≡ negate (strcoll a b)) where
  compare_alnum-swap :
      (a b : Bytes) → compare_alnum strcoll b a ≡ negate (compare_alnum strcoll a b)
  unfolding compare_alnum
  compare_alnum-swap a b =
      class_first (not (is_alnum (first a))) (not (is_alnum (first b))) (negate (strcoll a b))
        (negate (strcoll b a)) (negate (strcoll a b)) (negate (strcoll b a))
        (ap negate (antisym a b)) (ap negate (antisym a b))

  compare_file_names-swap :
      (a b : Bytes)
      → a ≢ b
      → compare_file_names strcoll b a ≡ negate (compare_file_names strcoll a b)
  unfolding compare_file_names
  compare_file_names-swap a b h =
      one_first (str_eq a (codes ".")) (str_eq b (codes ".")) _ _ (not_both a b (codes ".") h) (
        one_first (str_eq a (codes "..")) (str_eq b (codes "..")) _ _ (not_both a b (codes "..") h)
          (class_first (first a == b'.') (first b == b'.') (negate (strcoll a b))
            (negate (strcoll b a)) (compare_alnum strcoll a b) (compare_alnum strcoll b a)
            (ap negate (antisym a b)) (compare_alnum-swap a b)))

  -- The comparisons of two files with different names, in either order, have opposite signs, if
  -- those of `strcoll` have.
  compare_files-swap :
      (a b : File)
      → a.name ≢ b.name
      → compare_files strcoll b a ≡ negate (compare_files strcoll a b)
  unfolding compare_files
  compare_files-swap a b h =
      class_first a.is_dir b.is_dir (compare_file_names strcoll a.name b.name)
        (compare_file_names strcoll b.name a.name) (compare_file_names strcoll a.name b.name)
        (compare_file_names strcoll b.name a.name) (compare_file_names-swap a.name b.name h)
        (compare_file_names-swap a.name b.name h)

-- A size of 10^12 bytes or more is not written: the branch for it repeats the test for megabytes.
-- Each smaller size is.
get_human_file_size_iff : (size : ℕ) → (get_human_file_size size ≡ none) ↔ (tb_size ≤ size)
unfolding get_human_file_size
get_human_file_size_iff size = ground arith
