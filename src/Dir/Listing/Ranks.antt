-- ===== src/Dir/Listing/Ranks.antt =====
-- The order of a listing's files, described by ranks: what the comparisons agree with.
use mimino.Base.{
  ℕ, suc, ◌+◌, ◌≤◌, ◌<◌, ◌≢◌, ◌⊎◌, inl, inr, Bool, true, false, not, ◌&&◌, Bytes, ◌≡◌, refl, sym,
  ap, ◌∙◌, arith, ◌==◌, if◌then◌else◌, codes, str_eq, str_eq_iff,
}
use mathlib.Core.Path.{subst}
use mimino.Ascii.{is_alnum}
use mimino.Http.Range.{first}
use mimino.Server.Types.{File}
use mimino.Dir.Listing.{
  Sign, negative, zero_sign, positive, negate, is_negative, compare_alnum, compare_file_names,
  compare_files,
}

-- The class of a name. A name of a higher class comes first.
abbrev pub name_rank : Bytes → ℕ
name_rank name =
    if str_eq name (codes ".")
    then 4
    else if str_eq name (codes "..")
    then 3
    else if first name == b'.'
    then 2
    else if not (is_alnum (first name))
    then 1
    else 0

-- directories before files
abbrev pub rank : File → ℕ
rank f = if f.is_dir then 5 + name_rank f.name else name_rank f.name

-- `a` comes before `b` or stands beside it: its rank is higher, or the ranks are the same and the name
-- does not collate behind.
abbrev pub Before : (Bytes → Bytes → Sign) → File → File → Type 0
Before strcoll a b = (rank b < rank a) ⊎ ((rank a ≡ rank b) × (strcoll a.name b.name ≢ positive))

-- The sign of a comparison agrees with the ranks, and with the collation of equal ranks.
record Agrees (p q : ℕ) (c s : Sign) : Type 0 where
  less : is_negative c ≡ true → (p < q) ⊎ ((p ≡ q) × (s ≡ positive))
  not_less : is_negative c ≡ false → (q < p) ⊎ ((p ≡ q) × (s ≢ positive))

same_rank : (p : ℕ) (s : Sign) → Agrees p p (negate s) s
same_rank p negative = record { less = λ h. absurd cc; not_less = λ h. inr (refl, λ e. absurd cc) }
same_rank p zero_sign = record { less = λ h. absurd cc; not_less = λ h. inr (refl, λ e. absurd cc) }
same_rank p positive = record { less = λ h. inr (refl, refl); not_less = λ h. absurd cc }

-- A test puts the names of its class in front of the others, whose ranks are at most `m`.
layer :
    (a b : Bool) (m : ℕ) {p q : ℕ} {c d s : Sign}
    → p ≤ m
    → q ≤ m
    → (a ≡ true → b ≡ true → Agrees (suc m) (suc m) d s)
    → Agrees p q c s
    → Agrees
        (if a then suc m else p)
        (if b then suc m else q)
        (if a && b then d else if a then positive else if b then negative else c)
        s
layer true true m h k both rest = both refl refl
layer true false m h k both rest = record {
  less = λ e. absurd cc;
  not_less = λ e. inl (omega arith);
}
layer false true m h k both rest = record {
  less = λ e. inl (omega arith);
  not_less = λ e. absurd cc;
}
layer false false m h k both rest = rest

-- the same test, without a case for two names of the class
single :
    (a b : Bool) (m : ℕ) {p q : ℕ} {c s : Sign}
    → p ≤ m
    → q ≤ m
    → (a ≡ true → b ≡ true → s ≢ positive)
    → Agrees p q c s
    → Agrees
        (if a then suc m else p)
        (if b then suc m else q)
        (if a then positive else if b then negative else c)
        s
single true true m h k both rest = record {
  less = λ e. absurd cc;
  not_less = λ e. inr (refl, both refl refl);
}
single true false m h k both rest = record {
  less = λ e. absurd cc;
  not_less = λ e. inl (omega arith);
}
single false true m h k both rest = record {
  less = λ e. inl (omega arith);
  not_less = λ e. absurd cc;
}
single false false m h k both rest = rest

at_most : (b : Bool) (m : ℕ) {p : ℕ} → p ≤ m → (if b then suc m else p) ≤ suc m
at_most true m h = omega arith
at_most false m h = omega arith

module _ (strcoll : Bytes → Bytes → Sign)
    (antisym : (a b : Bytes) → strcoll b a ≡ negate (strcoll a b)) where
  self_not_positive : (a : Bytes) → strcoll a a ≢ positive
  self_not_positive a h =
      let e : positive ≡ negative = sym h ∙ antisym a a ∙ ap negate h in absurd cc

  same_name : (a b s : Bytes) → str_eq a s ≡ true → str_eq b s ≡ true → strcoll a b ≢ positive
  same_name a b s e g =
      subst (λ n. strcoll a n ≢ positive) ((str_eq_iff a s).0 e ∙ sym ((str_eq_iff b s).0 g))
        (self_not_positive a)

  compare_alnum-Agrees :
      (a b : Bytes)
      → Agrees
          (if not (is_alnum (first a)) then 1 else 0)
          (if not (is_alnum (first b)) then 1 else 0)
          (compare_alnum strcoll a b)
          (strcoll a b)
  unfolding compare_alnum
  compare_alnum-Agrees a b =
      layer (not (is_alnum (first a))) (not (is_alnum (first b))) 0 (omega arith) (omega arith)
        (λ _ _. same_rank 1 (strcoll a b)) (same_rank 0 (strcoll a b))

  compare_file_names-Agrees :
      (a b : Bytes)
      → Agrees (name_rank a) (name_rank b) (compare_file_names strcoll a b) (strcoll a b)
  unfolding compare_file_names
  compare_file_names-Agrees a b =
      let alnum = λ (n : Bytes). not (is_alnum (first n)) in
      let dot = λ (n : Bytes). first n == b'.' in
      let parent = λ (n : Bytes). str_eq n (codes "..") in
      let one = λ (n : Bytes). at_most (alnum n) 0 {p = 0} (omega arith) in
      let two = λ (n : Bytes). at_most (dot n) 1 (one n) in
      let three = λ (n : Bytes). at_most (parent n) 2 (two n) in
      single (str_eq a (codes ".")) (str_eq b (codes ".")) 3 (three a) (three b)
        (same_name a b (codes "."))
        (single (parent a) (parent b) 2 (two a) (two b) (same_name a b (codes "..")) (
          layer (dot a) (dot b) 1 (one a) (one b) (λ _ _. same_rank 2 (strcoll a b))
            (compare_alnum-Agrees a b)))

  shift : {p q : ℕ} {c s : Sign} → Agrees p q c s → Agrees (5 + p) (5 + q) c s
  shift r = record {
    less = λ e. elim (r.less e) [
      | inl h ↦ inl (omega arith)
      | inr (h, k) ↦ inr (ap (λ n. 5 + n) h, k)
    ];
    not_less = λ e. elim (r.not_less e) [
      | inl h ↦ inl (omega arith)
      | inr (h, k) ↦ inr (ap (λ n. 5 + n) h, k)
    ];
  }

  directories :
      (a b : Bool) {p q : ℕ} {c s : Sign}
      → p ≤ 4
      → q ≤ 4
      → Agrees p q c s
      → Agrees
          (if a then 5 + p else p)
          (if b then 5 + q else q)
          (if a && b then c else if a then positive else if b then negative else c)
          s
  directories true true h k r = shift r
  directories true false h k r = record { less = λ e. absurd cc; not_less = λ e. inl (omega arith) }
  directories false true h k r = record { less = λ e. inl (omega arith); not_less = λ e. absurd cc }
  directories false false h k r = r

  name_rank_bound : (n : Bytes) → name_rank n ≤ 4
  name_rank_bound n = at_most (str_eq n (codes ".")) 3 (
      at_most (str_eq n (codes "..")) 2
        (at_most (first n == b'.') 1 (at_most (not (is_alnum (first n))) 0 {p = 0} (omega arith))))

  compare_files-Agrees :
      (a b : File) → Agrees (rank a) (rank b) (compare_files strcoll a b) (strcoll a.name b.name)
  unfolding compare_files
  compare_files-Agrees a b =
      directories a.is_dir b.is_dir (name_rank_bound a.name) (name_rank_bound b.name)
        (compare_file_names-Agrees a.name b.name)

  -- What the sort reads off a comparison.
  pub compare_files-Before :
      (a b : File)
      → ((is_negative (compare_files strcoll a b) ≡ true) → Before strcoll b a)
        × ((is_negative (compare_files strcoll a b) ≡ false) → Before strcoll a b)
  compare_files-Before a b =
      let r = compare_files-Agrees a b in
      (
        λ e. elim (r.less e) [
          | inl h ↦ inl h
          | inr (h, k) ↦ inr (
            sym h,
            λ g.
                let c : positive ≡ negative = sym g ∙ antisym a.name b.name ∙ ap negate k in
                absurd cc,
          )
        ],
        r.not_less,
      )

  pub Before-self : (a : File) → Before strcoll a a
  Before-self a = inr (refl, self_not_positive a.name)

-- The order is transitive where the collation is.
pub Before-trans :
    (strcoll : Bytes → Bytes → Sign)
    → ((x y z : Bytes) → strcoll x y ≢ positive → strcoll y z ≢ positive → strcoll x z ≢ positive)
    → (a b c : File) → Before strcoll a b
    → Before strcoll b c
    → Before strcoll a c
Before-trans strcoll trans a b c (inl h) (inl k) = inl (omega arith)
Before-trans strcoll trans a b c (inl h) (inr (k, l)) = inl (omega arith)
Before-trans strcoll trans a b c (inr (h, l)) (inl k) = inl (omega arith)
Before-trans strcoll trans a b c (inr (h, l)) (inr (k, m)) = inr (h ∙ k, trans _ _ _ l m)
