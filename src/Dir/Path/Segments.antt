-- ===== src/Dir/Path/Segments.antt =====
-- The names that a path goes through, and what `cleanup_path` does to them.
use mimino.Base.{
  ℕ, ◌+◌, ◌≤◌, ◌≢◌, ◌⊎◌, false, ◌&&◌, Bytes, List, [], ◌∷◌, ◌++◌, ◌≡◌, refl, ap, arith, get_elem?,
  ◌==◌, if◌then◌else◌, length, inl, inr, Bool-cases,
}
use mimino.Dir.Path.{squeeze, cleanup_path}

-- A name that is not empty comes in front.
abbrev pub flush : Bytes → List Bytes → List Bytes
flush [] names = names
flush (c ∷ name) names = (c ∷ name) ∷ names

-- the names between the slashes, of which `name` was read
abbrev pub segments_from : Bytes → Bytes → List Bytes
segments_from name [] = flush name []
segments_from name (c ∷ path) =
    let next = flush name (segments_from [] path) in
    let longer = segments_from (name ++ (c ∷ [])) path in if c == b'/' then next else longer

abbrev pub segments : Bytes → List Bytes
segments = segments_from []

-- No '/' follows a '/'; `prev` stands in front.
abbrev pub IsSqueezed : ℕ → Bytes → Type 0
IsSqueezed prev [] = Unit {0}
IsSqueezed prev (c ∷ path) = ((prev == b'/' && c == b'/') ≡ false) × IsSqueezed c path

pub squeeze-IsSqueezed : (prev : ℕ) (path : Bytes) → IsSqueezed prev (squeeze prev path)
unfolding squeeze
squeeze-IsSqueezed prev [] = tt
squeeze-IsSqueezed prev (c ∷ path) = elim (Bool-cases (prev == b'/' && c == b'/')) [
  | inl e ↦ let same : prev ≡ c = ground arith in rw (e, same) (squeeze-IsSqueezed c path)
  | inr e ↦ rw e (e, squeeze-IsSqueezed c path)
]

pub squeeze_id : (prev : ℕ) (path : Bytes) → IsSqueezed prev path → squeeze prev path ≡ path
unfolding squeeze
squeeze_id prev [] h = refl
squeeze_id prev (c ∷ path) h = rw (h.0, squeeze_id c path h.1)

pub length-squeeze : (prev : ℕ) (path : Bytes) → length (squeeze prev path) ≤ length path
unfolding squeeze
length-squeeze prev [] = omega arith
length-squeeze prev (c ∷ path) = ground (arith, length-squeeze c path)

pub segments-squeeze :
    (prev : ℕ) (path name : Bytes)
    → (prev ≡ b'/' → name ≡ [])
    → segments_from name (squeeze prev path) ≡ segments_from name path
unfolding squeeze
segments-squeeze prev [] name h = refl
segments-squeeze prev (c ∷ path) name h = ground (
  arith,
  segments-squeeze c path [] (λ e. refl),
  λ (k : c ≢ b'/'). segments-squeeze c path (name ++ (c ∷ [])) (λ e. absurd (k e)),
)

squeeze_same : (prev : ℕ) (path : Bytes) → (squeeze prev path ≡ path) ⊎ (¬ (IsSqueezed prev path))
unfolding squeeze
squeeze_same prev [] = inl refl
squeeze_same prev (c ∷ path) = elim (Bool-cases (prev == b'/' && c == b'/')) [
  | inl e ↦ inr (λ h. let apart = h.0 in cc)
  | inr e ↦ elim (squeeze_same c path) [
    | inl same ↦ inl (rw e (ap (c ∷◌) same))
    | inr double ↦ inr (λ h. double h.1)
  ]
]

first-squeeze : (path : Bytes) → get_elem? (squeeze 0 path) 0 ≡ get_elem? path 0
unfolding squeeze
first-squeeze [] = refl
first-squeeze (c ∷ path) = refl

-- the last byte of a path, or `prev` where there is none
abbrev pub last_byte : ℕ → Bytes → ℕ
last_byte prev [] = prev
last_byte prev (c ∷ path) = last_byte c path

last_byte-squeeze :
    (prev : ℕ) (path : Bytes) → last_byte prev (squeeze prev path) ≡ last_byte prev path
unfolding squeeze
last_byte-squeeze prev [] = refl
last_byte-squeeze prev (c ∷ path) = elim (Bool-cases (prev == b'/' && c == b'/')) [
  | inl e ↦ let same : prev ≡ c = ground arith in rw (e, same) (last_byte-squeeze c path)
  | inr e ↦ rw e (last_byte-squeeze c path)
]

-- `cleanup_path` leaves no two slashes in a row, changes nothing where the path has no two in a row,
-- keeps the path's first byte and its last, goes through the same names as the path does, and fits its
-- allocation of a byte more than the path.
pub cleanup_path_lem :
    (path : Bytes)
    → IsSqueezed 0 (cleanup_path path)
      × ((cleanup_path path ≡ path) ⊎ (¬ (IsSqueezed 0 path)))
      × (get_elem? (cleanup_path path) 0 ≡ get_elem? path 0)
      × (last_byte 0 (cleanup_path path) ≡ last_byte 0 path)
      × (segments (cleanup_path path) ≡ segments path)
      × (length (cleanup_path path) + 1 ≤ length path + 1)
unfolding cleanup_path
cleanup_path_lem path = (
  squeeze-IsSqueezed 0 path,
  squeeze_same 0 path,
  first-squeeze path,
  last_byte-squeeze 0 path,
  segments-squeeze 0 path [] (λ e. refl),
  omega (arith, length-squeeze 0 path),
)
