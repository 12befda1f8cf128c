-- ===== src/Dir/Path/Resolve.antt =====
-- What `resolve_path` builds.
use mimino.Base.{
  ℕ, zero, suc, ◌+◌, ◌-◌, ◌≤◌, ◌<◌, ◌≢◌, true, false, Bytes, List, [], ◌∷◌, ◌++◌, some, ◌≡◌, refl,
  ap, ◌∙◌, arith, ◌==◌, length, inl, inr, Bool-cases, get_elem?, length-append, ==_iff, ◌⊎◌,
}
use mimino.Http.Range.{first}
use mimino.Dir.Path.{squeeze, skip_slashes, is_current_dir, Resolved, join, resolve_path}
use mimino.Dir.Path.Segments.{
  flush, segments_from, segments, segments-squeeze, IsSqueezed, squeeze_id, length-squeeze,
}

-- the byte at the end of a path that is not empty
abbrev pub last : Bytes → ℕ
last [] = 0
last (c ∷ []) = c
last (c ∷ d ∷ path) = last (d ∷ path)

flush-append : (name : Bytes) (l m : List Bytes) → flush name (l ++ m) ≡ flush name l ++ m
flush-append [] l m = refl
flush-append (c ∷ name) l m = refl

segments-slash :
    (name front rest : Bytes)
    → segments_from name (front ++ (b'/' ∷ rest)) ≡ segments_from name front ++ segments rest
segments-slash name [] rest = flush-append name [] (segments rest)
segments-slash name (c ∷ front) rest = ground (
  arith,
  segments-slash [] front rest,
  segments-slash (name ++ (c ∷ [])) front rest,
  flush-append name (segments front) (segments rest),
)

segments_behind_slash :
    (name front rest : Bytes)
    → 0 < length front
    → last front ≡ b'/'
    → segments_from name (front ++ rest) ≡ segments_from name front ++ segments rest
segments_behind_slash name [] rest h e = absurd (omega arith)
segments_behind_slash name (c ∷ []) rest h e =
    let slash : (c == b'/') ≡ true = (==_iff c b'/').1 e in
    rw slash (flush-append name [] (segments rest))
segments_behind_slash name (c ∷ d ∷ front) rest h e = ground (
  arith,
  segments_behind_slash [] (d ∷ front) rest (omega arith) e,
  segments_behind_slash (name ++ (c ∷ [])) (d ∷ front) rest (omega arith) e,
  flush-append name (segments (d ∷ front)) (segments rest),
)

segments-skip_slashes : (path : Bytes) → segments (skip_slashes path) ≡ segments path
unfolding skip_slashes
segments-skip_slashes [] = refl
segments-skip_slashes (c ∷ path) = ground (arith, segments-skip_slashes path)

length-skip_slashes : (path : Bytes) → length (skip_slashes path) ≤ length path
unfolding skip_slashes
length-skip_slashes [] = omega arith
length-skip_slashes (c ∷ path) = ground (arith, length-skip_slashes path)

segments_from_slash :
    (p2 : Bytes)
    → first p2 ≡ b'/'
    → (rest : Bytes) × (squeeze 0 p2 ≡ b'/' ∷ rest) × (segments rest ≡ segments p2)
unfolding squeeze
segments_from_slash [] e = absurd (omega arith)
segments_from_slash (c ∷ p2) e =
    (squeeze c p2, ground arith, segments-squeeze c p2 [] (λ k. refl) ∙ ground arith)

join-segments :
    (front p2 : Bytes)
    → 0 < length front
    → segments (join front (last front) p2) ≡ segments front ++ segments p2
unfolding join
join-segments front p2 h = elim (Bool-cases (last front == b'/')) [
  | inl e ↦ rw e (
      segments_behind_slash [] front (squeeze 0 (skip_slashes p2)) h
        ((==_iff (last front) b'/').0 e)
      ∙ ap (λ (l : List Bytes). segments front ++ l)
          (segments-squeeze 0 (skip_slashes p2) [] (λ k. refl) ∙ segments-skip_slashes p2))
  | inr e ↦ elim (Bool-cases (first p2 == b'/')) [
    | inl s ↦
        let (rest, same, names) = segments_from_slash p2 ((==_iff (first p2) b'/').0 s) in
        rw (e, s, same)
          (segments-slash [] front rest ∙ ap (λ (l : List Bytes). segments front ++ l) names)
    | inr s ↦
        rw (e, s)
          (segments-slash [] front (squeeze 0 p2)
            ∙ ap (λ (l : List Bytes). segments front ++ l) (segments-squeeze 0 p2 [] (λ k. refl)))
  ]
]

get_elem?-last :
    (path : Bytes) → 0 < length path → get_elem? path (length path - 1) ≡ some (last path)
get_elem?-last path h = elem_at path (length path - 1) (omega arith)
  where
    elem_at : (path : Bytes) (i : ℕ) → i + 1 ≡ length path → get_elem? path i ≡ some (last path)
    elem_at [] i k = absurd (omega arith)
    elem_at (c ∷ []) zero k = refl
    elem_at (c ∷ []) (suc i) k = absurd (omega arith)
    elem_at (c ∷ d ∷ path) zero k = absurd (omega arith)
    elem_at (c ∷ d ∷ path) (suc i) k = elem_at (d ∷ path) i (omega arith)

length-join :
    (front p2 : Bytes) (b : ℕ)
    → (b ≡ b'/') ⊎ (first p2 ≡ b'/')
    → length (join front b p2) ≤ length front + length p2
unfolding join
length-join front p2 b h = ground (
  arith,
  length-append front (squeeze 0 p2),
  length-append front (squeeze 0 (skip_slashes p2)),
  length-squeeze 0 p2,
  length-squeeze 0 (skip_slashes p2),
  length-skip_slashes p2,
)

length-join_separated :
    (front p2 : Bytes) (b : ℕ)
    → b ≢ b'/'
    → first p2 ≢ b'/'
    → IsSqueezed 0 p2
    → length (join front b p2) ≡ length front + length p2 + 1
unfolding join
length-join_separated front p2 b l f s =
    ground (arith, length-append front (b'/' ∷ p2), squeeze_id 0 p2 s)

-- the result, in a section over what makes the call defined
module _ (p1 p2 : Bytes) (nonempty : 0 < length p1) (squeezed : IsSqueezed 0 p1)
    (other : is_current_dir p2 ≡ false) where
  resolve_path-eq :
      resolve_path p1 p2
      ≡ some (record { text = join p1 (last p1) p2; allocated = length p1 + length p2 + 1 })
  unfolding resolve_path
  resolve_path-eq =
      let some_bytes : (length p1 == 0) ≡ false = ground arith in
      rw (other, some_bytes, squeeze_id 0 p1 squeezed, get_elem?-last p1 nonempty)

  -- For a first path that is not empty and has no two slashes in a row, and a second one that does
  -- not stand for the current directory, `resolve_path` returns a path through the names of the
  -- first and then those of the second, ".." among them.
  pub resolve_path-segments :
      (text : Bytes) × (resolve_path p1 p2
        ≡ some (record { text = text; allocated = length p1 + length p2 + 1 }))
      × (segments text ≡ segments p1 ++ segments p2)
  resolve_path-segments = (join p1 (last p1) p2, resolve_path-eq, join-segments p1 p2 nonempty)

  -- The text and its NUL fit the allocation if a slash ends the first path or starts the second.
  pub resolve_path_fits :
      (last p1 ≡ b'/') ⊎ (first p2 ≡ b'/')
      → (text : Bytes) × (resolve_path p1 p2
          ≡ some (record { text = text; allocated = length p1 + length p2 + 1 }))
        × (length text + 1 ≤ length p1 + length p2 + 1)
  resolve_path_fits h =
      (join p1 (last p1) p2, resolve_path-eq, omega (arith, length-join p1 p2 (last p1) h))

  -- If no slash does, and the second path has no two slashes in a row, the NUL is written one byte
  -- behind the allocation.
  pub resolve_path_overflow :
      last p1 ≢ b'/'
      → first p2 ≢ b'/'
      → IsSqueezed 0 p2
      → (r : Resolved) × (resolve_path p1 p2 ≡ some r) × (length r.text + 1 ≡ r.allocated + 1)
  resolve_path_overflow l f s = (
    record { text = join p1 (last p1) p2; allocated = length p1 + length p2 + 1 },
    resolve_path-eq,
    omega (arith, length-join_separated p1 p2 (last p1) l f s),
  )
