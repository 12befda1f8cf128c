-- ===== src/Arg/Match.antt =====
-- When a long flag matches.
use mimino.Base.{◌↔◌, ◌⊎◌, inl, inr, true, Bytes, [], ◌∷◌, ◌++◌, some, ◌≡◌, refl, ap, arith}
use mimino.Arg.{match_flag, long_arg_match}

match_flag_sound :
    (arg flag : Bytes)
    → match_flag arg flag ≡ true
    → (arg ≡ flag) ⊎ ((value : Bytes) × (arg ≡ flag ++ (b'=' ∷ value)))
unfolding match_flag
match_flag_sound [] [] e = inl refl
match_flag_sound [] (f ∷ flag) e = absurd cc
match_flag_sound (a ∷ arg) [] e = let same : a ≡ b'=' = ground arith in inr (arg, ap (◌∷ arg) same)
match_flag_sound (a ∷ arg) (f ∷ flag) e =
    let same : a ≡ f = ground arith in
    let rest : match_flag arg flag ≡ true = ground arith in
    elim (match_flag_sound arg flag rest) [
      | inl g ↦ inl (rw (same, g))
      | inr g ↦ inr (g.0, rw (same, g.1))
    ]

match_flag_plain : (flag : Bytes) → match_flag flag flag ≡ true
unfolding match_flag
match_flag_plain [] = refl
match_flag_plain (f ∷ flag) = ground (arith, match_flag_plain flag)

match_flag_value : (flag value : Bytes) → match_flag (flag ++ (b'=' ∷ value)) flag ≡ true
unfolding match_flag
match_flag_value [] value = refl
match_flag_value (f ∷ flag) value = ground (arith, match_flag_value flag value)

-- A long flag matches exactly the arguments that are two dashes and the flag, alone or with a '='
-- and a value behind.
long_arg_match_iff :
    (arg flag : Bytes)
    → (long_arg_match arg (some flag) ≡ true) ↔ (
        (arg ≡ b'-' ∷ b'-' ∷ flag)
        ⊎ ((value : Bytes) × (arg ≡ b'-' ∷ b'-' ∷ (flag ++ (b'=' ∷ value)))))
unfolding long_arg_match
long_arg_match_iff arg flag = (
  to arg flag,
  λ h. elim h [
    | inl e ↦ rw e (match_flag_plain flag)
    | inr e ↦ rw (e.1) (match_flag_value flag e.0)
  ],
)
  where
    to :
        (arg flag : Bytes)
        → long_arg_match arg (some flag) ≡ true
        → (arg ≡ b'-' ∷ b'-' ∷ flag)
          ⊎ ((value : Bytes) × (arg ≡ b'-' ∷ b'-' ∷ (flag ++ (b'=' ∷ value))))
    to [] flag e = absurd cc
    to (a ∷ []) flag e = absurd cc
    to (a ∷ b ∷ arg) flag e =
        let one : a ≡ b'-' = ground arith in
        let two : b ≡ b'-' = ground arith in
        let rest : match_flag arg flag ≡ true = ground arith in
        elim (match_flag_sound arg flag rest) [
          | inl g ↦ inl (rw (one, two, g) refl)
          | inr g ↦ inr (g.0, rw (one, two, g.1) refl)
        ]
