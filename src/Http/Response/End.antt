-- ===== src/Http/Response/End.antt =====
-- What `is_http_end` finds.
use mimino.Base.{
  ℕ, zero, suc, ◌+◌, ◌-◌, ◌<◌, ◌≤◌, Bool, true, false, ◌&&◌, Bytes, [], ◌∷◌, ◌++◌, codes, ltb, ◌==◌,
  if_true, if_false, ◌≡◌, ◌↔◌, ◌⊎◌, inl, inr, refl, sym, ap, ◌∙◌, arith, Bool-cases, get_or, length,
  length-append, append_assoc,
}
use mimino.Http.Response.{is_http_end}

-- The bytes end as these do.
abbrev pub EndsWith : Bytes → Bytes → Type 0
EndsWith buf tail = (front : Bytes) × (buf ≡ front ++ tail)

get_or-append :
    (front tail : Bytes) (i j : ℕ)
    → i ≡ length front + j
    → get_or (front ++ tail) i 0 ≡ get_or tail j 0
get_or-append [] tail i j e = ap (λ k. get_or tail k 0) (omega arith)
get_or-append (x ∷ front) tail zero j e = absurd (omega arith)
get_or-append (x ∷ front) tail (suc i) j e = get_or-append front tail i j (omega arith)

-- the four comparisons
abbrev is_end : ℕ → ℕ → ℕ → ℕ → Bool
is_end a b c d = a == b'\r' && b == b'\n' && c == b'\r' && d == b'\n'

-- four bytes, and the tail of a list
last_four :
    (n : ℕ) (buf : Bytes)
    → length buf ≡ 4 + n
    → (front : Bytes) × (a : ℕ) × (b : ℕ) × (c : ℕ) × (d : ℕ) × (buf
        ≡ front ++ (a ∷ b ∷ c ∷ d ∷ []))
last_four zero (a ∷ b ∷ c ∷ d ∷ []) h = ([], a, b, c, d, refl)
last_four zero [] h = absurd (omega arith)
last_four zero (a ∷ []) h = absurd (omega arith)
last_four zero (a ∷ b ∷ []) h = absurd (omega arith)
last_four zero (a ∷ b ∷ c ∷ []) h = absurd (omega arith)
last_four zero (a ∷ b ∷ c ∷ d ∷ e ∷ buf) h = absurd (omega arith)
last_four (suc n) [] h = absurd (omega arith)
last_four (suc n) (x ∷ buf) h =
    let (front, a, b, c, d, e) = last_four n buf (omega arith) in
    (x ∷ front, a, b, c, d, ap (x ∷◌) e)

last_byte :
    (n : ℕ) (buf : Bytes)
    → length buf ≡ suc n
    → (front : Bytes) × (c : ℕ) × (buf ≡ front ++ (c ∷ []))
last_byte zero (c ∷ []) h = ([], c, refl)
last_byte zero [] h = absurd (omega arith)
last_byte zero (c ∷ d ∷ buf) h = absurd (omega arith)
last_byte (suc n) [] h = absurd (omega arith)
last_byte (suc n) (x ∷ buf) h =
    let (front, c, e) = last_byte n buf (omega arith) in (x ∷ front, c, ap (x ∷◌) e)

-- the comparisons at the four places that end at `i`
end_at :
    (front rest : Bytes) (a b c d i : ℕ)
    → i ≡ length front + 3
    → is_end
        (get_or (front ++ (a ∷ b ∷ c ∷ d ∷ rest)) (i - 3) 0)
        (get_or (front ++ (a ∷ b ∷ c ∷ d ∷ rest)) (i - 2) 0)
        (get_or (front ++ (a ∷ b ∷ c ∷ d ∷ rest)) (i - 1) 0)
        (get_or (front ++ (a ∷ b ∷ c ∷ d ∷ rest)) i 0)
      ≡ is_end a b c d
end_at front rest a b c d i e =
    let tail = a ∷ b ∷ c ∷ d ∷ rest in
    let at = get_or-append front tail in
    let g = get_or (front ++ tail) in
    ap (λ v. is_end v (g (i - 2) 0) (g (i - 1) 0) (g i 0)) (at (i - 3) 0 (omega (arith, e)))
    ∙ ap (λ v. is_end a v (g (i - 1) 0) (g i 0)) (at (i - 2) 1 (omega (arith, e)))
    ∙ ap (λ v. is_end a b v (g i 0)) (at (i - 1) 2 (omega (arith, e)))
    ∙ ap (λ v. is_end a b c v) (at i 3 e)

plain_end :
    (front : Bytes) (a b c d : ℕ)
    → (d == 0) ≡ false
    → is_http_end (front ++ (a ∷ b ∷ c ∷ d ∷ [])) ≡ is_end a b c d
unfolding is_http_end
plain_end front a b c d h =
    let buf = front ++ (a ∷ b ∷ c ∷ d ∷ []) in
    let size : length buf ≡ length front + 4 = length-append front (a ∷ b ∷ c ∷ d ∷ []) in
    let long : ltb (length buf) 4 ≡ false = ground arith in
    if_false (ltb (length buf) 4) _ _ long
    ∙ if_false (get_or buf (length buf - 1) 0 == 0) _ _ (
        ap (λ v. v == 0)
          (get_or-append front (a ∷ b ∷ c ∷ d ∷ []) (length buf - 1) 3 (omega (arith, size)))
        ∙ h)
    ∙ end_at front [] a b c d (length buf - 1) (omega (arith, size))

null_end :
    (front : Bytes) (a b c d : ℕ) → is_http_end (front ++ (a ∷ b ∷ c ∷ d ∷ 0 ∷ [])) ≡ is_end a b c d
unfolding is_http_end
null_end front a b c d =
    let tail = a ∷ b ∷ c ∷ d ∷ 0 ∷ [] in
    let buf = front ++ tail in
    let size : length buf ≡ length front + 5 = length-append front tail in
    let long : ltb (length buf) 4 ≡ false = ground arith in
    let longer : ltb (length buf) 5 ≡ false = ground arith in
    if_false (ltb (length buf) 4) _ _ long
    ∙ if_true (get_or buf (length buf - 1) 0 == 0) _ _
        (ap (λ v. v == 0) (get_or-append front tail (length buf - 1) 4 (omega (arith, size))))
    ∙ if_false (ltb (length buf) 5) _ _ longer
    ∙ end_at front (0 ∷ []) a b c d (length buf - 2) (omega (arith, size))

end_codes :
    (a b c d : ℕ) (rest : Bytes)
    → is_end a b c d ≡ true
    → a ∷ b ∷ c ∷ d ∷ rest ≡ codes "\r\n\r\n" ++ rest
end_codes a b c d rest h =
    let a' : a ≡ b'\r' = ground arith in
    let b' : b ≡ b'\n' = ground arith in
    let c' : c ≡ b'\r' = ground arith in let d' : d ≡ b'\n' = ground arith in cc (a', b', c', d')

null_found :
    (front : Bytes) (a b c : ℕ)
    → is_http_end (front ++ (a ∷ b ∷ c ∷ 0 ∷ [])) ≡ true
    → EndsWith (front ++ (a ∷ b ∷ c ∷ 0 ∷ [])) (codes "\r\n\r\n\0")
unfolding is_http_end
null_found [] a b c h = absurd (cc h)
null_found (x ∷ front) a b c h =
    let (before, z, e) = last_byte (length front) (x ∷ front) refl in
    let tail = a ∷ b ∷ c ∷ 0 ∷ [] in
    let whole : (x ∷ front) ++ tail ≡ before ++ (z ∷ tail) =
      ap (λ l. l ++ tail) e ∙ append_assoc before (z ∷ []) tail in
    (
      before,
      whole
          ∙ ap (before ++◌) (
              end_codes z a b c (0 ∷ [])
                (sym (null_end before z a b c) ∙ sym (ap is_http_end whole) ∙ h)),
    )

found :
    (buf : Bytes)
    → is_http_end buf ≡ true
    → 4 ≤ length buf
    → EndsWith buf (codes "\r\n\r\n") ⊎ EndsWith buf (codes "\r\n\r\n\0")
found buf h long =
    let (front, a, b, c, d, e) = last_four (length buf - 4) buf (omega arith) in
    let same = sym (ap is_http_end e) ∙ h in
    elim (Bool-cases (d == 0)) [
      | inl z ↦
          let null : d ≡ 0 = ground arith in
          let e' : buf ≡ front ++ (a ∷ b ∷ c ∷ 0 ∷ []) =
            e ∙ ap (λ v. front ++ (a ∷ b ∷ c ∷ v ∷ [])) null in
          let (before, whole) = null_found front a b c (sym (ap is_http_end e') ∙ h) in
          inr (before, e' ∙ whole)
      | inr z ↦ inl (
        front,
        e ∙ ap (front ++◌) (end_codes a b c d [] (sym (plain_end front a b c d z) ∙ same)),
      )
    ]

is_short : (buf : Bytes) → length buf < 4 → is_http_end buf ≡ false
unfolding is_http_end
is_short buf h =
    let short : ltb (length buf) 4 ≡ true = ground arith in if_true (ltb (length buf) 4) _ _ short

-- `is_http_end` holds of exactly the buffers that end in "\r\n\r\n", or in these and one NUL.
pub is_http_end_iff :
    (buf : Bytes)
    → (is_http_end buf ≡ true)
      ↔ (EndsWith buf (codes "\r\n\r\n") ⊎ EndsWith buf (codes "\r\n\r\n\0"))
is_http_end_iff buf = (
  λ h. elim (Bool-cases (ltb (length buf) 4)) [
    | inl e ↦
        let short : length buf < 4 = ground arith in
        let no : false ≡ true = sym (is_short buf short) ∙ h in absurd (cc no)
    | inr e ↦ found buf h (ground arith)
  ],
  ended buf,
)
  where
    ended :
        (buf : Bytes)
        → EndsWith buf (codes "\r\n\r\n") ⊎ EndsWith buf (codes "\r\n\r\n\0")
        → is_http_end buf ≡ true
    ended buf (inl (front, e)) = ap is_http_end e ∙ plain_end front 13 10 13 10 refl
    ended buf (inr (front, e)) = ap is_http_end e ∙ null_end front 13 10 13 10
