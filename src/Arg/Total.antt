-- ===== src/Arg/Total.antt =====
-- `parse_args` stays inside the definitions where there are as many of them as arguments.
use mimino.Base.{
  ℕ, zero, suc, ◌+◌, ◌≤◌, ◌<◌, Bool, true, false, ◌&&◌, not, Bytes, List, [], ◌∷◌, Option, none,
  some, ◌≡◌, refl, ◌∙◌, arith, ◌==◌, ltb, length, get_elem?, set, length-set, Bool-cases, inl, inr,
  ◌⊎◌,
}
use mimino.Http.Range.{first}
use mimino.Arg.{
  ArgType, bool_type, string_type, raw_type, no_value, Argdef, Parsed, after_equals, find_def,
  long_string, long_switch, parse_long, short_string, parse_short, find_raw, parse_raw, next_arg,
  parse_args_from, parse_args, long_arg_match, short_arg_match, is_string, is_raw, tail,
}

elem_at : {A : Type 0} (xs : List A) (i : ℕ) → i < length xs → (a : A) × (get_elem? xs i ≡ some a)
elem_at [] i h = absurd (omega arith)
elem_at (x ∷ xs) zero h = (x, refl)
elem_at (x ∷ xs) (suc i) h = elem_at xs i (omega arith)

-- a result that has as many definitions
abbrev Keeps : ℕ → Option Parsed → Type 0
Keeps n o = (p : Parsed) × (o ≡ some p) × (length p.argdefs ≡ n)

-- the index found is one of a definition
find_def_lem :
    (defs : List Argdef) (fits : Argdef → Bool)
    → (find_def fits defs ≡ none) ⊎ ((j : ℕ) × (find_def fits defs ≡ some j) × (j < length defs))
unfolding find_def
find_def_lem [] fits = inl refl
find_def_lem (d ∷ defs) fits = elim (Bool-cases (fits d)) [
  | inl e ↦ inr (0, rw e refl, omega arith)
  | inr e ↦ elim (find_def_lem defs fits) [
    | inl g ↦ inl (rw (e, g) refl)
    | inr g ↦ inr (g.0 + 1, rw (e, g.1) refl, omega (arith, g.2))
  ]
]

find_raw_lem :
    (defs : List Argdef) (j last_raw : ℕ)
    → (find_raw defs j last_raw ≡ none)
      ⊎ ((k : ℕ) × (find_raw defs j last_raw ≡ some k) × (k < j + length defs))
unfolding find_raw
find_raw_lem [] j last_raw = inl refl
find_raw_lem (d ∷ defs) j last_raw = elim (Bool-cases (not (ltb j last_raw) && is_raw d.type)) [
  | inl e ↦ inr (j, rw e refl, omega arith)
  | inr e ↦ elim (find_raw_lem defs (j + 1) last_raw) [
    | inl g ↦ inl (rw (e, g) refl)
    | inr g ↦ inr (g.0, rw (e, g.1) refl, omega (arith, g.2))
  ]
]

long_string-total :
    (eqp next : Option Bytes) (defs : List Argdef) (i j : ℕ) (d : Argdef) (ret : Bool)
    → i < length defs
    → Keeps (length defs) (long_string defs i j d eqp next ret)
unfolding long_string
long_string-total none none defs i j d ret h =
    let d' : Argdef = record d { bvalue = true } in
    let (x, e) = elem_at (set defs j d') i (omega (arith, length-set defs j d')) in
    let x' : Argdef = record x { err = some no_value } in
    (
      record { argdefs = set (set defs j d') i x'; ret = false; taken = false },
      rw e refl,
      length-set (set defs j d') i x' ∙ length-set defs j d',
    )
long_string-total none (some next) defs i j d ret h = (_, refl, length-set defs j _)
long_string-total (some []) next defs i j d ret h = (_, refl, length-set defs j _)
long_string-total (some (c ∷ text)) next defs i j d ret h = (_, refl, length-set defs j _)

long_switch-total :
    (type : ArgType) (defs : List Argdef) (i j : ℕ) (d : Argdef) (arg : Bytes) (next : Option Bytes)
    (ret : Bool)
    → i < length defs
    → Keeps (length defs) (long_switch type defs i j d arg next ret)
unfolding long_switch
long_switch-total bool_type defs i j d arg next ret h = (_, refl, length-set defs j _)
long_switch-total string_type defs i j d arg next ret h =
    long_string-total (after_equals arg) next defs i j d ret h
long_switch-total raw_type defs i j d arg next ret h = (_, refl, refl)

parse_long-total :
    (defs : List Argdef) (i : ℕ) (arg : Bytes) (next : Option Bytes) (ret : Bool)
    → i < length defs
    → Keeps (length defs) (parse_long defs i arg next ret)
unfolding parse_long
parse_long-total defs i arg next ret h =
    elim (find_def_lem defs (λ d. long_arg_match arg d.long_arg)) [
      | inl e ↦ (record { argdefs = defs; ret = ret; taken = false }, rw (parse_long, e) refl, refl)
      | inr e ↦
          let (d, g) = elem_at defs e.0 e.2 in
          let (p, r, n) = long_switch-total d.type defs i e.0 d arg next ret h in
          (p, rw (parse_long, e.1, g) r, n)
    ]

short_string-length :
    (text : Bytes) (next : Option Bytes) (defs : List Argdef) (j : ℕ) (d : Argdef) (ret : Bool)
    → length (short_string defs j d text next ret).argdefs ≡ length defs
unfolding short_string
short_string-length (c ∷ text) next defs j d ret = length-set defs j _
short_string-length [] none defs j d ret = length-set defs j _
short_string-length [] (some next) defs j d ret = length-set defs j _

parse_short-total :
    (text : Bytes) (defs : List Argdef) (next : Option Bytes) (ret : Bool)
    → Keeps (length defs) (parse_short text defs next ret)
unfolding parse_short
parse_short-total [] defs next ret = (_, refl, refl)
parse_short-total (c ∷ text) defs next ret =
    elim (find_def_lem defs (λ d. short_arg_match c d.short_arg)) [
      | inl e ↦
          let (p, r, n) = parse_short-total text defs next ret in (p, rw (parse_short, e) r, n)
      | inr e ↦
          let (d, g) = elem_at defs e.0 e.2 in
          elim (Bool-cases (is_string d.type)) [
            | inl t ↦ (
              short_string defs e.0 d text next ret,
              rw (parse_short, e.1, g, t) refl,
              short_string-length text next defs e.0 d ret,
            )
            | inr t ↦
                let d' : Argdef = record d { bvalue = true } in
                let (p, r, n) = parse_short-total text (set defs e.0 d') next ret in
                (p, rw (parse_short, e.1, g, t) r, n ∙ length-set defs e.0 d')
          ]
    ]

parse_raw-total :
    (defs : List Argdef) (arg : Bytes) (last_raw : ℕ)
    → (defs' : List Argdef) × (k : ℕ) × (parse_raw defs arg last_raw ≡ some (defs', k))
      × (length defs' ≡ length defs)
unfolding parse_raw
parse_raw-total defs arg last_raw = elim (find_raw_lem defs 0 last_raw) [
  | inl e ↦ (defs, last_raw, rw (parse_raw, e) refl, refl)
  | inr e ↦
      let (d, g) = elem_at defs e.0 (omega (arith, e.2)) in
      let d' : Argdef = record d { bvalue = true; value = some arg } in
      (set defs e.0 d', e.0 + 1, rw (parse_raw, e.1, g) refl, length-set defs e.0 d')
]

parse_args_from-total :
    (args : List Bytes) (i : ℕ) (defs : List Argdef) (ret skip raw : Bool) (last_raw : ℕ)
    → i + length args ≤ length defs
    → (defs' : List Argdef) × (ret' : Bool) × (parse_args_from args i defs ret skip raw last_raw
        ≡ some (defs', ret'))
      × (length defs' ≡ length defs)
unfolding parse_args_from
parse_args_from-total [] i defs ret skip raw last_raw h = (defs, ret, refl, refl)
parse_args_from-total (arg ∷ args) i defs ret skip raw last_raw h = elim (Bool-cases skip) [
  | inl s ↦
      let (ds, r, e, n) =
        parse_args_from-total args (i + 1) defs ret false raw last_raw (omega arith) in
      (ds, r, rw s e, n)
  | inr s ↦ elim (Bool-cases (not raw && first arg == b'-' && first (tail arg) == b'-')) [
    | inl l ↦
        let (p, g, m) = parse_long-total defs i arg (next_arg args) ret (omega arith) in
        let (ds, r, e, n) =
          parse_args_from-total args (i + 1) p.argdefs p.ret p.taken (length arg == 2) last_raw
            (omega (arith, m)) in
        (ds, r, rw (s, l, g) e, n ∙ m)
    | inr l ↦ elim (Bool-cases (not raw && first arg == b'-')) [
      | inl k ↦
          let (p, g, m) = parse_short-total (tail arg) defs (next_arg args) ret in
          let (ds, r, e, n) =
            parse_args_from-total args (i + 1) p.argdefs p.ret p.taken raw last_raw
              (omega (arith, m)) in
          (ds, r, rw (s, l, k, g) e, n ∙ m)
      | inr k ↦
          let (defs', last', g, m) = parse_raw-total defs arg last_raw in
          let (ds, r, e, n) =
            parse_args_from-total args (i + 1) defs' ret false raw last' (omega (arith, m)) in
          (ds, r, rw (s, l, k, g) e, n ∙ m)
    ]
  ]
]

-- With no more arguments, the program's name among them, than definitions, `parse_args` writes
-- inside the definitions only, returns, and keeps their number.
pub parse_args-total :
    (args : List Bytes) (defs : List Argdef)
    → length args + 1 ≤ length defs
    → (defs' : List Argdef) × (ret : Bool) × (parse_args args defs ≡ some (defs', ret))
      × (length defs' ≡ length defs)
unfolding parse_args
parse_args-total args defs h = parse_args_from-total args 1 defs true false false 0 (omega arith)
