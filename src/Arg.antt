-- ===== src/Arg.antt =====
-- arg.c: the command line. The printing under the constant `debug = 0` is left out.
pub mod Match
pub mod Total
use mimino.Base.{
  ℕ, ◌+◌, Bool, true, false, not, ◌&&◌, Bytes, List, [], ◌∷◌, Option, none, some, ◌>>=◌, ltb, ◌==◌,
  if◌then◌else◌, length, get_elem?, set,
}
use mimino.Http.Range.{first}

pub data ArgType : Type 0 where
  bool_type string_type raw_type : ArgType

pub data ArgError : Type 0 where
  -- "No value given for argument", and "No value given after \"=\""
  no_value no_value_after_equals : ArgError

pub record Argdef : Type 0 where
  -- 0 where the definition has none
  pub short_arg : ℕ
  pub long_arg : Option Bytes
  pub err : Option ArgError
  pub type : ArgType
  pub bvalue : Bool
  pub value : Option Bytes

-- What an argument leaves: the definitions, the return value so far, and whether the argument behind
-- it was taken as its value.
pub record Parsed : Type 0 where
  pub argdefs : List Argdef
  pub ret : Bool
  pub taken : Bool

-- the loop of `long_arg_match`, and the tests behind it
unfoldable pub match_flag : Bytes → Bytes → Bool
match_flag [] [] = true
match_flag [] (f ∷ flag) = false
match_flag (a ∷ arg) [] = a == b'='
match_flag (a ∷ arg) (f ∷ flag) = a == f && match_flag arg flag

unfoldable pub long_arg_match : Bytes → Option Bytes → Bool
unfolding match_flag
long_arg_match (a ∷ b ∷ arg) (some flag) = a == b'-' && b == b'-' && match_flag arg flag
long_arg_match _ _ = false

unfoldable pub short_arg_match : ℕ → ℕ → Bool
short_arg_match c flag = not (flag == 0) && c == flag

-- the text behind the first '=', from `strchr`
unfoldable pub after_equals : Bytes → Option Bytes
after_equals [] = none
after_equals (c ∷ arg) = if c == b'=' then some arg else after_equals arg

abbrev pub tail : Bytes → Bytes
tail [] = []
tail (c ∷ arg) = arg

-- the first definition that fits, by its index
unfoldable pub find_def : (Argdef → Bool) → List Argdef → Option ℕ
find_def fits [] = none
find_def fits (d ∷ defs) =
    let later = find_def fits defs >>= λ j. some (j + 1) in if fits d then some 0 else later

-- the case of a flag with a Boolean value, given `eqp + 1`
unfoldable pub bool_value : Option Bytes → Bool
bool_value none = true
bool_value (some text) = not (first text == 0) && not (first text == b'0')

-- `argdefs[i].err = ...`; an `i` outside the array is the `none`
unfoldable pub set_err : List Argdef → ℕ → ArgError → Option (List Argdef)
set_err defs i error = do d ← get_elem? defs i; some (set defs i (record d { err = some error }))

-- the case of a flag with a string value: the argument `i`, the definition `j`, what follows the
-- '=', and the argument behind
unfoldable pub long_string :
    List Argdef → ℕ → ℕ → Argdef → Option Bytes → Option Bytes → Bool → Option Parsed
unfolding set_err
long_string defs i j d none none ret = do
  defs' ← set_err (set defs j (record d { bvalue = true })) i no_value
  some (record { argdefs = defs'; ret = false; taken = false })
long_string defs i j d none (some next) ret = some (record {
  argdefs = set defs j (record d { bvalue = true; value = some next });
  ret = ret;
  taken = true;
})
long_string defs i j d (some []) next ret = some (record {
  argdefs = set defs j (record d { bvalue = true; value = none; err = some no_value_after_equals });
  ret = false;
  taken = false;
})
long_string defs i j d (some (c ∷ text)) next ret = some (record {
  argdefs = set defs j (record d { bvalue = true; value = some (c ∷ text) });
  ret = ret;
  taken = false;
})

-- the switch on the type
unfoldable pub long_switch :
    ArgType → List Argdef → ℕ → ℕ → Argdef → Bytes → Option Bytes → Bool → Option Parsed
long_switch bool_type defs i j d arg next ret = some (record {
  argdefs = set defs j (record d { bvalue = bool_value (after_equals arg) });
  ret = ret;
  taken = false;
})
long_switch string_type defs i j d arg next ret = long_string defs i j d (after_equals arg) next ret
long_switch raw_type defs i j d arg next ret =
    some (record { argdefs = defs; ret = ret; taken = false })

-- "Long-form arg"
unfoldable pub parse_long : List Argdef → ℕ → Bytes → Option Bytes → Bool → Option Parsed
parse_long defs i arg next ret = elim (find_def (λ d. long_arg_match arg d.long_arg) defs) [
  | none ↦ some (record { argdefs = defs; ret = ret; taken = false })
  | some j ↦ get_elem? defs j >>= λ d. long_switch d.type defs i j d arg next ret
]

abbrev pub is_string : ArgType → Bool
is_string bool_type = false
is_string string_type = true
is_string raw_type = false

abbrev pub is_raw : ArgType → Bool
is_raw bool_type = false
is_raw string_type = false
is_raw raw_type = true

-- The short flags of one argument, `c` and those behind it. A raw definition that a letter fits
-- would let the search go on; its short name is 0, which no letter fits, so the first fit ends it.
unfoldable pub short_string : List Argdef → ℕ → Argdef → Bytes → Option Bytes → Bool → Parsed
short_string defs j d (c ∷ text) next ret = record {
  argdefs = set defs j (record d { bvalue = true; value = some (c ∷ text) });
  ret = ret;
  taken = false;
}
short_string defs j d [] none ret = record {
  argdefs = set defs j (record d { bvalue = true; err = some no_value });
  ret = false;
  taken = false;
}
short_string defs j d [] (some next) ret = record {
  argdefs = set defs j (record d { bvalue = true; value = some next });
  ret = ret;
  taken = true;
}

-- "Short-form arg"
unfoldable pub parse_short : Bytes → List Argdef → Option Bytes → Bool → Option Parsed
unfolding short_arg_match short_string
parse_short [] defs next ret = some (record { argdefs = defs; ret = ret; taken = false })
parse_short (c ∷ text) defs next ret = elim (find_def (λ d. short_arg_match c d.short_arg) defs) [
  | none ↦ parse_short text defs next ret
  | some j ↦ get_elem? defs j >>= λ d.
      if is_string d.type
      then some (short_string defs j d text next ret)
      else parse_short text (set defs j (record d { bvalue = true })) next ret
]

-- "Raw arg": the first raw definition from `last_raw_arg_ind` on
unfoldable pub find_raw : List Argdef → ℕ → ℕ → Option ℕ
find_raw [] j last_raw = none
find_raw (d ∷ defs) j last_raw =
    let later = find_raw defs (j + 1) last_raw in
    if not (ltb j last_raw) && is_raw d.type then some j else later

-- the definitions, and `last_raw_arg_ind`
unfoldable pub parse_raw : List Argdef → Bytes → ℕ → Option (List Argdef × ℕ)
unfolding find_raw
parse_raw defs arg last_raw = elim (find_raw defs 0 last_raw) [
  | none ↦ some (defs, last_raw)
  | some j ↦ get_elem? defs j >>= λ d.
      some (set defs j (record d { bvalue = true; value = some arg }), j + 1)
]

abbrev pub next_arg : List Bytes → Option Bytes
next_arg [] = none
next_arg (arg ∷ args) = some arg

-- The arguments from the `i`th on. After a value was taken, `skip` leaves out the argument. `raw`
-- and `last_raw` are `raw_escape` and `last_raw_arg_ind`.
unfoldable pub parse_args_from :
    List Bytes → ℕ → List Argdef → Bool → Bool → Bool → ℕ → Option (List Argdef × Bool)
parse_args_from [] i defs ret skip raw last_raw = some (defs, ret)
parse_args_from (arg ∷ args) i defs ret skip raw last_raw =
    let next = next_arg args in
    let skipped = parse_args_from args (i + 1) defs ret false raw last_raw in
    let long = do
      p ← parse_long defs i arg next ret
      parse_args_from args (i + 1) p.argdefs p.ret p.taken (length arg == 2) last_raw
    in let short = do
      p ← parse_short (tail arg) defs next ret
      parse_args_from args (i + 1) p.argdefs p.ret p.taken raw last_raw
      in let plain = do
        (defs', last_raw') ← parse_raw defs arg last_raw
        parse_args_from args (i + 1) defs' ret false raw last_raw'
        in if skip
          then skipped
          else if not raw && first arg == b'-' && first (tail arg) == b'-'
          then long
          else if not raw && first arg == b'-'
          then short
          else plain

-- `args` are the arguments behind the program's name. The result is the definitions and the value
-- returned; `none` is a write outside the definitions.
unfoldable pub parse_args : List Bytes → List Argdef → Option (List Argdef × Bool)
unfolding parse_args_from
parse_args args defs = parse_args_from args 1 defs true false false 0
