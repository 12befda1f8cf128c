-- ===== src/Tests/Args.antt =====
-- The command line.
use mimino.Arg.{long_string}
use mimino.Base.{
  ℕ, Bool, true, false, Bytes, List, [], ◌∷◌, Option, none, some, ◌≡◌, refl, arith, codes, length,
}
use mimino.Arg.{
  ArgType, bool_type, string_type, raw_type, no_value, Argdef, long_arg_match, parse_args,
  parse_long, parse_short, parse_raw, find_def, long_switch, after_equals,
}
use mimino.Arg.Total.{parse_args-total}

-- a definition that no argument has met
abbrev unset : ℕ → Option Bytes → ArgType → Argdef
unset short long type = record {
  short_arg = short;
  long_arg = long;
  err = none;
  type = type;
  bvalue = false;
  value = none;
}

abbrev verbose : Argdef
verbose = unset b'v' (some (codes "verbose")) bool_type

abbrev port : Argdef
port = unset b'p' (some (codes "port")) string_type

abbrev dir : Argdef
dir = unset 0 none raw_type

abbrev defs : List Argdef
defs = verbose ∷ port ∷ dir ∷ []

parse_args-total_example :
    (defs' : List Argdef) × (ret : Bool) × (parse_args (codes "--port=80" ∷ codes "www" ∷ []) defs
      ≡ some (defs', ret))
    × (length defs' ≡ length defs)
parse_args-total_example =
    parse_args-total (codes "--port=80" ∷ codes "www" ∷ []) defs (omega arith)

-- Short flags together with a value behind, a long flag, the raw argument behind "--", and a value
-- that is missing: the error goes to the definition with the argument's index, and outside the
-- definitions where there is none.
parse_args_runs :
    (parse_args (codes "-vp" ∷ codes "80" ∷ codes "--" ∷ codes "-x" ∷ []) defs
      ≡ some (
        record verbose { bvalue = true }
            ∷ record port { bvalue = true; value = some (codes "80") }
            ∷ record dir { bvalue = true; value = some (codes "-x") }
            ∷ [],
        true,
      ))
    × (parse_args (codes "-v" ∷ codes "--port" ∷ []) defs
        ≡ some (
          record verbose { bvalue = true }
              ∷ record port { bvalue = true }
              ∷ record dir { err = some no_value }
              ∷ [],
          false,
        ))
    × (parse_args (codes "-v" ∷ codes "-v" ∷ codes "--port" ∷ []) defs ≡ none)
unfolding parse_args parse_long parse_short parse_raw find_def long_switch long_arg_match
    after_equals long_string
parse_args_runs = (refl, refl, refl)
