-- ===== src/Server/Config.antt =====
-- mimino.c: the configuration that `main` makes of the command line, and fdwatch.c's limit.
use mimino.Base.{
  ℕ, ◌+◌, ◌-◌, ◌%◌, ◌^◌, Bool, false, not, ◌&&◌, Bytes, List, [], ◌∷◌, Option, none, some, ◌>>=◌,
  ltb, if◌then◌else◌, codes, get_elem?,
}
use mimino.Arg.{Argdef, ArgType, bool_type, string_type, raw_type, parse_args}

-- `Server_Config`; `none` is NULL
pub record Config : Type 0 where
  pub verbose : Bool
  pub quiet : Bool
  pub is_unsafe : Bool
  pub chroot : Bool
  pub serve_error_files : Bool
  pub timeout_secs : ℕ
  pub poll_interval_ms : ℕ
  pub max_fds : ℕ
  pub serve_path : Bytes
  pub port : Bytes
  pub index : Option Bytes
  pub suffix : Option Bytes
  pub chroot_dir : Option Bytes

abbrev pub argdef : ℕ → Option Bytes → ArgType → Argdef
argdef short_arg long_arg type = record {
  short_arg = short_arg;
  long_arg = long_arg;
  err = none;
  type = type;
  bvalue = false;
  value = none;
}

-- the nine definitions of `main`
abbrev pub server_argdefs : List Argdef
server_argdefs =
    argdef b'v' (some (codes "verbose")) bool_type
    ∷ argdef b'q' (some (codes "quiet")) bool_type
    ∷ argdef b'u' (some (codes "unsafe")) bool_type
    ∷ argdef b'r' (some (codes "chroot")) string_type
    ∷ argdef b'e' (some (codes "error-files")) bool_type
    ∷ argdef b's' (some (codes "suffix")) string_type
    ∷ argdef b'p' (some (codes "port")) string_type
    ∷ argdef b'i' (some (codes "index")) string_type
    ∷ argdef 0 none raw_type
    ∷ []

-- `value ? value : default`
abbrev pub value_or : Option Bytes → Bytes → Bytes
value_or none default = default
value_or (some value) default = value

-- `bvalue ? (value ? value : default) : NULL`
abbrev pub given_or : Argdef → Bytes → Option Bytes
given_or d default = if d.bvalue then some (value_or d.value default) else none

pub record Rlimit : Type 0 where
  pub rlim_cur : ℕ
  pub rlim_max : ℕ

-- `getrlimit` is given by what it returns, `none` for an error, and `setrlimit` by whether it
-- succeeds. The `int` returned is the number of its 32 bits.
unfoldable pub fdwatch_get_max_poll_nfds : Option Rlimit → (Rlimit → Bool) → ℕ
fdwatch_get_max_poll_nfds none setrlimit = 10000
fdwatch_get_max_poll_nfds (some rl) setrlimit =
    let raised : Rlimit =
      if ltb rl.rlim_cur rl.rlim_max then record rl { rlim_cur = rl.rlim_max } else rl in
    if setrlimit raised then (raised.rlim_cur + (2 ^ 64 - 1)) % 2 ^ 32 else rl.rlim_cur % 2 ^ 32

-- "Set server configs" and "Set chroot directory"
unfoldable pub make_config : List Argdef → ℕ → Option Config
make_config defs max_fds = do
  verbose ← get_elem? defs 0
  quiet ← get_elem? defs 1
  unsafe ← get_elem? defs 2
  chroot ← get_elem? defs 3
  error_files ← get_elem? defs 4
  suffix ← get_elem? defs 5
  port ← get_elem? defs 6
  index ← get_elem? defs 7
  path ← get_elem? defs 8
  let serve_path = value_or path.value (codes "./")
  some (record {
    verbose = verbose.bvalue;
    quiet = quiet.bvalue;
    is_unsafe = unsafe.bvalue && not chroot.bvalue;
    chroot = chroot.bvalue;
    serve_error_files = error_files.bvalue;
    timeout_secs = 20;
    poll_interval_ms = 1000;
    max_fds = max_fds;
    serve_path = serve_path;
    port = value_or port.value (codes "8080");
    index = given_or index (codes "index.html");
    suffix = given_or suffix (codes ".html");
    chroot_dir = if chroot.bvalue then some (value_or chroot.value serve_path) else chroot.value;
  })

-- The configuration, where the arguments are parsed; the inner `none` is "Error parsing arguments".
unfoldable pub server_config : List Bytes → ℕ → Option (Option Config)
unfolding parse_args make_config
server_config args max_fds = do
  (defs, parse_ok) ← parse_args args server_argdefs
  conf ← make_config defs max_fds
  some (if parse_ok then some conf else none)
