-- ===== src/Base.antt =====
-- The names that the other modules share: the libraries' names passed on, the Boolean tests on
-- native numbers, lists measured by native numbers, and the C library's string functions.
mod Tests
mod Lists
mod Chain
mod Strings
mod Decimal
pub use Tests.*
unfoldable pub use Tests.{holds_up_to}
pub use Lists.*
pub use Chain.*
unfoldable pub use Strings.{
  c_string, str_eq, occurs, strchr_found, to_lower, strncmp_eq, strncasecmp_eq, strcasecmp_eq,
  starts_with, strstr_found,
}
unfoldable pub use Decimal.{decimal_digits, decimal}
pub use Strings.{codes, str_eq_iff, c_string_lem}
pub use Prim.Native.Nat.{
  ℕ, zero, suc, ◌+◌, ◌-◌, ◌*◌, ◌/◌, ◌%◌, ◌^◌, ◌≤◌, ◌<◌, min, max, bit_and, bit_or,
}
pub use mathlib.Core.Path.{◌≡◌, refl, sym, ap, ◌∙◌}
pub use mathlib.Core.Logic.{◌≢◌, ◌↔◌, ◌⊎◌, inl, inr}
pub use mathlib.Core.Bool.{Bool, true, false, not, ◌&&◌, ◌||◌}
pub use mathlib.Core.Option.{Option, none, some}
pub use mathlib.Core.List.{List, [], ◌∷◌, ◌++◌, map, append-nil, append_assoc}
pub use native.Mathlib.Omega.{arith}

-- Bytes, and C strings without their terminating NUL.
abbrev pub Bytes : Type 0
Bytes = List ℕ
