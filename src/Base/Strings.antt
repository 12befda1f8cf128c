-- ===== src/Base/Strings.antt =====
-- The string functions of the C library that the program uses, on C strings and on bytes.
use Prim.Native.Nat.{ℕ, zero, suc, ◌+◌}
use Prim.Native.Char.{code}
use Prim.Native.String.{String}
use mathlib.Core.Bool.{Bool, true, false, ◌&&◌, ◌||◌}
use mathlib.Core.List.{List, [], ◌∷◌}
use mathlib.Core.Path.{◌≡◌, refl}
use mathlib.Core.Logic.{◌↔◌, ◌≢◌}
use native.Mathlib.Omega.{arith}
use mimino.Base.Lists.{All}
use mimino.Base.Tests.{leb, ◌==◌, if◌then◌else◌}

-- A text constant of the source. Each is ASCII, so a character's code is its byte.
abbrev pub codes : String → List ℕ
codes (String.◌∷◌ letter rest) = code letter ∷ codes rest
codes String.[] = []

-- The C string that starts at the given bytes: those before the first NUL.
unfoldable pub c_string : List ℕ → List ℕ
c_string [] = []
c_string (c ∷ cs) = if c == 0 then [] else c ∷ c_string cs

-- `!strcmp(a, b)`
unfoldable pub str_eq : List ℕ → List ℕ → Bool
str_eq [] [] = true
str_eq (a ∷ s) (b ∷ t) = a == b && str_eq s t
str_eq _ _ = false

-- Is the byte one of the text? (`strchr` also finds the terminating NUL.)
unfoldable pub occurs : ℕ → List ℕ → Bool
occurs c [] = false
occurs c (d ∷ s) = c == d || occurs c s

-- `strchr(s, c) != NULL`
unfoldable pub strchr_found : List ℕ → ℕ → Bool
unfolding occurs
strchr_found s c = c == 0 || occurs c s

-- `tolower` in the "C" locale
unfoldable pub to_lower : ℕ → ℕ
to_lower c = if leb b'A' c && leb c b'Z' then c + 32 else c

-- `!strncmp(s, t, n)` of a C string and the bytes at a pointer; behind its end each has a NUL.
unfoldable pub strncmp_eq : List ℕ → List ℕ → ℕ → Bool
strncmp_eq s t zero = true
strncmp_eq [] [] (suc n) = true
strncmp_eq [] (b ∷ t) (suc n) = b == 0
strncmp_eq (a ∷ s) [] (suc n) = a == 0
strncmp_eq (a ∷ s) (b ∷ t) (suc n) = a == b && strncmp_eq s t n

-- `!strncasecmp(s, t, n)`
unfoldable pub strncasecmp_eq : List ℕ → List ℕ → ℕ → Bool
unfolding to_lower
strncasecmp_eq s t zero = true
strncasecmp_eq [] [] (suc n) = true
strncasecmp_eq [] (b ∷ t) (suc n) = b == 0
strncasecmp_eq (a ∷ s) [] (suc n) = a == 0
strncasecmp_eq (a ∷ s) (b ∷ t) (suc n) = to_lower a == to_lower b && strncasecmp_eq s t n

-- `!strcasecmp(s, t)`
unfoldable pub strcasecmp_eq : List ℕ → List ℕ → Bool
unfolding to_lower
strcasecmp_eq [] [] = true
strcasecmp_eq (a ∷ s) (b ∷ t) = to_lower a == to_lower b && strcasecmp_eq s t
strcasecmp_eq _ _ = false

-- Does the text start with the other?
unfoldable pub starts_with : List ℕ → List ℕ → Bool
starts_with s [] = true
starts_with [] (b ∷ t) = false
starts_with (a ∷ s) (b ∷ t) = a == b && starts_with s t

-- `strstr(s, t) != NULL`
unfoldable pub strstr_found : List ℕ → List ℕ → Bool
unfolding starts_with
strstr_found [] t = starts_with [] t
strstr_found (a ∷ s) t = starts_with (a ∷ s) t || strstr_found s t

pub str_eq_iff : (s t : List ℕ) → (str_eq s t ≡ true) ↔ (s ≡ t)
unfolding str_eq
str_eq_iff (a ∷ s) (b ∷ t) = ground (arith, str_eq_iff s t)
str_eq_iff _ _ = ground arith

-- A string with no NUL in it is the whole of its bytes.
pub c_string_lem : (s : List ℕ) → All (λ c. c ≢ 0) s → c_string s ≡ s
unfolding c_string
c_string_lem [] h = refl
c_string_lem (c ∷ s) h = ground (arith, h.0, c_string_lem s h.1)
