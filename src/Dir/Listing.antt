-- ===== src/Dir/Listing.antt =====
-- dir.c: a listing's files in their order, and how a file is shown. `strcoll` is the C library's, a
-- parameter; of what the comparisons return the callers use the sign.
pub mod Order
pub mod Permutation
pub mod Ranks
pub mod Sorted
use mimino.Base.{
  ℕ, zero, suc, ◌+◌, ◌*◌, ◌-◌, ◌/◌, ◌%◌, Bool, true, false, not, ◌&&◌, Bytes, List, [], ◌∷◌, ◌++◌,
  Option, none, some, ◌>>=◌, ltb, leb, ◌==◌, if◌then◌else◌, codes, str_eq, get_elem?, set, length,
  decimal,
}
use mimino.Ascii.{is_alnum}
use mimino.Http.Range.{first}
use mimino.Server.Types.{File}

pub data Sign : Type 0 where
  negative zero_sign positive : Sign

abbrev pub negate : Sign → Sign
negate negative = positive
negate zero_sign = zero_sign
negate positive = negative

abbrev pub is_negative : Sign → Bool
is_negative negative = true
is_negative zero_sign = false
is_negative positive = false

-- one character of the permissions, `bit` being the mask; a byte that is not set keeps `old`
abbrev pub perm : ℕ → ℕ → ℕ → Option ℕ → Option ℕ
perm mode bit c old = if mode / bit % 2 == 1 then some c else old

-- The bytes of the string without its NUL. `memset` fills nine of the ten, so the last one, where
-- others may not execute the file, is a byte that was never set.
unfoldable pub get_human_file_perms : File → List (Option ℕ)
get_human_file_perms f =
    let dash = some b'-' in
    (if f.is_link then some b'l' else if f.is_dir then some b'd' else dash)
    ∷ perm f.mode 256 b'r' dash
    ∷ perm f.mode 128 b'w' dash
    ∷ perm f.mode 64 b'x' dash
    ∷ perm f.mode 32 b'r' dash
    ∷ perm f.mode 16 b'w' dash
    ∷ perm f.mode 8 b'x' dash
    ∷ perm f.mode 4 b'r' dash
    ∷ perm f.mode 2 b'w' dash
    ∷ perm f.mode 1 b'x' none
    ∷ []

-- KB_SIZE and so on
abbrev pub kb_size : ℕ
kb_size = 0x3E8

abbrev pub mb_size : ℕ
mb_size = 0xF4240

abbrev pub gb_size : ℕ
gb_size = 0x3B9ACA00

abbrev pub tb_size : ℕ
tb_size = 0xE8D4A51000

-- `none` is a string that was never written.
unfoldable pub get_human_file_size : ℕ → Option Bytes
get_human_file_size size =
    if ltb size kb_size
    then some (decimal size)
    else if leb kb_size size && ltb size mb_size
    then some (decimal (size / kb_size) ++ codes "K")
    else if leb mb_size size && ltb size gb_size
    then some (decimal (size / mb_size) ++ codes "M")
    else if leb gb_size size && ltb size tb_size
    then some (decimal (size / gb_size) ++ codes "G")
    else if leb mb_size size && ltb size gb_size
    then some (decimal (size / tb_size) ++ codes "T")
    else none

unfoldable pub get_file_type_suffix : File → Bytes
get_file_type_suffix f =
    if f.is_dir && f.is_link
    then codes "/ ->"
    else if f.is_dir
    then codes "/"
    else if f.is_link
    then codes " ->"
    else []

unfoldable pub swap_in_file_list : List File → ℕ → ℕ → Option (List File)
swap_in_file_list files a b =
    let swapped = do
      file_a ← get_elem? files a
      file_b ← get_elem? files b
      some (set (set files a file_b) b file_a)
    in if a == b then some files else swapped

module _ (strcoll : Bytes → Bytes → Sign) where
  -- the second half, which compares first characters that are no dots
  unfoldable pub compare_alnum : Bytes → Bytes → Sign
  unfolding is_alnum
  compare_alnum a b =
      if not (is_alnum (first a)) && not (is_alnum (first b))
      then negate (strcoll a b)
      else if not (is_alnum (first a))
      then positive
      else if not (is_alnum (first b))
      then negative
      else negate (strcoll a b)

  unfoldable pub compare_file_names : Bytes → Bytes → Sign
  unfolding str_eq compare_alnum
  compare_file_names a b =
      if str_eq a (codes ".")
      then positive
      else if str_eq b (codes ".")
      then negative
      else if str_eq a (codes "..")
      then positive
      else if str_eq b (codes "..")
      then negative
      else if first a == b'.' && first b == b'.'
      then negate (strcoll a b)
      else if first a == b'.'
      then positive
      else if first b == b'.'
      then negative
      else compare_alnum a b

  unfoldable pub compare_files : File → File → Sign
  unfolding compare_file_names
  compare_files a b =
      if a.is_dir && b.is_dir
      then compare_file_names a.name b.name
      else if a.is_dir
      then positive
      else if b.is_dir
      then negative
      else compare_file_names a.name b.name

  -- the linear search, over the `count` files from `j` on; `none` is an access outside the list
  unfoldable pub find_smallest : List File → ℕ → ℕ → ℕ → Option ℕ
  unfolding compare_files
  find_smallest files zero j smallest = some smallest
  find_smallest files (suc count) j smallest = do
    a ← get_elem? files smallest
    b ← get_elem? files j
    let next = if is_negative (compare_files a b) then j else smallest
    find_smallest files count (j + 1) next

  -- the outer loop, over the `count` files from `i` on
  unfoldable pub sort_from : List File → ℕ → ℕ → Option (List File)
  unfolding find_smallest
  sort_from files zero i = some files
  sort_from files (suc count) i = do
    smallest ← find_smallest files count (i + 1) i
    swapped ← swap_in_file_list files smallest i
    sort_from swapped count (i + 1)

  unfoldable pub sort_file_list : List File → Option (List File)
  unfolding sort_from
  sort_file_list files = sort_from files (length files) 0
