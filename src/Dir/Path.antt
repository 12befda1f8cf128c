-- ===== src/Dir/Path.antt =====
-- dir.c: `cleanup_path`, `resolve_path` and `get_base_name`. A path is a C string.
pub mod Segments
pub mod Resolve
pub mod BaseName
use mimino.Base.{
  ℕ, zero, suc, ◌+◌, ◌-◌, Bool, not, ◌&&◌, ◌||◌, Bytes, [], ◌∷◌, ◌++◌, Option, none, some, ◌>>=◌,
  leb, ◌==◌, if◌then◌else◌, codes, str_eq, length, get_elem?, get_or, take, drop,
}
use mimino.Http.Range.{first}

-- The copy of a path in which no '/' follows a '/'. `prev` is the byte before, 0 where there is
-- none.
unfoldable pub squeeze : ℕ → Bytes → Bytes
squeeze prev [] = []
squeeze prev (c ∷ path) =
    let rest = squeeze c path in if prev == b'/' && c == b'/' then rest else c ∷ rest

unfoldable pub cleanup_path : Bytes → Bytes
unfolding squeeze
cleanup_path path = squeeze 0 path

-- `while (*p2 == '/') p2++;`
unfoldable pub skip_slashes : Bytes → Bytes
skip_slashes [] = []
skip_slashes (c ∷ path) = if c == b'/' then skip_slashes path else c ∷ path

-- the texts of `p2` that stand for `p1` itself
unfoldable pub is_current_dir : Bytes → Bool
unfolding str_eq
is_current_dir p2 =
    str_eq (codes ".") p2
    || str_eq (codes "/") p2
    || str_eq (codes "./") p2
    || str_eq (codes "/.") p2
    || str_eq (codes "./.") p2

-- the new string, and the bytes that were allocated for it and its NUL
pub record Resolved : Type 0 where
  pub text : Bytes
  pub allocated : ℕ

-- `p2` behind the copy of `p1`, whose last byte is `last`
unfoldable pub join : Bytes → ℕ → Bytes → Bytes
unfolding skip_slashes squeeze
join front last p2 =
    let p2' = if last == b'/' then skip_slashes p2 else p2 in
    let separator = if not (last == b'/') && not (first p2' == b'/') then b'/' ∷ [] else [] in
    front ++ (separator ++ squeeze 0 p2')

-- The function goes on at `res + l1 - 1`. If slashes of `p1` were left out, no byte was written
-- there: that read of uninitialised memory is the `none`, and so is the one before an empty `p1`.
unfoldable pub resolve_path : Bytes → Bytes → Option Resolved
unfolding is_current_dir join
resolve_path p1 p2 =
    if is_current_dir p2
    then some (record { text = p1; allocated = length p1 + 1 })
    else if length p1 == 0
    then none
    else do
      last ← get_elem? (squeeze 0 p1) (length p1 - 1)
      some (record { text = join (squeeze 0 p1) last p2; allocated = length p1 + length p2 + 1 })

-- the loop: `copy_from` as an index, and `copy_len`
unfoldable pub base_name_loop : Bytes → ℕ → ℕ → ℕ × ℕ
base_name_loop path zero copy_len = (0, copy_len)
base_name_loop path (suc from) copy_len =
    let rest = base_name_loop path from (copy_len + 1) in
    if get_or path (suc from) 0 == b'/' then (suc from + 1, copy_len - 1) else rest

-- for a path that is not empty
unfoldable pub get_base_name : Bytes → Bytes
unfolding base_name_loop
get_base_name path =
    if length path == 1 && (first path == b'/' || first path == b'.')
    then path
    else let last = length path - 1 in
      let from = if get_or path last 0 == b'/' then last - 1 else last in
      let (copy_from, copy_len) = base_name_loop path from 1 in take copy_len (drop copy_from path)
