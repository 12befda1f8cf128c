-- ===== src/Dir/Files.antt =====
-- dir.c: `read_file_info` and `ls`. The file system is a parameter: what `lstat`, `stat` and
-- `scandir` return for a path. The printing of an error is taken to leave `errno` as it is.
pub mod Listed
use mimino.Base.{
  ℕ, ◌+◌, ◌-◌, ◌/◌, ◌%◌, Bool, true, false, Bytes, List, [], ◌∷◌, ◌++◌, map, Option, none, some,
  ◌>>=◌, leb, ◌==◌, if◌then◌else◌, codes, length, get_elem?,
}
use mimino.Server.Types.{File}
use mimino.Dir.Path.{Resolved, get_base_name}
use mimino.Dir.Listing.{Sign, sort_file_list}

-- `struct stat`, as far as it is read
pub record Stat : Type 0 where
  pub st_mode : ℕ
  pub st_size : ℕ
  pub st_mtime : ℕ

pub data StatResult : Type 0 where
  found : Stat → StatResult
  -- -1 with ENOENT
  missing : StatResult
  -- -1 with another error
  failed : StatResult

pub record FileSystem : Type 0 where
  pub lstat : Bytes → StatResult
  pub stat : Bytes → StatResult
  -- the names of a directory's entries
  pub scandir : Bytes → Option (List Bytes)
  pub strcoll : Bytes → Bytes → Sign

-- S_ISDIR
abbrev pub is_dir_mode : ℕ → Bool
is_dir_mode mode = mode / 4096 % 16 == 4

-- S_ISLNK
abbrev pub is_link_mode : ℕ → Bool
is_link_mode mode = mode / 4096 % 16 == 10

-- NULL_FILE
abbrev pub null_file : File
null_file = record {
  name = codes "???";
  last_mod = 0;
  mode = 0;
  size = 0;
  is_dir = false;
  is_link = false;
  is_broken_link = false;
  is_null = true;
}

-- what `read_file_info` returns: 1, 0, -1 and -2
pub data InfoResult : Type 0 where
  complete link_only no_file no_info : InfoResult

-- "Read data into *f": a file with the name that it has
abbrev pub file_of : Bytes → Stat → File
file_of name sb = record {
  name = name;
  last_mod = sb.st_mtime;
  mode = sb.st_mode;
  size = sb.st_size;
  is_dir = is_dir_mode sb.st_mode;
  is_link = is_link_mode sb.st_mode;
  is_broken_link = false;
  is_null = false;
}

-- "If link, get data about the linked file"
unfoldable pub follow_link : File → StatResult → File × InfoResult
follow_link f (found sb) = (
  record f { is_dir = is_dir_mode sb.st_mode; size = sb.st_size; last_mod = sb.st_mtime },
  complete,
)
follow_link f missing = (record f { size = 0; is_broken_link = true }, link_only)
follow_link f failed = (record f { size = 0; is_broken_link = false }, link_only)

unfoldable pub read_lstat : FileSystem → Bytes → Bytes → StatResult → File × InfoResult
unfolding follow_link
read_lstat fs name path (found sb) =
    let f = file_of name sb in if f.is_link then follow_link f (fs.stat path) else (f, complete)
read_lstat fs name path missing = (null_file, no_file)
read_lstat fs name path failed = (null_file, no_info)

-- `read_file_info` of a struct that has its name, all that is read of it
unfoldable pub read_file_info : FileSystem → Bytes → Bytes → File × InfoResult
unfolding read_lstat
read_file_info fs name path = read_lstat fs name path (fs.lstat path)

pub record FileList : Type 0 where
  pub files : List File
  pub dir_info : File

-- The copy, if it and its NUL are written inside its allocation.
unfoldable pub in_allocation : Resolved → Option Bytes
in_allocation copy = if leb (length copy.text + 1) copy.allocated then some copy.text else none

-- "Copy path to dir and add trailing '/'": the new string. `none` is a write behind the bytes allocated
-- for it, or the read before an empty path.
unfoldable pub with_slash : Bytes → Option Bytes
unfolding in_allocation
with_slash path = do
  last ← get_elem? path (length path - 1)
  let added : Resolved = record { text = path ++ (b'/' ∷ []); allocated = length path + 1 }
  let copied : Resolved = record { text = path; allocated = length path + 1 }
  if last == b'/' then in_allocation copied else in_allocation added

-- one entry of the list; a name is shorter than the 256 bytes left for it
abbrev pub list_entry : FileSystem → Bytes → Bytes → File
list_entry fs dir name = (read_file_info fs name (dir ++ name)).0

-- `ls` behind `scandir`. The outer `none` is a fault, the inner one the NULL returned.
unfoldable pub list_dir : FileSystem → Bytes → Option (List Bytes) → Option (Option FileList)
list_dir fs dir none = some none
list_dir fs dir (some names) = do
  files ← sort_file_list fs.strcoll (map (list_entry fs dir) names)
  some (some (record { files = files; dir_info = (read_file_info fs (get_base_name dir) dir).0 }))

unfoldable pub ls : FileSystem → Bytes → Option (Option FileList)
unfolding with_slash list_dir
ls fs path = do dir ← with_slash path; list_dir fs dir (fs.scandir dir)
