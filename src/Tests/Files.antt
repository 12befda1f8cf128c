-- ===== src/Tests/Files.antt =====
-- The reading of a file's information, a directory and its page.
use mathlib.Core.Path.{◌≡◌, refl}
use mathlib.Core.List.{Permᴰ}
use mimino.Base.{
  ℕ, ◌+◌, ◌^◌, ◌<◌, Bytes, List, [], ◌∷◌, map, none, some, ◌≢◌, ◌⊎◌, arith, if◌then◌else◌, codes,
  str_eq, length, true, decimal, c_string,
}
use mimino.Buffer.{init_buf}
use mimino.Buffer.Append.{Appended, init_buf-Holds}
use mimino.Server.Types.{File}
use mimino.Dir.Listing.{zero_sign, get_file_type_suffix, get_human_file_size, get_human_file_perms}
use mimino.Dir.Files.{
  Stat, found, missing, FileSystem, FileList, list_entry, read_file_info, file_of, ls, link_only,
}
use mimino.Dir.Files.Listed.{ls-Perm}
use mimino.Http.Html.{Memory, html_writes, file_list_to_html}
use mimino.Http.Html.Rows.{page, file_list_to_html-page}
use mimino.Http.Writes.Texts.{room}

abbrev plain : Stat
plain = record { st_mode = 33188; st_size = 5; st_mtime = 100 }

abbrev link : Stat
link = record { st_mode = 41471; st_size = 1; st_mtime = 200 }

-- "srv/b" is a link to nothing, and every other path is a file.
abbrev fs : FileSystem
fs = record {
  lstat = λ path. if str_eq path (codes "srv/b") then found link else found plain;
  stat = λ path. missing;
  scandir = λ path. some (codes "a" ∷ codes "b" ∷ []);
  strcoll = λ a b. zero_sign;
}

abbrev memory : Memory
memory = record { byte = 7; number = 0; text = [] }

abbrev names : List Bytes
names = codes "a" ∷ codes "b" ∷ []

broken_link :
    read_file_info fs (codes "b") (codes "srv/b")
    ≡ (record (file_of (codes "b") link) { size = 0; is_broken_link = true }, link_only)
unfolding read_file_info str_eq
broken_link = refl

abbrev slash : ℕ
slash = b'/'

ls-Perm_example :
    ((slash ≡ b'/')
      × (l : FileList) × (ls fs (codes "srv/") ≡ some (some l))
      × Permᴰ l.files (map (list_entry fs (codes "srv/")) names))
    ⊎ ((slash ≢ b'/') × (ls fs (codes "srv/") ≡ none))
ls-Perm_example = ls-Perm fs (codes "srv/") slash names refl refl

abbrev files : List File
files = file_of (codes "a b") plain ∷ []

room_files : length {A = ℕ} [] + room (html_writes memory (codes "/d/") files) < 2 ^ 62
unfolding html_writes get_file_type_suffix get_human_file_size decimal c_string get_human_file_perms
room_files = omega arith

file_list_to_html-page_example :
    Appended []
      (page memory (codes "/d/") files)
      (file_list_to_html memory (init_buf 4096) (codes "/d/") files)
file_list_to_html-page_example =
    file_list_to_html-page memory (codes "/d/") files (init_buf-Holds 4096 (omega arith)) room_files
