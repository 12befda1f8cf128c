-- ===== src/Dir/Files/Listed.antt =====
-- What `ls` and `read_file_info` return.
use mathlib.Core.List.{Permᴰ}
use mimino.Base.{
  ℕ, ◌+◌, ◌-◌, ◌<◌, ◌≤◌, ◌≢◌, ◌⊎◌, inl, inr, true, false, Bytes, List, [], ◌∷◌, ◌++◌, map, none,
  some, ◌>>=◌, ◌==◌, length, length-append, get_elem?, ◌≡◌, refl, ap, ◌∙◌, arith, Bool-cases,
}
use mimino.Server.Types.{File}
use mimino.Dir.Path.{get_base_name}
use mimino.Dir.Listing.Permutation.{sort_file_list-Perm}
use mimino.Dir.Files.{
  in_allocation, StatResult, found, missing, failed, FileSystem, is_link_mode, file_of, complete,
  follow_link, read_lstat, read_file_info, FileList, with_slash, list_entry, list_dir, ls,
}

follow_link-complete :
    (f : File) (r : StatResult)
    → (follow_link f r).1 ≡ complete
    → ((follow_link f r).0.name ≡ f.name)
      × ((follow_link f r).0.is_null ≡ f.is_null)
      × ((follow_link f r).0.is_broken_link ≡ f.is_broken_link)
unfolding follow_link
follow_link-complete f (found sb) h = (refl, refl, refl)
follow_link-complete f missing h = absurd cc
follow_link-complete f failed h = absurd cc

read_lstat-complete :
    (fs : FileSystem) (name path : Bytes) (r : StatResult)
    → (read_lstat fs name path r).1 ≡ complete
    → ((read_lstat fs name path r).0.name ≡ name)
      × ((read_lstat fs name path r).0.is_null ≡ false)
      × ((read_lstat fs name path r).0.is_broken_link ≡ false)
unfolding read_lstat
read_lstat-complete fs name path (found sb) h = elim (Bool-cases (is_link_mode sb.st_mode)) [
  | inl e ↦ rw e (
      follow_link-complete (record (file_of name sb) { is_link = true }) (fs.stat path) (rw e at h))
  | inr e ↦ rw e (refl, refl, refl)
]
read_lstat-complete fs name path missing h = absurd cc
read_lstat-complete fs name path failed h = absurd cc

-- A file that was read completely is a file, with the name asked for and no broken link.
pub read_file_info-complete :
    (fs : FileSystem) (name path : Bytes)
    → (read_file_info fs name path).1 ≡ complete
    → ((read_file_info fs name path).0.name ≡ name)
      × ((read_file_info fs name path).0.is_null ≡ false)
      × ((read_file_info fs name path).0.is_broken_link ≡ false)
unfolding read_file_info
read_file_info-complete fs name path h = read_lstat-complete fs name path (fs.lstat path) h

in_allocation-fits :
    (text : Bytes) (allocated : ℕ)
    → length text + 1 ≤ allocated
    → in_allocation (record { text = text; allocated = allocated }) ≡ some text
unfolding in_allocation
in_allocation-fits text allocated h = ground arith

in_allocation-beyond :
    (text : Bytes) (allocated : ℕ)
    → allocated < length text + 1
    → in_allocation (record { text = text; allocated = allocated }) ≡ none
unfolding in_allocation
in_allocation-beyond text allocated h = ground arith

module _ (path : Bytes) (last : ℕ) (ends : get_elem? path (length path - 1) ≡ some last) where
  with_slash-slash : last ≡ b'/' → with_slash path ≡ some path
  unfolding with_slash
  with_slash-slash e =
      let slash : (last == b'/') ≡ true = ground arith in
      rw (ends, slash) (in_allocation-fits path (length path + 1) (omega arith))

  with_slash-other : last ≢ b'/' → with_slash path ≡ none
  unfolding with_slash
  with_slash-other e =
      let other : (last == b'/') ≡ false = ground arith in
      rw (ends, other)
        (in_allocation-beyond (path ++ (b'/' ∷ [])) (length path + 1)
          (omega (arith, length-append path (b'/' ∷ []))))

-- Of a directory that can be read, and whose path ends in a slash, `ls` returns the entries of all its
-- names, in some order; where another byte ends the path, it writes behind its allocation.
pub ls-Perm :
    (fs : FileSystem) (path : Bytes) (last : ℕ) (names : List Bytes)
    → get_elem? path (length path - 1) ≡ some last
    → fs.scandir path ≡ some names
    → ((last ≡ b'/')
        × (l : FileList) × (ls fs path ≡ some (some l))
        × Permᴰ l.files (map (list_entry fs path) names))
      ⊎ ((last ≢ b'/') × (ls fs path ≡ none))
unfolding ls
ls-Perm fs path last names ends e = elim (Bool-cases (last == b'/')) [
  | inl s ↦
      let slash : last ≡ b'/' = ground arith in
      let (sorted, sorts, p) = sort_file_list-Perm fs.strcoll (map (list_entry fs path) names) in
      inl (
        slash,
        record { files = sorted; dir_info = (read_file_info fs (get_base_name path) path).0 },
        ap (λ o. o >>= λ d. list_dir fs d (fs.scandir d)) (with_slash-slash path last ends slash)
            ∙ ap (list_dir fs path) e
            ∙ ap
                (λ o. o >>= λ files. some (
                  some (record {
                    files = files;
                    dir_info = (read_file_info fs (get_base_name path) path).0;
                  })))
                sorts,
        p,
      )
  | inr s ↦
      let other : last ≢ b'/' = ground arith in
      inr (
        other,
        ap (λ o. o >>= λ d. list_dir fs d (fs.scandir d)) (with_slash-other path last ends other),
      )
]
