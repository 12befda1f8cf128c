-- ===== src/Tests/Paths.antt =====
-- The paths of dir.c.
use mimino.Base.{
  Bytes, [], ◌∷◌, ◌++◌, ◌≡◌, ◌≤◌, ◌+◌, false, some, none, refl, arith, codes, length, inr, ◌⊎◌,
  get_elem?,
}
use mimino.Dir.Path.{Resolved, cleanup_path, is_current_dir, resolve_path, get_base_name}
use mimino.Dir.Path.Segments.{segments, IsSqueezed, last_byte, cleanup_path_lem}
use mimino.Dir.Path.Resolve.{resolve_path-segments, resolve_path_fits, resolve_path_overflow}
use mimino.Dir.Path.BaseName.{get_base_name-name}

abbrev slashes : Bytes
slashes = codes "//a///b"

cleanup_path_lem_example :
    IsSqueezed 0 (cleanup_path slashes)
    × ((cleanup_path slashes ≡ slashes) ⊎ (¬ (IsSqueezed 0 slashes)))
    × (get_elem? (cleanup_path slashes) 0 ≡ get_elem? slashes 0)
    × (last_byte 0 (cleanup_path slashes) ≡ last_byte 0 slashes)
    × (segments (cleanup_path slashes) ≡ segments slashes)
    × (length (cleanup_path slashes) + 1 ≤ length slashes + 1)
cleanup_path_lem_example = cleanup_path_lem slashes

ab-IsSqueezed : IsSqueezed 0 (codes "a/b")
ab-IsSqueezed = (refl, (refl, (refl, tt)))

not_current : is_current_dir (codes "../c") ≡ false
unfolding is_current_dir
not_current = refl

slash_not_current : is_current_dir (codes "/c") ≡ false
unfolding is_current_dir
slash_not_current = refl

c-IsSqueezed : IsSqueezed 0 (codes "../c")
c-IsSqueezed = (refl, (refl, (refl, (refl, tt))))

resolve_path-segments_example :
    (text : Bytes) × (resolve_path (codes "a/b") (codes "../c")
      ≡ some (record { text = text; allocated = length (codes "a/b") + length (codes "../c") + 1 }))
    × (segments text ≡ segments (codes "a/b") ++ segments (codes "../c"))
resolve_path-segments_example =
    resolve_path-segments (codes "a/b") (codes "../c") (omega arith) ab-IsSqueezed not_current

resolve_path_fits_example :
    (text : Bytes) × (resolve_path (codes "a/b") (codes "/c")
      ≡ some (record { text = text; allocated = length (codes "a/b") + length (codes "/c") + 1 }))
    × (length text + 1 ≤ length (codes "a/b") + length (codes "/c") + 1)
resolve_path_fits_example =
    resolve_path_fits (codes "a/b") (codes "/c") (omega arith) ab-IsSqueezed slash_not_current
      (inr refl)

resolve_path_overflow_example :
    (r : Resolved) × (resolve_path (codes "a/b") (codes "../c") ≡ some r)
    × (length r.text + 1 ≡ r.allocated + 1)
resolve_path_overflow_example =
    resolve_path_overflow (codes "a/b") (codes "../c") (omega arith) ab-IsSqueezed not_current
      (ground arith) (ground arith) c-IsSqueezed

get_base_name-name_example :
    (get_base_name (codes "a/b" ++ (b'/' ∷ (codes "cd" ++ []))) ≡ codes "cd")
    × (get_base_name (codes "a/b" ++ (b'/' ∷ (codes "cd" ++ (b'/' ∷ [])))) ≡ codes "cd")
get_base_name-name_example =
    get_base_name-name (codes "a/b") (codes "cd") (omega arith) (omega arith)
      (ground arith, (ground arith, tt))

resolve_path_runs :
    (resolve_path (codes "a/b") (codes "../c")
      ≡ some (record { text = codes "a/b/../c"; allocated = 8 }))
    × (resolve_path (codes "a/") (codes "//c")
        ≡ some (record { text = codes "a/c"; allocated = 6 }))
    × (resolve_path (codes "a//b") (codes "c") ≡ none)
    × (resolve_path (codes "a") (codes "/.") ≡ some (record { text = codes "a"; allocated = 2 }))
unfolding resolve_path
resolve_path_runs = (refl, refl, refl, refl)

get_base_name_runs :
    (get_base_name (codes "/a") ≡ codes "/a")
    × (get_base_name (codes "a/b/") ≡ codes "b")
    × (get_base_name (codes "./a/bc") ≡ codes "bc")
unfolding get_base_name
get_base_name_runs = (refl, refl, refl)
