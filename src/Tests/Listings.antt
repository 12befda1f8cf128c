-- ===== src/Tests/Listings.antt =====
-- The files of a listing. The order of the bytes stands for `strcoll`.
use mimino.Base.{
  decimal, Bool, true, false, Bytes, List, [], ◌∷◌, some, ◌≡◌, ◌≢◌, refl, codes, length,
}
use mathlib.Core.List.{Permᴰ}
use mimino.Server.Types.{File}
use mimino.Dir.Listing.{
  Sign, negative, zero_sign, positive, negate, get_human_file_size, sort_file_list,
  swap_in_file_list,
}
use mimino.Dir.Listing.Sorted.{SortedTo, sort_file_list-Sorted}

-- the lengths compared
abbrev by_length : Bytes → Bytes → Sign
by_length [] [] = zero_sign
by_length [] (b ∷ t) = negative
by_length (a ∷ s) [] = positive
by_length (a ∷ s) (b ∷ t) = by_length s t

by_length-swap : (a b : Bytes) → by_length b a ≡ negate (by_length a b)
by_length-swap [] [] = refl
by_length-swap [] (b ∷ t) = refl
by_length-swap (a ∷ s) [] = refl
by_length-swap (a ∷ s) (b ∷ t) = by_length-swap s t

abbrev named : Bytes → Bool → File
named name dir = record {
  name = name;
  last_mod = 0;
  mode = 420;
  size = 0;
  is_dir = dir;
  is_link = false;
  is_broken_link = false;
  is_null = false;
}

abbrev listed : List File
listed = named (codes "abc") false ∷ named (codes "b") true ∷ named (codes ".") true ∷ []

by_length-trans :
    (a b c : Bytes) → by_length a b ≢ positive → by_length b c ≢ positive → by_length a c ≢ positive
by_length-trans [] b [] h k = λ e. absurd (cc e)
by_length-trans [] b (z ∷ c) h k = λ e. absurd (cc e)
by_length-trans (x ∷ a) [] c h k = absurd (h refl)
by_length-trans (x ∷ a) (y ∷ b) [] h k = absurd (k refl)
by_length-trans (x ∷ a) (y ∷ b) (z ∷ c) h k = by_length-trans a b c h k

sort_file_list-Sorted_example :
    (sorted : List File) × (sort_file_list by_length listed ≡ some sorted)
    × Permᴰ sorted listed
    × SortedTo by_length by_length-swap by_length-trans (length listed) sorted
sort_file_list-Sorted_example =
    sort_file_list-Sorted by_length by_length-swap by_length-trans listed

listing_runs :
    (get_human_file_size 2500 ≡ some (codes "2K"))
    × (sort_file_list by_length listed
        ≡ some (named (codes ".") true ∷ named (codes "b") true ∷ named (codes "abc") false ∷ []))
unfolding get_human_file_size sort_file_list swap_in_file_list decimal
listing_runs = (refl, refl)
