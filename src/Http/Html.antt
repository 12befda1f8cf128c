-- ===== src/Http/Html.antt =====
-- http.c: `file_list_to_html`, as the sequence of its calls.
pub mod Rows
use mimino.Base.{
  ℕ, Bool, true, false, not, ◌&&◌, Bytes, List, [], ◌∷◌, ◌++◌, Option, none, some, if◌then◌else◌,
  codes, c_string,
}
use mimino.Buffer.{Buffer}
use mimino.Server.Types.{File}
use mimino.Dir.Listing.{get_human_file_perms, get_human_file_size, get_file_type_suffix}
use mimino.Http.Writes.{Write, str, format, char, url, perform_all}

-- what memory holds where the program reads what it never wrote
pub record Memory : Type 0 where
  pub byte : ℕ
  -- in an `off_t`
  pub number : ℕ
  -- behind a pointer that `malloc` returned, as a string
  pub text : Bytes

abbrev pub or_memory : ℕ → Option ℕ → ℕ
or_memory byte none = byte
or_memory byte (some c) = c

abbrev pub fill : ℕ → List (Option ℕ) → Bytes
fill byte [] = []
fill byte (c ∷ cells) = or_memory byte c ∷ fill byte cells

-- the permissions as a C string
unfoldable pub perms_text : Memory → File → Bytes
perms_text memory f = c_string (fill memory.byte (get_human_file_perms f))

unfoldable pub size_text : Memory → ℕ → Bytes
size_text memory size = elim (get_human_file_size size) [ none ↦ memory.text | some text ↦ text ]

abbrev pub when : Bool → Write → List Write
when true w = w ∷ []
when false w = []

-- the body of the loop
unfoldable pub file_to_html : Memory → File → List Write
unfolding perms_text size_text
file_to_html memory f =
    str (codes "<tr><td><a href=\"")
    ∷ url f.name
    ∷ (when f.is_dir (char b'/')
        ++ (char b'"'
            ∷ (when (f.is_link && f.is_broken_link) (str (codes " class=\"red\""))
                ++ (char b'>'
                    ∷ str f.name
                    ∷ str (get_file_type_suffix f)
                    ∷ str (codes "</a></td><td>")
                    ∷ (when (not f.is_dir) (str (size_text memory f.size))
                        ++ (str (codes "</td><td>")
                            ∷ str (perms_text memory f)
                            ∷ str (codes "</td></tr>\n")
                            ∷ []))))))

unfoldable pub files_to_html : Memory → List File → List Write
unfolding file_to_html
files_to_html memory [] = []
files_to_html memory (f ∷ files) = file_to_html memory f ++ files_to_html memory files

abbrev pub html_head : Bytes
html_head =
    codes "<!DOCTYPE html><html><head><style>* { font-family: monospace; }\n"
    ++ (codes "table, h1 { border: none; margin: 1rem; }\n"
        ++ (codes "td { padding-right: 2rem; }\n"
            ++ codes ".red { color: crimson; }\n</style></head>\n"))

abbrev pub html_title : Bytes → Bytes
html_title endpoint = codes "<body>\n<h1>" ++ (endpoint ++ codes "</h1>\n<table>\n")

abbrev pub html_tail : Bytes
html_tail = codes "</table></body></html>\n"

unfoldable pub html_writes : Memory → Bytes → List File → List Write
unfolding files_to_html
html_writes memory endpoint files =
    str html_head
    ∷ format (html_title endpoint)
    ∷ (files_to_html memory files ++ (str html_tail ∷ []))

unfoldable pub file_list_to_html : Memory → Buffer → Bytes → List File → Option Buffer
unfolding html_writes
file_list_to_html memory buf endpoint files = perform_all (html_writes memory endpoint files) buf
