-- ===== src/Http/Html/Rows.antt =====
-- What a listing's page says.
use mathlib.Core.Path.{subst}
use mimino.Base.{
  ◌+◌, ◌^◌, ◌<◌, Bool, true, false, not, ◌&&◌, Bytes, List, [], ◌∷◌, ◌++◌, ◌≡◌, refl, ap, ◌∙◌,
  if◌then◌else◌, codes, length, append_assoc, append-nil,
}
use mimino.Buffer.{Buffer}
use mimino.Buffer.Append.{Holds, Appended}
use mimino.Url.Encode.{encoded}
use mimino.Server.Types.{File}
use mimino.Dir.Listing.{get_file_type_suffix}
use mimino.Http.Writes.{Write, str}
use mimino.Http.Writes.Texts.{text_of, texts, room, texts-append, perform_all-Appended}
use mimino.Http.Html.{
  Memory, when, perms_text, size_text, file_to_html, files_to_html, html_head, html_title,
  html_tail, html_writes, file_list_to_html,
}

-- the link of a row: the encoded name, and a slash behind a directory's
abbrev pub href : File → Bytes
href f = encoded f.name ++ (if f.is_dir then b'/' ∷ [] else [])

abbrev pub row : Memory → File → Bytes
row memory f =
    codes "<tr><td><a href=\""
    ++ (href f
        ++ (codes "\""
            ++ ((if f.is_link && f.is_broken_link then codes " class=\"red\"" else [])
                ++ (codes ">"
                    ++ (f.name
                        ++ (get_file_type_suffix f
                            ++ (codes "</a></td><td>"
                                ++ ((if not f.is_dir then size_text memory f.size else [])
                                    ++ (codes "</td><td>"
                                        ++ (perms_text memory f ++ codes "</td></tr>\n"))))))))))

abbrev pub rows : Memory → List File → Bytes
rows memory [] = []
rows memory (f ∷ files) = row memory f ++ rows memory files

-- the whole page
abbrev pub page : Memory → Bytes → List File → Bytes
page memory endpoint files = html_head ++ (html_title endpoint ++ (rows memory files ++ html_tail))

texts-when :
    (b : Bool) (w : Write) (ws : List Write)
    → texts (when b w ++ ws) ≡ (if b then text_of w else []) ++ texts ws
texts-when true w ws = refl
texts-when false w ws = refl

row-eq : (memory : Memory) (f : File) → texts (file_to_html memory f) ≡ row memory f
unfolding file_to_html
row-eq memory f = simp (texts-when, append_assoc, append-nil)

rows-eq :
    (memory : Memory) (files : List File) → texts (files_to_html memory files) ≡ rows memory files
unfolding files_to_html
rows-eq memory [] = refl
rows-eq memory (f ∷ files) =
    texts-append (file_to_html memory f) (files_to_html memory files)
    ∙ ap (λ l. l ++ texts (files_to_html memory files)) (row-eq memory f)
    ∙ ap (λ l. row memory f ++ l) (rows-eq memory files)

page-eq :
    (memory : Memory) (endpoint : Bytes) (files : List File)
    → texts (html_writes memory endpoint files) ≡ page memory endpoint files
unfolding html_writes
page-eq memory endpoint files =
    ap (λ l. html_head ++ (html_title endpoint ++ l))
      (texts-append (files_to_html memory files) (str html_tail ∷ [])
        ∙ ap (λ l. l ++ html_tail) (rows-eq memory files))

-- `file_list_to_html` stays inside the allocations and appends the page of the files: a title with the
-- endpoint, and for each file in its order a row with the link, the name, the size and the
-- permissions. The buffer is valid, and the calls take less than 2^62 bytes.
pub file_list_to_html-page :
    (memory : Memory) (endpoint : Bytes) (files : List File) {buf : Buffer} {bs : Bytes}
    → Holds buf bs
    → length bs + room (html_writes memory endpoint files) < 2 ^ 62
    → Appended bs (page memory endpoint files) (file_list_to_html memory buf endpoint files)
unfolding file_list_to_html
file_list_to_html-page memory endpoint files {buf} {bs} h small =
    subst (λ l. Appended bs l (file_list_to_html memory buf endpoint files))
      (page-eq memory endpoint files)
      (perform_all-Appended (html_writes memory endpoint files) h small)
