-- ===== src/Fluid/Server/Paths.antt =====
-- The names of files that routes ask for.
use soundcan.Base.{
  ℕ, ◌≡◌, ◌≤◌, ◌-◌, ◌==◌, ◌||◌, refl, arith, get_or, if◌then◌else◌, Bool, true, false, Option, none,
  some, [], ◌∷◌, ◌++◌, length, length-append, ◌⊎◌, inl, inr,
}
use soundcan.CText.{Text, text}
use soundcan.Fluid.Outcome.{Outcome, broken, ◌>>=◌, fit}
use soundcan.Fluid.Server.{
  cut_last, before_last, ends_in_slash, index_of, with_extension, get_file_url,
}

-- Whether a text has a byte.
unfoldable pub has_byte : ℕ → Text → Bool
has_byte c [] = false
has_byte c (d ∷ ds) = d == c || has_byte c ds

-- A route for a path: the path, or the path with a query, of which neither has a question mark.
abbrev pub Asks : Text → Text → Type 0
Asks route path =
    ((route ≡ path) × (has_byte 63 path ≡ false))
    ⊎ (query : Text) × (route ≡ path ++ 63 ∷ query) × (has_byte 63 query ≡ false)

-- The file of a path: index.html in a folder, in /var/www, and .html behind a name that has no dot
-- anywhere.
abbrev pub with_index : Text → Text
with_index path = if get_or path (length path - 1) 0 == 47 then path ++ text "index.html" else path

abbrev pub with_html : Text → Text
with_html file = if has_byte 46 file then file else file ++ text ".html"

abbrev pub file_of : Text → Text
file_of path = with_html (text "/var/www" ++ with_index path)

-- What `get_file_url` does with a path, once it is known whether the path ends in a slash.
abbrev name_of : Text → Option Bool → Outcome Text
name_of path slash = do
  path' ← index_of path slash
  file ← fit 100 (text "/var/www" ++ path')
  with_extension file (cut_last 46 file)

name_of_long : (path : Text) (slash : Option Bool) → 92 ≤ length path → name_of path slash ≡ broken
unfolding index_of fit
name_of_long path none long = refl
name_of_long path (some false) long = ground arith
name_of_long path (some true) long = ground (arith, length-append path (text "index.html"))

name_of_empty : (path : Text) → length path ≡ 0 → name_of path (ends_in_slash path) ≡ broken
unfolding index_of ends_in_slash
name_of_empty [] h = refl
name_of_empty (c ∷ cs) h = absurd (omega arith)

-- A route whose part before the last question mark has 92 bytes or more is written past the end of an
-- array, and one whose part has none is read before its start.
pub get_file_url_broken :
    (route : Text)
    → (length (before_last 63 route) ≡ 0) ⊎ (92 ≤ length (before_last 63 route))
    → get_file_url route ≡ broken
unfolding get_file_url
get_file_url_broken route (inl h) = name_of_empty (before_last 63 route) h
get_file_url_broken route (inr h) =
    name_of_long (before_last 63 route) (ends_in_slash (before_last 63 route)) h
