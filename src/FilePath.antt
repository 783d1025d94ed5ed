-- ===== src/FilePath.antt =====
-- What the program uses of Go's package `path/filepath` on Unix: `Clean` and `Join`.
pub mod Laws
use sa_builder.Base.{Bytes, codes, List, [], ◌∷◌, ◌++◌, Bool, true, false, ◌||◌, eqb, if◌then◌else◌}
use sa_builder.Strings.{split, join}
use mathlib.Core.List.{reverse}

abbrev pub dot : Bytes
dot = codes "."

abbrev pub dot_dot : Bytes
dot_dot = codes ".."

abbrev pub slash : Bytes
slash = codes "/"

-- `..` takes off the last element; at the root it is dropped, and a relative path keeps it.
unfoldable pub climb : Bool → List Bytes → List Bytes
unfolding eqb
climb true [] = []
climb false [] = dot_dot ∷ []
climb rooted (top ∷ rest) = if eqb top dot_dot then dot_dot ∷ top ∷ rest else rest

-- One element of the path, and the elements kept so far, the last first.
unfoldable pub clean_step : Bool → List Bytes → Bytes → List Bytes
unfolding climb eqb
clean_step rooted kept seg =
    if eqb seg [] || eqb seg dot
    then kept
    else if eqb seg dot_dot
    then climb rooted kept
    else seg ∷ kept

unfoldable pub clean_from : Bool → List Bytes → List Bytes → List Bytes
unfolding clean_step
clean_from rooted kept [] = reverse kept
clean_from rooted kept (seg ∷ segs) = clean_from rooted (clean_step rooted kept seg) segs

abbrev pub is_rooted : Bytes → Bool
is_rooted [] = false
is_rooted (c ∷ s) = eqb (c ∷ []) slash

abbrev spell : Bool → List Bytes → Bytes
spell true segs = slash ++ join segs slash
spell false [] = dot
spell false (s ∷ segs) = join (s ∷ segs) slash

unfoldable pub clean : Bytes → Bytes
unfolding clean_from split join eqb
clean path = spell (is_rooted path) (clean_from (is_rooted path) [] (split path b'/'))

-- Leading empty elements are ignored; with no element left the result is empty.
unfoldable pub join_path : List Bytes → Bytes
unfolding clean
join_path [] = []
join_path ([] ∷ es) = join_path es
join_path ((c ∷ e) ∷ es) = clean (join ((c ∷ e) ∷ es) slash)
