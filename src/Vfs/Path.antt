-- ===== src/Vfs/Path.antt =====
-- internal/vfs/path.go: cleaning, splitting and joining paths. A path is a list of bytes, 47 is
-- the slash and 46 the dot; `path.Clean`, `path.Dir` and `path.Base` are written out for paths that
-- start with a slash, the only ones that get past cleanPath.
use zenofs.Common.{
  ℕ, Bool, true, false, not, ◌&&◌, ◌||◌, List, [], ◌∷◌, ◌++◌, Result, ok, err, invalid, ◌==◌,
  if◌then◌else◌, length,
}
pub mod Laws
pub mod Join
pub mod Parts
pub mod Equal
mod Examples

abbrev pub Text : Type 0
Text = List ℕ

abbrev pub same_text : Text → Text → Bool
same_text [] [] = true
same_text [] (y ∷ ys) = false
same_text (x ∷ xs) [] = false
same_text (x ∷ xs) (y ∷ ys) = x == y && same_text xs ys

abbrev pub add_to_first : ℕ → List Text → List Text
add_to_first c [] = (c ∷ []) ∷ []
add_to_first c (w ∷ ws) = (c ∷ w) ∷ ws

-- strings.Split at each slash.
unfoldable pub split : Text → List Text
split [] = [] ∷ []
split (c ∷ cs) = let rest = split cs in if c == 47 then [] ∷ rest else add_to_first c rest

-- One segment of the lexical cleaning; the segments so far stand in reverse.
unfoldable pub clean_segment : Text → List Text → List Text
clean_segment seg [] =
    if length seg == 0 || (same_text seg (46 ∷ []) || same_text seg (46 ∷ 46 ∷ []))
    then []
    else seg ∷ []
clean_segment seg (last ∷ done) =
    if length seg == 0 || same_text seg (46 ∷ [])
    then last ∷ done
    else if same_text seg (46 ∷ 46 ∷ [])
    then done
    else seg ∷ last ∷ done

unfoldable pub clean_segments : List Text → List Text → List Text
clean_segments done [] = done
clean_segments done (seg ∷ segs) = clean_segments (clean_segment seg done) segs

unfoldable pub backwards : List Text → List Text → List Text
backwards done [] = done
backwards done (seg ∷ segs) = backwards (seg ∷ done) segs

-- Each segment after a slash.
unfoldable pub joined : List Text → Text
joined [] = []
joined (seg ∷ segs) = 47 ∷ (seg ++ joined segs)

unfoldable pub rooted : List Text → Text
rooted [] = 47 ∷ []
rooted (seg ∷ segs) = joined (seg ∷ segs)

unfoldable pub clean_path : Text → Result Text
clean_path [] = err invalid
clean_path (c ∷ cs) =
    if c == 47 then ok (rooted (backwards [] (clean_segments [] (split cs)))) else err invalid

unfoldable pub path_segments : Text → List Text
path_segments [] = split []
path_segments (c ∷ []) = if c == 47 then [] else split (c ∷ [])
path_segments (c ∷ d ∷ cs) = if c == 47 then split (d ∷ cs) else split (c ∷ d ∷ cs)

unfoldable pub join_path : Text → Text → Text
join_path dir name = if same_text dir (47 ∷ []) then 47 ∷ name else dir ++ (47 ∷ name)

-- Up to the last slash, with it: the first half of path.Split.
unfoldable pub up_to_slash : Text → Text
up_to_slash [] = []
up_to_slash (c ∷ cs) =
    let rest = up_to_slash cs in
    if not (length rest == 0) then c ∷ rest else if c == 47 then c ∷ [] else []

abbrev or_root : Result Text → Text
or_root (ok dir) = dir
or_root (err e) = 47 ∷ []

-- path.Dir cleans what stands before the name; without a slash it gives ".", which becomes "/".
unfoldable pub parent_path : Text → Text
parent_path p = or_root (clean_path (up_to_slash p))

unfoldable pub last_segment : List Text → Text
last_segment [] = []
last_segment (seg ∷ []) = seg
last_segment (seg ∷ next ∷ segs) = last_segment (next ∷ segs)

-- path.Base of a cleaned path, which ends in no slash but for the root.
unfoldable pub base_name : Text → Text
base_name p = if same_text p (47 ∷ []) then 47 ∷ [] else last_segment (split p)
