-- ===== src/Vfs/Path/Examples.antt =====
-- "/a//./b/../c" and the name "d".
use zenofs.Common.{true, List, [], ◌∷◌, ◌++◌, ok, ◌≡◌, refl}
use zenofs.Vfs.Path.{Text, rooted, clean_path, path_segments, join_path, parent_path, base_name}
use zenofs.Vfs.Path.Laws.{all_names, clean_path_ok}
use zenofs.Vfs.Path.Join.{join_path_ok}

abbrev given : Text
given = 97 ∷ 47 ∷ 47 ∷ 46 ∷ 47 ∷ 98 ∷ 47 ∷ 46 ∷ 46 ∷ 47 ∷ 99 ∷ []

clean_path_ok_example :
    (segs : List Text) × (clean_path (47 ∷ given) ≡ ok (rooted segs))
    × (all_names segs ≡ true)
    × (path_segments (rooted segs) ≡ segs)
    × (clean_path (rooted segs) ≡ ok (rooted segs))
clean_path_ok_example = clean_path_ok given

abbrev two_levels : List Text
two_levels = (97 ∷ []) ∷ (99 ∷ []) ∷ []

join_path_ok_example :
    (path_segments (join_path (rooted two_levels) (100 ∷ [])) ≡ two_levels ++ (100 ∷ []) ∷ [])
    × (parent_path (join_path (rooted two_levels) (100 ∷ [])) ≡ rooted two_levels)
    × (base_name (join_path (rooted two_levels) (100 ∷ [])) ≡ 100 ∷ [])
join_path_ok_example = join_path_ok two_levels (100 ∷ []) refl refl
