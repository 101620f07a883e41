-- ===== src/Vfs/Path/Join.antt =====
-- internal/vfs/path.go: proofs about joinPath, parentPath and baseName.
use zenofs.Common.{true, List, [], ◌∷◌, ◌++◌, ok, ◌≡◌, refl, ap, ◌∙◌, sym, arith, length-append}
use mathlib.Core.List.{append-nil, append_assoc}
use zenofs.Vfs.Path.{
  Text, split, clean_segment, clean_segments, backwards, joined, rooted, clean_path, path_segments,
  join_path, up_to_slash, or_root, parent_path, last_segment, base_name,
}
use zenofs.Vfs.Path.Laws.{
  no_slash, is_name, all_names, split-append, split-joined, clean_segments_plain, backwards_twice,
  path_segments-rooted,
}

pub joined-append :
    (segs : List Text) (name : Text) → joined (segs ++ name ∷ []) ≡ joined segs ++ (47 ∷ name)
unfolding joined
joined-append [] name = ap (λ (l : Text). 47 ∷ l) (append-nil name)
joined-append (seg ∷ segs) name =
    ap (λ (l : Text). 47 ∷ l)
      (ap (λ (l : Text). seg ++ l) (joined-append segs name)
        ∙ sym (append_assoc seg (joined segs) (47 ∷ name)))

join_path-rooted :
    (segs : List Text) (name : Text)
    → all_names segs ≡ true
    → join_path (rooted segs) name ≡ joined (segs ++ name ∷ [])
unfolding join_path rooted joined
join_path-rooted [] name h = ap (λ (l : Text). 47 ∷ l) (sym (append-nil name))
join_path-rooted ([] ∷ segs) name h = absurd (ground arith)
join_path-rooted ((c ∷ cs) ∷ segs) name h = sym (joined-append ((c ∷ cs) ∷ segs) name)

all_names-append :
    (segs : List Text) (name : Text)
    → all_names segs ≡ true
    → is_name name ≡ true
    → all_names (segs ++ name ∷ []) ≡ true
all_names-append [] name h k = ground arith
all_names-append (seg ∷ segs) name h k = ground (arith, all_names-append segs name)

pub rooted-append :
    (segs : List Text) (name : Text) → rooted (segs ++ name ∷ []) ≡ joined (segs ++ name ∷ [])
unfolding rooted
rooted-append [] name = refl
rooted-append (seg ∷ segs) name = refl

up_to_slash_plain : (name : Text) → no_slash name ≡ true → up_to_slash name ≡ []
unfolding up_to_slash
up_to_slash_plain [] h = refl
up_to_slash_plain (c ∷ cs) h = ground (arith, up_to_slash_plain cs)

up_to_slash-append :
    (before name : Text)
    → no_slash name ≡ true
    → up_to_slash (before ++ (47 ∷ name)) ≡ before ++ (47 ∷ [])
unfolding up_to_slash
up_to_slash-append [] name h = ground (arith, up_to_slash_plain name h)
up_to_slash-append (c ∷ cs) name h =
    ground (arith, up_to_slash-append cs name h, length-append cs (47 ∷ []))

split-trailing :
    (seg : Text) (segs : List Text)
    → is_name seg ≡ true
    → all_names segs ≡ true
    → split (seg ++ (joined segs ++ (47 ∷ []))) ≡ seg ∷ (segs ++ [] ∷ [])
unfolding joined
split-trailing seg [] h hs = split-append seg [] (ground arith) ∙ (unfold split in refl)
split-trailing seg (t ∷ ts) h hs =
    split-append seg ((t ++ joined ts) ++ (47 ∷ [])) (ground arith)
    ∙ ap (λ (l : List Text). seg ∷ l)
        (ap split (append_assoc t (joined ts) (47 ∷ []))
          ∙ split-trailing t ts (ground arith) (ground arith))

clean_segments-trailing :
    (done segs : List Text) → clean_segments done (segs ++ [] ∷ []) ≡ clean_segments done segs
unfolding clean_segments clean_segment
clean_segments-trailing [] [] = refl
clean_segments-trailing (last ∷ done) [] = refl
clean_segments-trailing done (seg ∷ segs) = clean_segments-trailing (clean_segment seg done) segs

clean_path-trailing :
    (segs : List Text)
    → all_names segs ≡ true
    → clean_path (joined segs ++ (47 ∷ [])) ≡ ok (rooted segs)
unfolding clean_path joined
clean_path-trailing [] h = unfold split clean_segments clean_segment backwards in refl
clean_path-trailing (seg ∷ segs) h =
    ap (λ (l : List Text). ok (rooted (backwards [] (clean_segments [] l))))
      (ap split (append_assoc seg (joined segs) (47 ∷ []))
        ∙ split-trailing seg segs (ground arith) (ground arith))
    ∙ ap (λ (l : List Text). ok (rooted (backwards [] l)))
        (clean_segments-trailing [] (seg ∷ segs) ∙ clean_segments_plain [] (seg ∷ segs) h)
    ∙ ap (λ (l : List Text). ok (rooted l)) (backwards_twice (seg ∷ segs))

last_segment-append : (segs : List Text) (name : Text) → last_segment (segs ++ name ∷ []) ≡ name
unfolding last_segment
last_segment-append [] name = refl
last_segment-append (seg ∷ []) name = refl
last_segment-append (seg ∷ t ∷ ts) name = last_segment-append (t ∷ ts) name

base_name-rooted :
    (seg : Text) (segs : List Text)
    → all_names (seg ∷ segs) ≡ true
    → base_name (rooted (seg ∷ segs)) ≡ last_segment (seg ∷ segs)
unfolding base_name rooted joined split last_segment
base_name-rooted [] segs h = absurd (ground arith)
base_name-rooted (c ∷ cs) segs h =
    ap (λ (l : List Text). last_segment ([] ∷ l))
      (split-joined (c ∷ cs) segs (ground arith) (ground arith))

pub base_name-append :
    (segs : List Text) (name : Text)
    → all_names (segs ++ name ∷ []) ≡ true
    → base_name (rooted (segs ++ name ∷ [])) ≡ name
base_name-append [] name h = base_name-rooted name [] h ∙ last_segment-append [] name
base_name-append (seg ∷ segs) name h =
    base_name-rooted seg (segs ++ name ∷ []) h ∙ last_segment-append (seg ∷ segs) name

pub parent_path-joined :
    (segs : List Text) (name : Text)
    → all_names segs ≡ true
    → no_slash name ≡ true
    → parent_path (joined segs ++ (47 ∷ name)) ≡ rooted segs
unfolding parent_path
parent_path-joined segs name h k =
    ap (λ (l : Text). or_root (clean_path l)) (up_to_slash-append (joined segs) name k)
    ∙ ap or_root (clean_path-trailing segs h)

-- A plain name joined to a directory that is the root or a path of plain names gives the path whose
-- segments are the directory's and the name, whose parent is the directory and whose base name is
-- the name.
pub join_path_ok :
    (segs : List Text) (name : Text)
    → all_names segs ≡ true
    → is_name name ≡ true
    → (path_segments (join_path (rooted segs) name) ≡ segs ++ name ∷ [])
      × (parent_path (join_path (rooted segs) name) ≡ rooted segs)
      × (base_name (join_path (rooted segs) name) ≡ name)
join_path_ok segs name h k =
    let whole : join_path (rooted segs) name ≡ rooted (segs ++ name ∷ []) =
      join_path-rooted segs name h ∙ sym (rooted-append segs name) in
    let names = all_names-append segs name h k in
    (
      ap path_segments whole ∙ path_segments-rooted (segs ++ name ∷ []) names,
      ap parent_path (join_path-rooted segs name h ∙ joined-append segs name)
          ∙ parent_path-joined segs name h (ground arith),
      ap base_name whole ∙ base_name-append segs name names,
    )
