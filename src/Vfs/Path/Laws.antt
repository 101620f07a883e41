-- ===== src/Vfs/Path/Laws.antt =====
-- internal/vfs/path.go: proofs about cleanPath and pathSegments.
use zenofs.Common.{
  ℕ, Bool, true, false, not, ◌&&◌, List, [], ◌∷◌, ◌++◌, ok, ◌==◌, length, ◌≡◌, refl, ap, ◌∙◌, arith,
  inl, inr, Bool-cases,
}
use mathlib.Core.List.{append-nil}
use zenofs.Vfs.Path.{
  Text, same_text, add_to_first, split, clean_segment, clean_segments, backwards, joined, rooted,
  clean_path, path_segments,
}

abbrev pub no_slash : Text → Bool
no_slash [] = true
no_slash (c ∷ cs) = not (c == 47) && no_slash cs

-- A name that a cleaned path can hold.
abbrev pub is_name : Text → Bool
is_name seg =
    not (length seg == 0)
    && (no_slash seg && (not (same_text seg (46 ∷ [])) && not (same_text seg (46 ∷ 46 ∷ []))))

abbrev pub all_names : List Text → Bool
all_names [] = true
all_names (seg ∷ segs) = is_name seg && all_names segs

abbrev all_slashless : List Text → Bool
all_slashless [] = true
all_slashless (seg ∷ segs) = no_slash seg && all_slashless segs

pub split_plain : (seg : Text) → no_slash seg ≡ true → split seg ≡ seg ∷ []
unfolding split
split_plain [] h = refl
split_plain (c ∷ cs) h = ground (arith, split_plain cs)

pub split-append :
    (seg rest : Text) → no_slash seg ≡ true → split (seg ++ (47 ∷ rest)) ≡ seg ∷ split rest
unfolding split
split-append [] rest h = refl
split-append (c ∷ cs) rest h = ground (arith, split-append cs rest)

pub split-joined :
    (seg : Text) (segs : List Text)
    → is_name seg ≡ true
    → all_names segs ≡ true
    → split (seg ++ joined segs) ≡ seg ∷ segs
unfolding joined
split-joined seg [] h hs = ap split (append-nil seg) ∙ split_plain seg (ground arith)
split-joined seg (t ∷ ts) h hs =
    split-append seg (t ++ joined ts) (ground arith)
    ∙ ap (λ (l : List Text). seg ∷ l) (split-joined t ts (ground arith) (ground arith))

path_segments_plain :
    (seg rest : Text)
    → is_name seg ≡ true
    → path_segments (47 ∷ (seg ++ rest)) ≡ split (seg ++ rest)
unfolding path_segments
path_segments_plain [] rest h = absurd (ground arith)
path_segments_plain (c ∷ cs) rest h = refl

-- The segments of an absolute path that is joined from plain names are those names.
pub path_segments-rooted :
    (segs : List Text) → all_names segs ≡ true → path_segments (rooted segs) ≡ segs
unfolding rooted joined
path_segments-rooted [] h = unfold path_segments in refl
path_segments-rooted (seg ∷ segs) h =
    path_segments_plain seg (joined segs) (ground arith)
    ∙ split-joined seg segs (ground arith) (ground arith)

all_slashless-add_to_first :
    (c : ℕ) (l : List Text)
    → (c == 47) ≡ false
    → all_slashless l ≡ true
    → all_slashless (add_to_first c l) ≡ true
all_slashless-add_to_first c [] h hs = ground arith
all_slashless-add_to_first c (w ∷ ws) h hs = ground arith

all_slashless-split : (p : Text) → all_slashless (split p) ≡ true
unfolding split
all_slashless-split [] = refl
all_slashless-split (c ∷ cs) = elim (Bool-cases (c == 47)) [
  | inl slash ↦ ground (arith, all_slashless-split cs)
  | inr other ↦
      ground (arith, other, all_slashless-add_to_first c (split cs) other (all_slashless-split cs))
]

clean_segment-names :
    (seg : Text) (done : List Text)
    → no_slash seg ≡ true
    → all_names done ≡ true
    → all_names (clean_segment seg done) ≡ true
unfolding clean_segment
clean_segment-names seg [] h hs = ground arith
clean_segment-names seg (last ∷ done) h hs = ground arith

clean_segments-names :
    (done segs : List Text)
    → all_slashless segs ≡ true
    → all_names done ≡ true
    → all_names (clean_segments done segs) ≡ true
unfolding clean_segments
clean_segments-names done [] h hs = hs
clean_segments-names done (seg ∷ segs) h hs =
    clean_segments-names (clean_segment seg done) segs (ground arith)
      (clean_segment-names seg done (ground arith) hs)

backwards-names :
    (done segs : List Text)
    → all_names segs ≡ true
    → all_names done ≡ true
    → all_names (backwards done segs) ≡ true
unfolding backwards
backwards-names done [] h hs = hs
backwards-names done (seg ∷ segs) h hs =
    backwards-names (seg ∷ done) segs (ground arith) (ground arith)

pub clean_segments_plain :
    (done segs : List Text) → all_names segs ≡ true → clean_segments done segs ≡ backwards done segs
unfolding clean_segments backwards
clean_segments_plain done [] h = refl
clean_segments_plain done (seg ∷ segs) h =
    ap (λ (l : List Text). clean_segments l segs) (pushed seg done (ground arith))
    ∙ clean_segments_plain (seg ∷ done) segs (ground arith)
  where
    pushed :
        (seg : Text) (done : List Text) → is_name seg ≡ true → clean_segment seg done ≡ seg ∷ done
    pushed seg [] h = unfold clean_segment in ground arith
    pushed seg (last ∷ done) h = unfold clean_segment in ground arith

backwards-backwards :
    (acc done segs : List Text) → backwards acc (backwards done segs) ≡ backwards (segs ++ acc) done
unfolding backwards
backwards-backwards acc done [] = refl
backwards-backwards acc done (seg ∷ segs) = backwards-backwards acc (seg ∷ done) segs

pub backwards_twice : (segs : List Text) → backwards [] (backwards [] segs) ≡ segs
unfolding backwards
backwards_twice segs = backwards-backwards [] [] segs ∙ append-nil segs

-- A path of plain names is clean already.
pub clean_path-rooted :
    (segs : List Text) → all_names segs ≡ true → clean_path (rooted segs) ≡ ok (rooted segs)
unfolding clean_path rooted joined
clean_path-rooted [] h = unfold split clean_segments clean_segment backwards in refl
clean_path-rooted (seg ∷ segs) h =
    ap (λ (l : List Text). ok (rooted (backwards [] (clean_segments [] l))))
      (split-joined seg segs (ground arith) (ground arith))
    ∙ ap (λ (l : List Text). ok (rooted (backwards [] l))) (clean_segments_plain [] (seg ∷ segs) h)
    ∙ ap (λ (l : List Text). ok (rooted l)) (backwards_twice (seg ∷ segs))

-- A cleaned path is the root or a slash and a plain name at each level, whatever dots and slashes
-- it was given with; its segments are those names, and cleaning it again changes nothing.
pub clean_path_ok :
    (p : Text)
    → (segs : List Text) × (clean_path (47 ∷ p) ≡ ok (rooted segs))
      × (all_names segs ≡ true)
      × (path_segments (rooted segs) ≡ segs)
      × (clean_path (rooted segs) ≡ ok (rooted segs))
unfolding clean_path
clean_path_ok p =
    let segs : List Text = backwards [] (clean_segments [] (split p)) in
    let names : all_names segs ≡ true =
      backwards-names [] (clean_segments [] (split p))
        (clean_segments-names [] (split p) (all_slashless-split p) refl) refl in
    (segs, refl, names, path_segments-rooted segs names, clean_path-rooted segs names)
