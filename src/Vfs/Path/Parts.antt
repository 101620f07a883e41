-- ===== src/Vfs/Path/Parts.antt =====
-- internal/vfs/path.go: a cleaned path below the root, as its parent and its name.
use zenofs.Common.{
  ℕ, true, false, List, [], ◌∷◌, ◌++◌, ok, ◌==◌, ==→eq, ◌≡◌, refl, ap, ◌∙◌, sym, subst, arith,
  ok_injective, inl, inr, Bool-cases,
}
use zenofs.Vfs.Path.{Text, same_text, rooted, clean_path, path_segments, parent_path, base_name}
use zenofs.Vfs.Path.Laws.{is_name, all_names, clean_path_ok, path_segments-rooted}
use zenofs.Vfs.Path.Join.{base_name-append, parent_path-joined, rooted-append, joined-append}

pub all_names-init :
    (segs : List Text) (name : Text) → all_names (segs ++ name ∷ []) ≡ true → all_names segs ≡ true
all_names-init [] name h = refl
all_names-init (seg ∷ segs) name h = ground (arith, all_names-init segs name)

pub all_names-last :
    (segs : List Text) (name : Text) → all_names (segs ++ name ∷ []) ≡ true → is_name name ≡ true
all_names-last [] name h = ground arith
all_names-last (seg ∷ segs) name h = ground (arith, all_names-last segs name)

-- A cleaned path below the root: its parent's segments and its name.
pub record Parts (clean : Text) : Type 0 where
  pub segs : List Text
  pub name : Text
  pub whole : path_segments clean ≡ segs ++ name ∷ []
  pub parent : path_segments (parent_path clean) ≡ segs
  pub base : base_name clean ≡ name
  pub plain : is_name name ≡ true

last_split :
    (seg : Text) (segs : List Text)
    → (init : List Text) × (name : Text) × (seg ∷ segs ≡ init ++ name ∷ [])
last_split seg [] = ([], seg, refl)
last_split seg (next ∷ segs) =
    let (init, name, e) = last_split next segs in
    (seg ∷ init, name, ap (λ (l : List Text). seg ∷ l) e)

Parts-rooted :
    (segs : List Text) (name : Text)
    → all_names (segs ++ name ∷ []) ≡ true
    → Parts (rooted (segs ++ name ∷ []))
Parts-rooted segs name h = record {
  segs = segs;
  name = name;
  whole = path_segments-rooted (segs ++ name ∷ []) h;
  parent =
      ap path_segments (
        ap parent_path (rooted-append segs name ∙ joined-append segs name)
        ∙ parent_path-joined segs name (all_names-init segs name h)
            (ground (arith, all_names-last segs name h)))
      ∙ path_segments-rooted segs (all_names-init segs name h);
  base = base_name-append segs name h;
  plain = all_names-last segs name h;
}

clean_path-rooted_path :
    (p clean : Text)
    → clean_path p ≡ ok clean
    → (segs : List Text) × (clean ≡ rooted segs) × (all_names segs ≡ true)
clean_path-rooted_path [] clean h = absurd (unfold clean_path in ground arith)
clean_path-rooted_path (c ∷ cs) clean h = elim (Bool-cases (c == 47)) [
  | inr other ↦ absurd (unfold clean_path in ground (arith, other, h))
  | inl slash ↦
      let (segs, cleaned, names, split, again) = clean_path_ok cs in
      (
        segs,
        ok_injective clean (rooted segs)
            (sym h ∙ ap (λ (x : ℕ). clean_path (x ∷ cs)) (==→eq c 47 slash) ∙ cleaned),
        names,
      )
]

root_text : same_text (rooted []) (47 ∷ []) ≡ true
unfolding rooted
root_text = refl

Parts-of :
    (segs : List Text)
    → all_names segs ≡ true
    → same_text (rooted segs) (47 ∷ []) ≡ false
    → Parts (rooted segs)
Parts-of [] names below = absurd (ground (arith, root_text))
Parts-of (seg ∷ segs) names below =
    let (init, name, e) = last_split seg segs in
    subst (λ (l : List Text). Parts (rooted l)) (sym e)
      (Parts-rooted init name (ap all_names (sym e) ∙ names))

pub clean_path-Parts :
    (p clean : Text) → clean_path p ≡ ok clean → same_text clean (47 ∷ []) ≡ false → Parts clean
clean_path-Parts p clean h below =
    let (segs, e, names) = clean_path-rooted_path p clean h in
    subst Parts (sym e)
      (Parts-of segs names (ap (λ (t : Text). same_text t (47 ∷ [])) (sym e) ∙ below))
