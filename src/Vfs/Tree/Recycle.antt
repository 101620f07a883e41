-- ===== src/Vfs/Tree/Recycle.antt =====
-- internal/vfs/recycle.go and internal/vfs/history.go: what was deleted, older versions, and the
-- record of changes. An error leaves the tables as they were.
use zenofs.Common.{
  ℕ, Bool, true, false, not, ◌&&◌, Option, none, some, List, [], ◌∷◌, ◌++◌, map, Result, ok, err,
  not_exist, exist, invalid, ◌==◌, ltb, leb, if◌then◌else◌, select, find_by, update_where, count,
  ◌>>=◌, ◌>>◌,
}
use zenofs.Db.{Inode, InodeEventType, InodeHistory, Version, Codec}
use zenofs.Vfs.Path.{Text}
use zenofs.Vfs.Tree.State.{Store, Mount, require_write, is_dir_kind, is_file_kind}
use zenofs.Vfs.Tree.Lookup.{is_entry, inode_by_id, path_of}
use zenofs.Vfs.Tree.Info.{FileInfo, build_info, version_size}

abbrev pub is_row_of : Mount → ℕ → Inode → Bool
is_row_of m id i = i.id == id && i.share_id == m.share.id

unfoldable pub inode_in_share : Mount → ℕ → Store → Result Inode
inode_in_share m id st = elim (find_by (is_row_of m id) st.inodes) [
  | none ↦ err not_exist
  | some i ↦ ok i
]

unfoldable pub deleted_inode : Mount → ℕ → Store → Result Inode
deleted_inode m id st = elim (find_by (is_row_of m id) st.inodes) [
  | none ↦ err not_exist
  | some i ↦ elim i.deleted [ true ↦ ok i | false ↦ err invalid ]
]

unfoldable pub ensure_no_conflict : Mount → Option ℕ → Text → Store → Result (Unit {0})
ensure_no_conflict m parent name st =
    if ltb 0 (count (is_entry m.share.id parent name) st.inodes) then err exist else ok tt

-- The parent when it is a live directory, else the root.
unfoldable pub restore_parent : Inode → Store → Option ℕ
restore_parent i st = elim i.parent_id [
  | none ↦ none
  | some p ↦ elim (inode_by_id p st.inodes) [
    | none ↦ none
    | some dir ↦ if not dir.deleted && is_dir_kind dir.kind then some p else none
  ]
]

abbrev pub restored_row : Mount → Option ℕ → Store → Inode → Inode
restored_row m parent st i = record i {
  deleted = false;
  parent_id = parent;
  updated_by = m.user_id;
  updated_at = st.now;
}

unfoldable pub restore_inode : Mount → Inode → Option ℕ → Store → Store
restore_inode m i parent st = record st {
  inodes = update_where (λ (j : Inode). j.id == i.id) (restored_row m parent st) st.inodes;
  history =
      st.history
      ++ record {
        inode_id = i.id;
        event = InodeEventType.inode_restored;
        old_name = none;
        new_name = none;
        old_parent_id = none;
        new_parent_id = parent;
        created_at = st.now;
      }
        ∷ [];
}

unfoldable pub restore : Mount → ℕ → Store → Result Store
restore m id st = do
  require_write m
  i ← deleted_inode m id st
  ensure_no_conflict m (restore_parent i st) i.name st
  ok (restore_inode m i (restore_parent i st) st)

-- The path of a row, or its name alone where the way up is broken.
abbrev pub path_or_name : Inode → Store → Text
path_or_name i st = elim (path_of i.id st) [ ok p ↦ p | err e ↦ 47 ∷ i.name ]

pub record DeletedEntry : Type 0 where
  pub info : FileInfo
  pub deleted_at : ℕ
  pub deleted_by : ℕ

-- ORDER BY updated_at DESC, id DESC.
abbrev is_later : Inode → Inode → Bool
is_later i j = if i.updated_at == j.updated_at then leb j.id i.id else ltb j.updated_at i.updated_at

unfoldable pub insert_latest : Inode → List Inode → List Inode
insert_latest i [] = i ∷ []
insert_latest i (j ∷ js) =
    let rest = insert_latest i js in if is_later i j then i ∷ j ∷ js else j ∷ rest

unfoldable pub latest_first : List Inode → List Inode
latest_first [] = []
latest_first (i ∷ is) = insert_latest i (latest_first is)

abbrev pub deleted_entry : Mount → Store → Inode → DeletedEntry
deleted_entry m st i = record {
  info = build_info m i (path_or_name i st) (version_size i st);
  deleted_at = i.updated_at;
  deleted_by = i.updated_by;
}

abbrev pub is_deleted_in : Mount → Inode → Bool
is_deleted_in m i = i.share_id == m.share.id && i.deleted

unfoldable pub list_deleted : Mount → Store → List DeletedEntry
list_deleted m st = map (deleted_entry m st) (latest_first (select (is_deleted_in m) st.inodes))

pub record VersionEntry : Type 0 where
  pub id : ℕ
  pub size : ℕ
  pub codec : Codec
  pub created_by : ℕ
  pub is_current : Bool

abbrev version_or_zero : Inode → ℕ
version_or_zero i = elim i.version_id [ none ↦ 0 | some v ↦ v ]

unfoldable pub insert_newest : Version → List Version → List Version
insert_newest v [] = v ∷ []
insert_newest v (w ∷ ws) =
    let rest = insert_newest v ws in if leb w.id v.id then v ∷ w ∷ ws else w ∷ rest

unfoldable pub newest_first : List Version → List Version
newest_first [] = []
newest_first (v ∷ vs) = insert_newest v (newest_first vs)

abbrev version_entry : ℕ → Version → VersionEntry
version_entry current v = record {
  id = v.id;
  size = v.size;
  codec = v.codec;
  created_by = v.created_by;
  is_current = v.id == current;
}

unfoldable pub list_versions : Mount → ℕ → Store → Result (List VersionEntry)
list_versions m id st = inode_in_share m id st >>= λ i. ok (
    map (version_entry (version_or_zero i))
      (newest_first (select (λ (v : Version). v.inode_id == id) st.versions)))

abbrev pub version_by_id : ℕ → Store → Result Version
version_by_id id st = elim (find_by (λ (v : Version). v.id == id) st.versions) [
  | none ↦ err not_exist
  | some v ↦ ok v
]

-- Only a file that is not deleted takes back a version.
unfoldable pub live_file : Inode → Result (Unit {0})
live_file i = if is_file_kind i.kind && not i.deleted then ok tt else err invalid

abbrev pub versioned_row : Mount → ℕ → Store → Inode → Inode
versioned_row m version st j = record j {
  version_id = some version;
  updated_by = m.user_id;
  updated_at = st.now;
}

unfoldable pub set_version : Mount → ℕ → ℕ → Store → Store
set_version m id version st = record st {
  inodes = update_where (λ (j : Inode). j.id == id) (versioned_row m version st) st.inodes;
}

unfoldable pub restore_version : Mount → ℕ → Store → Result Store
restore_version m id st = do
  require_write m
  v ← version_by_id id st
  i ← inode_in_share m v.inode_id st
  live_file i
  ok (set_version m i.id v.id st)

pub record HistoryEntry : Type 0 where
  pub event : InodeEventType
  pub old_name : Text
  pub new_name : Text
  pub old_parent_path : Text
  pub new_parent_path : Text
  pub created_at : ℕ

abbrev text_or_empty : Option Text → Text
text_or_empty none = []
text_or_empty (some t) = t

-- The cache of paths that the code keeps gives the same path again.
unfoldable pub parent_path_of : Option ℕ → Store → Text
parent_path_of none st = 47 ∷ []
parent_path_of (some id) st =
    if id == 0 then 47 ∷ [] else elim (path_of id st) [ ok p ↦ p | err e ↦ [] ]

abbrev history_entry : Store → InodeHistory → HistoryEntry
history_entry st h = record {
  event = h.event;
  old_name = text_or_empty h.old_name;
  new_name = text_or_empty h.new_name;
  old_parent_path = parent_path_of h.old_parent_id st;
  new_parent_path = parent_path_of h.new_parent_id st;
  created_at = h.created_at;
}

-- Rows are added at the end, so the newest is the last.
unfoldable pub reversed : List HistoryEntry → List HistoryEntry → List HistoryEntry
reversed done [] = done
reversed done (h ∷ hs) = reversed (h ∷ done) hs

unfoldable pub list_history : Mount → ℕ → Store → Result (List HistoryEntry)
list_history m id st = inode_in_share m id st >>= λ i. ok (
    reversed []
      (map (history_entry st) (select (λ (h : InodeHistory). h.inode_id == id) st.history)))
