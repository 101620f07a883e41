-- ===== src/Db.antt =====
-- internal/db/models.go: the rows of the tables that the storage pool and the file system share.
use zenofs.Common.{ℕ, Bool, Option, List}

-- The algorithms of one version: Compression and Encryption.
pub record Codec : Type 0 where
  pub compression : ℕ
  pub encryption : ℕ

pub data InodeKind : Type 0 where
  file dir link : InodeKind

pub record Inode : Type 0 where
  pub id : ℕ
  pub parent_id : Option ℕ
  pub name : List ℕ
  pub kind : InodeKind
  pub share_id : ℕ
  pub version_id : Option ℕ
  pub link_id : Option ℕ
  pub executable : Bool
  pub created_by : ℕ
  pub updated_by : ℕ
  pub updated_at : ℕ
  pub deleted : Bool

pub record Version : Type 0 where
  pub id : ℕ
  pub inode_id : ℕ
  pub parent_id : Option ℕ
  pub size : ℕ
  pub codec : Codec
  pub created_by : ℕ

pub record VersionChunk : Type 0 where
  pub version_id : ℕ
  pub idx : ℕ
  pub chunk_id : ℕ
  pub size : ℕ
  pub hash : List ℕ

pub record Share : Type 0 where
  pub id : ℕ
  pub name : List ℕ
  pub pool_id : ℕ
  pub quota : ℕ
  pub codec : Codec
  pub key_hash : List ℕ
  pub created_by : ℕ
  pub created_at : ℕ

pub data SharePermission : Type 0 where
  share_read share_write share_admin : SharePermission

pub record ShareUser : Type 0 where
  pub share_id : ℕ
  pub user_id : ℕ
  pub permission : SharePermission

pub data InodeEventType : Type 0 where
  inode_created inode_renamed inode_moved inode_deleted inode_restored : InodeEventType

pub record InodeHistory : Type 0 where
  pub inode_id : ℕ
  pub event : InodeEventType
  pub old_name : Option (List ℕ)
  pub new_name : Option (List ℕ)
  pub old_parent_id : Option ℕ
  pub new_parent_id : Option ℕ
  pub created_at : ℕ
