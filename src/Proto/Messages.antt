-- ===== src/Proto/Messages.antt =====
-- internal/proto/messages.go.
use weave_fs.Base.{ℕ, ℤ, Bool, Option, Text}

-- One stored version as it travels between nodes.
pub record VersionMeta : Type 0 where
  pub version_id : Text
  pub seq : ℤ
  pub created_at : ℕ
  pub size_bytes : ℤ
  pub blob_bytes : ℤ
  pub message : Text

pub record StoreRequest : Type 0 where
  pub origin_id : Text
  pub key : Text
  pub meta : VersionMeta

-- `is_ok` is the field `OK`.
pub record StoreResponse : Type 0 where
  pub is_ok : Bool
  pub error : Text

pub record GetRequest : Type 0 where
  pub origin_id : Text
  pub key : Text
  pub version_id : Text

pub record ShareRequest : Type 0 where
  pub key : Text
  pub message : Text
  pub size_bytes : ℤ

pub record ShareResponse : Type 0 where
  pub is_ok : Bool
  pub version_id : Text
  pub seq : ℤ
  pub error : Text

pub record GetResponse : Type 0 where
  pub found : Bool
  pub error : Text
  pub meta : Option VersionMeta
