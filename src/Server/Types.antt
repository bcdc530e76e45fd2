-- ===== src/Server/Types.antt =====
-- internal/server/server.go and authorize.go: a file server, its policy and what it reports.
use weave_fs.Base.{ℕ, ℤ, Bool, Option, none, List, Bytes, Text}
use weave_fs.Exec.{Error}
use weave_fs.Disk.{Reader}
use weave_fs.Store.Version.{VersionEntry, Library, Json}
use weave_fs.Store.Paths.{Store}
use weave_fs.Proto.Messages.{
  VersionMeta, StoreRequest, StoreResponse, GetRequest, GetResponse, ShareRequest, ShareResponse,
}

-- Each method returns nil, or the error that refuses.
pub record Authorizer : Type 0 where
  pub allow_store : Text → Text → Text → Option Text
  pub allow_get : Text → Text → Text → Option Text
  pub allow_share : Text → Text → Option Text

unfoldable pub allow_all : Authorizer
allow_all = record {
  allow_store = λ from origin_id key. none;
  allow_get = λ from origin_id key. none;
  allow_share = λ from key. none;
}

-- `encoding/json` at the types of the messages.
pub record Codecs : Type 0 where
  pub store_request : Json StoreRequest
  pub store_response : Json StoreResponse
  pub get_request : Json GetRequest
  pub get_response : Json GetResponse
  pub share_request : Json ShareRequest
  pub share_response : Json ShareResponse

-- A stream that this node opened: whether its deadline could be set, after how many bytes writes
-- fail, whether its write side could be closed, and what the peer answers to the bytes sent.
pub record Dialled : Type 0 where
  pub has_deadline : Bool
  pub room : Option ℕ
  pub closes_write : Bool
  pub answer : Bytes → Reader

-- `NewStream` of libp2p, by the peer and the protocol.
abbrev pub Network : Type 0
Network = Text → Text → Option Dialled

-- A `FileServer` with its configuration (a request's limit is in nanoseconds), the peers that are connected, and the libraries.
pub record FileServer : Type 0 where
  pub node_id : Text
  pub store : Store
  pub replication_factor : ℤ
  pub request_timeout : ℤ
  pub authorizer : Authorizer
  pub peers : List Text
  pub network : Network
  pub lib : Library
  pub codecs : Codecs

pub record ReplicaFailure : Type 0 where
  pub peer : Text
  pub cause : Error

pub record SharePlacement : Type 0 where
  pub peer : Text
  pub version_id : Text
  pub seq : ℤ

pub record WriteResult : Type 0 where
  pub entry : Option VersionEntry
  pub peers_tried : ℕ
  pub peers_stored : ℕ
  pub failures : List ReplicaFailure

pub record ShareResult : Type 0 where
  pub peers_tried : ℕ
  pub peers_stored : ℕ
  pub placements : List SharePlacement
  pub failures : List ReplicaFailure

unfoldable pub meta_from_entry : VersionEntry → ℤ → VersionMeta
meta_from_entry entry blob_bytes = record {
  version_id = entry.version_id;
  seq = entry.seq;
  created_at = entry.created_at;
  size_bytes = entry.size_bytes;
  blob_bytes = blob_bytes;
  message = entry.message;
}

unfoldable pub entry_from_meta : VersionMeta → VersionEntry
entry_from_meta meta = record {
  version_id = meta.version_id;
  seq = meta.seq;
  created_at = meta.created_at;
  size_bytes = meta.size_bytes;
  message = meta.message;
}
