-- ===== src/Api/Json.antt =====
-- internal/api/handlers.go: what the API says in JSON, and how results become it.
use weave_fs.Base.{ℕ, ℤ, pos, Option, none, some, List, [], Text, map}
use weave_fs.Exec.{Error}
use weave_fs.Store.Version.{VersionEntry}
use weave_fs.Server.Types.{ReplicaFailure, SharePlacement, WriteResult, ShareResult}

-- What an `error` field says; the text is left to the error.
pub data Refusal : Type 0 where
  missing_key missing_peer : Refusal
  invalid_peer count_not_positive : Text → Refusal
  failed : Error → Refusal

pub record FailureJson : Type 0 where
  pub peer : Text
  pub error : Refusal

pub record WriteResultJson : Type 0 where
  pub key : Text
  pub version_id : Text
  pub seq : ℤ
  pub size_bytes : ℤ
  pub created_at : ℕ
  pub message : Text
  pub peers_tried : ℕ
  pub peers_stored : ℕ
  pub failures : List FailureJson

pub record VersionJson : Type 0 where
  pub version_id : Text
  pub seq : ℤ
  pub size_bytes : ℤ
  pub created_at : ℕ
  pub message : Text

pub record PlacementJson : Type 0 where
  pub peer : Text
  pub version_id : Text
  pub seq : ℤ

pub record ShareResultJson : Type 0 where
  pub key : Text
  pub peers_tried : ℕ
  pub peers_stored : ℕ
  pub placements : List PlacementJson
  pub failures : List FailureJson

-- The value of an answer: one of the shapes above, or one of the small maps.
pub data Payload : Type 0 where
  error_of : Refusal → Payload
  written : WriteResultJson → Payload
  shared : ShareResultJson → Payload
  deleted : Text → Payload
  versions_of : Text → List VersionJson → Payload
  identified disconnected : Text → Payload

unfoldable pub to_failure_json : ReplicaFailure → FailureJson
to_failure_json f = record { peer = f.peer; error = failed f.cause }

-- The entry of Go's zero value.
abbrev zero_entry : VersionEntry
zero_entry = record {
  version_id = [];
  seq = pos 0;
  created_at = 0;
  size_bytes = pos 0;
  message = [];
}

abbrev entry_in : Option VersionEntry → VersionEntry
entry_in none = zero_entry
entry_in (some e) = e

unfoldable pub to_write_result_json : Text → WriteResult → WriteResultJson
unfolding to_failure_json
to_write_result_json key r =
    let e = entry_in r.entry in
    record {
      key = key;
      version_id = e.version_id;
      seq = e.seq;
      size_bytes = e.size_bytes;
      created_at = e.created_at;
      message = e.message;
      peers_tried = r.peers_tried;
      peers_stored = r.peers_stored;
      failures = map to_failure_json r.failures;
    }

unfoldable pub to_placement_json : SharePlacement → PlacementJson
to_placement_json p = record { peer = p.peer; version_id = p.version_id; seq = p.seq }

unfoldable pub to_share_result_json : Text → ShareResult → ShareResultJson
unfolding to_placement_json to_failure_json
to_share_result_json key r = record {
  key = key;
  peers_tried = r.peers_tried;
  peers_stored = r.peers_stored;
  placements = map to_placement_json r.placements;
  failures = map to_failure_json r.failures;
}

unfoldable pub to_version_json : VersionEntry → VersionJson
to_version_json v = record {
  version_id = v.version_id;
  seq = v.seq;
  size_bytes = v.size_bytes;
  created_at = v.created_at;
  message = v.message;
}
