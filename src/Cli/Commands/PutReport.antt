-- ===== src/Cli/Commands/PutReport.antt =====
-- What a put that ended well prints.
use weave_fs.Base.{◌+◌, List, [], ◌∷◌, Bytes, Text, map, length, ◌≡◌, ◌≢◌, ◌⊎◌}
use weave_fs.Exec.{ok, World}
use weave_fs.Disk.{reader_of}
use weave_fs.Store.Version.{Json, VersionEntry}
use weave_fs.Store.Ops.{write_version}
use weave_fs.Server.Types.{FileServer, ReplicaFailure}
use weave_fs.Server.Targets.{select_peers}
use weave_fs.Server.Fanout.{send_blob}
use weave_fs.Server.Fanout.Report.{Reported, FailedWith, StoredAt}
use weave_fs.Api.Json.{to_failure_json}
use weave_fs.Cli.Aliases.{Aliases}
use weave_fs.Cli.Format.{human_bytes}
use weave_fs.Cli.Print.{
  Count, Line, stored_locally, no_peers_connected, replicated_to_none, replicated, took_no_copy,
  peer_count, refusals,
}

-- A line that warns that the file exists on this node only.
abbrev pub IsWarning : Line → Type 0
IsWarning line = (line ≡ no_peers_connected) ⊎ ((n : Count) × (line ≡ replicated_to_none n))

-- What a put reports: its version, which peers stored it, and why the others did not.
pub record PutReport (srv : FileServer) (key message : Text) (b : Bytes) (aliases : Aliases)
    (lines : List Line) : Type 0 where
  pub entry : VersionEntry
  pub before : World
  pub there : World
  pub wrote :
      write_version srv.lib srv.store srv.node_id key message (reader_of b) before
      ≡ (ok entry, there)
  pub stored : List (Unit {0})
  pub failures : List ReplicaFailure
  pub sends :
      Reported
        (StoredAt srv key entry)
        (FailedWith (send_blob srv key entry))
        (select_peers srv.replication_factor srv.peers)
        stored
        failures
  pub adds :
      length stored + length failures ≡ length (select_peers srv.replication_factor srv.peers)
  pub copies : Line
  pub printed :
      lines
      ≡ stored_locally key entry.seq (human_bytes entry.size_bytes)
        ∷ (copies ∷ refusals took_no_copy aliases (map to_failure_json failures))
  pub warns :
      (IsWarning copies × (stored ≡ []))
      ⊎ ((copies
            ≡ replicated
                (length stored)
                (peer_count (length (select_peers srv.replication_factor srv.peers))))
          × (stored ≢ []))
