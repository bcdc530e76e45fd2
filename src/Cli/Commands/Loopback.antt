-- ===== src/Cli/Commands/Loopback.antt =====
-- internal/api/handlers.go and cmd/weavefs: a node's API as the commands reach it over HTTP.
use weave_fs.Base.{Text, ℤ, pos, length, Option, none, some, ◌≡◌, false, List}
use weave_fs.Exec.{World}
use weave_fs.Disk.{Reader}
use weave_fs.Server.Types.{FileServer}
use weave_fs.Api.Http.{Request, status_ok}
use weave_fs.Api.Json.{written, shared, versions_of, WriteResultJson, ShareResultJson, VersionJson}
use weave_fs.Api.Handlers.{Libp2p, Response, write_json, send_content}
use weave_fs.Api.Routes.{Handler, routes, select}
use weave_fs.Cli.Client.{Transport, replied, Reply}
use weave_fs.Cli.Run.{Http, Web, WriteReport, ShareReport}

-- How an answer of the API comes back over the connection, and what the mux says without a route.
pub record Carrier : Type 0 where
  pub carry : Response → Transport Reply
  pub unmatched : Request → Transport Reply

answered_by :
    Carrier → FileServer → Libp2p → Option Handler → Request → World → Transport Reply × World
answered_by cr srv net none req w = (cr.unmatched req, w)
answered_by cr srv net (some h) req w = let (resp, w') = h srv net req w in (cr.carry resp, w')

-- A node that answers under every base.
unfoldable pub served : Carrier → FileServer → Libp2p → Web
unfolding answered_by routes select
served cr srv net base req w = answered_by cr srv net (select routes req) req w

-- The fields of a put's answer that a client reads.
abbrev pub report_of : WriteResultJson → WriteReport
report_of j = record {
  key = j.key;
  version_id = j.version_id;
  seq = j.seq;
  size_bytes = j.size_bytes;
  created_at = j.created_at;
  peers_tried = j.peers_tried;
  peers_stored = j.peers_stored;
  failures = j.failures;
}

abbrev pub share_report_of : ShareResultJson → ShareReport
share_report_of j = record {
  key = j.key;
  peers_tried = j.peers_tried;
  peers_stored = j.peers_stored;
  placements = j.placements;
  failures = j.failures;
}

-- What HTTP and JSON document: a reply has the status of its answer; of an answer in JSON that
-- came, whole or in part, only its own value can be read; content whose reader meets its end came
-- whole.
pub record IsFaithful (http : Http) (cr : Carrier) : Type 0 where
  pub carry-status :
      (resp : Response) (r : Reply) → cr.carry resp ≡ replied r → r.status ≡ resp.status
  pub carry-written :
      (j : WriteResultJson) (r : Reply) (x : WriteReport)
      → cr.carry (write_json status_ok (written j)) ≡ replied r
      → http.write_report r.body.bytes ≡ some x
      → x ≡ report_of j
  pub carry-shared :
      (j : ShareResultJson) (r : Reply) (x : ShareReport)
      → cr.carry (write_json status_ok (shared j)) ≡ replied r
      → http.share_report r.body.bytes ≡ some x
      → x ≡ share_report_of j
  pub carry-versions :
      (key : Text) (vs : List VersionJson) (r : Reply) (x : List VersionJson)
      → cr.carry (write_json status_ok (versions_of key vs)) ≡ replied r
      → http.version_list r.body.bytes ≡ some x
      → x ≡ vs
  pub carry-content :
      (n : ℤ) (rc : Reader) (r : Reply)
      → cr.carry (send_content n rc) ≡ replied r
      → r.body.fails ≡ false
      → (r.body.bytes ≡ rc.bytes) × (n ≡ pos (length rc.bytes))
