-- ===== src/Api/Handlers.antt =====
-- internal/api/handlers.go: what the API answers to each request.
pub mod Laws
pub mod Share
pub mod Refused
pub mod Query
use weave_fs.Base.{
  ℕ, ℤ, pos, to_count, is_negative, int_beq, Bool, not, true, false, Option, none, some, List, [],
  ◌∷◌, Text, codes, ltb, map, ◌==◌, nat_eq, list_eq, if◌then◌else◌,
}
use weave_fs.Strings.Atoi.{atoi}
use weave_fs.Exec.{Error, Result, ok, err, World}
use weave_fs.Disk.{Reader}
use weave_fs.Store.Version.{VersionEntry}
use weave_fs.Store.Ops.{delete, list_versions}
use weave_fs.Server.Types.{FileServer, WriteResult, ShareResult}
use weave_fs.Server.Targets.{resolve_targets}
use weave_fs.Server.Fanout.{store_version, store_local, get_version, share}
use weave_fs.Api.Http.{
  Request, query_get, query_all, status_ok, status_bad_request, status_not_found,
  status_internal_server_error,
}
use weave_fs.Api.Json.{
  Refusal, missing_key, missing_peer, invalid_peer, count_not_positive, failed, Payload, error_of,
  written, shared, deleted, versions_of, identified, disconnected, to_write_result_json,
  to_share_result_json, to_version_json,
}

-- A JSON value, or the bytes of a file. A reader that fails leaves the connection short.
pub data Body : Type 0 where
  json_value : Payload → Body
  content : Reader → Body

pub record Response : Type 0 where
  pub status : ℕ
  pub content_type : Text
  pub content_length : Option ℤ
  pub body : Body

unfoldable pub write_json : ℕ → Payload → Response
write_json status v = record {
  status = status;
  content_type = codes "application/json";
  content_length = none;
  body = json_value v;
}

unfoldable pub write_error : ℕ → Refusal → Response
unfolding write_json
write_error status why = write_json status (error_of why)

-- The file, with its length announced.
unfoldable pub send_content : ℤ → Reader → Response
send_content size rc = record {
  status = status_ok;
  content_type = codes "application/octet-stream";
  content_length = some size;
  body = content rc;
}

-- What the API uses of libp2p: a peer ID from its text, and how closing a connection ends.
pub record Libp2p : Type 0 where
  pub decode_peer : Text → Option Text
  pub close_peer : Text → Option Error

-- The key of a request, if it names one.
unfoldable pub require_key : Request → Option Text
unfolding query_get
require_key req =
    let key = query_get (codes "key") req.query in if key == [] then none else some key

-- A handler of requests that name a key; any other is answered here.
keyed : Option Text → (Text → World → Response × World) → World → Response × World
unfolding write_error
keyed none handler w = (write_error status_bad_request missing_key, w)
keyed (some key) handler w = handler key w

-- What was read of a query, or what is wrong with it.
pub data Parsed (A : Type 0) : Type 0 where
  parsed : A → Parsed A
  refused : Refusal → Parsed A

decoded_peer : Text → Option Text → Parsed (List Text) → Parsed (List Text)
decoded_peer text none rest = refused (invalid_peer text)
decoded_peer text (some p) (refused why) = refused why
decoded_peer text (some p) (parsed ps) = parsed (p ∷ ps)

-- The loop over the peers that the query names.
decode_peers : Libp2p → List Text → Parsed (List Text)
unfolding decoded_peer
decode_peers net [] = parsed []
decode_peers net (t ∷ ts) = decoded_peer t (net.decode_peer t) (decode_peers net ts)

counted : Text → Option ℤ → Parsed ℤ
counted text none = refused (count_not_positive text)
counted text (some n) = if ltb 0 (to_count n) then parsed n else refused (count_not_positive text)

-- The count that the query asks for; none stands as 0.
parse_count : Text → Parsed ℤ
unfolding counted atoi
parse_count text = if text == [] then parsed (pos 0) else counted text (atoi text)

unfoldable pub resolved : Result (List Text) → Parsed (List Text)
resolved (err e) = refused (failed e)
resolved (ok targets) = parsed targets

-- The targets of the choice, once its parts are read.
chosen : FileServer → Parsed (List Text) → Parsed ℤ → Bool → Parsed (List Text)
unfolding resolved
chosen srv (refused why) count all = refused why
chosen srv (parsed explicit) (refused why) all = refused why
chosen srv (parsed explicit) (parsed count) all =
    resolved (resolve_targets srv.peers explicit count all)

unfoldable pub parse_targets : FileServer → Libp2p → List (Text × Text) → Parsed (List Text)
unfolding decode_peers parse_count chosen query_get query_all
parse_targets srv net q =
    chosen srv (decode_peers net (query_all (codes "peer") q))
      (parse_count (query_get (codes "n") q)) (query_get (codes "all") q == codes "true")

module _ (srv : FileServer) (net : Libp2p) (req : Request) where
  put_answer : Text → Result WriteResult × World → Response × World
  unfolding write_error write_json
  put_answer key (err e, w) = (write_error status_internal_server_error (failed e), w)
  put_answer key (ok result, w) =
      (write_json status_ok (written (to_write_result_json key result)), w)

  unfoldable pub handle_put : World → Response × World
  unfolding require_key keyed put_answer query_get
  handle_put = keyed (require_key req) (λ key w.
      put_answer key (store_version srv key (query_get (codes "message") req.query) req.body w))

  get_answer : Result (ℤ × Reader) × World → Response × World
  unfolding write_error send_content
  get_answer (err e, w) = (write_error status_not_found (failed e), w)
  get_answer (ok (size, rc), w) = (send_content size rc, w)

  unfoldable pub handle_get : World → Response × World
  unfolding require_key keyed get_answer query_get
  handle_get =
      keyed (require_key req)
        (λ key w. get_answer (get_version srv key (query_get (codes "version") req.query) w))

  share_answer : Text → Result ShareResult × World → Response × World
  unfolding write_error write_json
  share_answer key (err e, w) = (write_error status_not_found (failed e), w)
  share_answer key (ok result, w) =
      (write_json status_ok (shared (to_share_result_json key result)), w)

  share_stored : Text → List Text → Result VersionEntry × World → Response × World
  unfolding share_answer write_error query_get
  share_stored key targets (err e, w) = (write_error status_internal_server_error (failed e), w)
  share_stored key targets (ok entry, w) = share_answer key (
      share srv targets key (query_get (codes "version") req.query)
        (query_get (codes "as") req.query) (query_get (codes "message") req.query) w)

  -- A request with a body brings a file into the store first.
  share_targeted : Text → Parsed (List Text) → World → Response × World
  unfolding share_stored share_answer write_error query_get
  share_targeted key (refused why) w = (write_error status_bad_request why, w)
  share_targeted key (parsed targets) w =
      if int_beq req.content_length (pos 0)
      then share_answer key (
          share srv targets key (query_get (codes "version") req.query)
            (query_get (codes "as") req.query) (query_get (codes "message") req.query) w)
      else share_stored key targets
          (store_local srv key (query_get (codes "message") req.query) req.body w)

  unfoldable pub handle_share : World → Response × World
  unfolding require_key keyed share_targeted parse_targets
  handle_share =
      keyed (require_key req) (λ key. share_targeted key (parse_targets srv net req.query))

  delete_answer : Text → Result (Unit {0}) × World → Response × World
  unfolding write_error write_json
  delete_answer key (err e, w) = (write_error status_internal_server_error (failed e), w)
  delete_answer key (ok u, w) = (write_json status_ok (deleted key), w)

  unfoldable pub handle_delete : World → Response × World
  unfolding require_key keyed delete_answer
  handle_delete =
      keyed (require_key req)
        (λ key w. delete_answer key (delete srv.lib srv.store srv.node_id key w))

  versions_answer : Text → Result (List VersionEntry) × World → Response × World
  unfolding write_error write_json to_version_json
  versions_answer key (err e, w) = (write_error status_not_found (failed e), w)
  versions_answer key (ok versions, w) =
      (write_json status_ok (versions_of key (map to_version_json versions)), w)

  unfoldable pub handle_versions : World → Response × World
  unfolding require_key keyed versions_answer
  handle_versions =
      keyed (require_key req)
        (λ key w. versions_answer key (list_versions srv.lib srv.store srv.node_id key w))

  unfoldable pub handle_id : World → Response × World
  unfolding write_json
  handle_id w = (write_json status_ok (identified srv.node_id), w)

  close_answer : Text → Option Error → Response
  unfolding write_error write_json
  close_answer text (some e) = write_error status_internal_server_error (failed e)
  close_answer text none = write_json status_ok (disconnected text)

  disconnect_answer : Text → Option Text → Response
  unfolding close_answer write_error
  disconnect_answer text none = write_error status_bad_request (invalid_peer text)
  disconnect_answer text (some p) = close_answer text (net.close_peer p)

  unfoldable pub handle_disconnect : World → Response × World
  unfolding disconnect_answer write_error query_get
  handle_disconnect w =
      let text = query_get (codes "peer") req.query in
      (
        if text == []
            then write_error status_bad_request missing_peer
            else disconnect_answer text (net.decode_peer text),
        w,
      )
