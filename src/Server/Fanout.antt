-- ===== src/Server/Fanout.antt =====
-- internal/server/server.go: what a node asks of its peers. The goroutines of a fan-out only read
-- local disk and each writes a slot of its own; here they run in the order of the slots.
pub mod Laws
pub mod Exchange
pub mod Files
pub mod Report
use weave_fs.Base.{
  ℕ, zero, suc, ◌+◌, ℤ, pos, is_negative, to_count, Bool, true, false, not, Option, none, some,
  List, [], ◌∷◌, ◌++◌, Bytes, Text, codes, length, leb, nat_beq, ◌==◌, nat_eq, list_eq,
  if◌then◌else◌,
}
use weave_fs.Exec.{
  Error, no_stream, send_failed, peer_refused, no_metadata, negative_size, short_transfer,
  not_stored_here, no_targets, no_peers, Result, ok, err, World, Exec, pure, raise, lift, guard,
  ignore, continue, ◌>>=◌, ◌>>◌,
}
use weave_fs.Disk.{Reader, limit_reader}
use weave_fs.Store.Version.{VersionEntry, Json}
use weave_fs.Store.Ops.{
  write_version, write_version_raw, read_version, read_version_raw, delete_version, has, delete,
  list_versions,
}
use weave_fs.Proto.Codec.{frame, read_message}
use weave_fs.Proto.Messages.{
  VersionMeta, StoreRequest, StoreResponse, GetRequest, GetResponse, ShareRequest, ShareResponse,
}
use weave_fs.Server.Types.{
  Dialled, FileServer, ReplicaFailure, SharePlacement, WriteResult, ShareResult, meta_from_entry,
  entry_from_meta,
}
use weave_fs.Server.Targets.{select_peers}
use weave_fs.Server.Handlers.{has_room}

abbrev pub store_protocol : Text
store_protocol = codes "/weavefs/store/1.0.0"

abbrev pub get_protocol : Text
get_protocol = codes "/weavefs/get/1.0.0"

abbrev pub share_protocol : Text
share_protocol = codes "/weavefs/share/1.0.0"

dialled : Option Dialled → Exec Dialled
dialled none = raise no_stream
dialled (some d) = pure d

-- Opens the stream and sets its deadline.
pub open_stream : FileServer → Text → Text → Exec Dialled
unfolding dialled
open_stream srv to protocol = do
  d ← dialled (srv.network to protocol)
  guard d.has_deadline no_stream
  pure d

-- The messages to a peer, and its answer: the request, the body behind it, the half-close.
pub exchange : {A B : Type 0} → Json A → Json B → Dialled → A → Reader → Exec (B × Reader)
unfolding has_room
exchange ask answer d req body = do
  b ← lift (frame ask req)
  guard (has_room d.room (length (b ++ body.bytes))) send_failed
  guard (not body.fails) send_failed
  guard d.closes_write send_failed
  lift (read_message answer (d.answer (b ++ body.bytes)))

-- The body of a request that has none.
abbrev pub no_body : Reader
no_body = record { bytes = []; fails = false }

found_meta : Option VersionMeta → Exec VersionMeta
found_meta none = raise no_metadata
found_meta (some m) = pure m

-- The slots of a fan-out, in order: how it went for each peer.
unfoldable pub slots :
    {A : Type 0} → (Text → Exec A) → List Text → World → List (Text × Result A) × World
slots send [] w = ([], w)
slots send (p ∷ ps) w =
    let (r, w1) = send p w in let (rs, w2) = slots send ps w1 in ((p, r) ∷ rs, w2)

-- What a fan-out reports of its slots.
unfoldable pub failures_of : {A : Type 0} → List (Text × Result A) → List ReplicaFailure
failures_of [] = []
failures_of ((p, ok a) ∷ rs) = failures_of rs
failures_of ((p, err e) ∷ rs) = record { peer = p; cause = e } ∷ failures_of rs

unfoldable pub successes_of : {A : Type 0} → List (Text × Result A) → List A
successes_of [] = []
successes_of ((p, ok a) ∷ rs) = a ∷ successes_of rs
successes_of ((p, err e) ∷ rs) = successes_of rs

-- The result of `replicate` when its sends have ended. The entry is left to the caller.
replicated : List (Text × Result (Unit {0})) → WriteResult
unfolding failures_of successes_of
replicated rs = record {
  entry = none;
  peers_tried = length rs;
  peers_stored = length (successes_of rs);
  failures = failures_of rs;
}

shared_with : List (Text × Result SharePlacement) → ShareResult
unfolding failures_of successes_of
shared_with rs = record {
  peers_tried = length rs;
  peers_stored = length (successes_of rs);
  placements = successes_of rs;
  failures = failures_of rs;
}

-- A key that is empty stands for the source's.
abbrev dest_or : Text → Text → Text
dest_or dest_key src_key = if dest_key == [] then src_key else dest_key

module _ (srv : FileServer) where
  unfoldable pub send_blob : Text → VersionEntry → Text → Exec (Unit {0})
  unfolding open_stream exchange
  send_blob key entry to = do
    blob ← read_version_raw srv.lib srv.store srv.node_id key entry.version_id
    d ← open_stream srv to store_protocol
    let req : StoreRequest = record {
      origin_id = srv.node_id;
      key = key;
      meta = meta_from_entry entry blob.0;
    }
    resp ← exchange srv.codecs.store_request srv.codecs.store_response d req blob.1
    guard resp.0.is_ok peer_refused

  unfoldable pub replicate : Text → VersionEntry → World → WriteResult × World
  unfolding send_blob replicated slots
  replicate key entry w =
      let (rs, w') =
        slots (send_blob key entry) (select_peers srv.replication_factor srv.peers) w in
      (replicated rs, w')

  replicated_after : Text → Result VersionEntry → World → Result WriteResult × World
  unfolding replicate
  replicated_after key (err e) w = (err e, w)
  replicated_after key (ok entry) w =
      let (r, w') = replicate key entry w in (ok (record r { entry = some entry }), w')

  unfoldable pub store_version : Text → Text → Reader → Exec WriteResult
  unfolding replicated_after
  store_version key message r w =
      let (e, w') = write_version srv.lib srv.store srv.node_id key message r w in
      replicated_after key e w'

  unfoldable pub store_local : Text → Text → Reader → Exec VersionEntry
  store_local key message r = write_version srv.lib srv.store srv.node_id key message r

  -- How much of a fetched blob came, against what was promised.
  completed : Text → VersionMeta → Reader → Exec (Unit {0})
  completed key meta body =
      if nat_beq (length body.bytes) (to_count meta.blob_bytes) then pure tt else (do
        ignore (delete_version srv.lib srv.store srv.node_id key meta.version_id)
        raise short_transfer)

  unfoldable pub fetch_blob : Text → Text → Text → Exec (Unit {0})
  unfolding open_stream exchange found_meta completed
  fetch_blob key version_id from = do
    d ← open_stream srv from get_protocol
    let req : GetRequest = record { origin_id = srv.node_id; key = key; version_id = version_id }
    resp ← exchange srv.codecs.get_request srv.codecs.get_response d req no_body
    guard resp.0.found peer_refused
    meta ← found_meta resp.0.meta
    guard (not (is_negative meta.blob_bytes)) negative_size
    let body = limit_reader resp.1 (to_count meta.blob_bytes)
    write_version_raw srv.lib srv.store srv.node_id key (entry_from_meta meta) body
    completed key meta body

  -- The loop over the peers: the first that supplies the file ends it.
  fetched : Text → Text → List Text → Exec (ℤ × Reader)
  unfolding fetch_blob
  fetched key version_id [] w = (err peer_refused, w)
  fetched key version_id (p ∷ ps) w =
      let (r, w') = fetch_blob key version_id p w in
      elim r [
        | ok u ↦ read_version srv.lib srv.store srv.node_id key version_id w'
        | err e ↦ fetched key version_id ps w'
      ]

  fetched_or_none : Text → Text → List Text → Exec (ℤ × Reader)
  unfolding fetched
  fetched_or_none key version_id [] = raise no_peers
  fetched_or_none key version_id (p ∷ ps) = fetched key version_id (p ∷ ps)

  -- What follows the attempt to read locally.
  read_or_fetched : Text → Text → Result (ℤ × Reader) → Exec (ℤ × Reader)
  unfolding fetched_or_none
  read_or_fetched key version_id (ok c) = pure c
  read_or_fetched key version_id (err e) = fetched_or_none key version_id srv.peers

  unfoldable pub get_version : Text → Text → Exec (ℤ × Reader)
  unfolding read_or_fetched
  get_version key version_id w =
      let (here, w1) = has srv.lib srv.store srv.node_id key w in
      let (r, w2) = read_version srv.lib srv.store srv.node_id key version_id w1 in
      if here
      then read_or_fetched key version_id r w2
      else fetched_or_none key version_id srv.peers w1

  unfoldable pub send_readable : Text → Text → Text → Text → Text → Exec SharePlacement
  unfolding open_stream exchange
  send_readable src_key version_id dest_key message to = do
    content ← read_version srv.lib srv.store srv.node_id src_key version_id
    d ← open_stream srv to share_protocol
    let req : ShareRequest = record { key = dest_key; message = message; size_bytes = content.0 }
    resp ← exchange srv.codecs.share_request srv.codecs.share_response d req content.1
    guard resp.0.is_ok peer_refused
    pure (record { peer = to; version_id = resp.0.version_id; seq = resp.0.seq })

  -- `Share` of a key that is here.
  share_held : List Text → Text → Text → Text → Text → Exec ShareResult
  unfolding send_readable shared_with slots
  share_held [] src_key version_id dest_key message w = (err no_targets, w)
  share_held (p ∷ ps) src_key version_id dest_key message w =
      let (rs, w') =
        slots (send_readable src_key version_id (dest_or dest_key src_key) message) (p ∷ ps) w in
      (ok (shared_with rs), w')

  unfoldable pub share : List Text → Text → Text → Text → Text → Exec ShareResult
  unfolding share_held
  share targets src_key version_id dest_key message w =
      let (here, w') = has srv.lib srv.store srv.node_id src_key w in
      if here
      then share_held targets src_key version_id dest_key message w'
      else (err not_stored_here, w')
