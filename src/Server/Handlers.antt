-- ===== src/Server/Handlers.antt =====
-- internal/server/handlers.go: what a node answers on a stream that a peer opened. A handler runs
-- on a machine whose faults and files stand for what the other streams do to it.
pub mod Laws
pub mod Replies
pub mod Stored
pub mod Served
use weave_fs.Base.{
  ℕ, ◌-◌, ℤ, pos, is_negative, to_count, Bool, true, false, Option, none, some, List, [], ◌∷◌, ◌++◌,
  Bytes, Text, codes, take, length, ltb, nat_beq, if◌then◌else◌,
}
use weave_fs.Exec.{Error, Result, ok, err, World, ignore}
use weave_fs.Disk.{Reader, limit_reader}
use weave_fs.Store.Version.{VersionEntry, Json}
use weave_fs.Store.Ops.{
  write_version, write_version_raw, version_info, read_version_raw, delete_version,
}
use weave_fs.Proto.Codec.{frame, read_message}
use weave_fs.Proto.Messages.{
  VersionMeta, StoreRequest, StoreResponse, GetRequest, GetResponse, ShareRequest, ShareResponse,
}
use weave_fs.Server.Types.{Authorizer, Codecs, FileServer, meta_from_entry, entry_from_meta}

-- The stream as the handler finds it: who opened it, by the handshake, what comes in, whether a
-- deadline can be set, after how many bytes writes fail, and whether the write side closes.
pub record Stream : Type 0 where
  pub remote_peer : Text
  pub incoming : Reader
  pub has_deadline : Bool
  pub room : Option ℕ
  pub closes_write : Bool

-- What the peer sees of the stream: the bytes that came through, and whether it was reset.
pub record Outcome : Type 0 where
  pub sent : Bytes
  pub is_reset : Bool

abbrev reset_after : Bytes → Outcome
reset_after b = record { sent = b; is_reset = true }

-- Do writes up to this many bytes succeed?
unfoldable pub has_room : Option ℕ → ℕ → Bool
has_room none n = true
has_room (some m) n = if ltb m n then false else true

-- The part of the bytes that comes through.
unfoldable pub fitting : Option ℕ → Bytes → Bytes
fitting none b = b
fitting (some m) b = take m b

reply_of : Option ℕ → Result Bytes → Outcome
unfolding has_room fitting
reply_of room (err e) = reset_after []
reply_of room (ok b) = record {
  sent = fitting room b;
  is_reset = if has_room room (length b) then false else true;
}

-- A final response, whose failure to go out resets the stream.
unfoldable pub reply : {A : Type 0} → Json A → Stream → A → Outcome
unfolding reply_of
reply json stream msg = reply_of stream.room (frame json msg)

module _ (srv : FileServer) (stream : Stream) where
  -- The end of `handleStore`: was the blob stored, and did all of it come?
  store_ended : StoreRequest → Reader → Result (Unit {0}) × World → Outcome × World
  unfolding reply
  store_ended req body (err e, w) = (
    reply srv.codecs.store_response stream
        (record { is_ok = false; error = codes "could not store the blob" }),
    w,
  )
  store_ended req body (ok u, w) =
      if nat_beq (length body.bytes) (to_count req.meta.blob_bytes)
      then (reply srv.codecs.store_response stream (record { is_ok = true; error = [] }), w)
      else (
        reply srv.codecs.store_response stream
            (record { is_ok = false; error = codes "incomplete blob" }),
        (ignore (delete_version srv.lib srv.store req.origin_id req.key req.meta.version_id) w).1,
      )

  store_allowed : StoreRequest → Reader → Option Text → World → Outcome × World
  unfolding store_ended reply
  store_allowed req rest (some why) w = (
    reply srv.codecs.store_response stream
        (record { is_ok = false; error = codes "not authorised to store here" }),
    w,
  )
  store_allowed req rest none w =
      if is_negative req.meta.blob_bytes
      then (
        reply srv.codecs.store_response stream
            (record { is_ok = false; error = codes "invalid blob size" }),
        w,
      )
      else (let body = limit_reader rest (to_count req.meta.blob_bytes) in
          store_ended req body (
            write_version_raw srv.lib srv.store req.origin_id req.key (entry_from_meta req.meta)
              body w))

  store_requested : Result (StoreRequest × Reader) → World → Outcome × World
  unfolding store_allowed
  store_requested (err e) w = (reset_after [], w)
  store_requested (ok (req, rest)) w =
      store_allowed req rest (srv.authorizer.allow_store stream.remote_peer req.origin_id req.key) w

  unfoldable pub handle_store : World → Outcome × World
  unfolding store_requested
  handle_store w =
      if stream.has_deadline
      then store_requested (read_message srv.codecs.store_request stream.incoming) w
      else (reset_after [], w)

  -- The header went out: the blob follows it.
  served : Bytes → Reader → Outcome
  unfolding has_room fitting
  served header blob =
      let all = header ++ blob.bytes in
      let sound =
        if has_room stream.room (length all)
        then (if blob.fails then false else stream.closes_write)
        else false in
      record { sent = fitting stream.room all; is_reset = if sound then false else true }

  get_answered : Reader → Result Bytes → Outcome
  unfolding served
  get_answered blob (err e) = reset_after []
  get_answered blob (ok header) = served header blob

  get_opened : VersionEntry → Result (ℤ × Reader) → Outcome
  unfolding get_answered reply
  get_opened entry (err e) =
      reply srv.codecs.get_response stream (record { found = false; error = []; meta = none })
  get_opened entry (ok (blob_bytes, rc)) = get_answered rc (
      frame srv.codecs.get_response
        (record { found = true; error = []; meta = some (meta_from_entry entry blob_bytes) }))

  get_resolved : GetRequest → Result VersionEntry → World → Outcome × World
  unfolding get_opened reply
  get_resolved req (err e) w =
      (reply srv.codecs.get_response stream (record { found = false; error = []; meta = none }), w)
  get_resolved req (ok entry) w =
      let (r, w') = read_version_raw srv.lib srv.store req.origin_id req.key req.version_id w in
      (get_opened entry r, w')

  get_allowed : GetRequest → Option Text → World → Outcome × World
  unfolding get_resolved reply
  get_allowed req (some why) w = (
    reply srv.codecs.get_response stream
        (record { found = false; error = codes "not authorised to read that"; meta = none }),
    w,
  )
  get_allowed req none w =
      let (r, w') = version_info srv.lib srv.store req.origin_id req.key req.version_id w in
      get_resolved req r w'

  get_requested : Result (GetRequest × Reader) → World → Outcome × World
  unfolding get_allowed
  get_requested (err e) w = (reset_after [], w)
  get_requested (ok (req, rest)) w =
      get_allowed req (srv.authorizer.allow_get stream.remote_peer req.origin_id req.key) w

  unfoldable pub handle_get : World → Outcome × World
  unfolding get_requested
  handle_get w =
      if stream.has_deadline
      then get_requested (read_message srv.codecs.get_request stream.incoming) w
      else (reset_after [], w)

  share_response : Bool → Text → ShareResponse
  share_response b why = record { is_ok = b; version_id = []; seq = pos 0; error = why }

  share_ended : ShareRequest → Reader → Result VersionEntry × World → Outcome × World
  unfolding share_response reply
  share_ended req body (err e, w) = (
    reply srv.codecs.share_response stream
        (share_response false (codes "could not store the file")),
    w,
  )
  share_ended req body (ok entry, w) =
      if nat_beq (length body.bytes) (to_count req.size_bytes)
      then (
        reply srv.codecs.share_response stream
            (record { is_ok = true; version_id = entry.version_id; seq = entry.seq; error = [] }),
        w,
      )
      else (
        reply srv.codecs.share_response stream (share_response false (codes "incomplete file")),
        (ignore (delete_version srv.lib srv.store srv.node_id req.key entry.version_id) w).1,
      )

  share_allowed : ShareRequest → Reader → Option Text → World → Outcome × World
  unfolding share_ended share_response reply
  share_allowed req rest (some why) w = (
    reply srv.codecs.share_response stream
        (share_response false (codes "not authorised to share here")),
    w,
  )
  share_allowed req rest none w =
      if is_negative req.size_bytes
      then (
        reply srv.codecs.share_response stream (share_response false (codes "invalid file size")),
        w,
      )
      else (let body = limit_reader rest (to_count req.size_bytes) in
          share_ended req body
            (write_version srv.lib srv.store srv.node_id req.key req.message body w))

  share_requested : Result (ShareRequest × Reader) → World → Outcome × World
  unfolding share_allowed
  share_requested (err e) w = (reset_after [], w)
  share_requested (ok (req, rest)) w =
      share_allowed req rest (srv.authorizer.allow_share stream.remote_peer req.key) w

  unfoldable pub handle_share : World → Outcome × World
  unfolding share_requested
  handle_share w =
      if stream.has_deadline
      then share_requested (read_message srv.codecs.share_request stream.incoming) w
      else (reset_after [], w)
