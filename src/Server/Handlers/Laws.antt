-- ===== src/Server/Handlers/Laws.antt =====
-- What a handler changes on disk.
use weave_fs.Base.{
  is_negative, false, Option, none, some, Text, ◌≡◌, refl, arith, Bool-cases, inl, inr, ◌∙◌,
}
use weave_fs.Exec.{Result, ok, err, World}
use weave_fs.Disk.{Reader}
use weave_fs.Store.Version.{VersionEntry}
use weave_fs.Store.Ops.{version_info}
use weave_fs.Store.Reads.{version_info-files, read_version_raw-files}
use weave_fs.Proto.Codec.{read_message}
use weave_fs.Proto.Messages.{StoreRequest, GetRequest}
use weave_fs.Server.Types.{FileServer}
use weave_fs.Server.Handlers.{
  Stream, store_allowed, store_requested, handle_store, get_resolved, get_allowed, get_requested,
  handle_get,
}

-- A store request that this node accepts: it is readable, its peer may store, its size is no
-- negative number.
abbrev pub IsAccepted : FileServer → Stream → Result (StoreRequest × Reader) → Type 0
IsAccepted srv stream (err e) = ⊥
IsAccepted srv stream (ok (req, rest)) =
    (srv.authorizer.allow_store stream.remote_peer req.origin_id req.key ≡ none)
    × (is_negative req.meta.blob_bytes ≡ false)

module _ (srv : FileServer) (stream : Stream) where
  store_allowed_refused :
      (req : StoreRequest) (rest : Reader) (o : Option Text) (w : World)
      → ¬ ((o ≡ none) × (is_negative req.meta.blob_bytes ≡ false))
      → (store_allowed srv stream req rest o w).1 ≡ w
  unfolding store_allowed
  store_allowed_refused req rest (some why) w h = refl
  store_allowed_refused req rest none w h = ground (arith, h)

  store_requested_refused :
      (r : Result (StoreRequest × Reader)) (w : World)
      → ¬ IsAccepted srv stream r
      → (store_requested srv stream r w).1 ≡ w
  unfolding store_requested
  store_requested_refused (err e) w h = refl
  store_requested_refused (ok (req, rest)) w h =
      store_allowed_refused req rest
        (srv.authorizer.allow_store stream.remote_peer req.origin_id req.key) w h

  -- A store request that is unreadable, not authorised or of a negative size leaves the whole
  -- machine as it was.
  pub handle_store_refused :
      (w : World)
      → ¬ IsAccepted srv stream (read_message srv.codecs.store_request stream.incoming)
      → (handle_store srv stream w).1 ≡ w
  unfolding handle_store
  handle_store_refused w h = elim (Bool-cases stream.has_deadline) [
    | inl d ↦
        rw d (store_requested_refused (read_message srv.codecs.store_request stream.incoming) w h)
    | inr d ↦ rw d
  ]

  get_resolved-files :
      (req : GetRequest) (r : Result VersionEntry) (w : World)
      → (get_resolved srv stream req r w).1.files ≡ w.files
  unfolding get_resolved
  get_resolved-files req (err e) w = refl
  get_resolved-files req (ok entry) w =
      read_version_raw-files srv.lib srv.store req.origin_id req.key req.version_id w

  get_allowed-files :
      (req : GetRequest) (o : Option Text) (w : World)
      → (get_allowed srv stream req o w).1.files ≡ w.files
  unfolding get_allowed
  get_allowed-files req (some why) w = refl
  get_allowed-files req none w =
      let (r, w') = version_info srv.lib srv.store req.origin_id req.key req.version_id w in
      get_resolved-files req r w'
      ∙ version_info-files srv.lib srv.store req.origin_id req.key req.version_id w

  get_requested-files :
      (r : Result (GetRequest × Reader)) (w : World)
      → (get_requested srv stream r w).1.files ≡ w.files
  unfolding get_requested
  get_requested-files (err e) w = refl
  get_requested-files (ok (req, rest)) w =
      get_allowed-files req (srv.authorizer.allow_get stream.remote_peer req.origin_id req.key) w

  -- Answering a get request changes no file, whatever the peer sends and whatever faults come.
  pub handle_get-files : (w : World) → (handle_get srv stream w).1.files ≡ w.files
  unfolding handle_get
  handle_get-files w = elim (Bool-cases stream.has_deadline) [
    | inl d ↦ rw d (get_requested-files (read_message srv.codecs.get_request stream.incoming) w)
    | inr d ↦ rw d
  ]
