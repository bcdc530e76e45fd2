-- ===== src/Cli/Commands/PutGet.antt =====
-- A file that a put took to a node comes back by a get.
use weave_fs.Base.{
  ℤ, pos, false, true, some, List, [], ◌∷◌, Bytes, Text, codes, length, nat_eq, list_eq, ◌≡◌, refl,
  ap, ◌∙◌, sym, subst, inl, list_beq,
}
use weave_fs.Exec.{ok, World, calm}
use weave_fs.Exec.Laws.{ok-injective}
use weave_fs.Disk.{reader_of}
use weave_fs.Disk.Resolve.{resolve}
use weave_fs.Store.Version.{Json, VersionIndex, load_index}
use weave_fs.Store.Ops.{index_file}
use weave_fs.Store.Write.{IsSound, write_version-Written}
use weave_fs.Store.Commit.{AreApart}
use weave_fs.Store.Latest.{load_index-calm, write_version-latest}
use weave_fs.Server.Types.{FileServer}
use weave_fs.Server.Fanout.Files.{StoredVersion}
use weave_fs.Api.Http.{query_get, status_ok}
use weave_fs.Api.Json.{written, WriteResultJson, to_write_result_json}
use weave_fs.Api.Handlers.{Libp2p, write_json, send_content, handle_put, handle_get}
use weave_fs.Api.Handlers.Laws.{handle_put-StoredVersion, handle_put-handle_get}
use weave_fs.Cli.Aliases.{Aliases}
use weave_fs.Cli.Client.{done, Client, replied, Reply, new_client}
use weave_fs.Cli.Print.{Line, wrote}
use weave_fs.Cli.Format.{human_bytes}
use weave_fs.Cli.Run.{Http}
use weave_fs.Cli.Commands.{run_put, run_get}
use weave_fs.Cli.Commands.Loopback.{Carrier, served, IsFaithful}
use weave_fs.Cli.Commands.Put.{
  put_request, run_put-Put, put-Accepted, put_key, get_key, require_key_same, get_version_param,
}
use weave_fs.Cli.Commands.Get.{get_request, run_get_received}

module _ (http : Http) (cr : Carrier) (faithful : IsFaithful http cr) (srv : FileServer)
    (net : Libp2p) (sound : IsSound srv.lib srv.store) where
  abbrev Loads : Text → World → VersionIndex → Type 0
  Loads key w idx =
      (load_index srv.lib (index_file srv.lib srv.store srv.node_id key) key w).0 ≡ ok idx

  -- What a get is answered behind a put that was.
  pub answered_get :
      (key message : Text) (n : ℤ) (b : Bytes) (met left : World) (j : WriteResultJson)
      (idx idx' : VersionIndex)
      → handle_put srv net (put_request key message n b) met
        ≡ (write_json status_ok (written j), left)
      → Loads key (calm met) idx
      → Loads key (calm left) idx'
      → AreApart srv.lib srv.store sound srv.node_id key idx'.latest idx.versions
      → handle_get srv net (get_request key []) (calm left)
        ≡ (send_content (pos (length b)) (reader_of b), calm left)
  unfolding to_write_result_json
  answered_get key message n b met left j idx idx' h loaded later apart =
      let req = put_request key message n b in
      let (key', result, named, shape, stored') =
        handle_put-StoredVersion srv net req met left j h in
      let (same, asked) =
        require_key_same req (get_request key []) key key' (put_key key message n b) (get_key key)
          named in
      let stored =
        subst
          (λ k.
            StoredVersion srv k (query_get (codes "message") req.query) req.body met result left)
          same stored' in
      let path = index_file srv.lib srv.store srv.node_id key in
      let done =
        write_version-Written srv.lib srv.store sound srv.node_id key
          (query_get (codes "message") req.query) req.body met stored.entry stored.written
          stored.wrote in
      let first : idx ≡ done.idx =
        ok-injective
          (sym loaded ∙ load_index-calm srv.lib path key done.idx met met refl done.loaded) in
      let latest : idx'.latest ≡ stored.entry.version_id =
        write_version-latest srv.lib srv.store sound srv.node_id key
          (query_get (codes "message") req.query) req.body met stored.written stored.entry idx'
          stored.wrote
          (load_index-calm srv.lib path key idx' stored.written (calm left) stored.same later) in
      let id : j.version_id ≡ stored.entry.version_id =
        ap (λ (x : WriteResultJson). x.version_id)
          (shape ∙ ap (to_write_result_json key') stored.reported) in
      (handle_put-handle_get srv net sound req (get_request key []) met left idx j key
        (named ∙ ap some same) (done.loaded ∙ ap ok (sym first)) h
        (subst (λ x. AreApart srv.lib srv.store sound srv.node_id key x idx.versions)
          (latest ∙ sym id) apart)
        asked (inl (get_version_param key))).0

  pub served-get :
      (base key : Text) (w : World)
      → served cr srv net base (get_request key []) w ≡ (
        cr.carry (handle_get srv net (get_request key []) w).0,
        (handle_get srv net (get_request key []) w).1,
      )
  unfolding served list_beq
  served-get base key w = refl

  -- A put of a file that ended well, whatever faults the client, the node and the replication met,
  -- and then a get of the key into a file: the get ends well, and its file holds the bytes that the
  -- put's file held. No fault comes during the get, its answer comes whole over the connection, and
  -- the client finds the node. HTTP and JSON do what they document, the store is sound, and the
  -- version that the index then names as the latest has its blob in a top folder of its own.
  pub run_put-run_get :
      (json : Json Aliases) (dir message key path out : Text) (lines : List Line) (w w' : World)
      (idx idx' : VersionIndex) (c : Client) (reply : Reply)
      → (load_index srv.lib (index_file srv.lib srv.store srv.node_id key) key (calm w)).0 ≡ ok idx
      → run_put (served cr srv net) http json dir message (key ∷ path ∷ []) w ≡ (done lines, w')
      → (load_index srv.lib (index_file srv.lib srv.store srv.node_id key) key (calm w')).0
        ≡ ok idx'
      → AreApart srv.lib srv.store sound srv.node_id key idx'.latest idx.versions
      → (new_client dir (calm w')).0 ≡ done c
      → http.parses c.base ≡ true
      → (served cr srv net c.base (get_request key []) (calm w')).0 ≡ replied reply
      → reply.body.fails ≡ false
      → (b : Bytes) × (w.files (resolve path) ≡ some b)
        × ((w'' : World) × (run_get (served cr srv net) http json dir [] (key ∷ out ∷ []) (calm w')
              ≡ (done (wrote (human_bytes (pos (length b))) out ∷ []), w''))
            × (w''.files (resolve out) ≡ some b))
  unfolding send_content
  run_put-run_get json dir message key path out lines w w' idx idx' c reply loaded h later apart
        found good came whole =
      let put = run_put-Put (served cr srv net) http json dir message key path w w' lines h in
      let took =
        put-Accepted http cr faithful srv net put.client key message put.length put.bytes put.met
          put.left put.report put.answered in
      let answer =
        answered_get key message put.length put.bytes put.met put.left took.stored idx idx'
          took.handled (subst (λ (x : World). Loads key x idx) (sym put.as_before) loaded)
          (subst (λ (x : World). Loads key x idx') put.as_left later) apart in
      let now : handle_get srv net (get_request key []) (calm w')
          ≡ (send_content (pos (length put.bytes)) (reader_of put.bytes), calm w') =
        subst
          (λ (x : World).
            handle_get srv net (get_request key []) x
            ≡ (send_content (pos (length put.bytes)) (reader_of put.bytes), x))
          (sym put.as_left) answer in
      let content = send_content (pos (length put.bytes)) (reader_of put.bytes) in
      let sent = served-get c.base key (calm w') ∙ ap (λ x. (cr.carry x.0, x.1)) now in
      let carried : cr.carry content ≡ replied reply = sym (ap (λ x. x.0) sent) ∙ came in
      let (same, count) =
        faithful.carry-content (pos (length put.bytes)) (reader_of put.bytes) reply carried whole in
      let (w'', ended, file) =
        run_get_received (served cr srv net) http json dir key [] out c reply (calm w') refl found
          good (sent ∙ ap (λ x. (x, calm w')) carried) (faithful.carry-status content reply carried)
          whole in
      (
        put.bytes,
        put.file,
        (
          w'',
          ended ∙ ap (λ x. (done (wrote (human_bytes (pos (length x))) out ∷ []), w'')) same,
          file ∙ ap some same,
        ),
      )
