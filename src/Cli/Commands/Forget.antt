-- ===== src/Cli/Commands/Forget.antt =====
-- A key that was removed by a command has no versions in the next listing.
use weave_fs.Base.{
  pos, false, true, some, List, [], ◌∷◌, Text, codes, ◌==◌, nat_eq, list_eq, list_beq, ◌≡◌, refl,
}
use weave_fs.Exec.{ok, World}
use weave_fs.Exec.Laws.{result_of}
use weave_fs.Store.Version.{Json, VersionIndex, load_index}
use weave_fs.Store.Write.{IsSound}
use weave_fs.Store.Ops.{index_file, delete, list_versions}
use weave_fs.Store.Forget.{AreGone, delete_forgets}
use weave_fs.Server.Types.{FileServer}
use weave_fs.Api.Http.{Request, query_get, status_ok}
use weave_fs.Api.Json.{VersionJson, deleted, versions_of}
use weave_fs.Api.Handlers.{Libp2p, write_json, require_key, handle_delete, handle_versions}
use weave_fs.Cli.Aliases.{Aliases}
use weave_fs.Cli.Client.{done, Client, replied, Reply, query_of, new_client, do_request, result_in}
use weave_fs.Cli.Print.{deleted_local, peers_keep_copies, no_versions_of, print_versions}
use weave_fs.Cli.Run.{Http, checked_base, asked, no_body}
use weave_fs.Cli.Commands.{replied_with, remove_key, run_remove, list_key, run_list}
use weave_fs.Cli.Commands.Loopback.{Carrier, served, IsFaithful}

abbrev remove_request : Text → Request
remove_request key = record {
  method = codes "DELETE";
  path = codes "/v1/files";
  query = query_of ((codes "key", key) ∷ []);
  content_length = pos 0;
  body = no_body;
}

abbrev list_request : Text → Request
list_request key = record {
  method = codes "GET";
  path = codes "/v1/versions";
  query = query_of ((codes "key", key) ∷ []);
  content_length = pos 0;
  body = no_body;
}

module _ (http : Http) (cr : Carrier) (faithful : IsFaithful http cr) (srv : FileServer)
    (net : Libp2p) (sound : IsSound srv.lib srv.store) where
  delete_answered :
      (key : Text) (w w' : World)
      → (key == []) ≡ false
      → delete srv.lib srv.store srv.node_id key w ≡ (ok tt, w')
      → handle_delete srv net (remove_request key) w ≡ (write_json status_ok (deleted key), w')
  unfolding handle_delete require_key query_get query_of list_beq
  delete_answered key w w' named h = rw (named, named, h) refl

  list_answered :
      (key : Text) (w : World)
      → (key == []) ≡ false
      → list_versions srv.lib srv.store srv.node_id key w ≡ (ok [], w)
      → handle_versions srv net (list_request key) w
        ≡ (write_json status_ok (versions_of key []), w)
  unfolding handle_versions require_key query_get query_of list_beq
  list_answered key w named h = rw (named, named, h) refl

  removed :
      (json : Json Aliases) (dir key : Text) (c : Client) (gone : Reply) (w w' : World)
      → new_client dir w ≡ (done c, w)
      → http.parses c.base ≡ true
      → handle_delete srv net (remove_request key) w ≡ (write_json status_ok (deleted key), w')
      → cr.carry (write_json status_ok (deleted key)) ≡ replied gone
      → gone.status ≡ status_ok
      → run_remove (served cr srv net) http json dir (key ∷ []) w
        ≡ (done (deleted_local key ∷ (peers_keep_copies ∷ [])), w')
  unfolding run_remove remove_key replied_with checked_base do_request served list_beq
  removed json dir key c gone w w' found good answered came fine =
      rw (found, good, answered, came, fine) refl

  listed_none :
      (json : Json Aliases) (dir key : Text) (c : Client) (listed : Reply) (vs : List VersionJson)
      (w : World)
      → new_client dir w ≡ (done c, w)
      → http.parses c.base ≡ true
      → handle_versions srv net (list_request key) w
        ≡ (write_json status_ok (versions_of key []), w)
      → cr.carry (write_json status_ok (versions_of key [])) ≡ replied listed
      → listed.status ≡ status_ok
      → http.version_list listed.body.bytes ≡ some vs
      → vs ≡ []
      → run_list (served cr srv net) http json dir (key ∷ []) w
        ≡ (done (no_versions_of key ∷ []), w)
  unfolding run_list list_key checked_base asked do_request result_in served list_beq print_versions
  listed_none json dir key c listed vs w found good answered told fine read none =
      rw (found, good, answered, told, fine, read, none) refl

  -- A removal that meets no fault, of a key that is not empty and whose index loads, ends well and
  -- says so; a listing of the key right behind it then says that it has no versions, and
  -- no blob of a version that the index listed is left. The client finds
  -- the node on both machines, the two answers come back over HTTP, the second as JSON that decodes,
  -- and HTTP, JSON and the store's libraries do what they document.
  pub run_remove-run_list :
      (json : Json Aliases) (dir key : Text) (idx : VersionIndex) (c : Client) (gone listed : Reply)
      (vs : List VersionJson) (w : World)
      → w.faults ≡ []
      → (key == []) ≡ false
      → load_index srv.lib (index_file srv.lib srv.store srv.node_id key) key w ≡ (ok idx, w)
      → new_client dir w ≡ (done c, w)
      → new_client dir (delete srv.lib srv.store srv.node_id key w).1
        ≡ (done c, (delete srv.lib srv.store srv.node_id key w).1)
      → http.parses c.base ≡ true
      → cr.carry (write_json status_ok (deleted key)) ≡ replied gone
      → cr.carry (write_json status_ok (versions_of key [])) ≡ replied listed
      → http.version_list listed.body.bytes ≡ some vs
      → (run_remove (served cr srv net) http json dir (key ∷ []) w ≡ (
        done (deleted_local key ∷ (peers_keep_copies ∷ [])),
        (delete srv.lib srv.store srv.node_id key w).1,
      ))
        × (run_list
              (served cr srv net)
              http
              json
              dir
              (key ∷ [])
              (delete srv.lib srv.store srv.node_id key w).1
            ≡ (done (no_versions_of key ∷ []), (delete srv.lib srv.store srv.node_id key w).1))
        × AreGone srv.lib srv.store sound srv.node_id key idx.versions
            (delete srv.lib srv.store srv.node_id key w).1
  unfolding write_json
  run_remove-run_list json dir key idx c gone listed vs w calm named loaded found still good came
        told read =
      let (returned, absent, empty, unread, blobs) =
        delete_forgets srv.lib srv.store sound srv.node_id key idx w calm loaded in
      let w' = (delete srv.lib srv.store srv.node_id key w).1 in
      let asked_delete =
        delete_answered key w w' named
          (result_of (delete srv.lib srv.store srv.node_id key w) (ok tt) returned) in
      let asked_list = list_answered key w' named empty in
      let fine = faithful.carry-status (write_json status_ok (deleted key)) gone came in
      let fine' = faithful.carry-status (write_json status_ok (versions_of key [])) listed told in
      let none = faithful.carry-versions key [] listed vs told read in
      (
        removed json dir key c gone w w' found good asked_delete came fine,
        listed_none json dir key c listed vs w' still good asked_list told fine' read none,
        blobs,
      )
