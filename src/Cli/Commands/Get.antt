-- ===== src/Cli/Commands/Get.antt =====
-- A get whose reply comes whole fills its file.
use weave_fs.Base.{
  pos, false, true, some, List, [], ◌∷◌, Text, codes, length, nat_eq, list_eq, ◌≡◌, refl, ◌∙◌,
  eq_refl, arith,
}
use weave_fs.Exec.{World, calm}
use weave_fs.Disk.{Reader, reader_of, read_file, create, append, io_copy}
use weave_fs.Disk.Resolve.{resolve}
use weave_fs.Store.Version.{Json}
use weave_fs.Api.AddrFile.{addr_file_path, read_addr_file}
use weave_fs.Api.Http.{Request, status_ok}
use weave_fs.Cli.Aliases.{Aliases}
use weave_fs.Cli.Client.{done, Client, replied, Reply, query_of, new_client, do_request}
use weave_fs.Cli.Print.{Line, wrote}
use weave_fs.Cli.Format.{human_bytes}
use weave_fs.Cli.Run.{Http, Web, ◌>>=◌, Command, checked_base}
use weave_fs.Cli.Run.Laws.{>>=_done}
use weave_fs.Cli.Commands.{replied_with, received, written_to, get_file, run_get}

-- The request of a get.
abbrev pub get_request : Text → Text → Request
get_request key version = record {
  method = codes "GET";
  path = codes "/v1/files";
  query = query_of ((codes "key", key) ∷ (codes "version", version) ∷ []);
  content_length = pos 0;
  body = reader_of [];
}

read_file_still : (path : Text) (w : World) → w.faults ≡ [] → (read_file path w).1 ≡ w
unfolding read_file
read_file_still path w calm = ground arith

-- With no fault to come, looking for the node leaves the machine as it is.
pub new_client_still : (dir : Text) (w : World) → w.faults ≡ [] → (new_client dir w).1 ≡ w
unfolding new_client read_addr_file
new_client_still dir w calm = ground (arith, read_file_still (addr_file_path dir) w calm)

module _ (web : Web) (http : Http) (json : Json Aliases) (dir : Text) where
  written_calm :
      (out : Text) (body : Reader) (w : World)
      → w.faults ≡ []
      → body.fails ≡ false
      → (w' : World) × (written_to web http json dir out body w
          ≡ (done (wrote (human_bytes (pos (length body.bytes))) out ∷ []), w'))
        × (w'.files (resolve out) ≡ some body.bytes)
  unfolding written_to create io_copy append
  written_calm out body w calm whole = (
    (append out body.bytes (create out w).1).1,
    ground arith,
    ground (arith, eq_refl (resolve out)),
  )

  replied_calm :
      (key version : Text) (c : Client) (reply : Reply) (w : World)
      → http.parses c.base ≡ true
      → web c.base (get_request key version) w ≡ (replied reply, w)
      → reply.status ≡ status_ok
      → replied_with web http json dir c
          (codes "GET")
          (codes "/v1/files")
          ((codes "key", key) ∷ (codes "version", version) ∷ [])
          w
        ≡ (done reply.body, w)
  unfolding replied_with checked_base do_request
  replied_calm key version c reply w good came fine = rw (good, came, fine) refl

  -- A get with no fault to come, whose node is found and whose reply comes whole, ends well, and
  -- its file holds the reply.
  pub run_get_received :
      (key version out : Text) (c : Client) (reply : Reply) (w : World)
      → w.faults ≡ []
      → (new_client dir w).0 ≡ done c
      → http.parses c.base ≡ true
      → web c.base (get_request key version) w ≡ (replied reply, w)
      → reply.status ≡ status_ok
      → reply.body.fails ≡ false
      → (w' : World) × (run_get web http json dir version (key ∷ out ∷ []) w
          ≡ (done (wrote (human_bytes (pos (length reply.body.bytes))) out ∷ []), w'))
        × (w'.files (resolve out) ≡ some reply.body.bytes)
  unfolding run_get get_file received
  run_get_received key version out c reply w calm found good came fine whole =
      let (w', ended, file) = written_calm out reply.body w calm whole in
      let params = (codes "key", key) ∷ (codes "version", version) ∷ [] in
      let taken : Client → Command Reader =
        λ c. replied_with web http json dir c (codes "GET") (codes "/v1/files") params in
      let received_in : Reader → Command (List Line) =
        λ body. received web http json dir (out ∷ []) body in
      let located : new_client dir w ≡ (done c, w) =
        λ i. (found i, new_client_still dir w calm i) in
      (
        w',
        >>=_done (new_client dir) (λ c. taken c >>= received_in) w w c located
            ∙ >>=_done (taken c) received_in w w reply.body
                (replied_calm key version c reply w good came fine)
            ∙ ended,
        file,
      )
