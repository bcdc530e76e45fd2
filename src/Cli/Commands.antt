-- ===== src/Cli/Commands.antt =====
-- cmd/weavefs/commands.go: the commands that talk to a node, each of its flags and its arguments.
pub mod Loopback
pub mod Put
pub mod Get
pub mod PutGet
pub mod NoNode
pub mod PutReport
pub mod Share
pub mod Forget
use weave_fs.Base.{
  ℕ, ℤ, pos, Option, none, some, List, [], ◌∷◌, ◌++◌, Bytes, Text, codes, ◌==◌, nat_eq, list_eq,
  nat_beq, if◌then◌else◌, Bool,
}
use weave_fs.Exec.{World, Exec}
use weave_fs.Disk.{Reader, reader_of, read_file, create, append, io_copy}
use weave_fs.Store.Version.{Json}
use weave_fs.Api.Http.{Request, status_ok}
use weave_fs.Cli.Format.{human_bytes, short, format_peer}
use weave_fs.Cli.Aliases.{Aliases, load_aliases, run_alias}
use weave_fs.Cli.Client.{
  usage, unreadable_reply, Failure, Outcome, done, failed, Client, Reply, Transport, do_request,
  query_of, new_client, error_from_response,
}
use weave_fs.Cli.Run.{
  Command, finish, fail, calling, ◌>>=◌, Http, Web, length_of, checked_base, asked, no_body,
}
use weave_fs.Cli.Send.{check_one_target, send_query}
use weave_fs.Cli.Print.{
  Line, bytes_out, wrote, deleted_local, peers_keep_copies, alias_set, disconnected_from,
  print_write_result, print_share_result, print_versions, print_aliases,
}

-- Aliases are read once the rest is done, and do not fail.
unfoldable pub with_aliases : Json Aliases → Text → (Aliases → List Line) → Command (List Line)
unfolding load_aliases
with_aliases json dir print w = let (m, w') = load_aliases json dir w in (done (print m), w')

module _ (web : Web) (http : Http) (json : Json Aliases) (dir : Text) where
  unfoldable pub put_path : Text → Text → Text → Command (List Line)
  unfolding with_aliases query_of calling length_of checked_base asked
  put_path message key path = do
    b ← calling (read_file path)
    c ← new_client dir
    _ ← checked_base http c
    n ← length_of http path b
    r ← asked web http c http.write_report (record {
      method = codes "PUT";
      path = codes "/v1/files";
      query = query_of ((codes "key", key) ∷ (codes "message", message) ∷ []);
      content_length = n;
      body = reader_of b;
    })
    with_aliases json dir (print_write_result r)

  unfoldable pub run_put : Text → List Text → Command (List Line)
  unfolding put_path
  run_put message (key ∷ path ∷ []) = put_path message key path
  run_put message args = fail usage

  -- The reply to a request with no body, unless its status is an error's.
  replied_with : Client → Text → Text → List (Text × Text) → Command Reader
  unfolding query_of do_request error_from_response checked_base
  replied_with c method path params = do
    _ ← checked_base http c
    resp ← λ w.
        let (t, w') =
          web c.base
            (record {
              method = method;
              path = path;
              query = query_of params;
              content_length = pos 0;
              body = no_body;
            })
            w in
        (do_request c t, w')
    λ w. (
      if nat_beq resp.status status_ok
          then done resp.body
          else failed (error_from_response http.error_in resp),
      w,
    )

  written_to : Text → Reader → Command (List Line)
  unfolding calling human_bytes
  written_to out body = do
    _ ← calling (create out)
    n ← calling (io_copy (append out) body)
    finish (wrote (human_bytes (pos n)) out ∷ [])

  -- The reply goes to the standard output, or to a file, which is there before it is filled.
  received : List Text → Reader → Command (List Line)
  unfolding written_to
  received [] body w =
      (if body.fails then failed Failure.broken_reply else done (bytes_out body.bytes ∷ []), w)
  received (out ∷ rest) body w = written_to out body w

  get_file : Text → Text → List Text → Command (List Line)
  unfolding replied_with received
  get_file version key outs = do
    c ← new_client dir
    body ←
        replied_with c (codes "GET") (codes "/v1/files")
          ((codes "key", key) ∷ (codes "version", version) ∷ [])
    received outs body

  unfoldable pub run_get : Text → List Text → Command (List Line)
  unfolding get_file
  run_get version (key ∷ []) = get_file version key []
  run_get version (key ∷ out ∷ []) = get_file version key (out ∷ [])
  run_get version args = fail usage

  list_key : Text → Command (List Line)
  unfolding query_of checked_base asked print_versions
  list_key key = do
    c ← new_client dir
    _ ← checked_base http c
    vs ← asked web http c http.version_list (record {
      method = codes "GET";
      path = codes "/v1/versions";
      query = query_of ((codes "key", key) ∷ []);
      content_length = pos 0;
      body = no_body;
    })
    finish (print_versions key vs)

  unfoldable pub run_list : List Text → Command (List Line)
  unfolding list_key
  run_list (key ∷ []) = list_key key
  run_list args = fail usage

  remove_key : Text → Command (List Line)
  unfolding replied_with
  remove_key key = do
    c ← new_client dir
    _ ← replied_with c (codes "DELETE") (codes "/v1/files") ((codes "key", key) ∷ [])
    finish (deleted_local key ∷ (peers_keep_copies ∷ []))

  unfoldable pub run_remove : List Text → Command (List Line)
  unfolding remove_key
  run_remove (key ∷ []) = remove_key key
  run_remove args = fail usage

  disconnect_peer : Text → Command (List Line)
  unfolding replied_with with_aliases format_peer
  disconnect_peer id = do
    c ← new_client dir
    _ ← replied_with c (codes "DELETE") (codes "/v1/peers") ((codes "peer", id) ∷ [])
    with_aliases json dir (λ aliases. disconnected_from (format_peer id aliases) ∷ [])

  unfoldable pub run_disconnect : List Text → Command (List Line)
  unfolding disconnect_peer
  run_disconnect (id ∷ []) = disconnect_peer id
  run_disconnect args = fail usage

  -- The check of a send, or the usage.
  checked_target : List Text → ℤ → Bool → Command (Unit {0})
  unfolding check_one_target
  checked_target peers count all w =
      (elim (check_one_target peers count all) [ none ↦ done tt | some why ↦ failed why ], w)

  opened : Text → Command (ℤ × Reader)
  unfolding calling length_of
  opened path = do b ← calling (read_file path); n ← length_of http path b; finish (n, reader_of b)

  -- The body of a send: a file of the command line, or none.
  send_body : List Text → Command (ℤ × Reader)
  unfolding opened
  send_body [] w = (done (pos 0, no_body), w)
  send_body (path ∷ rest) w = opened path w

  send_key : Text → Text → Text → List Text → ℤ → Bool → Text → List Text → Command (List Line)
  unfolding checked_target send_query send_body checked_base asked with_aliases
  send_key message version as_key peers count all key files = do
    _ ← checked_target peers count all
    c ← new_client dir
    body ← send_body files
    _ ← checked_base http c
    r ← asked web http c http.share_report (record {
      method = codes "POST";
      path = codes "/v1/share";
      query = send_query key message version as_key peers count all;
      content_length = body.0;
      body = body.1;
    })
    with_aliases json dir (print_share_result r)

  unfoldable pub run_send :
      Text → Text → Text → List Text → ℤ → Bool → List Text → Command (List Line)
  unfolding send_key
  run_send message version as_key peers count all (key ∷ []) =
      send_key message version as_key peers count all key []
  run_send message version as_key peers count all (key ∷ path ∷ []) =
      send_key message version as_key peers count all key (path ∷ [])
  run_send message version as_key peers count all args = fail usage

  alias_peer : Text → Text → Command (List Line)
  unfolding calling run_alias short
  alias_peer id name = do
    _ ← calling (run_alias json dir id name)
    finish (alias_set (short id) name ∷ [])

  unfoldable pub alias_command : List Text → Command (List Line)
  unfolding alias_peer
  alias_command (id ∷ name ∷ []) = alias_peer id name
  alias_command args = fail usage

  unfoldable pub run_aliases : List Text → Command (List Line)
  unfolding with_aliases print_aliases
  run_aliases [] = with_aliases json dir print_aliases
  run_aliases args = fail usage
