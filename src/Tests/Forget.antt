-- ===== src/Tests/Forget.antt =====
-- A removal and a listing behind it.
use weave_fs.Base.{some, [], ◌∷◌, ◌++◌, Text, codes, ◌≡◌, refl, list_beq}
use weave_fs.Strings.{split, join, is_space, trim_space}
use weave_fs.Hex.{digit, encode}
use weave_fs.Exec.{World}
use weave_fs.Disk.{put_file, reader_of, read_file, next_call, remove, remove_all, dir, is_prefix}
use weave_fs.Disk.Resolve.{resolve, drop_last}
use weave_fs.Disk.Files.{update_self}
use weave_fs.Store.Version.{load_index, index_path, index_name, versioned_key}
use weave_fs.Store.Paths.{cas_path_transform, resolved_root_path}
use weave_fs.Store.Blob.{delete_version_blob}
use weave_fs.Store.Ops.{index_file, delete, delete_blobs}
use weave_fs.Store.Write.{index_at}
use weave_fs.Store.Commit.{load_index_calm}
use weave_fs.Store.Forget.{AreGone}
use weave_fs.Server.Types.{FileServer}
use weave_fs.Api.AddrFile.{addr_file_path, read_addr_file, address_in}
use weave_fs.Api.Handlers.{write_json}
use weave_fs.Api.Http.{status_ok}
use weave_fs.Cli.Client.{done, Client, Reply, new_client}
use weave_fs.Cli.Print.{deleted_local, peers_keep_copies, no_versions_of}
use weave_fs.Cli.Commands.{run_remove, run_list}
use weave_fs.Cli.Commands.Loopback.{served}
use weave_fs.Cli.Commands.Forget.{run_remove-run_list}
use weave_fs.Tests.Library.{small_lib, small_store, small_store-IsSound, small_world}
use weave_fs.Tests.Loopback.{small_carrier, small_http, small_http-IsFaithful}
use weave_fs.Tests.Peers.{keeper}
use weave_fs.Tests.Api.{net}
use weave_fs.Tests.Cli.{small_json}
use weave_fs.Tests.Store.{node, key, old_index, index_bytes}

abbrev dir_name : Text
dir_name = codes "data"

abbrev home : World
home =
    put_file (index_at small_lib small_store small_store-IsSound node key)
      (some (index_bytes old_index))
      (put_file (resolve (addr_file_path dir_name)) (some (codes ":4711" ++ (10 ∷ []))) small_world)

abbrev server : FileServer
server = record keeper { node_id = node; peers = [] }

abbrev client : Client
client = record { base = codes "http://:4711"; dir = dir_name }

abbrev answered : Reply
answered = record { status = status_ok; status_line = codes "200 OK"; body = reader_of [] }

found : new_client dir_name home ≡ (done client, home)
unfolding new_client read_addr_file read_file next_call resolve split drop_last list_beq address_in
    trim_space is_space index_file index_path encode
found = refl

still :
    new_client dir_name (delete small_lib small_store node key home).1
    ≡ (done client, (delete small_lib small_store node key home).1)
unfolding new_client read_addr_file read_file next_call resolve split drop_last list_beq address_in
    trim_space is_space delete load_index index_file index_path join encode digit index_name dir
    delete_blobs delete_version_blob resolved_root_path cas_path_transform versioned_key remove
    remove_all is_prefix
still = refl

run_remove-run_list_example :
    (run_remove (served small_carrier server net) small_http small_json dir_name (key ∷ []) home ≡ (
      done (deleted_local key ∷ (peers_keep_copies ∷ [])),
      (delete small_lib small_store node key home).1,
    ))
    × (run_list
          (served small_carrier server net)
          small_http
          small_json
          dir_name
          (key ∷ [])
          (delete small_lib small_store node key home).1
        ≡ (done (no_versions_of key ∷ []), (delete small_lib small_store node key home).1))
    × AreGone small_lib small_store small_store-IsSound node key old_index.versions
        (delete small_lib small_store node key home).1
unfolding list_beq write_json
run_remove-run_list_example =
    run_remove-run_list small_http small_carrier small_http-IsFaithful server net
      small_store-IsSound small_json dir_name key old_index client answered answered [] home refl
      refl
      (load_index_calm small_lib (index_file small_lib small_store node key) key old_index
        (index_bytes old_index) home small_store-IsSound.json refl
        (update_self
          (put_file (resolve (addr_file_path dir_name)) (some (codes ":4711" ++ (10 ∷ [])))
            small_world).files
          (index_at small_lib small_store small_store-IsSound node key)
          (some (index_bytes old_index)))
        refl)
      found still refl refl refl refl
