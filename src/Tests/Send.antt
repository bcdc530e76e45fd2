-- ===== src/Tests/Send.antt =====
-- A send of a file whose index is there and whose blob was lost.
use weave_fs.Base.{none, some, List, [], ◌∷◌, ◌++◌, Bytes, Text, codes, ◌≡◌, refl, list_beq}
use weave_fs.Strings.{split, is_space, trim_space}
use weave_fs.Hex.{encode}
use weave_fs.Exec.{not_exist, Result, World}
use weave_fs.Disk.{read_file, put_file, next_call}
use weave_fs.Disk.Resolve.{resolve, drop_last}
use weave_fs.Store.Version.{load_index, index_path}
use weave_fs.Store.Ops.{has}
use weave_fs.Server.Types.{ShareResult}
use weave_fs.Server.Fanout.{share}
use weave_fs.Api.AddrFile.{addr_file_path, read_addr_file, address_in}
use weave_fs.Api.Json.{ShareResultJson, to_share_result_json}
use weave_fs.Cli.Aliases.{Aliases, load_aliases}
use weave_fs.Cli.Client.{done, Client, new_client}
use weave_fs.Cli.Print.{Line, print_share_result}
use weave_fs.Tests.Loopback.{share_bytes, get_share}
use weave_fs.Tests.Server.{small_server, held_world}
use weave_fs.Tests.Cli.{small_json}

abbrev dir_name : Text
dir_name = codes "data"

abbrev home : World
home = put_file (resolve (addr_file_path dir_name)) (some (codes ":4711" ++ (10 ∷ []))) held_world

abbrev target : List Text
target = codes "p3" ∷ []

shared_run : Result ShareResult × World
unfolding share has load_index read_file list_beq split index_path encode
shared_run = share small_server target (codes "k") [] [] (codes "hi") home

abbrev outcome : ShareResult
outcome = record {
  peers_tried = 1;
  peers_stored = 0;
  placements = [];
  failures = record { peer = codes "p3"; cause = not_exist } ∷ [];
}

abbrev report : ShareResultJson
report = to_share_result_json (codes "k") outcome

abbrev client : Client
client = record { base = codes "http://:4711"; dir = dir_name }

found : new_client dir_name home ≡ (done client, home)
unfolding new_client read_addr_file read_file next_call resolve split drop_last list_beq address_in
    trim_space is_space
found = refl

abbrev bytes : Bytes
bytes =
    elim (share_bytes report.key report.peers_tried report.peers_stored report.placements
      report.failures) [ none ↦ [] | some b ↦ b ]

abbrev lines : List Line
lines = print_share_result (get_share bytes) (load_aliases small_json dir_name shared_run.1).0
