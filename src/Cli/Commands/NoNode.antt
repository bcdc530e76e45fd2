-- ===== src/Cli/Commands/NoNode.antt =====
-- What the commands say where no node runs.
use weave_fs.Base.{ℤ, Bool, none, some, List, [], ◌∷◌, Bytes, Text, ◌≡◌, refl, arith}
use weave_fs.Exec.{not_exist, err, World}
use weave_fs.Disk.{read_file}
use weave_fs.Disk.Resolve.{resolve}
use weave_fs.Disk.Files.{read_file_calm}
use weave_fs.Store.Version.{Json}
use weave_fs.Api.AddrFile.{addr_file_path, read_addr_file}
use weave_fs.Cli.Aliases.{Aliases}
use weave_fs.Cli.Client.{Outcome, done, failed, not_running, new_client}
use weave_fs.Cli.Send.{check_one_target}
use weave_fs.Cli.Run.{Http, Web, calling}
use weave_fs.Cli.Commands.{
  put_path, run_put, get_file, run_get, list_key, run_list, remove_key, run_remove, disconnect_peer,
  run_disconnect, checked_target, send_key, run_send,
}

no_file_read :
    (path : Text) (w : World)
    → w.faults ≡ []
    → w.files (resolve path) ≡ none
    → read_file path w ≡ (err not_exist, w)
unfolding read_file
no_file_read path w calm gone = ground arith

no_client :
    (dir : Text) (w : World)
    → w.faults ≡ []
    → w.files (resolve (addr_file_path dir)) ≡ none
    → new_client dir w ≡ (failed (not_running dir), w)
unfolding new_client read_addr_file
no_client dir w calm gone = rw (no_file_read (addr_file_path dir) w calm gone) refl

target_named :
    (web : Web) (http : Http) (json : Json Aliases) (dir : Text) (peers : List Text) (count : ℤ)
    (all : Bool) (w : World)
    → check_one_target peers count all ≡ none
    → checked_target web http json dir peers count all w ≡ (done tt, w)
unfolding checked_target
target_named web http json dir peers count all w one =
    λ i. (elim (one i) as (λ x. Outcome (Unit {0})) [ none ↦ done tt | some why ↦ failed why ], w)

-- Where the node directory has no address file, each command that talks to a node ends with the
-- advice to start one, contacts nobody and leaves the machine as it is, when no fault comes. Before
-- it looks for the node, a put opens its file and a send checks its choice of targets.
pub commands_without_node :
    (web : Web) (http : Http) (json : Json Aliases) (dir key path out message version as_key : Text)
    (peers : List Text) (count : ℤ) (all : Bool) (files : Bytes) (w : World)
    → w.faults ≡ []
    → w.files (resolve (addr_file_path dir)) ≡ none
    → w.files (resolve path) ≡ some files
    → check_one_target peers count all ≡ none
    → (run_put web http json dir message (key ∷ path ∷ []) w ≡ (failed (not_running dir), w))
      × (run_get web http json dir version (key ∷ out ∷ []) w ≡ (failed (not_running dir), w))
      × (run_list web http json dir (key ∷ []) w ≡ (failed (not_running dir), w))
      × (run_remove web http json dir (key ∷ []) w ≡ (failed (not_running dir), w))
      × (run_disconnect web http json dir (key ∷ []) w ≡ (failed (not_running dir), w))
      × (run_send web http json dir message version as_key peers count all (key ∷ path ∷ []) w
          ≡ (failed (not_running dir), w))
unfolding run_put put_path calling run_get get_file run_list list_key run_remove remove_key
    run_disconnect disconnect_peer run_send send_key
commands_without_node web http json dir key path out message version as_key peers count all files w
      calm gone there one =
    let absent = no_client dir w calm gone in
    (
      rw (read_file_calm path w files calm there, absent) refl,
      rw absent refl,
      rw absent refl,
      rw absent refl,
      rw absent refl,
      rw (target_named web http json dir peers count all w one, absent) refl,
    )
