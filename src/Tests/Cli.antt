-- ===== src/Tests/Cli.antt =====
-- The command line on small inputs, and a write that meets no fault.
use weave_fs.Base.{
  ℕ, zero, suc, ◌⊎◌, ◌*◌, ◌/◌, ◌<◌, ◌≤◌, pos, false, none, some, [], ◌∷◌, Bytes, codes, length, ◌≡◌,
  refl, arith, ap, sym, ◌∙◌, list_beq, nat_eq, list_eq, take-append, drop-append,
}
use weave_fs.Strings.{split, join}
use weave_fs.Exec.{Error, Result, ok, err, World, calm}
use weave_fs.Exec.Laws.{some-injective, result_of}
use weave_fs.Disk.{put_file, read_file, next_call, write_file, create, append}
use weave_fs.Disk.Resolve.{resolve, drop_last}
use weave_fs.Store.Version.{VersionEntry, Json, empty_index}
use weave_fs.Store.Ops.{write_version}
use weave_fs.Store.Live.{Prints, write_version_returns}
use weave_fs.Server.Targets.{resolve_targets}
use weave_fs.Api.Handlers.{Libp2p, resolved, parse_targets}
use weave_fs.Cli.Format.{
  IsUnit, short, unit, over, scaled, human_bytes, human_bytes_fits, format_peer,
}
use weave_fs.Cli.Aliases.{
  Aliases, KeepsMaps, aliases_path, load_aliases, save_aliases, assign, run_alias,
  run_alias-format_peer,
}
use weave_fs.Cli.Send.{send_query}
use weave_fs.Cli.Send.Agree.{send_query-parse_targets}
use weave_fs.Tests.Library.{small_lib, small_store, small_aes, small_world, put_text, get_text}
use weave_fs.Tests.Peers.{keeper, key, hello, nothing_loaded}

small_lib-Prints : Prints small_lib
small_lib-Prints = record { text = _; printed = λ idx. refl }

write_version_returns_example :
    (entry : VersionEntry) × (w' : World) × (write_version small_lib small_store
        (codes "n1")
        key
        (codes "one")
        hello
        small_world
      ≡ (ok entry, w'))
    × (entry.size_bytes ≡ pos 5)
    × (w'.faults ≡ [])
write_version_returns_example =
    write_version_returns small_lib small_lib-Prints small_store small_aes (codes "n1") key
      (codes "one") hello small_world (empty_index key) refl refl (omega arith) refl
      (nothing_loaded (codes "n1"))

human_bytes_fits_example :
    ((scaled 6 (5000000 / unit) unit 0).0 < unit)
    × ((div : ℕ) × (c : ℕ) × (human_bytes (pos 5000000) ≡ over 5000000 div (some c))
        × IsUnit div c
        × (div ≤ 5000000)
        × (5000000 < div * unit))
human_bytes_fits_example = human_bytes_fits 5000000 (omega arith) (omega arith)

abbrev net : Libp2p
net = record { decode_peer = λ t. some t; close_peer = λ p. none }

send_query-parse_targets_example :
    parse_targets keeper net (send_query key (codes "hi") [] [] (codes "n2" ∷ []) (pos 0) false)
    ≡ resolved (resolve_targets keeper.peers (codes "n2" ∷ []) (pos 0) false)
send_query-parse_targets_example =
    send_query-parse_targets keeper net key (codes "hi") [] [] (codes "n2" ∷ []) (pos 0) false
      (refl, tt) (omega arith)

-- The JSON of aliases: their number, and each as two texts.
abbrev put_pairs : Aliases → Bytes
put_pairs [] = []
put_pairs ((k, v) ∷ m) = put_text k (put_text v (put_pairs m))

abbrev get_pairs : ℕ → Bytes → Aliases
get_pairs zero b = []
get_pairs (suc n) b =
    let (k, r) = get_text b in let (v, rest) = get_text r in (k, v) ∷ get_pairs n rest

abbrev pub get_aliases : Bytes → Aliases
get_aliases [] = []
get_aliases (n ∷ b) = get_pairs n b

abbrev pub small_json : Json Aliases
small_json = record {
  marshal = λ m. some (length m ∷ put_pairs m);
  unmarshal = λ b. some (get_aliases b);
}

get_pairs-put_pairs : (m : Aliases) → get_pairs (length m) (put_pairs m) ≡ m
get_pairs-put_pairs [] = refl
get_pairs-put_pairs ((k, v) ∷ m) =
    let r = put_text v (put_pairs m) in
    rw
      (
        take-append k r,
        drop-append k r,
        take-append v (put_pairs m),
        drop-append v (put_pairs m),
        get_pairs-put_pairs m,
      )
      refl

small_json-KeepsMaps : KeepsMaps small_json
small_json-KeepsMaps = record {
  reads_back = λ m b e. (
    m,
    ap (λ x. some (get_aliases x)) (sym (some-injective e)) ∙ ap some (get_pairs-put_pairs m),
    λ id. refl,
  );
}

-- One peer has a name already.
abbrev old_aliases : Aliases
old_aliases = (codes "p22", codes "bob") ∷ []

abbrev aliased : World
aliased =
    put_file (resolve (aliases_path (codes "data"))) (small_json.marshal old_aliases) small_world

named : Result (Unit {0}) × World
unfolding run_alias load_aliases save_aliases assign read_file next_call write_file create append
    resolve drop_last split join list_beq
named = run_alias small_json (codes "data") (codes "p1") (codes "ann") aliased

named_ended : named.0 ≡ ok tt
unfolding named
named_ended = refl

run_alias-format_peer_example :
    (format_peer (codes "p1") (load_aliases small_json (codes "data") (calm named.1)).0
      ≡ codes "ann")
    × ((format_peer (codes "p22") (load_aliases small_json (codes "data") (calm named.1)).0
          ≡ format_peer (codes "p22") (load_aliases small_json (codes "data") (calm aliased)).0)
        ⊎ ((e : Error) × ((read_file (aliases_path (codes "data")) aliased).0 ≡ err e)
            × (format_peer (codes "p22") (load_aliases small_json (codes "data") (calm named.1)).0
                ≡ short (codes "p22"))))
run_alias-format_peer_example =
    run_alias-format_peer small_json small_json-KeepsMaps (codes "data") (codes "p1") (codes "ann")
      (codes "p22") aliased named.1 (unfold named in result_of named (ok tt) named_ended)
      (λ e. omega (arith, ap length e))
