-- ===== src/Tests/Server.antt =====
-- A server with three peers, one of which answers.
use weave_fs.Base.{
  ◌+◌, ◌≤◌, pos, to_count, true, false, none, some, List, [], ◌∷◌, ◌++◌, Bytes, Text, codes, length,
  ◌≡◌, ◌≢◌, ◌⊎◌, refl, list_beq, ◌==◌, nat_eq, list_eq, if◌then◌else◌,
}
use weave_fs.Exec.{Result, ok, err, World}
use weave_fs.Exec.Laws.{result_of}
use weave_fs.Disk.{reader_of, put_file, read_file, read_full}
use weave_fs.Store.Version.{VersionEntry, VersionIndex, Json}
use weave_fs.Strings.{split}
use weave_fs.Hex.{encode}
use weave_fs.Store.Version.{load_index, index_path}
use weave_fs.Store.Ops.{has}
use weave_fs.Store.Write.{index_at}
use weave_fs.Proto.Codec.{read_message, get_uint32}
use weave_fs.Proto.Messages.{VersionMeta}
use weave_fs.Server.Config.{default_request_timeout}
use weave_fs.Server.Types.{Authorizer, Codecs, Dialled, FileServer, ShareResult}
use weave_fs.Server.Targets.{resolve_targets}
use weave_fs.Server.Targets.Laws.{AreConnected, resolve_targets-AreConnected}
use weave_fs.Server.Handlers.{Stream, handle_store, handle_get}
use weave_fs.Server.Handlers.Laws.{IsAccepted, handle_store_refused, handle_get-files}
use weave_fs.Server.Fanout.{share}
use weave_fs.Server.Fanout.Laws.{share_counts}
use weave_fs.Tests.Library.{small_lib, small_store, small_store-IsSound, small_world}

abbrev a_meta : VersionMeta
a_meta = record {
  version_id = codes "old";
  seq = pos 1;
  created_at = 1;
  size_bytes = pos 3;
  blob_bytes = pos 3;
  message = [];
}

-- Every message is printed as two bytes, and two bytes read as one message.
abbrev fixed : {A : Type 0} → A → Json A
fixed a = record { marshal = λ x. some (codes "{}"); unmarshal = λ b. some a }

abbrev small_codecs : Codecs
small_codecs = record {
  store_request = fixed (record { origin_id = codes "n2"; key = codes "k"; meta = a_meta });
  store_response = fixed (record { is_ok = true; error = [] });
  get_request = fixed (record { origin_id = codes "n2"; key = codes "k"; version_id = [] });
  get_response = fixed (record { found = false; error = []; meta = none });
  share_request = fixed (record { key = codes "k"; message = []; size_bytes = pos 3 });
  share_response =
      fixed (record { is_ok = true; version_id = codes "v9"; seq = pos 4; error = [] });
}

-- Nobody may store.
abbrev strict : Authorizer
strict = record {
  allow_store = λ from origin_id key. some (codes "no");
  allow_get = λ from origin_id key. none;
  allow_share = λ from key. none;
}

abbrev a_frame : Bytes
a_frame = 0 ∷ 0 ∷ 0 ∷ 2 ∷ codes "{}"

abbrev answers : Dialled
answers = record {
  has_deadline = true;
  room = none;
  closes_write = true;
  answer = λ b. reader_of a_frame;
}

abbrev pub small_server : FileServer
small_server = record {
  node_id = codes "n1";
  store = small_store;
  replication_factor = pos 2;
  request_timeout = default_request_timeout;
  authorizer = strict;
  peers = codes "p1" ∷ codes "p2" ∷ codes "p3" ∷ [];
  network = λ to protocol. if to == codes "p1" then some answers else none;
  lib = small_lib;
  codecs = small_codecs;
}

abbrev a_stream : Stream
a_stream = record {
  remote_peer = codes "p2";
  incoming = reader_of (a_frame ++ codes "abc");
  has_deadline = true;
  room = none;
  closes_write = true;
}

abbrev an_entry : VersionEntry
an_entry = record {
  version_id = codes "old";
  seq = pos 1;
  created_at = 1;
  size_bytes = pos 3;
  message = [];
}

abbrev pub count_two : List Text
count_two = codes "p1" ∷ codes "p2" ∷ []

resolve_targets-AreConnected_example :
    (count_two ≢ [])
    × AreConnected count_two small_server.peers
    × ((count_two ≡ []) ⊎ (false ≡ true) ⊎ (length count_two ≤ to_count (pos 2)))
unfolding resolve_targets
resolve_targets-AreConnected_example =
    resolve_targets-AreConnected small_server.peers [] count_two (pos 2) false refl

-- The node holds the version, unsealed by a header of its own.
abbrev held : VersionIndex
held = record { key = codes "k"; latest = codes "old"; versions = an_entry ∷ [] }

abbrev index_bytes : VersionIndex → Bytes
index_bytes idx = elim (small_lib.json.marshal idx) [ none ↦ [] | some b ↦ b ]

abbrev pub held_world : World
held_world =
    put_file (index_at small_lib small_store small_store-IsSound (codes "n1") (codes "k"))
      (some (index_bytes held)) small_world

abbrev pub result_in : Result ShareResult → ShareResult
result_in (ok r) = r
result_in (err e) = record { peers_tried = 0; peers_stored = 0; placements = []; failures = [] }

unfoldable pub shared_run : Result ShareResult × World
unfolding share
shared_run = share small_server count_two (codes "k") [] [] (codes "hi") held_world

pub shared_ended : shared_run.0 ≡ ok (result_in shared_run.0)
unfolding shared_run has load_index read_file list_beq split index_path encode
shared_ended = refl

pub share_ran :
    share small_server count_two (codes "k") [] [] (codes "hi") held_world
    ≡ (ok (result_in shared_run.0), shared_run.1)
share_ran = unfold shared_run in result_of shared_run (ok (result_in shared_run.0)) shared_ended

share_counts_example :
    ((result_in shared_run.0).peers_tried ≡ length count_two)
    × (length (result_in shared_run.0).placements ≡ (result_in shared_run.0).peers_stored)
    × ((result_in shared_run.0).peers_stored + length (result_in shared_run.0).failures
        ≡ (result_in shared_run.0).peers_tried)
share_counts_example =
    share_counts small_server count_two (codes "k") [] [] (codes "hi") held_world shared_run.1
      (result_in shared_run.0) share_ran

refused :
    ¬ IsAccepted small_server a_stream (read_message small_codecs.store_request a_stream.incoming)
unfolding read_message read_full get_uint32
refused (allowed, size) = cc allowed

handle_store_refused_example : (handle_store small_server a_stream small_world).1 ≡ small_world
handle_store_refused_example = handle_store_refused small_server a_stream small_world refused

handle_get-files_example : (handle_get small_server a_stream held_world).1.files ≡ held_world.files
handle_get-files_example = handle_get-files small_server a_stream held_world
