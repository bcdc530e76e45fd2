-- ===== src/Server/Peers.antt =====
-- internal/server: two file servers joined by a stream. What one sends is what the other's handler
-- finds, and what the handler sends is what the first reads.
pub mod Custody
pub mod Recovery
use weave_fs.Base.{ℤ, [], ◌++◌, Bytes, Text}
use weave_fs.Exec.{Result, ok, err, World}
use weave_fs.Disk.{Reader, reader_of}
use weave_fs.Store.Version.{VersionEntry, Json}
use weave_fs.Proto.Messages.{StoreRequest}
use weave_fs.Store.Ops.{read_version_raw}
use weave_fs.Proto.Codec.{frame}
use weave_fs.Server.Types.{Dialled, FileServer, meta_from_entry}
use weave_fs.Server.Handlers.{Stream, Outcome, handle_store, handle_get}

-- A stream that was reset ends in an error where it should end.
abbrev pub received : Outcome → Reader
received o = record { bytes = o.sent; fails = o.is_reset }

-- The stream as the handler finds it when the peer has sent the bytes and closed its side.
abbrev pub carrying : Stream → Bytes → Stream
carrying st b = record st { incoming = reader_of b }

sent_behind : Result Bytes → Bytes → Bytes
sent_behind (err e) blob = []
sent_behind (ok header) blob = header ++ blob

sent_read : Json StoreRequest → Text → Text → VersionEntry → Result (ℤ × Reader) → Bytes
unfolding sent_behind
sent_read json node_id key entry (err e) = []
sent_read json node_id key entry (ok (n, blob)) =
    sent_behind
      (frame json (record { origin_id = node_id; key = key; meta = meta_from_entry entry n }))
      blob.bytes

-- What a send puts on the stream: the request, and the blob as it is on disk.
unfoldable pub sent_bytes : FileServer → Text → VersionEntry → World → Bytes
unfolding sent_read
sent_bytes srv key entry w =
    sent_read srv.codecs.store_request srv.node_id key entry
      (read_version_raw srv.lib srv.store srv.node_id key entry.version_id w).0

-- A stream to a peer whose handler answers on the given machine.
abbrev pub dial_store : Dialled → FileServer → Stream → World → Dialled
dial_store d srv st w = record d { answer = λ b. received (handle_store srv (carrying st b) w).0 }

abbrev pub dial_get : Dialled → FileServer → Stream → World → Dialled
dial_get d srv st w = record d { answer = λ b. received (handle_get srv (carrying st b) w).0 }
