-- ===== src/Server/Peers/Custody.antt =====
-- internal/server: a version that a node sent to a peer which accepted it is in the peer's store.
use weave_fs.Base.{
  ℤ, pos, to_count, some, [], ◌++◌, Bytes, Text, length, ◌≡◌, ◌⊎◌, refl, arith, ap, ◌∙◌, sym, subst,
  inr,
}
use weave_fs.Exec.Laws.{ok-injective}
use weave_fs.Exec.{ok, World, calm}
use weave_fs.Disk.{Reader, reader_of, limit_reader}
use weave_fs.Store.Version.{VersionEntry, VersionIndex, IsRoundTrip, load_index}
use weave_fs.Store.Ops.{index_file, write_version_raw, read_version_raw}
use weave_fs.Store.Write.{IsSound}
use weave_fs.Store.Commit.{AreApart}
use weave_fs.Store.Holds.{Holds, read_version_raw-RawRead, Holds-blob, Holds-read_version_raw}
use weave_fs.Store.Raw.{write_version_raw-Holds}
use weave_fs.Proto.Codec.{frame, read_message}
use weave_fs.Proto.Codec.Laws.{read_message-frame}
use weave_fs.Proto.Messages.{StoreRequest}
use weave_fs.Server.Types.{Codecs, Dialled, FileServer, meta_from_entry, entry_from_meta}
use weave_fs.Server.Handlers.{Stream, handle_store}
use weave_fs.Server.Handlers.Replies.{take_all}
use weave_fs.Server.Handlers.Stored.{StoredWhole, handle_store-StoredWhole}
use weave_fs.Server.Fanout.{store_protocol, send_blob}
use weave_fs.Server.Fanout.Exchange.{send_blob-Sent}
use weave_fs.Server.Peers.{carrying, sent_bytes, dial_store}

-- Two servers with the same JSON, which reads back what it prints.
pub record IsAlike (a b : FileServer) : Type 0 where
  pub codecs : b.codecs ≡ a.codecs
  pub store_request : IsRoundTrip b.codecs.store_request
  pub store_response : IsRoundTrip b.codecs.store_response
  pub get_request : IsRoundTrip b.codecs.get_request
  pub get_response : IsRoundTrip b.codecs.get_response

-- A reader that is as long as the limit is not cut.
pub limit_reader_all : (b : Bytes) → limit_reader (reader_of b) (length b) ≡ reader_of b
unfolding limit_reader
limit_reader_all b = ap reader_of (take_all (length b) b (omega arith))

module _ (a b : FileServer) (alike : IsAlike a b) (key : Text) (entry : VersionEntry) where
  -- The request that goes with so many bytes.
  abbrev request : ℤ → StoreRequest
  request n = record { origin_id = a.node_id; key = key; meta = meta_from_entry entry n }

  stored_request :
      (n : ℤ) (blob : Reader) (sent : Bytes) (req : StoreRequest) (rest : Reader) (wb wb' : World)
      → n ≡ pos (length blob.bytes)
      → frame b.codecs.store_request (request n) ≡ ok sent
      → read_message b.codecs.store_request (reader_of (sent ++ blob.bytes)) ≡ ok (req, rest)
      → StoredWhole b req rest wb wb'
      → write_version_raw b.lib b.store a.node_id key entry (reader_of blob.bytes) wb ≡ (ok tt, wb')
  unfolding meta_from_entry entry_from_meta
  stored_request n blob sent req rest wb wb' count printed read whole =
      let same : ◌≡◌ {A = StoreRequest × Reader} (req, rest) (request n, reader_of blob.bytes) =
        ok-injective (
          sym read
          ∙ read_message-frame b.codecs.store_request alike.store_request (request n) sent
              (reader_of blob.bytes) printed) in
      let done : StoredWhole b (request n) (reader_of blob.bytes) wb wb' =
        subst (λ (x : StoreRequest × Reader). StoredWhole b x.0 x.1 wb wb') same whole in
      ap (λ (r : Reader). write_version_raw b.lib b.store a.node_id key entry r wb)
        (sym (limit_reader_all blob.bytes)
          ∙ ap (λ (z : ℤ). limit_reader (reader_of blob.bytes) (to_count z)) (sym count))
      ∙ done.wrote

  -- The peer that a send went to, behind it.
  pub record Kept (st : Stream) (wb : World) (wa : World) : Type 0 where
    pub blob : Bytes
    pub behind : World
    pub read :
        read_version_raw a.lib a.store a.node_id key entry.version_id wa
        ≡ (ok (pos (length blob), reader_of blob), behind)
    pub wrote :
        write_version_raw b.lib b.store a.node_id key entry (reader_of blob) wb
        ≡ (ok tt, (handle_store b (carrying st (sent_bytes a key entry wa)) wb).1)

  pub send_blob-Kept :
      (to : Text) (d : Dialled) (st : Stream) (wa wa' wb : World)
      → a.network to store_protocol ≡ some (dial_store d b st wb)
      → send_blob a key entry to wa ≡ (ok tt, wa')
      → Kept st wb wa
  unfolding sent_bytes
  send_blob-Kept to d st wa wa' wb net h =
      let done = send_blob-Sent a key entry to (dial_store d b st wb) wa wa' net h in
      let raw =
        read_version_raw-RawRead a.lib a.store a.node_id key entry.version_id wa done.behind
          done.count done.blob done.read in
      let answer = (dial_store d b st wb).answer (done.exchanged.framed ++ done.blob.bytes) in
      let said : read_message b.codecs.store_response answer ≡ ok (done.resp, done.rest) =
        ap (λ (c : Codecs). read_message c.store_response answer) alike.codecs
        ∙ done.exchanged.answered in
      let printed : frame b.codecs.store_request (request done.count) ≡ ok done.exchanged.framed =
        ap (λ (c : Codecs). frame c.store_request (request done.count)) alike.codecs
        ∙ done.exchanged.printed in
      let incoming = carrying st (done.exchanged.framed ++ done.blob.bytes) in
      let same : sent_bytes a key entry wa ≡ done.exchanged.framed ++ done.blob.bytes =
        rw (done.read, done.exchanged.printed) in
      let (req, rest, read, whole) =
        handle_store-StoredWhole b incoming alike.store_response wb done.resp answer.fails done.rest
          said done.accepted in
      record {
        blob = done.blob.bytes;
        behind = done.behind;
        read = done.read ∙ (λ i. (
          ok (raw.count i, record { bytes = done.blob.bytes; fails = raw.whole i }),
          done.behind,
        ));
        wrote =
            (stored_request done.count done.blob done.exchanged.framed req rest wb
              (handle_store b incoming wb).1 raw.count printed read whole)
            ∙ ap (λ (x : Bytes). (ok tt, (handle_store b (carrying st x) wb).1)) (sym same);
      }

-- A version that was sent to a peer whose answer said OK, on a stream and on machines with any
-- faults: what was read here is what the peer then hands back, byte for byte, by the ID and as the
-- latest version. The peer's handler answers, both servers print and read the same JSON, the
-- peer's store is sound, and no version that its index listed has its blob in the same top folder.
pub send_blob-read_version_raw :
    (a b : FileServer) (alike : IsAlike a b) (sound : IsSound b.lib b.store) (key : Text)
    (entry : VersionEntry) (to : Text) (d : Dialled) (st : Stream) (wa wa' wb : World)
    (idx : VersionIndex) (id : Text)
    → a.network to store_protocol ≡ some (dial_store d b st wb)
    → send_blob a key entry to wa ≡ (ok tt, wa')
    → (load_index b.lib (index_file b.lib b.store a.node_id key) key wb).0 ≡ ok idx
    → AreApart b.lib b.store sound a.node_id key entry.version_id idx.versions
    → (id ≡ []) ⊎ (id ≡ entry.version_id)
    → (blob : Bytes) × ((read_version_raw a.lib a.store a.node_id key entry.version_id wa).0
        ≡ ok (pos (length blob), reader_of blob))
      × (read_version_raw b.lib b.store a.node_id key id
            (calm (handle_store b (carrying st (sent_bytes a key entry wa)) wb).1)
          ≡ (
            ok (pos (length blob), reader_of blob),
            calm (handle_store b (carrying st (sent_bytes a key entry wa)) wb).1,
          ))
send_blob-read_version_raw a b alike sound key entry to d st wa wa' wb idx id net ended loaded apart
      asked =
    let kept = send_blob-Kept a b alike key entry to d st wa wa' wb net ended in
    let holds =
      write_version_raw-Holds b.lib b.store sound a.node_id key entry (reader_of kept.blob) wb idx
        (handle_store b (carrying st (sent_bytes a key entry wa)) wb).1 loaded kept.wrote apart in
    (
      kept.blob,
      ap (λ x. x.0) kept.read,
      Holds-read_version_raw b.lib b.store sound a.node_id key holds id asked,
    )

-- What the sender's store held, the peer's store holds.
pub send_blob-Holds :
    (a b : FileServer) (alike : IsAlike a b) (here : IsSound a.lib a.store)
    (sound : IsSound b.lib b.store) (key : Text) (entry : VersionEntry) (blob : Bytes) (to : Text)
    (d : Dialled) (st : Stream) (wa wa' wb : World) (idx : VersionIndex)
    → Holds a.lib a.store here a.node_id key entry blob wa
    → a.network to store_protocol ≡ some (dial_store d b st wb)
    → send_blob a key entry to wa ≡ (ok tt, wa')
    → (load_index b.lib (index_file b.lib b.store a.node_id key) key wb).0 ≡ ok idx
    → AreApart b.lib b.store sound a.node_id key entry.version_id idx.versions
    → Holds b.lib b.store sound a.node_id key entry blob
        (handle_store b (carrying st (sent_bytes a key entry wa)) wb).1
send_blob-Holds a b alike here sound key entry blob to d st wa wa' wb idx held net ended loaded
      apart =
    let kept = send_blob-Kept a b alike key entry to d st wa wa' wb net ended in
    let same : kept.blob ≡ blob =
      Holds-blob a.lib a.store here a.node_id key held entry.version_id (inr refl)
        (pos (length kept.blob)) (reader_of kept.blob) kept.behind kept.read in
    subst
      (λ (x : Bytes).
        Holds b.lib b.store sound a.node_id key entry x
          (handle_store b (carrying st (sent_bytes a key entry wa)) wb).1)
      same
      (write_version_raw-Holds b.lib b.store sound a.node_id key entry (reader_of kept.blob) wb idx
        (handle_store b (carrying st (sent_bytes a key entry wa)) wb).1 loaded kept.wrote apart)
