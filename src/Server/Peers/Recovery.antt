-- ===== src/Server/Peers/Recovery.antt =====
-- internal/server: a version that a node lost comes back whole from a peer that holds it.
use weave_fs.Base.{
  ℕ, ◌≤◌, pos, to_count, Bool, Option, none, some, [], ◌++◌, Bytes, Text, take, length, ◌≡◌, ◌⊎◌,
  arith, ap, ◌∙◌, sym, subst, length-take,
}
use weave_fs.Exec.Laws.{some-injective}
use weave_fs.Exec.{ok, World, calm}
use weave_fs.Disk.{Reader, reader_of, limit_reader}
use weave_fs.Store.Version.{VersionEntry, VersionIndex, load_index}
use weave_fs.Store.Ops.{index_file, write_version, write_version_raw, read_version}
use weave_fs.Store.Write.{IsSound}
use weave_fs.Store.Commit.{AreApart}
use weave_fs.Store.Holds.{Holds, Holds-read_version}
use weave_fs.Store.Raw.{write_version_raw-Holds}
use weave_fs.Store.ReadBack.{write_version-Holds}
use weave_fs.Proto.Codec.{frame, read_message}
use weave_fs.Proto.Codec.Laws.{read_message-frame}
use weave_fs.Proto.Messages.{VersionMeta, GetRequest}
use weave_fs.Server.Types.{Codecs, Dialled, FileServer, meta_from_entry, entry_from_meta}
use weave_fs.Server.Handlers.{Stream, fitting, handle_store}
use weave_fs.Server.Handlers.Replies.{take_all}
use weave_fs.Server.Handlers.Served.{handle_get-Supplied}
use weave_fs.Server.Fanout.{store_protocol, get_protocol, send_blob, fetch_blob}
use weave_fs.Server.Fanout.Exchange.{fetch_blob-Fetched}
use weave_fs.Server.Peers.{carrying, sent_bytes, dial_store, dial_get}
use weave_fs.Server.Peers.Custody.{IsAlike, send_blob-Holds}

-- What came through is all, if it is as long as all.
take-fitting :
    (room : Option ℕ) (b : Bytes)
    → length (take (length b) (fitting room b)) ≡ length b
    → take (length b) (fitting room b) ≡ b
unfolding fitting
take-fitting none b h = take_all (length b) b (omega arith)
take-fitting (some m) b h =
    let room : length b ≤ m =
      omega (arith, h, length-take {0} (length b) (take m b), length-take {0} m b) in
    ap (take (length b)) (take_all m b room) ∙ take_all (length b) b (omega arith)

module _ (a b : FileServer) (alike : IsAlike a b) (here : IsSound a.lib a.store)
    (sound : IsSound b.lib b.store) (key : Text) (entry : VersionEntry) (blob : Bytes) where
  stored_fetched :
      (meta : VersionMeta) (rest : Reader) (room : Option ℕ) (f : Bool) (wa wa' : World)
      (idx : VersionIndex)
      → meta ≡ meta_from_entry entry (pos (length blob))
      → rest ≡ record { bytes = fitting room blob; fails = f }
      → length (limit_reader rest (to_count meta.blob_bytes)).bytes ≡ to_count meta.blob_bytes
      → write_version_raw a.lib a.store a.node_id key
          (entry_from_meta meta)
          (limit_reader rest (to_count meta.blob_bytes))
          wa
        ≡ (ok tt, wa')
      → (load_index a.lib (index_file a.lib a.store a.node_id key) key wa).0 ≡ ok idx
      → AreApart a.lib a.store here a.node_id key entry.version_id idx.versions
      → Holds a.lib a.store here a.node_id key entry blob wa'
  unfolding limit_reader meta_from_entry entry_from_meta
  stored_fetched meta rest room f wa wa' idx named behind complete wrote loaded apart =
      let came : Reader = record { bytes = fitting room blob; fails = f } in
      let known : VersionMeta = meta_from_entry entry (pos (length blob)) in
      let full : length (limit_reader came (length blob)).bytes ≡ length blob =
        subst
          (λ (x : VersionMeta × Reader).
            length (limit_reader x.1 (to_count x.0.blob_bytes)).bytes ≡ to_count x.0.blob_bytes)
          {x = (meta, rest)} {y = (known, came)} (λ i. (named i, behind i)) complete in
      let stored : write_version_raw a.lib a.store a.node_id key entry
            (limit_reader came (length blob)) wa
          ≡ (ok tt, wa') =
        subst
          (λ (x : VersionMeta × Reader).
            write_version_raw a.lib a.store a.node_id key (entry_from_meta x.0)
              (limit_reader x.1 (to_count x.0.blob_bytes)) wa
            ≡ (ok tt, wa'))
          {x = (meta, rest)} {y = (known, came)} (λ i. (named i, behind i)) wrote in
      subst (λ (x : Bytes). Holds a.lib a.store here a.node_id key entry x wa')
        (take-fitting room blob full)
        (write_version_raw-Holds a.lib a.store here a.node_id key entry
          (limit_reader came (length blob)) wa idx wa' loaded stored apart)

  -- What the peer's store held, the fetcher's store holds.
  pub fetch_blob-Holds :
      (id from : Text) (d : Dialled) (st : Stream) (wa wa' wb : World) (idx : VersionIndex)
      → Holds b.lib b.store sound a.node_id key entry blob wb
      → (id ≡ []) ⊎ (id ≡ entry.version_id)
      → a.network from get_protocol ≡ some (dial_get d b st (calm wb))
      → fetch_blob a key id from wa ≡ (ok tt, wa')
      → (load_index a.lib (index_file a.lib a.store a.node_id key) key wa).0 ≡ ok idx
      → AreApart a.lib a.store here a.node_id key entry.version_id idx.versions
      → Holds a.lib a.store here a.node_id key entry blob wa'
  fetch_blob-Holds id from d st wa wa' wb idx held asked net ended loaded apart =
      let done = fetch_blob-Fetched a key id from (dial_get d b st (calm wb)) wa wa' net ended in
      let req : GetRequest = record { origin_id = a.node_id; key = key; version_id = id } in
      let incoming = carrying st (done.exchanged.framed ++ []) in
      let answer = (dial_get d b st (calm wb)).answer (done.exchanged.framed ++ []) in
      let printed : frame b.codecs.get_request req ≡ ok done.exchanged.framed =
        ap (λ (c : Codecs). frame c.get_request req) alike.codecs ∙ done.exchanged.printed in
      let said : read_message b.codecs.get_response answer ≡ ok (done.resp, done.rest) =
        ap (λ (c : Codecs). read_message c.get_response answer) alike.codecs
        ∙ done.exchanged.answered in
      let got =
        handle_get-Supplied b incoming alike.get_response sound entry blob wb done.resp answer.fails
          done.rest done.found req (reader_of [])
          (read_message-frame b.codecs.get_request alike.get_request req done.exchanged.framed
            (reader_of []) printed)
          held asked said in
      stored_fetched done.meta done.rest got.room answer.fails wa wa' idx
        (some-injective (sym done.carried ∙ got.named)) got.behind done.complete done.wrote loaded
        apart

-- A version was written here and sent to a peer whose answer said OK. Whatever this machine lost
-- since, once a fetch from that peer returns, a read of the version yields what was first written,
-- with its length. Each call may have met any fault on its way; the peer's handlers answer, both
-- servers print and read the same JSON, both stores are sound, and no version that an index listed
-- before has its blob in the top folder of this one's.
pub recovered :
    (a b : FileServer) (alike : IsAlike a b) (here : IsSound a.lib a.store)
    (sound : IsSound b.lib b.store) (key message to : Text) (content : Reader)
    (entry : VersionEntry) (d d' : Dialled) (st st' : Stream) (w0 w1 w2 wb w3 w4 : World)
    (idx0 idxb idx3 : VersionIndex) (id : Text)
    → (load_index a.lib (index_file a.lib a.store a.node_id key) key w0).0 ≡ ok idx0
    → write_version a.lib a.store a.node_id key message content w0 ≡ (ok entry, w1)
    → AreApart a.lib a.store here a.node_id key entry.version_id idx0.versions
    → a.network to store_protocol ≡ some (dial_store d b st wb)
    → send_blob a key entry to w1 ≡ (ok tt, w2)
    → (load_index b.lib (index_file b.lib b.store a.node_id key) key wb).0 ≡ ok idxb
    → AreApart b.lib b.store sound a.node_id key entry.version_id idxb.versions
    → a.network to get_protocol
      ≡ some
          (dial_get d' b st' (calm (handle_store b (carrying st (sent_bytes a key entry w1)) wb).1))
    → fetch_blob a key id to w3 ≡ (ok tt, w4)
    → (load_index a.lib (index_file a.lib a.store a.node_id key) key w3).0 ≡ ok idx3
    → AreApart a.lib a.store here a.node_id key entry.version_id idx3.versions
    → (id ≡ []) ⊎ (id ≡ entry.version_id)
    → (entry.size_bytes ≡ pos (length content.bytes))
      × (read_version a.lib a.store a.node_id key id (calm w4)
          ≡ (ok (entry.size_bytes, reader_of content.bytes), calm w4))
recovered a b alike here sound key message to content entry d d' st st' w0 w1 w2 wb w3 w4 idx0 idxb
      idx3 id loaded0 written apart0 net sent loadedb apartb net' fetched loaded3 apart3 asked =
    let (size, (blob, held, opens)) =
      write_version-Holds a.lib a.store here a.node_id key message content w0 idx0 entry w1 loaded0
        written apart0 in
    let kept =
      send_blob-Holds a b alike here sound key entry blob to d st w1 w2 wb idxb held net sent
        loadedb apartb in
    let back =
      fetch_blob-Holds a b alike here sound key entry blob id to d' st' w3 w4
        (handle_store b (carrying st (sent_bytes a key entry w1)) wb).1 idx3 kept asked net' fetched
        loaded3 apart3 in
    (
      size,
      Holds-read_version a.lib a.store here a.node_id key back id asked (reader_of content.bytes)
          opens,
    )
