-- ===== src/Server/Fanout/Files.antt =====
-- What the calls on peers do to the files here, and what a node answers from its own store.
use weave_fs.Base.{
  ℤ, not, Option, none, some, List, [], ◌∷◌, ◌++◌, Bytes, Text, length, ◌≡◌, ◌⊎◌, refl, ap, ◌∙◌,
  sym,
}
use weave_fs.Exec.Laws.{ok-injective}
use weave_fs.Exec.{
  no_stream, send_failed, peer_refused, Result, ok, err, World, Exec, pure, lift, guard, calm,
  ◌>>=◌, ◌>>◌,
}
use weave_fs.Disk.{Reader, reader_of}
use weave_fs.Store.Version.{VersionEntry, Json}
use weave_fs.Store.Blob.{unwrapped}
use weave_fs.Store.Ops.{write_version, read_version_raw}
use weave_fs.Store.Reads.{KeepsFiles, >>=-KeepsFiles, read_version_raw-files}
use weave_fs.Store.Write.{IsSound}
use weave_fs.Store.Holds.{Holds, Holds-has, Holds-read_version}
use weave_fs.Proto.Codec.{frame, read_message}
use weave_fs.Proto.Messages.{StoreRequest, StoreResponse}
use weave_fs.Server.Types.{Dialled, FileServer, WriteResult, meta_from_entry}
use weave_fs.Server.Targets.{select_peers}
use weave_fs.Server.Handlers.{has_room}
use weave_fs.Server.Fanout.{
  store_protocol, dialled, open_stream, exchange, slots, send_blob, replicate, replicated_after,
  store_version, read_or_fetched, get_version,
}

open_stream-files :
    (srv : FileServer) (to protocol : Text) → KeepsFiles (open_stream srv to protocol)
unfolding open_stream dialled
open_stream-files srv to protocol =
    >>=-KeepsFiles (dialled (srv.network to protocol))
      (λ d. guard d.has_deadline no_stream >> pure d)
      (λ w. dialled-files (srv.network to protocol) w)
      (λ d. >>=-KeepsFiles (guard d.has_deadline no_stream) (λ _. pure d) (λ w. refl) (λ u w. refl))
  where
    dialled-files : (o : Option Dialled) → KeepsFiles (dialled o)
    dialled-files none w = refl
    dialled-files (some d) w = refl

exchange-files :
    {A B : Type 0} (ask : Json A) (answer : Json B) (d : Dialled) (req : A) (body : Reader)
    → KeepsFiles (exchange ask answer d req body)
unfolding exchange
exchange-files ask answer d req body =
    >>=-KeepsFiles (lift (frame ask req))
      (λ b.
        guard (has_room d.room (length (b ++ body.bytes))) send_failed
        >> (guard (not body.fails) send_failed
            >> (guard d.closes_write send_failed
                >> lift (read_message answer (d.answer (b ++ body.bytes))))))
      (λ w. refl)
      (λ b.
        >>=-KeepsFiles (guard (has_room d.room (length (b ++ body.bytes))) send_failed)
          (λ _.
            guard (not body.fails) send_failed
            >> (guard d.closes_write send_failed
                >> lift (read_message answer (d.answer (b ++ body.bytes)))))
          (λ w. refl)
          (λ u.
            >>=-KeepsFiles (guard (not body.fails) send_failed)
              (λ _.
                guard d.closes_write send_failed
                >> lift (read_message answer (d.answer (b ++ body.bytes))))
              (λ w. refl)
              (λ v.
                >>=-KeepsFiles (guard d.closes_write send_failed)
                  (λ _. lift (read_message answer (d.answer (b ++ body.bytes)))) (λ w. refl)
                  (λ x w. refl))))

-- A send reads what is here, and writes nothing.
send_blob-files :
    (srv : FileServer) (key : Text) (entry : VersionEntry) (to : Text)
    → KeepsFiles (send_blob srv key entry to)
unfolding send_blob
send_blob-files srv key entry to =
    let ask : ℤ → StoreRequest =
      λ n. record { origin_id = srv.node_id; key = key; meta = meta_from_entry entry n } in
    let talk : ℤ × Reader → Dialled → Exec (StoreResponse × Reader) =
      λ blob d. exchange srv.codecs.store_request srv.codecs.store_response d (ask blob.0) blob.1 in
    let ended : StoreResponse × Reader → Exec (Unit {0}) =
      λ resp. guard resp.0.is_ok peer_refused in
    let dial = open_stream srv to store_protocol in
    >>=-KeepsFiles (read_version_raw srv.lib srv.store srv.node_id key entry.version_id)
      (λ blob. dial >>= λ d. talk blob d >>= ended)
      (read_version_raw-files srv.lib srv.store srv.node_id key entry.version_id)
      (λ blob.
        >>=-KeepsFiles dial (λ d. talk blob d >>= ended) (open_stream-files srv to store_protocol)
          (λ d.
            >>=-KeepsFiles (talk blob d) ended
              (exchange-files srv.codecs.store_request srv.codecs.store_response d (ask blob.0)
                blob.1)
              (λ resp w. refl)))

slots-files :
    {A : Type 0} (send : Text → Exec A) (ps : List Text) (w : World)
    → ((p : Text) → KeepsFiles (send p))
    → (slots send ps w).1.files ≡ w.files
unfolding slots
slots-files send [] w h = refl
slots-files send (p ∷ ps) w h = slots-files send ps (send p w).1 h ∙ h p w

replicate-files :
    (srv : FileServer) (key : Text) (entry : VersionEntry) (w : World)
    → (replicate srv key entry w).1.files ≡ w.files
unfolding replicate
replicate-files srv key entry w =
    slots-files (send_blob srv key entry) (select_peers srv.replication_factor srv.peers) w
      (send_blob-files srv key entry)

-- A store that returned wrote the version that it reports, and the replication left the files.
pub record StoredVersion (srv : FileServer) (key message : Text) (r : Reader) (w : World)
    (result : WriteResult) (w' : World) : Type 0 where
  pub entry : VersionEntry
  pub written : World
  pub wrote : write_version srv.lib srv.store srv.node_id key message r w ≡ (ok entry, written)
  pub same : w'.files ≡ written.files
  pub reported : result ≡ record (replicate srv key entry written).0 { entry = some entry }

stored_after :
    (srv : FileServer) (key message : Text) (r : Reader) (w : World) (e : Result VersionEntry)
    (w1 : World) (result : WriteResult) (w' : World)
    → write_version srv.lib srv.store srv.node_id key message r w ≡ (e, w1)
    → replicated_after srv key e w1 ≡ (ok result, w')
    → StoredVersion srv key message r w result w'
unfolding replicated_after
stored_after srv key message r w (err e) w1 result w' wrote h = absurd (cc h)
stored_after srv key message r w (ok entry) w1 result w' wrote h = record {
  entry = entry;
  written = w1;
  wrote = wrote;
  same = ap (λ x. x.1.files) (sym h) ∙ replicate-files srv key entry w1;
  reported = sym (ok-injective (ap (λ x. x.0) h));
}

pub store_version-StoredVersion :
    (srv : FileServer) (key message : Text) (r : Reader) (w : World) (result : WriteResult)
    (w' : World)
    → store_version srv key message r w ≡ (ok result, w')
    → StoredVersion srv key message r w result w'
unfolding store_version
store_version-StoredVersion srv key message r w result w' h =
    let (e, w1) = write_version srv.lib srv.store srv.node_id key message r w in
    stored_after srv key message r w e w1 result w' refl h

-- What the store here holds is answered from here.
pub get_version-Holds :
    (srv : FileServer) (sound : IsSound srv.lib srv.store) (key : Text) (entry : VersionEntry)
    (blob : Bytes) (w : World) (id : Text) (content : Reader)
    → Holds srv.lib srv.store sound srv.node_id key entry blob w
    → (id ≡ []) ⊎ (id ≡ entry.version_id)
    → unwrapped srv.store.cipher (reader_of blob) ≡ ok content
    → get_version srv key id (calm w) ≡ (ok (entry.size_bytes, content), calm w)
unfolding get_version read_or_fetched
get_version-Holds srv sound key entry blob w id content held asked opens = rw (
  Holds-has srv.lib srv.store sound srv.node_id key held id asked,
  Holds-read_version srv.lib srv.store sound srv.node_id key held id asked content opens,
)
